-- ===== src/Ioutils/Fifo.antt =====
-- The pipe with one writer, readers and `Close`, as a step relation.
-- About pkg/ioutils.
use deviced.Base.{ℕ, [], ◌++◌, append_assoc, Bytes, length, ◌≡◌, refl, sym, ap, ◌∙◌}
use deviced.Ioutils.BytesPipe.{
  BytesPipe, get_buffer, new_bytes_pipe, Writer, writing, growing, wrote, write_round, grow_round,
  close_pipe, got, read_round,
}
use deviced.Ioutils.Content.{
  content, write_round-content, grow_round-content, IsRead, read_round-IsRead,
}

-- The pipe, the call of `Write` that is under way, and what went in and came out so far.
pub record PipeState : Type 0 where
  pub pipe : BytesPipe
  pub writer : Writer
  pub accepted : Bytes
  pub delivered : Bytes

abbrev pub fresh : PipeState
fresh = record { pipe = new_bytes_pipe; writer = wrote 0; accepted = []; delivered = [] }

-- Rounds of one writer, of readers and of `Close` in any order.
pub data PipeStep (s : PipeState) : PipeState → Type 0 where
  call_write :
      (p : Bytes) (n : ℕ) → s.writer ≡ wrote n → PipeStep s (record s { writer = writing p 0 })
  round_write :
      (p : Bytes) (n : ℕ)
      → s.writer ≡ writing p n
      → PipeStep s (record s {
        pipe = (write_round p n s.pipe).2;
        writer = (write_round p n s.pipe).0;
        accepted = s.accepted ++ (write_round p n s.pipe).1;
      })
  round_grow :
      (p : Bytes) (n cap : ℕ)
      → s.writer ≡ growing p n cap
      → PipeStep s (record s {
        pipe = (grow_round p n cap s.pipe).1;
        writer = (grow_round p n cap s.pipe).0;
      })
  round_read :
      (k : ℕ) (out : Bytes) (after : BytesPipe)
      → read_round k s.pipe ≡ got out after
      → PipeStep s (record s { pipe = after; delivered = s.delivered ++ out })
  call_close : PipeStep s (record s { pipe = close_pipe s.pipe })

pub data PipeReach : PipeState → Type 0 where
  start : PipeReach fresh
  step : {s t : PipeState} → PipeReach s → PipeStep s t → PipeReach t

-- What went in is what came out and what waits, and `bufLen` counts the latter.
pub record IsQueue (s : PipeState) : Type 0 where
  pub order : s.accepted ≡ s.delivered ++ content s.pipe.buf
  pub count : s.pipe.buf_len ≡ length (content s.pipe.buf)

PipeStep-IsQueue : {s t : PipeState} → PipeStep s t → IsQueue s → IsQueue t
PipeStep-IsQueue (call_write p n w) h = record { order = h.order; count = h.count }
PipeStep-IsQueue {s} (round_write p n w) h =
    let (c, l) = write_round-content p n s.pipe h.count in
    record {
      order =
          ap (λ a. a ++ (write_round p n s.pipe).1) h.order
          ∙ (append_assoc s.delivered (content s.pipe.buf) (write_round p n s.pipe).1
              ∙ ap (λ c. s.delivered ++ c) (sym c));
      count = l;
    }
PipeStep-IsQueue {s} (round_grow p n cap w) h =
    let (c, l) = grow_round-content p n cap s.pipe in
    record {
      order = h.order ∙ ap (λ c. s.delivered ++ c) (sym c);
      count = l ∙ (h.count ∙ ap length (sym c));
    }
PipeStep-IsQueue {s} (round_read k out after r) h =
    let read = read_round-IsRead k s.pipe h.count in
    let (c, l) = (rw r at read) in
    record {
      order =
          h.order
          ∙ (ap (λ c. s.delivered ++ c) (sym c)
              ∙ sym (append_assoc s.delivered out (content after.buf)));
      count = l;
    }
PipeStep-IsQueue {s} call_close h = unfold close_pipe in record { order = h.order; count = h.count }

PipeReach-IsQueue : {s : PipeState} → PipeReach s → IsQueue s
PipeReach-IsQueue start = unfold new_bytes_pipe get_buffer in record { order = refl; count = refl }
PipeReach-IsQueue (step r st) = PipeStep-IsQueue st (PipeReach-IsQueue r)

-- Whatever the order of the rounds of one writer, of readers and of `Close`: all the bytes that the
-- writes put in are those that the reads got, in the same order, and behind them those that wait in
-- the buffers; and a further read of any length does not panic, and gets the first of these.
pub bytes_pipe_fifo :
    {s : PipeState}
    → PipeReach s
    → (s.accepted ≡ s.delivered ++ content s.pipe.buf)
      × ((k : ℕ) → IsRead s.pipe (read_round k s.pipe))
bytes_pipe_fifo {s} r =
    let h = PipeReach-IsQueue r in (h.order, λ k. read_round-IsRead k s.pipe h.count)
