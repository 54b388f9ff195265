-- ===== src/Ioutils/BytesPipe.antt =====
-- pkg/ioutils/bytespipe.go: a queue of bytes. A writer and a reader hold the lock but for their waits;
-- what runs between two waits is one round. The pools of buffers are left out: a buffer that comes from
-- a pool has been reset.
use deviced.Base.{
  ℕ, ◌+◌, ◌-◌, ◌*◌, List, [], ◌∷◌, ◌++◌, Option, none, some, Bool, true, false, not, Bytes, ltb,
  leb, ◌==◌, if◌then◌else◌, take, drop, length,
}
use deviced.Ioutils.Buffer.{
  FixedBuffer, WriteError, no_error, buffer_full, short_write, write_buffer, read_buffer,
  buffer_len,
}

abbrev pub max_cap : ℕ
max_cap = 1000000

abbrev pub min_cap : ℕ
min_cap = 64

abbrev pub block_threshold : ℕ
block_threshold = 1000000

unfoldable pub get_buffer : ℕ → FixedBuffer
get_buffer size = record { capacity = size; used = []; unread = [] }

-- `closed` is `closeErr != nil`.
pub record BytesPipe : Type 0 where
  pub buf : List FixedBuffer
  pub buf_len : ℕ
  pub closed : Bool

unfoldable pub new_bytes_pipe : BytesPipe
new_bytes_pipe = record { buf = get_buffer min_cap ∷ []; buf_len = 0; closed = false }

-- What a write into the last buffer gives; `last_cap` is the capacity of that buffer.
pub record Written : Type 0 where
  pub count : ℕ
  pub error : WriteError
  pub last_cap : ℕ
  pub buf : List FixedBuffer

unfoldable pub write_last : Bytes → FixedBuffer → List FixedBuffer → Written
write_last p b [] =
    let (n, error, b') = write_buffer p b in
    record { count = n; error = error; last_cap = b.capacity; buf = b' ∷ [] }
write_last p b (c ∷ bs) = let w = write_last p c bs in record w { buf = b ∷ w.buf }

unfoldable pub write_bufs : Bytes → List FixedBuffer → Written
write_bufs p [] = write_last p (get_buffer 64) []
write_bufs p (b ∷ bs) = write_last p b bs

-- Where a call of `Write` is: at the head of its loop or before the wait, with the bytes still to
-- write and the number of those written, or returned.
pub data Writer : Type 0 where
  writing : Bytes → ℕ → Writer
  growing : Bytes → ℕ → ℕ → Writer  -- and the capacity of the last buffer
  wrote : ℕ → Writer
  write_closed : ℕ → Writer  -- ErrClosed
  write_failed : ℕ → Writer

unfoldable pub after_write : Bytes → ℕ → Written → Writer
after_write p written w = elim w.error [
  | no_error ↦
      if length p == w.count
      then wrote (written + w.count)
      else growing (drop w.count p) (written + w.count) w.last_cap
  | buffer_full ↦
      if length p == w.count
      then wrote (written + w.count)
      else growing (drop w.count p) (written + w.count) w.last_cap
  | short_write ↦ write_failed (written + w.count)
]

-- From the head of the loop to the wait; the bytes are those that went into the pipe.
unfoldable pub write_round : Bytes → ℕ → BytesPipe → Writer × Bytes × BytesPipe
write_round p written bp =
    if bp.closed
    then (write_closed written, [], bp)
    else let w = write_bufs p bp.buf in
      (
        after_write p written w,
        take w.count p,
        record bp { buf = w.buf; buf_len = bp.buf_len + w.count },
      )

unfoldable pub next_cap : ℕ → ℕ
next_cap cap = if ltb max_cap (cap * 2) then max_cap else cap * 2

-- The wait while the pipe is too full, and the new buffer behind it.
unfoldable pub grow_round : Bytes → ℕ → ℕ → BytesPipe → Writer × BytesPipe
grow_round p written cap bp =
    if leb block_threshold bp.buf_len
    then (if bp.closed then (writing p written, bp) else (growing p written cap, bp))
    else (writing p written, record bp { buf = bp.buf ++ (get_buffer (next_cap cap) ∷ []) })

unfoldable pub close_pipe : BytesPipe → BytesPipe
close_pipe bp = record bp { closed = true }

-- What the loop of `Read` leaves.
pub record Taken : Type 0 where
  pub out : Bytes
  pub buf : List FixedBuffer
  pub buf_len : ℕ

unfoldable pub put_before : Bytes → Option Taken → Option Taken
put_before out none = none
put_before out (some t) = some (record t { out = out ++ t.out })

-- The loop of `Read` for `k` bytes; `none` is the panic at `bp.buf[0]`. A buffer with bytes left has
-- filled the slice, so the loop breaks there.
unfoldable pub read_bufs : ℕ → List FixedBuffer → ℕ → Option Taken
read_bufs k [] len = if len == 0 then some (record { out = []; buf = []; buf_len = 0 }) else none
read_bufs k (b ∷ bs) len =
    let (out, b') = read_buffer k b in
    let later = put_before out (read_bufs (k - length out) bs (len - length out)) in
    if len == 0
    then some (record { out = []; buf = b ∷ bs; buf_len = 0 })
    else if not (buffer_len b' == 0)
    then some (record { out = out; buf = b' ∷ bs; buf_len = len - length out })
    else if length out == k
    then some (record { out = out; buf = bs; buf_len = len - length out })
    else later

pub data ReadResult : Type 0 where
  would_wait : ReadResult
  read_closed : ReadResult
  got : Bytes → BytesPipe → ReadResult
  panicked : ReadResult

-- A round of `Read` for `k` bytes.
unfoldable pub read_round : ℕ → BytesPipe → ReadResult
read_round k bp =
    if bp.buf_len == 0
    then (if bp.closed then read_closed else would_wait)
    else elim (read_bufs k bp.buf bp.buf_len) [
      | none ↦ panicked
      | some t ↦ got t.out (record bp { buf = t.buf; buf_len = t.buf_len })
    ]
