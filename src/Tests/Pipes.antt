-- ===== src/Tests/Pipes.antt =====
-- A pipe of bytes after one write.
use deviced.Base.{ℕ, ◌++◌, codes, ◌≡◌, refl}
use deviced.Ioutils.BytesPipe.{BytesPipe, wrote, writing, write_round, read_round}
use deviced.Ioutils.Content.{content, IsRead}
use deviced.Ioutils.Fifo.{
  PipeState, fresh, PipeReach, start, step, call_write, round_write, bytes_pipe_fifo,
}

abbrev calling : PipeState
calling = record fresh { writer = writing (codes "ab") 0 }

abbrev filled : PipeState
filled = record calling {
  pipe = (write_round (codes "ab") 0 calling.pipe).2;
  writer = (write_round (codes "ab") 0 calling.pipe).0;
  accepted = calling.accepted ++ (write_round (codes "ab") 0 calling.pipe).1;
}

filled-PipeReach : PipeReach filled
filled-PipeReach =
    step (step start (call_write (codes "ab") 0 refl)) (round_write (codes "ab") 0 refl)

bytes_pipe_fifo_example :
    (filled.accepted ≡ filled.delivered ++ content filled.pipe.buf)
    × ((k : ℕ) → IsRead filled.pipe (read_round k filled.pipe))
bytes_pipe_fifo_example = bytes_pipe_fifo filled-PipeReach

filled_is_ab : content filled.pipe.buf ≡ codes "ab"
unfolding write_round deviced.Ioutils.BytesPipe.write_bufs deviced.Ioutils.BytesPipe.write_last
    deviced.Ioutils.Buffer.write_buffer deviced.Ioutils.Buffer.copied
    deviced.Ioutils.Buffer.position deviced.Ioutils.BytesPipe.new_bytes_pipe
    deviced.Ioutils.BytesPipe.get_buffer
filled_is_ab = refl
