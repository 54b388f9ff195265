-- ===== src/Ioutils/Buffer.antt =====
-- pkg/ioutils/buffer.go: a buffer of a fixed size.
use deviced.Base.{ℕ, ◌+◌, ◌-◌, [], ◌++◌, Bytes, ltb, ◌==◌, if◌then◌else◌, take, drop, length}

-- `used` is `buf[:lastRead]`, `unread` is `buf[lastRead:pos]`, and `capacity` is `cap(buf)`.
pub record FixedBuffer : Type 0 where
  pub capacity : ℕ
  pub used : Bytes
  pub unread : Bytes

pub data WriteError : Type 0 where
  no_error : WriteError
  buffer_full : WriteError
  short_write : WriteError

-- `b.pos`
unfoldable pub position : FixedBuffer → ℕ
position b = length b.used + length b.unread

-- How many bytes `copy(b.buf[b.pos:cap(b.buf)], p)` copies.
unfoldable pub copied : Bytes → FixedBuffer → ℕ
copied p b = if ltb (length p) (b.capacity - position b) then length p else b.capacity - position b

unfoldable pub write_buffer : Bytes → FixedBuffer → ℕ × WriteError × FixedBuffer
write_buffer p b =
    let n = copied p b in
    let b' = record b { unread = b.unread ++ take n p } in
    let error = if position b' == b.capacity then buffer_full else short_write in
    (n, if ltb n (length p) then error else no_error, b')

-- `Read` into a slice of length `k`: what it gets.
unfoldable pub read_buffer : ℕ → FixedBuffer → Bytes × FixedBuffer
read_buffer k b =
    (take k b.unread, record b { used = b.used ++ take k b.unread; unread = drop k b.unread })

unfoldable pub buffer_len : FixedBuffer → ℕ
buffer_len b = length b.unread

unfoldable pub reset_buffer : FixedBuffer → FixedBuffer
reset_buffer b = record b { used = []; unread = [] }
