-- ===== src/Ioutils.antt =====
-- pkg/ioutils: buffers of bytes.
pub mod Buffer
pub mod BytesPipe
pub mod Content
pub mod Fifo
