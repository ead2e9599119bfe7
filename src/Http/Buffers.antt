-- ===== src/Http/Buffers.antt =====
-- src/http/common/buffer.cc and include/cornet/http/common/buffer.h: the pool of blocks, the leases on them,
-- and the buffers of a message's head, body and copied values.
pub mod Pool
pub mod Head
pub mod Body
pub mod Spill
