-- ===== src/Lib.antt =====
-- Verification of cornet, a C++20 coroutine runtime over io_uring with HTTP/1.1 and
-- WebSocket.
--
-- The program's parts. A context (one thread) runs coroutines from a ready queue; a
-- coroutine that waits suspends in an awaiter, and whoever completes it schedules its
-- handle again. On this stand the concurrency primitives (semaphore, timer wheel,
-- singleflight), and on them the servers and clients of HTTP and WebSocket.
--
-- Which file models which part of the repository:
--   WebSocket/Protocol  include/cornet/websocket/common/protocol.h: opcode_t, role_t,
--                       websocket_error_t, close_code_valid
--   WebSocket/Frame     src/websocket/common/frame.cc: frame_decoder_t::parse as
--                       parse_header and parse, write_frame_header. A window of bytes is
--                       a list of numbers below 256, a read past its end gives none, and
--                       the parser's need-more, error and parsed results are Parsed.
--   WebSocket/Mask      src/websocket/common/frame.cc: apply_mask with its head loop, its
--                       eight-byte words and its tail.
--   RingBuffer          include/cornet/utils/ringbuffer.h: push and pop as whole calls, the
--                       size a power of two, each side with its cached cursor.
--                       RingBuffer/Threads has the loads and stores of the two threads as
--                       steps on one storage.
--   Concurrency/Semaphore  src/semaphore.cc, include/cornet/concurrency/semaphore.h: the
--                       counter, the chain of awaiters as the list of their names, the
--                       fields of each awaiter in a store, the handles passed to the
--                       scheduler as a list. Semaphore/World has the step relation of
--                       every caller, with frames that end or are destroyed, which
--                       Semaphore/Progress takes up for the wake-ups.
--   Concurrency/TimerWheel  src/timer_wheel.cc, include/cornet/concurrency/timer_wheel.h:
--                       link, unlink, arm, cancel, advance, run. The chain of a slot is
--                       the list of its nodes, and the walk of advance follows `next` as it was
--                       before the callback ran. A callback is the list of the arm and
--                       cancel calls it makes. What the context and sleep answer
--                       the runner, and what others do while it sleeps, is a list of
--                       rounds.
--   Http/Protocol, Http/Fields  src/http/common/protocol.cc,
--                       include/cornet/http/common/protocol.h: the tables of methods,
--                       statuses and fields, field_from_name with its words of eight
--                       bytes (pack, ld, HTTP_M8), iequals
--   Http/Decimal, Http/Output, Http/Serializer  src/http/common/serializer.cc,
--                       include/cornet/http/common/serializer.h: write_u64 and
--                       write_chunk_size; out_buffer_t, whose lease is its capacity and
--                       whose text is what view() shows; serializer_t
--   Http/Buffers        src/http/common/buffer.cc, include/cornet/http/common/buffer.h:
--                       buffer_pool_t and its leases in Pool, head_buffer_t in Head,
--                       body_buffer_t in Body, spill_buffer_t in Spill. The allocator is a
--                       map from blocks to sizes, and what malloc answers is an argument.
--   WebSocket/Base64, WebSocket/Sha1, WebSocket/Handshake
--                       src/websocket/common/handshake.cc: base64_encode and
--                       base64_decode, sha1_t, the keys, the texts of the upgrade request
--                       and of its answer
--   Http/Headers        src/http/common/headers.cc, include/cornet/http/common/headers.h:
--                       headers_t, its array of 32 entries and the vector behind it; the
--                       buffers that bind() sets are an argument of the look-ups
--   Http/Url            src/http/common/url.cc, include/cornet/http/common/url.h:
--                       url_t::parse step by step, default_port, same_origin
--
-- Bounds. Words keep their wrap-around: the semaphore's counter is 32 bits wide, lengths in
-- a frame header are 64 bits, a mask key is 32 bits. The loops of the semaphore recurse
-- on the queue, whose length bounds them; those of apply_mask recurse on the bytes.
-- The walk of the timer wheel takes fuel, since callbacks could keep it going; the length of
-- the slot's chain is enough where callbacks touch their own node at most. Delays are whole
-- milliseconds from 0 on, and rounds are 32 bits wide.
-- The decimal loop takes nine rounds and the hexadecimal one sixteen, which 64 bits need at
-- most. Lengths that the code puts through 32 bits keep the wrap-around, and the theorems
-- state where it does not happen. base64_encode is modelled for texts
-- of fewer than 2 ^ 32 characters, where its 32-bit indices do not wrap. Assertions
-- (CORNET_ASSERT) are absent, as in a release build.
--
-- Not modelled: the io_uring rings, sockets, TLS (calls of OpenSSL), the clock, logging and
-- configuration, which are input and output or calls of other libraries; the coroutine
-- machinery, where a coroutine is seen through the calls it makes; names of codes for logs.

pub mod Base
pub mod Concurrency
pub mod Http
pub mod RingBuffer
pub mod WebSocket
