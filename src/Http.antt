-- ===== src/Http.antt =====
-- The parts of src/http/common that turn values into header text and back.
pub mod Fields
pub mod Protocol
pub mod Decimal
pub mod Output
pub mod Serializer
pub mod Buffers
pub mod Headers
pub mod Url
