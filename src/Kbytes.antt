-- ===== src/Kbytes.antt =====
-- internal/kbytes: the byte-level primitives of the wire protocol.
pub mod Reader
pub mod Writer
pub mod Codec
