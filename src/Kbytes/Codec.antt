-- ===== src/Kbytes/Codec.antt =====
-- A reader method that undoes a writer method, whatever was written before and follows after.
mod Primitives
mod Methods
mod Arrays
pub use Primitives.*
pub use Methods.*
pub use Arrays.*
