-- ===== src/Buffer.antt =====
-- include/json-rpc/buffer.hpp: arrays, the read-only buffers and the write-only ones.
pub mod Memory
pub mod Words
pub mod Rdon
pub mod Wron
