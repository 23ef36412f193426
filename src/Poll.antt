-- ===== src/Poll.antt =====
-- The polling server of src/json-rpc/pollserver.cpp.
pub mod Manager
pub mod Channel
pub mod Server
