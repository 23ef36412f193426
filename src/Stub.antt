-- ===== src/Stub.antt =====
-- The generator of stubs, src/stubgen/stubgen.cpp: from a description of classes and functions to
-- the text of a header.
pub mod Members
pub mod Defs
pub mod Pieces
pub mod Writer
pub mod Main
pub mod Routes
