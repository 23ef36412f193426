-- ===== src/Examples/Buffers.antt =====
-- Small buffers.
