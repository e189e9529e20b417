-- ===== src/Nanopb/Parse/Bounds.antt =====
-- The decoding of messages stays inside the input buffer.
pub mod Values
pub mod Results
pub mod Fields
pub mod Whole
