-- ===== src/Nanopb/Message/Refines.antt =====
-- `pb_encode` against the format.
pub mod Contents
pub mod Values
pub mod Arrays
pub mod Fields
pub mod Whole
pub mod Size
