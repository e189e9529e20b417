-- ===== src/Nanopb/Parse.antt =====
-- ScoreSender/Pods/nanopb/pb_decode.c: the decoding of whole messages by their descriptors.
pub mod Values
pub mod Defaults
pub mod Release
pub mod Fields
pub mod Whole
pub mod Bounds
pub mod Arrays
pub mod Confined
pub mod Strings
pub mod Required
mod Tests
