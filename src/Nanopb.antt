-- ===== src/Nanopb.antt =====
-- The protobuf codec of the app, ScoreSender/Pods/nanopb, as it is built here: 64-bit integers,
-- PB_FIELD_32BIT and PB_ENABLE_MALLOC, error messages kept.
pub mod Types
pub mod Ostream
pub mod Encode
pub mod Istream
pub mod Decode
pub mod Substream
pub mod RoundTrip
pub mod Iter
pub mod Fields
pub mod Store
pub mod Message
pub mod World
pub mod Parse
mod Tests
