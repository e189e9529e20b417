-- ===== src/League.antt =====
-- The state of a league, ScoreSender/ScoreSender/Models.
pub mod PlayerForm
pub mod Players
pub mod Directory
pub mod Autocomplete
pub mod Games
pub mod Report
mod Tests
