-- ===== src/TrueSkill.antt =====
-- The rating of games, ScoreSender/ScoreSender/TrueskillSwift and Functions.swift.
pub mod RankSorter
pub mod Double
pub mod Gaussian
pub mod Correction
pub mod Range
pub mod Rating
pub mod TwoTeam
pub mod Calculator
pub mod Sample
mod Tests
