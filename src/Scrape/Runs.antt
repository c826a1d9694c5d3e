-- ===== src/Scrape/Runs.antt =====
-- Whole runs of `scrape`.
pub mod Answered
pub mod Frame
pub mod Kept
pub mod Status
pub mod Stored
