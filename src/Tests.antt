-- ===== src/Tests.antt =====
-- Runs at concrete data, and the theorems at inputs that meet their hypotheses.
pub mod Toy
pub mod Services
pub mod Database
pub mod Streams
pub mod CommandLine
pub mod Shutdowns
pub mod Sharing
pub mod Programs
pub mod Distinct
pub mod Updates
pub mod Journey
pub mod Answers
pub mod Intact
pub mod Enrollments
