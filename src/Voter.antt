-- ===== src/Voter.antt =====
-- dashboard/app/(public)/voter: the pages of the voter portal that keep a state of their own.
pub mod Roll
pub mod Rolls
pub mod Profile
pub mod Stations
pub mod Forms
pub mod Overseas
pub mod Candidates
mod Examples
