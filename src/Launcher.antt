-- ===== src/Launcher.antt =====
-- dashboard/app/(evm)/evm/page.tsx: the page that a terminal is launched from. What is behind an `await`
-- is a pending call; between two calls of one fetch nothing is set, so a fetch is answered at once.
pub mod Fetches
pub mod Machine
pub mod Consistent
pub mod Races
mod Examples
