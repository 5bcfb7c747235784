-- ===== src/Evm.antt =====
-- dashboard/components/evm: the digital twin of a voting machine. A handler of EvmTerminal.tsx that
-- awaits the backend or sets a timer is cut there: what comes after is a `Pending` continuation with
-- the values that the closure captured, and `resume` runs it. `Loop.step` is one event of the event
-- loop; a button that is disabled or not shown does nothing.
pub mod State
pub mod Setup
pub mod Handlers
pub mod Resume
pub mod View
pub mod Loop
pub mod Sequence
pub mod Slip
pub mod Conserved
pub mod Pressed
pub mod Budget
pub mod Sessions
pub mod Slate
pub mod Races
pub mod Ballots
pub mod Opens
pub mod Archive
mod Examples
