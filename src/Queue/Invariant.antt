-- ===== src/Queue/Invariant.antt =====
-- What every reachable state of the queue satisfies.
mod Defs
mod Moves
mod Others
mod Runs
pub use Runs.{Reach-Inv}
pub use Defs.*
