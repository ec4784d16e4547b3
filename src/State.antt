-- ===== src/State.antt =====
-- src/state.ts: balances and nonces, derived from the chain. The `this` of a method is its first
-- argument, and a method that writes returns the new state.
mod Step
pub mod Apply
pub mod Supply
pub mod Ledger
unfoldable pub use Step.*
