-- ===== src/Blockchain.antt =====
-- src/blockchain.ts: the chain, the mempool and the rules that keep them.
mod Types
mod Mempool
mod Consensus
mod Startup
pub mod Rules
pub mod Replay
pub mod Sync
pub mod Adopt
pub mod Selection
pub mod Genesis
pub mod Restart
pub mod Pool
pub mod Prune
pub mod Restore
pub mod Sound
pub mod Reach
pub mod Nonces
pub mod History
pub mod Admission
unfoldable pub use Types.*
unfoldable pub use Mempool.*
unfoldable pub use Consensus.*
unfoldable pub use Startup.*
