-- ===== src/PeerTable.antt =====
-- src/peerTable.ts: the table of peer addresses, its health records and its block list.
mod Address
mod Table
pub mod Members
pub mod Invariant
pub mod Methods
pub mod Reach
pub mod Health
unfoldable pub use Address.*
unfoldable pub use Table.*
