-- ===== src/P2p.antt =====
-- src/p2p.ts: the peer-to-peer node, its handshake and its messages.
mod Types
mod Dialing
mod Messages
mod Handshake
mod Info
mod Listeners
mod Lifecycle
pub mod Gossip
pub mod Runs
pub mod Compatible
pub mod Twins
unfoldable pub use Types.*
unfoldable pub use Dialing.*
unfoldable pub use Messages.*
unfoldable pub use Lifecycle.*
unfoldable pub use Handshake.*
unfoldable pub use Info.*
unfoldable pub use Listeners.*
