-- ===== src/Api.antt =====
-- src/api.ts: the WebSocket API, its methods, its subscriptions and its pushes.
mod Types
mod Publish
mod Texts
mod Methods
mod Server
pub mod Pushes
pub mod Chain
pub mod Submission
pub mod Topics
pub mod Heartbeat
pub mod Subscriptions
pub mod Requests
unfoldable pub use Types.*
unfoldable pub use Publish.*
unfoldable pub use Texts.*
unfoldable pub use Methods.*
unfoldable pub use Server.*
