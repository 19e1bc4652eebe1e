-- ===== src/Node.antt =====
-- node/: a client's session, the commands it sends, and what the node does with the answers of the
-- controller (the RPC server or its local stand-in).
pub mod Subscriptions
pub mod CacheEntry
pub mod State
pub mod Replies
pub mod Presence
pub mod Departure
pub mod Commands
pub mod Requests
pub mod Restore
pub mod Disconnector
pub mod Auth
pub mod Leak
pub mod Agreement
pub mod Goodbye
