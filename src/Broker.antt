-- ===== src/Broker.antt =====
-- broker/: the streams' history, presence, the sessions' cache and the streams' reference counts.
pub mod Outcome
pub mod Memstream
pub mod Tracker
pub mod Presence
pub mod Memory
pub mod Sessions
pub mod Legacy
