-- ===== src/Rpc.antt =====
-- rpc/: the controller that asks the application.
pub mod Barrier
pub mod Retry
pub mod Protocol
pub mod Calls
