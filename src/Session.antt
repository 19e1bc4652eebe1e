-- ===== src/Session.antt =====
-- node/session.go, the connection's side of `Session`: the timers, the queue of frames and the
-- routine that writes them, and how a connection is closed. What commands do to a session is in Node.
pub mod Timers
pub mod State
pub mod Frames
pub mod Writer
pub mod Events
