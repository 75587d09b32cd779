-- ===== src/Sessions.antt =====
-- sessions/: the queue of messages that wait for an acknowledgement, the session that owns six such
-- queues, and the store of sessions.
pub mod AckQueue
pub mod Session
pub mod Provider
pub mod Manager
mod Tests
