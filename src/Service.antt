-- ===== src/Service.antt =====
-- service/: the connections of the broker, what they read and write, and the server that keeps
-- them.
pub mod Buffer
pub mod Wire
pub mod State
pub mod Publish
pub mod Process
pub mod Receive
pub mod SendRecv
pub mod Connection
pub mod Server
