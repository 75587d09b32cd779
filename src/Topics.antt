-- ===== src/Topics.antt =====
-- topics/: topic levels, the subscription tree, the tree of retained messages and the provider
-- that keeps both.
pub mod Level
pub mod Subscriber
pub mod Tree
pub mod Retained
pub mod Provider
pub mod Manager
