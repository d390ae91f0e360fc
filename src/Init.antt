-- ===== src/Init.antt =====
-- The node daemon, axiom-init.
pub mod Session
pub mod Spawn
pub mod Replies
pub mod Tables
pub mod Main
pub mod Allocator
