-- ===== src/ContentManager.antt =====
-- rootpa/Code/Common/contentmanager.c: the session to the content management trustlet, one command
-- and a batch of commands.
pub mod Session
pub mod Execute
pub mod Batch
pub mod Ownership
