-- ===== src/Message.antt =====
-- The messages and folders of an account, under lib: how the list of messages is walked and indexed,
-- the criteria that sort it, and the folders with their message stores.
pub mod Iterator
pub mod Sort
pub mod DirStore
pub mod Threads
pub mod Builder
pub mod Info
pub mod Store
