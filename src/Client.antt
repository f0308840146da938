-- ===== src/Client.antt =====
-- crates/executor/client: the client's input, the database over it, and the execution of a block.
pub mod Input
pub mod Reader
pub mod Stream
pub mod Database
pub mod Update
pub mod Replay
pub mod Capacity
pub mod Execute
