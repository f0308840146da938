-- ===== src/Trie/Refine.antt =====
-- The operations on the arena do on a represented tree what Trie/Spec says.
pub mod Get
pub mod Post
pub mod Fork
pub mod Split
pub mod Insert
pub mod Merge
pub mod Delete
