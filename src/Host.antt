-- ===== src/Host.antt =====
-- crates/host-bench/src/lib.rs: `write_ceno_client_input`, which writes what the client reads, in the
-- order that an eager run recorded. A hint item is an `Item`; raw bytes are padded to whole words with
-- their length kept, and are read without the padding.
pub mod Write
