-- ===== src/Lib.antt =====
-- A model of ceno-reth-benchmark, which executes an Ethereum block over a witness of the state: the
-- sparse Merkle Patricia trie of crates/mpt holds the accounts and the storage, the client
-- (crates/executor/client) reads and updates it while a block is executed, and the host
-- (crates/executor/host, crates/host-bench) builds the witness.
--
-- Files and code:
-- - Hp (children Bits, Lcp, Compare, Encode): crates/mpt/src/hp.rs, one function each, by the
--   names of the source: lcp, to_nibs, prefix_to_nibs, encoded_path_nibble_count,
--   encoded_path_eq_nibs, encoded_path_strip_prefix, to_encoded_path (which the source has twice,
--   once for the bump arena).
-- - Trie: crates/mpt/src/node.rs and the state of crates/mpt/src/trie.rs. `Mpt` is the record of
--   the root's index, the vector of nodes and the vector of cached references; an index (NodeId,
--   u32) is a number, and add_node keeps its low 32 bits. Trie/Get, Trie/Insert and Trie/Delete
--   are get_internal, insert_internal and delete_internal with their entry points.
-- - Trie/Tree and Trie/Spec: the trees that an arena stands for, and the operations on trees,
--   which are the specification; Trie/Spec's children are about trees only. Trie/Arena and
--   Trie/Slots hold the laws of the writes, Trie/Refine takes the arena to the trees, Trie/Total
--   is about the fuel, Trie/Valid and Trie/Correct speak of the whole trie, Trie/Fixed of keys of
--   one length, Trie/Runs of sequences of operations.
-- - Trie/Hash: calc_reference, the encodings of a node and `hash` of crates/mpt/src/trie.rs. The
--   RLP library and keccak256 are the parameter `Rlp`, relied on for lengths only
--   (Trie/Hash/Spec). A `RefCell` that is borrowed mutably twice panics, so the calls carry what
--   is borrowed: the cell that is being filled and the scratch buffer. Trie/Hash/Memo and
--   Trie/Hash/Correct are about the cache, Trie/Hash/Root about the hash.
-- - State: EthereumState and update_from_bundle_state of crates/mpt/src/state.rs, one definition
--   for an account that stays (update_info), for one that goes (remove_account) and for the slots
--   (update_slots); State/Fits and State/Bundle are about all accounts of a block. `Codec` holds the encodings of
--   the libraries.
-- - Headers: build_block_hashes of crates/executor/client/src/io.rs and the errors of
--   crates/executor/client/src/error.rs; the hash of a header is a parameter.
-- - Trie/Wire: a whole trie as bytes. Trie/Wire/Decode is decode_trie with decode_trie_internal
--   cut at its steps (read_item for a header with its payload, check_ref for the node's reference,
--   decode_pair and decode_branch for the two kinds of list), Trie/Wire/Encode is encode_trie,
--   encoded_subtrie, subtree_num_nodes and payloads. `Header::decode` of the RLP library is the
--   parameter `DecodeHeader`, relied on for its bounds only (`IsBounded`). `num_nodes` only
--   reserves memory and is left out. Trie/Wire/Ends and Trie/Wire/Root are about the end of the
--   decoding and about the hashes of what was decoded, Trie/Wire/Count about the count of the
--   nodes; Trie/Wire/Placed says where a decoded node stands.
-- - Trie/Frontier: replace_frontier_slot and subtree_hash of crates/mpt/src/trie.rs;
--   Trie/Frontier/Build is collect_frontier_boundaries and build_frontier_weighted, and
--   Trie/Frontier/Apart is about the chunks.
-- - Client: crates/executor/client/src/io.rs. Client/Input has its data types, and a constructor
--   for each message of an error. Client/Reader is the reader over a list of items, with what is
--   taken from libraries (`Env`). Client/Stream is StreamingEthereumState, whose `RefCell`s are
--   fields; Client/Database is ClientExecutorInputWithState::build and WitnessDb, eager, recording
--   or streaming. Client/Replay runs the queries of an execution over a database, and
--   Client/Update with Sorted and Chunk is update_from_bundle_state of the streaming state, one
--   definition for each part of a chunk (Written, Moves, Took and Accepts are about an update that
--   succeeds: the accounts of a chunk, the chunk as a step, its part of the bundle and of the cache,
--   and the whole). A witness of a chunk is read under a borrow of the input that lasts, so a
--   storage witness panics. In the eager database the account's, the storage's and the bytecode's
--   `witness_order` are one cell, as the callers make it.
-- - Client/Execute: ClientExecutor of crates/executor/client/src/lib.rs. The consensus and
--   execution libraries are the parameter `Chain`; the run of a block is a computation `Exec` that
--   asks its database and goes on with the answers, so that it can depend on them (the cache of
--   the library is a part of it). Client/Capacity is capacity_hints of
--   crates/executor/client/src/capacity.rs.
-- - Host/Write: the items that write_ceno_client_input of crates/host-bench/src/lib.rs puts into
--   the client's input, given the order that an execution recorded and the frontier. The items of
--   a raw read are written unpadded, since the reader gives back their length without the padding.
-- - Base: lists, maps, results and tests that all share.
--
-- Conventions. A byte is a number, a slice a list. A call ends as `ok`, as `err` with an error of
-- the source, or as `panic` (an index out of bounds, an unwrap of nothing); `stuck` is fuel that
-- ran out. The recursive operations get the length of the node vector as fuel, and Trie/Total shows
-- that it is enough: no index occurs twice in a tree, so it is no
-- higher than the vector is long (stated for the lookup, the writes, the hash and the count of
-- nodes). A parameter `ref` stands for the reference by which a parent names a node (calc_reference):
-- the theorems hold for every such function, and say that a cached reference is missing or is that
-- one.
--
-- A map is a list of keys with values, walked in its order; the order of a HashMap is not fixed by
-- the source, and no theorem depends on it. Sums of machine integers that only count memory are
-- left out. The decoder has one more than the number of bytes as fuel, since a node takes a byte at
-- least (Trie/Wire/Ends). A read of another item than the next one is a panic.
--
-- Not modelled: the tries from proofs and the resolver, the rules by which the libraries execute
-- and check a block, and the programs around them (command lines, files, network, provers). The
-- bump arena and the scratch buffer only hold memory.
pub mod Base
pub mod Client
pub mod Headers
pub mod Host
pub mod Hp
pub mod State
pub mod Trie
