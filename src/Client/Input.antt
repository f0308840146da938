-- ===== src/Client/Input.antt =====
-- The data types of crates/executor/client/src/io.rs that are read from the witness, and the messages
-- of its errors: each `format!` is a constructor with the values that it shows.
use ceno_reth_benchmark.Base.{ℕ, Bool, true, false, ◌&&◌, Option, none, some, List, ◌==◌, bytes_eq}
use ceno_reth_benchmark.Trie.{Error}

-- `TrieAccount` of the trie library.
pub record TrieAccount : Type 0 where
  pub nonce : ℕ
  pub balance : ℕ
  pub storage_root : List ℕ
  pub code_hash : List ℕ

abbrev pub account_eq : TrieAccount → TrieAccount → Bool
account_eq a b =
    a.nonce == b.nonce
    && a.balance == b.balance
    && bytes_eq a.storage_root b.storage_root
    && bytes_eq a.code_hash b.code_hash

unfoldable pub accounts_eq : Option TrieAccount → Option TrieAccount → Bool
accounts_eq none none = true
accounts_eq none (some b) = false
accounts_eq (some a) none = false
accounts_eq (some a) (some b) = account_eq a b

pub record StateTrieHeader : Type 0 where
  pub version : ℕ
  pub num_nodes : ℕ
  pub chunk_count : ℕ

pub record StateChunkHeader : Type 0 where
  pub prefix : List ℕ
  pub expected_root : List ℕ
  pub num_nodes : ℕ
  pub witness_count : ℕ

pub record StorageTrieHeader : Type 0 where
  pub hashed_address : List ℕ
  pub num_nodes : ℕ

pub record StorageTrieInput : Type 0 where
  pub hashed_address : List ℕ
  pub num_nodes : ℕ
  pub encoded : List ℕ

pub record AccountInput : Type 0 where
  pub hashed_address : List ℕ
  pub account : Option TrieAccount

-- A bytecode is its bytes.
abbrev pub Bytecode : Type 0
Bytecode = List ℕ

pub data ClientWitnessInput : Type 0 where
  account : AccountInput → ClientWitnessInput
  storage_trie : StorageTrieHeader → ClientWitnessInput
  bytecode : Bytecode → ClientWitnessInput
  state_chunk : StateChunkHeader → ClientWitnessInput

pub data WitnessAccess : Type 0 where
  account : List ℕ → WitnessAccess
  storage_trie : List ℕ → WitnessAccess
  bytecode : List ℕ → WitnessAccess
  state_trie : WitnessAccess
  modified_account : List ℕ → ℕ → WitnessAccess

pub data WitnessFault : Type 0 where
  -- expected account for ..., got ...
  not_an_account : (hashed_address : List ℕ) → ClientWitnessInput → WitnessFault
  duplicate_streamed_account : List ℕ → WitnessFault
  -- expected storage trie for ..., got ...
  not_a_storage_trie : (hashed_address : List ℕ) → ClientWitnessInput → WitnessFault
  storage_trie_hash_mismatch : (expected got : List ℕ) → WitnessFault
  mpt_message : Error → WitnessFault
  storage_root_mismatch : (hashed_address actual expected : List ℕ) → WitnessFault
  -- expected bytecode for ..., got ...
  not_a_bytecode : (hash : List ℕ) → ClientWitnessInput → WitnessFault
  bytecode_hash_mismatch : (expected got : List ℕ) → WitnessFault
  streaming_bytecode_for_eager_state : WitnessFault
  streamed_account_mismatch :
      (hashed_address : List ℕ) (streamed trie : Option TrieAccount) → WitnessFault
  unsupported_version : ℕ → WitnessFault
  -- expected state chunk header, got ...
  not_a_state_chunk : ClientWitnessInput → WitnessFault
  state_chunk_root_mismatch : (prefix actual expected : List ℕ) → WitnessFault
  account_outside_chunk : (hashed_address prefix : List ℕ) → WitnessFault
  post_update_account_mismatch : (hashed_address : List ℕ) → WitnessFault
  invalid_or_duplicate_storage : (hashed_address prefix : List ℕ) → WitnessFault
  unexpected_chunk_witness : ClientWitnessInput → WitnessFault
  no_bundle_accounts : (prefix : List ℕ) → WitnessFault
  missing_storage_trie : (hashed_address : List ℕ) → WitnessFault
  unused_storage_witnesses : WitnessFault
  bundle_accounts_left : (consumed total : ℕ) → WitnessFault

-- `ProviderError::TrieWitnessError`, the one that the database returns.
pub data ProviderError : Type 0 where
  trie_witness_error : WitnessFault → ProviderError
