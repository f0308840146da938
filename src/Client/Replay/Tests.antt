-- ===== src/Client/Replay/Tests.antt =====
-- An account, a slot of it and a bytecode, read eagerly and then from the stream.
use ceno_reth_benchmark.Base.{
  ℕ, none, ◌≡◌, refl, inl, inr, ◌⊎◌, true, List, [], ◌∷◌, length, replicate, bytes_eq,
}
use ceno_reth_benchmark.Base.Result.{ok, Ensures}
use ceno_reth_benchmark.Base.Maps.{Map, put, contains}
use ceno_reth_benchmark.Hp.{encoded_path_eq_nibs, to_nibs}
use ceno_reth_benchmark.Trie.{RlpError, unexpected_length, add_node, new}
use ceno_reth_benchmark.Trie.Wire.{advance_unchecked}
use ceno_reth_benchmark.Trie.Wire.Decode.{decode_trie}
use ceno_reth_benchmark.Trie.Wire.Tests.{toy, toy_header, leaf_bytes, leaf_trie}
use ceno_reth_benchmark.Trie.Hash.{hash, get_or_insert}
use ceno_reth_benchmark.Trie.Get.{get, get_nibbles, get_internal}
use ceno_reth_benchmark.State.{EthereumState}
use ceno_reth_benchmark.Headers.{Header, build_block_hashes, build_from, check_link}
use ceno_reth_benchmark.Client.Reader.{Env, get_rlp, open_trie}
use ceno_reth_benchmark.Client.Database.{
  ClientExecutorInput, WitnessDb, build, from_parts_recording,
}
use ceno_reth_benchmark.Client.Replay.{Query, basic, storage, code, run}
use ceno_reth_benchmark.Client.Replay.Linked.{eager_db}
use ceno_reth_benchmark.Client.Replay.Correct.{Replays, run-Replays}

abbrev value_of : List ℕ → RlpError ⊎ ℕ
value_of [] = inl unexpected_length
value_of (v ∷ _) = inr v

abbrev pub toy_env : Env
toy_env = record {
  codec = record {
    rlp = toy;
    be_bytes = λ n. n ∷ [];
    encode_value = λ n. n ∷ [];
    encode_account = λ nonce balance root code. nonce ∷ balance ∷ root;
  };
  decode_header = toy_header;
  decode_account = λ bs.
      inr (record { nonce = 1; balance = 2; storage_root = replicate 32 36; code_hash = 3 ∷ [] });
  decode_value = value_of;
  code_hash_slow = λ c. length c ∷ [];
  header_hash_slow = λ h. h.rest;
}

abbrev current : Header
current = record {
  number = 5;
  parent_hash = 9 ∷ [];
  state_root = [];
  ommers_hash = [];
  transactions_root = [];
  receipts_root = [];
  withdrawals_root = none;
  logs_bloom = [];
  requests_hash = none;
  rest = [];
}

abbrev parent : Header
parent = record {
  number = 4;
  parent_hash = [];
  state_root = replicate 32 36;
  ommers_hash = [];
  transactions_root = [];
  receipts_root = [];
  withdrawals_root = none;
  logs_bloom = [];
  requests_hash = none;
  rest = 9 ∷ [];
}

abbrev pub input : ClientExecutorInput
input = record {
  current_block = record { header = current; body = [] };
  ancestor_headers = parent ∷ [];
  state_trie = (2, leaf_bytes);
  storage_tries =
      record { hashed_address = replicate 32 1; num_nodes = 2; encoded = leaf_bytes } ∷ [];
  bytecodes = (8 ∷ 8 ∷ 8 ∷ []) ∷ [];
}

abbrev state : EthereumState
state = record { state_trie = leaf_trie; storage_tries = (replicate 32 1, leaf_trie) ∷ [] }

abbrev codes : Map (List ℕ)
codes = (3 ∷ [], 8 ∷ 8 ∷ 8 ∷ []) ∷ []

abbrev db : WitnessDb
db = eager_db state codes ((4, 9 ∷ []) ∷ []) [] [] [] []

abbrev queries : List Query
queries = basic (7 ∷ []) ∷ storage (7 ∷ []) 5 ∷ code (3 ∷ []) ∷ basic (7 ∷ []) ∷ []

opened_leaf : open_trie toy_env leaf_bytes ≡ ok (replicate 32 36, leaf_trie)
unfolding open_trie decode_trie add_node new advance_unchecked bytes_eq hash get_or_insert
opened_leaf = refl

built : build toy_env input ≡ ok state
unfolding build get_rlp get get_nibbles get_internal encoded_path_eq_nibs to_nibs put decode_trie
    add_node new advance_unchecked bytes_eq hash get_or_insert
built = refl

recorded : from_parts_recording toy_env state current (parent ∷ []) ((8 ∷ 8 ∷ 8 ∷ []) ∷ []) ≡ ok db
unfolding from_parts_recording build_block_hashes build_from check_link put bytes_eq
recorded = refl

known : contains (replicate 32 1 ∷ []) (replicate 32 1) ≡ true
unfolding contains bytes_eq
known = refl

run-Replays_example : Ensures (Replays toy_env input state queries) (run toy_env db queries)
run-Replays_example = run-Replays toy_env input state db queries built recorded (known, tt)
