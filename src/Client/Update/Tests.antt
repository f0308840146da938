-- ===== src/Client/Update/Tests.antt =====
-- One chunk, which is the whole state trie, with one account, which the execution also read.
use ceno_reth_benchmark.Base.{
  ℕ, ◌≡◌, refl, none, some, List, [], ◌∷◌, replicate, bytes_eq, starts_with, Bool, true, false,
  length, ◌==◌,
}
use ceno_reth_benchmark.Base.Result.{Result, ok, panic, Ensures}
use ceno_reth_benchmark.Trie.{NodeData, null, Mpt}
use ceno_reth_benchmark.Trie.Wire.Tests.{leaf_bytes}
use ceno_reth_benchmark.State.{update_slots, BundleAccount}
use ceno_reth_benchmark.Client.Input.{storage_trie, TrieAccount, state_chunk}
use ceno_reth_benchmark.Client.Reader.{witness, raw}
use ceno_reth_benchmark.Client.Stream.{Streaming, ensure_state_trie_loaded, validate_account_cache}
use ceno_reth_benchmark.Client.Update.Chunk.{process_chunk}
use ceno_reth_benchmark.Client.Update.Sorted.{sort_accounts, hash_accounts}
use ceno_reth_benchmark.Base.Maps.{find?, put}
use ceno_reth_benchmark.Hp.{to_encoded_path, to_nibs, encoded_path_eq_nibs, lcp, prefix_to_nibs}
use ceno_reth_benchmark.Trie.{add_node}
use ceno_reth_benchmark.Trie.Get.{get_nibbles, get_internal}
use ceno_reth_benchmark.Trie.Insert.{insert, insert_nibbles, insert_internal}
use ceno_reth_benchmark.Trie.Frontier.{replace_frontier_slot}
use ceno_reth_benchmark.Trie.Hash.{
  hash, get_or_insert, calc_node, calc_long, payload_length, calc_sized, encode_with_payload_len,
  calc_reference,
}
use ceno_reth_benchmark.Trie.Wire.{advance_unchecked}
use ceno_reth_benchmark.Trie.Wire.Decode.{decode_trie}
use ceno_reth_benchmark.Client.Input.{accounts_eq, account_eq}
use ceno_reth_benchmark.Client.Replay.Tests.{toy_env}
use ceno_reth_benchmark.Client.Update.{update_from_bundle_state}
use ceno_reth_benchmark.Client.Update.Accepts.{Accepted, update_from_bundle_state-Accepted}

abbrev streamed : TrieAccount
streamed = record { nonce = 1; balance = 2; storage_root = replicate 32 36; code_hash = 3 ∷ [] }

abbrev frontier : Mpt
frontier = record {
  root_id = 1;
  nodes = null ∷ NodeData.digest (replicate 32 36) ∷ [];
  cached_references = none ∷ none ∷ [];
}

abbrev start : Streaming
start = record {
  state_trie_header = record { version = 2; num_nodes = 2; chunk_count = 1 };
  parent_state_root = replicate 32 36;
  state_trie = some frontier;
  account_cache = (replicate 32 1, some streamed) ∷ [];
  storage_tries = [];
  input =
      witness (
        state_chunk (record {
          prefix = [];
          expected_root = replicate 32 36;
          num_nodes = 2;
          witness_count = 0;
        }))
      ∷ raw leaf_bytes
      ∷ [];
}

abbrev bundle : List (List ℕ × BundleAccount)
bundle =
    (
      7 ∷ [],
      record {
        was_destroyed = false;
        storage = [];
        info = some (record { nonce = 5; balance = 1; code_hash = 3 ∷ [] });
      },
    )
    ∷ []

abbrev accepted : {E : Type 0} → Result E Streaming → Bool
accepted (ok s) = length s.account_cache == 0
accepted _ = false

update_accepted : accepted (update_from_bundle_state toy_env start bundle) ≡ true
unfolding update_from_bundle_state ensure_state_trie_loaded process_chunk decode_trie bytes_eq
    advance_unchecked hash add_node get_or_insert starts_with get_nibbles get_internal
    encoded_path_eq_nibs to_nibs accounts_eq sort_accounts hash_accounts find? insert_nibbles
    insert_internal replace_frontier_slot validate_account_cache account_eq lcp prefix_to_nibs
    calc_node calc_long payload_length calc_sized encode_with_payload_len calc_reference
update_accepted = refl

-- The same chunk with the account's storage trie, and an account that was destroyed and has a slot.
abbrev with_storage : Streaming
with_storage = record start {
  input =
      witness (
        state_chunk (record {
          prefix = [];
          expected_root = replicate 32 36;
          num_nodes = 2;
          witness_count = 1;
        }))
      ∷ raw leaf_bytes
      ∷ witness (storage_trie (record { hashed_address = replicate 32 1; num_nodes = 2 }))
      ∷ raw leaf_bytes
      ∷ [];
}

abbrev destroyed : List (List ℕ × BundleAccount)
destroyed =
    (
      7 ∷ [],
      record {
        was_destroyed = true;
        storage = (5, 9) ∷ [];
        info = some (record { nonce = 5; balance = 1; code_hash = 3 ∷ [] });
      },
    )
    ∷ []

-- The witness is read while the input is still borrowed.
storage_witness_panics : update_from_bundle_state toy_env with_storage destroyed ≡ panic
unfolding update_from_bundle_state ensure_state_trie_loaded process_chunk decode_trie bytes_eq
    advance_unchecked hash add_node get_or_insert starts_with get_nibbles get_internal
    encoded_path_eq_nibs to_nibs accounts_eq find? sort_accounts hash_accounts update_slots insert
    insert_nibbles insert_internal lcp prefix_to_nibs calc_node calc_long payload_length calc_sized
    encode_with_payload_len calc_reference to_encoded_path put
storage_witness_panics = refl

update_from_bundle_state-Accepted_example :
    Ensures (Accepted toy_env start bundle) (update_from_bundle_state toy_env start bundle)
update_from_bundle_state-Accepted_example = update_from_bundle_state-Accepted toy_env start bundle
