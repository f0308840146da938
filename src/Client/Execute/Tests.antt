-- ===== src/Client/Execute/Tests.antt =====
-- A block that asks for an account, a slot and a code, recorded and over the stream.
use ceno_reth_benchmark.Base.{
  ◌≡◌, refl, inr, Bool, true, false, none, some, [], ◌∷◌, replicate, bytes_eq,
}
use ceno_reth_benchmark.Base.Result.{Result, ok, Ensures}
use ceno_reth_benchmark.Base.Maps.{contains, find?, put}
use ceno_reth_benchmark.State.{EthereumState}
use ceno_reth_benchmark.Hp.{encoded_path_eq_nibs, to_nibs}
use ceno_reth_benchmark.Trie.{add_node}
use ceno_reth_benchmark.Trie.Get.{get, get_nibbles, get_internal}
use ceno_reth_benchmark.Trie.Hash.{hash, get_or_insert}
use ceno_reth_benchmark.Trie.Wire.{advance_unchecked}
use ceno_reth_benchmark.Trie.Wire.Decode.{decode_trie}
use ceno_reth_benchmark.Client.Stream.{ensure_state_trie_loaded, state_root, validate_account_cache}
use ceno_reth_benchmark.Client.Update.{update_from_bundle_state}
use ceno_reth_benchmark.Client.Update.Sorted.{sort_accounts, hash_accounts}
use ceno_reth_benchmark.Headers.{build_block_hashes}
use ceno_reth_benchmark.Trie.Wire.Tests.{leaf_bytes}
use ceno_reth_benchmark.Client.Input.{account, accounts_eq}
use ceno_reth_benchmark.Client.Reader.{
  Block, Input, ancestor_headers, current_block, state_trie_header, witness, raw,
}
use ceno_reth_benchmark.Client.Database.{
  ClientExecutorInput, build, from_parts_recording, basic_ref, storage_ref, code_by_hash_ref,
  collect_bytecodes,
}
use ceno_reth_benchmark.Client.Replay.{basic, storage, code, answer}
use ceno_reth_benchmark.Client.Replay.Tests.{toy_env, input}
use ceno_reth_benchmark.Client.Execute.{
  Exec, done, ask, Output, Chain, mainnet, execute_from_reader, execute_recording_witness_order,
}
use ceno_reth_benchmark.Client.Execute.Traced.{AsksFirst}
use ceno_reth_benchmark.Client.Execute.Correct.{Resumes, execute_from_reader-Resumes}

abbrev unchanged : Output
unchanged = record { bundle = []; blooms = [] }

abbrev three_reads : Exec Output
three_reads =
    ask (basic (7 ∷ [])) λ a. ask (storage (7 ∷ []) 5) λ v. ask (code (3 ∷ [])) λ c. done unchanged

abbrev one_read : Exec Output
one_read = ask (basic (7 ∷ [])) λ a. done unchanged

abbrev toy_chain : Exec Output → Chain
toy_chain e = record {
  try_into_recovered = λ b. inr tt;
  validate_header = λ b. inr tt;
  validate_block_pre_execution = λ b. inr tt;
  executor = λ b. e;
  validate_block_post_execution = λ b out. inr tt;
  database_error = λ e. 0;
  bloom_default = [];
  accrue_bloom = λ a b. a;
  calculate_ommers_root = λ b. [];
  calculate_withdrawals_root = λ b. none;
}

-- The block leaves the state as it was.
abbrev quiet : Block
quiet = record {
  header = record input.current_block.header { state_root = replicate 32 36 };
  body = [];
}

abbrev quiet_input : ClientExecutorInput
quiet_input = record input { current_block = quiet }

account_first : AsksFirst toy_env [] three_reads
unfolding contains bytes_eq
account_first = λ a. (refl, λ v c. tt)

abbrev stream : Input
stream =
    ancestor_headers input.ancestor_headers
    ∷ current_block quiet
    ∷ state_trie_header (record { version = 2; num_nodes = 2; chunk_count = 0 })
    ∷ witness (
        account (record {
          hashed_address = replicate 32 1;
          account = some (record {
            nonce = 1;
            balance = 2;
            storage_root = replicate 32 36;
            code_hash = 3 ∷ [];
          });
        }))
    ∷ raw leaf_bytes
    ∷ []

abbrev succeeds : {E A : Type 0} → Result E A → Bool
succeeds (ok a) = true
succeeds _ = false

stream_accepted : succeeds (execute_from_reader toy_env (toy_chain one_read) stream) ≡ true
unfolding execute_from_reader build_block_hashes bytes_eq answer basic_ref find? put
    update_from_bundle_state ensure_state_trie_loaded decode_trie advance_unchecked hash add_node
    get_or_insert sort_accounts hash_accounts validate_account_cache get get_nibbles get_internal
    encoded_path_eq_nibs to_nibs accounts_eq state_root
stream_accepted = refl

recorded_accepted :
    succeeds
      (execute_recording_witness_order toy_env (λ v. toy_chain three_reads) mainnet quiet_input)
    ≡ true
unfolding execute_recording_witness_order build from_parts_recording storage_ref code_by_hash_ref
    contains build_block_hashes bytes_eq answer basic_ref find? put decode_trie advance_unchecked
    hash add_node get_or_insert get get_nibbles get_internal encoded_path_eq_nibs to_nibs
    collect_bytecodes ceno_reth_benchmark.State.update_from_bundle_state
recorded_accepted = refl

execute_from_reader-Resumes_example :
    Ensures
      (λ r.
        (state : EthereumState) × (build toy_env quiet_input ≡ ok state)
        × Resumes toy_env (toy_chain three_reads) quiet_input state r)
      (execute_recording_witness_order toy_env (λ v. toy_chain three_reads) mainnet quiet_input)
execute_from_reader-Resumes_example =
    execute_from_reader-Resumes toy_env (λ v. toy_chain three_reads) mainnet quiet_input
      account_first
