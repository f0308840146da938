-- ===== src/Client/Update.antt =====
-- `StreamingEthereumState::update_from_bundle_state` of crates/executor/client/src/io.rs: the changes of
-- a block are written chunk by chunk of the state trie, and the frontier gets each chunk's new root.
-- The chunk's memory is not modelled. A slice from the prefix on is taken of nibbles that start with it.
pub mod Sorted
pub mod Chunk
pub mod Written
pub mod Moves
pub mod Took
pub mod Accepts
mod Tests
use ceno_reth_benchmark.Base.{
  ℕ, zero, suc, ◌-◌, not, ◌||◌, ◌&&◌, Bool, true, false, Option, none, some, List, [], ◌∷◌, ◌==◌,
  ltb, if◌then◌else◌, length, drop, bytes_eq, starts_with,
}
use ceno_reth_benchmark.Base.Result.{Result, ok, err, panic, unwrap, ◌>>=◌}
use ceno_reth_benchmark.Hp.{to_nibs}
use ceno_reth_benchmark.Headers.{ClientExecutionError, trie_witness_error}
use ceno_reth_benchmark.State.{BundleAccount}
use ceno_reth_benchmark.Client.Input.{StateTrieHeader, unsupported_version, bundle_accounts_left}
use ceno_reth_benchmark.Client.Reader.{Env}
use ceno_reth_benchmark.Client.Stream.{Streaming, ensure_state_trie_loaded, validate_account_cache}
use ceno_reth_benchmark.Client.Update.Sorted.{Entry, sort_accounts, hash_accounts}
use ceno_reth_benchmark.Client.Update.Chunk.{process_chunk}

module _ (env : Env) where
  unfoldable pub process_chunks :
      ℕ → Streaming → List Entry → Result ClientExecutionError (Streaming × List Entry)
  process_chunks zero s left = ok (s, left)
  process_chunks (suc n) s left = do
    (s', left') ← process_chunk env s left
    process_chunks n s' left'

  -- After the last chunk.
  unfoldable pub finish_update : ℕ → Streaming × List Entry → Result ClientExecutionError Streaming
  finish_update total (s, left) =
      if not (length left == 0)
      then err (trie_witness_error (bundle_accounts_left (total - length left) total))
      else do valid ← validate_account_cache env s; ok (record s { storage_tries = [] })

  unfoldable pub update_from_bundle_state :
      Streaming → List (List ℕ × BundleAccount) → Result ClientExecutionError Streaming
  unfolding process_chunks finish_update
  update_from_bundle_state s0 bundle = do
    s ← ensure_state_trie_loaded env s0
    if not (s.state_trie_header.version == 2)
        then err (trie_witness_error (unsupported_version s.state_trie_header.version))
        else do
          let accounts = sort_accounts (hash_accounts env bundle)
          r ← process_chunks s.state_trie_header.chunk_count s accounts
          finish_update (length accounts) r
