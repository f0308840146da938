-- ===== src/Headers.antt =====
-- `build_block_hashes` of crates/executor/client/src/io.rs with the errors of
-- crates/executor/client/src/error.rs: the hashes of the ancestor blocks, taken from the headers of the
-- witness. A `u64` is a number; `child.number - 1` wraps around, as in a build without
-- overflow checks. `hash_slow` is the library's.
pub mod Correct
mod Tests
use ceno_reth_benchmark.Base.{
  ℕ, ◌+◌, ◌-◌, ◌%◌, ◌^◌, not, Option, none, some, List, [], ◌∷◌, ◌==◌, if◌then◌else◌, bytes_eq,
}
use ceno_reth_benchmark.Base.Result.{Result, ok, err, ◌>>=◌}
use ceno_reth_benchmark.Trie.{Error}
use ceno_reth_benchmark.Client.Input.{WitnessFault}

-- An error of the execution library is a code.
pub data ClientExecutionError : Type 0 where
  parent_state_root_mismatch : (actual expected : List ℕ) → ClientExecutionError
  parent_storage_root_mismatch : (hashed_account actual expected : List ℕ) → ClientExecutionError
  non_consecutive_block_headers :
      (parent_block_number child_block_number : ℕ) → ClientExecutionError
  parent_block_hash_mismatch :
      (parent_block_number : ℕ) (expected actual : List ℕ) → ClientExecutionError
  block_sender_recovery_error : ℕ → ClientExecutionError
  invalid_header : ℕ → ClientExecutionError
  invalid_block_pre_execution : ℕ → ClientExecutionError
  invalid_block_post_execution : ℕ → ClientExecutionError
  block_execution_error : ℕ → ClientExecutionError
  state_root_mismatch : (actual expected : List ℕ) → ClientExecutionError
  mpt_error : Error → ClientExecutionError
  trie_witness_error : WitnessFault → ClientExecutionError

-- Of a header, what is read here; `rest` stands for the other fields.
pub record Header : Type 0 where
  pub number : ℕ
  pub parent_hash : List ℕ
  pub ommers_hash : List ℕ
  pub state_root : List ℕ
  pub transactions_root : List ℕ
  pub receipts_root : List ℕ
  pub withdrawals_root : Option (List ℕ)
  pub logs_bloom : List ℕ
  pub requests_hash : Option (List ℕ)
  pub rest : List ℕ

-- The map, a later entry in front of an earlier one.
abbrev pub Hashes : Type 0
Hashes = List (ℕ × List ℕ)

abbrev pub wrapping_pred : ℕ → ℕ
wrapping_pred n = (n + (2 ^ 64 - 1)) % 2 ^ 64

module _ (hash_slow : Header → List ℕ) where
  -- One window: the child comes first.
  unfoldable pub check_link : Header → Header → Hashes → Result ClientExecutionError Hashes
  check_link child parent hashes =
      if not (parent.number == wrapping_pred child.number)
      then err (non_consecutive_block_headers parent.number child.number)
      else if not (bytes_eq (hash_slow parent) child.parent_hash)
      then err (parent_block_hash_mismatch parent.number (hash_slow parent) child.parent_hash)
      else ok ((parent.number, child.parent_hash) ∷ hashes)

  unfoldable pub build_from : Header → List Header → Hashes → Result ClientExecutionError Hashes
  unfolding check_link
  build_from child [] hashes = ok hashes
  build_from child (parent ∷ headers) hashes = do
    hashes' ← check_link child parent hashes
    build_from parent headers hashes'

  unfoldable pub build_block_hashes : List Header → Result ClientExecutionError Hashes
  unfolding build_from
  build_block_hashes [] = ok []
  build_block_hashes (child ∷ headers) = build_from child headers []
