-- ===== src/Client/Execute.antt =====
-- `ClientExecutor` of crates/executor/client/src/lib.rs: a block is executed over an eager state or over the
-- stream. The execution library is a parameter: it asks its database and goes on with the answers.
pub mod Traced
pub mod Recorded
pub mod Correct
pub mod Checked
pub mod Tests
use ceno_reth_benchmark.Base.{
  ℕ, not, ◌&&◌, Bool, true, false, Option, none, some, List, [], ◌∷◌, ◌++◌, ◌==◌, ◌⊎◌, inl, inr,
  if◌then◌else◌, length, get_elem?, bytes_eq,
}
use ceno_reth_benchmark.Base.Result.{Result, ok, err, panic, unwrap, ◌>>=◌}
use ceno_reth_benchmark.Base.Maps.{Key, find?, put, contains, is_some}
use ceno_reth_benchmark.Trie.{Mpt}
use ceno_reth_benchmark.Trie.Hash.{hash}
use ceno_reth_benchmark.State.{EthereumState, BundleAccount}
use ceno_reth_benchmark.Headers.{
  Header, ClientExecutionError, mpt_error, state_root_mismatch, block_sender_recovery_error,
  invalid_header, invalid_block_pre_execution, invalid_block_post_execution, block_execution_error,
}
use ceno_reth_benchmark.Client.Input.{WitnessAccess, ProviderError}
use ceno_reth_benchmark.Client.Reader.{
  Env, Block, Input, map_err, read_ancestor_headers, read_current_block,
}
use ceno_reth_benchmark.Client.Stream.{
  Streaming, build_streaming_state_from_input_reader, state_root,
}
use ceno_reth_benchmark.Client.Database.{
  ClientExecutorInput, EagerState, StateProvider, WitnessDb, build, from_parts,
  from_parts_recording, from_streaming_parts, record_access, note_account, note_storage,
}
use ceno_reth_benchmark.Client.Update.{update_from_bundle_state}
use ceno_reth_benchmark.Client.Replay.{Query, Answer, answer}

abbrev pub Outcome : Type 0 → Type 0
Outcome = Result ClientExecutionError

-- A computation of the execution library over a database.
pub data Exec (A : Type 0) : Type 0 where
  done : A → Exec A
  fail : ℕ → Exec A
  ask : Query → (Answer → Exec A) → Exec A

-- Of the executor's output, the changes and the blooms of the receipts.
pub record Output : Type 0 where
  pub bundle : List (List ℕ × BundleAccount)
  pub blooms : List (List ℕ)

pub data ChainVariant : Type 0 where
  mainnet : ChainVariant
  dev : ChainVariant

-- The consensus and execution libraries for a chain; an error is a code.
pub record Chain : Type 0 where
  pub try_into_recovered : Block → ℕ ⊎ Unit {0}
  pub validate_header : Block → ℕ ⊎ Unit {0}
  pub validate_block_pre_execution : Block → ℕ ⊎ Unit {0}
  pub executor : Block → Exec Output
  pub validate_block_post_execution : Block → Output → ℕ ⊎ Unit {0}
  pub database_error : ProviderError → ℕ
  pub bloom_default : List ℕ
  pub accrue_bloom : List ℕ → List ℕ → List ℕ
  pub calculate_ommers_root : List ℕ → List ℕ
  pub calculate_withdrawals_root : List ℕ → Option (List ℕ)

abbrev pub checked : (ℕ → ClientExecutionError) → ℕ ⊎ Unit {0} → Outcome (Unit {0})
checked f (inl e) = err (f e)
checked f (inr u) = ok u

module _ (env : Env) (chain : Chain) where
  unfoldable pub interpret : {A : Type 0} → WitnessDb → Exec A → Outcome (A × WitnessDb)
  interpret db (done a) = ok (a, db)
  interpret db (fail e) = err (block_execution_error e)
  interpret db (ask q k) = do
    (a, db') ← map_err (λ e. block_execution_error (chain.database_error e)) (answer env db q)
    interpret db' (k a)

  -- The checks before the execution.
  unfoldable pub check_block : Block → Outcome (Unit {0})
  check_block b = do
    recovered ← checked block_sender_recovery_error (chain.try_into_recovered b)
    valid ← checked invalid_header (chain.validate_header b)
    checked invalid_block_pre_execution (chain.validate_block_pre_execution b)

  unfoldable pub execute_block : Block → WitnessDb → Outcome (Output × WitnessDb)
  unfolding interpret
  execute_block b db = do
    (out, db') ← interpret db (chain.executor b)
    valid ← checked invalid_block_post_execution (chain.validate_block_post_execution b out)
    ok (out, db')

  unfoldable pub logs_bloom : List (List ℕ) → List ℕ → List ℕ
  logs_bloom [] bloom = bloom
  logs_bloom (b ∷ blooms) bloom = logs_bloom blooms (chain.accrue_bloom bloom b)

  -- The header that is returned; what is not named here stays.
  unfoldable pub derive_header : Block → Header → Output → Header
  unfolding logs_bloom
  derive_header b parent out = record b.header {
    parent_hash = env.header_hash_slow parent;
    ommers_hash = chain.calculate_ommers_root b.body;
    withdrawals_root = chain.calculate_withdrawals_root b.body;
    logs_bloom = logs_bloom out.blooms chain.bloom_default;
  }

  -- The state root is compared with the block's, and the header is given.
  unfoldable pub close_block : Block → List Header → Output → List ℕ → Outcome Header
  unfolding derive_header
  close_block b headers out actual =
      if not (bytes_eq actual b.header.state_root)
      then err (state_root_mismatch actual b.header.state_root)
      else do parent ← unwrap (get_elem? headers 0); ok (derive_header b parent out)

  unfoldable pub finish_streaming : Block → List Header → Streaming → Output → Outcome Header
  unfolding close_block
  finish_streaming b headers s out = do
    s1 ← update_from_bundle_state env s out.bundle
    (root, s2) ← state_root env s1
    close_block b headers out root

  -- The state behind the database, which the execution gives back.
  abbrev pub streaming_of : StateProvider → Outcome Streaming
  streaming_of (StateProvider.streaming s) = ok s
  streaming_of (StateProvider.eager e) = panic

  abbrev pub eager_of : StateProvider → Outcome EagerState
  eager_of (StateProvider.eager e) = ok e
  eager_of (StateProvider.streaming s) = panic

  unfoldable pub execute_from_reader : Input → Outcome Header
  unfolding read_ancestor_headers read_current_block check_block
      build_streaming_state_from_input_reader from_streaming_parts execute_block finish_streaming
  execute_from_reader input = do
    (headers, input1) ← read_ancestor_headers input
    (b, input2) ← read_current_block input1
    valid ← check_block b
    s ← build_streaming_state_from_input_reader headers input2
    db ← from_streaming_parts env s b.header headers
    (out, db') ← execute_block b db
    s' ← streaming_of db'.state
    finish_streaming b headers s' out

  abbrev pub push_access : WitnessAccess → WitnessDb → WitnessDb
  push_access a db = record db { witness_order = record_access true a db.witness_order }

  abbrev pub looked_up : Option (List Key) → Key → Bool
  looked_up none k = false
  looked_up (some order) k = contains order k

  abbrev pub Recorded : Type 0
  Recorded = Outcome (EagerState × WitnessDb)

  -- A storage trie that is written without having been read.
  abbrev pub note_unread : WitnessDb → EagerState → Key → Option Mpt → Recorded
  note_unread db e k none = ok (e, db)
  note_unread db e k (some m) = do
    (root, m') ← map_err mpt_error (hash env.codec.rlp m)
    let e1 = record e { state = record e.state { storage_tries = put k m' e.state.storage_tries } }
    let (e2, db2) = note_account env db e1 k
    ok (if bytes_eq root env.codec.rlp.empty_root_hash then (e1, db) else note_storage env db2 e2 k)

  unfoldable pub note_modified : WitnessDb → EagerState → List ℕ × BundleAccount → Recorded
  unfolding record_access note_account note_storage
  note_modified db e (address, a) = do
    let k = env.codec.rlp.keccak256 address
    let db1 = push_access (WitnessAccess.modified_account k (length a.storage)) db
    if is_some a.info && not (length a.storage == 0) && not (looked_up e.storage_lookup_order k)
        then note_unread db1 e k (find? k e.state.storage_tries)
        else ok (e, db1)

  unfoldable pub note_bundle : WitnessDb → EagerState → List (List ℕ × BundleAccount) → Recorded
  unfolding note_modified
  note_bundle db e [] = ok (e, db)
  note_bundle db e (a ∷ bundle) = do (e', db') ← note_modified db e a; note_bundle db' e' bundle

  -- The marker of the state trie, and the accounts that change.
  abbrev pub note_changes : Bool → WitnessDb → EagerState → List (List ℕ × BundleAccount) → Recorded
  note_changes false db e bundle = ok (e, db)
  note_changes true db e bundle = note_bundle (push_access WitnessAccess.state_trie db) e bundle

  unfoldable pub finish_eager : ClientExecutorInput → EthereumState → Output → Outcome Header
  unfolding close_block
  finish_eager input state out = do
    state' ←
        map_err mpt_error
          (ceno_reth_benchmark.State.update_from_bundle_state env.codec state out.bundle)
    (root, m) ← map_err mpt_error (hash env.codec.rlp state'.state_trie)
    close_block input.current_block input.ancestor_headers out root

  abbrev pub eager_witness_db : Bool → ClientExecutorInput → EthereumState → Outcome WitnessDb
  eager_witness_db true input state =
      from_parts_recording env state input.current_block.header input.ancestor_headers
        input.bytecodes
  eager_witness_db false input state =
      from_parts env state input.current_block.header input.ancestor_headers input.bytecodes

  -- The header, and the order if one is recorded.
  unfoldable pub execute_with_state :
      Bool → ClientExecutorInput → EthereumState → Outcome (Header × Option (List WitnessAccess))
  unfolding check_block execute_block note_bundle finish_eager
  execute_with_state recording input state = do
    db ← eager_witness_db recording input state
    valid ← check_block input.current_block
    (out, db1) ← execute_block input.current_block db
    e ← eager_of db1.state
    (e2, db2) ← note_changes recording db1 e out.bundle
    header ← finish_eager input e2.state out
    ok (header, db2.witness_order)

-- The entry points, by the chain.
module _ (env : Env) (spec : ChainVariant → Chain) where
  unfoldable pub execute : ChainVariant → ClientExecutorInput → Outcome Header
  unfolding execute_with_state
  execute variant pre_input = do
    state ← build env pre_input
    (header, order) ← execute_with_state env (spec variant) false pre_input state
    ok header

  unfoldable pub execute_recording_witness_order :
      ChainVariant → ClientExecutorInput → Outcome (Header × List WitnessAccess)
  unfolding execute_with_state
  execute_recording_witness_order variant pre_input = do
    state ← build env pre_input
    (header, order) ← execute_with_state env (spec variant) true pre_input state
    order' ← unwrap order
    ok (header, order')
