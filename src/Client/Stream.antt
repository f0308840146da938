-- ===== src/Client/Stream.antt =====
-- `StreamingEthereumState` of crates/executor/client/src/io.rs: accounts, storage tries and
-- bytecodes are read from the input when they are first asked for. A `RefCell` is a field that a call
-- gives back; a map is walked in the order of its list.
use ceno_reth_benchmark.Base.{
  ℕ, not, Option, none, some, List, [], ◌∷◌, if◌then◌else◌, get_elem?, bytes_eq,
}
use ceno_reth_benchmark.Base.Result.{Result, ok, err, panic, unwrap, ◌>>=◌}
use ceno_reth_benchmark.Base.Maps.{Map, find?, put, is_some}
use ceno_reth_benchmark.Trie.{Mpt}
use ceno_reth_benchmark.Trie.Hash.{hash}
use ceno_reth_benchmark.Headers.{
  Header, ClientExecutionError, mpt_error, parent_state_root_mismatch, trie_witness_error,
}
use ceno_reth_benchmark.Client.Input.{
  TrieAccount, accounts_eq, StateTrieHeader, StorageTrieHeader, Bytecode, ClientWitnessInput,
  account, storage_trie, bytecode, state_chunk, WitnessFault, not_an_account,
  duplicate_streamed_account, not_a_storage_trie, storage_trie_hash_mismatch, mpt_message,
  storage_root_mismatch, not_a_bytecode, bytecode_hash_mismatch, streamed_account_mismatch,
  ProviderError,
}
use ceno_reth_benchmark.Client.Reader.{
  Env, Input, witness, read_witness_input, read_raw_bytes, read_state_trie_header, map_err, get_rlp,
  open_trie, root_or_empty,
}

pub record Streaming : Type 0 where
  pub state_trie_header : StateTrieHeader
  pub parent_state_root : List ℕ
  pub state_trie : Option Mpt
  pub account_cache : Map (Option TrieAccount)
  pub storage_tries : Map Mpt
  pub input : Input

abbrev pub Read : Type 0 → Type 0
Read A = Result ProviderError (A × Streaming)

unfoldable pub provider_error : WitnessFault → ProviderError
provider_error m = ProviderError.trie_witness_error m

-- `ancestor_headers[0]` panics if there is none.
unfoldable pub build_streaming_state_from_input_reader :
    List Header → Input → Result ClientExecutionError Streaming
unfolding read_state_trie_header
build_streaming_state_from_input_reader ancestor_headers input = do
  (header, input1) ← read_state_trie_header input
  parent ← unwrap (get_elem? ancestor_headers 0)
  ok (record {
    state_trie_header = header;
    parent_state_root = parent.state_root;
    state_trie = none;
    account_cache = [];
    storage_tries = [];
    input = input1;
  })

-- The loop of `read_account`: accounts are cached until the one that was asked for.
unfoldable pub read_until :
    List ℕ
    → Map (Option TrieAccount)
    → Input
    → Result ProviderError (Option TrieAccount × Map (Option TrieAccount) × Input)
unfolding provider_error
read_until hashed_address cache (witness (account a) ∷ input) =
    let cache' = put a.hashed_address a.account cache in
    let rest = read_until hashed_address cache' input in
    if is_some (find? a.hashed_address cache)
    then err (provider_error (duplicate_streamed_account a.hashed_address))
    else if bytes_eq a.hashed_address hashed_address
    then ok (a.account, cache', input)
    else rest
read_until hashed_address cache (witness w ∷ input) =
    err (provider_error (not_an_account hashed_address w))
read_until hashed_address cache _ = panic

abbrev pub cached_or_read :
    Streaming → List ℕ → Option (Option TrieAccount) → Read (Option TrieAccount)
cached_or_read s hashed_address (some a) = ok (a, s)
cached_or_read s hashed_address none = do
  (a, cache, input) ← read_until hashed_address s.account_cache s.input
  ok (a, record s { account_cache = cache; input = input })

unfoldable pub read_account : Streaming → List ℕ → Read (Option TrieAccount)
unfolding read_until
read_account s hashed_address =
    cached_or_read s hashed_address (find? hashed_address s.account_cache)

unfoldable pub as_storage_trie :
    List ℕ → ClientWitnessInput → Result ProviderError StorageTrieHeader
unfolding provider_error
as_storage_trie hashed_address (storage_trie h) = ok h
as_storage_trie hashed_address (account a) =
    err (provider_error (not_a_storage_trie hashed_address (account a)))
as_storage_trie hashed_address (bytecode c) =
    err (provider_error (not_a_storage_trie hashed_address (bytecode c)))
as_storage_trie hashed_address (state_chunk c) =
    err (provider_error (not_a_storage_trie hashed_address (state_chunk c)))

unfoldable pub as_bytecode : List ℕ → ClientWitnessInput → Result ProviderError Bytecode
unfolding provider_error
as_bytecode hash (bytecode c) = ok c
as_bytecode hash (account a) = err (provider_error (not_a_bytecode hash (account a)))
as_bytecode hash (storage_trie h) = err (provider_error (not_a_bytecode hash (storage_trie h)))
as_bytecode hash (state_chunk c) = err (provider_error (not_a_bytecode hash (state_chunk c)))

module _ (env : Env) where
  unfoldable pub expected_storage_root : Streaming → List ℕ → Read (List ℕ)
  unfolding read_account
  expected_storage_root s hashed_address = do
    (a, s') ← read_account s hashed_address
    ok (root_or_empty env a, s')

  -- A storage trie that is not there yet.
  unfoldable pub read_storage_trie : Streaming → List ℕ → Result ProviderError Streaming
  unfolding read_witness_input as_storage_trie expected_storage_root read_raw_bytes open_trie
      provider_error
  read_storage_trie s hashed_address = do
    (w, input1) ← read_witness_input s.input
    header ← as_storage_trie hashed_address w
    if not (bytes_eq header.hashed_address hashed_address)
        then err (provider_error (storage_trie_hash_mismatch hashed_address header.hashed_address))
        else do
          (expected, s1) ← expected_storage_root (record s { input = input1 }) hashed_address
          (bs, input2) ← read_raw_bytes s1.input
          (actual, m) ← map_err (λ e. provider_error (mpt_message e)) (open_trie env bs)
          if not (bytes_eq actual expected)
              then err (provider_error (storage_root_mismatch hashed_address actual expected))
              else ok (record s1 {
                storage_tries = put hashed_address m s1.storage_tries;
                input = input2;
              })

  unfoldable pub load_storage_trie : Streaming → List ℕ → Result ProviderError Streaming
  unfolding read_storage_trie
  load_storage_trie s hashed_address =
      if is_some (find? hashed_address s.storage_tries)
      then ok s
      else read_storage_trie s hashed_address

  unfoldable pub read_bytecode : Streaming → List ℕ → Read Bytecode
  unfolding read_witness_input as_bytecode provider_error
  read_bytecode s hash = do
    (w, input1) ← read_witness_input s.input
    code ← as_bytecode hash w
    if not (bytes_eq (env.code_hash_slow code) hash)
        then err (provider_error (bytecode_hash_mismatch hash (env.code_hash_slow code)))
        else ok (code, record s { input = input1 })

  abbrev pub loaded_or_read : Streaming → Option Mpt → Result ClientExecutionError Streaming
  loaded_or_read s (some m) = ok s
  loaded_or_read s none = do
    (bs, input1) ← read_raw_bytes s.input
    (actual, m) ← map_err mpt_error (open_trie env bs)
    if not (bytes_eq actual s.parent_state_root)
        then err (parent_state_root_mismatch actual s.parent_state_root)
        else ok (record s { state_trie = some m; input = input1 })

  unfoldable pub ensure_state_trie_loaded : Streaming → Result ClientExecutionError Streaming
  unfolding read_raw_bytes open_trie
  ensure_state_trie_loaded s = loaded_or_read s s.state_trie

  unfoldable pub state_root : Streaming → Result ClientExecutionError (List ℕ × Streaming)
  state_root s = do
    m ← unwrap s.state_trie
    (h, m') ← map_err mpt_error (hash env.codec.rlp m)
    ok (h, record s { state_trie = some m' })

  unfoldable pub validate_accounts :
      Mpt → Map (Option TrieAccount) → Result ClientExecutionError (Unit {0})
  unfolding get_rlp
  validate_accounts m [] = ok tt
  validate_accounts m ((hashed_address, streamed) ∷ cache) = do
    trie_account ← map_err mpt_error (get_rlp env.decode_account m hashed_address)
    let rest = validate_accounts m cache
    if not (accounts_eq trie_account streamed)
        then err
            (trie_witness_error (streamed_account_mismatch hashed_address streamed trie_account))
        else rest

  unfoldable pub validate_account_cache : Streaming → Result ClientExecutionError (Unit {0})
  unfolding validate_accounts
  validate_account_cache s = do m ← unwrap s.state_trie; validate_accounts m s.account_cache
