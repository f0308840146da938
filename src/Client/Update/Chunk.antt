-- ===== src/Client/Update/Chunk.antt =====
-- One chunk of `update_from_bundle_state`: its witnesses, its accounts, and its new root.
use ceno_reth_benchmark.Base.{
  ℕ, zero, suc, not, ◌||◌, ◌&&◌, Bool, Option, none, some, List, [], ◌∷◌, ◌==◌, if◌then◌else◌,
  length, drop, bytes_eq, starts_with, true, false,
}
use ceno_reth_benchmark.Base.Result.{Result, ok, err, panic, unwrap, ◌>>=◌}
use ceno_reth_benchmark.Base.Maps.{Key, Map, find?, put, erase, is_some}
use ceno_reth_benchmark.Hp.{to_nibs}
use ceno_reth_benchmark.Trie.{Error, inline_frontier_chunk, Mpt, new}
use ceno_reth_benchmark.Trie.Insert.{insert_nibbles}
use ceno_reth_benchmark.Trie.Delete.{delete_nibbles}
use ceno_reth_benchmark.Trie.Hash.{hash, root_is_hash_addressed}
use ceno_reth_benchmark.Trie.Frontier.{replace_frontier_slot}
use ceno_reth_benchmark.State.{AccountInfo, BundleAccount, update_slots}
use ceno_reth_benchmark.Headers.{
  ClientExecutionError, mpt_error, trie_witness_error, parent_storage_root_mismatch,
}
use ceno_reth_benchmark.Client.Input.{
  TrieAccount, accounts_eq, StateChunkHeader, StorageTrieHeader, AccountInput, ClientWitnessInput,
  account, storage_trie, bytecode, state_chunk, WitnessFault, not_a_state_chunk,
  state_chunk_root_mismatch, streamed_account_mismatch, account_outside_chunk,
  post_update_account_mismatch, invalid_or_duplicate_storage, unexpected_chunk_witness,
  no_bundle_accounts, missing_storage_trie, unused_storage_witnesses,
}
use ceno_reth_benchmark.Client.Reader.{
  Env, Input, read_witness_input, read_raw_bytes, map_err, get_rlp_nibbles, open_trie,
  root_or_empty,
}
use ceno_reth_benchmark.Client.Stream.{Streaming}
use ceno_reth_benchmark.Client.Update.Sorted.{Entry}

abbrev pub Outcome : Type 0 → Type 0
Outcome = Result ClientExecutionError

abbrev pub fault : {A : Type 0} → WitnessFault → Outcome A
fault m = err (trie_witness_error m)

abbrev pub b256_nibbles : List ℕ → List ℕ
b256_nibbles value = to_nibs value

abbrev pub in_chunk : List ℕ → Key → Bool
in_chunk prefix hashed_address = starts_with (b256_nibbles hashed_address) prefix

abbrev pub suffix : List ℕ → Key → List ℕ
suffix prefix hashed_address = drop (length prefix) (b256_nibbles hashed_address)

-- `bundle_accounts` from the cursor on: those below the prefix, and the others behind them.
unfoldable pub take_below : List ℕ → List Entry → List Entry × List Entry
take_below prefix [] = ([], [])
take_below prefix (e ∷ es) =
    let (below, rest) = take_below prefix es in
    if in_chunk prefix e.0 then (e ∷ below, rest) else ([], e ∷ es)

unfoldable pub as_state_chunk : ClientWitnessInput → Outcome StateChunkHeader
as_state_chunk (state_chunk h) = ok h
as_state_chunk (account a) = fault (not_a_state_chunk (account a))
as_state_chunk (storage_trie h) = fault (not_a_state_chunk (storage_trie h))
as_state_chunk (bytecode c) = fault (not_a_state_chunk (bytecode c))

-- What the accounts of a chunk are written to: the chunk, the storage tries of the execution, and
-- those of the chunk's witnesses.
pub record Work : Type 0 where
  pub chunk : Mpt
  pub storage_tries : Map Mpt
  pub post_storage_tries : Map Mpt

-- `borrow_mut` of the input, which panics while a borrow is held.
abbrev pub borrow_mut : Bool → Outcome (Unit {0})
borrow_mut true = panic
borrow_mut false = ok tt

module _ (env : Env) where
  unfoldable pub read_in_chunk : Mpt → List ℕ → Key → Outcome (Option TrieAccount)
  unfolding get_rlp_nibbles
  read_in_chunk chunk prefix hashed_address =
      map_err mpt_error (get_rlp_nibbles env.decode_account chunk (suffix prefix hashed_address))

  -- The cached accounts of the chunk are checked and leave the cache.
  unfoldable pub check_cached :
      Mpt → List ℕ → Map (Option TrieAccount) → Outcome (Map (Option TrieAccount))
  unfolding read_in_chunk
  check_cached chunk prefix [] = ok []
  check_cached chunk prefix ((hashed_address, streamed) ∷ cache) =
      let rest = check_cached chunk prefix cache in
      if in_chunk prefix hashed_address
      then (do
        trie_account ← read_in_chunk chunk prefix hashed_address
        if not (accounts_eq streamed trie_account)
            then fault (streamed_account_mismatch hashed_address streamed trie_account)
            else rest)
      else (do kept ← rest; ok ((hashed_address, streamed) ∷ kept))

  abbrev pub Witnessed : Type 0
  Witnessed = Outcome (Map Mpt × Input)

  unfoldable pub check_account_witness : Mpt → List ℕ → AccountInput → Outcome (Unit {0})
  unfolding read_in_chunk
  check_account_witness chunk prefix a =
      if not (in_chunk prefix a.hashed_address)
      then fault (account_outside_chunk a.hashed_address prefix)
      else do
        trie_account ← read_in_chunk chunk prefix a.hashed_address
        if not (accounts_eq trie_account a.account)
            then fault (post_update_account_mismatch a.hashed_address)
            else ok tt

  -- `held`: the input is still borrowed.
  unfoldable pub read_storage_witness :
      Bool → Mpt → List ℕ → StorageTrieHeader → Map Mpt → Input → Witnessed
  unfolding read_in_chunk read_raw_bytes open_trie
  read_storage_witness held chunk prefix h post input =
      if not (in_chunk prefix h.hashed_address) || is_some (find? h.hashed_address post)
      then fault (invalid_or_duplicate_storage h.hashed_address prefix)
      else do
        a ← read_in_chunk chunk prefix h.hashed_address
        borrowed ← borrow_mut held
        (bs, input') ← read_raw_bytes input
        (actual, storage) ← map_err mpt_error (open_trie env bs)
        if not (bytes_eq actual (root_or_empty env a))
            then err (parent_storage_root_mismatch h.hashed_address actual (root_or_empty env a))
            else ok (put h.hashed_address storage post, input')

  -- The borrow of the `match`, which read the witness, lasts through its arms.
  abbrev pub read_chunk_witness : Mpt → List ℕ → Map Mpt → Input → ClientWitnessInput → Witnessed
  read_chunk_witness chunk prefix post input (account a) = do
    checked ← check_account_witness chunk prefix a
    ok (post, input)
  read_chunk_witness chunk prefix post input (storage_trie h) =
      read_storage_witness true chunk prefix h post input
  read_chunk_witness chunk prefix post input (bytecode c) =
      fault (unexpected_chunk_witness (bytecode c))
  read_chunk_witness chunk prefix post input (state_chunk h) =
      fault (unexpected_chunk_witness (state_chunk h))

  unfoldable pub read_chunk_witnesses : ℕ → Mpt → List ℕ → Map Mpt → Input → Witnessed
  unfolding read_witness_input check_account_witness read_storage_witness
  read_chunk_witnesses zero chunk prefix post input = ok (post, input)
  read_chunk_witnesses (suc n) chunk prefix post input = do
    (w, input1) ← read_witness_input input
    (post', input2) ← read_chunk_witness chunk prefix post input1 w
    read_chunk_witnesses n chunk prefix post' input2

  -- The slots are written, and the root is taken.
  unfoldable pub update_storage_trie : Mpt → List (ℕ × ℕ) → Result Error (List ℕ)
  update_storage_trie m storage = do
    m1 ← update_slots env.codec m storage
    (root, m2) ← hash env.codec.rlp m1
    ok root

  abbrev pub slots_root : Work → Mpt → List (ℕ × ℕ) → Outcome (List ℕ × Work)
  slots_root w m storage = do root ← map_err mpt_error (update_storage_trie m storage); ok (root, w)

  -- The storage trie that the slots are written to: the execution's, the witness's, or an empty one.
  abbrev pub write_slots :
      Work
      → Key
      → Option TrieAccount
      → List (ℕ × ℕ)
      → Option Mpt
      → Option Mpt
      → Outcome (List ℕ × Work)
  write_slots w k old storage (some m) post =
      slots_root (record w { storage_tries = erase k w.storage_tries }) m storage
  write_slots w k old storage none (some m) =
      slots_root (record w { post_storage_tries = erase k w.post_storage_tries }) m storage
  write_slots w k old storage none none =
      if bytes_eq (root_or_empty env old) env.codec.rlp.empty_root_hash
      then slots_root w new storage
      else fault (missing_storage_trie k)

  -- With no slot to write, a storage trie that was read must have the account's root.
  abbrev pub keep_root : Work → Key → List ℕ → Option Mpt → Outcome (List ℕ × Work)
  keep_root w k expected none = ok (expected, w)
  keep_root w k expected (some m) = do
    (actual, m') ← map_err mpt_error (hash env.codec.rlp m)
    if not (bytes_eq actual expected)
        then err (parent_storage_root_mismatch k actual expected)
        else ok (expected, record w { storage_tries = erase k w.storage_tries })

  unfoldable pub storage_root_of :
      Work → Key → Option TrieAccount → Bool → List (ℕ × ℕ) → Outcome (List ℕ × Work)
  unfolding update_storage_trie
  storage_root_of w k old was_destroyed storage =
      if was_destroyed
      then slots_root w new storage
      else if not (length storage == 0)
      then write_slots w k old storage (find? k w.storage_tries) (find? k w.post_storage_tries)
      else keep_root w k (root_or_empty env old) (find? k w.storage_tries)

  abbrev pub write_account :
      List ℕ → Work → Key → BundleAccount → Option TrieAccount → Option AccountInfo → Outcome Work
  write_account prefix w k a old none = do
    (changed, chunk) ← map_err mpt_error (delete_nibbles w.chunk (suffix prefix k))
    ok (record w { chunk = chunk; storage_tries = erase k w.storage_tries })
  write_account prefix w k a old (some info) = do
    (storage_root, w1) ← storage_root_of w k old a.was_destroyed a.storage
    (changed, chunk) ← map_err mpt_error (
        insert_nibbles w1.chunk (suffix prefix k)
          (env.codec.encode_account info.nonce info.balance storage_root info.code_hash))
    ok (record w1 { chunk = chunk })

  unfoldable pub update_accounts : List ℕ → Work → List Entry → Outcome Work
  unfolding read_in_chunk storage_root_of
  update_accounts prefix w [] = ok w
  update_accounts prefix w ((k, a) ∷ es) = do
    old ← read_in_chunk w.chunk prefix k
    w' ← write_account prefix w k a old a.info
    update_accounts prefix w' es

  -- The root of the chunk may stand in the frontier as a digest, or is the root of the whole trie.
  unfoldable pub chunk_root : List ℕ → Mpt → Outcome (List ℕ)
  unfolding root_is_hash_addressed
  chunk_root prefix chunk = do
    (new_root, m1) ← map_err mpt_error (hash env.codec.rlp chunk)
    (addressed, m2) ← map_err mpt_error (root_is_hash_addressed env.codec.rlp m1)
    if not (length prefix == 0)
          && not (bytes_eq new_root env.codec.rlp.empty_root_hash)
          && not addressed
        then err (mpt_error inline_frontier_chunk)
        else ok new_root

  -- The new root goes into the frontier; `post_storage_tries` must be used up.
  unfoldable pub close_chunk :
      Streaming → StateChunkHeader → Map (Option TrieAccount) → Input → Work → Outcome Streaming
  unfolding chunk_root
  close_chunk s header cache input w =
      if not (length w.post_storage_tries == 0) then fault unused_storage_witnesses else do
        new_root ← chunk_root header.prefix w.chunk
        frontier ← unwrap s.state_trie
        frontier' ← map_err mpt_error (
            replace_frontier_slot env.codec.rlp frontier header.prefix header.expected_root
              new_root)
        ok (record s {
          state_trie = some frontier';
          account_cache = cache;
          storage_tries = w.storage_tries;
          input = input;
        })

  abbrev pub update_below :
      Streaming
      → StateChunkHeader
      → Mpt
      → Map (Option TrieAccount)
      → Map Mpt
      → Input
      → List Entry × List Entry
      → Outcome (Streaming × List Entry)
  update_below s header chunk cache post input (below, rest) =
      if length below == 0 then fault (no_bundle_accounts header.prefix) else do
        w ←
            update_accounts header.prefix
              (record { chunk = chunk; storage_tries = s.storage_tries; post_storage_tries = post })
              below
        s' ← close_chunk s header cache input w
        ok (s', rest)

  unfoldable pub process_chunk : Streaming → List Entry → Outcome (Streaming × List Entry)
  unfolding read_witness_input as_state_chunk read_raw_bytes open_trie check_cached
      read_chunk_witnesses take_below update_accounts close_chunk
  process_chunk s left = do
    (w, input1) ← read_witness_input s.input
    header ← as_state_chunk w
    (bs, input2) ← read_raw_bytes input1
    (actual, chunk) ← map_err mpt_error (open_trie env bs)
    if not (bytes_eq actual header.expected_root)
        then fault (state_chunk_root_mismatch header.prefix actual header.expected_root)
        else do
          cache ← check_cached chunk header.prefix s.account_cache
          (post, input3) ← read_chunk_witnesses header.witness_count chunk header.prefix [] input2
          update_below s header chunk cache post input3 (take_below header.prefix left)
