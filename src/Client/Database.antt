-- ===== src/Client/Database.antt =====
-- `ClientExecutorInputWithState` and `WitnessDb` of crates/executor/client/src/io.rs: the database
-- that the block is executed over, eager over a state that is there, or streaming. The `RefCell`s of
-- the recording are fields; the account's, the storage's and the bytecode's `witness_order` are one
-- cell, a field of the database.
use ceno_reth_benchmark.Base.{
  ℕ, not, Bool, true, false, Option, none, some, List, [], ◌∷◌, ◌++◌, ◌==◌, if◌then◌else◌,
  get_elem?, bytes_eq,
}
use ceno_reth_benchmark.Base.Result.{Result, ok, err, panic, stuck, unwrap, ◌>>=◌}
use ceno_reth_benchmark.Base.Maps.{Key, Map, find?, put, contains}
use ceno_reth_benchmark.Trie.{Mpt}
use ceno_reth_benchmark.State.{EthereumState, AccountInfo}
use ceno_reth_benchmark.Headers.{
  Header, Hashes, ClientExecutionError, mpt_error, parent_state_root_mismatch,
  parent_storage_root_mismatch, build_block_hashes,
}
use ceno_reth_benchmark.Client.Input.{
  TrieAccount, StorageTrieInput, Bytecode, WitnessAccess, streaming_bytecode_for_eager_state,
  ProviderError,
}
use ceno_reth_benchmark.Client.Reader.{Env, Block, map_err, get_rlp, open_trie, root_or_empty}
use ceno_reth_benchmark.Client.Stream.{
  Streaming, read_account, load_storage_trie, read_bytecode, provider_error,
}

pub record ClientExecutorInput : Type 0 where
  pub current_block : Block
  pub ancestor_headers : List Header
  pub state_trie : ℕ × List ℕ
  pub storage_tries : List StorageTrieInput
  pub bytecodes : List Bytecode

pub record EagerState : Type 0 where
  pub state : EthereumState
  pub account_lookup_order : Option (List Key)
  pub storage_lookup_order : Option (List Key)

pub data StateProvider : Type 0 where
  eager : EagerState → StateProvider
  streaming : Streaming → StateProvider

pub data BytecodeProvider : Type 0 where
  eager : Map Bytecode → Option (List Key) → BytecodeProvider
  streaming : BytecodeProvider

pub record WitnessDb : Type 0 where
  pub state : StateProvider
  pub block_hashes : Hashes
  pub bytecodes : BytecodeProvider
  pub witness_order : Option (List WitnessAccess)

-- `collect` into a map by the hash: the last code of a hash stays.
unfoldable pub collect_bytecodes : (Bytecode → List ℕ) → List Bytecode → Map Bytecode → Map Bytecode
collect_bytecodes hash_slow [] m = m
collect_bytecodes hash_slow (code ∷ codes) m =
    collect_bytecodes hash_slow codes (put (hash_slow code) code m)

-- An order that is recorded gets the key once; the flag says that it was new.
unfoldable pub record_first : Option (List Key) → Key → Bool × Option (List Key)
record_first none k = (false, none)
record_first (some ks) k = if contains ks k then (false, some ks) else (true, some (ks ++ (k ∷ [])))

unfoldable pub record_access :
    Bool → WitnessAccess → Option (List WitnessAccess) → Option (List WitnessAccess)
record_access true a (some order) = some (order ++ (a ∷ []))
record_access true a none = none
record_access false a order = order

-- `unwrap` or `expect` of a result.
abbrev pub expect {ℓ} : {E F A : Type ℓ} → Result E A → Result F A
expect (ok a) = ok a
expect (err e) = panic
expect panic = panic
expect stuck = stuck

abbrev pub to_account_info : Option TrieAccount → Option AccountInfo
to_account_info none = none
to_account_info (some a) =
    some (record { nonce = a.nonce; balance = a.balance; code_hash = a.code_hash })

abbrev pub value_or_zero : Option ℕ → ℕ
value_or_zero none = 0
value_or_zero (some v) = v

module _ (env : Env) where
  unfoldable pub build_storage_tries :
      Mpt → List StorageTrieInput → Map Mpt → Result ClientExecutionError (Map Mpt)
  unfolding open_trie get_rlp
  build_storage_tries state_trie [] tries = ok tries
  build_storage_tries state_trie (i ∷ inputs) tries = do
    account_in_trie ← map_err mpt_error (get_rlp env.decode_account state_trie i.hashed_address)
    (actual, m) ← map_err mpt_error (open_trie env i.encoded)
    let expected = root_or_empty env account_in_trie
    let rest = build_storage_tries state_trie inputs (put i.hashed_address m tries)
    if not (bytes_eq actual expected)
        then err (parent_storage_root_mismatch i.hashed_address actual expected)
        else rest

  unfoldable pub build : ClientExecutorInput → Result ClientExecutionError EthereumState
  unfolding build_storage_tries open_trie
  build input = do
    (actual, m) ← map_err mpt_error (open_trie env input.state_trie.1)
    parent ← unwrap (get_elem? input.ancestor_headers 0)
    if not (bytes_eq actual parent.state_root)
        then err (parent_state_root_mismatch actual parent.state_root)
        else do
          tries ← build_storage_tries m input.storage_tries []
          ok (record { state_trie = m; storage_tries = tries })

  unfoldable pub from_parts :
      EthereumState → Header → List Header → List Bytecode → Result ClientExecutionError WitnessDb
  unfolding collect_bytecodes
  from_parts state current_header ancestor_headers bytecodes = do
    hashes ← build_block_hashes env.header_hash_slow (current_header ∷ ancestor_headers)
    ok (record {
      state =
          StateProvider.eager
            (record { state = state; account_lookup_order = none; storage_lookup_order = none });
      block_hashes = hashes;
      bytecodes = BytecodeProvider.eager (collect_bytecodes env.code_hash_slow bytecodes []) none;
      witness_order = none;
    })

  abbrev pub record_state : StateProvider → StateProvider
  record_state (StateProvider.eager e) =
      StateProvider.eager
        (record e { account_lookup_order = some []; storage_lookup_order = some [] })
  record_state (StateProvider.streaming s) = StateProvider.streaming s

  abbrev pub record_bytecodes : BytecodeProvider → BytecodeProvider
  record_bytecodes (BytecodeProvider.eager m order) = BytecodeProvider.eager m (some [])
  record_bytecodes BytecodeProvider.streaming = BytecodeProvider.streaming

  -- The cells of the recording are new and empty, as `execute_recording_witness_order` makes them.
  unfoldable pub from_parts_recording :
      EthereumState → Header → List Header → List Bytecode → Result ClientExecutionError WitnessDb
  unfolding from_parts
  from_parts_recording state current_header ancestor_headers bytecodes = do
    db ← from_parts state current_header ancestor_headers bytecodes
    ok (record {
      state = record_state db.state;
      block_hashes = db.block_hashes;
      bytecodes = record_bytecodes db.bytecodes;
      witness_order = some [];
    })

  unfoldable pub from_streaming_parts :
      Streaming → Header → List Header → Result ClientExecutionError WitnessDb
  from_streaming_parts state current_header ancestor_headers = do
    hashes ← build_block_hashes env.header_hash_slow (current_header ∷ ancestor_headers)
    ok (record {
      state = StateProvider.streaming state;
      block_hashes = hashes;
      bytecodes = BytecodeProvider.streaming;
      witness_order = none;
    })

  -- A first lookup of an account is recorded in both orders.
  unfoldable pub note_account : WitnessDb → EagerState → Key → EagerState × WitnessDb
  unfolding record_first record_access
  note_account db e hashed_address =
      let (first, order) = record_first e.account_lookup_order hashed_address in
      (
        record e { account_lookup_order = order },
        record db {
          witness_order =
              record_access first (WitnessAccess.account hashed_address) db.witness_order;
        },
      )

  unfoldable pub note_storage : WitnessDb → EagerState → Key → EagerState × WitnessDb
  unfolding record_first record_access
  note_storage db e hashed_address =
      let (first, order) = record_first e.storage_lookup_order hashed_address in
      (
        record e { storage_lookup_order = order },
        record db {
          witness_order =
              record_access first (WitnessAccess.storage_trie hashed_address) db.witness_order;
        },
      )

  abbrev pub Reply : Type 0 → Type 0
  Reply A = Result ProviderError (A × WitnessDb)

  abbrev pub basic_in : WitnessDb → Key → StateProvider → Reply (Option AccountInfo)
  basic_in db hashed_address (StateProvider.eager e) = do
    let (e1, db1) = note_account db e hashed_address
    a ← expect (get_rlp env.decode_account e.state.state_trie hashed_address)
    ok (to_account_info a, record db1 { state = StateProvider.eager e1 })
  basic_in db hashed_address (StateProvider.streaming s) = do
    (a, s') ← read_account s hashed_address
    ok (to_account_info a, record db { state = StateProvider.streaming s' })

  unfoldable pub basic_ref : WitnessDb → List ℕ → Reply (Option AccountInfo)
  unfolding note_account get_rlp read_account
  basic_ref db address = basic_in db (env.codec.rlp.keccak256 address) db.state

  -- The value of a slot; a missing one is zero.
  unfoldable pub slot_value : Mpt → Key → Result ProviderError ℕ
  unfolding get_rlp
  slot_value m hashed_slot = do
    v ← expect (get_rlp env.decode_value m hashed_slot)
    ok (value_or_zero v)

  abbrev pub storage_in : WitnessDb → Key → Key → StateProvider → Reply ℕ
  storage_in db hashed_address hashed_slot (StateProvider.eager e) = do
    let (e1, db1) = note_account db e hashed_address
    let (e2, db2) = note_storage db1 e1 hashed_address
    m ← unwrap (find? hashed_address e.state.storage_tries)
    v ← slot_value m hashed_slot
    ok (v, record db2 { state = StateProvider.eager e2 })
  storage_in db hashed_address hashed_slot (StateProvider.streaming s) = do
    s' ← load_storage_trie env s hashed_address
    m ← unwrap (find? hashed_address s'.storage_tries)
    v ← slot_value m hashed_slot
    ok (v, record db { state = StateProvider.streaming s' })

  unfoldable pub storage_ref : WitnessDb → List ℕ → ℕ → Reply ℕ
  unfolding note_account note_storage slot_value
  storage_ref db address index =
      storage_in db (env.codec.rlp.keccak256 address)
        (env.codec.rlp.keccak256 (env.codec.be_bytes index)) db.state

  abbrev pub push_order : Option (List Key) → Key → Option (List Key)
  push_order none hash = none
  push_order (some order) hash = some (order ++ (hash ∷ []))

  abbrev pub code_streamed : WitnessDb → List ℕ → StateProvider → Reply Bytecode
  code_streamed db hash (StateProvider.streaming s) = do
    (code, s') ← read_bytecode env s hash
    ok (code, record db { state = StateProvider.streaming s' })
  code_streamed db hash (StateProvider.eager e) =
      err (provider_error streaming_bytecode_for_eager_state)

  abbrev pub code_in : WitnessDb → List ℕ → BytecodeProvider → Reply Bytecode
  code_in db hash (BytecodeProvider.eager m order) = do
    code ← unwrap (find? hash m)
    ok (
      code,
      record db {
        bytecodes = BytecodeProvider.eager m (push_order order hash);
        witness_order = record_access true (WitnessAccess.bytecode hash) db.witness_order;
      },
    )
  code_in db hash BytecodeProvider.streaming = code_streamed db hash db.state

  unfoldable pub code_by_hash_ref : WitnessDb → List ℕ → Reply Bytecode
  unfolding record_access
  code_by_hash_ref db hash = code_in db hash db.bytecodes

  unfoldable pub find_hash : ℕ → Hashes → Option (List ℕ)
  find_hash number [] = none
  find_hash number ((n, h) ∷ hashes) = if n == number then some h else find_hash number hashes

  unfoldable pub block_hash_ref : WitnessDb → ℕ → Result ProviderError (List ℕ)
  unfolding find_hash
  block_hash_ref db number = unwrap (find_hash number db.block_hashes)
