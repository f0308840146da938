-- ===== src/Client/Replay/Storage.antt =====
-- The queries of a slot and of a bytecode, eager and streaming.
use ceno_reth_benchmark.Base.{
  ℕ, ◌≡◌, refl, sym, ◌∙◌, true, false, Option, none, some, List, [], ◌∷◌, ◌++◌, append-nil,
  bytes_eq_refl, Bool-cases, inl, inr,
}
use ceno_reth_benchmark.Base.Result.{ok, unwrap, Ensures, on_ok, Ensures-bind_eq}
use ceno_reth_benchmark.Base.Maps.{
  Key, Map, find?, put, contains, find?-put_self, put-each, contains-put,
}
use ceno_reth_benchmark.Trie.{Mpt}
use ceno_reth_benchmark.State.{EthereumState}
use ceno_reth_benchmark.Headers.{Hashes}
use ceno_reth_benchmark.Client.Input.{
  TrieAccount, StorageTrieInput, Bytecode, ClientWitnessInput, WitnessAccess, storage_trie,
  bytecode,
}
use ceno_reth_benchmark.Client.Reader.{Env, Item, Input, witness, raw, open_trie, root_or_empty}
use ceno_reth_benchmark.Client.Stream.{
  Streaming, load_storage_trie, read_storage_trie, read_bytecode,
}
use ceno_reth_benchmark.Client.Database.{
  storage_ref, slot_value, code_by_hash_ref, note_account, note_storage, record_first,
  record_access,
}
use ceno_reth_benchmark.Trie.Frontier.{MptFrontier}
use ceno_reth_benchmark.Host.Write.{Sources, write_accesses}
use ceno_reth_benchmark.Client.Replay.Linked.{
  Opened, Step, eager_db, fed, is_some-find, is_some-none,
}
use ceno_reth_benchmark.Client.Replay.Steps.{read_account-again, basic_again}

unwrap-ok : {E A : Type 0} (o : Option A) {a : A} → unwrap {E = E} o ≡ ok a → o ≡ some a
unwrap-ok none h = cc
unwrap-ok (some a) h = cc

abbrev storage_items : StorageTrieInput → List Item
storage_items i =
    witness (
      ClientWitnessInput.storage_trie
        (record { hashed_address = i.hashed_address; num_nodes = i.num_nodes }))
    ∷ raw i.encoded
    ∷ []

module _ (env : Env) where
  -- The trie of an account that was read, as it was written.
  read_storage_trie-written :
      (s : Streaming) (rest : Input) (i : StorageTrieInput) (k : Key) (a : Option TrieAccount)
      (m : Mpt)
      → i.hashed_address ≡ k
      → find? k s.account_cache ≡ some a
      → open_trie env i.encoded ≡ ok (root_or_empty env a, m)
      → read_storage_trie env (fed s (storage_items i ++ rest)) k
        ≡ ok (fed (record s { storage_tries = put k m s.storage_tries }) rest)
  unfolding read_storage_trie
  read_storage_trie-written s rest i k a m key found o =
      rw (key, bytes_eq_refl k)
        (rw (read_account-again k a (fed s (raw i.encoded ∷ rest)) found)
          (rw o (rw (bytes_eq_refl (root_or_empty env a)) refl)))

  load-again :
      (s : Streaming) (k : Key) (m : Mpt)
      → find? k s.storage_tries ≡ some m
      → load_storage_trie env s k ≡ ok s
  unfolding load_storage_trie
  load-again s k m h = rw h

  load-first :
      (s : Streaming) (k : Key)
      → find? k s.storage_tries ≡ none
      → load_storage_trie env s k ≡ read_storage_trie env s k
  unfolding load_storage_trie
  load-first s k h = rw h

  read_bytecode-written :
      (s : Streaming) (rest : Input) (c : Bytecode) (h : Key)
      → env.code_hash_slow c ≡ h
      → read_bytecode env (fed s (witness (ClientWitnessInput.bytecode c) ∷ rest)) h
        ≡ ok (c, fed s rest)
  unfolding read_bytecode
  read_bytecode-written s rest c h e = rw (e, bytes_eq_refl h)

module _ (env : Env) (state : EthereumState) (codes : Map Bytecode) (hashes : Hashes)
    (src : Sources) (frontier : MptFrontier) (opened : Opened env state codes src) where
  pub code-Step :
      (known accounts tries code_order : List Key) (order : List WitnessAccess) (hash : Key)
      → ((k : Key) → contains known k ≡ true → contains accounts k ≡ true)
      → Ensures
          (Step env state codes hashes src frontier known accounts tries order
            (λ db. code_by_hash_ref env db hash))
          (code_by_hash_ref env (eager_db state codes hashes accounts tries code_order order) hash)
  unfolding code_by_hash_ref write_accesses
  code-Step known accounts tries code_order order hash looked =
      Ensures-bind_eq (unwrap (find? hash codes)) λ c q.
        let found : find? hash codes ≡ some c = unwrap-ok (find? hash codes) q in
        let there : find? hash src.bytecode_by_hash ≡ some c = rw opened.same_codes found in
        on_ok (record {
          accounts' = accounts;
          tries' = tries;
          code_order' = code_order ++ (hash ∷ []);
          w = bytecode hash ∷ [];
          db_eq = refl;
          known_ok = looked;
          streams = λ _. (
            witness (ClientWitnessInput.bytecode c) ∷ [],
            rw there refl,
            λ s rest l. (
              s,
              rw (read_bytecode-written env s rest c hash (opened.hashed hash c found)) refl,
              l,
            ),
          );
        })

  -- A slot of a trie that is there.
  storage_seen :
      (known accounts tries code_order : List Key) (order : List WitnessAccess) (address : List ℕ)
      (index : ℕ) (m : Mpt) (v : ℕ)
      → ((k : Key) → contains known k ≡ true → contains accounts k ≡ true)
      → contains tries (env.codec.rlp.keccak256 address) ≡ true
      → find? (env.codec.rlp.keccak256 address) state.storage_tries ≡ some m
      → slot_value env m (env.codec.rlp.keccak256 (env.codec.be_bytes index)) ≡ ok v
      → Step env state codes hashes src frontier known accounts tries order
          (λ db. storage_ref env db address index)
          (v, eager_db state codes hashes accounts tries code_order order)
  unfolding storage_ref write_accesses
  storage_seen known accounts tries code_order order address index m v looked seen there value =
      record {
        accounts' = accounts;
        tries' = tries;
        code_order' = code_order;
        w = [];
        db_eq = rw append-nil;
        known_ok = looked;
        streams = λ _. (
          [],
          refl,
          λ s rest l.
              let k : Key = env.codec.rlp.keccak256 address in
              let found = is_some-find (find? k s.storage_tries) (sym seen ∙ l.loaded k) in
              let same : find? k s.storage_tries ≡ some m =
                cc (found.1, l.same k found.0 found.1, there) in
              (s, rw (load-again env (fed s rest) k m same) (rw same (rw value refl)), l),
        );
      }

  storage_new :
      (known accounts tries code_order : List Key) (order : List WitnessAccess) (address : List ℕ)
      (index : ℕ) (m : Mpt) (v : ℕ)
      → ((k : Key) → contains known k ≡ true → contains accounts k ≡ true)
      → contains accounts (env.codec.rlp.keccak256 address) ≡ true
      → contains tries (env.codec.rlp.keccak256 address) ≡ false
      → find? (env.codec.rlp.keccak256 address) state.storage_tries ≡ some m
      → slot_value env m (env.codec.rlp.keccak256 (env.codec.be_bytes index)) ≡ ok v
      → let k : Key = env.codec.rlp.keccak256 address in
        Step env state codes hashes src frontier known accounts tries order
          (λ db. storage_ref env db address index)
          (
            v,
            eager_db state codes hashes accounts
                (tries ++ (k ∷ []))
                code_order
                (order ++ (storage_trie k ∷ [])),
          )
  unfolding storage_ref write_accesses
  storage_new known accounts tries code_order order address index m v looked seen new there value =
      let k : Key = env.codec.rlp.keccak256 address in
      let o = opened.tries k m there in
      record {
        accounts' = accounts;
        tries' = tries ++ (k ∷ []);
        code_order' = code_order;
        w = storage_trie k ∷ [];
        db_eq = refl;
        known_ok = looked;
        streams = λ _. (
          storage_items o.0,
          rw o.1 refl,
          λ s rest l. (
            record s { storage_tries = put k m s.storage_tries },
            rw
                (
                  load-first env (fed s (storage_items o.0 ++ rest)) k
                      (is_some-none (find? k s.storage_tries) (sym new ∙ l.loaded k)),
                  read_storage_trie-written env s rest o.0 k o.3.0 m o.2
                      (basic_again env state codes hashes src frontier opened accounts tries k o.3.0
                        s l seen o.3.1)
                      o.3.2,
                )
                (rw (find?-put_self k m s.storage_tries) (rw value refl)),
            record {
              cached = l.cached;
              values = l.values;
              loaded = contains-put tries k m s.storage_tries l.loaded;
              same =
                  put-each (λ j b. find? j state.storage_tries ≡ some b) k m s.storage_tries there
                    l.same;
            },
          ),
        );
      }

  pub storage-Step :
      (known accounts tries code_order : List Key) (order : List WitnessAccess) (address : List ℕ)
      (index : ℕ)
      → ((k : Key) → contains known k ≡ true → contains accounts k ≡ true)
      → contains accounts (env.codec.rlp.keccak256 address) ≡ true
      → Ensures
          (Step env state codes hashes src frontier known accounts tries order
            (λ db. storage_ref env db address index))
          (storage_ref env
            (eager_db state codes hashes accounts tries code_order order)
            address
            index)
  unfolding storage_ref note_account note_storage record_first record_access
  storage-Step known accounts tries code_order order address index looked seen =
      let k : Key = env.codec.rlp.keccak256 address in
      let hashed_slot : Key = env.codec.rlp.keccak256 (env.codec.be_bytes index) in
      elim (Bool-cases (contains tries k)) [
        | inl old ↦
            rw (seen, old)
              (Ensures-bind_eq (unwrap (find? k state.storage_tries)) λ m q.
                Ensures-bind_eq (slot_value env m hashed_slot) λ v value. on_ok (
                  storage_seen known accounts tries code_order order address index m v looked old
                    (unwrap-ok (find? k state.storage_tries) q) value))
        | inr new ↦
            rw (seen, new)
              (Ensures-bind_eq (unwrap (find? k state.storage_tries)) λ m q.
                Ensures-bind_eq (slot_value env m hashed_slot) λ v value. on_ok (
                  storage_new known accounts tries code_order order address index m v looked seen
                    new (unwrap-ok (find? k state.storage_tries) q) value))
      ]
