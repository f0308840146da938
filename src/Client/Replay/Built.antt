-- ===== src/Client/Replay/Built.antt =====
-- The state that `build` makes and the writer's tables are of the same input.
use ceno_reth_benchmark.Base.{
  ◌≡◌, refl, sym, subst, ◌∙◌, ◌⊎◌, inl, inr, not, Bool, true, false, Option, none, some, List, [],
  ◌∷◌, ◌++◌, if◌then◌else◌, bytes_eq, bytes_eq→eq, Bool-cases, All, All-append_left, get_elem?,
}
use ceno_reth_benchmark.Base.Result.{
  ok, unwrap, Ensures, on_ok, on_err, Ensures-bind, Ensures-any, Ensures-bind_eq, Ensures-if,
  Ensures-mono, Ensures-ok,
}
use ceno_reth_benchmark.Base.Maps.{
  Key, Map, find?, put, is_some, find?-put, find?-put_self, put-each, keys_cases, is_some-put,
}
use ceno_reth_benchmark.Trie.{Mpt}
use ceno_reth_benchmark.State.{EthereumState}
use ceno_reth_benchmark.Headers.{Header, ClientExecutionError, mpt_error}
use ceno_reth_benchmark.Client.Input.{
  TrieAccount, StorageTrieInput, Bytecode, WitnessAccess, account, storage_trie, bytecode,
  state_trie, modified_account,
}
use ceno_reth_benchmark.Client.Reader.{Env, get_rlp, open_trie, root_or_empty, map_err, map_err-ok}
use ceno_reth_benchmark.Client.Database.{
  ClientExecutorInput, build, build_storage_tries, collect_bytecodes,
}
use ceno_reth_benchmark.Host.Write.{Sources, mpt, collect_tries, collect_accounts}
use ceno_reth_benchmark.Client.Replay.Linked.{Covered, is_some-find}

module _ (env : Env) where
  -- A storage trie and the bytes it was opened from.
  abbrev pub Paired : Mpt → Map StorageTrieInput → Key → Mpt → Type 0
  Paired trie inputs k m =
      (i : StorageTrieInput) × (find? k inputs ≡ some i)
      × (i.hashed_address ≡ k)
      × ((a : Option TrieAccount) × (get_rlp env.decode_account trie k ≡ ok a)
          × (open_trie env i.encoded ≡ ok (root_or_empty env a, m)))

  abbrev pub AllPaired : Mpt → Map Mpt → Map StorageTrieInput → Type 0
  AllPaired trie tries inputs =
      (k : Key) (m : Mpt) → find? k tries ≡ some m → Paired trie inputs k m

  put-AllPaired :
      (trie : Mpt) (tries : Map Mpt) (inputs : Map StorageTrieInput) (i : StorageTrieInput)
      (a : Option TrieAccount) (m : Mpt)
      → AllPaired trie tries inputs
      → get_rlp env.decode_account trie i.hashed_address ≡ ok a
      → open_trie env i.encoded ≡ ok (root_or_empty env a, m)
      → AllPaired trie (put i.hashed_address m tries) (put i.hashed_address i inputs)
  put-AllPaired trie tries inputs i a m old q o k m' h =
      go (keys_cases i.hashed_address k) (sym (find?-put k i.hashed_address m tries) ∙ h)
    where
      go :
          ((bytes_eq i.hashed_address k ≡ true) × (i.hashed_address ≡ k))
            ⊎ (bytes_eq i.hashed_address k ≡ false)
          → (if bytes_eq i.hashed_address k then some m else find? k tries) ≡ some m'
          → Paired trie (put i.hashed_address i inputs) k m'
      go (inl e) p = (
        i,
        rw (find?-put k i.hashed_address i inputs, e.0),
        e.1,
        (
          a,
          rw (← e.1) q,
          subst (λ x. open_trie env i.encoded ≡ ok (root_or_empty env a, x)) (cc (rw e.0 at p)) o,
        ),
      )
      go (inr e) p =
          let r = old k m' (rw e at p) in
          (r.0, rw (find?-put k i.hashed_address i inputs, e) r.1, r.2, r.3)

  build_storage_tries-AllPaired :
      (trie : Mpt) (is : List StorageTrieInput) (tries : Map Mpt) (inputs : Map StorageTrieInput)
      → AllPaired trie tries inputs
      → Ensures
          (λ t. AllPaired trie t (collect_tries is inputs))
          (build_storage_tries env trie is tries)
  unfolding build_storage_tries collect_tries
  build_storage_tries-AllPaired trie [] tries inputs h = on_ok h
  build_storage_tries-AllPaired trie (i ∷ is) tries inputs h =
      Ensures-bind_eq (map_err mpt_error (get_rlp env.decode_account trie i.hashed_address)) λ a q.
        Ensures-bind_eq (map_err mpt_error (open_trie env i.encoded)) λ am o.
          elim (Bool-cases (bytes_eq am.0 (root_or_empty env a))) [
            | inl e ↦ rw e (
                build_storage_tries-AllPaired trie is (put i.hashed_address am.1 tries)
                  (put i.hashed_address i inputs)
                  (put-AllPaired trie tries inputs i a am.1 h
                    (map_err-ok mpt_error (get_rlp env.decode_account trie i.hashed_address) q)
                    (rw (← bytes_eq→eq am.0 (root_or_empty env a) e)
                      (map_err-ok mpt_error (open_trie env i.encoded) o))))
            | inr e ↦ rw e on_err
          ]

  pub build-AllPaired :
      (input : ClientExecutorInput)
      → Ensures
          (λ s.
            AllPaired s.state_trie s.storage_tries (collect_tries input.storage_tries [])
            × ((p : Header) × (get_elem? input.ancestor_headers 0 ≡ some p)))
          (build env input)
  unfolding build find?
  build-AllPaired input =
      Ensures-bind (Ensures-any (map_err mpt_error (open_trie env input.state_trie.1))) λ am _.
        Ensures-bind_eq (unwrap (get_elem? input.ancestor_headers 0)) λ p q.
          Ensures-if (not (bytes_eq am.0 p.state_root)) (λ _. on_err)
            λ _.
              Ensures-bind
                (build_storage_tries-AllPaired am.1 input.storage_tries [] [] (λ k m h. cc))
                (λ t h. on_ok (h, (p, unwrap-ok (get_elem? input.ancestor_headers 0) q)))
    where
      unwrap-ok :
          (o : Option Header) {a : Header} → unwrap {E = ClientExecutionError} o ≡ ok a → o ≡ some a
      unwrap-ok none h = cc
      unwrap-ok (some a) h = cc

  -- A code stands under its hash.
  pub collect_bytecodes-hashed :
      (codes : List Bytecode) (m : Map Bytecode)
      → ((k : Key) (c : Bytecode) → find? k m ≡ some c → env.code_hash_slow c ≡ k)
      → (k : Key) (c : Bytecode) → find? k (collect_bytecodes env.code_hash_slow codes m) ≡ some c
      → env.code_hash_slow c ≡ k
  unfolding collect_bytecodes
  collect_bytecodes-hashed [] m h = h
  collect_bytecodes-hashed (code ∷ codes) m h =
      collect_bytecodes-hashed codes (put (env.code_hash_slow code) code m)
        (put-each (λ k c. env.code_hash_slow c ≡ k) (env.code_hash_slow code) code m refl h)

  module _ (state : EthereumState) where
    abbrev Right : Map (Option TrieAccount) → Type 0
    Right m =
        (k : Key) (a : Option TrieAccount)
        → find? k m ≡ some a
        → get_rlp env.decode_account state.state_trie k ≡ ok a

    abbrev Has : Map (Option TrieAccount) → WitnessAccess → Type 0
    Has m (account k) = is_some (find? k m) ≡ true
    Has m (storage_trie k) = Unit {0}
    Has m (bytecode k) = Unit {0}
    Has m state_trie = Unit {0}
    Has m (modified_account k n) = Unit {0}

    -- The accounts are those of the trie, no key is lost, and each access has its own.
    abbrev Collected :
        List WitnessAccess → Map (Option TrieAccount) → Map (Option TrieAccount) → Type 0
    Collected order m m' =
        Right m'
        × ((k : Key) → is_some (find? k m) ≡ true → is_some (find? k m') ≡ true)
        × All (Has m') order

    keeps :
        (k j : Key) (a : Option TrieAccount) (m : Map (Option TrieAccount))
        → is_some (find? j m) ≡ true
        → is_some (find? j (put k a m)) ≡ true
    keeps k j a m h = rw (is_some-put j k a m, h) (go (bytes_eq k j))
      where
        go : (t : Bool) → (if t then true else true) ≡ true
        go true = refl
        go false = refl

    collect_accounts-Collected :
        (order : List WitnessAccess) (m : Map (Option TrieAccount))
        → Right m
        → Ensures (Collected order m) (collect_accounts env state.state_trie order m)
    unfolding collect_accounts
    collect_accounts-Collected [] m h = on_ok (h, λ k e. e, tt)
    collect_accounts-Collected (account k ∷ order) m h =
        Ensures-bind_eq (map_err mpt (get_rlp env.decode_account state.state_trie k)) λ a q.
          Ensures-mono
            (collect_accounts-Collected order (put k a m) (
              put-each (λ j b. get_rlp env.decode_account state.state_trie j ≡ ok b) k a m
                (map_err-ok mpt (get_rlp env.decode_account state.state_trie k) q) h))
            (λ m' c.
              (c.0, λ j e. c.1 j (keeps k j a m e), (c.1 k (rw (find?-put_self k a m) refl), c.2)))
    collect_accounts-Collected (storage_trie k ∷ order) m h =
        Ensures-mono (collect_accounts-Collected order m h) (λ m' c. (c.0, c.1, (tt, c.2)))
    collect_accounts-Collected (bytecode k ∷ order) m h =
        Ensures-mono (collect_accounts-Collected order m h) (λ m' c. (c.0, c.1, (tt, c.2)))
    collect_accounts-Collected (state_trie ∷ order) m h =
        Ensures-mono (collect_accounts-Collected order m h) (λ m' c. (c.0, c.1, (tt, c.2)))
    collect_accounts-Collected (modified_account k n ∷ order) m h =
        Ensures-mono (collect_accounts-Collected order m h) (λ m' c. (c.0, c.1, (tt, c.2)))

    Has-Covered :
        (src : Sources) (order : List WitnessAccess)
        → Right src.account_by_hash
        → All (Has src.account_by_hash) order
        → All (Covered env state src) order
    Has-Covered src [] r h = tt
    Has-Covered src (account k ∷ order) r h =
        let f = is_some-find (find? k src.account_by_hash) (sym h.0) in
        ((f.0, r k f.0 f.1, f.1), Has-Covered src order r h.1)
    Has-Covered src (storage_trie k ∷ order) r h = (tt, Has-Covered src order r h.1)
    Has-Covered src (bytecode k ∷ order) r h = (tt, Has-Covered src order r h.1)
    Has-Covered src (state_trie ∷ order) r h = (tt, Has-Covered src order r h.1)
    Has-Covered src (modified_account k n ∷ order) r h = (tt, Has-Covered src order r h.1)

    -- The table of the accounts covers every access that it was collected from.
    pub collect_accounts-Covered :
        (src : Sources) (order more : List WitnessAccess)
        → collect_accounts env state.state_trie (order ++ more) [] ≡ ok src.account_by_hash
        → All (Covered env state src) order
    unfolding find?
    collect_accounts-Covered src order more e =
        let c = Ensures-ok (collect_accounts-Collected (order ++ more) [] (λ k a h. cc)) e in
        Has-Covered src order c.0 (All-append_left (Has src.account_by_hash) order more c.2)
