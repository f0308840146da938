-- ===== src/Client/Replay/Run.antt =====
-- All queries of an execution.
use ceno_reth_benchmark.Base.{
  ℕ, ◌≡◌, refl, true, List, [], ◌∷◌, ◌++◌, append-nil, append_assoc, All-append_left,
  All-append_right,
}
use ceno_reth_benchmark.Base.Result.{
  Result, ok, err, panic, stuck, unwrap, ◌>>=◌, Ensures, on_ok, Ensures-bind, Ensures-bind_eq,
}
use ceno_reth_benchmark.Base.Maps.{Key, Map, contains}
use ceno_reth_benchmark.State.{EthereumState}
use ceno_reth_benchmark.Headers.{Hashes}
use ceno_reth_benchmark.Client.Input.{Bytecode, WitnessAccess, ProviderError}
use ceno_reth_benchmark.Client.Reader.{Env, Item}
use ceno_reth_benchmark.Client.Database.{WitnessDb, find_hash, block_hash_ref}
use ceno_reth_benchmark.Trie.Frontier.{MptFrontier}
use ceno_reth_benchmark.Host.Write.{Sources, Written, write_accesses, write_access}
use ceno_reth_benchmark.Client.Replay.{
  Query, basic, storage, code, block_hash, Answer, account_is, value_is, code_is, answer, run,
  AccountsFirst,
}
use ceno_reth_benchmark.Client.Replay.Linked.{Opened, Step, eager_db}
use ceno_reth_benchmark.Client.Replay.Steps.{basic-Step}
use ceno_reth_benchmark.Client.Replay.Storage.{storage-Step, code-Step}

write_accesses-append :
    (src : Sources) (frontier : MptFrontier) (us vs : List WitnessAccess) {is js : List Item}
    → write_accesses src frontier us ≡ ok is
    → write_accesses src frontier vs ≡ ok js
    → write_accesses src frontier (us ++ vs) ≡ ok (is ++ js)
unfolding write_accesses
write_accesses-append src frontier [] vs p q = cc (p, q)
write_accesses-append src frontier (a ∷ us) vs {is} {js} p q =
    go (write_access src frontier a) (write_accesses src frontier us) refl p
      (λ rest e. write_accesses-append src frontier us vs e q)
  where
    go :
        (r s : Written)
        → write_accesses src frontier us ≡ s
        → (r >>= λ items. s >>= λ rest. ok (items ++ rest)) ≡ ok is
        → ((rest : List Item)
            → write_accesses src frontier us ≡ ok rest
            → write_accesses src frontier (us ++ vs) ≡ ok (rest ++ js))
        → (r >>= λ items. write_accesses src frontier (us ++ vs) >>= λ rest. ok (items ++ rest))
          ≡ ok (is ++ js)
    go (ok items) (ok rest) e h ih = rw (ih rest e) (rw (← append_assoc items rest js) (cc h))
    go (ok items) (err f) e h ih = cc
    go (ok items) panic e h ih = cc
    go (ok items) stuck e h ih = cc
    go (err f) s e h ih = cc
    go panic s e h ih = cc
    go stuck s e h ih = cc

module _ (env : Env) (state : EthereumState) (codes : Map Bytecode) (hashes : Hashes)
    (src : Sources) (frontier : MptFrontier) where
  Step-map :
      {A B : Type 0} (f : A → B) (known accounts tries : List Key) (order : List WitnessAccess)
      (call : WitnessDb → Result ProviderError (A × WitnessDb)) (r : A × WitnessDb)
      → Step env state codes hashes src frontier known accounts tries order call r
      → Step env state codes hashes src frontier known accounts tries order
          (λ db. call db >>= λ x. ok (f x.0, x.1))
          (f r.0, r.1)
  Step-map f known accounts tries order call r st = record {
    accounts' = st.accounts';
    tries' = st.tries';
    code_order' = st.code_order';
    w = st.w;
    db_eq = st.db_eq;
    known_ok = st.known_ok;
    streams = λ c.
        let t = st.streams c in
        (t.0, t.1, λ s rest l. let u = t.2 s rest l in (u.0, rw u.1 refl, u.2));
  }

  Step-then :
      (known accounts tries : List Key) (order : List WitnessAccess) (q : Query) (qs : List Query)
      (r : Answer × WitnessDb) (rs : List Answer × WitnessDb)
      (st : Step env state codes hashes src frontier known accounts tries order
        (λ db. answer env db q)
        r)
      → Step env state codes hashes src frontier [] st.accounts' st.tries'
          (order ++ st.w)
          (λ db. run env db qs)
          rs
      → Step env state codes hashes src frontier [] accounts tries order
          (λ db. run env db (q ∷ qs))
          (r.0 ∷ rs.0, rs.1)
  unfolding run
  Step-then known accounts tries order q qs r rs st ss = record {
    accounts' = ss.accounts';
    tries' = ss.tries';
    code_order' = ss.code_order';
    w = st.w ++ ss.w;
    db_eq = rw (← append_assoc order st.w ss.w) ss.db_eq;
    known_ok = ss.known_ok;
    streams = λ c.
        let t = st.streams (All-append_left _ st.w ss.w c) in
        let u = ss.streams (All-append_right _ st.w ss.w c) in
        (
          t.0 ++ u.0,
          write_accesses-append src frontier st.w ss.w t.1 u.1,
          λ s rest l.
              let x = t.2 s (u.0 ++ rest) l in
              let y = u.2 x.0 rest x.2 in
              (y.0, rw (append_assoc t.0 u.0 rest) (rw x.1 (rw y.1 refl)), y.2),
        );
  }

  then_run :
      (known accounts tries code_order : List Key) (order : List WitnessAccess) (q : Query)
      (qs : List Query)
      → Ensures
          (Step env state codes hashes src frontier known accounts tries order
            (λ db. answer env db q))
          (answer env (eager_db state codes hashes accounts tries code_order order) q)
      → ((us ts co : List Key) (o : List WitnessAccess)
          → ((k : Key) → contains known k ≡ true → contains us k ≡ true)
          → Ensures
              (Step env state codes hashes src frontier [] us ts o (λ db. run env db qs))
              (run env (eager_db state codes hashes us ts co o) qs))
      → Ensures
          (Step env state codes hashes src frontier [] accounts tries order
            (λ db. run env db (q ∷ qs)))
          (run env (eager_db state codes hashes accounts tries code_order order) (q ∷ qs))
  unfolding run
  then_run known accounts tries code_order order q qs first rest = Ensures-bind first λ r st.
      rw st.db_eq (
        Ensures-bind (rest st.accounts' st.tries' st.code_order' (order ++ st.w) st.known_ok)
          (λ rs ss. on_ok (Step-then known accounts tries order q qs r rs st ss)))

  -- The hashes of the blocks are the same table.
  hash-Step :
      (known accounts tries code_order : List Key) (order : List WitnessAccess) (number : ℕ)
      → ((k : Key) → contains known k ≡ true → contains accounts k ≡ true)
      → Ensures
          (Step env state codes hashes src frontier known accounts tries order
            (λ db. answer env db (block_hash number)))
          (answer env
            (eager_db state codes hashes accounts tries code_order order)
            (block_hash number))
  unfolding answer block_hash_ref write_accesses
  hash-Step known accounts tries code_order order number looked =
      Ensures-bind_eq (unwrap (find_hash env number hashes)) λ h q. on_ok (record {
        accounts' = accounts;
        tries' = tries;
        code_order' = code_order;
        w = [];
        db_eq = rw append-nil;
        known_ok = looked;
        streams = λ c. ([], refl, λ s rest l. (s, rw q refl, l));
      })

  module _ (opened : Opened env state codes src) where
    -- Each query in its turn; `known` are the accounts that were asked for.
    pub run-Step :
        (known accounts tries code_order : List Key) (order : List WitnessAccess) (qs : List Query)
        → ((k : Key) → contains known k ≡ true → contains accounts k ≡ true)
        → AccountsFirst env known qs
        → Ensures
            (Step env state codes hashes src frontier [] accounts tries order (λ db. run env db qs))
            (run env (eager_db state codes hashes accounts tries code_order order) qs)
    unfolding run answer write_accesses contains
    run-Step known accounts tries code_order order [] looked ready = on_ok (record {
      accounts' = accounts;
      tries' = tries;
      code_order' = code_order;
      w = [];
      db_eq = rw append-nil;
      known_ok = λ k h. cc;
      streams = λ c. ([], refl, λ s rest l. (s, refl, l));
    })
    run-Step known accounts tries code_order order (basic address ∷ qs) looked ready =
        then_run (env.codec.rlp.keccak256 address ∷ known) accounts tries code_order order
          (basic address) qs
          (Ensures-bind
            (basic-Step env state codes hashes src frontier opened known accounts tries code_order
              order address looked)
            (λ r st. on_ok (Step-map account_is _ accounts tries order _ r st)))
          (λ us ts co o known_ok.
            run-Step (env.codec.rlp.keccak256 address ∷ known) us ts co o qs known_ok ready)
    run-Step known accounts tries code_order order (storage address index ∷ qs) looked ready =
        then_run known accounts tries code_order order (storage address index) qs
          (Ensures-bind
            (storage-Step env state codes hashes src frontier opened known accounts tries code_order
              order address index looked (looked (env.codec.rlp.keccak256 address) ready.0))
            (λ r st. on_ok (Step-map value_is known accounts tries order _ r st)))
          (λ us ts co o known_ok. run-Step known us ts co o qs known_ok ready.1)
    run-Step known accounts tries code_order order (code hash ∷ qs) looked ready =
        then_run known accounts tries code_order order (code hash) qs
          (Ensures-bind
            (code-Step env state codes hashes src frontier opened known accounts tries code_order
              order hash looked)
            (λ r st. on_ok (Step-map code_is known accounts tries order _ r st)))
          (λ us ts co o known_ok. run-Step known us ts co o qs known_ok ready)
    run-Step known accounts tries code_order order (block_hash number ∷ qs) looked ready =
        then_run known accounts tries code_order order (block_hash number) qs
          (hash-Step known accounts tries code_order order number looked)
          (λ us ts co o known_ok. run-Step known us ts co o qs known_ok ready)
