-- ===== src/Client/Execute/Traced.antt =====
-- An execution over a database, as the list of its queries with their answers.
use ceno_reth_benchmark.Base.{◌≡◌, refl, true, List, [], ◌∷◌}
use ceno_reth_benchmark.Base.Result.{
  ok, Ensures, on_ok, on_err, Ensures-bind_eq, Ensures-mono, Ensures-ok,
}
use ceno_reth_benchmark.Base.Maps.{Key, contains}
use ceno_reth_benchmark.Headers.{block_execution_error}
use ceno_reth_benchmark.Client.Reader.{Env, map_err, map_err-ok}
use ceno_reth_benchmark.Client.Database.{WitnessDb}
use ceno_reth_benchmark.Client.Replay.{
  Query, basic, storage, code, block_hash, Answer, answer, run, AccountsFirst,
}
use ceno_reth_benchmark.Client.Execute.{Exec, done, fail, ask, Chain, interpret}

-- What was asked, what was answered, and the result.
pub data Traces {A : Type 0} : Exec A → List Query → List Answer → A → Type 0 where
  at_end : {a : A} → Traces (done a) [] [] a
  asked :
      {q : Query} {k : Answer → Exec A} {a : Answer} {qs : List Query} {as' : List Answer} {b : A}
      → Traces (k a) qs as' b
      → Traces (ask q k) (q ∷ qs) (a ∷ as') b

module _ (env : Env) where
  -- Whatever the answers are, the account of an address is asked for before its slots.
  abbrev pub AsksFirst : {A : Type 0} → List Key → Exec A → Type 0
  AsksFirst known (done a) = Unit {0}
  AsksFirst known (fail e) = Unit {0}
  AsksFirst known (ask (basic address) k) =
      (a : Answer) → AsksFirst (env.codec.rlp.keccak256 address ∷ known) (k a)
  AsksFirst known (ask (storage address index) k) =
      (contains known (env.codec.rlp.keccak256 address) ≡ true)
      × ((a : Answer) → AsksFirst known (k a))
  AsksFirst known (ask (code hash) k) = (a : Answer) → AsksFirst known (k a)
  AsksFirst known (ask (block_hash number) k) = (a : Answer) → AsksFirst known (k a)

  pub AccountsFirst-Traces :
      {A : Type 0} {e : Exec A} {qs : List Query} {as' : List Answer} {b : A} (known : List Key)
      → AsksFirst known e
      → Traces e qs as' b
      → AccountsFirst env known qs
  AccountsFirst-Traces known first at_end = tt
  AccountsFirst-Traces known first (asked {q = basic address} {a = a} t) =
      AccountsFirst-Traces (env.codec.rlp.keccak256 address ∷ known) (first a) t
  AccountsFirst-Traces known first (asked {q = storage address index} {a = a} t) =
      (first.0, AccountsFirst-Traces known (first.1 a) t)
  AccountsFirst-Traces known first (asked {q = code hash} {a = a} t) =
      AccountsFirst-Traces known (first a) t
  AccountsFirst-Traces known first (asked {q = block_hash number} {a = a} t) =
      AccountsFirst-Traces known (first a) t

  -- An execution that ended, as a run.
  abbrev pub Traced : {A : Type 0} → WitnessDb → Exec A → A × WitnessDb → Type 0
  Traced db e r =
      (qs : List Query) × (as' : List Answer) × Traces e qs as' r.0
      × (run env db qs ≡ ok (as', r.1))

  run-next :
      (db : WitnessDb) (q : Query) (qs : List Query) (a : Answer) (db1 db2 : WitnessDb)
      (as' : List Answer)
      → answer env db q ≡ ok (a, db1)
      → run env db1 qs ≡ ok (as', db2)
      → run env db (q ∷ qs) ≡ ok (a ∷ as', db2)
  unfolding run
  run-next db q qs a db1 db2 as' h t = rw h (rw t refl)

  abbrev Split : WitnessDb → Query → List Query → List Answer × WitnessDb → Type 0
  Split db q qs res =
      (r : Answer × WitnessDb) × (answer env db q ≡ ok r)
      × ((r' : List Answer × WitnessDb) × (run env r.1 qs ≡ ok r') × (res ≡ (r.0 ∷ r'.0, r'.1)))

  run-Split :
      (db : WitnessDb) (q : Query) (qs : List Query) → Ensures (Split db q qs) (run env db (q ∷ qs))
  unfolding run
  run-Split db q qs =
      Ensures-bind_eq (answer env db q)
        λ r e. Ensures-bind_eq (run env r.1 qs) λ r' e'. on_ok (r, e, (r', e', refl))

  module _ (chain : Chain) where
    pub interpret-Traced :
        {A : Type 0} (db : WitnessDb) (e : Exec A)
        → Ensures (Traced db e) (interpret env chain db e)
    unfolding interpret run
    interpret-Traced db (done a) = on_ok ([], [], at_end, refl)
    interpret-Traced db (fail e) = on_err
    interpret-Traced db (ask q k) =
        Ensures-bind_eq
          (map_err (λ e. block_execution_error (chain.database_error e)) (answer env db q))
          λ r h. Ensures-mono (interpret-Traced r.1 (k r.0)) (λ r' t. (
            q ∷ t.0,
            r.0 ∷ t.1,
            asked t.2,
            run-next db q t.0 r.0 r.1 r'.1 t.1
                (map_err-ok (λ e. block_execution_error (chain.database_error e)) (answer env db q)
                  h)
                t.3,
          ))

    -- The answers decide the result.
    pub interpret-run :
        {A : Type 0} {e : Exec A} {qs : List Query} {as' : List Answer} {b : A} (db db' : WitnessDb)
        → Traces e qs as' b
        → run env db qs ≡ ok (as', db')
        → interpret env chain db e ≡ ok (b, db')
    unfolding interpret run
    interpret-run db db' at_end h = cc h
    interpret-run db db' (asked {q = q} {k = k} {a = a} {qs = qs} {as' = as'} t) h =
        let (r, e, (r', e', same)) = Ensures-ok (run-Split db q qs) h in
        let first : answer env db q ≡ ok (a, r.1) = cc (e, same) in
        rw first (interpret-run r.1 db' t (cc (e', same)))
