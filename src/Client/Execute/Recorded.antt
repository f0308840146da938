-- ===== src/Client/Execute/Recorded.antt =====
-- The order that an execution records only grows.
use ceno_reth_benchmark.Base.{
  ℕ, ◌≡◌, refl, ◌∙◌, not, Bool, true, false, Bool-cases, Option, none, some, List, [], ◌∷◌, ◌++◌,
  append-nil, append_assoc, bytes_eq, inl, inr, ◌==◌, ◌&&◌, length,
}
use ceno_reth_benchmark.Base.Result.{
  Ensures, on_ok, Ensures-bind, Ensures-mono, Ensures-any, Ensures-if,
}
use ceno_reth_benchmark.Base.Maps.{Key, is_some, find?, put}
use ceno_reth_benchmark.Trie.{Mpt}
use ceno_reth_benchmark.Trie.Hash.{hash}
use ceno_reth_benchmark.State.{BundleAccount}
use ceno_reth_benchmark.Headers.{mpt_error}
use ceno_reth_benchmark.Client.Input.{WitnessAccess}
use ceno_reth_benchmark.Client.Reader.{Env, map_err}
use ceno_reth_benchmark.Client.Database.{
  EagerState, WitnessDb, record_access, note_account, note_storage, record_first,
}
use ceno_reth_benchmark.Client.Execute.{Chain, note_unread, note_modified, note_bundle, looked_up}

module _ (env : Env) (chain : Chain) where
  -- What is recorded is appended.
  abbrev pub Appends : WitnessDb → WitnessDb → Type 0
  Appends db db' =
      (w : List WitnessAccess)
      → db.witness_order ≡ some w
      → (after : List WitnessAccess) × (db'.witness_order ≡ some (w ++ after))

  pub Appends-same : (db : WitnessDb) → Appends db db
  Appends-same db w h = ([], rw append-nil h)

  pub Appends-then : (db db1 db2 : WitnessDb) → Appends db db1 → Appends db1 db2 → Appends db db2
  Appends-then db db1 db2 p q w h =
      let s = p w h in
      let t = q (w ++ s.0) s.1 in (s.0 ++ t.0, t.1 ∙ rw (append_assoc w s.0 t.0) refl)

  pub record_access-Appends :
      (first : Bool) (a : WitnessAccess) (db : WitnessDb)
      → Appends db (record db { witness_order = record_access first a db.witness_order })
  unfolding record_access
  record_access-Appends true a db w h = (a ∷ [], rw h refl)
  record_access-Appends false a db w h = ([], rw append-nil h)

  note_account-Appends :
      (db : WitnessDb) (e : EagerState) (k : Key) → Appends db (note_account env db e k).1
  unfolding note_account
  note_account-Appends db e k =
      record_access-Appends (record_first e.account_lookup_order k).0 (WitnessAccess.account k) db

  note_storage-Appends :
      (db : WitnessDb) (e : EagerState) (k : Key) → Appends db (note_storage env db e k).1
  unfolding note_storage
  note_storage-Appends db e k =
      record_access-Appends (record_first e.storage_lookup_order k).0 (WitnessAccess.storage_trie k)
        db

  note_unread-Appends :
      (db : WitnessDb) (e : EagerState) (k : Key) (o : Option Mpt)
      → Ensures (λ r. Appends db r.1) (note_unread env chain db e k o)
  note_unread-Appends db e k none = on_ok (Appends-same db)
  note_unread-Appends db e k (some m) =
      Ensures-bind (Ensures-any (map_err mpt_error (hash env.codec.rlp m))) λ r _.
        elim (Bool-cases (bytes_eq r.0 env.codec.rlp.empty_root_hash)) [
          | inl h ↦ rw h (on_ok (Appends-same db))
          | inr h ↦
              let e1 : EagerState = record e {
                state = record e.state { storage_tries = put k r.1 e.state.storage_tries };
              } in
              let n = note_account env db e1 k in
              rw h (
                on_ok (
                  Appends-then db n.1 (note_storage env n.1 n.0 k).1 (note_account-Appends db e1 k)
                    (note_storage-Appends n.1 n.0 k)))
        ]

  note_modified-Appends :
      (db : WitnessDb) (e : EagerState) (a : List ℕ × BundleAccount)
      → Ensures (λ r. Appends db r.1) (note_modified env chain db e a)
  unfolding note_modified
  note_modified-Appends db e (address, a) =
      let k = env.codec.rlp.keccak256 address in
      let access = WitnessAccess.modified_account k (length a.storage) in
      let db1 = record db { witness_order = record_access true access db.witness_order } in
      Ensures-if
        (is_some a.info
          && not (length a.storage == 0)
          && not (looked_up env chain e.storage_lookup_order k))
        (λ _.
          Ensures-mono (note_unread-Appends db1 e k (find? k e.state.storage_tries))
            (λ r p. Appends-then db db1 r.1 (record_access-Appends true access db) p))
        (λ _. on_ok (record_access-Appends true access db))

  pub note_bundle-Appends :
      (db : WitnessDb) (e : EagerState) (bundle : List (List ℕ × BundleAccount))
      → Ensures (λ r. Appends db r.1) (note_bundle env chain db e bundle)
  unfolding note_bundle
  note_bundle-Appends db e [] = on_ok (Appends-same db)
  note_bundle-Appends db e (a ∷ bundle) = Ensures-bind (note_modified-Appends db e a) λ r p.
      Ensures-mono (note_bundle-Appends r.1 r.0 bundle) (λ r' q. Appends-then db r.1 r'.1 p q)
