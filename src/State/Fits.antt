-- ===== src/State/Fits.antt =====
-- Tries and states of crates/mpt/src/state.rs that are valid and have room for a number of writes.
use ceno_reth_benchmark.Base.{
  ℕ, ◌+◌, ◌*◌, ◌≤◌, ◌^◌, inl, inr, Bool, true, false, List, [], ◌∷◌, All, arith, length, bytes_eq,
  Bool-cases,
}
use ceno_reth_benchmark.Trie.{Mpt, new}
use ceno_reth_benchmark.Trie.Valid.{IsValid, new-IsValid}
use ceno_reth_benchmark.Trie.Hash.Spec.{tree_ref}
use ceno_reth_benchmark.State.{
  Codec, EthereumState, lookup, put_trie, remove_trie, or_new, storage_before,
}

-- A valid trie with room for `k` writes.
pub record Fits (c : Codec) (k : ℕ) (m : Mpt) : Type 0 where
  pub valid : IsValid (tree_ref c.rlp) m
  pub room : length m.nodes + 3 * k ≤ 2 ^ 32

pub record StateFits (c : Codec) (k : ℕ) (s : EthereumState) : Type 0 where
  pub state : Fits c k s.state_trie
  pub storage : All (λ e. Fits c k e.1) s.storage_tries

module _ (c : Codec) where
  pub Fits-mono : (j k : ℕ) (m : Mpt) → k ≤ j → Fits c j m → Fits c k m
  Fits-mono j k m le f = record { valid = f.valid; room = omega (arith, f.room) }

  abbrev pub AllFits : ℕ → List (List ℕ × Mpt) → Type 0
  AllFits k tries = All (λ e. Fits c k e.1) tries

  pub AllFits-mono :
      (j k : ℕ) (tries : List (List ℕ × Mpt)) → k ≤ j → AllFits j tries → AllFits k tries
  AllFits-mono j k [] le h = tt
  AllFits-mono j k (e ∷ tries) le (h, hs) = (Fits-mono j k e.1 le h, AllFits-mono j k tries le hs)

  pub AllFits-put :
      (k : ℕ) (tries : List (List ℕ × Mpt)) (key : List ℕ) (t : Mpt)
      → AllFits k tries
      → Fits c k t
      → AllFits k (put_trie tries key t)
  unfolding put_trie
  AllFits-put k [] key t h f = (f, tt)
  AllFits-put k ((q, m) ∷ tries) key t (h, hs) f = elim (Bool-cases (bytes_eq q key)) [
    | inl e ↦ rw e (f, hs)
    | inr e ↦ rw e (h, AllFits-put k tries key t hs f)
  ]

  pub AllFits-remove :
      (k : ℕ) (tries : List (List ℕ × Mpt)) (key : List ℕ)
      → AllFits k tries
      → AllFits k (remove_trie tries key)
  unfolding remove_trie
  AllFits-remove k [] key h = tt
  AllFits-remove k ((q, m) ∷ tries) key (h, hs) = elim (Bool-cases (bytes_eq q key)) [
    | inl e ↦ rw e hs
    | inr e ↦ rw e (h, AllFits-remove k tries key hs)
  ]

  new-Fits : (k : ℕ) → 1 + 3 * k ≤ 2 ^ 32 → Fits c k new
  unfolding new
  new-Fits k h = record { valid = new-IsValid (tree_ref c.rlp); room = h }

  lookup-Fits :
      (k : ℕ) (tries : List (List ℕ × Mpt)) (key : List ℕ)
      → 1 + 3 * k ≤ 2 ^ 32
      → AllFits k tries
      → Fits c k (or_new (lookup tries key))
  unfolding lookup
  lookup-Fits k [] key room h = new-Fits k room
  lookup-Fits k ((q, m) ∷ tries) key room (h, hs) = elim (Bool-cases (bytes_eq q key)) [
    | inl e ↦ rw e h
    | inr e ↦ rw e (lookup-Fits k tries key room hs)
  ]

  pub before-Fits :
      (k : ℕ) (s : EthereumState) (key : List ℕ) (was_destroyed : Bool)
      → 1 + 3 * k ≤ 2 ^ 32
      → StateFits c k s
      → Fits c k (storage_before c s key was_destroyed)
  before-Fits k s key true room f = new-Fits k room
  before-Fits k s key false room f = lookup-Fits k s.storage_tries key room f.storage

  pub StateFits-mono : (s : EthereumState) (j k : ℕ) → k ≤ j → StateFits c j s → StateFits c k s
  StateFits-mono s j k le f = record {
    state = Fits-mono j k s.state_trie le f.state;
    storage = AllFits-mono j k s.storage_tries le f.storage;
  }
