-- ===== src/State.antt =====
-- crates/mpt/src/state.rs: the state trie with the storage tries, and how the changes of a block are
-- written to them. A `HashMap` is an association list, and its iteration order is that of the list
-- that the caller gives; the bump arena is left out. An error ends the update, and the caller drops
-- the state.
pub mod Correct
pub mod Fits
pub mod Bundle
mod Tests
use ceno_reth_benchmark.Base.{
  ℕ, Bool, true, false, Option, none, some, List, [], ◌∷◌, ◌==◌, if◌then◌else◌, bytes_eq,
}
use ceno_reth_benchmark.Base.Result.{Result, ok, err, panic, stuck, ◌>>=◌}
use ceno_reth_benchmark.Trie.{Error, Mpt, new}
use ceno_reth_benchmark.Trie.Insert.{insert}
use ceno_reth_benchmark.Trie.Delete.{delete}
use ceno_reth_benchmark.Trie.Hash.{Rlp, hash}

-- The encodings of the libraries: `to_be_bytes`, the RLP of a value, and of a `TrieAccount`.
pub record Codec : Type 0 where
  pub rlp : Rlp
  pub be_bytes : ℕ → List ℕ
  pub encode_value : ℕ → List ℕ
  pub encode_account : (nonce balance : ℕ) → (storage_root code_hash : List ℕ) → List ℕ

pub record AccountInfo : Type 0 where
  pub nonce : ℕ
  pub balance : ℕ
  pub code_hash : List ℕ

-- Of a slot, the present value.
pub record BundleAccount : Type 0 where
  pub info : Option AccountInfo
  pub was_destroyed : Bool
  pub storage : List (ℕ × ℕ)

pub record EthereumState : Type 0 where
  pub state_trie : Mpt
  pub storage_tries : List (List ℕ × Mpt)

unfoldable pub lookup : List (List ℕ × Mpt) → List ℕ → Option Mpt
lookup [] key = none
lookup ((k, m) ∷ tries) key = if bytes_eq k key then some m else lookup tries key

unfoldable pub put_trie : List (List ℕ × Mpt) → List ℕ → Mpt → List (List ℕ × Mpt)
put_trie [] key t = (key, t) ∷ []
put_trie ((k, m) ∷ tries) key t =
    if bytes_eq k key then (k, t) ∷ tries else (k, m) ∷ put_trie tries key t

unfoldable pub remove_trie : List (List ℕ × Mpt) → List ℕ → List (List ℕ × Mpt)
remove_trie [] key = []
remove_trie ((k, m) ∷ tries) key = if bytes_eq k key then tries else (k, m) ∷ remove_trie tries key

unfoldable pub new_state : EthereumState
unfolding new
new_state = record { state_trie = new; storage_tries = [] }

abbrev pub or_new : Option Mpt → Mpt
or_new none = new
or_new (some m) = m

-- The state with the new storage trie in its place.
abbrev pub store : EthereumState → List ℕ → Mpt → Bool × Mpt → Result Error EthereumState
store s hashed_address t r =
    ok (record { state_trie = r.1; storage_tries = put_trie s.storage_tries hashed_address t })

abbrev pub drop_tries : EthereumState → List ℕ → Bool × Mpt → Result Error EthereumState
drop_tries s hashed_address r =
    ok (record { state_trie = r.1; storage_tries = remove_trie s.storage_tries hashed_address })

-- `unwrap` on a result.
abbrev pub unwrap_result : Result Error (Bool × Mpt) → Result Error (Bool × Mpt)
unwrap_result (ok r) = ok r
unwrap_result (err e) = panic
unwrap_result panic = panic
unwrap_result stuck = stuck

unfoldable pub remove_account : EthereumState → List ℕ → Result Error EthereumState
remove_account s hashed_address = do
  r ← unwrap_result (delete s.state_trie hashed_address)
  drop_tries s hashed_address r

module _ (c : Codec) where
  unfoldable pub update_slots : Mpt → List (ℕ × ℕ) → Result Error Mpt
  update_slots m [] = ok m
  update_slots m ((slot, value) ∷ storage) = do
    let hashed_slot = c.rlp.keccak256 (c.be_bytes slot)
    r ← if value == 0 then delete m hashed_slot else insert m hashed_slot (c.encode_value value)
    update_slots r.1 storage

  -- The storage trie that the slots are written to.
  abbrev pub storage_before : EthereumState → List ℕ → Bool → Mpt
  storage_before s hashed_address was_destroyed =
      if was_destroyed then new else or_new (lookup s.storage_tries hashed_address)

  unfoldable pub update_info :
      EthereumState → List ℕ → AccountInfo → Bool → List (ℕ × ℕ) → Result Error EthereumState
  unfolding update_slots
  update_info s hashed_address info was_destroyed storage = do
    t1 ← update_slots (storage_before s hashed_address was_destroyed) storage
    (storage_root, t2) ← hash c.rlp t1
    r ←
        insert s.state_trie hashed_address
          (c.encode_account info.nonce info.balance storage_root info.code_hash)
    store s hashed_address t2 r

  abbrev pub update_with :
      EthereumState → List ℕ → BundleAccount → Option AccountInfo → Result Error EthereumState
  update_with s hashed_address account (some info) =
      update_info s hashed_address info account.was_destroyed account.storage
  update_with s hashed_address account none = remove_account s hashed_address

  unfoldable pub update_account :
      EthereumState → List ℕ → BundleAccount → Result Error EthereumState
  update_account s address account = update_with s (c.rlp.keccak256 address) account account.info

  unfoldable pub update_from_bundle_state :
      EthereumState → List (List ℕ × BundleAccount) → Result Error EthereumState
  unfolding update_account
  update_from_bundle_state s [] = ok s
  update_from_bundle_state s ((address, account) ∷ bundle) = do
    s' ← update_account s address account
    update_from_bundle_state s' bundle
