-- ===== src/State/Correct.antt =====
-- What the update of crates/mpt/src/state.rs does to the tries, for one account.
use ceno_reth_benchmark.Base.{
  ℕ, ◌+◌, ◌*◌, ◌≤◌, ◌^◌, ◌≡◌, refl, ap, sym, subst, ◌∙◌, ◌⊎◌, inl, inr, Bool, true, false, none,
  some, List, [], ◌∷◌, All, arith, ◌==◌, if◌then◌else◌, bytes_eq, bytes_eq→eq, bytes_eq_refl,
  Bool-cases, length,
}
use ceno_reth_benchmark.Base.Result.{
  Result, ok, err, panic, stuck, ◌>>=◌, Returns, returns, refuses, Returns-bind, Returns-mono,
}
use ceno_reth_benchmark.Hp.{IsByte}
use ceno_reth_benchmark.Trie.{Error, Mpt}
use ceno_reth_benchmark.Trie.Get.{get}
use ceno_reth_benchmark.Trie.Insert.{insert}
use ceno_reth_benchmark.Trie.Delete.{delete}
use ceno_reth_benchmark.Trie.Spec.Returns.{IsRefusal}
use ceno_reth_benchmark.Trie.Valid.{IsValid}
use ceno_reth_benchmark.Trie.Correct.{Wrote, insert-Wrote, delete-Wrote}
use ceno_reth_benchmark.Trie.Runs.{
  Op, insert_op, delete_op, HasByteKey, run, write_each, Ran, run-write_each,
}
use ceno_reth_benchmark.Trie.Hash.{hash}
use ceno_reth_benchmark.Trie.Hash.Spec.{Laws, tree_ref, root_hash}
use ceno_reth_benchmark.Trie.Hash.Root.{hash-Hashed}
use ceno_reth_benchmark.State.{
  Codec, AccountInfo, EthereumState, lookup, put_trie, remove_trie, update_slots, storage_before,
  update_info, store, remove_account, drop_tries, unwrap_result,
}

-- What the encodings are relied on for.
pub record CodecLaws (c : Codec) : Type 0 where
  pub rlp : Laws c.rlp
  pub keccak256_bytes : (s : List ℕ) → All IsByte (c.rlp.keccak256 s)

module _ (c : Codec) where
  abbrev pub slot_op : ℕ × ℕ → Op
  slot_op (slot, value) =
      if value == 0
      then delete_op (c.rlp.keccak256 (c.be_bytes slot))
      else insert_op (c.rlp.keccak256 (c.be_bytes slot)) (c.encode_value value)

  abbrev pub slot_ops : List (ℕ × ℕ) → List Op
  slot_ops [] = []
  slot_ops (e ∷ storage) = slot_op e ∷ slot_ops storage

  step_then :
      (r : Result Error (Bool × Mpt)) (k : Mpt → Result Error Mpt)
      → (r >>= λ q. k q.1) ≡ ((r >>= λ q. ok q.1) >>= k)
  step_then (ok q) k = refl
  step_then (err e) k = refl
  step_then panic k = refl
  step_then stuck k = refl

  update_slots-run :
      (m : Mpt) (storage : List (ℕ × ℕ)) → update_slots c m storage ≡ run m (slot_ops storage)
  unfolding update_slots
  update_slots-run m [] = refl
  update_slots-run m ((slot, value) ∷ storage) =
      let key = c.rlp.keccak256 (c.be_bytes slot) in
      let next : (m' : Mpt) → update_slots c m' storage ≡ run m' (slot_ops storage) =
        λ m'. update_slots-run m' storage in
      elim (Bool-cases (value == 0)) [
        | inl e ↦ rw e (
            then_next next (delete m key)
            ∙ step_then (delete m key) (λ m'. run m' (slot_ops storage)))
        | inr e ↦ rw e (
            then_next next (insert m key (c.encode_value value))
            ∙ step_then (insert m key (c.encode_value value)) (λ m'. run m' (slot_ops storage)))
      ]
    where
      then_next :
          {f g : Mpt → Result Error Mpt}
          → ((m' : Mpt) → f m' ≡ g m')
          → (r : Result Error (Bool × Mpt)) → (r >>= λ q. f q.1) ≡ (r >>= λ q. g q.1)
      then_next h (ok q) = h q.1
      then_next h (err e) = refl
      then_next h panic = refl
      then_next h stuck = refl

  slot_ops-HasByteKey : CodecLaws c → (storage : List (ℕ × ℕ)) → All HasByteKey (slot_ops storage)
  slot_ops-HasByteKey laws [] = tt
  slot_ops-HasByteKey laws ((slot, value) ∷ storage) =
      let b = laws.keccak256_bytes (c.be_bytes slot) in
      (
        elim (Bool-cases (value == 0)) [ inl e ↦ rw e b | inr e ↦ rw e b ],
        slot_ops-HasByteKey laws storage,
      )

  length-slot_ops : (storage : List (ℕ × ℕ)) → length (slot_ops storage) ≡ length storage
  length-slot_ops [] = refl
  length-slot_ops (e ∷ storage) = omega (arith, length-slot_ops storage)

-- The slots of an account are written to a valid trie with room for three nodes each as a run of the
-- operations: a zero deletes the key of its slot, any other value is set; it does not panic.
pub update_slots-Ran :
    (c : Codec) (m : Mpt) (storage : List (ℕ × ℕ)) (k : List ℕ)
    → CodecLaws c
    → IsValid (tree_ref c.rlp) m
    → length m.nodes + 3 * length storage ≤ 2 ^ 32
    → All IsByte k
    → Returns (Ran (tree_ref c.rlp) m (slot_ops c storage) k) IsRefusal (update_slots c m storage)
update_slots-Ran c m storage k laws v room kk = rw (update_slots-run c m storage) (
    run-write_each (tree_ref c.rlp) m (slot_ops c storage) k v
      (omega (arith, length-slot_ops c storage)) (slot_ops-HasByteKey c laws storage) kk)

clash : (k key : List ℕ) → k ≡ key → bytes_eq k key ≡ false → ⊥
clash k key q e = cc (bytes_eq_refl key, q, e)

pub lookup-put_trie :
    (tries : List (List ℕ × Mpt)) (key other : List ℕ) (t : Mpt)
    → lookup (put_trie tries key t) other
      ≡ (if bytes_eq key other then some t else lookup tries other)
unfolding lookup put_trie
lookup-put_trie [] key other t = refl
lookup-put_trie ((k, m) ∷ tries) key other t = elim (Bool-cases (bytes_eq k key)) [
  | inl e ↦ let q : k ≡ key = bytes_eq→eq k key e in rw (e, q) (go (bytes_eq key other))
  | inr e ↦ rw (e, lookup-put_trie tries key other t) (miss (Bool-cases (bytes_eq k other)) e)
]
  where
    go :
        (b : Bool)
        → (if b then some t else lookup tries other)
          ≡ (if b then some t else if b then some m else lookup tries other)
    go true = refl
    go false = refl

    miss :
        (bytes_eq k other ≡ true) ⊎ (bytes_eq k other ≡ false)
        → bytes_eq k key ≡ false
        → (if bytes_eq k other
            then some m
            else if bytes_eq key other
            then some t
            else lookup tries other)
          ≡ (if bytes_eq key other
              then some t
              else if bytes_eq k other
              then some m
              else lookup tries other)
    miss (inl h) e = elim (Bool-cases (bytes_eq key other)) [
      | inl g ↦ absurd (clash k key (bytes_eq→eq k other h ∙ sym (bytes_eq→eq key other g)) e)
      | inr g ↦ rw (h, g)
    ]
    miss (inr h) e = rw h

-- The state after an account was written, seen at a state key, at a slot's key and at another account.
pub record Updated (c : Codec) (s : EthereumState) (hashed_address : List ℕ) (info : AccountInfo)
    (was_destroyed : Bool) (storage : List (ℕ × ℕ)) (key slot_key other : List ℕ)
    (s' : EthereumState) : Type 0 where
  pub valid : IsValid (tree_ref c.rlp) s'.state_trie
  pub storage_trie : Mpt
  pub storage_valid : IsValid (tree_ref c.rlp) storage_trie
  pub stored : s'.storage_tries ≡ put_trie s.storage_tries hashed_address storage_trie
  pub few : length s'.state_trie.nodes ≤ length s.state_trie.nodes + 3
  pub storage_few :
      length storage_trie.nodes
      ≤ length (storage_before c s hashed_address was_destroyed).nodes + 3 * length storage
  pub tries :
      lookup s'.storage_tries other
      ≡ (if bytes_eq hashed_address other then some storage_trie else lookup s.storage_tries other)
  pub slots :
      get storage_trie slot_key
      ≡ write_each
          (get (storage_before c s hashed_address was_destroyed))
          (slot_ops c storage)
          slot_key
  pub account : get s'.state_trie key ≡ (
      if bytes_eq hashed_address key
      then ok (
          some (
            c.encode_account info.nonce info.balance
              (root_hash c.rlp storage_valid.tree)
              info.code_hash))
      else get s.state_trie key)

module _ (c : Codec) (laws : CodecLaws c) (s : EthereumState) (hashed_address : List ℕ)
    (info : AccountInfo) (was_destroyed : Bool) (storage : List (ℕ × ℕ))
    (key slot_key other : List ℕ) (v : IsValid (tree_ref c.rlp) s.state_trie)
    (room : length s.state_trie.nodes + 3 ≤ 2 ^ 32) (ab : All IsByte hashed_address)
    (kb : All IsByte key) where
  -- Once the slots are written.
  after_slots :
      (t1 : Mpt)
      → Ran
          (tree_ref c.rlp)
          (storage_before c s hashed_address was_destroyed)
          (slot_ops c storage)
          slot_key
          t1
      → Returns
          (Updated c s hashed_address info was_destroyed storage key slot_key other)
          IsRefusal
          (hash c.rlp t1 >>= λ h.
            insert s.state_trie hashed_address
              (c.encode_account info.nonce info.balance h.0 info.code_hash)
            >>= store s hashed_address h.1)
  after_slots t1 ran =
      let h = hash-Hashed c.rlp t1 laws.rlp ran.valid in
      let value =
        c.encode_account info.nonce info.balance (root_hash c.rlp ran.valid.tree) info.code_hash in
      rw h.eq (
        Returns-bind
          (insert-Wrote (tree_ref c.rlp) s.state_trie hashed_address value key v room ab kb)
          λ r w. returns (record {
            valid = w.valid;
            storage_trie = h.after;
            storage_valid = h.valid;
            stored = refl;
            few = w.few;
            storage_few = omega (arith, ap length h.nodes, ran.few, length-slot_ops c storage);
            tries = lookup-put_trie s.storage_tries hashed_address other h.after;
            slots = h.reads slot_key ∙ ran.reads;
            account =
                subst
                  (λ t. get r.1 key ≡ (
                    if bytes_eq hashed_address key
                    then ok (
                        some (
                          c.encode_account info.nonce info.balance (root_hash c.rlp t)
                            info.code_hash))
                    else get s.state_trie key))
                  (sym h.tree) w.reads;
          }))

-- An account that the block leaves in place, in a valid state with room: its slots are written to its
-- storage trie (a new one if the account was destroyed or had none), and its record, with the root
-- hash of that trie, to the state trie. Both stay valid, other accounts and their tries keep what they read, and the
-- only errors are those of the trie's writes: it does not panic.
pub update_info-Updated :
    (c : Codec) (s : EthereumState) (hashed_address : List ℕ) (info : AccountInfo)
    (was_destroyed : Bool) (storage : List (ℕ × ℕ)) (key slot_key other : List ℕ)
    → CodecLaws c
    → IsValid (tree_ref c.rlp) s.state_trie
    → length s.state_trie.nodes + 3 ≤ 2 ^ 32
    → IsValid (tree_ref c.rlp) (storage_before c s hashed_address was_destroyed)
    → length (storage_before c s hashed_address was_destroyed).nodes + 3 * length storage ≤ 2 ^ 32
    → All IsByte hashed_address
    → All IsByte key
    → All IsByte slot_key
    → Returns
        (Updated c s hashed_address info was_destroyed storage key slot_key other)
        IsRefusal
        (update_info c s hashed_address info was_destroyed storage)
unfolding update_info
update_info-Updated c s hashed_address info was_destroyed storage key slot_key other laws v room sv
      sroom ab kb sb =
    Returns-bind
      (update_slots-Ran c (storage_before c s hashed_address was_destroyed) storage slot_key laws sv
        sroom sb)
      λ t1 ran.
        after_slots c laws s hashed_address info was_destroyed storage key slot_key other v room ab
          kb t1 ran

-- The removal of an account either leaves a valid state trie in which it reads nothing, or panics on
-- an error of the deletion.
abbrev pub Removed :
    Codec
    → EthereumState
    → List ℕ
    → List ℕ
    → Result Error (Bool × Mpt)
    → Result Error EthereumState
    → Type 0
Removed c s hashed_address key deleted out =
    ((s' : EthereumState) × (out ≡ ok s')
      × IsValid (tree_ref c.rlp) s'.state_trie
      × (get s'.state_trie key
          ≡ (if bytes_eq hashed_address key then ok none else get s.state_trie key)))
    ⊎ ((e : Error) × (deleted ≡ err e) × IsRefusal e × (out ≡ panic))

Removed-by :
    (c : Codec) (s : EthereumState) (hashed_address key : List ℕ) {r : Result Error (Bool × Mpt)}
    → Returns (Wrote (tree_ref c.rlp) s.state_trie hashed_address (ok none) key) IsRefusal r
    → Removed c s hashed_address key r (unwrap_result r >>= drop_tries s hashed_address)
Removed-by c s hashed_address key (returns {a} w) = inl (
  record { state_trie = a.1; storage_tries = remove_trie s.storage_tries hashed_address },
  refl,
  w.valid,
  w.reads,
)
Removed-by c s hashed_address key (refuses {e} q) = inr (e, refl, q, refl)

-- The removal of an account from a valid state returns a state whose trie is valid, reads nothing at
-- the account's key and reads the same elsewhere; or the deletion fails at an unresolved node or at a key
-- that ends at a branch, and then it panics.
pub remove_account-Removed :
    (c : Codec) (s : EthereumState) (hashed_address key : List ℕ)
    → IsValid (tree_ref c.rlp) s.state_trie
    → All IsByte hashed_address
    → All IsByte key
    → Removed c s hashed_address key
        (delete s.state_trie hashed_address)
        (remove_account s hashed_address)
unfolding remove_account
remove_account-Removed c s hashed_address key v ab kb = Removed-by c s hashed_address key (
    Returns-mono (delete-Wrote (tree_ref c.rlp) s.state_trie hashed_address key v ab kb)
      (λ r w. w.0) (λ e q. q))
