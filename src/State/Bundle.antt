-- ===== src/State/Bundle.antt =====
-- `update_from_bundle_state` of crates/mpt/src/state.rs over all accounts of a block.
use ceno_reth_benchmark.Base.{
  ℕ, ◌+◌, ◌*◌, ◌≤◌, ◌^◌, ◌≡◌, refl, sym, subst, if◌then◌else◌, Bool, Option, none, some, List, [],
  ◌∷◌, All, arith, length, bytes_eq,
}
use ceno_reth_benchmark.Base.Result.{
  Result, ok, err, panic, ◌>>=◌, Returns, returns, refuses, Returns-mono,
}
use ceno_reth_benchmark.Hp.{IsByte}
use ceno_reth_benchmark.Trie.{Error, Mpt}
use ceno_reth_benchmark.Trie.Get.{get}
use ceno_reth_benchmark.Trie.Delete.{delete}
use ceno_reth_benchmark.Trie.Spec.Returns.{IsRefusal}
use ceno_reth_benchmark.Trie.Correct.{Wrote, delete-Wrote}
use ceno_reth_benchmark.Trie.Hash.Spec.{tree_ref}
use ceno_reth_benchmark.State.{
  Codec, AccountInfo, BundleAccount, EthereumState, remove_trie, update_info, remove_account,
  drop_tries, unwrap_result, update_with, update_account, update_from_bundle_state,
}
use ceno_reth_benchmark.State.Correct.{CodecLaws, Updated, update_info-Updated}
use ceno_reth_benchmark.State.Fits.{
  StateFits, AllFits-mono, AllFits-put, AllFits-remove, before-Fits, StateFits-mono, AllFits,
}

-- The writes of an account, and of all.
abbrev pub weight : BundleAccount → ℕ
weight account = 1 + length account.storage

abbrev pub total_weight : List (List ℕ × BundleAccount) → ℕ
total_weight [] = 0
total_weight (e ∷ bundle) = weight e.1 + total_weight bundle

-- The state after an account was written, seen at every state key, every slot's key and every account.
abbrev pub Written :
    Codec → EthereumState → List ℕ → BundleAccount → AccountInfo → EthereumState → Type 0
Written c s hashed_address account info s1 =
    (key slot_key other : List ℕ)
    → All IsByte key
    → All IsByte slot_key
    → Updated c s hashed_address info account.was_destroyed account.storage key slot_key other s1

-- The state after an account was removed.
abbrev pub Without : EthereumState → List ℕ → EthereumState → Type 0
Without s hashed_address s1 =
    ((key : List ℕ)
      → All IsByte key
      → get s1.state_trie key
        ≡ (if bytes_eq hashed_address key then ok none else get s.state_trie key))
    × (s1.storage_tries ≡ remove_trie s.storage_tries hashed_address)

-- The update of a state by the accounts of a block, and how it ends: in a valid state after all of
-- them, at the error of a write, or in a panic at an account whose deletion fails.
pub data Follows (c : Codec)
    : EthereumState → List (List ℕ × BundleAccount) → Result Error EthereumState → Type 0 where
  all_done : {s : EthereumState} → StateFits c 0 s → Follows c s [] (ok s)
  wrote :
      {s s1 : EthereumState} {address : List ℕ} {account : BundleAccount}
      {bundle : List (List ℕ × BundleAccount)} {out : Result Error EthereumState}
      (info : AccountInfo)
      → account.info ≡ some info
      → Written c s (c.rlp.keccak256 address) account info s1
      → Follows c s1 bundle out
      → Follows c s ((address, account) ∷ bundle) out
  refused :
      {s : EthereumState} {address : List ℕ} {account : BundleAccount}
      {bundle : List (List ℕ × BundleAccount)} {e : Error} (info : AccountInfo)
      → account.info ≡ some info
      → IsRefusal e
      → update_info c s (c.rlp.keccak256 address) info account.was_destroyed account.storage ≡ err e
      → Follows c s ((address, account) ∷ bundle) (err e)
  removed :
      {s s1 : EthereumState} {address : List ℕ} {account : BundleAccount}
      {bundle : List (List ℕ × BundleAccount)} {out : Result Error EthereumState}
      → account.info ≡ none
      → Without s (c.rlp.keccak256 address) s1
      → Follows c s1 bundle out
      → Follows c s ((address, account) ∷ bundle) out
  not_removed :
      {s : EthereumState} {address : List ℕ} {account : BundleAccount}
      {bundle : List (List ℕ × BundleAccount)} {e : Error}
      → account.info ≡ none
      → IsRefusal e
      → delete s.state_trie (c.rlp.keccak256 address) ≡ err e
      → Follows c s ((address, account) ∷ bundle) panic

-- With the equation of the outcome.
Returns-eq :
    {A : Type 0} {P : A → Type 0} {Q : Error → Type 0} {r : Result Error A}
    → Returns P Q r
    → Returns (λ a. P a × (r ≡ ok a)) (λ e. Q e × (r ≡ err e)) r
Returns-eq (returns p) = returns (p, refl)
Returns-eq (refuses q) = refuses (q, refl)

Returns-ok :
    {A : Type 0} {P : A → Type 0} {Q : Error → Type 0} {r : Result Error A} {a : A}
    → Returns P Q r
    → r ≡ ok a
    → P a
Returns-ok {P} (returns p) e = subst P (cc) p
Returns-ok (refuses q) e = cc

module _ (c : Codec) where
  module _ (laws : CodecLaws c) (s : EthereumState) (address : List ℕ) (account : BundleAccount)
      (bundle : List (List ℕ × BundleAccount)) (k : ℕ)
      (next : EthereumState → Result Error EthereumState)
      (follows : (s1 : EthereumState) → StateFits c k s1 → Follows c s1 bundle (next s1)) where
    abbrev hashed : List ℕ
    hashed = c.rlp.keccak256 address

    info-Written :
        (info : AccountInfo)
        → StateFits c (weight account + k) s
        → 1 + 3 * (weight account + k) ≤ 2 ^ 32
        → Returns
            (λ s1. StateFits c k s1 × Written c s hashed account info s1)
            (λ e.
              IsRefusal e
              × (update_info c s hashed info account.was_destroyed account.storage ≡ err e))
            (update_info c s hashed info account.was_destroyed account.storage)
    info-Written info f room =
        let b = before-Fits c (weight account + k) s hashed account.was_destroyed room f in
        let seen : (key slot_key other : List ℕ)
            → All IsByte key
            → All IsByte slot_key
            → Returns
                (Updated c s hashed info account.was_destroyed account.storage key slot_key other)
                IsRefusal (update_info c s hashed info account.was_destroyed account.storage) =
          λ key slot_key other kb sb.
            update_info-Updated c s hashed info account.was_destroyed account.storage key slot_key
              other laws f.state.valid (omega (arith, f.state.room)) b.valid (omega (arith, b.room))
              (laws.keccak256_bytes address) kb sb in
        Returns-mono (Returns-eq (seen [] [] [] tt tt))
          (λ s1 (u, e). (
            record {
              state = record { valid = u.valid; room = omega (arith, u.few, f.state.room) };
              storage = subst (AllFits c k) (sym u.stored) (
                  AllFits-put c k s.storage_tries hashed u.storage_trie
                    (AllFits-mono c (weight account + k) k s.storage_tries (omega arith) f.storage)
                    (record {
                      valid = u.storage_valid;
                      room = omega (arith, u.storage_few, b.room);
                    }));
            },
            λ key slot_key other kb sb. Returns-ok (seen key slot_key other kb sb) e,
          ))
          (λ e h. h)

    wrote_then :
        (info : AccountInfo) {r : Result Error EthereumState}
        → account.info ≡ some info
        → Returns
            (λ s1. StateFits c k s1 × Written c s hashed account info s1)
            (λ e.
              IsRefusal e
              × (update_info c s hashed info account.was_destroyed account.storage ≡ err e))
            r
        → Follows c s ((address, account) ∷ bundle) (r >>= next)
    wrote_then info i (returns (f, w)) = wrote info i w (follows _ f)
    wrote_then info i (refuses (q, e)) = refused info i q e

    -- At a deletion that was done or has failed.
    removed_then :
        {r : Result Error (Bool × Mpt)}
        → account.info ≡ none
        → StateFits c (1 + k) s
        → Returns (Wrote (tree_ref c.rlp) s.state_trie hashed (ok none) []) IsRefusal r
        → r ≡ delete s.state_trie hashed
        → Follows c s
            ((address, account) ∷ bundle)
            ((unwrap_result r >>= drop_tries s hashed) >>= next)
    removed_then i f (returns w) e =
        removed i
          (
            λ key kb.
                (Returns-ok
                  (delete-Wrote (tree_ref c.rlp) s.state_trie hashed key f.state.valid
                    (laws.keccak256_bytes address) kb)
                  (sym e)).0.reads,
            refl,
          )
          (follows _ (record {
            state = record { valid = w.valid; room = omega (arith, w.few, f.state.room) };
            storage =
                AllFits-remove c k s.storage_tries hashed
                  (AllFits-mono c (1 + k) k s.storage_tries (omega arith) f.storage);
          }))
    removed_then i f (refuses q) e = not_removed i q (sym e)

    update_with-Follows :
        (o : Option AccountInfo)
        → account.info ≡ o
        → StateFits c (weight account + k) s
        → 1 + 3 * (weight account + k) ≤ 2 ^ 32
        → Follows c s ((address, account) ∷ bundle) (update_with c s hashed account o >>= next)
    unfolding remove_account
    update_with-Follows (some info) i f room = wrote_then info i (info-Written info f room)
    update_with-Follows none i f room =
        removed_then i (StateFits-mono c s (weight account + k) (1 + k) (omega arith) f)
          (Returns-mono
            (delete-Wrote (tree_ref c.rlp) s.state_trie hashed [] f.state.valid
              (laws.keccak256_bytes address) tt)
            (λ r w. w.0) (λ e q. q))
          refl

-- The update by the accounts of a block, on a state whose tries are valid and have room for three
-- nodes per write, goes through the accounts in order. An account that stays is written: the state
-- trie reads its record, with the root hash of its storage trie, at its hashed address and the same
-- elsewhere, its storage trie reads as after the writes of its slots, and other accounts keep
-- theirs. An account that goes is read no more in the state trie, which is the same elsewhere, and its storage
-- trie is removed. The update ends after the last account, with a state whose tries are valid, or with
-- the error of a write, which is an unresolved node or a key that ends at a branch; it panics only at an
-- account that goes and whose deletion fails with such an error.
pub update_from_bundle_state-Follows :
    (c : Codec) (s : EthereumState) (bundle : List (List ℕ × BundleAccount))
    → CodecLaws c
    → StateFits c (total_weight bundle) s
    → 1 + 3 * total_weight bundle ≤ 2 ^ 32
    → Follows c s bundle (update_from_bundle_state c s bundle)
unfolding update_from_bundle_state update_account
update_from_bundle_state-Follows c s [] laws f room = all_done f
update_from_bundle_state-Follows c s ((address, account) ∷ bundle) laws f room =
    update_with-Follows c laws s address account bundle (total_weight bundle)
      (λ s1. update_from_bundle_state c s1 bundle)
      (λ s1 g. update_from_bundle_state-Follows c s1 bundle laws g (omega arith)) account.info refl
      f room
