-- ===== src/Trie/Frontier/Slot.antt =====
-- What `replace_frontier_slot` of crates/mpt/src/trie.rs finds at the prefix that it replaces.
use ceno_reth_benchmark.Base.{
  of_not-false, ℕ, zero, suc, ◌≡◌, refl, not, Option, none, some, List, [], ◌∷◌, length, bytes_eq,
  bytes_eq→eq,
}
use ceno_reth_benchmark.Base.Result.{
  ok, Ensures, on_err, on_stuck, Ensures-bind, Ensures-bind_eq, Ensures-any, Ensures-if,
  Ensures-mono,
}
use ceno_reth_benchmark.Hp.{prefix_to_nibs}
use ceno_reth_benchmark.Hp.Compare.{strip_prefix}
use ceno_reth_benchmark.Trie.{
  NodeData, null, branch, leaf, extension, Mpt, node, invalidate_ref_cache, child_at,
}
use ceno_reth_benchmark.Trie.Hash.{Rlp}
use ceno_reth_benchmark.Trie.Frontier.{
  Replace, subtree_hash, replace_here, fill_slot, replace_child, replace_stripped, replace_below,
  replace_frontier_slot_internal, replace_frontier_slot,
}

-- In `m`, the prefix leads from a node to a subtree with this root, or to an empty slot of a branch.
pub data HasRoot (rlp : Rlp) (m : Mpt) (root : List ℕ) : ℕ → List ℕ → Type 0 where
  ends_here : {id : ℕ} (m1 : Mpt) → subtree_hash rlp m id ≡ ok (root, m1) → HasRoot rlp m root id []
  empty_slot :
      {id head : ℕ} (children : List (Option ℕ))
      → node m id ≡ ok (branch children)
      → child_at children head ≡ ok none
      → root ≡ rlp.empty_root_hash
      → HasRoot rlp m root id (head ∷ [])
  in_branch :
      {id head : ℕ} {tail : List ℕ} (children : List (Option ℕ)) (child : ℕ)
      → node m id ≡ ok (branch children)
      → child_at children head ≡ ok (some child)
      → HasRoot rlp m root child tail
      → HasRoot rlp m root id (head ∷ tail)
  in_extension :
      {id head : ℕ} {tail : List ℕ} (path : List ℕ) (child : ℕ) (rest : List ℕ)
      → node m id ≡ ok (extension path child)
      → strip_prefix (prefix_to_nibs path) (head ∷ tail) ≡ some rest
      → HasRoot rlp m root child rest
      → HasRoot rlp m root id (head ∷ tail)

module _ (rlp : Rlp) (root new_root : List ℕ) where
  replace_here-HasRoot :
      (m : Mpt) (id : ℕ)
      → Ensures (λ _. HasRoot rlp m root id []) (replace_here rlp root new_root m id)
  unfolding replace_here
  replace_here-HasRoot m id = Ensures-bind_eq (subtree_hash rlp m id) λ r q.
      Ensures-if (bytes_eq r.0 root)
        (λ same.
          Ensures-mono (Ensures-any _) λ _ _. ends_here r.1 (rw (← bytes_eq→eq r.0 root same) q))
        (λ _. on_err)

  fill_slot-empty :
      (m : Mpt) (id : ℕ) (children : List (Option ℕ)) (head : ℕ)
      → Ensures (λ _. root ≡ rlp.empty_root_hash) (fill_slot rlp root new_root m id children head)
  unfolding fill_slot
  fill_slot-empty m id children head =
      Ensures-if (not (bytes_eq root rlp.empty_root_hash)) (λ _. on_err)
        λ same. Ensures-mono (Ensures-any _) λ _ _.
          bytes_eq→eq root rlp.empty_root_hash
            (of_not-false (bytes_eq root rlp.empty_root_hash) same)

  -- One level, given what the recursive call finds.
  module _ (rec : Replace) (m : Mpt)
      (found : (id : ℕ) (t : List ℕ) → Ensures (λ _. HasRoot rlp m root id t) (rec m id t))
      (id head : ℕ) where
    replace_child-HasRoot :
        (children : List (Option ℕ)) (c : Option ℕ) (t : List ℕ)
        → node m id ≡ ok (branch children)
        → child_at children head ≡ ok c
        → Ensures
            (λ _. HasRoot rlp m root id (head ∷ t))
            (replace_child rlp root new_root rec m id children head t c)
    unfolding replace_child
    replace_child-HasRoot children none [] q h =
        Ensures-mono (fill_slot-empty m id children head) (λ _ e. empty_slot children q h e)
    replace_child-HasRoot children none (_ ∷ _) q h = on_err
    replace_child-HasRoot children (some c) t q h =
        Ensures-mono (found c t) (λ _ r. in_branch children c q h r)

    replace_stripped-HasRoot :
        (path tail : List ℕ) (c : ℕ) (o : Option (List ℕ))
        → node m id ≡ ok (extension path c)
        → strip_prefix (prefix_to_nibs path) (head ∷ tail) ≡ o
        → Ensures (λ _. HasRoot rlp m root id (head ∷ tail)) (replace_stripped rlp rec m c o)
    replace_stripped-HasRoot path tail c none q h = on_err
    replace_stripped-HasRoot path tail c (some rest) q h =
        Ensures-mono (found c rest) (λ _ r. in_extension path c rest q h r)

    replace_below-HasRoot :
        (tail : List ℕ) (d : NodeData)
        → node m id ≡ ok d
        → Ensures
            (λ _. HasRoot rlp m root id (head ∷ tail))
            (replace_below rlp root new_root rec m id head tail d)
    replace_below-HasRoot tail (branch children) q = Ensures-bind_eq (child_at children head) λ c h.
        Ensures-bind (replace_child-HasRoot children c tail q h)
          (λ m1 r. Ensures-mono (Ensures-any (invalidate_ref_cache m1 id)) (λ _ _. r))
    replace_below-HasRoot tail (extension path c) q =
        Ensures-bind
          (replace_stripped-HasRoot path tail c (strip_prefix (prefix_to_nibs path) (head ∷ tail)) q
            refl)
          (λ m1 r. Ensures-mono (Ensures-any (invalidate_ref_cache m1 id)) (λ _ _. r))
    replace_below-HasRoot tail null q = on_err
    replace_below-HasRoot tail (leaf path value) q = on_err
    replace_below-HasRoot tail (NodeData.digest d) q = on_err

  replace_internal-HasRoot :
      (fuel : ℕ) (m : Mpt) (id : ℕ) (prefix : List ℕ)
      → Ensures
          (λ _. HasRoot rlp m root id prefix)
          (replace_frontier_slot_internal rlp root new_root fuel m id prefix)
  unfolding replace_frontier_slot_internal
  replace_internal-HasRoot zero m id prefix = on_stuck
  replace_internal-HasRoot (suc fuel) m id [] = replace_here-HasRoot m id
  replace_internal-HasRoot (suc fuel) m id (head ∷ tail) = Ensures-bind_eq (node m id) λ d q.
      replace_below-HasRoot
        (λ m id tail. replace_frontier_slot_internal rlp root new_root fuel m id tail) m
        (λ id t. replace_internal-HasRoot fuel m id t) id head tail d q

pub replace_frontier_slot-HasRoot :
    (rlp : Rlp) (m : Mpt) (prefix root new_root : List ℕ)
    → Ensures
        (λ _. HasRoot rlp m root m.root_id prefix)
        (replace_frontier_slot rlp m prefix root new_root)
unfolding replace_frontier_slot
replace_frontier_slot-HasRoot rlp m prefix root new_root =
    replace_internal-HasRoot rlp root new_root (length m.nodes) m m.root_id prefix
