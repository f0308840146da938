-- ===== src/Trie/Frontier.antt =====
-- `replace_frontier_slot` and `subtree_hash` of crates/mpt/src/trie.rs: a subtree of the frontier,
-- which is a digest or an empty slot, is replaced by the new root of its chunk.
pub mod Build
pub mod Apart
pub mod Slot
mod Tests
use ceno_reth_benchmark.Base.{
  ℕ, zero, suc, not, Option, none, some, List, [], ◌∷◌, if◌then◌else◌, length, bytes_eq,
}
use ceno_reth_benchmark.Base.Result.{Result, ok, err, stuck, ◌>>=◌}
use ceno_reth_benchmark.Hp.{prefix_to_nibs}
use ceno_reth_benchmark.Hp.Compare.{strip_prefix}
use ceno_reth_benchmark.Trie.{
  Error, node_ref_mismatch, invalid_frontier_prefix, NodeData, null, branch, leaf, extension, Mpt,
  node, set_node, add_node, invalidate_ref_cache, child_at, put_child,
}
use ceno_reth_benchmark.Trie.Hash.{Rlp, Encoded, no_borrows, calc_reference, hash_of}

pub record FrontierChunk : Type 0 where
  pub prefix : List ℕ
  pub expected_root : List ℕ
  pub num_nodes : ℕ
  pub encoded : List ℕ

pub record MptFrontier : Type 0 where
  pub num_nodes : ℕ
  pub encoded : List ℕ
  pub chunks : List FrontierChunk

abbrev pub Replaced : Type 0
Replaced = Result Error Mpt

abbrev pub Replace : Type 0
Replace = Mpt → ℕ → List ℕ → Replaced

-- `B256::from_slice` panics unless there are 32 bytes; a short reference is hashed.
module _ (rlp : Rlp) where
  abbrev pub subtree_hash_node : Mpt → ℕ → NodeData → Encoded
  subtree_hash_node m node_id null = ok (rlp.empty_root_hash, m)
  subtree_hash_node m node_id _ =
      calc_reference rlp (length m.nodes) no_borrows m node_id >>= hash_of rlp

  unfoldable pub subtree_hash : Mpt → ℕ → Encoded
  subtree_hash m node_id = do d ← node m node_id; subtree_hash_node m node_id d

  -- What stands for a new root: nothing, or its digest.
  abbrev pub slot_data : List ℕ → NodeData
  slot_data new_root =
      if bytes_eq new_root rlp.empty_root_hash then null else NodeData.digest new_root

  unfoldable pub replace_here : List ℕ → List ℕ → Mpt → ℕ → Replaced
  unfolding subtree_hash
  replace_here expected_root new_root m node_id = do
    (actual, m1) ← subtree_hash m node_id
    if bytes_eq actual expected_root
        then invalidate_ref_cache (set_node m1 node_id (slot_data new_root)) node_id
        else err node_ref_mismatch

  -- An empty slot of a branch.
  unfoldable pub fill_slot : List ℕ → List ℕ → Mpt → ℕ → List (Option ℕ) → ℕ → Replaced
  fill_slot expected_root new_root m node_id children head =
      if not (bytes_eq expected_root rlp.empty_root_hash)
      then err node_ref_mismatch
      else if bytes_eq new_root rlp.empty_root_hash
      then ok m
      else do
        let (id, m1) = add_node m (NodeData.digest new_root) none
        children' ← put_child children head (some id)
        ok (set_node m1 node_id (branch children'))

  unfoldable pub replace_child :
      List ℕ → List ℕ → Replace → Mpt → ℕ → List (Option ℕ) → ℕ → List ℕ → Option ℕ → Replaced
  unfolding fill_slot
  replace_child expected_root new_root rec m node_id children head [] none =
      fill_slot expected_root new_root m node_id children head
  replace_child expected_root new_root rec m node_id children head (_ ∷ _) none =
      err invalid_frontier_prefix
  replace_child expected_root new_root rec m node_id children head tail (some child) =
      rec m child tail

  abbrev pub replace_stripped : Replace → Mpt → ℕ → Option (List ℕ) → Replaced
  replace_stripped rec m child none = err invalid_frontier_prefix
  replace_stripped rec m child (some tail) = rec m child tail

  abbrev pub replace_below : List ℕ → List ℕ → Replace → Mpt → ℕ → ℕ → List ℕ → NodeData → Replaced
  replace_below expected_root new_root rec m node_id head tail (branch children) = do
    c ← child_at children head
    m1 ← replace_child expected_root new_root rec m node_id children head tail c
    invalidate_ref_cache m1 node_id
  replace_below expected_root new_root rec m node_id head tail (extension path child) = do
    m1 ← replace_stripped rec m child (strip_prefix (prefix_to_nibs path) (head ∷ tail))
    invalidate_ref_cache m1 node_id
  replace_below expected_root new_root rec m node_id head tail null = err invalid_frontier_prefix
  replace_below expected_root new_root rec m node_id head tail (leaf path value) =
      err invalid_frontier_prefix
  replace_below expected_root new_root rec m node_id head tail (NodeData.digest d) =
      err invalid_frontier_prefix

  unfoldable pub replace_frontier_slot_internal : List ℕ → List ℕ → ℕ → Replace
  unfolding replace_here replace_child
  replace_frontier_slot_internal expected_root new_root zero m node_id prefix = stuck
  replace_frontier_slot_internal expected_root new_root (suc fuel) m node_id [] =
      replace_here expected_root new_root m node_id
  replace_frontier_slot_internal expected_root new_root (suc fuel) m node_id (head ∷ tail) = do
    d ← node m node_id
    replace_below expected_root new_root
        (λ m id tail. replace_frontier_slot_internal expected_root new_root fuel m id tail) m
        node_id head tail d

  unfoldable pub replace_frontier_slot : Mpt → List ℕ → List ℕ → List ℕ → Replaced
  unfolding replace_frontier_slot_internal
  replace_frontier_slot m prefix expected_root new_root =
      replace_frontier_slot_internal expected_root new_root (length m.nodes) m m.root_id prefix
