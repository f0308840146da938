-- ===== src/Trie/Wire/Count.antt =====
-- `subtree_num_nodes` of crates/mpt/src/trie.rs on the tree that an arena holds.
use ceno_reth_benchmark.Base.{ℕ, zero, suc, ◌+◌, ◌≤◌, ◌≡◌, refl, subst, arith, length}
use ceno_reth_benchmark.Base.Result.{ok}
use ceno_reth_benchmark.Trie.{Mpt, NodeRef}
use ceno_reth_benchmark.Trie.Tree.{
  Tree, null, branch, leaf, extension, Kids, end, absent, child, id_of, slots, height, kids_height,
  Rep, KidsRep,
}
use ceno_reth_benchmark.Trie.Valid.{IsValid}
use ceno_reth_benchmark.Trie.Total.{height-length}
use ceno_reth_benchmark.Trie.Wire.Encode.{count_children, subtree_num_nodes}

abbrev mutual
  pub size : Tree → ℕ
  size (null i) = 1
  size (branch i ks) = 1 + kids_size ks
  size (leaf i p v) = 1
  size (extension i p t) = 1 + size t
  size (Tree.digest i d) = 1

  pub kids_size : Kids → ℕ
  kids_size end = 0
  kids_size (absent ks) = kids_size ks
  kids_size (child t ks) = size t + kids_size ks

module _ (ref : Tree → NodeRef) (m : Mpt) where
  mutual
    unfolding subtree_num_nodes count_children

    count_tree :
        (t : Tree) (fuel : ℕ)
        → height t ≤ fuel
        → Rep ref m t
        → subtree_num_nodes fuel m (id_of t) ≡ ok (size t)
    count_tree (null i) zero h r = absurd (omega arith)
    count_tree (null i) (suc f) h r = rw r.at refl
    count_tree (branch i ks) zero h r = absurd (omega arith)
    count_tree (branch i ks) (suc f) h r = rw r.0.at (rw (count_kids ks f (omega arith) r.1) refl)
    count_tree (leaf i p v) zero h r = absurd (omega arith)
    count_tree (leaf i p v) (suc f) h r = rw r.at refl
    count_tree (extension i p t) zero h r = absurd (omega arith)
    count_tree (extension i p t) (suc f) h r =
        rw r.0.at (rw (count_tree t f (omega arith) r.1) refl)
    count_tree (Tree.digest i d) zero h r = absurd (omega arith)
    count_tree (Tree.digest i d) (suc f) h r = rw r.at refl

    count_kids :
        (ks : Kids) (fuel : ℕ)
        → kids_height ks ≤ fuel
        → KidsRep ref m ks
        → count_children (λ id. subtree_num_nodes fuel m id) (slots ks) ≡ ok (kids_size ks)
    count_kids end f h r = refl
    count_kids (absent ks) f h r = count_kids ks f h r
    count_kids (child t ks) f h r =
        rw (count_tree t f (omega arith) r.0) (rw (count_kids ks f (omega arith) r.1) refl)

-- On a valid trie the count of the nodes below the root returns, and is the size of the tree.
pub subtree_num_nodes-size :
    (ref : Tree → NodeRef) (m : Mpt) (v : IsValid ref m)
    → subtree_num_nodes (length m.nodes) m m.root_id ≡ ok (size v.tree)
subtree_num_nodes-size ref m v =
    subst (λ i. subtree_num_nodes (length m.nodes) m i ≡ ok (size v.tree)) v.root
      (count_tree ref m v.tree (length m.nodes) (height-length ref m v.tree v.rep v.wf) v.rep)
