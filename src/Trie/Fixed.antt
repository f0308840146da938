-- ===== src/Trie/Fixed.antt =====
-- The tries of the state and of the storage, whose keys are hashes of one length: insert and delete
-- of crates/mpt/src/trie.rs never fail with ValueInBranch there.
use ceno_reth_benchmark.Base.{ℕ, ◌*◌, ◌≡◌, sym, subst, ◌∙◌, Bool, List, All, length}
use ceno_reth_benchmark.Base.Result.{Returns, Returns-Sim, Returns-both, Returns-mono, Ensures-both}
use ceno_reth_benchmark.Hp.{IsByte, to_nibs}
use ceno_reth_benchmark.Hp.Compare.{length-to_nibs}
use ceno_reth_benchmark.Trie.{Mpt, NodeRef}
use ceno_reth_benchmark.Trie.Insert.{insert}
use ceno_reth_benchmark.Trie.Delete.{delete}
use ceno_reth_benchmark.Trie.Tree.{Tree, id_of, Wf}
use ceno_reth_benchmark.Trie.Spec.Canon.{RootCanon, tree_insert-RootCanon}
use ceno_reth_benchmark.Trie.Spec.DeleteCanon.{tree_delete-Returns}
use ceno_reth_benchmark.Trie.Spec.DeleteWf.{tree_delete-Keeps}
use ceno_reth_benchmark.Trie.Spec.Depth.{IsDeep, tree_insert-IsDeep}
use ceno_reth_benchmark.Trie.Spec.DepthDelete.{tree_delete-IsDeep}
use ceno_reth_benchmark.Trie.Spec.NotCut.{tree_delete-NotCut, not_cut}
use ceno_reth_benchmark.Trie.Spec.InsertWf.{tree_insert-Grows}
use ceno_reth_benchmark.Trie.Spec.Paths.{to_nibs-IsNib}
use ceno_reth_benchmark.Trie.Spec.Returns.{IsUnresolved}
use ceno_reth_benchmark.Trie.Arena.{HasRoom, mem-lt}
use ceno_reth_benchmark.Trie.Refine.Post.{Follows}
use ceno_reth_benchmark.Trie.Valid.{IsValid}
use ceno_reth_benchmark.Trie.Correct.{insert-Follows, delete-Follows}

-- A valid trie whose keys have `n` bytes.
pub record IsFixed (ref : Tree → NodeRef) (n : ℕ) (m : Mpt) : Type 0 where
  pub valid : IsValid ref m
  pub deep : IsDeep (2 * n) valid.tree

-- The tree after a write.
record After (n : ℕ) (t : Tree) (s : Bool × Tree) : Type 0 where
  id : id_of s.1 ≡ id_of t
  wf : Wf s.1
  canon : RootCanon s.1
  deep : IsDeep (2 * n) s.1

After-IsFixed :
    (ref : Tree → NodeRef) (n : ℕ) (m : Mpt) (v : IsValid ref m) (r : Bool × Mpt) (s : Bool × Tree)
    → Follows ref m v.tree r s
    → After n v.tree s
    → IsFixed ref n r.1
After-IsFixed ref n m v r s f a = record {
  valid = record {
    tree = s.1;
    root = a.id ∙ v.root ∙ sym f.spares.root;
    rep = f.rep;
    wf = a.wf;
    sized = f.spares.sized;
    canon = a.canon;
  };
  deep = a.deep;
}

-- A key of the trie's length, inserted into a trie with room for three more nodes, is inserted unless the
-- insertion reaches an unresolved node: it is never refused as the end or the extension of another key. The
-- trie stays valid, with keys of that length.
pub insert-IsFixed :
    (ref : Tree → NodeRef) (m : Mpt) (key value : List ℕ)
    → IsFixed ref (length key) m
    → HasRoom m
    → All IsByte key
    → Returns (λ r. IsFixed ref (length key) r.1) IsUnresolved (insert m key value)
insert-IsFixed ref m key value x room kb =
    let v = x.valid in
    let nk = to_nibs-IsNib key kb in
    let n = length m.nodes in
    let twice = length-to_nibs key in
    let after =
      Returns-both
        (tree_insert-IsDeep v.tree (to_nibs key) value n v.wf nk
          (subst (λ k. IsDeep k v.tree) (sym twice) x.deep))
        (Ensures-both
          (tree_insert-Grows v.tree (to_nibs key) value n (λ j h. mem-lt ref m v.tree j v.rep h)
            v.wf nk)
          (tree_insert-RootCanon v.tree (to_nibs key) value n v.wf nk v.canon)) in
    Returns-mono (Returns-Sim (insert-Follows ref m v room key value kb) after)
      (λ r q. After-IsFixed ref (length key) m v r q.0 q.1 (record {
        id = q.2.1.0.id;
        wf = q.2.1.0.wf;
        canon = q.2.1.1;
        deep = subst (λ k. IsDeep k q.0.1) twice q.2.0;
      }))
      (λ e q. q)

-- A key of the trie's length is deleted, or found missing, unless the deletion reaches an unresolved node;
-- the trie stays valid, with keys of that length.
pub delete-IsFixed :
    (ref : Tree → NodeRef) (m : Mpt) (key : List ℕ)
    → IsFixed ref (length key) m
    → All IsByte key
    → Returns (λ r. IsFixed ref (length key) r.1) IsUnresolved (delete m key)
delete-IsFixed ref m key x kb =
    let v = x.valid in
    let nk = to_nibs-IsNib key kb in
    let twice = length-to_nibs key in
    let after =
      Returns-both
        (not_cut (tree_delete-Returns v.tree (to_nibs key) v.wf nk v.canon) (
          tree_delete-NotCut v.tree (to_nibs key)
            (subst (λ k. IsDeep k v.tree) (sym twice) x.deep)))
        (Ensures-both (tree_delete-Keeps v.tree (to_nibs key) v.wf)
          (tree_delete-IsDeep (2 * length key) v.tree (to_nibs key) v.wf x.deep)) in
    Returns-mono (Returns-Sim (delete-Follows ref m v key) after)
      (λ r q.
        After-IsFixed ref (length key) m v r q.0 q.1
          (record { id = q.2.1.0.id; wf = q.2.1.0.wf; canon = q.2.0; deep = q.2.1.1 }))
      (λ e q. q)
