-- ===== src/Trie/Correct.antt =====
-- `get`, `insert` and `delete` of crates/mpt/src/trie.rs as operations on a map from keys to values.
use ceno_reth_benchmark.Base.{
  ℕ, ◌+◌, ◌≤◌, ◌≡◌, refl, inl, inr, ◌⊎◌, sym, subst, ◌∙◌, Bool, true, false, Option, none, some,
  List, All, length, bytes_eq, if◌then◌else◌,
}
use ceno_reth_benchmark.Base.Result.{
  ok, Sim, Returns, Returns-Sim, Returns-both, Returns-mono, Ensures-both,
}
use ceno_reth_benchmark.Hp.{IsByte, to_nibs}
use ceno_reth_benchmark.Trie.{Mpt, NodeRef}
use ceno_reth_benchmark.Trie.Get.{get}
use ceno_reth_benchmark.Trie.Insert.{insert_internal, insert, insert_nibbles}
use ceno_reth_benchmark.Trie.Delete.{delete_internal, delete, delete_nibbles}
use ceno_reth_benchmark.Trie.Tree.{Tree, id_of, Wf}
use ceno_reth_benchmark.Trie.Spec.{tree_get, tree_insert, tree_delete, Found}
use ceno_reth_benchmark.Trie.Spec.Canon.{RootCanon, tree_insert-RootCanon}
use ceno_reth_benchmark.Trie.Spec.DeleteCanon.{tree_delete-Returns}
use ceno_reth_benchmark.Trie.Spec.DeleteGet.{tree_delete-Deleted, Was}
use ceno_reth_benchmark.Trie.Spec.DeleteWf.{tree_delete-Keeps}
use ceno_reth_benchmark.Trie.Spec.InsertGet.{tree_insert-Inserted}
use ceno_reth_benchmark.Trie.Spec.InsertWf.{tree_insert-Grows}
use ceno_reth_benchmark.Trie.Spec.Paths.{to_nibs-IsNib}
use ceno_reth_benchmark.Trie.Spec.Returns.{
  IsUnresolved, IsRefusal, tree_get-Returns, tree_insert-Returns,
}
use ceno_reth_benchmark.Trie.Arena.{HasRoom, mem-lt}
use ceno_reth_benchmark.Trie.Refine.Post.{Follows}
use ceno_reth_benchmark.Trie.Refine.Insert.{insert_internal-Follows}
use ceno_reth_benchmark.Trie.Refine.Delete.{delete_internal-Follows}
use ceno_reth_benchmark.Trie.Total.{height-length}
use ceno_reth_benchmark.Trie.Valid.{IsValid, bytes_eq-to_nibs, get-tree_get}

-- The trie after a write to `key`: what `k` reads, and that a report of no change is true.
pub record Wrote (ref : Tree → NodeRef) (m : Mpt) (key : List ℕ) (now : Found) (k : List ℕ)
    (r : Bool × Mpt) : Type 0 where
  pub valid : IsValid ref r.1
  pub reads : get r.1 k ≡ (if bytes_eq key k then now else get m k)
  pub same : (r.0 ≡ true) ⊎ (r.1 ≡ m)
  pub few : length r.1.nodes ≤ length m.nodes + 3

module _ (ref : Tree → NodeRef) (m : Mpt) (v : IsValid ref m) where
  -- The tree after a write.
  record After (key : List ℕ) (now : Found) (s : Bool × Tree) : Type 0 where
    id : id_of s.1 ≡ id_of v.tree
    wf : Wf s.1
    canon : RootCanon s.1
    reads :
        (k : List ℕ)
        → All IsByte k
        → tree_get s.1 (to_nibs k)
          ≡ (if bytes_eq (to_nibs key) (to_nibs k) then now else tree_get v.tree (to_nibs k))

  said : (r : Bool × Mpt) → (r.0 ≡ false → r.1 ≡ m) → (r.0 ≡ true) ⊎ (r.1 ≡ m)
  said (true, m') h = inl refl
  said (false, m') h = inr (h refl)

  wrote :
      (key : List ℕ) (now : Found) (k : List ℕ) (r : Bool × Mpt) (s : Bool × Tree)
      → All IsByte key
      → All IsByte k
      → Follows ref m v.tree r s
      → After key now s
      → Wrote ref m key now k r
  wrote key now k r s kb kk f a =
      let v' : IsValid ref r.1 = record {
        tree = s.1;
        root = a.id ∙ v.root ∙ sym f.spares.root;
        rep = f.rep;
        wf = a.wf;
        sized = f.spares.sized;
        canon = a.canon;
      } in
      record {
        valid = v';
        reads =
            rw (get-tree_get ref r.1 v' k, get-tree_get ref m v k, ← bytes_eq-to_nibs key k kb kk)
              (a.reads k kk);
        same = said r f.same;
        few = f.spares.few;
      }

  pub insert-Follows :
      HasRoom m
      → (key value : List ℕ) → All IsByte key
      → Sim
          (Follows ref m v.tree)
          (insert m key value)
          (tree_insert v.tree (to_nibs key) value (length m.nodes))
  unfolding insert insert_nibbles
  insert-Follows room key value kb =
      subst
        (λ i.
          Sim (Follows ref m v.tree) (insert_internal (length m.nodes) m i (to_nibs key) value)
            (tree_insert v.tree (to_nibs key) value (length m.nodes)))
        v.root
        (insert_internal-Follows ref m v.sized room v.tree (length m.nodes) (to_nibs key) value
          (height-length ref m v.tree v.rep v.wf) v.rep v.wf (to_nibs-IsNib key kb))

  pub delete-Follows :
      (key : List ℕ) → Sim (Follows ref m v.tree) (delete m key) (tree_delete v.tree (to_nibs key))
  unfolding delete delete_nibbles
  delete-Follows key =
      subst
        (λ i.
          Sim (Follows ref m v.tree) (delete_internal (length m.nodes) m i (to_nibs key))
            (tree_delete v.tree (to_nibs key)))
        v.root
        (delete_internal-Follows ref m v.sized v.tree (length m.nodes) (to_nibs key)
          (height-length ref m v.tree v.rep v.wf) v.rep v.wf)

  insert_After :
      (key value : List ℕ)
      → All IsByte key
      → Returns
          (After key (ok (some value)))
          IsRefusal
          (tree_insert v.tree (to_nibs key) value (length m.nodes))
  insert_After key value kb =
      let nk = to_nibs-IsNib key kb in
      let n = length m.nodes in
      Returns-mono
        (Returns-both (tree_insert-Returns v.tree (to_nibs key) value n v.wf nk) (
          Ensures-both (tree_insert-Inserted v.tree (to_nibs key) value n v.wf nk) (
            Ensures-both
              (tree_insert-Grows v.tree (to_nibs key) value n (λ j h. mem-lt ref m v.tree j v.rep h)
                v.wf nk)
              (tree_insert-RootCanon v.tree (to_nibs key) value n v.wf nk v.canon))))
        (λ s p. record {
          id = p.1.1.0.id;
          wf = p.1.1.0.wf;
          canon = p.1.1.1;
          reads = λ k kk. p.1.0 (to_nibs k) (to_nibs-IsNib k kk);
        })
        (λ e q. q)

  delete_After :
      (key : List ℕ)
      → All IsByte key
      → Returns
          (λ s. After key (ok none) s × Was s.0 (tree_get v.tree (to_nibs key)))
          IsRefusal
          (tree_delete v.tree (to_nibs key))
  delete_After key kb =
      let nk = to_nibs-IsNib key kb in
      Returns-mono
        (Returns-both (tree_delete-Returns v.tree (to_nibs key) v.wf nk v.canon) (
          Ensures-both (tree_delete-Deleted v.tree (to_nibs key) v.wf nk)
            (tree_delete-Keeps v.tree (to_nibs key) v.wf)))
        (λ s p. (
          record {
            id = p.1.1.id;
            wf = p.1.1.wf;
            canon = p.0;
            reads = λ k kk. p.1.0.0 (to_nibs k) (to_nibs-IsNib k kk);
          },
          p.1.0.1,
        ))
        (λ e q. q)

abbrev pub Any : Option (List ℕ) → Type 0
Any o = Unit

-- On a valid trie a lookup of bytes returns, or reports a node that is a digest of 32 bytes: it
-- does not panic, and the fuel suffices.
pub get-Returns :
    (ref : Tree → NodeRef) (m : Mpt) (key : List ℕ)
    → IsValid ref m
    → All IsByte key
    → Returns Any IsUnresolved (get m key)
get-Returns ref m key v kb =
    rw (get-tree_get ref m v key)
      (tree_get-Returns v.tree (to_nibs key) v.wf (to_nibs-IsNib key kb))

-- On a valid trie with room for three more nodes, an insertion of a byte key returns a valid trie, three nodes
-- longer at most, in which the key reads the value and any other byte key `k` what it did; a report of no change means that the trie is the old one. Its only errors are an
-- unresolved node and a key that ends where another goes on: it does not panic, and the fuel suffices.
pub insert-Wrote :
    (ref : Tree → NodeRef) (m : Mpt) (key value k : List ℕ)
    → IsValid ref m
    → HasRoom m
    → All IsByte key
    → All IsByte k
    → Returns (Wrote ref m key (ok (some value)) k) IsRefusal (insert m key value)
insert-Wrote ref m key value k v room kb kk =
    Returns-mono
      (Returns-Sim (insert-Follows ref m v room key value kb) (insert_After ref m v key value kb))
      (λ r q. wrote ref m v key (ok (some value)) k r q.0 kb kk q.1 q.2) (λ e q. q)

-- On a valid trie a deletion of a byte key returns a valid trie in which the key reads nothing and any other
-- byte key `k` what it did; it reports a change exactly if the key had a value, and a report of no change means that the trie is the old one.
-- Its only errors are an unresolved node and a key that ends at a branch: it does not panic, and the fuel suffices.
pub delete-Wrote :
    (ref : Tree → NodeRef) (m : Mpt) (key k : List ℕ)
    → IsValid ref m
    → All IsByte key
    → All IsByte k
    → Returns (λ r. Wrote ref m key (ok none) k r × Was r.0 (get m key)) IsRefusal (delete m key)
delete-Wrote ref m key k v kb kk = rw (get-tree_get ref m v key) (
    Returns-mono (Returns-Sim (delete-Follows ref m v key) (delete_After ref m v key kb))
      (λ r q. (
        wrote ref m v key (ok none) k r q.0 kb kk q.1 q.2.0,
        subst (λ b. Was b (tree_get v.tree (to_nibs key))) (sym q.1.flag) q.2.1,
      ))
      (λ e q. q))
