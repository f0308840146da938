-- ===== src/Trie/Refine/Get.antt =====
-- `get_internal` reads the tree that the arena represents.
use ceno_reth_benchmark.Base.{
  ℕ, zero, suc, ◌≤◌, ◌≡◌, refl, subst, none, some, List, [], ◌∷◌, arith, Option, get_elem?,
}
use ceno_reth_benchmark.Base.Result.{Result, ◌>>=◌, unwrap}
use ceno_reth_benchmark.Hp.{prefix_to_nibs}
use ceno_reth_benchmark.Hp.Compare.{
  encoded_path_eq_nibs-bytes_eq, encoded_path_strip_prefix_lem, strip_prefix,
}
use ceno_reth_benchmark.Trie.{Error, Mpt, NodeRef}
use ceno_reth_benchmark.Trie.Get.{Value, get_child, get_stripped, get_node, get_internal}
use ceno_reth_benchmark.Trie.Tree.{
  Tree, null, branch, leaf, extension, Kids, end, absent, child, id_of, slots, height, kids_height,
  Rep, KidsRep,
}
use ceno_reth_benchmark.Trie.Slots.{kid_at, slots-kid_at, ids?}
use ceno_reth_benchmark.Trie.Slots.Steps.{get_at, kids_get_step}
use ceno_reth_benchmark.Trie.Spec.{get_below, tree_get, kids_get}

abbrev Rec : Type 0
Rec = ℕ → List ℕ → Result Error (Option Value)

child_step :
    (rec : Rec) (tail : List ℕ) (o : Option (Option Tree))
    → ((t : Tree) → o ≡ some (some t) → rec (id_of t) tail ≡ tree_get t tail)
    → (unwrap (ids? o) >>= get_child rec tail) ≡ get_at o tail
unfolding get_child
child_step rec tail none h = refl
child_step rec tail (some none) h = refl
child_step rec tail (some (some t)) h = h t refl

branch_step :
    (rec : Rec) (ks : Kids) (x : ℕ) (tail : List ℕ)
    → ((t : Tree) → kid_at ks x ≡ some (some t) → rec (id_of t) tail ≡ tree_get t tail)
    → (unwrap (get_elem? (slots ks) x) >>= get_child rec tail) ≡ kids_get ks x tail
branch_step rec ks x tail h =
    rw (slots-kid_at ks x, kids_get_step ks x tail) (child_step rec tail (kid_at ks x) h)

stripped_step :
    (rec : Rec) (t : Tree) (o : Option (List ℕ))
    → ((tail : List ℕ) → rec (id_of t) tail ≡ tree_get t tail)
    → get_stripped rec (id_of t) o ≡ get_below (tree_get t) o
unfolding get_stripped
stripped_step rec t none h = refl
stripped_step rec t (some tail) h = h tail

module _ (ref : Tree → NodeRef) (m : Mpt) where
  mutual
    unfolding get_internal get_node tree_get kid_at

    get_ref :
        (t : Tree) (fuel : ℕ) (key : List ℕ)
        → height t ≤ fuel
        → Rep ref m t
        → get_internal fuel m (id_of t) key ≡ tree_get t key
    get_ref (null i) zero key h r = absurd (omega arith)
    get_ref (null i) (suc f) key h r = rw r.at
    get_ref (branch i ks) zero key h r = absurd (omega arith)
    get_ref (branch i ks) (suc f) [] h r = rw r.0.at
    get_ref (branch i ks) (suc f) (x ∷ key) h r = rw r.0.at (
        branch_step (λ id q. get_internal f m id q) ks x key
          λ t e. kid_ref ks x t f key e (omega arith) r.1)
    get_ref (leaf i p v) zero key h r = absurd (omega arith)
    get_ref (leaf i p v) (suc f) key h r =
        rw (r.at, encoded_path_eq_nibs-bytes_eq p key) (ground arith)
    get_ref (extension i p t) zero key h r = absurd (omega arith)
    get_ref (extension i p t) (suc f) key h r =
        rw (r.0.at, encoded_path_strip_prefix_lem p key)
          (stripped_step (λ id q. get_internal f m id q) t (strip_prefix (prefix_to_nibs p) key)
            λ tail. get_ref t f tail (omega arith) r.1)
    get_ref (Tree.digest i d) zero key h r = absurd (omega arith)
    get_ref (Tree.digest i d) (suc f) key h r = rw r.at

    kid_ref :
        (ks : Kids) (x : ℕ) (t : Tree) (fuel : ℕ) (key : List ℕ)
        → kid_at ks x ≡ some (some t)
        → kids_height ks ≤ fuel
        → KidsRep ref m ks
        → get_internal fuel m (id_of t) key ≡ tree_get t key
    kid_ref end x t f key e h r = cc
    kid_ref (absent ks) zero t f key e h r = cc
    kid_ref (absent ks) (suc x) t f key e h r = kid_ref ks x t f key e h r
    kid_ref (child u ks) zero t f key e h r =
        let q : u ≡ t = cc in
        subst (λ w. get_internal f m (id_of w) key ≡ tree_get w key) q
          (get_ref u f key (omega arith) r.0)
    kid_ref (child u ks) (suc x) t f key e h r = kid_ref ks x t f key e (omega arith) r.1

  -- With fuel for the height of the tree, `get_internal` is the lookup in the tree.
  pub get_internal-tree_get :
      (t : Tree) (fuel : ℕ) (key : List ℕ)
      → height t ≤ fuel
      → Rep ref m t
      → get_internal fuel m (id_of t) key ≡ tree_get t key
  get_internal-tree_get t fuel key h r = get_ref t fuel key h r
