-- ===== src/Trie/Valid.antt =====
-- The tries that `Mpt::default` and the operations of crates/mpt/src/trie.rs make: the arena holds a
-- tree at its root, of the canonical shape, and each cached reference is missing or right.
use ceno_reth_benchmark.Base.{
  ℕ, ◌/◌, ◌%◌, ◌≡◌, refl, subst, inl, Bool, ◌&&◌, List, [], ◌∷◌, All, arith, length, ◌==◌, bytes_eq,
}
use ceno_reth_benchmark.Hp.{IsByte, to_nibs}
use ceno_reth_benchmark.Hp.Bits.{low_lem}
use ceno_reth_benchmark.Trie.{Mpt, NodeRef, new}
use ceno_reth_benchmark.Trie.Get.{get, get_nibbles, get_internal}
use ceno_reth_benchmark.Trie.Tree.{Tree, null, id_of, Wf, Rep}
use ceno_reth_benchmark.Trie.Spec.{tree_get}
use ceno_reth_benchmark.Trie.Spec.Canon.{RootCanon}
use ceno_reth_benchmark.Trie.Arena.{IsSized}
use ceno_reth_benchmark.Trie.Refine.Get.{get_internal-tree_get}
use ceno_reth_benchmark.Trie.Total.{height-length}

-- `ref` is any function that says what a tree looks like in its parent.
pub record IsValid (ref : Tree → NodeRef) (m : Mpt) : Type 0 where
  pub tree : Tree
  pub root : id_of tree ≡ m.root_id
  pub rep : Rep ref m tree
  pub wf : Wf tree
  pub sized : IsSized m
  pub canon : RootCanon tree

-- Bytes are equal if their nibbles are.
same_byte : (a b : ℕ) (c : Bool) → (a / 16 == b / 16 && (a % 16 == b % 16 && c)) ≡ (a == b && c)
same_byte a b c = ground arith

pub bytes_eq-to_nibs :
    (xs ys : List ℕ)
    → All IsByte xs
    → All IsByte ys
    → bytes_eq (to_nibs xs) (to_nibs ys) ≡ bytes_eq xs ys
unfolding bytes_eq to_nibs
bytes_eq-to_nibs [] [] hx hy = refl
bytes_eq-to_nibs [] (y ∷ ys) hx hy = refl
bytes_eq-to_nibs (x ∷ xs) [] hx hy = refl
bytes_eq-to_nibs (x ∷ xs) (y ∷ ys) (hx, hxs) (hy, hys) =
    rw (low_lem x hx, low_lem y hy, bytes_eq-to_nibs xs ys hxs hys) (same_byte x y (bytes_eq xs ys))

module _ (ref : Tree → NodeRef) (m : Mpt) (v : IsValid ref m) where
  pub get_nibbles-tree_get : (key : List ℕ) → get_nibbles m key ≡ tree_get v.tree key
  unfolding get_nibbles
  get_nibbles-tree_get key =
      subst (λ i. get_internal (length m.nodes) m i key ≡ tree_get v.tree key) v.root
        (get_internal-tree_get ref m v.tree (length m.nodes) key
          (height-length ref m v.tree v.rep v.wf) v.rep)

  pub get-tree_get : (key : List ℕ) → get m key ≡ tree_get v.tree (to_nibs key)
  unfolding get
  get-tree_get key = get_nibbles-tree_get (to_nibs key)

-- The trie of `Mpt::new` is valid, for every function `ref`.
pub new-IsValid : (ref : Tree → NodeRef) → IsValid ref new
unfolding new
new-IsValid ref = record {
  tree = null 0;
  root = refl;
  rep = record { at = refl; cached = inl refl };
  wf = tt;
  sized = refl;
  canon = tt;
}
