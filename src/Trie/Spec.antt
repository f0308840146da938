-- ===== src/Trie/Spec.antt =====
-- The trie operations as functions on trees: what get_internal, insert_internal and delete_internal
-- of crates/mpt/src/trie.rs are to do, with no store, no ids to follow and no cache.
pub mod Paths
pub mod InsertGet
pub mod DeleteWf
pub mod DeleteMerge
pub mod DeleteGet
pub mod ForkWf
pub mod InsertWf
pub mod Returns
pub mod Canon
pub mod DeleteCanon
pub mod Depth
pub mod DepthDelete
pub mod NotCut
use ceno_reth_benchmark.Base.{
  ℕ, zero, suc, ◌+◌, Bool, true, false, Option, none, some, List, [], ◌∷◌, ◌++◌, ◌==◌,
  if◌then◌else◌, bytes_eq,
}
use ceno_reth_benchmark.Base.Result.{Result, ok, err, panic, ◌>>=◌}
use ceno_reth_benchmark.Hp.{prefix_to_nibs}
use ceno_reth_benchmark.Hp.Compare.{strip_prefix}
use ceno_reth_benchmark.Hp.Encode.{encoded}
use ceno_reth_benchmark.Hp.Lcp.{Aligned, align}
use ceno_reth_benchmark.Trie.{Error, value_in_branch, not_resolved}
use ceno_reth_benchmark.Trie.Tree.{
  Tree, null, branch, leaf, extension, Kids, end, absent, child, is_null,
}

abbrev pub Found : Type 0
Found = Result Error (Option (List ℕ))

abbrev pub get_below : (List ℕ → Found) → Option (List ℕ) → Found
get_below rec none = ok none
get_below rec (some tail) = rec tail

abbrev pub leaf_get : List ℕ → List ℕ → List ℕ → Found
leaf_get nibs v key = ok (if bytes_eq nibs key then some v else none)

unfoldable mutual
  pub tree_get : Tree → List ℕ → Found
  tree_get (null i) key = ok none
  tree_get (branch i ks) [] = ok none
  tree_get (branch i ks) (x ∷ key) = kids_get ks x key
  tree_get (leaf i p v) key = leaf_get (prefix_to_nibs p) v key
  tree_get (extension i p t) key = get_below (tree_get t) (strip_prefix (prefix_to_nibs p) key)
  tree_get (Tree.digest i d) key = not_resolved d

  pub kids_get : Kids → ℕ → List ℕ → Found
  kids_get end x key = panic
  kids_get (absent ks) zero key = ok none
  kids_get (absent ks) (suc x) key = kids_get ks x key
  kids_get (child t ks) zero key = tree_get t key
  kids_get (child t ks) (suc x) key = kids_get ks x key

abbrev pub Changed : Type 0
Changed = Result Error (Bool × Tree)

abbrev pub KidsChanged : Type 0
KidsChanged = Result Error (Bool × Kids)

abbrev pub all_absent : Kids
all_absent = absent (
    absent (
      absent (
        absent (
          absent (
            absent (
              absent (
                absent
                  (absent (absent (absent (absent (absent (absent (absent (absent end)))))))))))))))

unfoldable pub put_kid : Kids → ℕ → Tree → Result Error Kids
put_kid end x t = panic
put_kid (absent ks) zero t = ok (child t ks)
put_kid (child _ ks) zero t = ok (child t ks)
put_kid (absent ks) (suc x) t = do ks' ← put_kid ks x t; ok (absent ks')
put_kid (child u ks) (suc x) t = do ks' ← put_kid ks x t; ok (child u ks')

-- A branch behind the common path `c`; `n` is the next free index.
unfoldable pub wrap : ℕ → List ℕ → Kids → ℕ → Tree
wrap i [] ks n = branch i ks
wrap i (x ∷ c) ks n = extension i (encoded (x ∷ c) false) (branch n ks)

-- A branch with two children behind `c`.
unfoldable pub fork : ℕ → List ℕ → ℕ → Tree → ℕ → Tree → ℕ → Changed
fork i c x tx y ty n = do
  ks1 ← put_kid all_absent x tx
  ks2 ← put_kid ks1 y ty
  ok (true, wrap i c ks2 n)

unfoldable pub leaf_insert : ℕ → List ℕ → List ℕ → List ℕ → ℕ → (c left right : List ℕ) → Changed
leaf_insert i p old v n c [] [] =
    if bytes_eq old v then ok (false, leaf i p old) else ok (true, leaf i p v)
leaf_insert i p old v n c [] (y ∷ right) = err value_in_branch
leaf_insert i p old v n c (x ∷ left) [] = err value_in_branch
leaf_insert i p old v n c (x ∷ left) (y ∷ right) =
    fork i c x (leaf n (encoded left true) old) y (leaf (suc n) (encoded right true) v)
      (suc (suc n))

-- What is left of a split extension.
unfoldable pub rest_of : ℕ → List ℕ → Tree → Tree
rest_of n [] t = t
rest_of n (x ∷ left) t = extension n (encoded (x ∷ left) false) t

unfoldable pub next_after : ℕ → List ℕ → ℕ
next_after n [] = n
next_after n (x ∷ left) = suc n

unfoldable pub extension_insert :
    ℕ → List ℕ → Tree → (List ℕ → Changed) → List ℕ → ℕ → (c left right : List ℕ) → Changed
extension_insert i p t rec v n c [] right = do (b, t') ← rec right; ok (b, extension i p t')
extension_insert i p t rec v n c (x ∷ left) [] = err value_in_branch
extension_insert i p t rec v n c (x ∷ left) (y ∷ right) =
    let n' = next_after n left in
    fork i c x (rest_of n left t) y (leaf n' (encoded right true) v) (suc n')

-- `n` is the next free index.
unfoldable mutual
  pub tree_insert : Tree → List ℕ → List ℕ → ℕ → Changed
  tree_insert (null i) key v n = ok (true, leaf i (encoded key true) v)
  tree_insert (branch i ks) [] v n = err value_in_branch
  tree_insert (branch i ks) (x ∷ key) v n = do
    (b, ks') ← kids_insert ks x key v n
    ok (b, branch i ks')
  tree_insert (leaf i p old) key v n =
      let a = align (prefix_to_nibs p) key in leaf_insert i p old v n a.common a.left a.right
  tree_insert (extension i p t) key v n =
      let a = align (prefix_to_nibs p) key in
      extension_insert i p t (λ k. tree_insert t k v n) v n a.common a.left a.right
  tree_insert (Tree.digest i d) key v n = not_resolved d

  pub kids_insert : Kids → ℕ → List ℕ → List ℕ → ℕ → KidsChanged
  kids_insert end x key v n = panic
  kids_insert (absent ks) zero key v n = ok (true, child (leaf n (encoded key true) v) ks)
  kids_insert (absent ks) (suc x) key v n = do
    (b, ks') ← kids_insert ks x key v n
    ok (b, absent ks')
  kids_insert (child t ks) zero key v n = do (b, t') ← tree_insert t key v n; ok (b, child t' ks)
  kids_insert (child t ks) (suc x) key v n = do
    (b, ks') ← kids_insert ks x key v n
    ok (b, child t ks')

-- The children that a branch has, with their nibbles from `x` on.
unfoldable pub live : ℕ → Kids → List (ℕ × Tree)
live x end = []
live x (absent ks) = live (suc x) ks
live x (child t ks) = (x, t) ∷ live (suc x) ks

-- The only child of the branch `i` takes its place.
unfoldable pub absorbed : ℕ → ℕ → Tree → Result Error Tree
absorbed i x (null j) = panic
absorbed i x (branch j ks) = ok (extension i (encoded (x ∷ []) false) (branch j ks))
absorbed i x (leaf j p v) = ok (leaf i (encoded (x ∷ prefix_to_nibs p) true) v)
absorbed i x (extension j p t) = ok (extension i (encoded (x ∷ prefix_to_nibs p) false) t)
absorbed i x (Tree.digest j d) = ok (extension i (encoded (x ∷ []) false) (Tree.digest j d))

unfoldable pub shrunk : ℕ → Kids → List (ℕ × Tree) → Changed
shrunk i ks [] = panic
shrunk i ks ((x, t) ∷ []) = do t' ← absorbed i x t; ok (true, t')
shrunk i ks (_ ∷ _ ∷ _) = ok (true, branch i ks)

unfoldable pub joined : ℕ → List ℕ → Tree → Tree
joined i p (null j) = null i
joined i p (branch j ks) = extension i p (branch j ks)
joined i p (leaf j q v) = leaf i (encoded (prefix_to_nibs p ++ prefix_to_nibs q) true) v
joined i p (extension j q t) = extension i (encoded (prefix_to_nibs p ++ prefix_to_nibs q) false) t
joined i p (Tree.digest j d) = extension i p (Tree.digest j d)

unfoldable pub branch_delete : ℕ → Kids → Bool × Kids → Changed
branch_delete i ks (false, ks') = ok (false, branch i ks)
branch_delete i ks (true, ks') = shrunk i ks' (live 0 ks')

unfoldable pub extension_delete : ℕ → List ℕ → Tree → Bool × Tree → Changed
extension_delete i p t (false, t') = ok (false, extension i p t)
extension_delete i p t (true, t') = ok (true, joined i p t')

abbrev pub delete_below : Tree → (List ℕ → Changed) → Option (List ℕ) → Changed
delete_below t rec none = ok (false, t)
delete_below t rec (some tail) = rec tail

-- A child that became empty leaves its slot.
unfoldable pub kept : Tree → Kids → Kids
kept t ks = if is_null t then absent ks else child t ks

unfoldable pub child_delete : Tree → Kids → Bool × Tree → KidsChanged
child_delete t ks (false, t') = ok (false, child t ks)
child_delete t ks (true, t') = ok (true, kept t' ks)

unfoldable mutual
  pub tree_delete : Tree → List ℕ → Changed
  tree_delete (null i) key = ok (false, null i)
  tree_delete (branch i ks) [] = err value_in_branch
  tree_delete (branch i ks) (x ∷ key) = do r ← kids_delete ks x key; branch_delete i ks r
  tree_delete (leaf i p v) key =
      if bytes_eq (prefix_to_nibs p) key then ok (true, null i) else ok (false, leaf i p v)
  tree_delete (extension i p t) key =
      delete_below (extension i p t) (λ k. tree_delete t k >>= extension_delete i p t)
        (strip_prefix (prefix_to_nibs p) key)
  tree_delete (Tree.digest i d) key = not_resolved d

  pub kids_delete : Kids → ℕ → List ℕ → KidsChanged
  kids_delete end x key = panic
  kids_delete (absent ks) zero key = ok (false, absent ks)
  kids_delete (absent ks) (suc x) key = do (b, ks') ← kids_delete ks x key; ok (b, absent ks')
  kids_delete (child t ks) zero key = do r ← tree_delete t key; child_delete t ks r
  kids_delete (child t ks) (suc x) key = do (b, ks') ← kids_delete ks x key; ok (b, child t ks')
