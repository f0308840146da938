-- ===== src/Trie/Spec/NotCut.antt =====
-- On tries whose keys have one length, a deletion finds no key that ends at a branch.
use ceno_reth_benchmark.Base.{
  ℕ, zero, suc, ◌-◌, ◌≡◌, refl, subst, ap, Bool, true, false, Option, none, some, List, [], ◌∷◌,
  arith, if◌then◌else◌, length, length-append, bytes_eq, ◌==◌,
}
use ceno_reth_benchmark.Base.Result.{
  Result, ok, err, panic, stuck, ◌>>=◌, Returns, returns, refuses,
}
use ceno_reth_benchmark.Hp.{prefix_to_nibs}
use ceno_reth_benchmark.Hp.Compare.{strip_prefix, eq_of_strip_prefix}
use ceno_reth_benchmark.Trie.{
  Error, value_in_branch, not_resolved, node_not_resolved, node_ref_mismatch, rlp_error,
  invalid_frontier_prefix, inline_frontier_chunk,
}
use ceno_reth_benchmark.Trie.Tree.{Tree, null, branch, leaf, extension, Kids, end, absent, child}
use ceno_reth_benchmark.Trie.Spec.{
  Changed, live, absorbed, shrunk, branch_delete, extension_delete, delete_below, child_delete,
  tree_delete, kids_delete,
}
use ceno_reth_benchmark.Trie.Spec.Depth.{IsDeep, KidsIsDeep}
use ceno_reth_benchmark.Trie.Spec.Returns.{IsUnresolved, IsRefusal}

-- The call does not fail at the end of a key.
abbrev pub NotCut : {A : Type 0} → Result Error A → Type 0
NotCut (err value_in_branch) = ⊥
NotCut _ = Unit

then_NotCut :
    {A B : Type 0} (r : Result Error A) (k : A → Result Error B)
    → NotCut r
    → ((a : A) → NotCut (k a))
    → NotCut (r >>= k)
then_NotCut (ok a) k h g = g a
then_NotCut (err value_in_branch) k h g = absurd h
then_NotCut (err node_ref_mismatch) k h g = tt
then_NotCut (err (node_not_resolved d)) k h g = tt
then_NotCut (err (rlp_error e)) k h g = tt
then_NotCut (err invalid_frontier_prefix) k h g = tt
then_NotCut (err inline_frontier_chunk) k h g = tt
then_NotCut panic k h g = tt
then_NotCut stuck k h g = tt

pub not_cut :
    {A : Type 0} {P : A → Type 0} {r : Result Error A}
    → Returns P IsRefusal r
    → NotCut r
    → Returns P IsUnresolved r
not_cut (returns p) h = returns p
not_cut (refuses {e = node_not_resolved d} q) h = refuses q
not_cut (refuses {e = value_in_branch} q) h = absurd h
not_cut (refuses {e = node_ref_mismatch} q) h = absurd q
not_cut (refuses {e = rlp_error e} q) h = absurd q
not_cut (refuses {e = invalid_frontier_prefix} q) h = absurd q
not_cut (refuses {e = inline_frontier_chunk} q) h = absurd q

absorbed-NotCut : (i x : ℕ) (t : Tree) → NotCut (absorbed i x t)
unfolding absorbed
absorbed-NotCut i x (null j) = tt
absorbed-NotCut i x (branch j ks) = tt
absorbed-NotCut i x (leaf j p v) = tt
absorbed-NotCut i x (extension j p t) = tt
absorbed-NotCut i x (Tree.digest j d) = tt

branch_delete-NotCut : (i : ℕ) (ks : Kids) (r : Bool × Kids) → NotCut (branch_delete i ks r)
unfolding branch_delete shrunk
branch_delete-NotCut i ks (false, ks') = tt
branch_delete-NotCut i ks (true, ks') = go (live 0 ks')
  where
    go : (l : List (ℕ × Tree)) → NotCut (shrunk i ks' l)
    go [] = tt
    go ((x, t) ∷ []) =
        then_NotCut (absorbed i x t) (λ t'. ok (true, t')) (absorbed-NotCut i x t) λ t'. tt
    go (a ∷ b ∷ l) = tt

extension_delete-NotCut :
    (i : ℕ) (p : List ℕ) (t : Tree) (r : Bool × Tree) → NotCut (extension_delete i p t r)
unfolding extension_delete
extension_delete-NotCut i p t (true, t') = tt
extension_delete-NotCut i p t (false, t') = tt

child_delete-NotCut : (t : Tree) (ks : Kids) (r : Bool × Tree) → NotCut (child_delete t ks r)
unfolding child_delete
child_delete-NotCut t ks (true, t') = tt
child_delete-NotCut t ks (false, t') = tt

test_NotCut : {A : Type 0} (b : Bool) (x y : A) → NotCut (if b then ok x else ok y)
test_NotCut true x y = tt
test_NotCut false x y = tt

unresolved_NotCut : (A : Type 0) (d : List ℕ) → NotCut (not_resolved {A = A} d)
unfolding not_resolved
unresolved_NotCut A d = go (length d == 32)
  where
    go : (b : Bool) → NotCut {A = A} (if b then err (node_not_resolved d) else panic)
    go true = tt
    go false = tt

below_NotCut :
    (t : Tree) (rec : List ℕ → Changed) (o : Option (List ℕ))
    → ((tail : List ℕ) → o ≡ some tail → NotCut (rec tail))
    → NotCut (delete_below t rec o)
below_NotCut t rec none h = tt
below_NotCut t rec (some tail) h = h tail refl

mutual
  unfolding tree_delete kids_delete

  delete_NotCut : (t : Tree) (key : List ℕ) → IsDeep (length key) t → NotCut (tree_delete t key)
  delete_NotCut (null i) key d = tt
  delete_NotCut (branch i ks) [] d = absurd (omega (arith, d.0))
  delete_NotCut (branch i ks) (x ∷ key) d =
      let e : suc (length key) - 1 ≡ length key = omega arith in
      then_NotCut (kids_delete ks x key) (branch_delete i ks)
        (kids_delete-NotCut ks x key (subst (λ k. KidsIsDeep k ks) e d.1))
        (branch_delete-NotCut i ks)
  delete_NotCut (leaf i p v) key d =
      test_NotCut (bytes_eq (prefix_to_nibs p) key) (true, null i) (false, leaf i p v)
  delete_NotCut (extension i p t) key d =
      below_NotCut (extension i p t) (λ k. tree_delete t k >>= extension_delete i p t)
        (strip_prefix (prefix_to_nibs p) key)
        λ tail e.
          let whole = ap length (eq_of_strip_prefix (prefix_to_nibs p) key e) in
          let rest : length key - length (prefix_to_nibs p) ≡ length tail =
            omega (arith, whole, length-append (prefix_to_nibs p) tail) in
          then_NotCut (tree_delete t tail) (extension_delete i p t)
            (delete_NotCut t tail (subst (λ k. IsDeep k t) rest d.1))
            (extension_delete-NotCut i p t)
  delete_NotCut (Tree.digest i h) key d = unresolved_NotCut (Bool × Tree) h

  kids_delete-NotCut :
      (ks : Kids) (x : ℕ) (key : List ℕ)
      → KidsIsDeep (length key) ks
      → NotCut (kids_delete ks x key)
  kids_delete-NotCut end x key d = tt
  kids_delete-NotCut (absent ks) zero key d = tt
  kids_delete-NotCut (absent ks) (suc x) key d =
      then_NotCut (kids_delete ks x key) _ (kids_delete-NotCut ks x key d) λ r. tt
  kids_delete-NotCut (child t ks) zero key d =
      then_NotCut (tree_delete t key) (child_delete t ks) (delete_NotCut t key d.0)
        (child_delete-NotCut t ks)
  kids_delete-NotCut (child t ks) (suc x) key d =
      then_NotCut (kids_delete ks x key) _ (kids_delete-NotCut ks x key d.1) λ r. tt

pub tree_delete-NotCut :
    (t : Tree) (key : List ℕ) → IsDeep (length key) t → NotCut (tree_delete t key)
tree_delete-NotCut t key d = delete_NotCut t key d
