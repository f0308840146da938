-- ===== src/Trie/Spec/InsertWf.antt =====
-- An insertion keeps a tree well formed, at its index, and takes up three new indices at most.
use ceno_reth_benchmark.Base.{
  ℕ, zero, suc, ◌+◌, ◌≤◌, ◌<◌, ◌≡◌, refl, subst, ◌∙◌, ap, inl, inr, Bool, true, false, List, [],
  ◌∷◌, All, arith, Bool-cases, length, bytes_eq, All-append_left, All-append_right,
}
use ceno_reth_benchmark.Base.Result.{Ensures, on_ok, on_err, on_panic, Ensures-bind, Ensures-mono}
use ceno_reth_benchmark.Hp.{IsNib, IsByte, prefix_to_nibs}
use ceno_reth_benchmark.Hp.Encode.{encoded, encoded-IsByte}
use ceno_reth_benchmark.Hp.Lcp.{Aligned, align}
use ceno_reth_benchmark.Trie.Tree.{
  Tree, null, branch, leaf, extension, Kids, end, absent, child, mem, kids_mem, slots, id_of, Wf,
  KidsWf,
}
use ceno_reth_benchmark.Trie.Spec.{
  Changed, leaf_insert, extension_insert, rest_of, next_after, tree_insert, kids_insert,
}
use ceno_reth_benchmark.Trie.Spec.Paths.{prefix_to_nibs-IsNib, not_resolved-Ensures}
use ceno_reth_benchmark.Trie.Spec.ForkWf.{fork-IsFork}

abbrev pub IsBounded : ℕ → Tree → Type 0
IsBounded n t = (j : ℕ) → mem j t ≡ true → j < n

abbrev KidsIsBounded : ℕ → Kids → Type 0
KidsIsBounded n ks = (j : ℕ) → kids_mem j ks ≡ true → j < n

-- `n` is the first index that is free.
pub record Grows (n : ℕ) (t : Tree) (r : Bool × Tree) : Type 0 where
  pub wf : Wf r.1
  pub id : id_of r.1 ≡ id_of t
  pub fresh : (j : ℕ) → mem j r.1 ≡ true → mem j t ≡ false → (n ≤ j) × (j < n + 3)
  pub same : r.0 ≡ false → r.1 ≡ t

record KidsGrows (n : ℕ) (ks : Kids) (r : Bool × Kids) : Type 0 where
  wf : KidsWf r.1
  size : length (slots r.1) ≡ length (slots ks)
  fresh : (j : ℕ) → kids_mem j r.1 ≡ true → kids_mem j ks ≡ false → (n ≤ j) × (j < n + 3)
  same : r.0 ≡ false → r.1 ≡ ks

module _ (i n : ℕ) (p v : List ℕ) where
  leaf_insert-Grows :
      (old c left right : List ℕ)
      → i < n
      → All IsByte p
      → All IsNib c
      → All IsNib left
      → All IsNib right
      → Ensures (Grows n (leaf i p old)) (leaf_insert i p old v n c left right)
  unfolding leaf_insert
  leaf_insert-Grows old c [] [] h hp hc hl hr = elim (Bool-cases (bytes_eq old v)) [
    | inl same ↦
        rw same (on_ok (record { wf = hp; id = refl; fresh = λ j m o. cc; same = λ d. refl }))
    | inr differ ↦
        rw differ (on_ok (record { wf = hp; id = refl; fresh = λ j m o. cc; same = λ d. cc }))
  ]
  leaf_insert-Grows old c [] (y ∷ right) h hp hc hl hr = on_err
  leaf_insert-Grows old c (x ∷ left) [] h hp hc hl hr = on_err
  leaf_insert-Grows old c (x ∷ left) (y ∷ right) h hp hc hl hr =
      Ensures-mono
        (fork-IsFork i c x _ y _ (suc (suc n)) hc (encoded-IsByte left true hl.1)
          (encoded-IsByte right true hr.1) (ground arith) (ground arith, ground arith)
          (ground arith, ground arith) (ground arith))
        λ r f. record {
          wf = f.wf;
          id = f.id;
          fresh = λ j m o. ground (arith, f.from j m);
          same = λ d. cc (f.flag, d);
        }

  extension_insert-Grows :
      (t : Tree) (rec : List ℕ → Changed) (c left right : List ℕ)
      → IsBounded n (extension i p t)
      → Wf (extension i p t)
      → All IsNib c
      → All IsNib left
      → All IsNib right
      → Ensures (Grows n t) (rec right)
      → Ensures (Grows n (extension i p t)) (extension_insert i p t rec v n c left right)
  unfolding extension_insert rest_of next_after
  extension_insert-Grows t rec c [] right h w hc hl hr ih = Ensures-bind ih λ r g. on_ok (record {
    wf = (w.0, ground (arith, g.fresh i, h i), g.wf);
    id = refl;
    fresh = λ j m o. ground (arith, g.fresh j);
    same = λ d. ap (extension i p) (g.same d);
  })
  extension_insert-Grows t rec c (x ∷ left) [] h w hc hl hr ih = on_err
  extension_insert-Grows t rec c (x ∷ []) (y ∷ right) h w hc hl hr ih =
      Ensures-mono
        (fork-IsFork i c x t y _ (suc n) hc w.2 (encoded-IsByte right true hr.1)
          (λ j m. ground (arith, h j)) (w.1, ground (arith, h i))
          (ground (arith, h (suc n)), ground arith) (ground (arith, h i)))
        λ r f. record {
          wf = f.wf;
          id = f.id;
          fresh = λ j m o. ground (arith, f.from j m);
          same = λ d. cc (f.flag, d);
        }
  extension_insert-Grows t rec c (x ∷ z ∷ left) (y ∷ right) h w hc hl hr ih =
      Ensures-mono
        (fork-IsFork i c x (extension n (encoded (z ∷ left) false) t) y _ (suc (suc n)) hc
          (encoded-IsByte (z ∷ left) false hl.1, ground (arith, h n), w.2)
          (encoded-IsByte right true hr.1) (λ j m. ground (arith, h j))
          (ground (arith, h i), ground (arith, h i)) (ground (arith, h (suc (suc n))), ground arith)
          (ground (arith, h i)))
        λ r f. record {
          wf = f.wf;
          id = f.id;
          fresh = λ j m o. ground (arith, f.from j m);
          same = λ d. cc (f.flag, d);
        }

  module _ (key : List ℕ) (a : Aligned (prefix_to_nibs p) key) where
    leaf_aligned-Grows :
        (old : List ℕ)
        → i < n
        → All IsByte p
        → All IsNib key
        → Ensures (Grows n (leaf i p old)) (leaf_insert i p old v n a.common a.left a.right)
    leaf_aligned-Grows old h hp nk =
        let np = subst (All IsNib) a.left_eq (prefix_to_nibs-IsNib p hp) in
        let nq = subst (All IsNib) a.right_eq nk in
        leaf_insert-Grows old a.common a.left a.right h hp
          (All-append_left IsNib a.common a.left np) (All-append_right IsNib a.common a.left np)
          (All-append_right IsNib a.common a.right nq)

    extension_aligned-Grows :
        (t : Tree) (rec : List ℕ → Changed)
        → IsBounded n (extension i p t)
        → Wf (extension i p t)
        → All IsNib key
        → ((k : List ℕ) → All IsNib k → Ensures (Grows n t) (rec k))
        → Ensures
            (Grows n (extension i p t))
            (extension_insert i p t rec v n a.common a.left a.right)
    extension_aligned-Grows t rec h w nk ih =
        let np = subst (All IsNib) a.left_eq (prefix_to_nibs-IsNib p w.0) in
        let nq = subst (All IsNib) a.right_eq nk in
        let nr = All-append_right IsNib a.common a.right nq in
        extension_insert-Grows t rec a.common a.left a.right h w
          (All-append_left IsNib a.common a.left np) (All-append_right IsNib a.common a.left np) nr
          (ih a.right nr)

under_branch-Grows :
    (i n : ℕ) (ks : Kids) (r : Bool × Kids)
    → IsBounded n (branch i ks)
    → Wf (branch i ks)
    → KidsGrows n ks r
    → Grows n (branch i ks) (r.0, branch i r.1)
under_branch-Grows i n ks r h w g = record {
  wf = (g.size ∙ w.0, ground (arith, g.fresh i, h i), g.wf);
  id = refl;
  fresh = λ j m o. ground (arith, g.fresh j);
  same = λ d. ap (branch i) (g.same d);
}

here_absent-Grows :
    (n : ℕ) (key v : List ℕ) (ks : Kids)
    → KidsIsBounded n ks
    → KidsWf ks
    → All IsNib key
    → KidsGrows n (absent ks) (true, child (leaf n (encoded key true) v) ks)
here_absent-Grows n key v ks h w nk = record {
  wf = (encoded-IsByte key true nk, w, λ j m. ground (arith, h j));
  size = refl;
  fresh = λ j m o. ground arith;
  same = λ d. cc;
}

here_child-Grows :
    (n : ℕ) (t : Tree) (ks : Kids) (r : Bool × Tree)
    → KidsIsBounded n (child t ks)
    → KidsWf (child t ks)
    → Grows n t r
    → KidsGrows n (child t ks) (r.0, child r.1 ks)
here_child-Grows n t ks r h w g = record {
  wf = (g.wf, w.1, λ j m. ground (arith, w.2 j, g.fresh j m, h j));
  size = refl;
  fresh = λ j m o. ground (arith, g.fresh j);
  same = λ d. ap (λ u. child u ks) (g.same d);
}

skip_absent-Grows :
    (n : ℕ) (ks : Kids) (r : Bool × Kids)
    → KidsGrows n ks r
    → KidsGrows n (absent ks) (r.0, absent r.1)
skip_absent-Grows n ks r g = record {
  wf = g.wf;
  size = ap suc g.size;
  fresh = g.fresh;
  same = λ d. ap absent (g.same d);
}

skip_child-Grows :
    (n : ℕ) (t : Tree) (ks : Kids) (r : Bool × Kids)
    → KidsIsBounded n (child t ks)
    → KidsWf (child t ks)
    → KidsGrows n ks r
    → KidsGrows n (child t ks) (r.0, child t r.1)
skip_child-Grows n t ks r h w g = record {
  wf = (w.0, g.wf, λ j m. ground (arith, w.2 j m, g.fresh j, h j));
  size = ap suc g.size;
  fresh = λ j m o. ground (arith, g.fresh j);
  same = λ d. ap (child t) (g.same d);
}

mutual
  unfolding tree_insert

  insert-Grows :
      (t : Tree) (key v : List ℕ) (n : ℕ)
      → IsBounded n t
      → Wf t
      → All IsNib key
      → Ensures (Grows n t) (tree_insert t key v n)
  insert-Grows (null i) key v n h w nk =
      on_ok
        (record { wf = encoded-IsByte key true nk; id = refl; fresh = λ j m o. cc; same = λ d. cc })
  insert-Grows (branch i ks) [] v n h w nk = on_err
  insert-Grows (branch i ks) (x ∷ key) v n h w nk =
      Ensures-bind (kids_insert-Grows ks x key v n (λ j m. h j (ground arith)) w.2 nk.1)
        λ r g. on_ok (under_branch-Grows i n ks r h w g)
  insert-Grows (leaf i p old) key v n h w nk =
      leaf_aligned-Grows i n p v key (align (prefix_to_nibs p) key) old (h i (ground arith)) w nk
  insert-Grows (extension i p t) key v n h w nk =
      extension_aligned-Grows i n p v key (align (prefix_to_nibs p) key) t _ h w nk
        λ k nk'. insert-Grows t k v n (λ j m. h j (ground arith)) w.2 nk'
  insert-Grows (Tree.digest i d) key v n h w nk = not_resolved-Ensures d

  kids_insert-Grows :
      (ks : Kids) (x : ℕ) (key v : List ℕ) (n : ℕ)
      → KidsIsBounded n ks
      → KidsWf ks
      → All IsNib key
      → Ensures (KidsGrows n ks) (kids_insert ks x key v n)
  kids_insert-Grows end x key v n h w nk = on_panic
  kids_insert-Grows (absent ks) zero key v n h w nk = on_ok (here_absent-Grows n key v ks h w nk)
  kids_insert-Grows (absent ks) (suc x) key v n h w nk =
      Ensures-bind (kids_insert-Grows ks x key v n h w nk) λ r g. on_ok (skip_absent-Grows n ks r g)
  kids_insert-Grows (child t ks) zero key v n h w nk =
      Ensures-bind (insert-Grows t key v n (λ j m. h j (ground arith)) w.0 nk)
        λ r g. on_ok (here_child-Grows n t ks r h w g)
  kids_insert-Grows (child t ks) (suc x) key v n h w nk =
      Ensures-bind (kids_insert-Grows ks x key v n (λ j m. h j (ground arith)) w.1 nk)
        λ r g. on_ok (skip_child-Grows n t ks r h w g)

pub tree_insert-Grows :
    (t : Tree) (key v : List ℕ) (n : ℕ)
    → IsBounded n t
    → Wf t
    → All IsNib key
    → Ensures (Grows n t) (tree_insert t key v n)
tree_insert-Grows t key v n h w nk = insert-Grows t key v n h w nk
