-- ===== src/Trie/Spec/InsertGet.antt =====
-- Lookups in a tree after an insertion.
use ceno_reth_benchmark.Base.{
  ℕ, zero, suc, ◌≡◌, refl, sym, subst, ◌∙◌, ◌≢◌, inl, inr, Bool-cases, Bool, true, false, Option,
  none, some, List, [], ◌∷◌, ◌++◌, ◌==◌, if◌then◌else◌, bytes_eq, bytes_eq→eq, All, arith,
  append-nil, All-append_left, All-append_right,
}
use ceno_reth_benchmark.Base.Result.{
  ok, Ensures, on_ok, on_err, on_panic, Ensures-bind, Ensures-mono,
}
use ceno_reth_benchmark.Hp.{IsByte, IsNib, prefix_to_nibs}
use ceno_reth_benchmark.Hp.Compare.{strip_prefix}
use ceno_reth_benchmark.Hp.Encode.{encoded, prefix_to_nibs-encoded}
use ceno_reth_benchmark.Hp.Lcp.{Aligned, align, Apart}
use ceno_reth_benchmark.Trie.Tree.{
  Tree, null, branch, leaf, extension, Kids, end, absent, child, Wf, KidsWf,
}
use ceno_reth_benchmark.Trie.Spec.{
  get_below, leaf_get, tree_get, kids_get, leaf_insert, extension_insert, rest_of, next_after,
  Changed, tree_insert, kids_insert,
}
use ceno_reth_benchmark.Trie.Spec.Paths.{
  prefix_to_nibs-IsNib, eq_below, strip_below, bytes_eq-append, strip_prefix-append_left,
  strip_prefix-IsNib, not_resolved-Ensures, two_get, fork-Forked,
}

-- After the insertion the key has the value, and every other key is as before.
abbrev pub Inserted : Tree → List ℕ → List ℕ → Bool × Tree → Type 0
Inserted t key v (b, t') =
    (k : List ℕ)
    → All IsNib k
    → tree_get t' k ≡ (if bytes_eq key k then ok (some v) else tree_get t k)

abbrev KidsInserted : Kids → ℕ → List ℕ → List ℕ → Bool × Kids → Type 0
KidsInserted ks x key v (b, ks') =
    (z : ℕ) (k : List ℕ)
    → All IsNib k
    → kids_get ks' z k ≡ (
        if z == x
        then (if bytes_eq key k then ok (some v) else kids_get ks z k)
        else kids_get ks z k)

tree_get-leaf_encoded :
    (i : ℕ) (nibs v k : List ℕ)
    → All IsNib nibs
    → tree_get (leaf i (encoded nibs true) v) k ≡ leaf_get nibs v k
unfolding tree_get
tree_get-leaf_encoded i nibs v k h = rw (prefix_to_nibs-encoded nibs true h)

tree_get-rest_of :
    (n : ℕ) (left : List ℕ) (t : Tree) (k : List ℕ)
    → All IsNib left
    → tree_get (rest_of n left t) k ≡ get_below (tree_get t) (strip_prefix left k)
unfolding tree_get rest_of strip_prefix
tree_get-rest_of n [] t k h = refl
tree_get-rest_of n (x ∷ left) t k h = rw (prefix_to_nibs-encoded (x ∷ left) false h)

module _ (x y : ℕ) (left right v : List ℕ) (differ : x ≢ y) (tx ty : Tree) where
  leaf_fork :
      (old : List ℕ)
      → ((k : List ℕ) → tree_get tx k ≡ leaf_get left old k)
      → ((k : List ℕ) → tree_get ty k ≡ leaf_get right v k)
      → (o : Option (List ℕ))
      → get_below (two_get x tx y ty) o ≡ (
          if eq_below (y ∷ right) o
          then ok (some v)
          else ok (if eq_below (x ∷ left) o then some old else none))
  unfolding bytes_eq
  leaf_fork old hx hy none = refl
  leaf_fork old hx hy (some []) = refl
  leaf_fork old hx hy (some (z ∷ k)) = ground (arith, hx k, hy k)

  extension_fork :
      (t : Tree)
      → ((k : List ℕ) → tree_get tx k ≡ get_below (tree_get t) (strip_prefix left k))
      → ((k : List ℕ) → tree_get ty k ≡ leaf_get right v k)
      → (o : Option (List ℕ))
      → get_below (two_get x tx y ty) o ≡ (
          if eq_below (y ∷ right) o
          then ok (some v)
          else get_below (tree_get t) (strip_below (x ∷ left) o))
  unfolding bytes_eq strip_prefix
  extension_fork t hx hy none = refl
  extension_fork t hx hy (some []) = refl
  extension_fork t hx hy (some (z ∷ k)) = ground (arith, hx k, hy k)

module _ (i n : ℕ) (p v : List ℕ) where
  leaf_insert-Inserted :
      (old c left right : List ℕ)
      → prefix_to_nibs p ≡ c ++ left
      → All IsNib c
      → All IsNib left
      → All IsNib right
      → Apart left right
      → Ensures (Inserted (leaf i p old) (c ++ right) v) (leaf_insert i p old v n c left right)
  unfolding leaf_insert tree_get
  leaf_insert-Inserted old c [] [] e hc hl hr d = elim (Bool-cases (bytes_eq old v)) [
    | inl same ↦ rw same (on_ok λ k nk. rw e (ground (arith, bytes_eq→eq old v)))
    | inr differ ↦ rw differ (on_ok λ k nk. rw e (ground arith))
  ]
  leaf_insert-Inserted old c [] (y ∷ right) e hc hl hr d = on_err
  leaf_insert-Inserted old c (x ∷ left) [] e hc hl hr d = on_err
  leaf_insert-Inserted old c (x ∷ left) (y ∷ right) e hc hl hr d =
      Ensures-mono (fork-Forked i c x _ y _ (suc (suc n)) hc) λ r h k nk.
        h k nk
        ∙ leaf_fork x y left right v d (leaf n (encoded left true) old)
            (leaf (suc n) (encoded right true) v) old (λ k. tree_get-leaf_encoded n left old k hl.1)
            (λ k. tree_get-leaf_encoded (suc n) right v k hr.1) (strip_prefix c k)
        ∙ rw (e, bytes_eq-append c (y ∷ right) k, bytes_eq-append c (x ∷ left) k)

  extension_below :
      (t t' : Tree) (right k : List ℕ) (o : Option (List ℕ))
      → ((tail : List ℕ)
          → o ≡ some tail
          → tree_get t' tail ≡ (if bytes_eq right tail then ok (some v) else tree_get t tail))
      → get_below (tree_get t') o
        ≡ (if eq_below right o then ok (some v) else get_below (tree_get t) o)
  extension_below t t' right k none h = refl
  extension_below t t' right k (some tail) h = h tail refl

  extension_insert-Inserted :
      (t : Tree) (rec : List ℕ → Changed) (c left right : List ℕ)
      → prefix_to_nibs p ≡ c ++ left
      → All IsNib c
      → All IsNib left
      → All IsNib right
      → Apart left right
      → Ensures (Inserted t right v) (rec right)
      → Ensures
          (Inserted (extension i p t) (c ++ right) v)
          (extension_insert i p t rec v n c left right)
  unfolding extension_insert tree_get
  extension_insert-Inserted t rec c [] right e hc hl hr d ih = Ensures-bind ih λ r h. on_ok λ k nk.
      rw (e, append-nil c, bytes_eq-append c right k)
        (extension_below t r.1 right k (strip_prefix c k)
          λ tail s. h tail (strip_prefix-IsNib c k nk s))
  extension_insert-Inserted t rec c (x ∷ left) [] e hc hl hr d ih = on_err
  extension_insert-Inserted t rec c (x ∷ left) (y ∷ right) e hc hl hr d ih =
      Ensures-mono (fork-Forked i c x _ y _ _ hc) λ r h k nk.
        h k nk
        ∙ extension_fork x y left right v d (rest_of n left t)
            (leaf (next_after n left) (encoded right true) v) t
            (λ k. tree_get-rest_of n left t k hl.1)
            (λ k. tree_get-leaf_encoded (next_after n left) right v k hr.1) (strip_prefix c k)
        ∙ rw (e, bytes_eq-append c (y ∷ right) k, strip_prefix-append_left c (x ∷ left) k)

  module _ (key : List ℕ) (a : Aligned (prefix_to_nibs p) key) where
    at_key :
        (t : Tree) (r : Changed)
        → Ensures (Inserted t (a.common ++ a.right) v) r
        → Ensures (Inserted t key v) r
    at_key t r = subst (λ q. Ensures (Inserted t q v) r) (sym a.right_eq)

    leaf_insert-aligned :
        (old : List ℕ)
        → All IsByte p
        → All IsNib key
        → Ensures (Inserted (leaf i p old) key v) (leaf_insert i p old v n a.common a.left a.right)
    leaf_insert-aligned old hp nk =
        let np = subst (All IsNib) a.left_eq (prefix_to_nibs-IsNib p hp) in
        let nq = subst (All IsNib) a.right_eq nk in
        at_key _ _ (
          leaf_insert-Inserted old a.common a.left a.right a.left_eq
            (All-append_left IsNib a.common a.left np) (All-append_right IsNib a.common a.left np)
            (All-append_right IsNib a.common a.right nq) a.apart)

    extension_insert-aligned :
        (t : Tree) (rec : List ℕ → Changed)
        → All IsByte p
        → All IsNib key
        → ((k : List ℕ) → All IsNib k → Ensures (Inserted t k v) (rec k))
        → Ensures
            (Inserted (extension i p t) key v)
            (extension_insert i p t rec v n a.common a.left a.right)
    extension_insert-aligned t rec hp nk ih =
        let np = subst (All IsNib) a.left_eq (prefix_to_nibs-IsNib p hp) in
        let nq = subst (All IsNib) a.right_eq nk in
        let nr = All-append_right IsNib a.common a.right nq in
        at_key _ _ (
          extension_insert-Inserted t rec a.common a.left a.right a.left_eq
            (All-append_left IsNib a.common a.left np) (All-append_right IsNib a.common a.left np)
            nr a.apart (ih a.right nr))

under_branch :
    (i x : ℕ) (key v : List ℕ) (ks : Kids) (r : Bool × Kids)
    → KidsInserted ks x key v r
    → Inserted (branch i ks) (x ∷ key) v (r.0, branch i r.1)
unfolding tree_get bytes_eq
under_branch i x key v ks r h [] nk = refl
under_branch i x key v ks r h (z ∷ k) nk = ground (arith, h z k nk.1)

here_absent :
    (n : ℕ) (key v : List ℕ) (ks : Kids)
    → All IsNib key
    → KidsInserted (absent ks) zero key v (true, child (leaf n (encoded key true) v) ks)
unfolding kids_get
here_absent n key v ks h zero k nk = ground (arith, tree_get-leaf_encoded n key v k h)
here_absent n key v ks h (suc z) k nk = ground arith

here_child :
    (key v : List ℕ) (t : Tree) (ks : Kids) (r : Bool × Tree)
    → Inserted t key v r
    → KidsInserted (child t ks) zero key v (r.0, child r.1 ks)
unfolding kids_get
here_child key v t ks r h zero k nk = ground (arith, h k nk)
here_child key v t ks r h (suc z) k nk = ground arith

skip_absent :
    (x : ℕ) (key v : List ℕ) (ks : Kids) (r : Bool × Kids)
    → KidsInserted ks x key v r
    → KidsInserted (absent ks) (suc x) key v (r.0, absent r.1)
unfolding kids_get
skip_absent x key v ks r h zero k nk = ground arith
skip_absent x key v ks r h (suc z) k nk = ground (arith, h z k nk)

skip_child :
    (x : ℕ) (key v : List ℕ) (t : Tree) (ks : Kids) (r : Bool × Kids)
    → KidsInserted ks x key v r
    → KidsInserted (child t ks) (suc x) key v (r.0, child t r.1)
unfolding kids_get
skip_child x key v t ks r h zero k nk = ground arith
skip_child x key v t ks r h (suc z) k nk = ground (arith, h z k nk)

mutual
  unfolding tree_insert tree_get bytes_eq

  tree_insert-Ensures :
      (t : Tree) (key v : List ℕ) (n : ℕ)
      → Wf t
      → All IsNib key
      → Ensures (Inserted t key v) (tree_insert t key v n)
  tree_insert-Ensures (null i) key v n w nk =
      on_ok λ k _. rw (prefix_to_nibs-encoded key true nk) (ground arith)
  tree_insert-Ensures (branch i ks) [] v n w nk = on_err
  tree_insert-Ensures (branch i ks) (x ∷ key) v n w nk =
      Ensures-bind (kids_insert-Ensures ks x key v n w.2 nk.1)
        λ r h. on_ok (under_branch i x key v ks r h)
  tree_insert-Ensures (leaf i p old) key v n w nk =
      leaf_insert-aligned i n p v key (align (prefix_to_nibs p) key) old w nk
  tree_insert-Ensures (extension i p t) key v n w nk =
      extension_insert-aligned i n p v key (align (prefix_to_nibs p) key) t _ w.0 nk
        λ k h. tree_insert-Ensures t k v n w.2 h
  tree_insert-Ensures (Tree.digest i d) key v n w nk = not_resolved-Ensures d

  kids_insert-Ensures :
      (ks : Kids) (x : ℕ) (key v : List ℕ) (n : ℕ)
      → KidsWf ks
      → All IsNib key
      → Ensures (KidsInserted ks x key v) (kids_insert ks x key v n)
  kids_insert-Ensures end x key v n w nk = on_panic
  kids_insert-Ensures (absent ks) zero key v n w nk = on_ok (here_absent n key v ks nk)
  kids_insert-Ensures (absent ks) (suc x) key v n w nk =
      Ensures-bind (kids_insert-Ensures ks x key v n w nk) λ r h. on_ok (skip_absent x key v ks r h)
  kids_insert-Ensures (child t ks) zero key v n w nk =
      Ensures-bind (tree_insert-Ensures t key v n w.0 nk) λ r h. on_ok (here_child key v t ks r h)
  kids_insert-Ensures (child t ks) (suc x) key v n w nk =
      Ensures-bind (kids_insert-Ensures ks x key v n w.1 nk)
        λ r h. on_ok (skip_child x key v t ks r h)

pub tree_insert-Inserted :
    (t : Tree) (key v : List ℕ) (n : ℕ)
    → Wf t
    → All IsNib key
    → Ensures (Inserted t key v) (tree_insert t key v n)
tree_insert-Inserted t key v n w nk = tree_insert-Ensures t key v n w nk
