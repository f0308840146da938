-- ===== src/Trie/Spec/Canon.antt =====
-- The shape that the operations keep: no branch with fewer than two children, no extension over a
-- leaf or an extension, no empty node below the root.
use ceno_reth_benchmark.Base.{
  ℕ, zero, suc, ◌≤◌, ◌<◌, ◌≡◌, ◌≢◌, refl, ap, ◌∙◌, Bool, true, false, none, some, List, [], ◌∷◌,
  arith, if◌then◌else◌, length, bytes_eq, All, All-append_right, subst,
}
use ceno_reth_benchmark.Base.Result.{
  ok, Ensures, on_ok, on_err, on_panic, Ensures-bind, Ensures-mono,
}
use ceno_reth_benchmark.Hp.{IsNib, prefix_to_nibs}
use ceno_reth_benchmark.Hp.Encode.{encoded}
use ceno_reth_benchmark.Hp.Lcp.{align, Apart}
use ceno_reth_benchmark.Trie.{Error}
use ceno_reth_benchmark.Trie.Tree.{
  Tree, null, branch, leaf, extension, Kids, end, absent, child, slots, Wf, KidsWf,
}
use ceno_reth_benchmark.Trie.Spec.{
  Changed, leaf_insert, extension_insert, fork, all_absent, rest_of, next_after, tree_insert,
  kids_insert, wrap,
}
use ceno_reth_benchmark.Trie.Slots.{put, kid_at}
use ceno_reth_benchmark.Trie.Spec.Paths.{prefix_to_nibs-IsNib, not_resolved-Ensures}
use ceno_reth_benchmark.Trie.Spec.Returns.{fork-put}

abbrev pub num_kids : Kids → ℕ
num_kids end = 0
num_kids (absent ks) = num_kids ks
num_kids (child t ks) = suc (num_kids ks)

-- What may stand below an extension.
abbrev pub IsBody : Tree → Type 0
IsBody (branch i ks) = Unit
IsBody (Tree.digest i d) = Unit
IsBody _ = ⊥

abbrev mutual
  pub Canon : Tree → Type 0
  Canon (null i) = ⊥
  Canon (branch i ks) = (2 ≤ num_kids ks) × KidsCanon ks
  Canon (leaf i p v) = Unit
  Canon (extension i p t) = IsBody t × Canon t
  Canon (Tree.digest i d) = Unit

  pub KidsCanon : Kids → Type 0
  KidsCanon end = Unit
  KidsCanon (absent ks) = KidsCanon ks
  KidsCanon (child t ks) = Canon t × KidsCanon ks

-- A whole trie may be empty.
abbrev pub RootCanon : Tree → Type 0
RootCanon (null i) = Unit
RootCanon t = Canon t

pub Canon-RootCanon : (t : Tree) → Canon t → RootCanon t
Canon-RootCanon (null i) c = tt
Canon-RootCanon (branch i ks) c = c
Canon-RootCanon (leaf i p v) c = c
Canon-RootCanon (extension i p t) c = c
Canon-RootCanon (Tree.digest i d) c = c

put-KidsCanon :
    (ks : Kids) (x : ℕ) (t : Tree) → KidsCanon ks → Canon t → KidsCanon (put ks x (some t))
unfolding put
put-KidsCanon end x t c h = tt
put-KidsCanon (absent ks) zero t c h = (h, c)
put-KidsCanon (absent ks) (suc x) t c h = put-KidsCanon ks x t c h
put-KidsCanon (child u ks) zero t c h = (h, c.1)
put-KidsCanon (child u ks) (suc x) t c h = (c.0, put-KidsCanon ks x t c.1 h)

num_kids-put :
    (ks : Kids) (x : ℕ) (t : Tree)
    → kid_at ks x ≡ some none
    → num_kids (put ks x (some t)) ≡ suc (num_kids ks)
unfolding put kid_at
num_kids-put end x t e = cc
num_kids-put (absent ks) zero t e = refl
num_kids-put (absent ks) (suc x) t e = num_kids-put ks x t e
num_kids-put (child u ks) zero t e = cc
num_kids-put (child u ks) (suc x) t e = ap suc (num_kids-put ks x t e)

kid_at-put : (ks : Kids) (x y : ℕ) (t : Tree) → x ≢ y → kid_at (put ks x (some t)) y ≡ kid_at ks y
unfolding put kid_at
kid_at-put end x y t h = refl
kid_at-put (absent ks) zero zero t h = absurd (h refl)
kid_at-put (absent ks) zero (suc y) t h = refl
kid_at-put (absent ks) (suc x) zero t h = refl
kid_at-put (absent ks) (suc x) (suc y) t h = kid_at-put ks x y t λ e. h (ap suc e)
kid_at-put (child u ks) zero zero t h = absurd (h refl)
kid_at-put (child u ks) zero (suc y) t h = refl
kid_at-put (child u ks) (suc x) zero t h = refl
kid_at-put (child u ks) (suc x) (suc y) t h = kid_at-put ks x y t λ e. h (ap suc e)

kid_at-none :
    (ks : Kids) (x : ℕ) → num_kids ks ≡ 0 → x < length (slots ks) → kid_at ks x ≡ some none
unfolding kid_at
kid_at-none end x e h = absurd (omega arith)
kid_at-none (absent ks) zero e h = refl
kid_at-none (absent ks) (suc x) e h = kid_at-none ks x e (omega arith)
kid_at-none (child u ks) x e h = absurd (omega arith)

wrap-Canon :
    (i : ℕ) (c : List ℕ) (ks : Kids) (n : ℕ)
    → (2 ≤ num_kids ks) × KidsCanon ks
    → Canon (wrap i c ks n)
unfolding wrap
wrap-Canon i [] ks n h = h
wrap-Canon i (z ∷ c) ks n h = (tt, h)

pub fork-Canon :
    (i : ℕ) (c : List ℕ) (x : ℕ) (tx : Tree) (y : ℕ) (ty : Tree) (n : ℕ)
    → IsNib x
    → IsNib y
    → x ≢ y
    → Canon tx
    → Canon ty
    → Ensures (λ r. Canon r.1) (fork i c x tx y ty n)
fork-Canon i c x tx y ty n hx hy far cx cy =
    let k1 = put all_absent x (some tx) in
    let k2 = put k1 y (some ty) in
    let n1 = num_kids-put all_absent x tx (kid_at-none all_absent x refl hx) in
    let free : kid_at k1 y ≡ some none =
      kid_at-put all_absent x y tx far ∙ kid_at-none all_absent y refl hy in
    let n2 = num_kids-put k1 y ty free in
    let ck = put-KidsCanon k1 y ty (put-KidsCanon all_absent x tx tt cx) cy in
    rw (fork-put i c x tx y ty n hx hy) (on_ok (wrap-Canon i c k2 n (omega arith, ck)))

abbrev pub Shape : Tree → Bool × Tree → Type 0
Shape t r = Canon r.1 × (IsBody t → IsBody r.1)

leaf_insert-Canon :
    (i : ℕ) (p old v : List ℕ) (n : ℕ) (c left right : List ℕ)
    → Apart left right
    → All IsNib left
    → All IsNib right
    → Ensures (Shape (leaf i p old)) (leaf_insert i p old v n c left right)
unfolding leaf_insert
leaf_insert-Canon i p old v n c [] [] a hl hr = go (bytes_eq old v)
  where
    go :
        (b : Bool)
        → Ensures {E = Error}
            (Shape (leaf i p old))
            (if b then ok (false, leaf i p old) else ok (true, leaf i p v))
    go true = on_ok (tt, λ h. h)
    go false = on_ok (tt, λ h. h)
leaf_insert-Canon i p old v n c [] (y ∷ right) a hl hr = on_err
leaf_insert-Canon i p old v n c (x ∷ left) [] a hl hr = on_err
leaf_insert-Canon i p old v n c (x ∷ left) (y ∷ right) a hl hr =
    Ensures-mono
      (fork-Canon i c x (leaf n (encoded left true) old) y (leaf (suc n) (encoded right true) v)
        (suc (suc n)) hl.0 hr.0 a tt tt)
      λ r h. (h, λ b. absurd b)

rest_of-Canon : (n : ℕ) (left : List ℕ) (t : Tree) → IsBody t → Canon t → Canon (rest_of n left t)
unfolding rest_of
rest_of-Canon n [] t b c = c
rest_of-Canon n (x ∷ left) t b c = (b, c)

extension_insert-Canon :
    (i : ℕ) (p : List ℕ) (t : Tree) (rec : List ℕ → Changed) (v : List ℕ) (n : ℕ)
    (c left right : List ℕ)
    → Apart left right
    → All IsNib left
    → All IsNib right
    → IsBody t
    → Canon t
    → Ensures (Shape t) (rec right)
    → Ensures (Shape (extension i p t)) (extension_insert i p t rec v n c left right)
unfolding extension_insert
extension_insert-Canon i p t rec v n c [] right a hl hr b k h =
    Ensures-bind h λ r s. on_ok ((s.1 b, s.0), λ q. absurd q)
extension_insert-Canon i p t rec v n c (x ∷ left) [] a hl hr b k h = on_err
extension_insert-Canon i p t rec v n c (x ∷ left) (y ∷ right) a hl hr b k h =
    Ensures-mono
      (fork-Canon i c x (rest_of n left t) y (leaf (next_after n left) (encoded right true) v)
        (suc (next_after n left)) hl.0 hr.0 a (rest_of-Canon n left t b k) tt)
      λ r h. (h, λ b. absurd b)

-- No child is lost, and all have the shape.
abbrev KidsShape : Kids → Bool × Kids → Type 0
KidsShape ks r = (num_kids ks ≤ num_kids r.1) × KidsCanon r.1

mutual
  unfolding tree_insert kids_insert

  insert-Canon :
      (t : Tree) (key v : List ℕ) (n : ℕ)
      → Wf t
      → All IsNib key
      → Canon t
      → Ensures (Shape t) (tree_insert t key v n)
  insert-Canon (null i) key v n w nk c = absurd c
  insert-Canon (branch i ks) [] v n w nk c = on_err
  insert-Canon (branch i ks) (x ∷ key) v n w nk c =
      Ensures-bind (kids_insert_canon ks x key v n w.2 nk.1 c.1)
        λ r k. on_ok ((omega (arith, k.0, c.0), k.1), λ b. tt)
  insert-Canon (leaf i p old) key v n w nk c =
      let a = align (prefix_to_nibs p) key in
      leaf_insert-Canon i p old v n a.common a.left a.right a.apart
        (All-append_right IsNib a.common a.left
          (subst (All IsNib) a.left_eq (prefix_to_nibs-IsNib p w)))
        (All-append_right IsNib a.common a.right (subst (All IsNib) a.right_eq nk))
  insert-Canon (extension i p t) key v n w nk c =
      let a = align (prefix_to_nibs p) key in
      let nr = All-append_right IsNib a.common a.right (subst (All IsNib) a.right_eq nk) in
      extension_insert-Canon i p t (λ k. tree_insert t k v n) v n a.common a.left a.right a.apart
        (All-append_right IsNib a.common a.left
          (subst (All IsNib) a.left_eq (prefix_to_nibs-IsNib p w.0)))
        nr c.0 c.1 (insert-Canon t a.right v n w.2 nr c.1)
  insert-Canon (Tree.digest i d) key v n w nk c = not_resolved-Ensures d

  kids_insert_canon :
      (ks : Kids) (x : ℕ) (key v : List ℕ) (n : ℕ)
      → KidsWf ks
      → All IsNib key
      → KidsCanon ks
      → Ensures (KidsShape ks) (kids_insert ks x key v n)
  kids_insert_canon end x key v n w nk c = on_panic
  kids_insert_canon (absent ks) zero key v n w nk c = on_ok (omega arith, (tt, c))
  kids_insert_canon (absent ks) (suc x) key v n w nk c =
      Ensures-bind (kids_insert_canon ks x key v n w nk c) λ r k. on_ok (k.0, k.1)
  kids_insert_canon (child t ks) zero key v n w nk c =
      Ensures-bind (insert-Canon t key v n w.0 nk c.0) λ r k. on_ok (omega arith, (k.0, c.1))
  kids_insert_canon (child t ks) (suc x) key v n w nk c =
      Ensures-bind (kids_insert_canon ks x key v n w.1 nk c.1)
        λ r k. on_ok (omega (arith, k.0), (c.0, k.1))

pub tree_insert-RootCanon :
    (t : Tree) (key v : List ℕ) (n : ℕ)
    → Wf t
    → All IsNib key
    → RootCanon t
    → Ensures (λ r. RootCanon r.1) (tree_insert t key v n)
unfolding tree_insert
tree_insert-RootCanon (null i) key v n w nk c = on_ok tt
tree_insert-RootCanon (branch i ks) key v n w nk c =
    Ensures-mono (insert-Canon (branch i ks) key v n w nk c) λ r s. Canon-RootCanon r.1 s.0
tree_insert-RootCanon (leaf i p u) key v n w nk c =
    Ensures-mono (insert-Canon (leaf i p u) key v n w nk c) λ r s. Canon-RootCanon r.1 s.0
tree_insert-RootCanon (extension i p t) key v n w nk c =
    Ensures-mono (insert-Canon (extension i p t) key v n w nk c) λ r s. Canon-RootCanon r.1 s.0
tree_insert-RootCanon (Tree.digest i d) key v n w nk c =
    Ensures-mono (insert-Canon (Tree.digest i d) key v n w nk c) λ r s. Canon-RootCanon r.1 s.0
