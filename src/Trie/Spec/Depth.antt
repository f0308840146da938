-- ===== src/Trie/Spec/Depth.antt =====
-- Tries whose keys have one length, as those of the state and of the storage do: an insertion finds no
-- key that ends where another goes on.
use ceno_reth_benchmark.Base.{
  ℕ, zero, suc, ◌+◌, ◌-◌, ◌≤◌, ◌<◌, ◌≡◌, sym, subst, ap, Bool, true, false, some, List, [], ◌∷◌,
  ◌++◌, All, arith, if◌then◌else◌, length, length-append, bytes_eq, All-append_left,
  All-append_right,
}
use ceno_reth_benchmark.Base.Result.{ok, Returns, returns, Returns-bind}
use ceno_reth_benchmark.Hp.{IsNib, prefix_to_nibs}
use ceno_reth_benchmark.Hp.Encode.{encoded, prefix_to_nibs-encoded}
use ceno_reth_benchmark.Hp.Lcp.{align}
use ceno_reth_benchmark.Trie.{Error}
use ceno_reth_benchmark.Trie.Tree.{
  Tree, null, branch, leaf, extension, Kids, end, absent, child, slots, Wf, KidsWf,
}
use ceno_reth_benchmark.Trie.Spec.{
  Changed, leaf_insert, extension_insert, rest_of, next_after, wrap, tree_insert, kids_insert,
  all_absent,
}
use ceno_reth_benchmark.Trie.Spec.Paths.{prefix_to_nibs-IsNib}
use ceno_reth_benchmark.Trie.Spec.Returns.{IsUnresolved, not_resolved-Returns, fork-put}
use ceno_reth_benchmark.Trie.Slots.{put}

-- Every key below has `n` nibbles.
abbrev mutual
  pub IsDeep : ℕ → Tree → Type 0
  IsDeep n (null i) = Unit
  IsDeep n (branch i ks) = (1 ≤ n) × KidsIsDeep (n - 1) ks
  IsDeep n (leaf i p v) = length (prefix_to_nibs p) ≡ n
  IsDeep n (extension i p t) =
      (length (prefix_to_nibs p) ≤ n) × IsDeep (n - length (prefix_to_nibs p)) t
  IsDeep n (Tree.digest i d) = Unit

  pub KidsIsDeep : ℕ → Kids → Type 0
  KidsIsDeep n end = Unit
  KidsIsDeep n (absent ks) = KidsIsDeep n ks
  KidsIsDeep n (child t ks) = IsDeep n t × KidsIsDeep n ks

put-KidsIsDeep :
    (n : ℕ) (ks : Kids) (x : ℕ) (t : Tree)
    → KidsIsDeep n ks
    → IsDeep n t
    → KidsIsDeep n (put ks x (some t))
unfolding put
put-KidsIsDeep n end x t d h = tt
put-KidsIsDeep n (absent ks) zero t d h = (h, d)
put-KidsIsDeep n (absent ks) (suc x) t d h = put-KidsIsDeep n ks x t d h
put-KidsIsDeep n (child u ks) zero t d h = (h, d.1)
put-KidsIsDeep n (child u ks) (suc x) t d h = (d.0, put-KidsIsDeep n ks x t d.1 h)

pub length-encoded :
    (nibs : List ℕ) (is_leaf : Bool)
    → All IsNib nibs
    → length (prefix_to_nibs (encoded nibs is_leaf)) ≡ length nibs
length-encoded nibs is_leaf h = ap length (prefix_to_nibs-encoded nibs is_leaf h)

wrap-IsDeep :
    (n i : ℕ) (c : List ℕ) (ks : Kids) (id : ℕ)
    → All IsNib c
    → length c + 1 ≤ n
    → KidsIsDeep (n - length c - 1) ks
    → IsDeep n (wrap i c ks id)
unfolding wrap
wrap-IsDeep n i [] ks id hc le d =
    let e : n - 0 - 1 ≡ n - 1 = omega arith in (omega arith, subst (λ k. KidsIsDeep k ks) e d)
wrap-IsDeep n i (z ∷ c) ks id hc le d =
    let l = length-encoded (z ∷ c) false hc in
    (omega (arith, l), (omega (arith, l), subst (λ k. KidsIsDeep (n - k - 1) ks) (sym l) d))

-- Two subtrees of one depth behind a common path.
two-IsDeep :
    (n i : ℕ) (c : List ℕ) (x : ℕ) (tx : Tree) (y : ℕ) (ty : Tree) (id : ℕ)
    → All IsNib c
    → length c + 1 ≤ n
    → IsDeep (n - length c - 1) tx
    → IsDeep (n - length c - 1) ty
    → IsDeep n (wrap i c (put (put all_absent x (some tx)) y (some ty)) id)
two-IsDeep n i c x tx y ty id hc le dx dy =
    let k = n - length c - 1 in
    wrap-IsDeep n i c (put (put all_absent x (some tx)) y (some ty)) id hc le (
      put-KidsIsDeep k (put all_absent x (some tx)) y ty (put-KidsIsDeep k all_absent x tx tt dx)
        dy)

Deep : ℕ → Bool × Tree → Type 0
Deep n r = IsDeep n r.1

leaf_insert-Deep :
    (n i : ℕ) (p old v : List ℕ) (id : ℕ) (c left right : List ℕ)
    → All IsNib c
    → All IsNib left
    → All IsNib right
    → prefix_to_nibs p ≡ c ++ left
    → length (prefix_to_nibs p) ≡ n
    → length (c ++ right) ≡ n
    → Returns (Deep n) IsUnresolved (leaf_insert i p old v id c left right)
unfolding leaf_insert Deep
leaf_insert-Deep n i p old v id c [] [] hc hl hr e d q = go (bytes_eq old v)
  where
    go :
        (b : Bool)
        → Returns {E = Error}
            (λ (r : Bool × Tree). IsDeep n r.1)
            IsUnresolved
            (if b then ok (false, leaf i p old) else ok (true, leaf i p v))
    go true = returns d
    go false = returns d
leaf_insert-Deep n i p old v id c [] (y ∷ right) hc hl hr e d q =
    absurd (omega (arith, length-append c [], length-append c (y ∷ right), ap length e))
leaf_insert-Deep n i p old v id c (x ∷ left) [] hc hl hr e d q =
    absurd (omega (arith, length-append c [], length-append c (x ∷ left), ap length e))
leaf_insert-Deep n i p old v id c (x ∷ left) (y ∷ right) hc hl hr e d q =
    let total = length-append c (x ∷ left) in
    let other = length-append c (y ∷ right) in
    let same = ap length e in
    rw
      (fork-put i c x (leaf id (encoded left true) old) y (leaf (suc id) (encoded right true) v)
        (suc (suc id)) hl.0 hr.0)
      (returns (
        two-IsDeep n i c x (leaf id (encoded left true) old) y
          (leaf (suc id) (encoded right true) v) (suc (suc id)) hc (omega (arith, other))
          (omega (arith, total, same, length-encoded left true hl.1))
          (omega (arith, other, length-encoded right true hr.1))))

rest_of-IsDeep :
    (n id : ℕ) (left : List ℕ) (t : Tree)
    → All IsNib left
    → length left ≤ n
    → IsDeep (n - length left) t
    → IsDeep n (rest_of id left t)
unfolding rest_of
rest_of-IsDeep n id [] t hl le d = let e : n - 0 ≡ n = omega arith in subst (λ k. IsDeep k t) e d
rest_of-IsDeep n id (z ∷ left) t hl le d =
    let l = length-encoded (z ∷ left) false hl in
    (omega (arith, l), subst (λ k. IsDeep (n - k) t) (sym l) d)

extension_insert-Deep :
    (n i : ℕ) (p : List ℕ) (t : Tree) (rec : List ℕ → Changed) (v : List ℕ) (id : ℕ)
    (c left right : List ℕ)
    → All IsNib c
    → All IsNib left
    → All IsNib right
    → prefix_to_nibs p ≡ c ++ left
    → IsDeep n (extension i p t)
    → length (c ++ right) ≡ n
    → (IsDeep (length right) t → Returns (Deep (length right)) IsUnresolved (rec right))
    → Returns (Deep n) IsUnresolved (extension_insert i p t rec v id c left right)
unfolding extension_insert Deep
extension_insert-Deep n i p t rec v id c [] right hc hl hr e d q h =
    let below : n - length (prefix_to_nibs p) ≡ length right =
      omega (arith, ap length e, length-append c [], length-append c right) in
    Returns-bind (h (subst (λ k. IsDeep k t) below d.1))
      λ r k. returns (d.0, subst (λ k. IsDeep k r.1) (sym below) k)
extension_insert-Deep n i p t rec v id c (x ∷ left) [] hc hl hr e d q h =
    absurd (omega (arith, ap length e, length-append c (x ∷ left), length-append c [], d.0))
extension_insert-Deep n i p t rec v id c (x ∷ left) (y ∷ right) hc hl hr e d q h =
    let total = length-append c (x ∷ left) in
    let other = length-append c (y ∷ right) in
    let same = ap length e in
    let below : n - length (prefix_to_nibs p) ≡ n - length c - 1 - length left =
      omega (arith, total, same) in
    rw
      (fork-put i c x (rest_of id left t) y (leaf (next_after id left) (encoded right true) v)
        (suc (next_after id left)) hl.0 hr.0)
      (returns (
        two-IsDeep n i c x (rest_of id left t) y (leaf (next_after id left) (encoded right true) v)
          (suc (next_after id left)) hc (omega (arith, other))
          (rest_of-IsDeep (n - length c - 1) id left t hl.1 (omega (arith, total, same, d.0))
            (subst (λ k. IsDeep k t) below d.1))
          (omega (arith, other, length-encoded right true hr.1))))

KidsDeep : ℕ → Bool × Kids → Type 0
KidsDeep n r = KidsIsDeep n r.1

mutual
  unfolding tree_insert kids_insert Deep KidsDeep

  insert-Deep :
      (t : Tree) (key v : List ℕ) (id : ℕ)
      → Wf t
      → All IsNib key
      → IsDeep (length key) t
      → Returns (Deep (length key)) IsUnresolved (tree_insert t key v id)
  insert-Deep (null i) key v id w nk d = returns (length-encoded key true nk)
  insert-Deep (branch i ks) [] v id w nk d = absurd (omega (arith, d.0))
  insert-Deep (branch i ks) (x ∷ key) v id w nk d =
      let e : suc (length key) - 1 ≡ length key = omega arith in
      Returns-bind
        (kids_insert-Deep ks x key v id w.2 (rw w.0 nk.0) nk.1 (subst (λ k. KidsIsDeep k ks) e d.1))
        λ r k. returns (omega arith, subst (λ k. KidsIsDeep k r.1) (sym e) k)
  insert-Deep (leaf i p old) key v id w nk d =
      let a = align (prefix_to_nibs p) key in
      let np = subst (All IsNib) a.left_eq (prefix_to_nibs-IsNib p w) in
      leaf_insert-Deep (length key) i p old v id a.common a.left a.right
        (All-append_left IsNib a.common a.left np) (All-append_right IsNib a.common a.left np)
        (All-append_right IsNib a.common a.right (subst (All IsNib) a.right_eq nk)) a.left_eq d
        (ap length (sym a.right_eq))
  insert-Deep (extension i p t) key v id w nk d =
      let a = align (prefix_to_nibs p) key in
      let np = subst (All IsNib) a.left_eq (prefix_to_nibs-IsNib p w.0) in
      let nr = All-append_right IsNib a.common a.right (subst (All IsNib) a.right_eq nk) in
      extension_insert-Deep (length key) i p t (λ k. tree_insert t k v id) v id a.common a.left
        a.right (All-append_left IsNib a.common a.left np)
        (All-append_right IsNib a.common a.left np) nr a.left_eq d (ap length (sym a.right_eq))
        (λ dt. insert-Deep t a.right v id w.2 nr dt)
  insert-Deep (Tree.digest i d) key v id w nk h =
      not_resolved-Returns (λ (r : Bool × Tree). IsDeep (length key) r.1) d w

  kids_insert-Deep :
      (ks : Kids) (x : ℕ) (key v : List ℕ) (id : ℕ)
      → KidsWf ks
      → x < length (slots ks)
      → All IsNib key
      → KidsIsDeep (length key) ks
      → Returns (KidsDeep (length key)) IsUnresolved (kids_insert ks x key v id)
  kids_insert-Deep end x key v id w h nk d = absurd (omega arith)
  kids_insert-Deep (absent ks) zero key v id w h nk d = returns (length-encoded key true nk, d)
  kids_insert-Deep (absent ks) (suc x) key v id w h nk d =
      Returns-bind (kids_insert-Deep ks x key v id w (omega arith) nk d) λ r k. returns k
  kids_insert-Deep (child t ks) zero key v id w h nk d =
      Returns-bind (insert-Deep t key v id w.0 nk d.0) λ r k. returns (k, d.1)
  kids_insert-Deep (child t ks) (suc x) key v id w h nk d =
      Returns-bind (kids_insert-Deep ks x key v id w.1 (omega arith) nk d.1) λ r k. returns (d.0, k)

pub tree_insert-IsDeep :
    (t : Tree) (key v : List ℕ) (id : ℕ)
    → Wf t
    → All IsNib key
    → IsDeep (length key) t
    → Returns (λ r. IsDeep (length key) r.1) IsUnresolved (tree_insert t key v id)
unfolding Deep
tree_insert-IsDeep t key v id w nk d = insert-Deep t key v id w nk d
