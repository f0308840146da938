-- ===== src/Trie/Spec/Paths.antt =====
-- Keys behind a common path, and branches with two children.
use ceno_reth_benchmark.Base.{
  ℕ, zero, suc, ◌<◌, ◌≡◌, refl, Bool, true, false, Option, none, some, List, [], ◌∷◌, ◌++◌, ◌==◌,
  if◌then◌else◌, bytes_eq, All, bit_and, ◌∙◌, inl, inr, Option-cases, Bool-cases, length, arith,
  All-append_right,
}
use ceno_reth_benchmark.Base.Result.{ok, Ensures, on_ok, on_err, on_panic, Ensures-bind}
use ceno_reth_benchmark.Hp.{IsByte, IsNib, is_odd, to_nibs, prefix_to_nibs}
use ceno_reth_benchmark.Hp.Bits.{low_lem}
use ceno_reth_benchmark.Hp.Compare.{strip_prefix, eq_of_strip_prefix}
use ceno_reth_benchmark.Hp.Encode.{prefix_to_nibs-encoded}
use ceno_reth_benchmark.Trie.{not_resolved}
use ceno_reth_benchmark.Trie.Tree.{Tree, branch, Kids, end, absent, child}
use ceno_reth_benchmark.Trie.Spec.{
  Found, get_below, tree_get, kids_get, all_absent, put_kid, wrap, fork,
}

pub to_nibs-IsNib : (bs : List ℕ) → All IsByte bs → All IsNib (to_nibs bs)
unfolding to_nibs
to_nibs-IsNib [] h = tt
to_nibs-IsNib (b ∷ bs) (hb, hs) =
    (omega arith, (rw (low_lem b hb) (omega arith), to_nibs-IsNib bs hs))

pub prefix_to_nibs-IsNib : (p : List ℕ) → All IsByte p → All IsNib (prefix_to_nibs p)
unfolding prefix_to_nibs
prefix_to_nibs-IsNib [] h = tt
prefix_to_nibs-IsNib (b ∷ bs) (hb, hs) = first (is_odd b)
  where
    first : (odd : Bool) → All IsNib (if odd then bit_and b 0x0f ∷ to_nibs bs else to_nibs bs)
    first true = (rw (low_lem b hb) (omega arith), to_nibs-IsNib bs hs)
    first false = to_nibs-IsNib bs hs

abbrev pub eq_below : List ℕ → Option (List ℕ) → Bool
eq_below l none = false
eq_below l (some tail) = bytes_eq l tail

abbrev pub strip_below : List ℕ → Option (List ℕ) → Option (List ℕ)
strip_below l none = none
strip_below l (some tail) = strip_prefix l tail

pub bytes_eq-append : (c l k : List ℕ) → bytes_eq (c ++ l) k ≡ eq_below l (strip_prefix c k)
unfolding strip_prefix bytes_eq
bytes_eq-append [] l k = refl
bytes_eq-append (x ∷ c) l [] = refl
bytes_eq-append (x ∷ c) l (y ∷ k) = ground (arith, bytes_eq-append c l k)

pub strip_prefix-append_left :
    (c l k : List ℕ) → strip_prefix (c ++ l) k ≡ strip_below l (strip_prefix c k)
unfolding strip_prefix
strip_prefix-append_left [] l k = refl
strip_prefix-append_left (x ∷ c) l [] = refl
strip_prefix-append_left (x ∷ c) l (y ∷ k) = ground (arith, strip_prefix-append_left c l k)

pub strip_prefix-IsNib :
    (c k : List ℕ) {tail : List ℕ} → All IsNib k → strip_prefix c k ≡ some tail → All IsNib tail
strip_prefix-IsNib c k {tail} h e =
    All-append_right IsNib c tail (rw (eq_of_strip_prefix c k e) at h)

abbrev pub PutKid : Kids → ℕ → Tree → Kids → Type 0
PutKid ks x t ks' =
    (z : ℕ) (k : List ℕ) → kids_get ks' z k ≡ (if z == x then tree_get t k else kids_get ks z k)

PutKid-skip_absent :
    (ks : Kids) (x : ℕ) (t : Tree) (ks' : Kids)
    → PutKid ks x t ks'
    → PutKid (absent ks) (suc x) t (absent ks')
unfolding kids_get
PutKid-skip_absent ks x t ks' h zero k = ground arith
PutKid-skip_absent ks x t ks' h (suc z) k = ground (arith, h z k)

PutKid-skip_child :
    (u : Tree) (ks : Kids) (x : ℕ) (t : Tree) (ks' : Kids)
    → PutKid ks x t ks'
    → PutKid (child u ks) (suc x) t (child u ks')
unfolding kids_get
PutKid-skip_child u ks x t ks' h zero k = ground arith
PutKid-skip_child u ks x t ks' h (suc z) k = ground (arith, h z k)

kids_get-here : (ks : Kids) (t : Tree) → PutKid (absent ks) zero t (child t ks)
unfolding kids_get
kids_get-here ks t zero k = refl
kids_get-here ks t (suc z) k = ground arith

kids_get-over : (u : Tree) (ks : Kids) (t : Tree) → PutKid (child u ks) zero t (child t ks)
unfolding kids_get
kids_get-over u ks t zero k = refl
kids_get-over u ks t (suc z) k = ground arith

pub put_kid-PutKid : (ks : Kids) (x : ℕ) (t : Tree) → Ensures (PutKid ks x t) (put_kid ks x t)
unfolding put_kid
put_kid-PutKid end x t = on_panic
put_kid-PutKid (absent ks) zero t = on_ok (kids_get-here ks t)
put_kid-PutKid (child u ks) zero t = on_ok (kids_get-over u ks t)
put_kid-PutKid (absent ks) (suc x) t =
    Ensures-bind (put_kid-PutKid ks x t) λ ks' h. on_ok (PutKid-skip_absent ks x t ks' h)
put_kid-PutKid (child u ks) (suc x) t =
    Ensures-bind (put_kid-PutKid ks x t) λ ks' h. on_ok (PutKid-skip_child u ks x t ks' h)

absents : ℕ → Kids
absents zero = end
absents (suc n) = absent (absents n)

kids_get-absents : (n z : ℕ) (k : List ℕ) → z < n → kids_get (absents n) z k ≡ ok none
unfolding kids_get absents
kids_get-absents zero z k h = elim h [ ]
kids_get-absents (suc n) zero k h = refl
kids_get-absents (suc n) (suc z) k h = kids_get-absents n z k (omega arith)

kids_get-all_absent : (z : ℕ) (k : List ℕ) → IsNib z → kids_get all_absent z k ≡ ok none
unfolding absents
kids_get-all_absent z k h = kids_get-absents 16 z k h

-- What is below a branch whose only children are `tx` at `x` and `ty` at `y`.
abbrev pub two_get : ℕ → Tree → ℕ → Tree → List ℕ → Found
two_get x tx y ty [] = ok none
two_get x tx y ty (z ∷ k) =
    if z == y then tree_get ty k else if z == x then tree_get tx k else ok none

tree_get-branch_two :
    (i x y : ℕ) (tx ty : Tree) (ks1 ks2 : Kids)
    → PutKid all_absent x tx ks1
    → PutKid ks1 y ty ks2
    → (k : List ℕ) → All IsNib k
    → tree_get (branch i ks2) k ≡ two_get x tx y ty k
unfolding tree_get
tree_get-branch_two i x y tx ty ks1 ks2 h1 h2 [] n = refl
tree_get-branch_two i x y tx ty ks1 ks2 h1 h2 (z ∷ k) (hz, hk) =
    ground (arith, h1 z k, h2 z k, kids_get-all_absent z k hz)

tree_get-wrap :
    (i : ℕ) (c : List ℕ) (ks : Kids) (n : ℕ) (k : List ℕ)
    → All IsNib c
    → tree_get (wrap i c ks n) k ≡ get_below (tree_get (branch n ks)) (strip_prefix c k)
unfolding tree_get wrap strip_prefix
tree_get-wrap i [] ks n [] h = refl
tree_get-wrap i [] ks n (x ∷ k) h = refl
tree_get-wrap i (x ∷ c) ks n k h = rw (prefix_to_nibs-encoded (x ∷ c) false h)

get_below-eq :
    (f g : List ℕ → Found) (c k : List ℕ)
    → All IsNib k
    → ((tail : List ℕ) → All IsNib tail → f tail ≡ g tail)
    → get_below f (strip_prefix c k) ≡ get_below g (strip_prefix c k)
get_below-eq f g c k n h = elim (Option-cases (strip_prefix c k)) [
  | inl e ↦ rw e
  | inr (tail, e) ↦ rw e (h tail (strip_prefix-IsNib c k n e))
]

-- Lookup in a fork.
abbrev pub Forked : (c : List ℕ) (x : ℕ) (tx : Tree) (y : ℕ) (ty : Tree) → Bool × Tree → Type 0
Forked c x tx y ty (b, t') =
    (k : List ℕ) → All IsNib k → tree_get t' k ≡ get_below (two_get x tx y ty) (strip_prefix c k)

pub fork-Forked :
    (i : ℕ) (c : List ℕ) (x : ℕ) (tx : Tree) (y : ℕ) (ty : Tree) (n : ℕ)
    → All IsNib c
    → Ensures (Forked c x tx y ty) (fork i c x tx y ty n)
unfolding fork
fork-Forked i c x tx y ty n hc = Ensures-bind (put_kid-PutKid all_absent x tx) λ ks1 h1.
    Ensures-bind (put_kid-PutKid ks1 y ty) λ ks2 h2. on_ok λ k nk.
      tree_get-wrap i c ks2 n k hc
      ∙ get_below-eq _ _ c k nk (tree_get-branch_two n x y tx ty ks1 ks2 h1 h2)

pub not_resolved-Ensures :
    {A : Type 0} {P : A → Type 0} (d : List ℕ) → Ensures P (not_resolved {A = A} d)
unfolding not_resolved
not_resolved-Ensures d = elim (Bool-cases (length d == 32)) [
  | inl e ↦ rw e on_err
  | inr e ↦ rw e on_panic
]
