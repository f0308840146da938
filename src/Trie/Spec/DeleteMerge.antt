-- ===== src/Trie/Spec/DeleteMerge.antt =====
-- Lookups in the nodes that a deletion merges.
use ceno_reth_benchmark.Base.{
  ℕ, zero, suc, ◌+◌, ◌<◌, ◌≡◌, refl, sym, ◌∙◌, true, false, Option, none, some, List, [], ◌∷◌, ◌++◌,
  ◌==◌, if◌then◌else◌, bytes_eq, All, arith, length, All-append,
}
use ceno_reth_benchmark.Base.Result.{ok, Ensures, on_ok, on_panic, Ensures-bind}
use ceno_reth_benchmark.Hp.{IsByte, IsNib, prefix_to_nibs}
use ceno_reth_benchmark.Hp.Compare.{strip_prefix}
use ceno_reth_benchmark.Hp.Encode.{prefix_to_nibs-encoded}
use ceno_reth_benchmark.Trie.Tree.{
  Tree, null, branch, leaf, extension, Kids, end, absent, child, Wf, KidsWf, slots,
}
use ceno_reth_benchmark.Trie.Spec.{
  Found, get_below, leaf_get, tree_get, kids_get, live, absorbed, shrunk, joined,
}
use ceno_reth_benchmark.Trie.Spec.Paths.{
  prefix_to_nibs-IsNib, eq_below, strip_below, bytes_eq-append, strip_prefix-append_left,
}
use ceno_reth_benchmark.Trie.Spec.DeleteWf.{live-Single}

-- Children below a branch of which one is left.
kids_get-live_empty :
    (b : ℕ) (ks : Kids) (z : ℕ) (k : List ℕ)
    → live b ks ≡ []
    → z < length (slots ks)
    → kids_get ks z k ≡ ok none
unfolding live kids_get
kids_get-live_empty b end z k e h = elim h [ ]
kids_get-live_empty b (absent ks) zero k e h = refl
kids_get-live_empty b (absent ks) (suc z) k e h = kids_get-live_empty (suc b) ks z k e (omega arith)
kids_get-live_empty b (child u ks) z k e h = cc

kids_get-live_single :
    (b : ℕ) (ks : Kids) (x : ℕ) (t : Tree) (z : ℕ) (k : List ℕ)
    → live b ks ≡ (x, t) ∷ []
    → KidsWf ks
    → z < length (slots ks)
    → kids_get ks z k ≡ (if b + z == x then tree_get t k else ok none)
unfolding live kids_get
kids_get-live_single b end x t z k e w h = elim h [ ]
kids_get-live_single b (absent ks) x t zero k e w h =
    let s = live-Single (suc b) ks e w in ground (arith, s.from)
kids_get-live_single b (absent ks) x t (suc z) k e w h =
    ground (arith, kids_get-live_single (suc b) ks x t z k e w (omega arith))
kids_get-live_single b (child u ks) x t zero k e w h = ground arith
kids_get-live_single b (child u ks) x t (suc z) k e w h =
    ground (arith, kids_get-live_empty (suc b) ks z k (ground arith))

-- Lookup below the nibble `x` alone.
abbrev only : ℕ → (List ℕ → Found) → List ℕ → Found
only x f [] = ok none
only x f (z ∷ k) = if z == x then f k else ok none

only-strip :
    (x : ℕ) (l k : List ℕ) (f : List ℕ → Found)
    → get_below f (strip_prefix (x ∷ l) k) ≡ only x (λ q. get_below f (strip_prefix l q)) k
unfolding strip_prefix
only-strip x l [] f = refl
only-strip x l (z ∷ k) f = ground arith

only-leaf : (x : ℕ) (l v k : List ℕ) → leaf_get (x ∷ l) v k ≡ only x (leaf_get l v) k
unfolding bytes_eq
only-leaf x l v [] = refl
only-leaf x l v (z ∷ k) = ground arith

one_nibble :
    (x : ℕ) (k : List ℕ) (t : Tree)
    → only x (λ q. get_below (tree_get t) (strip_prefix [] q)) k ≡ only x (tree_get t) k
unfolding strip_prefix
one_nibble x [] t = refl
one_nibble x (z ∷ k) t = refl

only_single :
    (i : ℕ) (ks : Kids) (x : ℕ) (t : Tree) (k : List ℕ)
    → All IsNib k
    → live 0 ks ≡ (x, t) ∷ []
    → KidsWf ks
    → length (slots ks) ≡ 16
    → only x (tree_get t) k ≡ tree_get (branch i ks) k
unfolding tree_get
only_single i ks x t [] nk e w n = refl
only_single i ks x t (z ∷ k) nk e w n =
    ground (arith, kids_get-live_single 0 ks x t z k e w (omega (arith, n, nk.0)))

get_below-none : (o : Option (List ℕ)) → get_below (λ _. ok none) o ≡ ok none
get_below-none none = refl
get_below-none (some tail) = refl

leaf_below :
    (l v : List ℕ) (o : Option (List ℕ))
    → ok (if eq_below l o then some v else none) ≡ get_below (leaf_get l v) o
leaf_below l v none = refl
leaf_below l v (some tail) = refl

extension_below :
    (l : List ℕ) (u : Tree) (o : Option (List ℕ))
    → get_below (tree_get u) (strip_below l o)
      ≡ get_below (λ k. get_below (tree_get u) (strip_prefix l k)) o
extension_below l u none = refl
extension_below l u (some tail) = refl

absorbed-only :
    (i x : ℕ) (t : Tree)
    → IsNib x
    → Wf t
    → Ensures (λ t'. (k : List ℕ) → tree_get t' k ≡ only x (tree_get t) k) (absorbed i x t)
unfolding absorbed tree_get
absorbed-only i x (null j) h w = on_panic
absorbed-only i x (branch j us) h w = on_ok λ k.
    rw (prefix_to_nibs-encoded (x ∷ []) false (h, tt))
      (only-strip x [] k (tree_get (branch j us)) ∙ one_nibble x k (branch j us))
absorbed-only i x (leaf j p v) h w = on_ok λ k.
    rw (prefix_to_nibs-encoded (x ∷ prefix_to_nibs p) true (h, prefix_to_nibs-IsNib p w))
      (only-leaf x (prefix_to_nibs p) v k)
absorbed-only i x (extension j p t) h w = on_ok λ k.
    rw (prefix_to_nibs-encoded (x ∷ prefix_to_nibs p) false (h, prefix_to_nibs-IsNib p w.0))
      (only-strip x (prefix_to_nibs p) k (tree_get t))
absorbed-only i x (Tree.digest j d) h w = on_ok λ k.
    rw (prefix_to_nibs-encoded (x ∷ []) false (h, tt))
      (only-strip x [] k (tree_get (Tree.digest j d)) ∙ one_nibble x k (Tree.digest j d))

-- A branch that shrank looks up as its slots do.
pub shrunk_get :
    (i : ℕ) (ks : Kids) (l : List (ℕ × Tree))
    → live 0 ks ≡ l
    → KidsWf ks
    → length (slots ks) ≡ 16
    → Ensures
        (λ r.
          (r.0 ≡ true) × ((k : List ℕ) → All IsNib k → tree_get r.1 k ≡ tree_get (branch i ks) k))
        (shrunk i ks l)
unfolding shrunk tree_get
shrunk_get i ks [] e w n = on_panic
shrunk_get i ks ((x, t) ∷ []) e w n =
    let s = live-Single 0 ks e w in
    Ensures-bind (absorbed-only i x t (omega (arith, s.to)) s.wf)
      λ t' h. on_ok (refl, λ k nk. h k ∙ only_single i ks x t k nk e w n)
shrunk_get i ks (a ∷ b ∷ l) e w n = on_ok (refl, λ k nk. refl)

pub joined_get :
    (i : ℕ) (p : List ℕ) (t : Tree) (k : List ℕ)
    → All IsByte p
    → Wf t
    → tree_get (joined i p t) k ≡ get_below (tree_get t) (strip_prefix (prefix_to_nibs p) k)
unfolding joined tree_get
joined_get i p (null j) k hp w = sym (get_below-none (strip_prefix (prefix_to_nibs p) k))
joined_get i p (branch j us) k hp w = refl
joined_get i p (leaf j q v) k hp w =
    rw
      (
        prefix_to_nibs-encoded (prefix_to_nibs p ++ prefix_to_nibs q) true (
            All-append IsNib (prefix_to_nibs p) (prefix_to_nibs q) (prefix_to_nibs-IsNib p hp)
              (prefix_to_nibs-IsNib q w)),
        bytes_eq-append (prefix_to_nibs p) (prefix_to_nibs q) k,
      )
      (leaf_below (prefix_to_nibs q) v (strip_prefix (prefix_to_nibs p) k))
joined_get i p (extension j q u) k hp w =
    rw
      (
        prefix_to_nibs-encoded (prefix_to_nibs p ++ prefix_to_nibs q) false (
            All-append IsNib (prefix_to_nibs p) (prefix_to_nibs q) (prefix_to_nibs-IsNib p hp)
              (prefix_to_nibs-IsNib q w.0)),
        strip_prefix-append_left (prefix_to_nibs p) (prefix_to_nibs q) k,
      )
      (extension_below (prefix_to_nibs q) u (strip_prefix (prefix_to_nibs p) k))
joined_get i p (Tree.digest j d) k hp w = refl
