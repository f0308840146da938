-- ===== src/Trie/Spec/Returns.antt =====
-- On nibbles and a well formed tree, a lookup or an insertion does not panic.
use ceno_reth_benchmark.Base.{
  ℕ, zero, suc, ◌<◌, ◌≡◌, refl, subst, Bool, true, false, Option, none, some, List, [], ◌∷◌, All,
  arith, if◌then◌else◌, length, bytes_eq, All-append_right, lt→ltb,
}
use ceno_reth_benchmark.Base.Result.{ok, Returns, returns, refuses, Returns-bind, Returns-mono}
use ceno_reth_benchmark.Hp.{IsNib, prefix_to_nibs}
use ceno_reth_benchmark.Hp.Compare.{strip_prefix}
use ceno_reth_benchmark.Hp.Encode.{encoded}
use ceno_reth_benchmark.Hp.Lcp.{align}
use ceno_reth_benchmark.Trie.{
  Error, node_ref_mismatch, rlp_error, invalid_frontier_prefix, inline_frontier_chunk,
  node_not_resolved, value_in_branch, not_resolved,
}
use ceno_reth_benchmark.Trie.Tree.{
  Tree, null, branch, leaf, extension, Kids, end, absent, child, slots, Wf, KidsWf,
}
use ceno_reth_benchmark.Trie.Spec.{
  Found, Changed, tree_get, kids_get, leaf_insert, extension_insert, fork, put_kid, all_absent,
  rest_of, next_after, tree_insert, kids_insert, wrap, get_below,
}
use ceno_reth_benchmark.Trie.Spec.Paths.{prefix_to_nibs-IsNib, strip_prefix-IsNib}
use ceno_reth_benchmark.Trie.Slots.{put}
use ceno_reth_benchmark.Trie.Slots.Put.{put_kid_lem, length-slots-put}

-- The node is a digest of 32 bytes only.
abbrev pub IsUnresolved : Error → Type 0
IsUnresolved (node_not_resolved d) = length d ≡ 32
IsUnresolved _ = ⊥

-- That, or the key ends where another key goes on.
abbrev pub IsRefusal : Error → Type 0
IsRefusal (node_not_resolved d) = length d ≡ 32
IsRefusal value_in_branch = Unit
IsRefusal _ = ⊥

pub IsUnresolved-IsRefusal : (e : Error) → IsUnresolved e → IsRefusal e
IsUnresolved-IsRefusal (node_not_resolved d) h = h
IsUnresolved-IsRefusal node_ref_mismatch h = elim h [ ]
IsUnresolved-IsRefusal (rlp_error _) h = elim h [ ]
IsUnresolved-IsRefusal value_in_branch h = elim h [ ]
IsUnresolved-IsRefusal invalid_frontier_prefix h = elim h [ ]
IsUnresolved-IsRefusal inline_frontier_chunk h = elim h [ ]

pub not_resolved-Returns :
    {A : Type 0} (P : A → Type 0) (d : List ℕ)
    → length d ≡ 32
    → Returns P IsUnresolved (not_resolved d)
unfolding not_resolved
not_resolved-Returns P d h = rw h (refuses h)

abbrev Any : Option (List ℕ) → Type 0
Any o = Unit

get_below-Returns :
    (rec : List ℕ → Found) (o : Option (List ℕ))
    → ((tail : List ℕ) → o ≡ some tail → Returns Any IsUnresolved (rec tail))
    → Returns Any IsUnresolved (get_below rec o)
get_below-Returns rec none h = returns tt
get_below-Returns rec (some tail) h = h tail refl

mutual
  unfolding tree_get kids_get

  lookup-Returns :
      (t : Tree) (key : List ℕ) → Wf t → All IsNib key → Returns Any IsUnresolved (tree_get t key)
  lookup-Returns (null i) key w nk = returns tt
  lookup-Returns (branch i ks) [] w nk = returns tt
  lookup-Returns (branch i ks) (x ∷ key) w nk = kids-Returns ks x key w.2 (rw w.0 nk.0) nk.1
  lookup-Returns (leaf i p v) key w nk = returns tt
  lookup-Returns (extension i p t) key w nk =
      get_below-Returns (tree_get t) (strip_prefix (prefix_to_nibs p) key)
        λ tail e. lookup-Returns t tail w.2 (strip_prefix-IsNib (prefix_to_nibs p) key nk e)
  lookup-Returns (Tree.digest i d) key w nk = not_resolved-Returns Any d w

  kids-Returns :
      (ks : Kids) (x : ℕ) (key : List ℕ)
      → KidsWf ks
      → x < length (slots ks)
      → All IsNib key
      → Returns Any IsUnresolved (kids_get ks x key)
  kids-Returns end x key w h nk = absurd (omega arith)
  kids-Returns (absent ks) zero key w h nk = returns tt
  kids-Returns (absent ks) (suc x) key w h nk = kids-Returns ks x key w (omega arith) nk
  kids-Returns (child t ks) zero key w h nk = lookup-Returns t key w.0 nk
  kids-Returns (child t ks) (suc x) key w h nk = kids-Returns ks x key w.1 (omega arith) nk

pub tree_get-Returns :
    (t : Tree) (key : List ℕ) → Wf t → All IsNib key → Returns Any IsUnresolved (tree_get t key)
tree_get-Returns t key w nk = lookup-Returns t key w nk

abbrev Ever : Bool × Tree → Type 0
Ever r = Unit

abbrev KidsEver : Bool × Kids → Type 0
KidsEver r = Unit

pub put_kid-put :
    (ks : Kids) (x : ℕ) (t : Tree) → x < length (slots ks) → put_kid ks x t ≡ ok (put ks x (some t))
put_kid-put ks x t h = rw (put_kid_lem ks x t, lt→ltb x (length (slots ks)) h)

pub fork-put :
    (i : ℕ) (c : List ℕ) (x : ℕ) (tx : Tree) (y : ℕ) (ty : Tree) (n : ℕ)
    → IsNib x
    → IsNib y
    → fork i c x tx y ty n ≡ ok (true, wrap i c (put (put all_absent x (some tx)) y (some ty)) n)
unfolding fork
fork-put i c x tx y ty n hx hy =
    let ks = put all_absent x (some tx) in
    let l : length (slots ks) ≡ 16 = length-slots-put all_absent x (some tx) in
    rw (put_kid-put all_absent x tx hx, put_kid-put ks y ty (omega arith))

leaf_insert-Returns :
    (i : ℕ) (p old v : List ℕ) (n : ℕ) (c left right : List ℕ)
    → All IsNib left
    → All IsNib right
    → Returns Ever IsRefusal (leaf_insert i p old v n c left right)
unfolding leaf_insert
leaf_insert-Returns i p old v n c [] [] hl hr = go (bytes_eq old v)
  where
    go :
        (b : Bool)
        → Returns Ever IsRefusal (if b then ok (false, leaf i p old) else ok (true, leaf i p v))
    go true = returns tt
    go false = returns tt
leaf_insert-Returns i p old v n c [] (y ∷ right) hl hr = refuses tt
leaf_insert-Returns i p old v n c (x ∷ left) [] hl hr = refuses tt
leaf_insert-Returns i p old v n c (x ∷ left) (y ∷ right) hl hr =
    rw
      (fork-put i c x (leaf n (encoded left true) old) y (leaf (suc n) (encoded right true) v)
        (suc (suc n)) hl.0 hr.0)
      (returns tt)

extension_insert-Returns :
    (i : ℕ) (p : List ℕ) (t : Tree) (rec : List ℕ → Changed) (v : List ℕ) (n : ℕ)
    (c left right : List ℕ)
    → All IsNib left
    → All IsNib right
    → Returns Ever IsRefusal (rec right)
    → Returns Ever IsRefusal (extension_insert i p t rec v n c left right)
unfolding extension_insert
extension_insert-Returns i p t rec v n c [] right hl hr h = Returns-bind h λ r k. returns tt
extension_insert-Returns i p t rec v n c (x ∷ left) [] hl hr h = refuses tt
extension_insert-Returns i p t rec v n c (x ∷ left) (y ∷ right) hl hr h =
    rw
      (fork-put i c x (rest_of n left t) y (leaf (next_after n left) (encoded right true) v)
        (suc (next_after n left)) hl.0 hr.0)
      (returns tt)

mutual
  unfolding tree_insert kids_insert

  insert-Returns :
      (t : Tree) (key v : List ℕ) (n : ℕ)
      → Wf t
      → All IsNib key
      → Returns Ever IsRefusal (tree_insert t key v n)
  insert-Returns (null i) key v n w nk = returns tt
  insert-Returns (branch i ks) [] v n w nk = refuses tt
  insert-Returns (branch i ks) (x ∷ key) v n w nk =
      Returns-bind (kids_insert-Returns ks x key v n w.2 (rw w.0 nk.0) nk.1) λ r k. returns tt
  insert-Returns (leaf i p old) key v n w nk =
      let a = align (prefix_to_nibs p) key in
      leaf_insert-Returns i p old v n a.common a.left a.right
        (All-append_right IsNib a.common a.left
          (subst (All IsNib) a.left_eq (prefix_to_nibs-IsNib p w)))
        (All-append_right IsNib a.common a.right (subst (All IsNib) a.right_eq nk))
  insert-Returns (extension i p t) key v n w nk =
      let a = align (prefix_to_nibs p) key in
      let nr = All-append_right IsNib a.common a.right (subst (All IsNib) a.right_eq nk) in
      extension_insert-Returns i p t (λ k. tree_insert t k v n) v n a.common a.left a.right
        (All-append_right IsNib a.common a.left
          (subst (All IsNib) a.left_eq (prefix_to_nibs-IsNib p w.0)))
        nr (insert-Returns t a.right v n w.2 nr)
  insert-Returns (Tree.digest i d) key v n w nk =
      Returns-mono (not_resolved-Returns Ever d w) (λ a h. h) IsUnresolved-IsRefusal

  kids_insert-Returns :
      (ks : Kids) (x : ℕ) (key v : List ℕ) (n : ℕ)
      → KidsWf ks
      → x < length (slots ks)
      → All IsNib key
      → Returns KidsEver IsRefusal (kids_insert ks x key v n)
  kids_insert-Returns end x key v n w h nk = absurd (omega arith)
  kids_insert-Returns (absent ks) zero key v n w h nk = returns tt
  kids_insert-Returns (absent ks) (suc x) key v n w h nk =
      Returns-bind (kids_insert-Returns ks x key v n w (omega arith) nk) λ r k. returns tt
  kids_insert-Returns (child t ks) zero key v n w h nk =
      Returns-bind (insert-Returns t key v n w.0 nk) λ r k. returns tt
  kids_insert-Returns (child t ks) (suc x) key v n w h nk =
      Returns-bind (kids_insert-Returns ks x key v n w.1 (omega arith) nk) λ r k. returns tt

pub tree_insert-Returns :
    (t : Tree) (key v : List ℕ) (n : ℕ)
    → Wf t
    → All IsNib key
    → Returns Ever IsRefusal (tree_insert t key v n)
tree_insert-Returns t key v n w nk = insert-Returns t key v n w nk
