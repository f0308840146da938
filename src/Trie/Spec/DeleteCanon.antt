-- ===== src/Trie/Spec/DeleteCanon.antt =====
-- A deletion from a tree of the canonical shape does not panic, and keeps the shape: the branch
-- that it takes a child from still has one to put in its place.
use ceno_reth_benchmark.Base.{
  ℕ, zero, suc, ◌≤◌, ◌<◌, ◌≡◌, refl, ap, Bool, true, false, Option, none, some, List, [], ◌∷◌,
  arith, if◌then◌else◌, length, bytes_eq, All,
}
use ceno_reth_benchmark.Base.Result.{
  ok, ◌>>=◌, Returns, returns, refuses, Returns-bind, Returns-mono,
}
use ceno_reth_benchmark.Hp.{IsNib, prefix_to_nibs}
use ceno_reth_benchmark.Hp.Compare.{strip_prefix}
use ceno_reth_benchmark.Trie.{Error}
use ceno_reth_benchmark.Trie.Tree.{
  Tree, null, branch, leaf, extension, Kids, end, absent, child, slots, Wf, KidsWf,
}
use ceno_reth_benchmark.Trie.Spec.{
  live, absorbed, shrunk, joined, branch_delete, extension_delete, delete_below, kept, child_delete,
  tree_delete, kids_delete,
}
use ceno_reth_benchmark.Trie.Spec.Paths.{strip_prefix-IsNib}
use ceno_reth_benchmark.Trie.Spec.Canon.{num_kids, Canon, KidsCanon, RootCanon, Canon-RootCanon}
use ceno_reth_benchmark.Trie.Spec.Returns.{IsRefusal, not_resolved-Returns, IsUnresolved-IsRefusal}

length-live : (b : ℕ) (ks : Kids) → length (live b ks) ≡ num_kids ks
unfolding live
length-live b end = refl
length-live b (absent ks) = length-live (suc b) ks
length-live b (child t ks) = ap suc (length-live (suc b) ks)

live-Canon :
    (b : ℕ) (ks : Kids) {x : ℕ} {t : Tree} {more : List (ℕ × Tree)}
    → live b ks ≡ (x, t) ∷ more
    → KidsCanon ks
    → Canon t
unfolding live
live-Canon b end e c = cc
live-Canon b (absent ks) e c = live-Canon (suc b) ks e c
live-Canon b (child u ks) {x} {t} e c = let q : t ≡ u = cc in rw q c.0

abbrev Left : Bool × Tree → Type 0
Left r = RootCanon r.1

absorbed-Canon : (i x : ℕ) (t : Tree) → Canon t → Returns Canon IsRefusal (absorbed i x t)
unfolding absorbed
absorbed-Canon i x (null j) c = absurd c
absorbed-Canon i x (branch j ks) c = returns (tt, c)
absorbed-Canon i x (leaf j p v) c = returns tt
absorbed-Canon i x (extension j p t) c = returns c
absorbed-Canon i x (Tree.digest j d) c = returns (tt, tt)

shrunk-Canon :
    (i : ℕ) (ks : Kids) (l : List (ℕ × Tree))
    → live 0 ks ≡ l
    → 1 ≤ num_kids ks
    → KidsCanon ks
    → Returns Left IsRefusal (shrunk i ks l)
unfolding shrunk
shrunk-Canon i ks [] e h c =
    let q : length (live 0 ks) ≡ 0 = ap length e in absurd (omega (arith, q, length-live 0 ks))
shrunk-Canon i ks ((x, t) ∷ []) e h c =
    Returns-bind (absorbed-Canon i x t (live-Canon 0 ks e c)) λ t' k. returns (Canon-RootCanon t' k)
shrunk-Canon i ks (a ∷ b ∷ l) e h c =
    let q : length (live 0 ks) ≡ suc (suc (length l)) = ap length e in
    returns (omega (arith, q, length-live 0 ks), c)

joined-Canon : (i : ℕ) (p : List ℕ) (t : Tree) → RootCanon t → RootCanon (joined i p t)
unfolding joined
joined-Canon i p (null j) c = tt
joined-Canon i p (branch j ks) c = (tt, c)
joined-Canon i p (leaf j q v) c = tt
joined-Canon i p (extension j q t) c = c
joined-Canon i p (Tree.digest j d) c = (tt, tt)

-- One child at most is lost.
abbrev KidsLeft : Kids → Bool × Kids → Type 0
KidsLeft ks r = (num_kids ks ≤ suc (num_kids r.1)) × KidsCanon r.1

kept-Left :
    (t u : Tree) (ks : Kids) → RootCanon t → KidsCanon ks → KidsLeft (child u ks) (true, kept t ks)
unfolding kept
kept-Left (null i) u ks h c = (omega arith, c)
kept-Left (branch i ls) u ks h c = (omega arith, (h, c))
kept-Left (leaf i p v) u ks h c = (omega arith, (h, c))
kept-Left (extension i p t) u ks h c = (omega arith, (h, c))
kept-Left (Tree.digest i d) u ks h c = (omega arith, (h, c))

leaf-Left :
    (i : ℕ) (p v : List ℕ) (b : Bool)
    → Returns {E = Error} Left IsRefusal (if b then ok (true, null i) else ok (false, leaf i p v))
leaf-Left i p v true = returns tt
leaf-Left i p v false = returns tt

branch-Left :
    (i : ℕ) (ks : Kids) (r : Bool × Kids)
    → Canon (branch i ks)
    → KidsLeft ks r
    → Returns Left IsRefusal (branch_delete i ks r)
unfolding branch_delete
branch-Left i ks (true, ks') c k =
    shrunk-Canon i ks' (live 0 ks') refl (omega (arith, k.0, c.0)) k.1
branch-Left i ks (false, ks') c k = returns c

extension-Left :
    (i : ℕ) (p : List ℕ) (t : Tree) (r : Bool × Tree)
    → Canon (extension i p t)
    → RootCanon r.1
    → Returns Left IsRefusal (extension_delete i p t r)
unfolding extension_delete
extension-Left i p t (true, t') c k = returns (joined-Canon i p t' k)
extension-Left i p t (false, t') c k = returns c

child_left :
    (t : Tree) (ks : Kids) (r : Bool × Tree)
    → KidsCanon (child t ks)
    → RootCanon r.1
    → Returns (KidsLeft (child t ks)) IsRefusal (child_delete t ks r)
unfolding child_delete
child_left t ks (true, t') c k = returns (kept-Left t' t ks k c.1)
child_left t ks (false, t') c k = returns (omega arith, c)

below-Left :
    (i : ℕ) (p : List ℕ) (t : Tree) (o : Option (List ℕ))
    → Canon (extension i p t)
    → ((tail : List ℕ)
        → o ≡ some tail
        → Returns Left IsRefusal (tree_delete t tail >>= extension_delete i p t))
    → Returns Left IsRefusal
        (delete_below (extension i p t) (λ k. tree_delete t k >>= extension_delete i p t) o)
below-Left i p t none c h = returns c
below-Left i p t (some tail) c h = h tail refl

mutual
  unfolding tree_delete kids_delete

  delete-Canon :
      (t : Tree) (key : List ℕ)
      → Wf t
      → All IsNib key
      → Canon t
      → Returns Left IsRefusal (tree_delete t key)
  delete-Canon (null i) key w nk c = absurd c
  delete-Canon (branch i ks) [] w nk c = refuses tt
  delete-Canon (branch i ks) (x ∷ key) w nk c =
      Returns-bind (kids_delete_canon ks x key w.2 (rw w.0 nk.0) nk.1 c.1)
        λ r k. branch-Left i ks r c k
  delete-Canon (leaf i p v) key w nk c = leaf-Left i p v (bytes_eq (prefix_to_nibs p) key)
  delete-Canon (extension i p t) key w nk c =
      below-Left i p t (strip_prefix (prefix_to_nibs p) key) c λ tail e.
        Returns-bind (delete-Canon t tail w.2 (strip_prefix-IsNib (prefix_to_nibs p) key nk e) c.1)
          λ r k. extension-Left i p t r c k
  delete-Canon (Tree.digest i d) key w nk c =
      Returns-mono (not_resolved-Returns Left d w) (λ a h. h) IsUnresolved-IsRefusal

  kids_delete_canon :
      (ks : Kids) (x : ℕ) (key : List ℕ)
      → KidsWf ks
      → x < length (slots ks)
      → All IsNib key
      → KidsCanon ks
      → Returns (KidsLeft ks) IsRefusal (kids_delete ks x key)
  kids_delete_canon end x key w h nk c = absurd (omega arith)
  kids_delete_canon (absent ks) zero key w h nk c = returns (omega arith, c)
  kids_delete_canon (absent ks) (suc x) key w h nk c =
      Returns-bind (kids_delete_canon ks x key w (omega arith) nk c) λ r k. returns (k.0, k.1)
  kids_delete_canon (child t ks) zero key w h nk c =
      Returns-bind (delete-Canon t key w.0 nk c.0) λ r k. child_left t ks r c k
  kids_delete_canon (child t ks) (suc x) key w h nk c =
      Returns-bind (kids_delete_canon ks x key w.1 (omega arith) nk c.1)
        λ r k. returns (omega (arith, k.0), (c.0, k.1))

-- A deletion from a canonical trie returns, and leaves a canonical trie.
pub tree_delete-Returns :
    (t : Tree) (key : List ℕ)
    → Wf t
    → All IsNib key
    → RootCanon t
    → Returns Left IsRefusal (tree_delete t key)
unfolding tree_delete
tree_delete-Returns (null i) key w nk c = returns tt
tree_delete-Returns (branch i ks) key w nk c = delete-Canon (branch i ks) key w nk c
tree_delete-Returns (leaf i p v) key w nk c = delete-Canon (leaf i p v) key w nk c
tree_delete-Returns (extension i p t) key w nk c = delete-Canon (extension i p t) key w nk c
tree_delete-Returns (Tree.digest i d) key w nk c = delete-Canon (Tree.digest i d) key w nk c
