-- ===== src/Trie/Spec/DepthDelete.antt =====
-- Deletions on tries whose keys have one length keep the length.
use ceno_reth_benchmark.Base.{
  ℕ, zero, suc, ◌-◌, ◌≤◌, ◌≡◌, refl, sym, subst, ◌∙◌, Bool, true, false, Option, none, some, List,
  [], ◌∷◌, ◌++◌, All, All-append, arith, if◌then◌else◌, length, length-append, bytes_eq,
}
use ceno_reth_benchmark.Base.Result.{
  ok, ◌>>=◌, Ensures, on_ok, on_err, on_panic, Ensures-bind, Ensures-both,
}
use ceno_reth_benchmark.Hp.{IsNib, prefix_to_nibs}
use ceno_reth_benchmark.Hp.Compare.{strip_prefix}
use ceno_reth_benchmark.Hp.Encode.{encoded}
use ceno_reth_benchmark.Trie.{Error}
use ceno_reth_benchmark.Trie.Tree.{
  Tree, null, branch, leaf, extension, Kids, end, absent, child, slots, Wf, KidsWf,
}
use ceno_reth_benchmark.Trie.Spec.{
  live, absorbed, shrunk, joined, branch_delete, extension_delete, delete_below, kept, child_delete,
  tree_delete, kids_delete,
}
use ceno_reth_benchmark.Trie.Spec.DeleteWf.{
  live-Single, Keeps, KidsKeeps, tree_delete-Keeps, kids_delete-KidsKeeps,
}
use ceno_reth_benchmark.Trie.Spec.Depth.{IsDeep, KidsIsDeep, length-encoded}
use ceno_reth_benchmark.Trie.Spec.Paths.{prefix_to_nibs-IsNib, not_resolved-Ensures}

live-IsDeep :
    (n b : ℕ) (ks : Kids) {x : ℕ} {t : Tree} {more : List (ℕ × Tree)}
    → live b ks ≡ (x, t) ∷ more
    → KidsIsDeep n ks
    → IsDeep n t
unfolding live
live-IsDeep n b end e d = cc
live-IsDeep n b (absent ks) e d = live-IsDeep n (suc b) ks e d
live-IsDeep n b (child u ks) {x} {t} e d = let q : t ≡ u = cc in rw q d.0

-- A path in front of a subtree.
behind :
    (n : ℕ) (nibs : List ℕ) (t : Tree) (i : ℕ)
    → All IsNib nibs
    → length nibs ≤ n
    → IsDeep (n - length nibs) t
    → IsDeep n (extension i (encoded nibs false) t)
behind n nibs t i h le d =
    let l = length-encoded nibs false h in
    (omega (arith, l), subst (λ k. IsDeep (n - k) t) (sym l) d)

absorbed-IsDeep :
    (n i x : ℕ) (t : Tree)
    → IsNib x
    → Wf t
    → 1 ≤ n
    → IsDeep (n - 1) t
    → Ensures (IsDeep n) (absorbed i x t)
unfolding absorbed
absorbed-IsDeep n i x (null j) hx w le d = on_panic
absorbed-IsDeep n i x (branch j ks) hx w le d =
    on_ok (behind n (x ∷ []) (branch j ks) i (hx, tt) (omega arith) d)
absorbed-IsDeep n i x (leaf j p v) hx w le d =
    on_ok
      (omega (arith, length-encoded (x ∷ prefix_to_nibs p) true (hx, prefix_to_nibs-IsNib p w), d))
absorbed-IsDeep n i x (extension j p t) hx w le d =
    let e : n - 1 - length (prefix_to_nibs p) ≡ n - length (x ∷ prefix_to_nibs p) = omega arith in
    on_ok (
      behind n (x ∷ prefix_to_nibs p) t i (hx, prefix_to_nibs-IsNib p w.0) (omega (arith, d.0))
        (subst (λ k. IsDeep k t) e d.1))
absorbed-IsDeep n i x (Tree.digest j h) hx w le d =
    on_ok (behind n (x ∷ []) (Tree.digest j h) i (hx, tt) (omega arith) tt)

Deep : ℕ → Bool × Tree → Type 0
Deep n r = IsDeep n r.1

shrunk-Deep :
    (n i : ℕ) (ks : Kids) (l : List (ℕ × Tree))
    → live 0 ks ≡ l
    → KidsWf ks
    → length (slots ks) ≡ 16
    → 1 ≤ n
    → KidsIsDeep (n - 1) ks
    → Ensures (Deep n) (shrunk i ks l)
unfolding shrunk Deep
shrunk-Deep n i ks [] e w s le d = on_panic
shrunk-Deep n i ks ((x, t) ∷ []) e w s le d =
    let one = live-Single 0 ks e w in
    Ensures-bind
      (absorbed-IsDeep n i x t (omega (arith, one.to)) one.wf le (live-IsDeep (n - 1) 0 ks e d))
      λ t' h. on_ok h
shrunk-Deep n i ks (a ∷ b ∷ l) e w s le d = on_ok (le, d)

joined-IsDeep :
    (n i : ℕ) (p : List ℕ) (t : Tree)
    → All IsNib (prefix_to_nibs p)
    → Wf t
    → length (prefix_to_nibs p) ≤ n
    → IsDeep (n - length (prefix_to_nibs p)) t
    → IsDeep n (joined i p t)
unfolding joined
joined-IsDeep n i p (null j) hp w le d = tt
joined-IsDeep n i p (branch j ks) hp w le d = (le, d)
joined-IsDeep n i p (leaf j q v) hp w le d =
    let nibs = prefix_to_nibs p ++ prefix_to_nibs q in
    let h = All-append IsNib (prefix_to_nibs p) (prefix_to_nibs q) hp (prefix_to_nibs-IsNib q w) in
    omega
      (arith, length-encoded nibs true h, length-append (prefix_to_nibs p) (prefix_to_nibs q), d)
joined-IsDeep n i p (extension j q t) hp w le d =
    let nibs = prefix_to_nibs p ++ prefix_to_nibs q in
    let total = length-append (prefix_to_nibs p) (prefix_to_nibs q) in
    let h =
      All-append IsNib (prefix_to_nibs p) (prefix_to_nibs q) hp (prefix_to_nibs-IsNib q w.0) in
    let e : n - length (prefix_to_nibs p) - length (prefix_to_nibs q) ≡ n - length nibs =
      omega (arith, total) in
    behind n nibs t i h (omega (arith, total, d.0)) (subst (λ k. IsDeep k t) e d.1)
joined-IsDeep n i p (Tree.digest j h) hp w le d = (le, tt)

KidsDeep : ℕ → Bool × Kids → Type 0
KidsDeep n r = KidsIsDeep n r.1

branch-Deep :
    (n i : ℕ) (ks : Kids) (r : Bool × Kids)
    → length (slots ks) ≡ 16
    → KidsKeeps ks r
    → 1 ≤ n
    → KidsIsDeep (n - 1) ks
    → KidsDeep (n - 1) r
    → Ensures (Deep n) (branch_delete i ks r)
unfolding branch_delete Deep KidsDeep
branch-Deep n i ks (true, ks') s k le d h =
    shrunk-Deep n i ks' (live 0 ks') refl k.wf (k.size ∙ s) le h
branch-Deep n i ks (false, ks') s k le d h = on_ok (le, d)

extension-Deep :
    (n i : ℕ) (p : List ℕ) (t : Tree) (r : Bool × Tree)
    → All IsNib (prefix_to_nibs p)
    → Keeps t r
    → IsDeep n (extension i p t)
    → Deep (n - length (prefix_to_nibs p)) r
    → Ensures (Deep n) (extension_delete i p t r)
unfolding extension_delete Deep
extension-Deep n i p t (true, t') hp k d h = on_ok (joined-IsDeep n i p t' hp k.wf d.0 h)
extension-Deep n i p t (false, t') hp k d h = on_ok d

child-Deep :
    (n : ℕ) (t : Tree) (ks : Kids) (r : Bool × Tree)
    → KidsIsDeep n (child t ks)
    → Deep n r
    → Ensures (KidsDeep n) (child_delete t ks r)
unfolding child_delete kept Deep KidsDeep
child-Deep n t ks (false, t') d h = on_ok d
child-Deep n t ks (true, null j) d h = on_ok d.1
child-Deep n t ks (true, branch j ls) d h = on_ok (h, d.1)
child-Deep n t ks (true, leaf j p v) d h = on_ok (h, d.1)
child-Deep n t ks (true, extension j p u) d h = on_ok (h, d.1)
child-Deep n t ks (true, Tree.digest j g) d h = on_ok (h, d.1)

below-Deep :
    (n i : ℕ) (p : List ℕ) (t : Tree) (o : Option (List ℕ))
    → IsDeep n (extension i p t)
    → ((tail : List ℕ) → Ensures (Deep n) (tree_delete t tail >>= extension_delete i p t))
    → Ensures
        (Deep n)
        (delete_below (extension i p t) (λ k. tree_delete t k >>= extension_delete i p t) o)
unfolding Deep
below-Deep n i p t none d h = on_ok d
below-Deep n i p t (some tail) d h = h tail

leaf-Deep :
    (n i : ℕ) (p v : List ℕ) (b : Bool)
    → IsDeep n (leaf i p v)
    → Ensures {E = Error} (Deep n) (if b then ok (true, null i) else ok (false, leaf i p v))
unfolding Deep
leaf-Deep n i p v true d = on_ok tt
leaf-Deep n i p v false d = on_ok d

mutual
  unfolding tree_delete kids_delete Deep KidsDeep

  delete-Deep :
      (n : ℕ) (t : Tree) (key : List ℕ) → Wf t → IsDeep n t → Ensures (Deep n) (tree_delete t key)
  delete-Deep n (null i) key w d = on_ok tt
  delete-Deep n (branch i ks) [] w d = on_err
  delete-Deep n (branch i ks) (x ∷ key) w d =
      Ensures-bind
        (Ensures-both (kids_delete-KidsKeeps ks x key w.2)
          (kids_delete-Deep (n - 1) ks x key w.2 d.1))
        λ r h. branch-Deep n i ks r w.0 h.0 d.0 d.1 h.1
  delete-Deep n (leaf i p v) key w d = leaf-Deep n i p v (bytes_eq (prefix_to_nibs p) key) d
  delete-Deep n (extension i p t) key w d =
      below-Deep n i p t (strip_prefix (prefix_to_nibs p) key) d λ tail.
        Ensures-bind
          (Ensures-both (tree_delete-Keeps t tail w.2)
            (delete-Deep (n - length (prefix_to_nibs p)) t tail w.2 d.1))
          λ r h. extension-Deep n i p t r (prefix_to_nibs-IsNib p w.0) h.0 d h.1
  delete-Deep n (Tree.digest i h) key w d = not_resolved-Ensures h

  kids_delete-Deep :
      (n : ℕ) (ks : Kids) (x : ℕ) (key : List ℕ)
      → KidsWf ks
      → KidsIsDeep n ks
      → Ensures (KidsDeep n) (kids_delete ks x key)
  kids_delete-Deep n end x key w d = on_panic
  kids_delete-Deep n (absent ks) zero key w d = on_ok d
  kids_delete-Deep n (absent ks) (suc x) key w d =
      Ensures-bind (kids_delete-Deep n ks x key w d) λ r h. on_ok h
  kids_delete-Deep n (child t ks) zero key w d =
      Ensures-bind (delete-Deep n t key w.0 d.0) λ r h. child-Deep n t ks r d h
  kids_delete-Deep n (child t ks) (suc x) key w d =
      Ensures-bind (kids_delete-Deep n ks x key w.1 d.1) λ r h. on_ok (d.0, h)

pub tree_delete-IsDeep :
    (n : ℕ) (t : Tree) (key : List ℕ)
    → Wf t
    → IsDeep n t
    → Ensures (λ r. IsDeep n r.1) (tree_delete t key)
unfolding Deep
tree_delete-IsDeep n t key w d = delete-Deep n t key w d
