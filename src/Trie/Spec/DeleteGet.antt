-- ===== src/Trie/Spec/DeleteGet.antt =====
-- Lookups in a tree after a deletion.
use ceno_reth_benchmark.Base.{
  ℕ, zero, suc, ◌≡◌, refl, ◌∙◌, inl, inr, Option-cases, Bool-cases, Bool, true, false, Option, none,
  some, List, [], ◌∷◌, ◌==◌, if◌then◌else◌, bytes_eq, bytes_eq→eq, All, arith,
}
use ceno_reth_benchmark.Base.Result.{
  ok, Ensures, on_ok, on_err, on_panic, Ensures-bind, Ensures-mono, Ensures-both,
}
use ceno_reth_benchmark.Hp.{IsNib, prefix_to_nibs}
use ceno_reth_benchmark.Hp.Compare.{strip_prefix, eq_of_strip_prefix}
use ceno_reth_benchmark.Trie.Tree.{
  Tree, null, branch, leaf, extension, Kids, end, absent, child, Wf, KidsWf,
}
use ceno_reth_benchmark.Trie.Spec.{
  Found, get_below, tree_get, kids_get, Changed, live, branch_delete, extension_delete,
  delete_below, kept, child_delete, tree_delete, kids_delete,
}
use ceno_reth_benchmark.Trie.Spec.Paths.{
  not_resolved-Ensures, eq_below, bytes_eq-append, strip_prefix-IsNib,
}
use ceno_reth_benchmark.Trie.Spec.DeleteMerge.{shrunk_get, joined_get}
use ceno_reth_benchmark.Trie.Spec.DeleteWf.{
  Keeps, KidsKeeps, tree_delete-Keeps, kids_delete-KidsKeeps,
}

-- What a deletion that reports `b` found under its key.
abbrev pub Was : Bool → Found → Type 0
Was true r = (v : List ℕ) × (r ≡ ok (some v))
Was false r = r ≡ ok none

-- After the deletion the key has no value, every other key is as before, and the flag says whether
-- the key had a value.
abbrev pub Deleted : Tree → List ℕ → Bool × Tree → Type 0
Deleted t key (b, t') =
    ((k : List ℕ)
      → All IsNib k
      → tree_get t' k ≡ (if bytes_eq key k then ok none else tree_get t k))
    × Was b (tree_get t key)

abbrev KidsDeleted : Kids → ℕ → List ℕ → Bool × Kids → Type 0
KidsDeleted ks x key (b, ks') =
    ((z : ℕ) (k : List ℕ)
      → All IsNib k
      → kids_get ks' z k ≡ (
          if z == x
          then (if bytes_eq key k then ok none else kids_get ks z k)
          else kids_get ks z k))
    × Was b (kids_get ks x key)

slots_deleted :
    (i x : ℕ) (ks ks' : Kids) (key : List ℕ)
    → KidsDeleted ks x key (true, ks')
    → (q : List ℕ) → All IsNib q
    → tree_get (branch i ks') q
      ≡ (if bytes_eq (x ∷ key) q then ok none else tree_get (branch i ks) q)
unfolding tree_get bytes_eq
slots_deleted i x ks ks' key h [] nq = refl
slots_deleted i x ks ks' key h (z ∷ q) nq = ground (arith, h.0 z q nq.1)

below_deleted :
    (t t' : Tree) (tail q : List ℕ) (o : Option (List ℕ))
    → ((u : List ℕ)
        → o ≡ some u
        → tree_get t' u ≡ (if bytes_eq tail u then ok none else tree_get t u))
    → get_below (tree_get t') o ≡ (if eq_below tail o then ok none else get_below (tree_get t) o)
below_deleted t t' tail q none h = refl
below_deleted t t' tail q (some u) h = h u refl

kids_get-kept :
    (t : Tree) (ks : Kids) (z : ℕ) (k : List ℕ)
    → kids_get (kept t ks) z k ≡ kids_get (child t ks) z k
unfolding kids_get kept tree_get
kids_get-kept (null i) ks zero k = refl
kids_get-kept (null i) ks (suc z) k = refl
kids_get-kept (branch i us) ks z k = refl
kids_get-kept (leaf i p v) ks z k = refl
kids_get-kept (extension i p t) ks z k = refl
kids_get-kept (Tree.digest i d) ks z k = refl

here_deleted :
    (t t' : Tree) (ks : Kids) (key : List ℕ)
    → ((k : List ℕ)
        → All IsNib k
        → tree_get t' k ≡ (if bytes_eq key k then ok none else tree_get t k))
    → (z : ℕ) (k : List ℕ) → All IsNib k
    → kids_get (child t' ks) z k ≡ (
        if z == zero
        then (if bytes_eq key k then ok none else kids_get (child t ks) z k)
        else kids_get (child t ks) z k)
unfolding kids_get
here_deleted t t' ks key h zero k nk = ground (arith, h k nk)
here_deleted t t' ks key h (suc z) k nk = ground arith

nothing-Deleted : (t : Tree) (key : List ℕ) → tree_get t key ≡ ok none → Deleted t key (false, t)
nothing-Deleted t key e = (λ k nk. ground (arith, bytes_eq→eq key k), e)

kids_nothing-Deleted :
    (ks : Kids) (x : ℕ) (key : List ℕ)
    → kids_get ks x key ≡ ok none
    → KidsDeleted ks x key (false, ks)
kids_nothing-Deleted ks x key e = (λ z k nk. ground (arith, bytes_eq→eq key k), e)

branch_delete-Deleted :
    (i x : ℕ) (ks : Kids) (key : List ℕ) (r : Bool × Kids)
    → Wf (branch i ks)
    → KidsKeeps ks r
    → KidsDeleted ks x key r
    → Ensures (Deleted (branch i ks) (x ∷ key)) (branch_delete i ks r)
unfolding branch_delete tree_get
branch_delete-Deleted i x ks key (false, ks') w k h =
    on_ok (nothing-Deleted (branch i ks) (x ∷ key) h.1)
branch_delete-Deleted i x ks key (true, ks') w k h =
    Ensures-mono (shrunk_get i ks' (live 0 ks') refl k.wf (k.size ∙ w.0))
      λ r g. (λ q nq. g.1 q nq ∙ slots_deleted i x ks ks' key h q nq, rw g.0 h.1)

extension_delete-Deleted :
    (i : ℕ) (p : List ℕ) (t : Tree) (key tail : List ℕ) (r : Bool × Tree)
    → Wf (extension i p t)
    → strip_prefix (prefix_to_nibs p) key ≡ some tail
    → Keeps t r
    → Deleted t tail r
    → Ensures (Deleted (extension i p t) key) (extension_delete i p t r)
unfolding extension_delete tree_get
extension_delete-Deleted i p t key tail (false, t') w e k h =
    on_ok (nothing-Deleted (extension i p t) key (rw e h.1))
extension_delete-Deleted i p t key tail (true, t') w e k h = on_ok (
  λ q nq.
      joined_get i p t' q w.0 k.wf
      ∙ rw (eq_of_strip_prefix (prefix_to_nibs p) key e, bytes_eq-append (prefix_to_nibs p) tail q)
          (below_deleted t t' tail q (strip_prefix (prefix_to_nibs p) q)
            λ u s. h.0 u (strip_prefix-IsNib (prefix_to_nibs p) q nq s)),
  rw e h.1,
)

child_delete-Deleted :
    (t : Tree) (ks : Kids) (key : List ℕ) (r : Bool × Tree)
    → Deleted t key r
    → Ensures (KidsDeleted (child t ks) zero key) (child_delete t ks r)
unfolding child_delete kids_get
child_delete-Deleted t ks key (false, t') h = on_ok (kids_nothing-Deleted (child t ks) zero key h.1)
child_delete-Deleted t ks key (true, t') h =
    on_ok (λ z k nk. kids_get-kept t' ks z k ∙ here_deleted t t' ks key h.0 z k nk, h.1)

skip_absent-Deleted :
    (x : ℕ) (key : List ℕ) (ks : Kids) (r : Bool × Kids)
    → KidsDeleted ks x key r
    → KidsDeleted (absent ks) (suc x) key (r.0, absent r.1)
unfolding kids_get
skip_absent-Deleted x key ks r h = (go, h.1)
  where
    go :
        (z : ℕ) (k : List ℕ)
        → All IsNib k
        → kids_get (absent r.1) z k ≡ (
            if z == suc x
            then (if bytes_eq key k then ok none else kids_get (absent ks) z k)
            else kids_get (absent ks) z k)
    go zero k nk = ground arith
    go (suc z) k nk = ground (arith, h.0 z k nk)

skip_child-Deleted :
    (x : ℕ) (key : List ℕ) (t : Tree) (ks : Kids) (r : Bool × Kids)
    → KidsDeleted ks x key r
    → KidsDeleted (child t ks) (suc x) key (r.0, child t r.1)
unfolding kids_get
skip_child-Deleted x key t ks r h = (go, h.1)
  where
    go :
        (z : ℕ) (k : List ℕ)
        → All IsNib k
        → kids_get (child t r.1) z k ≡ (
            if z == suc x
            then (if bytes_eq key k then ok none else kids_get (child t ks) z k)
            else kids_get (child t ks) z k)
    go zero k nk = ground arith
    go (suc z) k nk = ground (arith, h.0 z k nk)

delete_below-Deleted :
    (i : ℕ) (p : List ℕ) (t : Tree) (key : List ℕ) (rec : List ℕ → Changed)
    → ((tail : List ℕ)
        → strip_prefix (prefix_to_nibs p) key ≡ some tail
        → Ensures (Deleted (extension i p t) key) (rec tail))
    → Ensures
        (Deleted (extension i p t) key)
        (delete_below (extension i p t) rec (strip_prefix (prefix_to_nibs p) key))
unfolding tree_get
delete_below-Deleted i p t key rec h = elim (Option-cases (strip_prefix (prefix_to_nibs p) key)) [
  | inl e ↦ rw e (on_ok (nothing-Deleted (extension i p t) key (rw e)))
  | inr (tail, e) ↦ rw e (h tail e)
]

mutual
  unfolding tree_delete tree_get kids_get

  delete-Deleted :
      (t : Tree) (key : List ℕ) → Wf t → All IsNib key → Ensures (Deleted t key) (tree_delete t key)
  delete-Deleted (null i) key w nk = on_ok (nothing-Deleted (null i) key refl)
  delete-Deleted (branch i ks) [] w nk = on_err
  delete-Deleted (branch i ks) (x ∷ key) w nk =
      Ensures-bind
        (Ensures-both (kids_delete-KidsKeeps ks x key w.2) (kids_delete-Deleted ks x key w.2 nk.1))
        λ r h. branch_delete-Deleted i x ks key r w h.0 h.1
  delete-Deleted (leaf i p v) key w nk = elim (Bool-cases (bytes_eq (prefix_to_nibs p) key)) [
    | inl e ↦ rw e (on_ok (λ k _. ground (arith, bytes_eq→eq (prefix_to_nibs p) key), (v, rw e)))
    | inr e ↦ rw e (on_ok (nothing-Deleted (leaf i p v) key (rw e)))
  ]
  delete-Deleted (extension i p t) key w nk = delete_below-Deleted i p t key _ λ tail e.
      Ensures-bind
        (Ensures-both (tree_delete-Keeps t tail w.2)
          (delete-Deleted t tail w.2 (strip_prefix-IsNib (prefix_to_nibs p) key nk e)))
        λ r h. extension_delete-Deleted i p t key tail r w e h.0 h.1
  delete-Deleted (Tree.digest i d) key w nk = not_resolved-Ensures d

  kids_delete-Deleted :
      (ks : Kids) (x : ℕ) (key : List ℕ)
      → KidsWf ks
      → All IsNib key
      → Ensures (KidsDeleted ks x key) (kids_delete ks x key)
  kids_delete-Deleted end x key w nk = on_panic
  kids_delete-Deleted (absent ks) zero key w nk =
      on_ok (kids_nothing-Deleted (absent ks) zero key refl)
  kids_delete-Deleted (absent ks) (suc x) key w nk =
      Ensures-bind (kids_delete-Deleted ks x key w nk)
        λ r h. on_ok (skip_absent-Deleted x key ks r h)
  kids_delete-Deleted (child t ks) zero key w nk =
      Ensures-bind (delete-Deleted t key w.0 nk) λ r h. child_delete-Deleted t ks key r h
  kids_delete-Deleted (child t ks) (suc x) key w nk =
      Ensures-bind (kids_delete-Deleted ks x key w.1 nk)
        λ r h. on_ok (skip_child-Deleted x key t ks r h)

pub tree_delete-Deleted :
    (t : Tree) (key : List ℕ) → Wf t → All IsNib key → Ensures (Deleted t key) (tree_delete t key)
tree_delete-Deleted t key w nk = delete-Deleted t key w nk
