-- ===== src/Trie/Spec/DeleteWf.antt =====
-- A deletion keeps a tree well formed, at its index, and takes up no new indices.
use ceno_reth_benchmark.Base.{
  ℕ, zero, suc, ◌+◌, ◌≤◌, ◌<◌, ◌≡◌, refl, subst, ◌∙◌, inl, inr, Bool-cases, Bool, true, false,
  Option, none, some, List, [], ◌∷◌, ◌++◌, bytes_eq, arith, length, All-append, ap,
}
use ceno_reth_benchmark.Base.Result.{Ensures, on_ok, on_err, on_panic, Ensures-bind}
use ceno_reth_benchmark.Hp.{IsNib, prefix_to_nibs}
use ceno_reth_benchmark.Hp.Compare.{strip_prefix}
use ceno_reth_benchmark.Hp.Encode.{encoded-IsByte}
use ceno_reth_benchmark.Trie.Tree.{
  Tree, null, branch, leaf, extension, Kids, end, absent, child, Wf, KidsWf, mem, kids_mem, slots,
  id_of, is_null,
}
use ceno_reth_benchmark.Trie.Spec.{
  Changed, live, absorbed, shrunk, joined, branch_delete, extension_delete, delete_below, kept,
  child_delete, tree_delete, kids_delete,
}
use ceno_reth_benchmark.Trie.Spec.Paths.{prefix_to_nibs-IsNib, not_resolved-Ensures}

abbrev pub Within : Tree → Tree → Type 0
Within t' t = (j : ℕ) → mem j t' ≡ true → mem j t ≡ true

abbrev pub KidsWithin : Kids → Kids → Type 0
KidsWithin ks' ks = (j : ℕ) → kids_mem j ks' ≡ true → kids_mem j ks ≡ true

pub record Keeps (t : Tree) (r : Bool × Tree) : Type 0 where
  pub wf : Wf r.1
  pub id : id_of r.1 ≡ id_of t
  pub within : Within r.1 t
  pub same : r.0 ≡ false → r.1 ≡ t

pub record KidsKeeps (ks : Kids) (r : Bool × Kids) : Type 0 where
  pub wf : KidsWf r.1
  pub size : length (slots r.1) ≡ length (slots ks)
  pub within : KidsWithin r.1 ks
  pub same : r.0 ≡ false → r.1 ≡ ks

-- The only child that is left.
pub record Single (b : ℕ) (ks : Kids) (x : ℕ) (t : Tree) : Type 0 where
  pub wf : Wf t
  pub inside : (j : ℕ) → mem j t ≡ true → kids_mem j ks ≡ true
  pub from : b ≤ x
  pub to : x < b + length (slots ks)

pub live-Single :
    (b : ℕ) (ks : Kids) {x : ℕ} {t : Tree} {more : List (ℕ × Tree)}
    → live b ks ≡ (x, t) ∷ more
    → KidsWf ks
    → Single b ks x t
unfolding live
live-Single b end e w = cc
live-Single b (absent ks) e w =
    let s = live-Single (suc b) ks e w in
    record { wf = s.wf; inside = s.inside; from = omega arith; to = omega arith }
live-Single b (child u ks) {x} {t} e w =
    let ux : u ≡ t = cc in
    record {
      wf = subst Wf ux w.0;
      inside = λ j h. ground arith;
      from = ground arith;
      to = ground arith;
    }

absorbed-Keeps :
    (i : ℕ) (ks : Kids) (x : ℕ) (t : Tree)
    → kids_mem i ks ≡ false
    → Single 0 ks x t
    → x < 16
    → Ensures
        (λ t'. Wf t' × (id_of t' ≡ i) × ((j : ℕ) → mem j t' ≡ true → mem j (branch i ks) ≡ true))
        (absorbed i x t)
unfolding absorbed
absorbed-Keeps i ks x (null j) out s h = on_panic
absorbed-Keeps i ks x (branch j us) out s h = on_ok (
  (encoded-IsByte (x ∷ []) false (h, tt), ground (arith, s.inside i), s.wf),
  refl,
  λ k m. ground (arith, s.inside k),
)
absorbed-Keeps i ks x (leaf j p v) out s h = on_ok (
  encoded-IsByte (x ∷ prefix_to_nibs p) true (h, prefix_to_nibs-IsNib p s.wf),
  refl,
  λ k m. ground arith,
)
absorbed-Keeps i ks x (extension j p t) out s h = on_ok (
  (
    encoded-IsByte (x ∷ prefix_to_nibs p) false (h, prefix_to_nibs-IsNib p s.wf.0),
    ground (arith, s.inside i),
    s.wf.2,
  ),
  refl,
  λ k m. ground (arith, s.inside k),
)
absorbed-Keeps i ks x (Tree.digest j d) out s h = on_ok (
  (encoded-IsByte (x ∷ []) false (h, tt), ground (arith, s.inside i), s.wf),
  refl,
  λ k m. ground (arith, s.inside k),
)

shrunk-Keeps :
    (i : ℕ) (ks : Kids) (r : Bool × Kids) (l : List (ℕ × Tree))
    → Wf (branch i ks)
    → KidsKeeps ks r
    → live 0 r.1 ≡ l
    → Ensures (Keeps (branch i ks)) (shrunk i r.1 l)
unfolding shrunk
shrunk-Keeps i ks r [] w k e = on_panic
shrunk-Keeps i ks r ((x, t) ∷ []) w k e =
    let s = live-Single 0 r.1 e k.wf in
    let out : kids_mem i r.1 ≡ false = ground (arith, k.within i) in
    Ensures-bind (absorbed-Keeps i r.1 x t out s (omega (arith, s.to, k.size))) λ t' h.
      on_ok (record {
        wf = h.0;
        id = h.1;
        within = λ j m. ground (arith, h.2 j m, k.within j);
        same = λ d. cc;
      })
shrunk-Keeps i ks r (a ∷ b ∷ l) w k e = on_ok (record {
  wf = (k.size ∙ w.0, ground (arith, k.within i), k.wf);
  id = refl;
  within = λ j m. ground (arith, k.within j);
  same = λ d. cc;
})

branch_delete-Keeps :
    (i : ℕ) (ks : Kids) (r : Bool × Kids)
    → Wf (branch i ks)
    → KidsKeeps ks r
    → Ensures (Keeps (branch i ks)) (branch_delete i ks r)
unfolding branch_delete
branch_delete-Keeps i ks (false, ks') w k =
    on_ok (record { wf = w; id = refl; within = λ j m. m; same = λ d. refl })
branch_delete-Keeps i ks (true, ks') w k = shrunk-Keeps i ks (true, ks') (live 0 ks') w k refl

joined-Keeps :
    (i : ℕ) (p : List ℕ) (t : Tree) (r : Bool × Tree)
    → Wf (extension i p t)
    → Keeps t r
    → Keeps (extension i p t) (true, joined i p r.1)
unfolding joined
joined-Keeps i p t (b, t') w k = go t' k.wf (λ j. k.within j)
  where
    go : (t' : Tree) → Wf t' → Within t' t → Keeps (extension i p t) (true, joined i p t')
    go (null j) w' h = record { wf = tt; id = refl; within = λ j m. ground arith; same = λ d. cc }
    go (branch j us) w' h = record {
      wf = (w.0, ground (arith, h i), w');
      id = refl;
      within = λ j m. ground (arith, h j);
      same = λ d. cc;
    }
    go (leaf j q v) w' h = record {
      wf = encoded-IsByte (prefix_to_nibs p ++ prefix_to_nibs q) true (
          All-append IsNib (prefix_to_nibs p) (prefix_to_nibs q) (prefix_to_nibs-IsNib p w.0)
            (prefix_to_nibs-IsNib q w'));
      id = refl;
      within = λ j m. ground arith;
      same = λ d. cc;
    }
    go (extension j q u) w' h = record {
      wf = (
        encoded-IsByte (prefix_to_nibs p ++ prefix_to_nibs q) false (
            All-append IsNib (prefix_to_nibs p) (prefix_to_nibs q) (prefix_to_nibs-IsNib p w.0)
              (prefix_to_nibs-IsNib q w'.0)),
        ground (arith, h i),
        w'.2,
      );
      id = refl;
      within = λ j m. ground (arith, h j);
      same = λ d. cc;
    }
    go (Tree.digest j d) w' h = record {
      wf = (w.0, ground (arith, h i), w');
      id = refl;
      within = λ j m. ground (arith, h j);
      same = λ d. cc;
    }

extension_delete-Keeps :
    (i : ℕ) (p : List ℕ) (t : Tree) (r : Bool × Tree)
    → Wf (extension i p t)
    → Keeps t r
    → Ensures (Keeps (extension i p t)) (extension_delete i p t r)
unfolding extension_delete
extension_delete-Keeps i p t (false, t') w k =
    on_ok (record { wf = w; id = refl; within = λ j m. m; same = λ d. refl })
extension_delete-Keeps i p t (true, t') w k = on_ok (joined-Keeps i p t (true, t') w k)

child_delete-Keeps :
    (t : Tree) (ks : Kids) (r : Bool × Tree)
    → KidsWf (child t ks)
    → Keeps t r
    → Ensures (KidsKeeps (child t ks)) (child_delete t ks r)
unfolding child_delete kept
child_delete-Keeps t ks (false, t') w k =
    on_ok (record { wf = w; size = refl; within = λ j m. m; same = λ d. refl })
child_delete-Keeps t ks (true, t') w k = elim (Bool-cases (is_null t')) [
  | inl gone ↦
      rw gone
        (on_ok (record { wf = w.1; size = refl; within = λ j m. ground arith; same = λ d. cc }))
  | inr stays ↦ rw stays (
      on_ok (record {
        wf = (k.wf, w.1, λ j m. w.2 j (k.within j m));
        size = refl;
        within = λ j m. ground (arith, k.within j);
        same = λ d. cc;
      }))
]

skip_absent-Keeps :
    (ks : Kids) (r : Bool × Kids) → KidsKeeps ks r → KidsKeeps (absent ks) (r.0, absent r.1)
skip_absent-Keeps ks r k = record {
  wf = k.wf;
  size = ap suc k.size;
  within = k.within;
  same = λ d. ap absent (k.same d);
}

skip_child-Keeps :
    (t : Tree) (ks : Kids) (r : Bool × Kids)
    → KidsWf (child t ks)
    → KidsKeeps ks r
    → KidsKeeps (child t ks) (r.0, child t r.1)
skip_child-Keeps t ks r w k = record {
  wf = (w.0, k.wf, λ j m. ground (arith, w.2 j m, k.within j));
  size = ap suc k.size;
  within = λ j m. ground (arith, k.within j);
  same = λ d. ap (child t) (k.same d);
}

unchanged : (t : Tree) → Wf t → Keeps t (false, t)
unchanged t w = record { wf = w; id = refl; within = λ j m. m; same = λ d. refl }

delete_below-Keeps :
    (t : Tree) (rec : List ℕ → Changed) (o : Option (List ℕ))
    → Wf t
    → ((k : List ℕ) → Ensures (Keeps t) (rec k))
    → Ensures (Keeps t) (delete_below t rec o)
delete_below-Keeps t rec none w h = on_ok (unchanged t w)
delete_below-Keeps t rec (some tail) w h = h tail

mutual
  unfolding tree_delete

  delete-Keeps : (t : Tree) (key : List ℕ) → Wf t → Ensures (Keeps t) (tree_delete t key)
  delete-Keeps (null i) key w = on_ok (unchanged (null i) w)
  delete-Keeps (branch i ks) [] w = on_err
  delete-Keeps (branch i ks) (x ∷ key) w =
      Ensures-bind (kids_delete-Keeps ks x key w.2) λ r k. branch_delete-Keeps i ks r w k
  delete-Keeps (leaf i p v) key w = elim (Bool-cases (bytes_eq (prefix_to_nibs p) key)) [
    | inl e ↦ rw e (on_ok (record { wf = tt; id = refl; within = λ j m. m; same = λ d. cc }))
    | inr e ↦ rw e (on_ok (unchanged (leaf i p v) w))
  ]
  delete-Keeps (extension i p t) key w =
      delete_below-Keeps (extension i p t) _ (strip_prefix (prefix_to_nibs p) key) w
        λ k. Ensures-bind (delete-Keeps t k w.2) λ r h. extension_delete-Keeps i p t r w h
  delete-Keeps (Tree.digest i d) key w = not_resolved-Ensures d

  kids_delete-Keeps :
      (ks : Kids) (x : ℕ) (key : List ℕ) → KidsWf ks → Ensures (KidsKeeps ks) (kids_delete ks x key)
  kids_delete-Keeps end x key w = on_panic
  kids_delete-Keeps (absent ks) zero key w =
      on_ok (record { wf = w; size = refl; within = λ j m. m; same = λ d. refl })
  kids_delete-Keeps (absent ks) (suc x) key w =
      Ensures-bind (kids_delete-Keeps ks x key w) λ r k. on_ok (skip_absent-Keeps ks r k)
  kids_delete-Keeps (child t ks) zero key w =
      Ensures-bind (delete-Keeps t key w.0) λ r k. child_delete-Keeps t ks r w k
  kids_delete-Keeps (child t ks) (suc x) key w =
      Ensures-bind (kids_delete-Keeps ks x key w.1) λ r k. on_ok (skip_child-Keeps t ks r w k)

pub tree_delete-Keeps : (t : Tree) (key : List ℕ) → Wf t → Ensures (Keeps t) (tree_delete t key)
tree_delete-Keeps t key w = delete-Keeps t key w

pub kids_delete-KidsKeeps :
    (ks : Kids) (x : ℕ) (key : List ℕ) → KidsWf ks → Ensures (KidsKeeps ks) (kids_delete ks x key)
kids_delete-KidsKeeps ks x key w = kids_delete-Keeps ks x key w
