-- ===== src/Trie/Slots.antt =====
-- The slots of a branch by their number: what stands at one, and what a write to one changes.
pub mod Put
pub mod Steps
use ceno_reth_benchmark.Base.{
  ℕ, zero, suc, ◌+◌, ◌≤◌, ◌<◌, ◌≡◌, refl, sym, subst, ◌∙◌, ◌≢◌, inl, inr, Option-cases, Bool-cases,
  Bool, true, false, Option, none, some, List, [], ◌∷◌, ◌==◌, ◌||◌, if◌then◌else◌, arith, length,
  get_elem?, set, ap,
}
use mathlib.Core.Option
use ceno_reth_benchmark.Base.Result.{Result, ok, panic, ◌>>=◌}
use ceno_reth_benchmark.Hp.Encode.{encoded}
use ceno_reth_benchmark.Trie.{Mpt, NodeRef}
use ceno_reth_benchmark.Trie.Tree.{
  Tree, leaf, Kids, end, absent, child, mem, kids_mem, id_of, slots, height, kids_height, KidsRep,
  Rep, Wf, KidsWf, is_null,
}
use ceno_reth_benchmark.Trie.Arena.{SameAt, Rep-frame, KidsRep-frame}
use ceno_reth_benchmark.Trie.Spec.{
  Found, tree_get, kids_get, Changed, KidsChanged, tree_insert, kids_insert, tree_delete,
  kids_delete, kept, child_delete,
}

unfoldable pub kid_at : Kids → ℕ → Option (Option Tree)
kid_at end x = none
kid_at (absent ks) zero = some none
kid_at (absent ks) (suc x) = kid_at ks x
kid_at (child t ks) zero = some (some t)
kid_at (child t ks) (suc x) = kid_at ks x

abbrev pub slot_of : Option Tree → Kids → Kids
slot_of none ks = absent ks
slot_of (some t) ks = child t ks

-- Past the end nothing is written.
unfoldable pub put : Kids → ℕ → Option Tree → Kids
put end x o = end
put (absent ks) zero o = slot_of o ks
put (child _ ks) zero o = slot_of o ks
put (absent ks) (suc x) o = absent (put ks x o)
put (child u ks) (suc x) o = child u (put ks x o)

abbrev pub id? : Option Tree → Option ℕ
id? none = none
id? (some t) = some (id_of t)

abbrev pub ids? : Option (Option Tree) → Option (Option ℕ)
ids? none = none
ids? (some o) = some (id? o)

pub slots-kid_at : (ks : Kids) (x : ℕ) → get_elem? (slots ks) x ≡ ids? (kid_at ks x)
unfolding kid_at
slots-kid_at end x = refl
slots-kid_at (absent ks) zero = refl
slots-kid_at (absent ks) (suc x) = slots-kid_at ks x
slots-kid_at (child t ks) zero = refl
slots-kid_at (child t ks) (suc x) = slots-kid_at ks x

pub slots-put :
    (ks : Kids) (x : ℕ) (o : Option Tree) → slots (put ks x o) ≡ set (slots ks) x (id? o)
unfolding put
slots-put end x o = refl
slots-put (absent ks) zero none = refl
slots-put (absent ks) zero (some t) = refl
slots-put (child u ks) zero none = refl
slots-put (child u ks) zero (some t) = refl
slots-put (absent ks) (suc x) o = ap (λ l. none ∷ l) (slots-put ks x o)
slots-put (child u ks) (suc x) o = ap (λ l. some (id_of u) ∷ l) (slots-put ks x o)

-- A new child with the old one's id leaves the slots as they are.
pub slots-put_same :
    (ks : Kids) (x : ℕ) (t t' : Tree)
    → kid_at ks x ≡ some (some t)
    → id_of t' ≡ id_of t
    → slots (put ks x (some t')) ≡ slots ks
unfolding kid_at put
slots-put_same end x t t' e h = cc
slots-put_same (absent ks) zero t t' e h = cc
slots-put_same (absent ks) (suc x) t t' e h = ap (λ l. none ∷ l) (slots-put_same ks x t t' e h)
slots-put_same (child u ks) zero t t' e h = let q : u ≡ t = cc in rw (q, h)
slots-put_same (child u ks) (suc x) t t' e h =
    ap (λ l. some (id_of u) ∷ l) (slots-put_same ks x t t' e h)

pub put_self : (ks : Kids) (x : ℕ) (t : Tree) → kid_at ks x ≡ some (some t) → put ks x (some t) ≡ ks
unfolding kid_at put
put_self end x t e = refl
put_self (absent ks) zero t e = cc
put_self (absent ks) (suc x) t e = ap absent (put_self ks x t e)
put_self (child u ks) zero t e = let q : u ≡ t = cc in rw (q)
put_self (child u ks) (suc x) t e = ap (child u) (put_self ks x t e)

pub kid_at_lt : (ks : Kids) (x : ℕ) {o : Option Tree} → kid_at ks x ≡ some o → x < length (slots ks)
unfolding kid_at
kid_at_lt end x e = cc
kid_at_lt (absent ks) zero e = omega arith
kid_at_lt (absent ks) (suc x) e = omega (arith, kid_at_lt ks x e)
kid_at_lt (child u ks) zero e = omega arith
kid_at_lt (child u ks) (suc x) e = omega (arith, kid_at_lt ks x e)

-- A child in its slot is well formed, and stands in the branch's indices and height.
pub record Inside (ks : Kids) (t : Tree) : Type 0 where
  pub wf : Wf t
  pub mem_kids : (j : ℕ) → mem j t ≡ true → kids_mem j ks ≡ true
  pub height_le : height t ≤ kids_height ks

pub kid_at-Inside :
    (ks : Kids) (x : ℕ) (t : Tree) → KidsWf ks → kid_at ks x ≡ some (some t) → Inside ks t
unfolding kid_at
kid_at-Inside end x t w e = cc
kid_at-Inside (absent ks) zero t w e = cc
kid_at-Inside (absent ks) (suc x) t w e =
    let i = kid_at-Inside ks x t w e in
    record { wf = i.wf; mem_kids = i.mem_kids; height_le = i.height_le }
kid_at-Inside (child u ks) zero t w e =
    let q : u ≡ t = cc in
    record {
      wf = subst Wf q w.0;
      mem_kids = λ j m. ground arith;
      height_le = rw (← q) (omega arith);
    }
kid_at-Inside (child u ks) (suc x) t w e =
    let i = kid_at-Inside ks x t w.1 e in
    record {
      wf = i.wf;
      mem_kids = λ j m. ground (arith, i.mem_kids j);
      height_le = omega (arith, i.height_le);
    }

module _ (ref : Tree → NodeRef) where
  pub kid_at-Rep :
      (m : Mpt) (ks : Kids) (x : ℕ) (t : Tree)
      → KidsRep ref m ks
      → kid_at ks x ≡ some (some t)
      → Rep ref m t
  unfolding kid_at
  kid_at-Rep m end x t r e = cc
  kid_at-Rep m (absent ks) zero t r e = cc
  kid_at-Rep m (absent ks) (suc x) t r e = kid_at-Rep m ks x t r e
  kid_at-Rep m (child u ks) zero t r e = let q : u ≡ t = cc in subst (Rep ref m) q r.0
  kid_at-Rep m (child u ks) (suc x) t r e = kid_at-Rep m ks x t r.1 e

  -- A write to one slot keeps the others, if their indices are spared.
  pub put-Rep :
      (m m' : Mpt) (ks : Kids) (x : ℕ) (t t' : Tree)
      → KidsRep ref m ks
      → KidsWf ks
      → kid_at ks x ≡ some (some t)
      → ((j : ℕ) → kids_mem j ks ≡ true → mem j t ≡ false → SameAt m m' j)
      → Rep ref m' t'
      → KidsRep ref m' (put ks x (some t'))
  unfolding kid_at put
  put-Rep m m' end x t t' r w e s r' = cc
  put-Rep m m' (absent ks) zero t t' r w e s r' = cc
  put-Rep m m' (absent ks) (suc x) t t' r w e s r' = put-Rep m m' ks x t t' r w e s r'
  put-Rep m m' (child u ks) zero t t' r w e s r' =
      let q : u ≡ t = cc in
      (
        r',
        KidsRep-frame ref m m' ks r.1 λ j h. s j (ground arith) (rw (← q) (ground (arith, w.2 j))),
      )
  put-Rep m m' (child u ks) (suc x) t t' r w e s r' =
      let i = kid_at-Inside ks x t w.1 e in
      (
        Rep-frame ref m m' u r.0 λ j h. s j (ground arith) (ground (arith, i.mem_kids j, w.2 j h)),
        put-Rep m m' ks x t t' r.1 w.1 e (λ j h. s j (ground arith)) r',
      )

  pub put_empty-Rep :
      (m m' : Mpt) (ks : Kids) (x : ℕ) (t : Tree)
      → KidsRep ref m ks
      → KidsWf ks
      → kid_at ks x ≡ some (some t)
      → ((j : ℕ) → kids_mem j ks ≡ true → mem j t ≡ false → SameAt m m' j)
      → KidsRep ref m' (put ks x none)
  unfolding kid_at put
  put_empty-Rep m m' end x t r w e s = cc
  put_empty-Rep m m' (absent ks) zero t r w e s = cc
  put_empty-Rep m m' (absent ks) (suc x) t r w e s = put_empty-Rep m m' ks x t r w e s
  put_empty-Rep m m' (child u ks) zero t r w e s =
      let q : u ≡ t = cc in
      KidsRep-frame ref m m' ks r.1 λ j h. s j (ground arith) (rw (← q) (ground (arith, w.2 j)))
  put_empty-Rep m m' (child u ks) (suc x) t r w e s =
      let i = kid_at-Inside ks x t w.1 e in
      (
        Rep-frame ref m m' u r.0 λ j h. s j (ground arith) (ground (arith, i.mem_kids j, w.2 j h)),
        put_empty-Rep m m' ks x t r.1 w.1 e (λ j h. s j (ground arith)),
      )

  -- A new child in a free slot.
  pub put_free-Rep :
      (m m' : Mpt) (ks : Kids) (x : ℕ) (t' : Tree)
      → KidsRep ref m ks
      → kid_at ks x ≡ some none
      → ((j : ℕ) → kids_mem j ks ≡ true → SameAt m m' j)
      → Rep ref m' t'
      → KidsRep ref m' (put ks x (some t'))
  unfolding kid_at put
  put_free-Rep m m' end x t' r e s r' = cc
  put_free-Rep m m' (absent ks) zero t' r e s r' = (r', KidsRep-frame ref m m' ks r s)
  put_free-Rep m m' (absent ks) (suc x) t' r e s r' = put_free-Rep m m' ks x t' r e s r'
  put_free-Rep m m' (child u ks) zero t' r e s r' = cc
  put_free-Rep m m' (child u ks) (suc x) t' r e s r' = (
    Rep-frame ref m m' u r.0 λ j h. s j (ground arith),
    put_free-Rep m m' ks x t' r.1 e (λ j h. s j (ground arith)) r',
  )
