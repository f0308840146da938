-- ===== src/Trie/Slots/Put.antt =====
-- The indices below a branch after a write to one of its slots.
use ceno_reth_benchmark.Base.{
  ℕ, zero, suc, ◌≡◌, refl, ◌∙◌, ap, ◌⊎◌, inr, true, false, Option, none, some, arith, length, ltb,
  if◌then◌else◌, length-set,
}
use ceno_reth_benchmark.Base.Result.{Result, ok, panic, ◌>>=◌}
use ceno_reth_benchmark.Trie.{Error}
use ceno_reth_benchmark.Trie.Tree.{Tree, Kids, end, absent, child, mem, kids_mem, slots, Wf, KidsWf}
use ceno_reth_benchmark.Trie.Spec.{put_kid}
use ceno_reth_benchmark.Trie.Slots.{kid_at, put, kid_at-Inside, slots-put, id?}

pub length-slots-put :
    (ks : Kids) (x : ℕ) (o : Option Tree) → length (slots (put ks x o)) ≡ length (slots ks)
length-slots-put ks x o = ap length (slots-put ks x o) ∙ length-set (slots ks) x (id? o)

pub kids_mem-put-none :
    (j : ℕ) (ks : Kids) (x : ℕ) → kids_mem j (put ks x none) ≡ true → kids_mem j ks ≡ true
unfolding put
kids_mem-put-none j end x h = h
kids_mem-put-none j (absent ks) zero h = h
kids_mem-put-none j (absent ks) (suc x) h = kids_mem-put-none j ks x h
kids_mem-put-none j (child u ks) zero h = ground arith
kids_mem-put-none j (child u ks) (suc x) h = ground (arith, kids_mem-put-none j ks x)

pub kids_mem-put :
    (j : ℕ) (ks : Kids) (x : ℕ) (t : Tree)
    → kids_mem j (put ks x (some t)) ≡ true
    → (mem j t ≡ true) ⊎ (kids_mem j (put ks x none) ≡ true)
unfolding put
kids_mem-put j end x t h = inr h
kids_mem-put j (absent ks) zero t h = ground arith
kids_mem-put j (absent ks) (suc x) t h = kids_mem-put j ks x t h
kids_mem-put j (child u ks) zero t h = ground arith
kids_mem-put j (child u ks) (suc x) t h = ground (arith, kids_mem-put j ks x t)

pub put-none-apart :
    (j : ℕ) (ks : Kids) (x : ℕ) (t : Tree)
    → KidsWf ks
    → kid_at ks x ≡ some (some t)
    → kids_mem j (put ks x none) ≡ true
    → mem j t ≡ false
unfolding put kid_at
put-none-apart j end x t w e h = cc
put-none-apart j (absent ks) zero t w e h = cc
put-none-apart j (absent ks) (suc x) t w e h = put-none-apart j ks x t w e h
put-none-apart j (child u ks) zero t w e h = let q : u ≡ t = cc in rw (← q) (ground (arith, w.2 j))
put-none-apart j (child u ks) (suc x) t w e h =
    let i = kid_at-Inside ks x t w.1 e in
    ground (arith, put-none-apart j ks x t w.1 e, w.2 j, i.mem_kids j)

pub put-KidsWf :
    (ks : Kids) (x : ℕ) (t : Tree)
    → KidsWf ks
    → Wf t
    → ((j : ℕ) → mem j t ≡ true → kids_mem j (put ks x none) ≡ false)
    → KidsWf (put ks x (some t))
unfolding put
put-KidsWf end x t w v d = tt
put-KidsWf (absent ks) zero t w v d = (v, w, d)
put-KidsWf (absent ks) (suc x) t w v d = put-KidsWf ks x t w v d
put-KidsWf (child u ks) zero t w v d = (v, w.1, d)
put-KidsWf (child u ks) (suc x) t w v d = (
  w.0,
  put-KidsWf ks x t w.1 v (λ j m. ground (arith, d j m)),
  λ j m. ground (arith, w.2 j m, d j, kids_mem-put j ks x t, kids_mem-put-none j ks x),
)

pub put-none-KidsWf : (ks : Kids) (x : ℕ) → KidsWf ks → KidsWf (put ks x none)
unfolding put
put-none-KidsWf end x w = tt
put-none-KidsWf (absent ks) zero w = w
put-none-KidsWf (absent ks) (suc x) w = put-none-KidsWf ks x w
put-none-KidsWf (child u ks) zero w = w.1
put-none-KidsWf (child u ks) (suc x) w =
    (w.0, put-none-KidsWf ks x w.1, λ j m. ground (arith, w.2 j m, kids_mem-put-none j ks x))

-- A write that is checked.
put_checked : ℕ → Kids → ℕ → Tree → Result Error Kids
put_checked n ks x t = if ltb x n then ok (put ks x (some t)) else panic

put_kid_skip :
    (f : Kids → Kids) (us ks : Kids) (x n : ℕ) (t : Tree)
    → put us (suc x) (some t) ≡ f (put ks x (some t))
    → (put_checked n ks x t >>= λ r. ok (f r)) ≡ put_checked (suc n) us (suc x) t
unfolding put_checked
put_kid_skip f us ks x n t h = ground arith

pub put_kid_lem :
    (ks : Kids) (x : ℕ) (t : Tree)
    → put_kid ks x t ≡ (if ltb x (length (slots ks)) then ok (put ks x (some t)) else panic)
unfolding put_kid put put_checked
put_kid_lem end x t = ground arith
put_kid_lem (absent ks) zero t = ground arith
put_kid_lem (absent ks) (suc x) t =
    rw (put_kid_lem ks x t) (put_kid_skip absent (absent ks) ks x (length (slots ks)) t refl)
put_kid_lem (child u ks) zero t = ground arith
put_kid_lem (child u ks) (suc x) t =
    rw (put_kid_lem ks x t) (put_kid_skip (child u) (child u ks) ks x (length (slots ks)) t refl)
