-- ===== src/Base/Maps.antt =====
-- Maps whose keys are byte strings, as association lists. The order of the entries is that in which
-- the map is walked.
use Prim.Native.Nat.{ℕ}
use mathlib.Core.Path.{◌≡◌, refl, sym, subst, ◌∙◌}
use mathlib.Core.Logic.{◌⊎◌, inl, inr}
use mathlib.Core.Bool.{Bool, true, false, false≢true}
use mathlib.Core.Option.{Option, none, some}
use mathlib.Core.List.{List, [], ◌∷◌, ◌++◌}
use ceno_reth_benchmark.Base.Tests.{if◌then◌else◌, bytes_eq, bytes_eq→eq, bytes_eq_refl, Bool-cases}

abbrev pub Key : Type 0
Key = List ℕ

abbrev pub Map : Type 0 → Type 0
Map A = List (Key × A)

module _ {A : Type 0} where
  unfoldable pub find? : Key → Map A → Option A
  find? k [] = none
  find? k ((j, a) ∷ m) = if bytes_eq j k then some a else find? k m

  unfoldable pub put : Key → A → Map A → Map A
  put k a [] = (k, a) ∷ []
  put k a ((j, b) ∷ m) = if bytes_eq j k then (k, a) ∷ m else (j, b) ∷ put k a m

  unfoldable pub erase : Key → Map A → Map A
  erase k [] = []
  erase k ((j, b) ∷ m) = if bytes_eq j k then erase k m else (j, b) ∷ erase k m

  abbrev pub is_some : Option A → Bool
  is_some none = false
  is_some (some a) = true

-- `contains` of a list of keys.
unfoldable pub contains : List Key → Key → Bool
contains [] k = false
contains (j ∷ ks) k = if bytes_eq j k then true else contains ks k

-- A test on two keys, with what it says.
pub keys_cases : (j k : Key) → ((bytes_eq j k ≡ true) × (j ≡ k)) ⊎ (bytes_eq j k ≡ false)
keys_cases j k = elim (Bool-cases (bytes_eq j k)) [
  | inl e ↦ inl (e, bytes_eq→eq j k e)
  | inr e ↦ inr e
]

module _ {A : Type 0} where
  pub find?-put :
      (j k : Key) (a : A) (m : Map A)
      → find? j (put k a m) ≡ (if bytes_eq k j then some a else find? j m)
  unfolding find? put
  find?-put j k a [] = refl
  find?-put j k a ((i, b) ∷ m) = elim (keys_cases i k) [
    | inl (e, same) ↦ rw e (rw same (go (bytes_eq k j)))
    | inr e ↦ rw e (rw (find?-put j k a m) (go_ne e (keys_cases i j) (keys_cases k j)))
  ]
    where
      go :
          (t : Bool)
          → (if t then some a else find? j m)
            ≡ (if t then some a else (if t then some b else find? j m))
      go true = refl
      go false = refl

      go_ne :
          bytes_eq i k ≡ false
          → (((bytes_eq i j ≡ true) × (i ≡ j)) ⊎ (bytes_eq i j ≡ false))
          → (((bytes_eq k j ≡ true) × (k ≡ j)) ⊎ (bytes_eq k j ≡ false))
          → (if bytes_eq i j then some b else (if bytes_eq k j then some a else find? j m))
            ≡ (if bytes_eq k j then some a else (if bytes_eq i j then some b else find? j m))
      go_ne e (inl p) (inl q) = absurd (false≢true (sym e ∙ rw (p.1, sym q.1) (bytes_eq_refl k)))
      go_ne e (inl p) (inr q) = rw (p.0, q)
      go_ne e (inr p) q = rw p

  pub find?-erase :
      (j k : Key) (m : Map A) → find? j (erase k m) ≡ (if bytes_eq k j then none else find? j m)
  unfolding find? erase
  find?-erase j k [] = go (bytes_eq k j)
    where
      go : (t : Bool) → ◌≡◌ {A = Option A} none (if t then none else none)
      go true = refl
      go false = refl
  find?-erase j k ((i, b) ∷ m) = elim (keys_cases i k) [
    | inl (e, same) ↦ rw e (rw (same, find?-erase j k m) (go (bytes_eq k j)))
    | inr e ↦ rw e (rw (find?-erase j k m) (go_ne e (keys_cases i j) (keys_cases k j)))
  ]
    where
      go :
          (t : Bool)
          → (if t then none else find? j m)
            ≡ (if t then none else (if t then some b else find? j m))
      go true = refl
      go false = refl

      go_ne :
          bytes_eq i k ≡ false
          → (((bytes_eq i j ≡ true) × (i ≡ j)) ⊎ (bytes_eq i j ≡ false))
          → (((bytes_eq k j ≡ true) × (k ≡ j)) ⊎ (bytes_eq k j ≡ false))
          → (if bytes_eq i j then some b else (if bytes_eq k j then none else find? j m))
            ≡ (if bytes_eq k j then none else (if bytes_eq i j then some b else find? j m))
      go_ne e (inl p) (inl q) = absurd (false≢true (sym e ∙ rw (p.1, sym q.1) (bytes_eq_refl k)))
      go_ne e (inl p) (inr q) = rw (p.0, q)
      go_ne e (inr p) q = rw p

pub contains-append :
    (ks : List Key) (k j : Key)
    → contains (ks ++ (k ∷ [])) j ≡ (if bytes_eq k j then true else contains ks j)
unfolding contains
contains-append [] k j = refl
contains-append (i ∷ ks) k j = rw (contains-append ks k j) (go (bytes_eq i j) (bytes_eq k j))
  where
    go :
        (s t : Bool)
        → (if s then true else (if t then true else contains ks j))
          ≡ (if t then true else (if s then true else contains ks j))
    go true true = refl
    go true false = refl
    go false t = refl

-- A property of all entries, after a write.
pub put-each :
    {A : Type 0} (P : Key → A → Type 0) (k : Key) (a : A) (m : Map A)
    → P k a
    → ((j : Key) (b : A) → find? j m ≡ some b → P j b)
    → (j : Key) (b : A) → find? j (put k a m) ≡ some b
    → P j b
put-each P k a m p old j b h = go (keys_cases k j) (sym (find?-put j k a m) ∙ h)
  where
    go :
        (((bytes_eq k j ≡ true) × (k ≡ j)) ⊎ (bytes_eq k j ≡ false))
        → (if bytes_eq k j then some a else find? j m) ≡ some b
        → P j b
    go (inl e) q = subst (P j) (cc (rw e.0 at q)) (subst (λ i. P i a) e.1 p)
    go (inr e) q = old j b (rw e at q)

-- A write adds its key.
pub is_some-put :
    {A : Type 0} (j k : Key) (a : A) (m : Map A)
    → is_some (find? j (put k a m)) ≡ (if bytes_eq k j then true else is_some (find? j m))
is_some-put j k a m = rw (find?-put j k a m) (go (bytes_eq k j))
  where
    go :
        (t : Bool)
        → is_some (if t then some a else find? j m) ≡ (if t then true else is_some (find? j m))
    go true = refl
    go false = refl

-- A list of keys and a map that have the same keys, after both get one more.
pub contains-put :
    {A : Type 0} (ks : List Key) (k : Key) (a : A) (m : Map A)
    → ((j : Key) → contains ks j ≡ is_some (find? j m))
    → (j : Key) → contains (ks ++ (k ∷ [])) j ≡ is_some (find? j (put k a m))
contains-put ks k a m h j = rw (contains-append ks k j, is_some-put j k a m, h j)

pub find?-put_self : {A : Type 0} (k : Key) (a : A) (m : Map A) → find? k (put k a m) ≡ some a
find?-put_self k a m = rw (find?-put k k a m, bytes_eq_refl k)

pub contains-cons :
    (ks bs : List Key) (k : Key)
    → contains bs k ≡ true
    → ((j : Key) → contains ks j ≡ true → contains bs j ≡ true)
    → (j : Key) → contains (k ∷ ks) j ≡ true
    → contains bs j ≡ true
unfolding contains
contains-cons ks bs k there below j h = elim (keys_cases k j) [
  | inl e ↦ subst (λ i. contains bs i ≡ true) e.1 there
  | inr e ↦ below j (rw e at h)
]

pub contains-append_left :
    (ks : List Key) (k j : Key) → contains ks j ≡ true → contains (ks ++ (k ∷ [])) j ≡ true
contains-append_left ks k j h = rw (contains-append ks k j, h) (go (bytes_eq k j))
  where
    go : (t : Bool) → (if t then true else true) ≡ true
    go true = refl
    go false = refl

pub contains-append_self : (ks : List Key) (k : Key) → contains (ks ++ (k ∷ [])) k ≡ true
contains-append_self ks k = rw (contains-append ks k k, bytes_eq_refl k)
