-- ===== src/Hp/Lcp.antt =====
-- `lcp` of hp.rs against the split of two strings at their common prefix.
use ceno_reth_benchmark.Base.{
  ℕ, ◌+◌, ◌≤◌, min, ◌≡◌, refl, sym, ap, ◌∙◌, ◌≢◌, ◌⊎◌, inl, inr, List, [], ◌∷◌, ◌++◌, arith, ◌==◌,
  Bool-cases, ==→eq, eq→==, length, take, get_elem?, take-append, length-append,
  get_elem?-append_mid,
}
use mathlib.Core.Bool.{false≢true}
use ceno_reth_benchmark.Hp.{lcp_loop, lcp}

-- Two strings that do not begin alike.
abbrev pub Apart : List ℕ → List ℕ → Type 0
Apart (x ∷ xs) (y ∷ ys) = x ≢ y
Apart _ _ = Unit {0}

-- `a` and `b` are their common prefix, followed by what differs.
pub record Aligned (a b : List ℕ) : Type 0 where
  pub common : List ℕ
  pub left : List ℕ
  pub right : List ℕ
  pub left_eq : a ≡ common ++ left
  pub right_eq : b ≡ common ++ right
  pub apart : Apart left right

unfoldable pub align : (a b : List ℕ) → Aligned a b
align [] b = record {
  common = [];
  left = [];
  right = b;
  left_eq = refl;
  right_eq = refl;
  apart = tt;
}
align (x ∷ a) [] = record {
  common = [];
  left = x ∷ a;
  right = [];
  left_eq = refl;
  right_eq = refl;
  apart = tt;
}
align (x ∷ a) (y ∷ b) = elim (Bool-cases (x == y)) [
  | inl same ↦
      let r = align a b in
      let e : x ≡ y = ==→eq x y same in
      record {
        common = x ∷ r.common;
        left = r.left;
        right = r.right;
        left_eq = ap (λ l. x ∷ l) r.left_eq;
        right_eq = cc (e, r.right_eq);
        apart = r.apart;
      }
  | inr differ ↦ record {
    common = [];
    left = x ∷ a;
    right = y ∷ b;
    left_eq = refl;
    right_eq = refl;
    apart = λ e. false≢true (sym differ ∙ eq→== x y e);
  }
]

lcp_loop-append :
    (m i : ℕ) (c ra rb : List ℕ)
    → Apart ra rb
    → m ≡ i + min (length (c ++ ra)) (length (c ++ rb))
    → lcp_loop m i (c ++ ra) (c ++ rb) ≡ i + length c
unfolding lcp_loop
lcp_loop-append m i [] [] rb d e = omega arith
lcp_loop-append m i [] (x ∷ ra) [] d e = omega arith
lcp_loop-append m i [] (x ∷ ra) (y ∷ rb) d e = ground arith
lcp_loop-append m i (x ∷ c) ra rb d e =
    ground (arith, lcp_loop-append m (i + 1) c ra rb d (omega arith))

pub lcp-append : (c ra rb : List ℕ) → Apart ra rb → lcp (c ++ ra) (c ++ rb) ≡ length c
unfolding lcp
lcp-append c ra rb d = lcp_loop-append _ 0 c ra rb d (omega arith) ∙ omega arith

abbrev pub IsCommon : List ℕ → List ℕ → ℕ → Type 0
IsCommon a b n =
    (n ≤ length a)
    × (n ≤ length b)
    × (take n a ≡ take n b)
    × (n ≡ length a ⊎ (n ≡ length b ⊎ get_elem? a n ≢ get_elem? b n))

IsCommon-append : (c ra rb : List ℕ) → Apart ra rb → IsCommon (c ++ ra) (c ++ rb) (length c)
IsCommon-append c ra rb d = (
  omega (arith, length-append c ra),
  omega (arith, length-append c rb),
  take-append c ra ∙ sym (take-append c rb),
  next ra rb d,
)
  where
    Stops : List ℕ → List ℕ → Type 0
    Stops a b =
        length c ≡ length a
        ⊎ (length c ≡ length b ⊎ get_elem? a (length c) ≢ get_elem? b (length c))

    next : (ra rb : List ℕ) → Apart ra rb → Stops (c ++ ra) (c ++ rb)
    next [] rb d = inl (omega (arith, length-append {0} {A = ℕ} c []))
    next (x ∷ ra) [] d = inr (inl (omega (arith, length-append {0} {A = ℕ} c [])))
    next (x ∷ ra) (y ∷ rb) d =
        inr (inr λ e. d (cc (get_elem?-append_mid c ra x, get_elem?-append_mid c rb y)))

IsCommon-of_split :
    {a b : List ℕ} (c ra rb : List ℕ)
    → a ≡ c ++ ra
    → b ≡ c ++ rb
    → Apart ra rb
    → IsCommon a b (lcp a b)
IsCommon-of_split c ra rb p q d = rw (p, q) (rw (lcp-append c ra rb d) (IsCommon-append c ra rb d))

-- `lcp` is the length of the longest common prefix: the strings agree up to it, and one
-- of them ends there or their next nibbles differ.
pub lcp-IsCommon : (a b : List ℕ) → IsCommon a b (lcp a b)
lcp-IsCommon a b =
    let r = align a b in IsCommon-of_split r.common r.left r.right r.left_eq r.right_eq r.apart
