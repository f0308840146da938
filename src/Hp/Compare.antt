-- ===== src/Hp/Compare.antt =====
-- The two comparisons that hp.rs makes on the encoded bytes, against the decoded path.
use ceno_reth_benchmark.Base.{
  ℕ, zero, suc, ◌*◌, ◌≤◌, ◌<◌, ◌≡◌, refl, ◌≢◌, inl, inr, true, false, Option, none, some, List, [],
  ◌∷◌, ◌++◌, arith, ◌==◌, if◌then◌else◌, bytes_eq, Bool-cases, length,
}
use ceno_reth_benchmark.Base.Result.{ok}
use ceno_reth_benchmark.Hp.{
  is_odd, to_nibs, prefix_to_nibs, encoded_path_nibble_count, eq_loop, eq_start,
  encoded_path_eq_nibs, strip_loop, strip_start, encoded_path_strip_prefix,
}

-- `slice::strip_prefix` of the standard library.
unfoldable pub strip_prefix : List ℕ → List ℕ → Option (List ℕ)
strip_prefix [] ys = some ys
strip_prefix (x ∷ xs) [] = none
strip_prefix (x ∷ xs) (y ∷ ys) = if x == y then strip_prefix xs ys else none

pub strip_prefix-append : (xs ys : List ℕ) → strip_prefix xs (xs ++ ys) ≡ some ys
unfolding strip_prefix
strip_prefix-append [] ys = refl
strip_prefix-append (x ∷ xs) ys = ground (arith, strip_prefix-append xs ys)

pub eq_of_strip_prefix :
    (xs ys : List ℕ) {rest : List ℕ} → strip_prefix xs ys ≡ some rest → ys ≡ xs ++ rest
unfolding strip_prefix
eq_of_strip_prefix [] ys h = ground arith
eq_of_strip_prefix (x ∷ xs) [] h = cc
eq_of_strip_prefix (x ∷ xs) (y ∷ ys) {rest} h =
    ground (arith, eq_of_strip_prefix xs ys {rest = rest})

pub length-to_nibs : (bs : List ℕ) → length (to_nibs bs) ≡ 2 * length bs
unfolding to_nibs
length-to_nibs [] = refl
length-to_nibs (b ∷ bs) = omega (arith, length-to_nibs bs)

-- The count that hp.rs computes without decoding is the length of the decoded path.
pub length-prefix_to_nibs : (p : List ℕ) → length (prefix_to_nibs p) ≡ encoded_path_nibble_count p
unfolding prefix_to_nibs encoded_path_nibble_count
length-prefix_to_nibs [] = refl
length-prefix_to_nibs (b ∷ bs) = ground (arith, length-to_nibs bs)

bytes_eq-length : (xs ys : List ℕ) → length xs ≢ length ys → bytes_eq xs ys ≡ false
unfolding bytes_eq
bytes_eq-length [] [] h = absurd (h refl)
bytes_eq-length [] (y ∷ ys) h = refl
bytes_eq-length (x ∷ xs) [] h = refl
bytes_eq-length (x ∷ xs) (y ∷ ys) h = ground (arith, bytes_eq-length xs ys (omega arith))

strip_prefix-length : (xs ys : List ℕ) → length ys < length xs → strip_prefix xs ys ≡ none
unfolding strip_prefix
strip_prefix-length [] ys h = elim h [ ]
strip_prefix-length (x ∷ xs) [] h = refl
strip_prefix-length (x ∷ xs) (y ∷ ys) h = ground (arith, strip_prefix-length xs ys (omega arith))

bytes_eq_of_empty : (xs ys : List ℕ) → length xs ≡ 0 → length ys ≡ 0 → bytes_eq xs ys ≡ true
unfolding bytes_eq
bytes_eq_of_empty [] [] h k = refl
bytes_eq_of_empty [] (y ∷ ys) h k = absurd (omega arith)
bytes_eq_of_empty (x ∷ xs) ys h k = absurd (omega arith)

strip_prefix_of_empty : (xs ys : List ℕ) → length xs ≡ 0 → strip_prefix xs ys ≡ some ys
unfolding strip_prefix
strip_prefix_of_empty [] ys h = refl
strip_prefix_of_empty (x ∷ xs) ys h = absurd (omega arith)

module _ {E : Type 0} where
  eq_loop-bytes_eq :
      (nibs path : List ℕ)
      → length nibs ≡ 2 * length path
      → eq_loop {E = E} nibs path ≡ ok (bytes_eq (to_nibs path) nibs)
  unfolding eq_loop to_nibs bytes_eq
  eq_loop-bytes_eq [] [] h = refl
  eq_loop-bytes_eq [] (b ∷ path) h = absurd (omega arith)
  eq_loop-bytes_eq (x ∷ []) path h = absurd (omega arith)
  eq_loop-bytes_eq (x ∷ y ∷ nibs) [] h = absurd (omega arith)
  eq_loop-bytes_eq (x ∷ y ∷ nibs) (b ∷ path) h =
      ground (arith, eq_loop-bytes_eq nibs path (omega arith))

  eq_start-bytes_eq :
      (p nibs : List ℕ)
      → 0 < length nibs
      → encoded_path_nibble_count p ≡ length nibs
      → eq_start {E = E} p nibs ≡ ok (bytes_eq (prefix_to_nibs p) nibs)
  unfolding eq_start prefix_to_nibs encoded_path_nibble_count bytes_eq
  eq_start-bytes_eq [] nibs h e = absurd (omega arith)
  eq_start-bytes_eq (b ∷ bs) [] h e = absurd (omega arith)
  eq_start-bytes_eq (b ∷ bs) (x ∷ nibs) h e = elim (Bool-cases (is_odd b)) [
    | inl odd ↦ ground (arith, eq_loop-bytes_eq nibs bs)
    | inr even ↦ ground (arith, eq_loop-bytes_eq (x ∷ nibs) bs)
  ]

  -- On every path and every nibble string, the comparison on the encoded bytes ends without a panic
  -- and says whether the decoded path is the string.
  pub encoded_path_eq_nibs-bytes_eq :
      (p nibs : List ℕ)
      → encoded_path_eq_nibs {E = E} p nibs ≡ ok (bytes_eq (prefix_to_nibs p) nibs)
  unfolding encoded_path_eq_nibs
  encoded_path_eq_nibs-bytes_eq p nibs = ground (
    arith,
    length-prefix_to_nibs p,
    bytes_eq-length (prefix_to_nibs p) nibs,
    bytes_eq_of_empty (prefix_to_nibs p) nibs,
    eq_start-bytes_eq p nibs,
  )

  strip_loop-strip_prefix :
      (path nibs : List ℕ) (n : ℕ)
      → n ≡ 2 * length path
      → n ≤ length nibs
      → strip_loop {E = E} n nibs path ≡ ok (strip_prefix (to_nibs path) nibs)
  unfolding strip_loop to_nibs strip_prefix
  strip_loop-strip_prefix [] nibs zero e h = refl
  strip_loop-strip_prefix [] nibs (suc n) e h = absurd (omega arith)
  strip_loop-strip_prefix (b ∷ path) nibs zero e h = absurd (omega arith)
  strip_loop-strip_prefix (b ∷ path) nibs (suc zero) e h = absurd (omega arith)
  strip_loop-strip_prefix (b ∷ path) [] (suc (suc n)) e h = absurd (omega arith)
  strip_loop-strip_prefix (b ∷ path) (x ∷ []) (suc (suc n)) e h = absurd (omega arith)
  strip_loop-strip_prefix (b ∷ path) (x ∷ y ∷ nibs) (suc (suc n)) e h =
      ground (arith, strip_loop-strip_prefix path nibs n (omega arith) (omega arith))

  strip_start-strip_prefix :
      (p nibs : List ℕ)
      → 0 < encoded_path_nibble_count p
      → encoded_path_nibble_count p ≤ length nibs
      → strip_start {E = E} (encoded_path_nibble_count p) p nibs
        ≡ ok (strip_prefix (prefix_to_nibs p) nibs)
  unfolding strip_start prefix_to_nibs encoded_path_nibble_count strip_prefix
  strip_start-strip_prefix [] nibs h e = absurd (omega arith)
  strip_start-strip_prefix (b ∷ bs) [] h e = absurd (omega arith)
  strip_start-strip_prefix (b ∷ bs) (x ∷ nibs) h e = elim (Bool-cases (is_odd b)) [
    | inl odd ↦ ground (arith, strip_loop-strip_prefix bs nibs (2 * length bs))
    | inr even ↦ ground (arith, strip_loop-strip_prefix bs (x ∷ nibs) (2 * length bs))
  ]

  -- On every path and every nibble string, stripping on the encoded bytes ends without a panic and
  -- gives what `strip_prefix` gives on the decoded path.
  pub encoded_path_strip_prefix_lem :
      (p nibs : List ℕ)
      → encoded_path_strip_prefix {E = E} p nibs ≡ ok (strip_prefix (prefix_to_nibs p) nibs)
  unfolding encoded_path_strip_prefix
  encoded_path_strip_prefix_lem p nibs = ground (
    arith,
    length-prefix_to_nibs p,
    strip_prefix-length (prefix_to_nibs p) nibs,
    strip_prefix_of_empty (prefix_to_nibs p) nibs,
    strip_start-strip_prefix p nibs,
  )
