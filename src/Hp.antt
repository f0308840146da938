-- ===== src/Hp.antt =====
-- crates/mpt/src/hp.rs: nibbles and hex-prefix paths. A byte and a nibble are numbers, a slice is a
-- list; `b >> 4` is `b / 16`, and `<< 4` on a `u8` drops the high bits. An index out of bounds is a
-- panic. A loop over two indices is a recursion on the two suffixes that they have not reached.
pub mod Bits
pub mod Lcp
pub mod Compare
pub mod Encode
mod Tests
use ceno_reth_benchmark.Base.{
  ℕ, zero, suc, ◌+◌, ◌-◌, ◌*◌, ◌/◌, ◌%◌, ◌<◌, min, bit_and, bit_or, Bool, true, false, not, Option,
  none, some, List, [], ◌∷◌, ltb, ◌==◌, if◌then◌else◌, length,
}
use ceno_reth_benchmark.Base.Result.{Result, ok, panic, ◌>>=◌}

abbrev pub hp_flag_odd : ℕ
hp_flag_odd = 0x10

abbrev pub hp_flag_leaf : ℕ
hp_flag_leaf = 0x20

abbrev pub IsByte : ℕ → Type 0
IsByte b = b < 256

abbrev pub IsNib : ℕ → Type 0
IsNib x = x < 16

abbrev pub high : ℕ → ℕ
high b = b / 16

abbrev pub low : ℕ → ℕ
low b = bit_and b 0x0f

-- The loop over `iter::zip(a, b)`; `m` is what is returned if it ends.
lcp_loop : ℕ → ℕ → List ℕ → List ℕ → ℕ
lcp_loop m i [] ys = m
lcp_loop m i (x ∷ xs) [] = m
lcp_loop m i (x ∷ xs) (y ∷ ys) =
    let rest = lcp_loop m (i + 1) xs ys in if not (x == y) then i else rest

unfoldable pub lcp : List ℕ → List ℕ → ℕ
unfolding lcp_loop
lcp a b = lcp_loop (min (length a) (length b)) 0 a b

unfoldable pub to_nibs : List ℕ → List ℕ
to_nibs [] = []
to_nibs (b ∷ bs) = high b ∷ low b ∷ to_nibs bs

abbrev pub is_odd : ℕ → Bool
is_odd first_byte = not (bit_and first_byte hp_flag_odd == 0)

-- The bytes behind the first one are two nibbles each, as in `to_nibs`.
unfoldable pub prefix_to_nibs : List ℕ → List ℕ
unfolding to_nibs
prefix_to_nibs [] = []
prefix_to_nibs (first_byte ∷ bytes) =
    if is_odd first_byte then low first_byte ∷ to_nibs bytes else to_nibs bytes

unfoldable pub encoded_path_nibble_count : List ℕ → ℕ
encoded_path_nibble_count [] = 0
encoded_path_nibble_count (first ∷ bytes) =
    2 * (length (first ∷ bytes) - 1) + (if is_odd first then 1 else 0)

module _ {E : Type 0} where
  -- From `i` and `j` on: `nibs[i..]` and `encoded_path[j..]`.
  eq_loop : List ℕ → List ℕ → Result E Bool
  eq_loop [] path = ok true
  eq_loop (x ∷ []) [] = panic
  eq_loop (x ∷ []) (b ∷ path) = ok (x == high b)
  eq_loop (x ∷ y ∷ nibs) [] = panic
  eq_loop (x ∷ y ∷ nibs) (b ∷ path) =
      let rest = eq_loop nibs path in
      if not (x == high b) then ok false else if not (y == low b) then ok false else rest

  eq_start : List ℕ → List ℕ → Result E Bool
  unfolding eq_loop
  eq_start [] nibs = panic
  eq_start (first ∷ path) [] = if is_odd first then panic else eq_loop [] path
  eq_start (first ∷ path) (x ∷ nibs) =
      if is_odd first
      then (if not (x == low first) then ok false else eq_loop nibs path)
      else eq_loop (x ∷ nibs) path

  unfoldable pub encoded_path_eq_nibs : List ℕ → List ℕ → Result E Bool
  unfolding encoded_path_nibble_count eq_start
  encoded_path_eq_nibs encoded_path nibs =
      let nib_count = encoded_path_nibble_count encoded_path in
      if not (nib_count == length nibs)
      then ok false
      else if nib_count == 0
      then ok true
      else eq_start encoded_path nibs

  -- `n` is `nib_count - i`; the result is the tail `nibs[i..]`.
  strip_loop : ℕ → List ℕ → List ℕ → Result E (Option (List ℕ))
  strip_loop zero nibs path = ok (some nibs)
  strip_loop (suc zero) [] path = panic
  strip_loop (suc zero) (x ∷ nibs) [] = panic
  strip_loop (suc zero) (x ∷ nibs) (b ∷ path) =
      if not (x == high b) then ok none else ok (some nibs)
  strip_loop (suc (suc n)) [] path = panic
  strip_loop (suc (suc n)) (x ∷ nibs) [] = panic
  strip_loop (suc (suc n)) (x ∷ []) (b ∷ path) = if not (x == high b) then ok none else panic
  strip_loop (suc (suc n)) (x ∷ y ∷ nibs) (b ∷ path) =
      let rest = strip_loop n nibs path in
      if not (x == high b) then ok none else if not (y == low b) then ok none else rest

  strip_start : ℕ → List ℕ → List ℕ → Result E (Option (List ℕ))
  unfolding strip_loop
  strip_start nib_count [] nibs = panic
  strip_start nib_count (first ∷ path) [] =
      if is_odd first then panic else strip_loop nib_count [] path
  strip_start nib_count (first ∷ path) (x ∷ nibs) =
      if is_odd first
      then (if not (x == low first) then ok none else strip_loop (nib_count - 1) nibs path)
      else strip_loop nib_count (x ∷ nibs) path

  unfoldable pub encoded_path_strip_prefix : List ℕ → List ℕ → Result E (Option (List ℕ))
  unfolding encoded_path_nibble_count strip_start
  encoded_path_strip_prefix encoded_path nibs =
      let nib_count = encoded_path_nibble_count encoded_path in
      if ltb (length nibs) nib_count
      then ok none
      else if nib_count == 0
      then ok (some nibs)
      else strip_start nib_count encoded_path nibs

  -- `(nibs[i] << 4) | nibs[i + 1]`, two nibbles a round.
  pack : List ℕ → Result E (List ℕ)
  pack [] = ok []
  pack (x ∷ []) = panic
  pack (x ∷ y ∷ nibs) = do rest ← pack nibs; ok (bit_or (x * 16 % 256) y ∷ rest)

  encode_odd : ℕ → List ℕ → Result E (List ℕ)
  unfolding pack
  encode_odd prefix [] = panic
  encode_odd prefix (x ∷ nibs) = do rest ← pack nibs; ok (bit_or prefix x ∷ rest)

  encode_even : ℕ → List ℕ → Result E (List ℕ)
  unfolding pack
  encode_even prefix nibs = do rest ← pack nibs; ok (prefix ∷ rest)

  -- The twins `to_encoded_path_with_bump` and `to_encoded_path`.
  unfoldable pub to_encoded_path : List ℕ → Bool → Result E (List ℕ)
  unfolding encode_odd encode_even
  to_encoded_path nibs is_leaf =
      let prefix = if is_leaf then hp_flag_leaf else 0x00 in
      if not (length nibs % 2 == 0)
      then encode_odd (bit_or prefix hp_flag_odd) nibs
      else encode_even prefix nibs

-- `(path[0] & (2 << 4)) == 0` tells an extension from a leaf; none if the path is empty.
abbrev pub has_leaf_flag : List ℕ → Option Bool
has_leaf_flag [] = none
has_leaf_flag (first ∷ path) = some (not (bit_and first hp_flag_leaf == 0))
