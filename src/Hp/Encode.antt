-- ===== src/Hp/Encode.antt =====
-- `to_encoded_path` never panics, and `prefix_to_nibs` reads back what it wrote.
use ceno_reth_benchmark.Base.{
  ℕ, ◌+◌, ◌*◌, ◌%◌, bit_or, ◌≡◌, refl, sym, ap, ◌∙◌, inl, inr, Bool-cases, ==→eq, some, Bool, true,
  false, not, List, [], ◌∷◌, arith, ◌==◌, if◌then◌else◌, length, All,
}
use ceno_reth_benchmark.Base.Result.{ok}
use ceno_reth_benchmark.Hp.{
  IsNib, IsByte, hp_flag_leaf, hp_flag_odd, to_nibs, prefix_to_nibs, pack, encode_odd, encode_even,
  to_encoded_path, encoded_path_nibble_count, has_leaf_flag,
}
use ceno_reth_benchmark.Hp.Compare.{length-prefix_to_nibs}
use ceno_reth_benchmark.Hp.Bits.{
  low_lem, odd_flag_lem, leaf_flag_lem, join_lem, or_odd, or_odd_leaf,
}

-- The bytes of a hex-prefix path in plain arithmetic.
pairs : List ℕ → List ℕ
pairs [] = []
pairs (x ∷ []) = []
pairs (x ∷ y ∷ nibs) = bit_or (x * 16 % 256) y ∷ pairs nibs

odd_bytes : ℕ → List ℕ → List ℕ
odd_bytes prefix [] = []
odd_bytes prefix (x ∷ nibs) = bit_or prefix x ∷ pairs nibs

unfoldable pub encoded : List ℕ → Bool → List ℕ
unfolding pairs odd_bytes
encoded nibs is_leaf =
    let prefix = if is_leaf then hp_flag_leaf else 0x00 in
    if not (length nibs % 2 == 0)
    then odd_bytes (bit_or prefix hp_flag_odd) nibs
    else prefix ∷ pairs nibs

module _ {E : Type 0} where
  pack-pairs : (nibs : List ℕ) → length nibs % 2 ≡ 0 → pack {E = E} nibs ≡ ok (pairs nibs)
  unfolding pack pairs
  pack-pairs [] h = refl
  pack-pairs (x ∷ []) h = absurd (omega arith)
  pack-pairs (x ∷ y ∷ nibs) h = rw (pack-pairs nibs (omega arith))

  encode_odd_lem :
      (prefix : ℕ) (nibs : List ℕ)
      → length nibs % 2 ≡ 1
      → encode_odd {E = E} prefix nibs ≡ ok (odd_bytes prefix nibs)
  unfolding encode_odd odd_bytes
  encode_odd_lem prefix [] h = absurd (omega arith)
  encode_odd_lem prefix (x ∷ nibs) h = rw (pack-pairs nibs (omega arith))

  -- Encoding never indexes out of bounds.
  pub to_encoded_path-encoded :
      (nibs : List ℕ) (is_leaf : Bool)
      → to_encoded_path {E = E} nibs is_leaf ≡ ok (encoded nibs is_leaf)
  unfolding to_encoded_path encode_even encoded
  to_encoded_path-encoded nibs is_leaf =
      let prefix = if is_leaf then hp_flag_leaf else 0x00 in
      elim (Bool-cases (length nibs % 2 == 0)) [
        | inl even ↦ rw (even, pack-pairs nibs (==→eq _ _ even))
        | inr odd ↦ rw (odd, encode_odd_lem (bit_or prefix hp_flag_odd) nibs (ground arith))
      ]

to_nibs-pairs : (nibs : List ℕ) → All IsNib nibs → length nibs % 2 ≡ 0 → to_nibs (pairs nibs) ≡ nibs
unfolding to_nibs pairs
to_nibs-pairs [] n h = refl
to_nibs-pairs (x ∷ []) n h = absurd (omega arith)
to_nibs-pairs (x ∷ y ∷ nibs) (hx, (hy, hs)) h =
    ground (arith, join_lem x y hx hy, low_lem (x * 16 + y), to_nibs-pairs nibs hs)

odd_first : (x : ℕ) (is_leaf : Bool) → ℕ
odd_first x is_leaf = bit_or (bit_or (if is_leaf then hp_flag_leaf else 0x00) hp_flag_odd) x

odd_first_lem :
    (x : ℕ) (is_leaf : Bool) → IsNib x → odd_first x is_leaf ≡ (if is_leaf then 48 + x else 16 + x)
unfolding odd_first
odd_first_lem x true h = or_odd_leaf x h
odd_first_lem x false h = or_odd x h

-- What the readers of a path see of its first byte.
record Reads (p nibs : List ℕ) (is_leaf : Bool) : Type 0 where
  nibs_eq : prefix_to_nibs p ≡ nibs
  bytes : All IsByte p
  leaf_flag : has_leaf_flag p ≡ some is_leaf

pairs-IsByte : (nibs : List ℕ) → All IsNib nibs → All IsByte (pairs nibs)
unfolding pairs
pairs-IsByte [] n = tt
pairs-IsByte (x ∷ []) n = tt
pairs-IsByte (x ∷ y ∷ nibs) (hx, (hy, hs)) =
    (rw (join_lem x y hx hy) (omega arith), pairs-IsByte nibs hs)

Reads-even :
    (nibs : List ℕ) (is_leaf : Bool)
    → All IsNib nibs
    → length nibs % 2 ≡ 0
    → Reads ((if is_leaf then hp_flag_leaf else 0x00) ∷ pairs nibs) nibs is_leaf
unfolding prefix_to_nibs
Reads-even nibs true n h = record {
  nibs_eq = to_nibs-pairs nibs n h;
  bytes = (omega arith, pairs-IsByte nibs n);
  leaf_flag = refl;
}
Reads-even nibs false n h = record {
  nibs_eq = to_nibs-pairs nibs n h;
  bytes = (omega arith, pairs-IsByte nibs n);
  leaf_flag = refl;
}

Reads-odd :
    (x b : ℕ) (nibs : List ℕ) (is_leaf : Bool)
    → b ≡ (if is_leaf then 48 + x else 16 + x)
    → All IsNib (x ∷ nibs)
    → length nibs % 2 ≡ 0
    → Reads (b ∷ pairs nibs) (x ∷ nibs) is_leaf
unfolding prefix_to_nibs
Reads-odd x b nibs true e (hx, hs) h = record {
  nibs_eq =
      ground
        (arith, odd_flag_lem b (omega arith), low_lem b (omega arith), to_nibs-pairs nibs hs h);
  bytes = (omega arith, pairs-IsByte nibs hs);
  leaf_flag = ground (arith, leaf_flag_lem b (omega arith));
}
Reads-odd x b nibs false e (hx, hs) h = record {
  nibs_eq =
      ground
        (arith, odd_flag_lem b (omega arith), low_lem b (omega arith), to_nibs-pairs nibs hs h);
  bytes = (omega arith, pairs-IsByte nibs hs);
  leaf_flag = ground (arith, leaf_flag_lem b (omega arith));
}

Reads-odd_bytes :
    (nibs : List ℕ) (is_leaf : Bool)
    → All IsNib nibs
    → length nibs % 2 ≡ 1
    → Reads
        (odd_bytes (bit_or (if is_leaf then hp_flag_leaf else 0x00) hp_flag_odd) nibs)
        nibs
        is_leaf
unfolding odd_bytes odd_first
Reads-odd_bytes [] is_leaf n h = absurd (omega arith)
Reads-odd_bytes (x ∷ nibs) is_leaf n h =
    Reads-odd x _ nibs is_leaf (odd_first_lem x is_leaf n.0) n (omega arith)

encoded-Reads :
    (nibs : List ℕ) (is_leaf : Bool) → All IsNib nibs → Reads (encoded nibs is_leaf) nibs is_leaf
unfolding encoded
encoded-Reads nibs is_leaf n = elim (Bool-cases (length nibs % 2 == 0)) [
  | inl even ↦ rw even (Reads-even nibs is_leaf n (==→eq _ _ even))
  | inr odd ↦ rw odd (Reads-odd_bytes nibs is_leaf n (ground arith))
]

pub prefix_to_nibs-encoded :
    (nibs : List ℕ) (is_leaf : Bool) → All IsNib nibs → prefix_to_nibs (encoded nibs is_leaf) ≡ nibs
prefix_to_nibs-encoded nibs is_leaf n = (encoded-Reads nibs is_leaf n).nibs_eq

-- On every string of nibbles `to_encoded_path` returns bytes, without a panic; `prefix_to_nibs`
-- reads the string back from them, `encoded_path_nibble_count` its length, and the leaf bit of the
-- first byte is the flag that was asked for.
pub to_encoded_path_roundtrip :
    {E : Type 0} (nibs : List ℕ) (is_leaf : Bool)
    → All IsNib nibs
    → (p : List ℕ) × (to_encoded_path {E = E} nibs is_leaf ≡ ok p)
      × All IsByte p
      × (prefix_to_nibs p ≡ nibs)
      × (encoded_path_nibble_count p ≡ length nibs)
      × (has_leaf_flag p ≡ some is_leaf)
to_encoded_path_roundtrip nibs is_leaf n =
    let r = encoded-Reads nibs is_leaf n in
    (
      encoded nibs is_leaf,
      to_encoded_path-encoded nibs is_leaf,
      r.bytes,
      r.nibs_eq,
      sym (length-prefix_to_nibs (encoded nibs is_leaf)) ∙ ap length r.nibs_eq,
      r.leaf_flag,
    )

pub encoded-IsByte :
    (nibs : List ℕ) (is_leaf : Bool) → All IsNib nibs → All IsByte (encoded nibs is_leaf)
encoded-IsByte nibs is_leaf n = (encoded-Reads nibs is_leaf n).bytes
