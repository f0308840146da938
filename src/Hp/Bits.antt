-- ===== src/Hp/Bits.antt =====
-- The masks and shifts of hp.rs as arithmetic, checked by evaluation over a byte.
use ceno_reth_benchmark.Base.{
  ℕ, zero, suc, ◌+◌, ◌*◌, ◌/◌, ◌%◌, ◌<◌, bit_and, bit_or, ◌≡◌, refl, Bool, true, false,
  if◌then◌else◌, Bool-cases, inl, inr, ==→eq, arith, ◌==◌, subst,
}

-- Two functions compared by evaluation at the first `k` numbers.
tabulated : (f g : ℕ → ℕ) → ℕ → Bool
tabulated f g zero = true
tabulated f g (suc k) = if f k == g k then tabulated f g k else false

agree : (k : ℕ) (f g : ℕ → ℕ) → tabulated f g k ≡ true → (b : ℕ) → b < k → f b ≡ g b
unfolding tabulated
agree zero f g same b lt = absurd (omega arith)
agree (suc k) f g same b lt = elim (Bool-cases (f k == g k)) [
  | inl e ↦ elim (Bool-cases (b == k)) [
    | inl h ↦ let q : b ≡ k = ==→eq b k h in rw q (==→eq (f k) (g k) e)
    | inr h ↦ let below : b < k = ground arith in agree k f g (rw e at same) b below
  ]
  | inr e ↦ cc (same, e)
]

pub low_lem : (b : ℕ) → b < 256 → bit_and b 0x0f ≡ b % 16
unfolding tabulated
low_lem = agree 256 (λ b. bit_and b 0x0f) (λ b. b % 16) refl

pub odd_flag_lem : (b : ℕ) → b < 256 → bit_and b 0x10 ≡ b / 16 % 2 * 16
unfolding tabulated
odd_flag_lem = agree 256 (λ b. bit_and b 0x10) (λ b. b / 16 % 2 * 16) refl

pub leaf_flag_lem : (b : ℕ) → b < 256 → bit_and b 0x20 ≡ b / 32 % 2 * 32
unfolding tabulated
leaf_flag_lem = agree 256 (λ b. bit_and b 0x20) (λ b. b / 32 % 2 * 32) refl

-- Two nibbles in a byte: a table over the byte that they make.
join_table : (b : ℕ) → b < 256 → bit_or (b / 16 * 16 % 256) (b % 16) ≡ b
unfolding tabulated
join_table = agree 256 (λ b. bit_or (b / 16 * 16 % 256) (b % 16)) (λ b. b) refl

pub join_lem : (x y : ℕ) → x < 16 → y < 16 → bit_or (x * 16 % 256) y ≡ x * 16 + y
join_lem x y hx hy =
    let d : (x * 16 + y) / 16 ≡ x = omega arith in
    let m : (x * 16 + y) % 16 ≡ y = omega arith in
    let t = join_table (x * 16 + y) (omega arith) in
    subst (λ (u : ℕ). bit_or (u * 16 % 256) y ≡ x * 16 + y) d
      (subst (λ (u : ℕ). bit_or ((x * 16 + y) / 16 * 16 % 256) u ≡ x * 16 + y) m t)

pub or_odd : (x : ℕ) → x < 16 → bit_or 0x10 x ≡ 16 + x
unfolding tabulated
or_odd = agree 16 (λ x. bit_or 0x10 x) (λ x. 16 + x) refl

pub or_odd_leaf : (x : ℕ) → x < 16 → bit_or 0x30 x ≡ 48 + x
unfolding tabulated
or_odd_leaf = agree 16 (λ x. bit_or 0x30 x) (λ x. 48 + x) refl
