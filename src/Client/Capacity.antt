-- ===== src/Client/Capacity.antt =====
-- The capacity hints of crates/executor/client/src/capacity.rs. A `usize` has 64 bits, and sums and
-- products stop at its largest value. The hints only reserve memory.
mod Tests
use ceno_reth_benchmark.Base.{
  ℕ, ◌+◌, ◌-◌, ◌*◌, ◌^◌, ◌≤◌, ◌<◌, ◌≡◌, refl, Bool, true, false, ltb, if◌then◌else◌, arith,
}

abbrev pub max_account_capacity : ℕ
max_account_capacity = 16384

abbrev pub max_contract_capacity : ℕ
max_contract_capacity = 4096

abbrev pub max_block_hash_capacity : ℕ
max_block_hash_capacity = 256

pub record CapacityHints : Type 0 where
  pub accounts : ℕ
  pub contracts : ℕ
  pub block_hashes : ℕ

abbrev pub usize_max : ℕ
usize_max = 18446744073709551615

abbrev pub at_most : ℕ → ℕ → ℕ
at_most a b = if ltb a b then a else b

abbrev pub saturating_add : ℕ → ℕ → ℕ
saturating_add a b = at_most (a + b) usize_max

abbrev pub saturating_mul : ℕ → ℕ → ℕ
saturating_mul a b = at_most (a * b) usize_max

unfoldable pub capacity_hints : ℕ → ℕ → CapacityHints
capacity_hints transaction_count ancestor_count = record {
  accounts =
      at_most (saturating_add (saturating_mul transaction_count 4) 4096) max_account_capacity;
  contracts = at_most (saturating_add transaction_count 256) max_contract_capacity;
  block_hashes = at_most ancestor_count max_block_hash_capacity;
}

-- The hints are those of exact arithmetic, cut at the constants: the saturation never shows. The
-- account hint is at least 4096 and the contract hint at least 256, and they do not shrink when there
-- are more transactions.
pub capacity_hints-IsBounded :
    (t u a : ℕ)
    → t ≤ u
    → ((capacity_hints t a).accounts ≡ at_most (t * 4 + 4096) 16384)
      × ((capacity_hints t a).contracts ≡ at_most (t + 256) 4096)
      × (4096 ≤ (capacity_hints t a).accounts)
      × ((capacity_hints t a).accounts ≤ (capacity_hints u a).accounts)
      × ((capacity_hints u a).accounts ≤ 16384)
      × (256 ≤ (capacity_hints t a).contracts)
      × ((capacity_hints t a).contracts ≤ (capacity_hints u a).contracts)
      × ((capacity_hints u a).contracts ≤ 4096)
      × ((capacity_hints t a).block_hashes ≤ 256)
unfolding capacity_hints
capacity_hints-IsBounded t u a h = (
  ground arith,
  ground arith,
  ground arith,
  ground arith,
  ground arith,
  ground arith,
  ground arith,
  ground arith,
  ground arith,
)
