-- ===== src/Client/Capacity/Tests.antt =====
-- The hints of the source's own test, and a witness.
use ceno_reth_benchmark.Base.{◌≡◌, refl, ◌+◌, ◌*◌, ◌≤◌, arith}
use ceno_reth_benchmark.Client.Capacity.{
  at_most, usize_max, capacity_hints, capacity_hints-IsBounded,
}

largest :
    capacity_hints usize_max usize_max
    ≡ record { accounts = 16384; contracts = 4096; block_hashes = 256 }
unfolding capacity_hints
largest = refl

small : capacity_hints 896 3 ≡ record { accounts = 7680; contracts = 1152; block_hashes = 3 }
unfolding capacity_hints
small = refl

capacity_hints-IsBounded_example :
    ((capacity_hints 896 3).accounts ≡ at_most (896 * 4 + 4096) 16384)
    × ((capacity_hints 896 3).contracts ≡ at_most (896 + 256) 4096)
    × (4096 ≤ (capacity_hints 896 3).accounts)
    × ((capacity_hints 896 3).accounts ≤ (capacity_hints 1000 3).accounts)
    × ((capacity_hints 1000 3).accounts ≤ 16384)
    × (256 ≤ (capacity_hints 896 3).contracts)
    × ((capacity_hints 896 3).contracts ≤ (capacity_hints 1000 3).contracts)
    × ((capacity_hints 1000 3).contracts ≤ 4096)
    × ((capacity_hints 896 3).block_hashes ≤ 256)
capacity_hints-IsBounded_example = capacity_hints-IsBounded 896 1000 3 (omega arith)
