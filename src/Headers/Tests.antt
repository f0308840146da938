-- ===== src/Headers/Tests.antt =====
-- Runs of `build_block_hashes` on headers whose hash is given.
use ceno_reth_benchmark.Base.{none, ℕ, ◌≡◌, refl, List, [], ◌∷◌, bytes_eq}
use ceno_reth_benchmark.Base.Result.{ok, err}
use ceno_reth_benchmark.Headers.{
  non_consecutive_block_headers, Header, build_block_hashes, build_from, check_link,
}
use ceno_reth_benchmark.Headers.Correct.{Verdict, build_block_hashes-Verdict}

abbrev current : Header
current = record {
  number = 12;
  parent_hash = (7 ∷ []);
  state_root = [];
  ommers_hash = [];
  transactions_root = [];
  receipts_root = [];
  withdrawals_root = none;
  logs_bloom = [];
  requests_hash = none;
  rest = (9 ∷ []);
}

abbrev parent : Header
parent = record {
  number = 11;
  parent_hash = (6 ∷ []);
  state_root = [];
  ommers_hash = [];
  transactions_root = [];
  receipts_root = [];
  withdrawals_root = none;
  logs_bloom = [];
  requests_hash = none;
  rest = (7 ∷ []);
}

abbrev grandparent : Header
grandparent = record {
  number = 10;
  parent_hash = (5 ∷ []);
  state_root = [];
  ommers_hash = [];
  transactions_root = [];
  receipts_root = [];
  withdrawals_root = none;
  logs_bloom = [];
  requests_hash = none;
  rest = (6 ∷ []);
}

abbrev given : Header → List ℕ
given h = h.rest

two_links :
    build_block_hashes given (current ∷ parent ∷ grandparent ∷ [])
    ≡ ok ((10, (6 ∷ [])) ∷ (11, (7 ∷ [])) ∷ [])
unfolding build_block_hashes build_from check_link bytes_eq
two_links = refl

gap :
    build_block_hashes given (current ∷ grandparent ∷ [])
    ≡ err (non_consecutive_block_headers 10 12)
unfolding build_block_hashes build_from check_link bytes_eq
gap = refl

build_block_hashes-Verdict_example :
    Verdict given current
      (parent ∷ grandparent ∷ [])
      []
      (build_block_hashes given (current ∷ parent ∷ grandparent ∷ []))
build_block_hashes-Verdict_example =
    build_block_hashes-Verdict given current (parent ∷ grandparent ∷ [])
