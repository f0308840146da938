-- ===== src/Hp/Tests.antt =====
-- Uses of the theorems on hp.rs at small paths: 0x31 0x23 is the leaf path of the nibbles 1, 2, 3.
use ceno_reth_benchmark.Base.{ℕ, ◌≡◌, refl, true, some, List, [], ◌∷◌, All, arith, length, bytes_eq}
use ceno_reth_benchmark.Base.Result.{ok}
use ceno_reth_benchmark.Hp.{
  IsByte, lcp, prefix_to_nibs, encoded_path_nibble_count, encoded_path_eq_nibs,
  encoded_path_strip_prefix, to_encoded_path, has_leaf_flag,
}
use ceno_reth_benchmark.Hp.Lcp.{IsCommon, lcp-IsCommon}
use ceno_reth_benchmark.Hp.Compare.{
  strip_prefix, length-prefix_to_nibs, encoded_path_eq_nibs-bytes_eq, encoded_path_strip_prefix_lem,
}
use ceno_reth_benchmark.Hp.Encode.{to_encoded_path_roundtrip}

abbrev nibs : List ℕ
nibs = 1 ∷ 2 ∷ 3 ∷ []

abbrev path : List ℕ
path = 0x31 ∷ 0x23 ∷ []

encode_nibs : to_encoded_path {E = ℕ} nibs true ≡ ok path
unfolding to_encoded_path
encode_nibs = refl

lcp-IsCommon_example : IsCommon nibs (1 ∷ 2 ∷ 4 ∷ []) (lcp nibs (1 ∷ 2 ∷ 4 ∷ []))
lcp-IsCommon_example = lcp-IsCommon nibs (1 ∷ 2 ∷ 4 ∷ [])

length-prefix_to_nibs_example : length (prefix_to_nibs path) ≡ encoded_path_nibble_count path
length-prefix_to_nibs_example = length-prefix_to_nibs path

encoded_path_eq_nibs_example :
    encoded_path_eq_nibs {E = ℕ} path nibs ≡ ok (bytes_eq (prefix_to_nibs path) nibs)
encoded_path_eq_nibs_example = encoded_path_eq_nibs-bytes_eq path nibs

encoded_path_strip_prefix_example :
    encoded_path_strip_prefix {E = ℕ} path (1 ∷ 2 ∷ 3 ∷ 4 ∷ [])
    ≡ ok (strip_prefix (prefix_to_nibs path) (1 ∷ 2 ∷ 3 ∷ 4 ∷ []))
encoded_path_strip_prefix_example = encoded_path_strip_prefix_lem path (1 ∷ 2 ∷ 3 ∷ 4 ∷ [])

to_encoded_path_roundtrip_example :
    (p : List ℕ) × (to_encoded_path {E = ℕ} nibs true ≡ ok p)
    × All IsByte p
    × (prefix_to_nibs p ≡ nibs)
    × (encoded_path_nibble_count p ≡ length nibs)
    × (has_leaf_flag p ≡ some true)
to_encoded_path_roundtrip_example =
    to_encoded_path_roundtrip nibs true (omega arith, (omega arith, (omega arith, tt)))
