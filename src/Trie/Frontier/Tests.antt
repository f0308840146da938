-- ===== src/Trie/Frontier/Tests.antt =====
-- A branch with two leaves, cut into two chunks.
use ceno_reth_benchmark.Base.{ℕ, ◌≡◌, refl, none, some, List, [], ◌∷◌, replicate, bytes_eq}
use ceno_reth_benchmark.Base.Result.{Result, ok, Ensures}
use ceno_reth_benchmark.Hp.{to_nibs, prefix_to_nibs}
use ceno_reth_benchmark.Hp.Compare.{strip_prefix}
use ceno_reth_benchmark.Trie.{
  Error, null, branch, leaf, extension, Mpt, invalidate_ref_cache, put_child,
}
use ceno_reth_benchmark.Trie.Hash.{
  payload_length, children_length, reference_length, get_or_insert, calc_reference, calc_node,
  calc_long, calc_sized, encode_with_payload_len, children_encode, reference_encode, hash,
}
use ceno_reth_benchmark.Trie.Wire.Encode.{encoded_subtrie, subtree_num_nodes, encode_trie}
use ceno_reth_benchmark.Trie.Wire.Tests.{toy}
use ceno_reth_benchmark.Trie.Frontier.{
  FrontierChunk, MptFrontier, subtree_hash, replace_frontier_slot,
}
use ceno_reth_benchmark.Trie.Frontier.Build.{FrontierLimits, total_weight, build_frontier_weighted}
use ceno_reth_benchmark.Trie.Frontier.Apart.{ChunksApart, build_frontier_weighted-ChunksApart}

abbrev two_leaves : Mpt
two_leaves = record {
  root_id = 1;
  nodes =
      null
      ∷ branch (some 2 ∷ some 3 ∷ replicate 14 none)
      ∷ leaf (0x31 ∷ replicate 31 0x01) (7 ∷ [])
      ∷ leaf (0x31 ∷ replicate 31 0x11) (8 ∷ [])
      ∷ [];
  cached_references = none ∷ none ∷ none ∷ none ∷ [];
}

abbrev both_keys : List (List ℕ × ℕ)
both_keys = (replicate 32 0x11, 1) ∷ (replicate 32 0x01, 2) ∷ []

abbrev one_node : FrontierLimits
one_node = record { max_nodes = 1; max_bytes = 1000; max_keys = 10 }

abbrev chunk_prefixes : List FrontierChunk → List (List ℕ)
chunk_prefixes [] = []
chunk_prefixes (c ∷ cs) = c.prefix ∷ chunk_prefixes cs

abbrev built_prefixes : {A : Type 0} → Result Error (MptFrontier × A) → List (List ℕ)
built_prefixes (ok r) = chunk_prefixes r.0.chunks
built_prefixes _ = []

two_chunks :
    built_prefixes (build_frontier_weighted toy two_leaves both_keys one_node)
    ≡ (0 ∷ []) ∷ (1 ∷ []) ∷ []
unfolding build_frontier_weighted to_nibs bytes_eq encoded_subtrie payload_length children_length
    reference_length get_or_insert calc_reference calc_node calc_long calc_sized
    encode_with_payload_len children_encode reference_encode subtree_num_nodes total_weight
    subtree_hash replace_frontier_slot encode_trie hash invalidate_ref_cache put_child
two_chunks = refl

-- The same branch below an extension with the nibble 0.
abbrev extended : Mpt
extended = record {
  root_id = 1;
  nodes =
      null
      ∷ extension (0x10 ∷ []) 2
      ∷ branch (some 3 ∷ some 4 ∷ replicate 14 none)
      ∷ leaf (0x20 ∷ replicate 31 0x01) (7 ∷ [])
      ∷ leaf (0x20 ∷ replicate 31 0x11) (8 ∷ [])
      ∷ [];
  cached_references = none ∷ none ∷ none ∷ none ∷ none ∷ [];
}

-- A key that leaves the extension at its nibble 5 is below no chunk.
key_left_out :
    built_prefixes
      (build_frontier_weighted toy extended ((0x51 ∷ replicate 31 0x11, 1) ∷ []) one_node)
    ≡ (0 ∷ 1 ∷ []) ∷ []
unfolding build_frontier_weighted to_nibs bytes_eq encoded_subtrie payload_length children_length
    reference_length get_or_insert calc_reference calc_node calc_long calc_sized
    encode_with_payload_len children_encode reference_encode subtree_num_nodes total_weight
    subtree_hash replace_frontier_slot encode_trie hash invalidate_ref_cache put_child
    prefix_to_nibs strip_prefix
key_left_out = refl

build_frontier_weighted-ChunksApart_example :
    Ensures
      (λ r. ChunksApart r.0.chunks)
      (build_frontier_weighted toy two_leaves both_keys one_node)
build_frontier_weighted-ChunksApart_example =
    build_frontier_weighted-ChunksApart toy two_leaves both_keys one_node
