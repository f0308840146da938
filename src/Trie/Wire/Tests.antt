-- ===== src/Trie/Wire/Tests.antt =====
-- Bytes of one leaf, with short headers and a toy hash, decoded.
use ceno_reth_benchmark.Base.{
  ℕ, suc, ◌+◌, ◌-◌, ◌≤◌, ◌≡◌, refl, ◌⊎◌, inl, inr, Bool, true, false, none, some, List, [], ◌∷◌,
  ◌++◌, ltb, if◌then◌else◌, length, replicate, bytes_eq, arith,
}
use ceno_reth_benchmark.Base.Result.{ok, Halts, Ensures}
use ceno_reth_benchmark.Trie.{
  Error, RlpError, unexpected_length, null, leaf, NodeRef, Mpt, add_node, new,
}
use ceno_reth_benchmark.Trie.Tree.{Tree}
use ceno_reth_benchmark.Trie.Tests.{two, two-IsValid}
use ceno_reth_benchmark.Trie.Wire.Encode.{subtree_num_nodes}
use ceno_reth_benchmark.Trie.Wire.Count.{size, subtree_num_nodes-size}
use ceno_reth_benchmark.Trie.Hash.{Rlp}
use ceno_reth_benchmark.Trie.Wire.{Header, DecodeHeader, IsBounded, advance_unchecked}
use ceno_reth_benchmark.Trie.Wire.Decode.{decode_trie}
use ceno_reth_benchmark.Trie.Wire.Ends.{decode_trie-Halts}
use ceno_reth_benchmark.Trie.Wire.Root.{Authentic, decode_trie-Authentic}

abbrev bounded_header : Bool → ℕ → List ℕ → RlpError ⊎ (Header × List ℕ)
bounded_header list n rest =
    if ltb (length rest) n
    then inl unexpected_length
    else inr (record { list = list; payload_length = n }, rest)

-- Headers of one byte, and bytes that stand for themselves.
abbrev pub toy_header : DecodeHeader
toy_header [] = inl unexpected_length
toy_header (b ∷ rest) =
    if ltb b 0x80
    then inr (record { list = false; payload_length = 1 }, b ∷ rest)
    else if ltb b 0xc0
    then bounded_header false (b - 0x80) rest
    else bounded_header true (b - 0xc0) rest

toy_header-IsBounded : IsBounded toy_header
toy_header-IsBounded [] h rest e = cc
toy_header-IsBounded (b ∷ bs) h rest e = ground arith

abbrev pub toy : Rlp
toy = record {
  list_header = λ n. (0xc0 + n) ∷ [];
  string = λ s. (0x80 + length s) ∷ s;
  string_length = λ s. suc (length s);
  length_of_length = λ n. 1;
  keccak256 = λ s. replicate 32 (length s);
  empty_root_hash = replicate 32 0;
}

-- A leaf at the key of 32 ones.
abbrev pub leaf_bytes : List ℕ
leaf_bytes = 0xe3 ∷ 0xa1 ∷ 0x20 ∷ (replicate 32 1 ++ (7 ∷ []))

abbrev pub leaf_trie : Mpt
leaf_trie = record {
  root_id = 1;
  nodes = null ∷ leaf (0x20 ∷ replicate 32 1) (7 ∷ []) ∷ [];
  cached_references = none ∷ some (NodeRef.digest (replicate 32 36)) ∷ [];
}

leaf_decoded : decode_trie toy_header toy.keccak256 leaf_bytes ≡ ok (leaf_trie, [])
unfolding decode_trie add_node new advance_unchecked bytes_eq
leaf_decoded = refl

decode_trie-Halts_example :
    Halts {E = Error} {A = Mpt × List ℕ}
      (λ r.
        (length r.0.nodes ≤ suc (length leaf_bytes))
        × (length r.0.cached_references ≡ length r.0.nodes))
      (decode_trie toy_header toy.keccak256 leaf_bytes)
decode_trie-Halts_example =
    decode_trie-Halts toy_header toy.keccak256 toy_header-IsBounded leaf_bytes

decode_trie-Authentic_example :
    Ensures (Authentic toy toy_header leaf_bytes) (decode_trie toy_header toy.keccak256 leaf_bytes)
decode_trie-Authentic_example =
    decode_trie-Authentic toy toy_header toy_header-IsBounded (λ s. refl) leaf_bytes (omega arith)

-- A branch with two leaves.
abbrev no_ref : Tree → NodeRef
no_ref t = NodeRef.bytes []

subtree_num_nodes-size_example :
    subtree_num_nodes (length two.nodes) two two.root_id ≡ ok (size (two-IsValid no_ref).tree)
subtree_num_nodes-size_example = subtree_num_nodes-size no_ref two (two-IsValid no_ref)
