-- ===== src/Trie/Wire/Encode.antt =====
-- `encode_trie`, `encoded_subtrie`, `subtree_num_nodes` and `payloads` of crates/mpt/src/trie.rs,
-- which the host uses. What is appended to `out` is the list of the bytes.
use ceno_reth_benchmark.Base.{
  ℕ, zero, suc, ◌+◌, Option, none, some, List, [], ◌∷◌, ◌++◌, length, replicate,
}
use ceno_reth_benchmark.Base.Result.{Result, ok, stuck, ◌>>=◌}
use ceno_reth_benchmark.Trie.{Error, NodeData, null, branch, leaf, extension, Mpt, node}
use ceno_reth_benchmark.Trie.Hash.{
  Rlp, Calc, Encoded, no_borrows, calc_reference, payload_length, encode_with_payload_len,
}
use ceno_reth_benchmark.Trie.Wire.{padding}

abbrev pub EncodeRec : Type 0
EncodeRec = Mpt → ℕ → Encoded

-- The children, one after another.
unfoldable pub encode_children : EncodeRec → Mpt → List (Option ℕ) → Encoded
encode_children rec m [] = ok ([], m)
encode_children rec m (none ∷ cs) = encode_children rec m cs
encode_children rec m (some id ∷ cs) = do
  (out, m1) ← rec m id
  (rest, m2) ← encode_children rec m1 cs
  ok (out ++ rest, m2)

abbrev pub encode_below : EncodeRec → Mpt → NodeData → Encoded
encode_below rec m (branch childs) = encode_children rec m childs
encode_below rec m (extension path ext_id) = rec m ext_id
encode_below rec m null = ok ([], m)
encode_below rec m (leaf path value) = ok ([], m)
encode_below rec m (NodeData.digest d) = ok ([], m)

-- The sum over the children.
unfoldable pub count_children : (ℕ → Result Error ℕ) → List (Option ℕ) → Result Error ℕ
count_children rec [] = ok 0
count_children rec (none ∷ cs) = count_children rec cs
count_children rec (some id ∷ cs) = do k ← rec id; n ← count_children rec cs; ok (k + n)

abbrev pub count_below : (ℕ → Result Error ℕ) → NodeData → Result Error ℕ
count_below rec (branch children) = do n ← count_children rec children; ok (1 + n)
count_below rec (extension path child) = do n ← rec child; ok (1 + n)
count_below rec null = ok 1
count_below rec (leaf path value) = ok 1
count_below rec (NodeData.digest d) = ok 1

unfoldable pub subtree_num_nodes : ℕ → Mpt → ℕ → Result Error ℕ
unfolding count_children
subtree_num_nodes zero m node_id = stuck
subtree_num_nodes (suc fuel) m node_id = do
  d ← node m node_id
  count_below (λ id. subtree_num_nodes fuel m id) d

abbrev pub Payloads : Type 0
Payloads = Result Error (List (List ℕ) × Mpt)

unfoldable pub payloads_children : (Mpt → ℕ → Payloads) → Mpt → List (Option ℕ) → Payloads
payloads_children rec m [] = ok ([], m)
payloads_children rec m (none ∷ cs) = payloads_children rec m cs
payloads_children rec m (some id ∷ cs) = do
  (out, m1) ← rec m id
  (rest, m2) ← payloads_children rec m1 cs
  ok (out ++ rest, m2)

abbrev pub payloads_below : (Mpt → ℕ → Payloads) → Mpt → NodeData → Payloads
payloads_below rec m (branch nodes) = payloads_children rec m nodes
payloads_below rec m (extension path ext_id) = rec m ext_id
payloads_below rec m null = ok ([], m)
payloads_below rec m (leaf path value) = ok ([], m)
payloads_below rec m (NodeData.digest d) = ok ([], m)

module _ (rlp : Rlp) where
  -- The node's own bytes, and the length of its payload.
  unfoldable pub encode_node : Mpt → ℕ → Result Error (List ℕ × ℕ × Mpt)
  encode_node m node_id = do
    d ← node m node_id
    let rec : Calc = λ b m id. calc_reference rlp (length m.nodes) b m id
    (n, m1) ← payload_length rlp rec no_borrows m d
    (out, m2) ← encode_with_payload_len rlp rec no_borrows m1 d n
    ok (out, n, m2)

  unfoldable pub encode_trie_internal : ℕ → EncodeRec
  unfolding encode_node encode_children
  encode_trie_internal zero m node_id = stuck
  encode_trie_internal (suc fuel) m node_id = do
    (out, n, m1) ← encode_node m node_id
    d ← node m1 node_id
    (rest, m2) ← encode_below (λ m id. encode_trie_internal fuel m id) m1 d
    ok (out ++ (replicate (padding (n + rlp.length_of_length n)) 0 ++ rest), m2)

  unfoldable pub encode_trie : Mpt → Encoded
  unfolding encode_trie_internal
  encode_trie m = encode_trie_internal (length m.nodes) m m.root_id

  unfoldable pub encoded_subtrie : Mpt → ℕ → Encoded
  unfolding encode_trie_internal
  encoded_subtrie m node_id = encode_trie_internal (length m.nodes) m node_id

  unfoldable pub payloads_internal : ℕ → Mpt → ℕ → Payloads
  unfolding encode_node payloads_children
  payloads_internal zero m node_id = stuck
  payloads_internal (suc fuel) m node_id = do
    (out, n, m1) ← encode_node m node_id
    d ← node m1 node_id
    (rest, m2) ← payloads_below (λ m id. payloads_internal fuel m id) m1 d
    ok (out ∷ rest, m2)

  unfoldable pub payloads : Mpt → Payloads
  unfolding payloads_internal
  payloads m = payloads_internal (length m.nodes) m m.root_id
