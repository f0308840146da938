-- ===== src/Trie/Wire/Decode.antt =====
-- `decode_trie` and `decode_trie_internal` of crates/mpt/src/trie.rs, and `from_rlp_slice` of
-- crates/mpt/src/node.rs. `num_nodes` only reserves memory and is left out.
use ceno_reth_benchmark.Base.{
  ℕ, zero, suc, ◌-◌, not, ◌&&◌, Option, none, some, List, [], ◌∷◌, ltb, ◌==◌, if◌then◌else◌, length,
  take, drop, bytes_eq, bit_and,
}
use ceno_reth_benchmark.Base.Result.{Result, ok, err, panic, stuck, ◌>>=◌}
use ceno_reth_benchmark.Hp.{hp_flag_leaf}
use ceno_reth_benchmark.Trie.{
  Error, node_ref_mismatch, rlp_error, unexpected_length, value_in_branch, NodeData, branch, leaf,
  extension, NodeRef, bytes, Mpt, new, add_node,
}
use ceno_reth_benchmark.Trie.Hash.{empty_string_code}
use ceno_reth_benchmark.Trie.Wire.{Header, DecodeHeader, lift, padding, advance_unchecked}

abbrev pub null_node_id : ℕ
null_node_id = 0

abbrev pub null_node_ref_slice : List ℕ
null_node_ref_slice = empty_string_code ∷ []

abbrev pub empty_trie : List ℕ
empty_trie = empty_string_code ∷ 0 ∷ 0 ∷ 0 ∷ []

unfoldable pub as_slice : NodeRef → List ℕ
as_slice (bytes slice) = slice
as_slice (NodeRef.digest slice) = slice

-- The length is asserted in debug builds only.
unfoldable pub from_rlp_slice : List ℕ → NodeRef
from_rlp_slice slice = if length slice == 33 then NodeRef.digest (drop 1 slice) else bytes slice

-- An item of a node: its bytes, its payload, and what follows it.
pub record Item : Type 0 where
  pub slice : List ℕ
  pub payload : List ℕ
  pub rest : List ℕ

-- A node that was decoded: its index, the trie, and the bytes that are left.
abbrev pub Decoded : Type 0
Decoded = Result Error (ℕ × Mpt × List ℕ)

abbrev pub Rec : Type 0
Rec = Mpt → List ℕ → NodeRef → Decoded

abbrev pub added : ℕ × Mpt → List ℕ → Decoded
added (id, m) bs = ok (id, m, bs)

abbrev pub set_root : ℕ × Mpt × List ℕ → Result Error (Mpt × List ℕ)
set_root (root_id, m, bs) = ok (record m { root_id = root_id }, bs)

module _ (decode_header : DecodeHeader) (keccak256 : List ℕ → List ℕ) where
  -- A header, its payload, and the bytes that both take.
  unfoldable pub read_item : List ℕ → Result Error (Header × Item)
  read_item start = do
    (h, buf) ← lift (decode_header start)
    (payload, rest) ← advance_unchecked buf h.payload_length
    ok (
      h,
      record { slice = take (length start - length rest) start; payload = payload; rest = rest },
    )

  -- The node's reference, which the parent must have named.
  unfoldable pub check_ref : Header → Item → NodeRef → Result Error NodeRef
  unfolding as_slice
  check_ref h i expected =
      if ltb (length i.slice) 32
      then (if bytes_eq i.slice (as_slice expected)
          then ok (bytes i.slice)
          else err node_ref_mismatch)
      else if h.payload_length == 32 && not h.list
      then (if bytes_eq i.payload (as_slice expected) then ok expected else err node_ref_mismatch)
      else if bytes_eq (keccak256 i.slice) (as_slice expected)
      then ok expected
      else err node_ref_mismatch

  unfoldable pub decode_string : Mpt → List ℕ → Header → List ℕ → Decoded
  decode_string m bs h payload =
      if h.payload_length == 0
      then ok (null_node_id, m, bs)
      else if h.payload_length == 32
      then added (add_node m (NodeData.digest payload) (some (NodeRef.digest payload))) bs
      else err (rlp_error unexpected_length)

  unfoldable pub decode_extension : Rec → Mpt → List ℕ → NodeRef → List ℕ → List ℕ → Decoded
  unfolding from_rlp_slice
  decode_extension rec m bs node_ref path slice = do
    (id, m1, bs1) ← rec m bs (from_rlp_slice slice)
    added (add_node m1 (extension path id) (some node_ref)) bs1

  -- Two items: `path[0]` tells a leaf from an extension.
  unfoldable pub decode_pair : Rec → Mpt → List ℕ → NodeRef → List ℕ → Item → Decoded
  unfolding decode_extension
  decode_pair rec m bs node_ref [] i = panic
  decode_pair rec m bs node_ref (prefix ∷ path) i =
      if bit_and prefix hp_flag_leaf == 0
      then decode_extension rec m bs node_ref (prefix ∷ path) i.slice
      else added (add_node m (leaf (prefix ∷ path) i.payload) (some node_ref)) bs

  abbrev pub Child : Type 0
  Child = Result Error (Option ℕ × Mpt × List ℕ)

  unfoldable pub decode_child : Rec → Mpt → List ℕ → NodeRef → Child
  unfolding as_slice
  decode_child rec m bs expected =
      if bytes_eq (as_slice expected) null_node_ref_slice
      then ok (none, m, bs)
      else rec m bs expected >>= λ r. ok (some r.0, r.1, r.2)

  -- The other children, and what follows them in the node.
  unfoldable pub decode_children :
      Rec → ℕ → Mpt → List ℕ → List ℕ → Result Error (List (Option ℕ) × Mpt × List ℕ × List ℕ)
  unfolding from_rlp_slice read_item
  decode_children rec zero m bs payload = ok ([], m, bs, payload)
  decode_children rec (suc k) m bs payload = do
    (h, i) ← read_item payload
    (c, m1, bs1) ← decode_child rec m bs (from_rlp_slice i.slice)
    (cs, m2, bs2, rest) ← decode_children rec k m1 bs1 i.rest
    ok (c ∷ cs, m2, bs2, rest)

  unfoldable pub decode_branch : Rec → Mpt → List ℕ → NodeRef → Item → Item → Decoded
  unfolding from_rlp_slice
  decode_branch rec m bs node_ref i0 i1 = do
    (c0, m0, bs0) ← decode_child rec m bs (from_rlp_slice i0.slice)
    (c1, m1, bs1) ← decode_child rec m0 bs0 (from_rlp_slice i1.slice)
    (cs, m2, bs2, rest) ← decode_children rec 14 m1 bs1 i1.rest
    if bytes_eq rest null_node_ref_slice
        then added (add_node m2 (branch (c0 ∷ c1 ∷ cs)) (some node_ref)) bs2
        else err value_in_branch

  abbrev pub pair_or_branch : Rec → Mpt → List ℕ → NodeRef → Item → Item → List ℕ → Decoded
  pair_or_branch rec m bs node_ref i0 i1 [] = decode_pair rec m bs node_ref i0.payload i1
  pair_or_branch rec m bs node_ref i0 i1 (_ ∷ _) = decode_branch rec m bs node_ref i0 i1

  unfoldable pub decode_list : Rec → Mpt → List ℕ → NodeRef → List ℕ → Decoded
  unfolding read_item decode_pair decode_branch
  decode_list rec m bs node_ref payload = do
    (h0, i0) ← read_item payload
    (h1, i1) ← read_item i0.rest
    pair_or_branch rec m bs node_ref i0 i1 i1.rest

  unfoldable pub decode_trie_internal : ℕ → Rec
  unfolding read_item check_ref decode_string decode_list
  decode_trie_internal zero m bs expected = stuck
  decode_trie_internal (suc fuel) m bs expected = do
    (h, i) ← read_item bs
    (pad, bs1) ← advance_unchecked i.rest (padding (length i.slice))
    node_ref ← check_ref h i expected
    if h.list
        then decode_list (λ m bs r. decode_trie_internal fuel m bs r) m bs1 node_ref i.payload
        else decode_string m bs1 h i.payload

  -- The reference that the first node must have.
  unfoldable pub root_ref : List ℕ → Result Error NodeRef
  unfolding read_item
  root_ref bs = do
    (h, i) ← read_item bs
    ok (
        if ltb (length i.slice) 32
        then bytes i.slice
        else NodeRef.digest (if h.list then keccak256 i.slice else i.payload))

  -- A node takes a byte at least, so the bytes are fuel enough.
  unfoldable pub decode_trie : List ℕ → Result Error (Mpt × List ℕ)
  unfolding root_ref decode_trie_internal new
  decode_trie bs = if bytes_eq bs empty_trie then ok (new, bs) else do
    expected ← root_ref bs
    decode_trie_internal (suc (length bs)) new bs expected >>= set_root
