-- ===== src/Trie/Hash.antt =====
-- crates/mpt/src/trie.rs: the reference of a node, its encoding and the root hash, with the cache of
-- references that they fill. A write to `out` is the list of bytes that it appends. A `RefCell` that
-- is borrowed while it is borrowed mutably is a panic, so the calls carry what is borrowed.
pub mod Spec
pub mod Memo
pub mod Correct
pub mod Root
mod Tests
use ceno_reth_benchmark.Base.{
  ℕ, zero, suc, ◌+◌, Bool, true, false, ◌||◌, Option, none, some, List, [], ◌∷◌, ◌++◌, ltb, ◌==◌,
  if◌then◌else◌, length, get_elem?, set,
}
use ceno_reth_benchmark.Base.Result.{Result, ok, panic, stuck, unwrap, ◌>>=◌}
use ceno_reth_benchmark.Trie.{
  Error, NodeData, null, branch, leaf, extension, NodeRef, bytes, Mpt, node,
}

-- The RLP library, the hash and the hash of an empty trie.
pub record Rlp : Type 0 where
  pub list_header : ℕ → List ℕ
  pub string : List ℕ → List ℕ
  pub string_length : List ℕ → ℕ
  pub length_of_length : ℕ → ℕ
  pub keccak256 : List ℕ → List ℕ
  pub empty_root_hash : List ℕ

-- What is borrowed mutably: the scratch buffer, and cells of the cache.
pub record Borrows : Type 0 where
  pub scratch : Bool
  pub cells : ℕ → Bool

abbrev pub no_borrows : Borrows
no_borrows = record { scratch = false; cells = λ j. false }

abbrev pub borrow_cell : ℕ → Borrows → Borrows
borrow_cell id b = record { scratch = b.scratch; cells = λ j. j == id || b.cells j }

abbrev pub borrow_scratch : Borrows → Borrows
borrow_scratch b = record { scratch = true; cells = b.cells }

abbrev pub Referred : Type 0
Referred = Result Error (NodeRef × Mpt)

abbrev pub Calc : Type 0
Calc = Borrows → Mpt → ℕ → Referred

abbrev pub Measured : Type 0
Measured = Result Error (ℕ × Mpt)

abbrev pub Encoded : Type 0
Encoded = Result Error (List ℕ × Mpt)

abbrev pub empty_string_code : ℕ
empty_string_code = 0x80

abbrev pub fill : Calc → Borrows → Mpt → ℕ → Option NodeRef → Referred
fill rec b m id (some r) = ok (r, m)
fill rec b m id none = do
  (r, m') ← rec (borrow_cell id b) m id
  ok (r, record m' { cached_references = set m'.cached_references id (some r) })

-- `cached_references[id].borrow_mut().get_or_insert_with(|| calc_reference(id))`
unfoldable pub get_or_insert : Calc → Borrows → Mpt → ℕ → Referred
get_or_insert rec b m id =
    if b.cells id then panic else (unwrap (get_elem? m.cached_references id) >>= fill rec b m id)

abbrev pub encoded_ref : NodeRef → List ℕ
encoded_ref (bytes bs) = bs
encoded_ref (NodeRef.digest d) = (empty_string_code + 32) ∷ d

abbrev pub encoded_ref_length : NodeRef → ℕ
encoded_ref_length (bytes bs) = length bs
encoded_ref_length (NodeRef.digest d) = 1 + 32

unfoldable pub reference_encode : Calc → Borrows → Mpt → ℕ → Encoded
reference_encode rec b m id = do (r, m') ← get_or_insert rec b m id; ok (encoded_ref r, m')

unfoldable pub reference_length : Calc → Borrows → Mpt → ℕ → Measured
reference_length rec b m id = do (r, m') ← get_or_insert rec b m id; ok (encoded_ref_length r, m')

-- The sum over the children.
unfoldable pub children_length : Calc → Borrows → Mpt → List (Option ℕ) → Measured
children_length rec b m [] = ok (0, m)
children_length rec b m (none ∷ cs) = do (n, m') ← children_length rec b m cs; ok (1 + n, m')
children_length rec b m (some id ∷ cs) = do
  (k, m1) ← reference_length rec b m id
  (n, m2) ← children_length rec b m1 cs
  ok (k + n, m2)

unfoldable pub children_encode : Calc → Borrows → Mpt → List (Option ℕ) → Encoded
children_encode rec b m [] = ok ([], m)
children_encode rec b m (none ∷ cs) = do
  (out, m') ← children_encode rec b m cs
  ok (empty_string_code ∷ out, m')
children_encode rec b m (some id ∷ cs) = do
  (first, m1) ← reference_encode rec b m id
  (out, m2) ← children_encode rec b m1 cs
  ok (first ++ out, m2)

module _ (rlp : Rlp) where
  unfoldable pub payload_length : Calc → Borrows → Mpt → NodeData → Measured
  payload_length rec b m null = ok (0, m)
  payload_length rec b m (branch nodes) = do (n, m') ← children_length rec b m nodes; ok (1 + n, m')
  payload_length rec b m (leaf encoded_path value) =
      ok (rlp.string_length encoded_path + rlp.string_length value, m)
  payload_length rec b m (extension encoded_path id) = do
    (n, m') ← reference_length rec b m id
    ok (rlp.string_length encoded_path + n, m')
  payload_length rec b m (NodeData.digest d) = ok (32, m)

  unfoldable pub encode_with_payload_len : Calc → Borrows → Mpt → NodeData → ℕ → Encoded
  encode_with_payload_len rec b m null n = ok (empty_string_code ∷ [], m)
  encode_with_payload_len rec b m (branch nodes) n = do
    (out, m') ← children_encode rec b m nodes
    ok (rlp.list_header n ++ (out ++ (empty_string_code ∷ [])), m')
  encode_with_payload_len rec b m (leaf encoded_path value) n =
      ok (rlp.list_header n ++ (rlp.string encoded_path ++ rlp.string value), m)
  encode_with_payload_len rec b m (extension encoded_path id) n = do
    (out, m') ← reference_encode rec b m id
    ok (rlp.list_header n ++ (rlp.string encoded_path ++ out), m')
  encode_with_payload_len rec b m (NodeData.digest d) n = ok (rlp.string d, m)

  abbrev pub as_bytes : List ℕ × Mpt → Referred
  as_bytes (out, m) = ok (bytes out, m)

  abbrev pub as_digest : List ℕ × Mpt → Referred
  as_digest (out, m) = ok (NodeRef.digest (rlp.keccak256 out), m)

  -- A short encoding stands for itself; a long one is written to the scratch buffer and hashed.
  unfoldable pub calc_sized : Calc → Borrows → Mpt → NodeData → ℕ → Referred
  calc_sized rec b m d n =
      if ltb (n + rlp.length_of_length n) 32
      then encode_with_payload_len rec b m d n >>= as_bytes
      else if b.scratch
      then panic
      else encode_with_payload_len rec (borrow_scratch b) m d n >>= as_digest

  unfoldable pub calc_long : Calc → Borrows → Mpt → NodeData → Referred
  calc_long rec b m d = do (n, m') ← payload_length rec b m d; calc_sized rec b m' d n

  unfoldable pub calc_node : Calc → Borrows → Mpt → NodeData → Referred
  calc_node rec b m null = ok (bytes (empty_string_code ∷ []), m)
  calc_node rec b m (NodeData.digest d) = ok (NodeRef.digest d, m)
  calc_node rec b m (branch nodes) = calc_long rec b m (branch nodes)
  calc_node rec b m (leaf encoded_path value) = calc_long rec b m (leaf encoded_path value)
  calc_node rec b m (extension encoded_path id) = calc_long rec b m (extension encoded_path id)

  unfoldable pub calc_reference : ℕ → Borrows → Mpt → ℕ → Referred
  calc_reference zero b m node_id = stuck
  calc_reference (suc fuel) b m node_id = do
    d ← node m node_id
    calc_node (λ b m id. calc_reference fuel b m id) b m d

  -- `B256::from_slice` panics unless there are 32 bytes.
  abbrev pub hash_of : NodeRef × Mpt → Encoded
  hash_of (NodeRef.digest d, m) = if length d == 32 then ok (d, m) else panic
  hash_of (bytes bs, m) = ok (rlp.keccak256 bs, m)

  abbrev pub hash_node : Mpt → NodeData → Encoded
  hash_node m null = ok (rlp.empty_root_hash, m)
  hash_node m _ =
      get_or_insert (λ b m' id. calc_reference (length m.nodes) b m' id) no_borrows m m.root_id
      >>= hash_of

  unfoldable pub hash : Mpt → Encoded
  hash m = do d ← node m m.root_id; hash_node m d

  unfoldable pub root_is_hash_addressed : Mpt → Result Error (Bool × Mpt)
  root_is_hash_addressed m = do
    (r, m') ← calc_reference (length m.nodes) no_borrows m m.root_id
    ok (is_digest r, m')
    where
      is_digest : NodeRef → Bool
      is_digest (NodeRef.digest d) = true
      is_digest (bytes bs) = false

unfoldable pub is_empty : Mpt → Result Error Bool
is_empty m = do d ← node m m.root_id; ok (is_null d)
  where
    is_null : NodeData → Bool
    is_null null = true
    is_null _ = false
