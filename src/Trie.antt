-- ===== src/Trie.antt =====
-- crates/mpt/src/trie.rs and node.rs: the arena of nodes. A `Vec` is a list, a `NodeId` is the `u32`
-- index; the bump arena and the scratch buffer only hold memory and are not part of the state.
-- A 32-byte hash (`B256`) is its list of bytes.
pub mod Get
pub mod Insert
pub mod Delete
pub mod Arena
pub mod Tree
pub mod Spec
pub mod Slots
pub mod Refine
pub mod Total
pub mod Valid
pub mod Correct
pub mod Fixed
pub mod Runs
pub mod Hash
pub mod Wire
pub mod Frontier
pub mod Tests
use ceno_reth_benchmark.Base.{
  ℕ, suc, ◌+◌, ◌%◌, ◌^◌, Bool, true, false, Option, none, some, List, [], ◌∷◌, ◌++◌, ltb, ◌==◌,
  if◌then◌else◌, length, get_elem?, set, replicate,
}
use ceno_reth_benchmark.Base.Result.{Result, ok, err, panic, unwrap, ◌>>=◌}

-- The errors of the RLP library: the one that trie.rs raises itself, and any other by a code.
pub data RlpError : Type 0 where
  unexpected_length : RlpError
  library_error : ℕ → RlpError

pub data Error : Type 0 where
  node_ref_mismatch : Error
  node_not_resolved : List ℕ → Error
  rlp_error : RlpError → Error
  value_in_branch : Error
  invalid_frontier_prefix : Error
  inline_frontier_chunk : Error

pub data NodeData : Type 0 where
  null : NodeData
  branch : List (Option ℕ) → NodeData
  leaf : List ℕ → List ℕ → NodeData
  extension : List ℕ → ℕ → NodeData
  digest : List ℕ → NodeData

pub data NodeRef : Type 0 where
  bytes : List ℕ → NodeRef
  digest : List ℕ → NodeRef

pub record Mpt : Type 0 where
  pub root_id : ℕ
  pub nodes : List NodeData
  pub cached_references : List (Option NodeRef)

unfoldable pub new : Mpt
new = record { root_id = 0; nodes = NodeData.null ∷ []; cached_references = none ∷ [] }

unfoldable pub num_nodes : Mpt → ℕ
num_nodes m = length m.nodes

-- `self.nodes[id]`
abbrev pub node : Mpt → ℕ → Result Error NodeData
node m id = unwrap (get_elem? m.nodes id)

-- `self.nodes[id] = data`; every such write follows a read of the same index.
abbrev pub set_node : Mpt → ℕ → NodeData → Mpt
set_node m id data' = record m { nodes = set m.nodes id data' }

-- `self.nodes.len() as NodeId` keeps the low 32 bits.
unfoldable pub add_node : Mpt → NodeData → Option NodeRef → ℕ × Mpt
add_node m data' node_ref = (
  length m.nodes % 2 ^ 32,
  record m {
    nodes = m.nodes ++ (data' ∷ []);
    cached_references = m.cached_references ++ (node_ref ∷ []);
  },
)

unfoldable pub invalidate_ref_cache : Mpt → ℕ → Result Error Mpt
invalidate_ref_cache m id =
    if ltb id (length m.cached_references)
    then ok (record m { cached_references = set m.cached_references id none })
    else panic

-- `B256::from_slice` panics unless there are 32 bytes.
unfoldable pub not_resolved : {A : Type 0} → List ℕ → Result Error A
not_resolved d = if length d == 32 then err (node_not_resolved d) else panic

-- `children[i]`, read and written.
abbrev pub child_at : List (Option ℕ) → ℕ → Result Error (Option ℕ)
child_at children i = unwrap (get_elem? children i)

unfoldable pub put_child : List (Option ℕ) → ℕ → Option ℕ → Result Error (List (Option ℕ))
put_child children i c = if ltb i (length children) then ok (set children i c) else panic

-- `Default::default()` of `[Option<NodeId>; 16]`
abbrev pub no_children : List (Option ℕ)
no_children = replicate 16 none

-- The end of `insert_internal` and `delete_internal`.
unfoldable pub finish : ℕ → Bool × Mpt → Result Error (Bool × Mpt)
unfolding invalidate_ref_cache
finish id (true, m) = do m' ← invalidate_ref_cache m id; ok (true, m')
finish id (false, m) = ok (false, m)
