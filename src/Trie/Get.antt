-- ===== src/Trie/Get.antt =====
-- `get` and `get_internal` of crates/mpt/src/trie.rs. The recursion takes fuel; Trie/Total shows
-- how much is enough.
use ceno_reth_benchmark.Base.{
  ℕ, zero, suc, Option, none, some, List, [], ◌∷◌, if◌then◌else◌, length,
}
use ceno_reth_benchmark.Base.Result.{Result, ok, stuck, ◌>>=◌}
use ceno_reth_benchmark.Hp.{to_nibs, encoded_path_eq_nibs, encoded_path_strip_prefix}
use ceno_reth_benchmark.Trie.{
  Error, NodeData, null, branch, leaf, extension, Mpt, node, child_at, not_resolved,
}

abbrev pub Value : Type 0
Value = List ℕ

unfoldable pub get_child :
    (ℕ → List ℕ → Result Error (Option Value)) → List ℕ → Option ℕ → Result Error (Option Value)
get_child rec tail none = ok none
get_child rec tail (some id) = rec id tail

unfoldable pub get_stripped :
    (ℕ → List ℕ → Result Error (Option Value)) → ℕ → Option (List ℕ) → Result Error (Option Value)
get_stripped rec child_id none = ok none
get_stripped rec child_id (some tail) = rec child_id tail

-- The match on the node; `rec` is the recursive call.
unfoldable pub get_node :
    (ℕ → List ℕ → Result Error (Option Value)) → List ℕ → NodeData → Result Error (Option Value)
unfolding get_child get_stripped
get_node rec key_nibs null = ok none
get_node rec [] (branch nodes) = ok none
get_node rec (i ∷ tail) (branch nodes) = do c ← child_at nodes i; get_child rec tail c
get_node rec key_nibs (leaf path_bytes value) = do
  same ← encoded_path_eq_nibs path_bytes key_nibs
  if same then ok (some value) else ok none
get_node rec key_nibs (extension path_bytes child_id) = do
  tail ← encoded_path_strip_prefix path_bytes key_nibs
  get_stripped rec child_id tail
get_node rec key_nibs (NodeData.digest d) = not_resolved d

unfoldable pub get_internal : ℕ → Mpt → ℕ → List ℕ → Result Error (Option Value)
unfolding get_node
get_internal zero m node_id key_nibs = stuck
get_internal (suc fuel) m node_id key_nibs = do
  data' ← node m node_id
  get_node (λ id tail. get_internal fuel m id tail) key_nibs data'

-- The height of a tree-shaped arena is at most the number of its nodes.
unfoldable pub get_nibbles : Mpt → List ℕ → Result Error (Option Value)
get_nibbles m key_nibs = get_internal (length m.nodes) m m.root_id key_nibs

unfoldable pub get : Mpt → List ℕ → Result Error (Option Value)
get m key = get_nibbles m (to_nibs key)
