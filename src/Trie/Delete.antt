-- ===== src/Trie/Delete.antt =====
-- `delete` and `delete_internal` of crates/mpt/src/trie.rs, in the order of the source.
use ceno_reth_benchmark.Base.{
  ℕ, zero, suc, Bool, true, false, Option, none, some, List, [], ◌∷◌, ◌++◌, if◌then◌else◌, bytes_eq,
  length,
}
use ceno_reth_benchmark.Base.Result.{Result, ok, err, panic, stuck, ◌>>=◌}
use ceno_reth_benchmark.Hp.{to_nibs, prefix_to_nibs, to_encoded_path}
use ceno_reth_benchmark.Hp.Compare.{strip_prefix}
use ceno_reth_benchmark.Trie.{
  Error, value_in_branch, NodeData, null, branch, leaf, extension, Mpt, node, set_node, child_at,
  put_child, not_resolved, finish,
}
use ceno_reth_benchmark.Trie.Insert.{Updates}

abbrev pub is_null : NodeData → Bool
is_null null = true
is_null _ = false

-- `children.iter().enumerate().filter(|(_, n)| n.is_some())`, from index `i` on.
unfoldable pub remaining : ℕ → List (Option ℕ) → List (ℕ × ℕ)
remaining i [] = []
remaining i (none ∷ cs) = remaining (suc i) cs
remaining i (some id ∷ cs) = (i, id) ∷ remaining (suc i) cs

-- The last child of a branch takes the branch's place; the branch's nibble joins its path.
unfoldable pub absorb : ℕ → ℕ → NodeData → Result Error NodeData
absorb index child_id (leaf prefix value) = do
  new_path ← to_encoded_path (index ∷ prefix_to_nibs prefix) true
  ok (leaf new_path value)
absorb index child_id (extension prefix child_child_id) = do
  new_path ← to_encoded_path (index ∷ prefix_to_nibs prefix) false
  ok (extension new_path child_child_id)
absorb index child_id (branch children) = do
  new_path ← to_encoded_path (index ∷ []) false
  ok (extension new_path child_id)
absorb index child_id (NodeData.digest d) = do
  new_path ← to_encoded_path (index ∷ []) false
  ok (extension new_path child_id)
absorb index child_id null = panic

unfoldable pub shrink : Mpt → ℕ → List (Option ℕ) → List (ℕ × ℕ) → Updates
unfolding absorb
shrink m node_id children [] = panic
shrink m node_id children ((index, child_id) ∷ []) = do
  child_node_data ← node m child_id
  new_node_data ← absorb index child_id child_node_data
  ok (true, set_node m node_id new_node_data)
shrink m node_id children (_ ∷ _ ∷ _) = ok (true, set_node m node_id (branch children))

abbrev pub Delete : Type 0
Delete = Mpt → ℕ → List ℕ → Updates

unfoldable pub after_child : ℕ → List (Option ℕ) → ℕ → ℕ → Bool × Mpt → Updates
unfolding shrink remaining
after_child node_id children i id (false, m) = ok (false, m)
after_child node_id children i id (true, m) = do
  d ← node m id
  children' ← if is_null d then put_child children i none else ok children
  shrink m node_id children' (remaining 0 children')

unfoldable pub delete_child : Delete → Mpt → ℕ → List (Option ℕ) → ℕ → List ℕ → Option ℕ → Updates
unfolding after_child
delete_child rec m node_id children i tail none = ok (false, m)
delete_child rec m node_id children i tail (some id) = do
  r ← rec m id tail
  after_child node_id children i id r

-- An extension over a child that was changed.
unfoldable pub join : List ℕ → ℕ → NodeData → Result Error NodeData
join prefix child_id null = ok null
join prefix child_id (leaf child_path_bytes value) = do
  new_path ← to_encoded_path (prefix_to_nibs prefix ++ prefix_to_nibs child_path_bytes) true
  ok (leaf new_path value)
join prefix child_id (extension child_path_bytes grandchild_id) = do
  new_path ← to_encoded_path (prefix_to_nibs prefix ++ prefix_to_nibs child_path_bytes) false
  ok (extension new_path grandchild_id)
join prefix child_id (branch children) = ok (extension prefix child_id)
join prefix child_id (NodeData.digest d) = ok (extension prefix child_id)

unfoldable pub after_extension : ℕ → List ℕ → ℕ → Bool × Mpt → Updates
unfolding join
after_extension node_id prefix child_id (false, m) = ok (false, m)
after_extension node_id prefix child_id (true, m) = do
  child_node_data ← node m child_id
  new_node_data ← join prefix child_id child_node_data
  ok (true, set_node m node_id new_node_data)

unfoldable pub delete_extension : Delete → Mpt → ℕ → List ℕ → ℕ → Option (List ℕ) → Updates
unfolding after_extension
delete_extension rec m node_id prefix child_id none = ok (false, m)
delete_extension rec m node_id prefix child_id (some tail) = do
  r ← rec m child_id tail
  after_extension node_id prefix child_id r

-- The match on the node; `rec` is the recursive call.
unfoldable pub delete_node : Delete → Mpt → ℕ → List ℕ → NodeData → Updates
unfolding delete_child delete_extension
delete_node rec m node_id key_nibs null = ok (false, m)
delete_node rec m node_id [] (branch children) = err value_in_branch
delete_node rec m node_id (i ∷ tail) (branch children) = do
  c ← child_at children i
  delete_child rec m node_id children i tail c
delete_node rec m node_id key_nibs (leaf prefix value) =
    if bytes_eq (prefix_to_nibs prefix) key_nibs
    then ok (true, set_node m node_id null)
    else ok (false, m)
delete_node rec m node_id key_nibs (extension prefix child_id) =
    delete_extension rec m node_id prefix child_id (strip_prefix (prefix_to_nibs prefix) key_nibs)
delete_node rec m node_id key_nibs (NodeData.digest d) = not_resolved d

unfoldable pub delete_internal : ℕ → Mpt → ℕ → List ℕ → Updates
unfolding delete_node finish
delete_internal zero m node_id key_nibs = stuck
delete_internal (suc fuel) m node_id key_nibs = do
  data' ← node m node_id
  r ← delete_node (λ m id tail. delete_internal fuel m id tail) m node_id key_nibs data'
  finish node_id r

unfoldable pub delete_nibbles : Mpt → List ℕ → Updates
delete_nibbles m key_nibs = delete_internal (length m.nodes) m m.root_id key_nibs

unfoldable pub delete : Mpt → List ℕ → Updates
delete m key = delete_nibbles m (to_nibs key)
