-- ===== src/Trie/Insert.antt =====
-- `insert` and `insert_internal` of crates/mpt/src/trie.rs, in the order of the source.
use ceno_reth_benchmark.Base.{
  ℕ, zero, suc, Bool, true, false, ◌&&◌, ◌||◌, Option, none, some, List, [], ◌∷◌, ltb, ◌==◌,
  if◌then◌else◌, bytes_eq, length, take, drop, get_elem?,
}
use ceno_reth_benchmark.Base.Result.{Result, ok, err, stuck, unwrap, ◌>>=◌}
use ceno_reth_benchmark.Hp.{to_nibs, prefix_to_nibs, lcp, to_encoded_path}
use ceno_reth_benchmark.Trie.{
  Error, value_in_branch, NodeData, null, branch, leaf, extension, Mpt, node, set_node, add_node,
  child_at, put_child, no_children, not_resolved, finish,
}

abbrev pub Updates : Type 0
Updates = Result Error (Bool × Mpt)

-- What replaces a split node: the new branch, behind an extension over the common prefix if there
-- is one.
unfoldable pub replace_by_branch : Mpt → ℕ → List ℕ → ℕ → List (Option ℕ) → Updates
replace_by_branch m node_id self_nibs common_len children =
    if ltb 0 common_len
    then (do
      let (branch_id, m') = add_node m (branch children) none
      path ← to_encoded_path (take common_len self_nibs) false
      ok (true, set_node m' node_id (extension path branch_id)))
    else ok (true, set_node m node_id (branch children))

-- `common_len` is below both lengths here, so the two slices are in range.
unfoldable pub split_leaf : Mpt → ℕ → List ℕ → List ℕ → ℕ → List ℕ → List ℕ → Updates
unfolding replace_by_branch
split_leaf m node_id self_nibs key_nibs common_len old_value value = do
  leaf1_path ← to_encoded_path (drop (suc common_len) self_nibs) true
  let (leaf1_id, m1) = add_node m (leaf leaf1_path old_value) none
  leaf2_path ← to_encoded_path (drop (suc common_len) key_nibs) true
  let (leaf2_id, m2) = add_node m1 (leaf leaf2_path value) none
  x ← unwrap (get_elem? self_nibs common_len)
  children1 ← put_child no_children x (some leaf1_id)
  y ← unwrap (get_elem? key_nibs common_len)
  children2 ← put_child children1 y (some leaf2_id)
  replace_by_branch m2 node_id self_nibs common_len children2

unfoldable pub insert_leaf : Mpt → ℕ → List ℕ → List ℕ → List ℕ → List ℕ → Updates
unfolding split_leaf
insert_leaf m node_id prefix old_value key_nibs value =
    let self_nibs = prefix_to_nibs prefix in
    let common_len = lcp self_nibs key_nibs in
    if common_len == length self_nibs && common_len == length key_nibs
    then (if bytes_eq old_value value
        then ok (false, m)
        else ok (true, set_node m node_id (leaf prefix value)))
    else if common_len == length self_nibs || common_len == length key_nibs
    then err value_in_branch
    else split_leaf m node_id self_nibs key_nibs common_len old_value value

-- The old child stays below a shorter extension, or directly below the branch.
unfoldable pub old_child : Mpt → List ℕ → ℕ → ℕ → Result Error (ℕ × Mpt)
old_child m self_nibs common_len child_id =
    if ltb (suc common_len) (length self_nibs)
    then (do
      ext_path ← to_encoded_path (drop (suc common_len) self_nibs) false
      ok (add_node m (extension ext_path child_id) none))
    else ok (child_id, m)

unfoldable pub split_extension : Mpt → ℕ → List ℕ → List ℕ → ℕ → ℕ → List ℕ → Updates
unfolding replace_by_branch old_child
split_extension m node_id self_nibs key_nibs common_len child_id value = do
  (ext_id, m1) ← old_child m self_nibs common_len child_id
  x ← unwrap (get_elem? self_nibs common_len)
  children1 ← put_child no_children x (some ext_id)
  leaf_path ← to_encoded_path (drop (suc common_len) key_nibs) true
  let (leaf_id, m2) = add_node m1 (leaf leaf_path value) none
  y ← unwrap (get_elem? key_nibs common_len)
  children2 ← put_child children1 y (some leaf_id)
  replace_by_branch m2 node_id self_nibs common_len children2

abbrev pub Insert : Type 0
Insert = Mpt → ℕ → List ℕ → List ℕ → Updates

unfoldable pub insert_extension : Insert → Mpt → ℕ → List ℕ → ℕ → List ℕ → List ℕ → Updates
unfolding split_extension
insert_extension rec m node_id prefix child_id key_nibs value =
    let self_nibs = prefix_to_nibs prefix in
    let common_len = lcp self_nibs key_nibs in
    if common_len == length self_nibs
    then rec m child_id (drop common_len key_nibs) value
    else if common_len == length key_nibs
    then err value_in_branch
    else split_extension m node_id self_nibs key_nibs common_len child_id value

unfoldable pub insert_child :
    Insert → Mpt → ℕ → List (Option ℕ) → ℕ → List ℕ → List ℕ → Option ℕ → Updates
insert_child rec m node_id children i tail value (some id) = rec m id tail value
insert_child rec m node_id children i tail value none = do
  path ← to_encoded_path tail true
  let (new_leaf_id, m') = add_node m (leaf path value) none
  children' ← put_child children i (some new_leaf_id)
  ok (true, set_node m' node_id (branch children'))

-- The match on the node; `rec` is the recursive call.
unfoldable pub insert_node : Insert → Mpt → ℕ → List ℕ → List ℕ → NodeData → Updates
unfolding insert_leaf insert_extension insert_child
insert_node rec m node_id key_nibs value null = do
  path ← to_encoded_path key_nibs true
  ok (true, set_node m node_id (leaf path value))
insert_node rec m node_id [] value (branch children) = err value_in_branch
insert_node rec m node_id (i ∷ tail) value (branch children) = do
  c ← child_at children i
  insert_child rec m node_id children i tail value c
insert_node rec m node_id key_nibs value (leaf prefix old_value) =
    insert_leaf m node_id prefix old_value key_nibs value
insert_node rec m node_id key_nibs value (extension prefix child_id) =
    insert_extension rec m node_id prefix child_id key_nibs value
insert_node rec m node_id key_nibs value (NodeData.digest d) = not_resolved d

unfoldable pub insert_internal : ℕ → Mpt → ℕ → List ℕ → List ℕ → Updates
unfolding insert_node finish
insert_internal zero m node_id key_nibs value = stuck
insert_internal (suc fuel) m node_id key_nibs value = do
  data' ← node m node_id
  r ← insert_node (λ m id tail v. insert_internal fuel m id tail v) m node_id key_nibs value data'
  finish node_id r

unfoldable pub insert_nibbles : Mpt → List ℕ → List ℕ → Updates
insert_nibbles m key_nibs value = insert_internal (length m.nodes) m m.root_id key_nibs value

unfoldable pub insert : Mpt → List ℕ → List ℕ → Updates
insert m key value = insert_nibbles m (to_nibs key) value
