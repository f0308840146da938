-- ===== src/Trie/Frontier/Build.antt =====
-- `collect_frontier_boundaries` and `build_frontier_weighted` of crates/mpt/src/trie.rs: the parts of a
-- trie that hold given keys are cut out as chunks, and what stays is the frontier. `out` is the list that
-- a call gives back, since a call only ever cuts off what it appended itself.
use ceno_reth_benchmark.Base.{
  ℕ, zero, suc, ◌+◌, ◌%◌, ◌^◌, not, ◌&&◌, ◌||◌, Bool, true, false, Option, none, some, List, [],
  ◌∷◌, ◌++◌, ltb, ◌==◌, if◌then◌else◌, length, map, get_elem?, bytes_eq,
}
use ceno_reth_benchmark.Base.Result.{Result, ok, err, stuck, ◌>>=◌}
use ceno_reth_benchmark.Hp.{to_nibs, prefix_to_nibs}
use ceno_reth_benchmark.Trie.{
  Error, inline_frontier_chunk, NodeData, null, branch, leaf, extension, NodeRef, bytes, Mpt, node,
}
use ceno_reth_benchmark.Trie.Hash.{Rlp, no_borrows, calc_reference, hash}
use ceno_reth_benchmark.Trie.Wire.Decode.{empty_trie}
use ceno_reth_benchmark.Trie.Wire.Encode.{encode_trie, encoded_subtrie, subtree_num_nodes}
use ceno_reth_benchmark.Trie.Frontier.{
  FrontierChunk, MptFrontier, subtree_hash, replace_frontier_slot,
}

pub record FrontierLimits : Type 0 where
  pub max_nodes : ℕ
  pub max_bytes : ℕ
  pub max_keys : ℕ

-- The nibbles of a key and its weight.
abbrev pub Weighted : Type 0
Weighted = List ℕ × ℕ

-- A prefix, with the node there or an empty slot.
abbrev pub Boundary : Type 0
Boundary = List ℕ × Option ℕ

abbrev pub Collected : Type 0
Collected = Result Error (List Boundary × Mpt)

abbrev pub CollectRec : Type 0
CollectRec = Mpt → ℕ → List ℕ → List Weighted → Collected

-- A `usize` sum wraps around.
unfoldable pub total_weight : List Weighted → ℕ
total_weight [] = 0
total_weight ((key, weight) ∷ keys) = (weight + total_weight keys) % 2 ^ 64

abbrev pub has_nibble : ℕ → Option ℕ → Bool
has_nibble nibble none = false
has_nibble nibble (some n) = n == nibble

unfoldable pub child_keys : ℕ → ℕ → List Weighted → List Weighted
child_keys nibble depth [] = []
child_keys nibble depth (key ∷ keys) =
    let rest = child_keys nibble depth keys in
    if has_nibble nibble (get_elem? key.0 depth) then key ∷ rest else rest

abbrev pub over_limit : FrontierLimits → ℕ → ℕ → List Weighted → Bool
over_limit limits node_count encoded_len keys =
    ltb limits.max_nodes node_count
    || ltb limits.max_bytes encoded_len
    || ltb limits.max_keys (total_weight keys)

abbrev pub is_digest : NodeRef → Bool
is_digest (bytes slice) = false
is_digest (NodeRef.digest d) = true

-- Slices are compared item by item.
unfoldable pub nibbles_leb : List ℕ → List ℕ → Bool
nibbles_leb [] ys = true
nibbles_leb (x ∷ xs) [] = false
nibbles_leb (x ∷ xs) (y ∷ ys) =
    let rest = nibbles_leb xs ys in if ltb x y then true else if ltb y x then false else rest

-- An insertion in front of equal keys, so that `sort_by` is stable.
unfoldable pub insert_by : {A : Type 0} → List ℕ × A → List (List ℕ × A) → List (List ℕ × A)
insert_by e [] = e ∷ []
insert_by e (f ∷ es) =
    let rest = insert_by e es in if nibbles_leb e.0 f.0 then e ∷ f ∷ es else f ∷ rest

unfoldable pub sort_by : {A : Type 0} → List (List ℕ × A) → List (List ℕ × A)
unfolding nibbles_leb insert_by
sort_by [] = []
sort_by (e ∷ es) = insert_by e (sort_by es)

-- `dedup_by`: the weight of an equal neighbour goes to the first.
unfoldable pub merge_into : Weighted → List Weighted → List Weighted
merge_into b [] = b ∷ []
merge_into b (a ∷ keys) =
    let same = merge_into (b.0, (b.1 + a.1) % 2 ^ 64) keys in
    let other = merge_into a keys in if bytes_eq a.0 b.0 then same else b ∷ other

unfoldable pub dedup_by : List Weighted → List Weighted
unfolding merge_into
dedup_by [] = []
dedup_by (b ∷ keys) = merge_into b keys

unfoldable pub expand_keys : List (List ℕ × ℕ) → List Weighted
expand_keys [] = []
expand_keys ((key, weight) ∷ keys) = (to_nibs key, weight) ∷ expand_keys keys

module _ (rlp : Rlp) where
  unfoldable pub any_inline : Mpt → List Boundary → Result Error (Bool × Mpt)
  any_inline m [] = ok (false, m)
  any_inline m ((prefix, none) ∷ out) = any_inline m out
  any_inline m ((prefix, some id) ∷ out) = do
    (r, m1) ← calc_reference rlp (length m.nodes) no_borrows m id
    let rest = any_inline m1 out
    if is_digest r then rest else ok (true, m1)

  abbrev pub collect_child : CollectRec → Mpt → List ℕ → List Weighted → Option ℕ → Collected
  collect_child rec m prefix [] c = ok ([], m)
  collect_child rec m prefix (k ∷ keys) none = ok ((prefix, none) ∷ [], m)
  collect_child rec m prefix (k ∷ keys) (some child) = rec m child prefix (k ∷ keys)

  unfoldable pub collect_children :
      CollectRec → Mpt → List ℕ → List Weighted → ℕ → List (Option ℕ) → Collected
  unfolding child_keys
  collect_children rec m prefix keys nibble [] = ok ([], m)
  collect_children rec m prefix keys nibble (c ∷ cs) = do
    (out, m1) ←
        collect_child rec m (prefix ++ (nibble ∷ [])) (child_keys nibble (length prefix) keys) c
    (rest, m2) ← collect_children rec m1 prefix keys (suc nibble) cs
    ok (out ++ rest, m2)

  -- What was collected below a node, unless a chunk's root were inline or there is none: then the node.
  unfoldable pub keep_below : List ℕ → ℕ → List Boundary × Mpt → Collected
  unfolding any_inline
  keep_below prefix node_id (out, m) = do
    (inline, m1) ← any_inline m out
    ok (if inline || length out == 0 then (prefix, some node_id) ∷ [] else out, m1)

  abbrev pub collect_below : CollectRec → Mpt → ℕ → List ℕ → List Weighted → NodeData → Collected
  collect_below rec m node_id prefix keys (branch children) =
      collect_children rec m prefix keys 0 children >>= keep_below prefix node_id
  collect_below rec m node_id prefix keys (extension path child) =
      rec m child (prefix ++ prefix_to_nibs path) keys >>= keep_below prefix node_id
  collect_below rec m node_id prefix keys null = ok ((prefix, some node_id) ∷ [], m)
  collect_below rec m node_id prefix keys (leaf path value) = ok ((prefix, some node_id) ∷ [], m)
  collect_below rec m node_id prefix keys (NodeData.digest d) = ok ((prefix, some node_id) ∷ [], m)

  unfoldable pub collect_frontier_boundaries : FrontierLimits → ℕ → CollectRec
  unfolding collect_children keep_below
  collect_frontier_boundaries limits zero m node_id prefix keys = stuck
  collect_frontier_boundaries limits (suc fuel) m node_id prefix keys = do
    (encoded, m1) ← encoded_subtrie rlp m node_id
    node_count ← subtree_num_nodes (length m1.nodes) m1 node_id
    d ← node m1 node_id
    if over_limit limits node_count (length encoded) keys
        then collect_below (λ m id p ks. collect_frontier_boundaries limits fuel m id p ks) m1
            node_id prefix keys d
        else ok ((prefix, some node_id) ∷ [], m1)

  -- The root, the nodes and the bytes of a chunk.
  unfoldable pub chunk_of : Mpt → Option ℕ → Result Error ((List ℕ × ℕ × List ℕ) × Mpt)
  chunk_of m none = ok ((rlp.empty_root_hash, 1, empty_trie), m)
  chunk_of m (some node_id) = do
    (r, m1) ← calc_reference rlp (length m.nodes) no_borrows m node_id
    if not (is_digest r) && not (node_id == m.root_id) then err inline_frontier_chunk else do
      (expected_root, m2) ← subtree_hash rlp m1 node_id
      n ← subtree_num_nodes (length m2.nodes) m2 node_id
      (encoded, m3) ← encoded_subtrie rlp m2 node_id
      ok ((expected_root, n, encoded), m3)

  -- The trie, the frontier and the chunks.
  unfoldable pub cut_chunks :
      Mpt → Mpt → List Boundary → Result Error (Mpt × Mpt × List FrontierChunk)
  unfolding chunk_of
  cut_chunks m frontier [] = ok (m, frontier, [])
  cut_chunks m frontier ((prefix, n) ∷ boundaries) = do
    ((expected_root, num_nodes, encoded), m1) ← chunk_of m n
    frontier1 ← replace_frontier_slot rlp frontier prefix expected_root expected_root
    (m2, frontier2, chunks) ← cut_chunks m1 frontier1 boundaries
    ok (
      m2,
      frontier2,
      record {
        prefix = prefix;
        expected_root = expected_root;
        num_nodes = num_nodes;
        encoded = encoded;
      }
          ∷ chunks,
    )

  abbrev pub build_for : Mpt → FrontierLimits → List Weighted → Result Error (MptFrontier × Mpt)
  build_for m limits [] = do
    (encoded, m1) ← encode_trie rlp m
    ok (record { num_nodes = length m.nodes; encoded = encoded; chunks = [] }, m1)
  build_for m limits (k ∷ keys) = do
    (boundaries, m1) ← collect_frontier_boundaries limits (length m.nodes) m m.root_id [] (k ∷ keys)
    (m2, frontier, chunks) ← cut_chunks m1 m1 (sort_by boundaries)
    (original_root, m3) ← hash rlp m2
    n ← subtree_num_nodes (length frontier.nodes) frontier frontier.root_id
    (encoded, frontier') ← encode_trie rlp frontier
    ok (record { num_nodes = n; encoded = encoded; chunks = chunks }, m3)

  unfoldable pub build_frontier_weighted :
      Mpt → List (List ℕ × ℕ) → FrontierLimits → Result Error (MptFrontier × Mpt)
  unfolding expand_keys dedup_by sort_by collect_frontier_boundaries cut_chunks
  build_frontier_weighted m keys limits = build_for m limits (dedup_by (sort_by (expand_keys keys)))

  unfoldable pub build_frontier :
      Mpt → List (List ℕ) → FrontierLimits → Result Error (MptFrontier × Mpt)
  unfolding build_frontier_weighted
  build_frontier m keys limits = build_frontier_weighted m (map (λ key. (key, 1)) keys) limits
