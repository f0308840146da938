-- ===== src/Trie/Wire/Placed.antt =====
-- The node that is decoded last stands at the end of the arena, with its reference in the cache.
use ceno_reth_benchmark.Base.{
  ℕ, suc, ◌%◌, ◌^◌, ◌≤◌, ◌≡◌, refl, sym, ap, ◌∙◌, some, List, [], ◌∷◌, ◌++◌, ◌==◌, length,
  length-append, get_elem?, get_elem?-append_end, bytes_eq, bit_and, arith,
}
use ceno_reth_benchmark.Base.Result.{
  ok, Ensures, on_ok, on_err, on_panic, Ensures-bind, Ensures-any, Ensures-if,
}
use ceno_reth_benchmark.Hp.{hp_flag_leaf}
use ceno_reth_benchmark.Trie.{
  Error, NodeData, null, branch, leaf, extension, NodeRef, Mpt, add_node,
}
use ceno_reth_benchmark.Trie.Hash.{Rlp, hash, hash_of, get_or_insert}
use ceno_reth_benchmark.Trie.Wire.{DecodeHeader}
use ceno_reth_benchmark.Trie.Wire.Decode.{
  Item, Rec, read_item, decode_pair, decode_child, decode_children, decode_branch, pair_or_branch,
  decode_list, from_rlp_slice, null_node_ref_slice, added,
}

abbrev pub IsNode : NodeData → Type 0
IsNode null = ⊥
IsNode _ = Unit {0}

-- The node was added last, with this reference in the cache.
pub record Placed (ref : NodeRef) (r : ℕ × Mpt × List ℕ) : Type 0 where
  pub before : Mpt
  pub data' : NodeData
  pub is_node : IsNode data'
  pub id : r.0 ≡ length before.nodes % 2 ^ 32
  pub nodes : r.1.nodes ≡ before.nodes ++ (data' ∷ [])
  pub cached : r.1.cached_references ≡ before.cached_references ++ (some ref ∷ [])

pub added-Placed :
    (ref : NodeRef) (m : Mpt) (d : NodeData) (bs : List ℕ)
    → IsNode d
    → Ensures {E = Error} (Placed ref) (added (add_node m d (some ref)) bs)
unfolding add_node
added-Placed ref m d bs n =
    on_ok (record { before = m; data' = d; is_node = n; id = refl; nodes = refl; cached = refl })

module _ (rlp : Rlp) (decode_header : DecodeHeader) where
  decode_pair-Placed :
      (rec : Rec) (m : Mpt) (bs : List ℕ) (r : NodeRef) (path : List ℕ) (i : Item)
      → Ensures {E = Error} (Placed r) (decode_pair decode_header rlp.keccak256 rec m bs r path i)
  unfolding decode_pair
  decode_pair-Placed rec m bs r [] i = on_panic
  decode_pair-Placed rec m bs r (prefix ∷ path) i =
      Ensures-if (bit_and prefix hp_flag_leaf == 0)
        (λ _.
          Ensures-bind (Ensures-any (rec m bs (from_rlp_slice i.slice)))
            (λ c _. added-Placed r c.1 (extension (prefix ∷ path) c.0) c.2 tt))
        (λ _. added-Placed r m (leaf (prefix ∷ path) i.payload) bs tt)

  decode_branch-Placed :
      (rec : Rec) (m : Mpt) (bs : List ℕ) (r : NodeRef) (i0 i1 : Item)
      → Ensures {E = Error} (Placed r) (decode_branch decode_header rlp.keccak256 rec m bs r i0 i1)
  unfolding decode_branch
  decode_branch-Placed rec m bs r i0 i1 =
      Ensures-bind
        (Ensures-any (decode_child decode_header rlp.keccak256 rec m bs (from_rlp_slice i0.slice)))
        λ c0 _.
          Ensures-bind
            (Ensures-any
              (decode_child decode_header rlp.keccak256 rec c0.1 c0.2 (from_rlp_slice i1.slice)))
            λ c1 _.
              Ensures-bind
                (Ensures-any (decode_children decode_header rlp.keccak256 rec 14 c1.1 c1.2 i1.rest))
                λ cs _.
                  Ensures-if (bytes_eq cs.3 null_node_ref_slice)
                    (λ _. added-Placed r cs.1 (branch (c0.0 ∷ c1.0 ∷ cs.0)) cs.2 tt) (λ _. on_err)

  pub decode_list-Placed :
      (rec : Rec) (m : Mpt) (bs : List ℕ) (r : NodeRef) (payload : List ℕ)
      → Ensures {E = Error} (Placed r) (decode_list decode_header rlp.keccak256 rec m bs r payload)
  unfolding decode_list
  decode_list-Placed rec m bs r payload =
      Ensures-bind (Ensures-any (read_item decode_header rlp.keccak256 payload)) λ hi0 _.
        Ensures-bind (Ensures-any (read_item decode_header rlp.keccak256 hi0.1.rest))
          λ hi1 _. go hi0.1 hi1.1 hi1.1.rest
    where
      go :
          (i0 i1 : Item) (rest : List ℕ)
          → Ensures {E = Error}
              (Placed r)
              (pair_or_branch decode_header rlp.keccak256 rec m bs r i0 i1 rest)
      go i0 i1 [] = decode_pair-Placed rec m bs r i0.payload i1
      go i0 i1 (_ ∷ _) = decode_branch-Placed rec m bs r i0 i1

  -- A root with a cached reference has its hash.
  pub hash-found :
      (m : Mpt) (d : NodeData) (ref : NodeRef) {h : List ℕ}
      → IsNode d
      → get_elem? m.nodes m.root_id ≡ some d
      → get_elem? m.cached_references m.root_id ≡ some (some ref)
      → hash_of rlp (ref, m) ≡ ok (h, m)
      → hash rlp m ≡ ok (h, m)
  unfolding hash get_or_insert
  hash-found m null ref n e c k = elim n [ ]
  hash-found m (branch cs) ref n e c k = rw (e, c) k
  hash-found m (leaf p v) ref n e c k = rw (e, c) k
  hash-found m (extension p id) ref n e c k = rw (e, c) k
  hash-found m (NodeData.digest d) ref n e c k = rw (e, c) k

  small_mod : (n : ℕ) → suc n ≤ 2 ^ 32 → n % 2 ^ 32 ≡ n
  small_mod n h = omega arith

  -- A node that was placed, in an arena with room, is found with its reference.
  pub hash-Placed :
      (ref : NodeRef) (id : ℕ) (m : Mpt) (bs : List ℕ) {h : List ℕ}
      → Placed ref (id, m, bs)
      → length m.nodes ≤ 2 ^ 32
      → length m.cached_references ≡ length m.nodes
      → ((m' : Mpt) → hash_of rlp (ref, m') ≡ ok (h, m'))
      → let m' : Mpt = record m { root_id = id } in hash rlp m' ≡ ok (h, m')
  hash-Placed ref id m bs p room sized hashes =
      hash-found (record m { root_id = id }) p.data' ref p.is_node
        (rw (p.nodes, at_end) (get_elem?-append_end p.before.nodes p.data'))
        (rw (p.cached, at_end, sym same_size)
          (get_elem?-append_end p.before.cached_references (some ref)))
        (hashes (record m { root_id = id }))
    where
      at_end : id ≡ length p.before.nodes
      at_end =
          p.id
          ∙ small_mod (length p.before.nodes)
              (omega (arith, ap length p.nodes, length-append {0} p.before.nodes (p.data' ∷ [])))

      same_size : length p.before.cached_references ≡ length p.before.nodes
      same_size = omega (
        arith,
        ap length p.nodes,
        ap length p.cached,
        length-append {0} p.before.nodes (p.data' ∷ []),
        length-append {0} p.before.cached_references (some ref ∷ []),
      )
