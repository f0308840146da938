-- ===== src/Trie/Wire/Ends.antt =====
-- Decoding ends: a node takes a byte at least, and no more nodes are added than bytes are read.
use ceno_reth_benchmark.Base.{
  ℕ, zero, suc, ◌+◌, ◌-◌, ◌≤◌, ◌<◌, ◌≡◌, refl, ap, ◌∙◌, ◌⊎◌, inl, inr, Bool, not, ◌&&◌, Option,
  some, List, [], ◌∷◌, ltb, ◌==◌, if◌then◌else◌, length, take, drop, length-drop, length-take,
  length-append, bytes_eq, bit_and, arith,
}
use ceno_reth_benchmark.Base.Result.{
  ok, err, ◌>>=◌, Halts, halts_ok, halts_err, halts_panic, Halts-bind, Halts-mono, Halts-if,
  Ensures, on_ok, on_err, Ensures-bind, Halts-Ensures,
}
use ceno_reth_benchmark.Hp.{hp_flag_leaf}
use ceno_reth_benchmark.Trie.{
  Error, node_ref_mismatch, RlpError, NodeData, branch, leaf, extension, NodeRef, bytes, Mpt,
  add_node, new,
}
use ceno_reth_benchmark.Trie.Wire.{
  Header, DecodeHeader, IsBounded, lift, padding, advance_unchecked,
}
use ceno_reth_benchmark.Trie.Wire.Decode.{
  Item, Rec, read_item, check_ref, decode_string, decode_pair, decode_child, decode_children,
  decode_branch, pair_or_branch, decode_list, decode_trie_internal, root_ref, decode_trie,
  from_rlp_slice, empty_trie, null_node_ref_slice, as_slice, added,
}

-- The bytes that are left and the nodes are no more than before.
abbrev pub Sizes : Mpt → List ℕ → Mpt → List ℕ → Type 0
Sizes m bs m' bs' =
    (length bs' + length m'.nodes ≤ length bs + length m.nodes)
    × (length bs' ≤ length bs)
    × (length m'.cached_references + length m.nodes ≡ length m'.nodes + length m.cached_references)

abbrev pub Sized : Mpt → List ℕ → ℕ × Mpt × List ℕ → Type 0
Sized m bs r = Sizes m bs r.1 r.2

-- As after a node, whose bytes are read already.
abbrev pub Spent : Mpt → List ℕ → ℕ × Mpt × List ℕ → Type 0
Spent m bs r =
    (length r.2 + length r.1.nodes ≤ suc (length bs) + length m.nodes)
    × (length r.2 ≤ length bs)
    × (length r.1.cached_references + length m.nodes
        ≡ length r.1.nodes + length m.cached_references)

abbrev pub RecSized : ℕ → Rec → Type 0
RecSized n rec =
    (m : Mpt) (bs : List ℕ) (e : NodeRef) → length bs < n → Halts (Sized m bs) (rec m bs e)

pub advance-Halts :
    (buf : List ℕ) (cnt : ℕ)
    → Halts {E = Error} {A = List ℕ × List ℕ}
        (λ r. (r.1 ≡ drop cnt buf) × (r.0 ≡ take cnt buf) × (cnt ≤ length buf))
        (advance_unchecked buf cnt)
unfolding advance_unchecked
advance-Halts buf cnt =
    Halts-if (ltb (length buf) cnt) (λ _. halts_panic) (λ e. halts_ok (refl, refl, ground arith))

pub added-Spent :
    (m m' : Mpt) (d : NodeData) (r : Option NodeRef) (bs bs' : List ℕ)
    → Sizes m bs m' bs'
    → Halts {E = Error} (Spent m bs) (added (add_node m' d r) bs')
unfolding add_node
added-Spent m m' d r bs bs' h = halts_ok (
  omega (arith, length-append {0} m'.nodes (d ∷ [])),
  omega arith,
  omega
      (arith, length-append {0} m'.nodes (d ∷ []), length-append {0} m'.cached_references (r ∷ [])),
)

module _ (decode_header : DecodeHeader) (keccak256 : List ℕ → List ℕ)
    (bounded : IsBounded decode_header) where
  pub read_item-Halts :
      (bs : List ℕ)
      → Halts {E = Error} {A = Header × Item}
          (λ r. length r.1.rest < length bs)
          (read_item decode_header keccak256 bs)
  unfolding read_item
  read_item-Halts bs = go (decode_header bs) refl
    where
      go :
          (d : RlpError ⊎ (Header × List ℕ))
          → decode_header bs ≡ d
          → Halts {E = Error} {A = Header × Item}
              (λ r. length r.1.rest < length bs)
              (lift d >>= λ hb. advance_unchecked hb.1 hb.0.payload_length >>= λ pr. ok (
                hb.0,
                record { slice = take (length bs - length pr.1) bs; payload = pr.0; rest = pr.1 },
              ))
      go (inl e) q = halts_err
      go (inr (h, buf)) q = Halts-bind (advance-Halts buf h.payload_length) λ r p.
          halts_ok
            (omega (arith, bounded bs h buf q, ap length p.0, length-drop {0} h.payload_length buf))

  -- The payload has the length that the header says, and is part of the item.
  pub read_item-Ensures :
      (bs : List ℕ)
      → Ensures {E = Error} {A = Header × Item}
          (λ r. (length r.1.payload ≡ r.0.payload_length) × (r.0.payload_length ≤ length r.1.slice))
          (read_item decode_header keccak256 bs)
  unfolding read_item
  read_item-Ensures bs = go (decode_header bs) refl
    where
      go :
          (d : RlpError ⊎ (Header × List ℕ))
          → decode_header bs ≡ d
          → Ensures {E = Error} {A = Header × Item}
              (λ r.
                (length r.1.payload ≡ r.0.payload_length) × (r.0.payload_length ≤ length r.1.slice))
              (lift d >>= λ hb. advance_unchecked hb.1 hb.0.payload_length >>= λ pr. ok (
                hb.0,
                record { slice = take (length bs - length pr.1) bs; payload = pr.0; rest = pr.1 },
              ))
      go (inl e) q = on_err
      go (inr (h, buf)) q = Ensures-bind (Halts-Ensures (advance-Halts buf h.payload_length)) λ r p.
          let shorter : length r.1 ≡ length buf - h.payload_length =
            ap length p.0 ∙ length-drop {0} h.payload_length buf in
          on_ok (
            ap length p.1 ∙ length-take {0} h.payload_length buf p.2,
            omega (
              arith,
              bounded bs h buf q,
              shorter,
              p.2,
              length-take {0} (length bs - length r.1) bs (omega arith),
            ),
          )

  decode_child-Halts :
      (n : ℕ) (rec : Rec) (m : Mpt) (bs : List ℕ) (e : NodeRef)
      → RecSized n rec
      → length bs < n
      → Halts {E = Error} {A = Option ℕ × Mpt × List ℕ}
          (λ r. Sizes m bs r.1 r.2)
          (decode_child decode_header keccak256 rec m bs e)
  unfolding decode_child
  decode_child-Halts n rec m bs e h lt =
      Halts-if (bytes_eq (as_slice e) null_node_ref_slice)
        (λ _. halts_ok (omega arith, omega arith, omega arith))
        (λ _. Halts-bind (h m bs e lt) (λ r p. halts_ok p))

  decode_children-Halts :
      (n : ℕ) (rec : Rec) (k : ℕ) (m : Mpt) (bs payload : List ℕ)
      → RecSized n rec
      → length bs < n
      → Halts {E = Error} {A = List (Option ℕ) × Mpt × List ℕ × List ℕ}
          (λ r. Sizes m bs r.1 r.2)
          (decode_children decode_header keccak256 rec k m bs payload)
  unfolding decode_children
  decode_children-Halts n rec zero m bs payload h lt =
      halts_ok (omega arith, omega arith, omega arith)
  decode_children-Halts n rec (suc k) m bs payload h lt =
      Halts-bind (read_item-Halts payload) λ hi _.
        Halts-bind (decode_child-Halts n rec m bs (from_rlp_slice hi.1.slice) h lt) λ c p.
          Halts-bind (decode_children-Halts n rec k c.1 c.2 hi.1.rest h (omega arith))
            (λ r q. halts_ok (omega arith, omega arith, omega arith))

  decode_branch-Halts :
      (n : ℕ) (rec : Rec) (m : Mpt) (bs : List ℕ) (r : NodeRef) (i0 i1 : Item)
      → RecSized n rec
      → length bs < n
      → Halts {E = Error} (Spent m bs) (decode_branch decode_header keccak256 rec m bs r i0 i1)
  unfolding decode_branch
  decode_branch-Halts n rec m bs r i0 i1 h lt =
      Halts-bind (decode_child-Halts n rec m bs (from_rlp_slice i0.slice) h lt) λ c0 p0.
        Halts-bind (decode_child-Halts n rec c0.1 c0.2 (from_rlp_slice i1.slice) h (omega arith))
          λ c1 p1.
            Halts-bind (decode_children-Halts n rec 14 c1.1 c1.2 i1.rest h (omega arith)) λ cs p2.
              Halts-if (bytes_eq cs.3 null_node_ref_slice)
                (λ _.
                  added-Spent m cs.1 (branch (c0.0 ∷ c1.0 ∷ cs.0)) (some r) bs cs.2
                    (omega arith, omega arith, omega arith))
                (λ _. halts_err)

  decode_pair-Halts :
      (n : ℕ) (rec : Rec) (m : Mpt) (bs : List ℕ) (r : NodeRef) (path : List ℕ) (i : Item)
      → RecSized n rec
      → length bs < n
      → Halts {E = Error} (Spent m bs) (decode_pair decode_header keccak256 rec m bs r path i)
  unfolding decode_pair
  decode_pair-Halts n rec m bs r [] i h lt = halts_panic
  decode_pair-Halts n rec m bs r (prefix ∷ path) i h lt =
      Halts-if (bit_and prefix hp_flag_leaf == 0)
        (λ _.
          Halts-bind (h m bs (from_rlp_slice i.slice) lt)
            (λ c p. added-Spent m c.1 (extension (prefix ∷ path) c.0) (some r) bs c.2 p))
        (λ _.
          added-Spent m m (leaf (prefix ∷ path) i.payload) (some r) bs bs
            (omega arith, omega arith, omega arith))

  decode_list-Halts :
      (n : ℕ) (rec : Rec) (m : Mpt) (bs : List ℕ) (r : NodeRef) (payload : List ℕ)
      → RecSized n rec
      → length bs < n
      → Halts {E = Error} (Spent m bs) (decode_list decode_header keccak256 rec m bs r payload)
  unfolding decode_list
  decode_list-Halts n rec m bs r payload h lt =
      Halts-bind (read_item-Halts payload)
        λ hi0 _. Halts-bind (read_item-Halts hi0.1.rest) λ hi1 _. go hi0.1 hi1.1 hi1.1.rest
    where
      go :
          (i0 i1 : Item) (rest : List ℕ)
          → Halts {E = Error}
              (Spent m bs)
              (pair_or_branch decode_header keccak256 rec m bs r i0 i1 rest)
      go i0 i1 [] = decode_pair-Halts n rec m bs r i0.payload i1 h lt
      go i0 i1 (_ ∷ _) = decode_branch-Halts n rec m bs r i0 i1 h lt

  pub decode_string-Halts :
      (m : Mpt) (bs : List ℕ) (h : Header) (payload : List ℕ)
      → Halts {E = Error} (Spent m bs) (decode_string decode_header keccak256 m bs h payload)
  unfolding decode_string
  decode_string-Halts m bs h payload =
      Halts-if (h.payload_length == 0) (λ _. halts_ok (omega arith, omega arith, omega arith))
        λ _.
          Halts-if (h.payload_length == 32)
            (λ _.
              added-Spent m m (NodeData.digest payload) (some (NodeRef.digest payload)) bs bs
                (omega arith, omega arith, omega arith))
            (λ _. halts_err)

  pub check_ref-Halts :
      (h : Header) (i : Item) (expected : NodeRef)
      → Halts {E = Error} (λ r. Unit {0}) (check_ref decode_header keccak256 h i expected)
  unfolding check_ref
  check_ref-Halts h i expected =
      Halts-if (ltb (length i.slice) 32)
        (λ _. tested (bytes_eq i.slice (as_slice expected)) (bytes i.slice))
        (λ _.
          Halts-if (h.payload_length == 32 && not h.list)
            (λ _. tested (bytes_eq i.payload (as_slice expected)) expected)
            (λ _. tested (bytes_eq (keccak256 i.slice) (as_slice expected)) expected))
    where
      tested :
          (b : Bool) (r : NodeRef)
          → Halts (λ r. Unit {0}) (if b then ok r else err node_ref_mismatch)
      tested b r = Halts-if b (λ _. halts_ok tt) (λ _. halts_err)

  -- The bytes that a node leaves, after its own.
  pub decode_trie_internal-Halts :
      (fuel : ℕ) → RecSized fuel (decode_trie_internal decode_header keccak256 fuel)
  unfolding decode_trie_internal
  decode_trie_internal-Halts zero m bs e lt = elim lt [ ]
  decode_trie_internal-Halts (suc fuel) m bs e lt = Halts-bind (read_item-Halts bs) λ hi p.
      Halts-bind (advance-Halts hi.1.rest (padding (length hi.1.slice))) λ pb q.
        Halts-bind (check_ref-Halts hi.0 hi.1 e) λ r _.
          let shorter : suc (length pb.1) ≤ length bs =
            omega (arith, ap length q.0, length-drop {0} (padding (length hi.1.slice)) hi.1.rest) in
          Halts-if hi.0.list
            (λ _.
              Halts-mono
                (decode_list-Halts fuel (decode_trie_internal decode_header keccak256 fuel) m pb.1 r
                  hi.1.payload (decode_trie_internal-Halts fuel) (omega arith))
                (λ a s. (omega arith, omega arith, omega arith)))
            (λ _.
              Halts-mono (decode_string-Halts m pb.1 hi.0 hi.1.payload)
                (λ a s. (omega arith, omega arith, omega arith)))

  root_ref-Halts :
      (bs : List ℕ) → Halts {E = Error} (λ r. Unit {0}) (root_ref decode_header keccak256 bs)
  unfolding root_ref
  root_ref-Halts bs = Halts-bind (read_item-Halts bs) (λ hi _. halts_ok tt)

-- On every byte string `decode_trie` ends, if the header decoder keeps its payload within the slice
-- and reads no empty item: the fuel suffices. A trie that it returns has no more nodes than there
-- were bytes, beside the null node, and a cell of the cache for each.
pub decode_trie-Halts :
    (decode_header : DecodeHeader) (keccak256 : List ℕ → List ℕ)
    → IsBounded decode_header
    → (bs : List ℕ)
    → Halts {E = Error} {A = Mpt × List ℕ}
        (λ r.
          (length r.0.nodes ≤ suc (length bs)) × (length r.0.cached_references ≡ length r.0.nodes))
        (decode_trie decode_header keccak256 bs)
unfolding decode_trie new
decode_trie-Halts decode_header keccak256 bounded bs =
    Halts-if (bytes_eq bs empty_trie) (λ _. halts_ok (omega arith, omega arith))
      λ _. Halts-bind (root_ref-Halts decode_header keccak256 bounded bs) λ e _.
        Halts-bind
          (decode_trie_internal-Halts decode_header keccak256 bounded (suc (length bs)) new bs e
            (omega arith))
          (λ r p. halts_ok (omega arith, omega arith))
