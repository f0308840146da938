-- ===== src/Trie/Wire/Root.antt =====
-- The hash of a decoded trie: what the client compares with the state root.
use ceno_reth_benchmark.Base.{
  ℕ, suc, ◌^◌, ◌≤◌, ◌<◌, ◌≡◌, refl, ◌∙◌, ◌⊎◌, inl, inr, true, false, not, ◌&&◌, List, [], ◌∷◌, ltb,
  ◌==◌, if◌then◌else◌, length, bytes_eq, bytes_eq→eq, bytes_eq_refl, arith, Bool-cases, ==→eq,
}
use ceno_reth_benchmark.Base.Result.{
  ok, Ensures, on_ok, on_err, Ensures-bind, Ensures-any, Ensures-if, Ensures-mono, Ensures-both,
  Ensures-bind_eq, Ensures-ok, Halts-Ensures,
}
use ceno_reth_benchmark.Trie.{Error, NodeData, null, NodeRef, bytes, Mpt, add_node, new}
use ceno_reth_benchmark.Trie.Hash.{Rlp, hash, hash_of}
use ceno_reth_benchmark.Trie.Wire.{Header, DecodeHeader, IsBounded, padding, advance_unchecked}
use ceno_reth_benchmark.Trie.Wire.Decode.{
  Item, Rec, read_item, check_ref, decode_string, decode_list, decode_trie_internal, root_ref,
  decode_trie, empty_trie,
}
use ceno_reth_benchmark.Trie.Wire.Ends.{read_item-Ensures, decode_trie_internal-Halts}
use ceno_reth_benchmark.Trie.Wire.Placed.{Placed, decode_list-Placed, hash-Placed}

module _ (rlp : Rlp) (decode_header : DecodeHeader) where
  -- The hash that the first item stands for.
  abbrev pub first_hash : Header → Item → List ℕ
  first_hash h i =
      if not h.list && h.payload_length == 0
      then rlp.empty_root_hash
      else if ltb (length i.slice) 32
      then rlp.keccak256 i.slice
      else if h.list
      then rlp.keccak256 i.slice
      else i.payload

  -- Either these are the bytes of the empty trie, or the hash is that of the first item.
  abbrev pub Authentic : List ℕ → Mpt × List ℕ → Type 0
  Authentic bs r =
      ((bs ≡ empty_trie) × (hash rlp r.0 ≡ ok (rlp.empty_root_hash, r.0)))
      ⊎ ((h : Header) × (i : Item) × (read_item decode_header rlp.keccak256 bs ≡ ok (h, i))
          × (hash rlp r.0 ≡ ok (first_hash h i, r.0)))

  abbrev first_ref : Header → Item → NodeRef
  first_ref h i =
      if ltb (length i.slice) 32
      then bytes i.slice
      else NodeRef.digest (if h.list then rlp.keccak256 i.slice else i.payload)

  check_ref-first :
      (h : Header) (i : Item)
      → Ensures {E = Error}
          (λ r. r ≡ first_ref h i)
          (check_ref decode_header rlp.keccak256 h i (first_ref h i))
  unfolding check_ref
  check_ref-first h i = elim (Bool-cases (ltb (length i.slice) 32)) [
    | inl short ↦ rw short (rw (bytes_eq_refl i.slice) (on_ok refl))
    | inr long ↦ rw long (
        Ensures-if (h.payload_length == 32 && not h.list)
          (λ _.
            Ensures-if (bytes_eq i.payload (if h.list then rlp.keccak256 i.slice else i.payload))
              (λ _. on_ok refl) (λ _. on_err))
          (λ _.
            Ensures-if
              (bytes_eq (rlp.keccak256 i.slice)
                (if h.list then rlp.keccak256 i.slice else i.payload))
              (λ _. on_ok refl) (λ _. on_err)))
  ]

  -- What the root is.
  Rooted : Header → Item → ℕ × Mpt × List ℕ → Type 0
  Rooted h i r =
      ((first_hash h i ≡ rlp.empty_root_hash) × (r.0 ≡ 0) × (r.1.nodes ≡ null ∷ []))
      ⊎ (((m : Mpt) → hash_of rlp (first_ref h i, m) ≡ ok (first_hash h i, m))
          × Placed (first_ref h i) r)

  module _ (length-keccak256 : (s : List ℕ) → length (rlp.keccak256 s) ≡ 32) where
    list_hash :
        (h : Header) (i : Item) (m : Mpt)
        → h.list ≡ true
        → hash_of rlp (first_ref h i, m) ≡ ok (first_hash h i, m)
    list_hash h i m e = elim (Bool-cases (ltb (length i.slice) 32)) [
      | inl short ↦ rw (e, short)
      | inr long ↦ rw (e, long) (rw (length-keccak256 i.slice))
    ]

    string_hash :
        (h : Header) (i : Item) (m : Mpt)
        → h.list ≡ false
        → (h.payload_length == 0) ≡ false
        → length i.payload ≡ 32
        → hash_of rlp (first_ref h i, m) ≡ ok (first_hash h i, m)
    string_hash h i m e some_payload e32 = elim (Bool-cases (ltb (length i.slice) 32)) [
      | inl short ↦ rw (e, some_payload, short)
      | inr long ↦ rw (e, some_payload, long) (rw e32)
    ]

    long : (h : Header) (i : Item) → 32 ≤ length i.slice → ltb (length i.slice) 32 ≡ false
    long h i l = ground arith

    Rooted-string :
        (h : Header) (i : Item) (bs : List ℕ)
        → h.list ≡ false
        → length i.payload ≡ h.payload_length
        → h.payload_length ≤ length i.slice
        → Ensures {E = Error}
            (Rooted h i)
            (decode_string decode_header rlp.keccak256 new bs h i.payload)
    unfolding decode_string Rooted new add_node
    Rooted-string h i bs e len within = elim (Bool-cases (h.payload_length == 0)) [
      | inl nothing ↦ rw nothing (on_ok (inl (rw (e, nothing), refl, refl)))
      | inr some_payload ↦ rw some_payload (elim (Bool-cases (h.payload_length == 32)) [
        | inl q ↦ rw q (
            on_ok (
              inr (
                λ m. string_hash h i m e some_payload (len ∙ ==→eq h.payload_length 32 q),
                rw (e, long h i (omega (arith, ==→eq h.payload_length 32 q, within)))
                    (record {
                      before = new;
                      data' = NodeData.digest i.payload;
                      is_node = tt;
                      id = refl;
                      nodes = refl;
                      cached = refl;
                    }),
              )))
        | inr q ↦ rw q on_err
      ])
    ]

    Rooted-list :
        (rec : Rec) (h : Header) (i : Item) (bs : List ℕ)
        → h.list ≡ true
        → Ensures {E = Error}
            (Rooted h i)
            (decode_list decode_header rlp.keccak256 rec new bs (first_ref h i) i.payload)
    unfolding Rooted
    Rooted-list rec h i bs e =
        Ensures-mono (decode_list-Placed rlp decode_header rec new bs (first_ref h i) i.payload)
          λ r p. inr (λ m. list_hash h i m e, p)

    decode-Rooted :
        (fuel : ℕ) (bs : List ℕ) (e : NodeRef)
        → IsBounded decode_header
        → root_ref decode_header rlp.keccak256 bs ≡ ok e
        → Ensures {E = Error}
            (λ r.
              (h : Header) × (i : Item) × (read_item decode_header rlp.keccak256 bs ≡ ok (h, i))
              × Rooted h i r)
            (decode_trie_internal decode_header rlp.keccak256 (suc fuel) new bs e)
    unfolding decode_trie_internal root_ref
    decode-Rooted fuel bs e bounded expected =
        Ensures-bind_eq (read_item decode_header rlp.keccak256 bs) λ hi q.
          let sizes = Ensures-ok (read_item-Ensures decode_header rlp.keccak256 bounded bs) q in
          let first : e ≡ first_ref hi.0 hi.1 = first_of hi q in
          Ensures-bind (Ensures-any (advance_unchecked hi.1.rest (padding (length hi.1.slice))))
            λ pb _. rw first (
              Ensures-bind (check_ref-first hi.0 hi.1) λ r same. rw same (
                Ensures-if hi.0.list
                  (λ l.
                    Ensures-mono
                      (Rooted-list (decode_trie_internal decode_header rlp.keccak256 fuel) hi.0 hi.1
                        pb.1 l)
                      (λ a rooted. (hi.0, hi.1, q, rooted)))
                  (λ l.
                    Ensures-mono (Rooted-string hi.0 hi.1 pb.1 l sizes.0 sizes.1)
                      (λ a rooted. (hi.0, hi.1, q, rooted)))))
      where
        first_of :
            (hi : Header × Item)
            → read_item decode_header rlp.keccak256 bs ≡ ok hi
            → e ≡ first_ref hi.0 hi.1
        first_of hi q = cc (rw q at expected)

    Rooted-Authentic :
        (h : Header) (i : Item) (id : ℕ) (m : Mpt) (bs : List ℕ)
        → Rooted h i (id, m, bs)
        → length m.nodes ≤ 2 ^ 32
        → length m.cached_references ≡ length m.nodes
        → let m' : Mpt = record m { root_id = id } in hash rlp m' ≡ ok (first_hash h i, m')
    unfolding Rooted hash
    Rooted-Authentic h i id m bs (inl (e, z, n)) room sized = rw (z, n, e)
    Rooted-Authentic h i id m bs (inr (k, p)) room sized =
        hash-Placed rlp decode_header (first_ref h i) id m bs p room sized k

-- The hash of a trie that `decode_trie` returns, from fewer than 2^32 bytes, is that of the bytes of
-- its first node, or is the digest that these bytes hold, or that of the empty trie if they are the
-- empty string; and the hash of the trie costs no more than a look into its cache.
pub decode_trie-Authentic :
    (rlp : Rlp) (decode_header : DecodeHeader)
    → IsBounded decode_header
    → ((s : List ℕ) → length (rlp.keccak256 s) ≡ 32)
    → (bs : List ℕ) → length bs < 2 ^ 32
    → Ensures (Authentic rlp decode_header bs) (decode_trie decode_header rlp.keccak256 bs)
unfolding decode_trie hash new
decode_trie-Authentic rlp decode_header bounded len bs small =
    elim (Bool-cases (bytes_eq bs empty_trie)) [
      | inl e ↦ rw e (on_ok (inl (bytes_eq→eq bs empty_trie e, refl)))
      | inr e ↦ rw e (
          Ensures-bind_eq (root_ref decode_header rlp.keccak256 bs) λ r q.
            Ensures-bind
              (Ensures-both (decode-Rooted rlp decode_header len (length bs) bs r bounded q) (
                Halts-Ensures (
                  decode_trie_internal-Halts decode_header rlp.keccak256 bounded (suc (length bs))
                    new bs r (omega arith))))
              (λ a p. on_ok (
                inr (
                  p.0.0,
                  p.0.1,
                  p.0.2,
                  Rooted-Authentic rlp decode_header len p.0.0 p.0.1 a.0 a.1 a.2 p.0.3
                      (omega (arith, p.1)) (omega (arith, p.1)),
                ))))
    ]
