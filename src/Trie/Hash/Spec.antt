-- ===== src/Trie/Hash/Spec.antt =====
-- The reference and the root hash of a tree, with no cache.
use ceno_reth_benchmark.Base.{
  ℕ, ◌≡◌, refl, Bool, true, false, List, [], ◌∷◌, ◌++◌, length, ltb, if◌then◌else◌, arith,
}
use ceno_reth_benchmark.Trie.{NodeRef, bytes}
use ceno_reth_benchmark.Trie.Tree.{
  Tree, null, branch, leaf, extension, Kids, end, absent, child, Wf,
}
use ceno_reth_benchmark.Trie.Hash.{Rlp, encoded_ref, encoded_ref_length, empty_string_code}

-- What the RLP library and the hash are relied on for: lengths.
pub record Laws (rlp : Rlp) : Type 0 where
  pub length-list_header : (n : ℕ) → length (rlp.list_header n) ≡ rlp.length_of_length n
  pub length-string : (s : List ℕ) → length (rlp.string s) ≡ rlp.string_length s
  pub length-keccak256 : (s : List ℕ) → length (rlp.keccak256 s) ≡ 32

module _ (rlp : Rlp) where
  abbrev pub rlp_list : List ℕ → List ℕ
  rlp_list payload = rlp.list_header (length payload) ++ payload

  abbrev pub ref_of_rlp : List ℕ → NodeRef
  ref_of_rlp encoded =
      if ltb (length encoded) 32 then bytes encoded else NodeRef.digest (rlp.keccak256 encoded)

  unfoldable mutual
    pub tree_ref : Tree → NodeRef
    tree_ref (null i) = bytes (empty_string_code ∷ [])
    tree_ref (branch i ks) = ref_of_rlp (rlp_list (kids_payload ks ++ (empty_string_code ∷ [])))
    tree_ref (leaf i p v) = ref_of_rlp (rlp_list (rlp.string p ++ rlp.string v))
    tree_ref (extension i p t) = ref_of_rlp (rlp_list (rlp.string p ++ encoded_ref (tree_ref t)))
    tree_ref (Tree.digest i d) = NodeRef.digest d

    pub kids_payload : Kids → List ℕ
    kids_payload end = []
    kids_payload (absent ks) = empty_string_code ∷ kids_payload ks
    kids_payload (child t ks) = encoded_ref (tree_ref t) ++ kids_payload ks

  -- A root that is short is hashed all the same.
  abbrev pub hash_of_ref : NodeRef → List ℕ
  hash_of_ref (bytes bs) = rlp.keccak256 bs
  hash_of_ref (NodeRef.digest d) = d

  abbrev pub root_hash : Tree → List ℕ
  root_hash (null i) = rlp.empty_root_hash
  root_hash t = hash_of_ref (tree_ref t)

  module _ (laws : Laws rlp) where
    ref_length :
        (e : List ℕ) → length (encoded_ref (ref_of_rlp e)) ≡ encoded_ref_length (ref_of_rlp e)
    ref_length e = go (ltb (length e) 32)
      where
        go :
            (b : Bool)
            → length (encoded_ref (if b then bytes e else NodeRef.digest (rlp.keccak256 e)))
              ≡ encoded_ref_length (if b then bytes e else NodeRef.digest (rlp.keccak256 e))
        go true = refl
        go false = omega (arith, laws.length-keccak256 e)

    -- The length that is reserved for a reference is the length of what is written.
    pub length-encoded_ref :
        (t : Tree) → Wf t → length (encoded_ref (tree_ref t)) ≡ encoded_ref_length (tree_ref t)
    unfolding tree_ref
    length-encoded_ref (null i) w = refl
    length-encoded_ref (branch i ks) w =
        ref_length (rlp_list (kids_payload ks ++ (empty_string_code ∷ [])))
    length-encoded_ref (leaf i p v) w = ref_length (rlp_list (rlp.string p ++ rlp.string v))
    length-encoded_ref (extension i p t) w =
        ref_length (rlp_list (rlp.string p ++ encoded_ref (tree_ref t)))
    length-encoded_ref (Tree.digest i d) w = omega (arith, w)
