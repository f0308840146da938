-- ===== src/Trie/Arena.antt =====
-- Laws of the writes to the arena, and the frame rule: a tree is still represented after changes
-- that spare its indices.
use ceno_reth_benchmark.Base.{
  ℕ, suc, ◌+◌, ◌≤◌, ◌<◌, ◌%◌, ◌^◌, ◌≡◌, refl, ◌∙◌, ◌≢◌, inl, inr, true, none, some, [], ◌∷◌, ◌++◌,
  lt→ltb, arith, length, set, length-append, get_elem?-set_self, get_elem?-set_ne, get_elem?-lt,
  get_elem?-append_left, get_elem?-append_end,
}
use ceno_reth_benchmark.Base.Result.{ok}
use ceno_reth_benchmark.Trie.{NodeData, NodeRef, Mpt, set_node, add_node, invalidate_ref_cache}
use ceno_reth_benchmark.Trie.Tree.{
  Tree, null, branch, leaf, extension, Kids, end, absent, child, mem, kids_mem, id_of, cell, memo,
  Holds, Rep, KidsRep, Wf,
}

abbrev pub SameAt : Mpt → Mpt → ℕ → Type 0
SameAt m m' j = (cell m' j ≡ cell m j) × (memo m' j ≡ memo m j)

-- The two vectors have one length.
abbrev pub IsSized : Mpt → Type 0
IsSized m = length m.nodes ≡ length m.cached_references

-- An insertion adds three nodes at most, and their ids fit in 32 bits.
abbrev pub HasRoom : Mpt → Type 0
HasRoom m = length m.nodes + 3 ≤ 2 ^ 32

-- `add_node`, with the id that the tree functions give.
abbrev pub grown : Mpt → NodeData → Mpt
grown m d = record m {
  nodes = m.nodes ++ (d ∷ []);
  cached_references = m.cached_references ++ (none ∷ []);
}

pub add_node-grown :
    (m : Mpt) (d : NodeData)
    → length m.nodes < 2 ^ 32
    → add_node m d none ≡ (length m.nodes, grown m d)
unfolding add_node
add_node-grown m d h = let e : length m.nodes % 2 ^ 32 ≡ length m.nodes = omega arith in rw e

pub length-grown : (m : Mpt) (d : NodeData) → length (grown m d).nodes ≡ suc (length m.nodes)
length-grown m d = omega (arith, length-append m.nodes (d ∷ []))

pub grown-IsSized : (m : Mpt) (d : NodeData) → IsSized m → IsSized (grown m d)
grown-IsSized m d h =
    omega (arith, length-append m.nodes (d ∷ []), length-append m.cached_references (none ∷ []))

pub grown-SameAt :
    (m : Mpt) (d : NodeData) (j : ℕ) → IsSized m → j < length m.nodes → SameAt m (grown m d) j
grown-SameAt m d j s h = (
  get_elem?-append_left m.nodes (d ∷ []) j h,
  get_elem?-append_left m.cached_references (none ∷ []) j (omega arith),
)

pub cell-grown : (m : Mpt) (d : NodeData) → cell (grown m d) (length m.nodes) ≡ some d
cell-grown m d = get_elem?-append_end m.nodes d

pub memo-grown :
    (m : Mpt) (d : NodeData) → IsSized m → memo (grown m d) (length m.nodes) ≡ some none
memo-grown m d s = rw s (get_elem?-append_end m.cached_references none)

pub cell_lt : (m : Mpt) (i : ℕ) {d : NodeData} → cell m i ≡ some d → i < length m.nodes
cell_lt m i e = get_elem?-lt m.nodes i e

pub set_node-SameAt : (m : Mpt) (i : ℕ) (d : NodeData) (j : ℕ) → i ≢ j → SameAt m (set_node m i d) j
set_node-SameAt m i d j h = (get_elem?-set_ne m.nodes i j d h, refl)

pub cell-set_node :
    (m : Mpt) (i : ℕ) (d : NodeData) → i < length m.nodes → cell (set_node m i d) i ≡ some d
cell-set_node m i d h = get_elem?-set_self m.nodes i d h

-- `invalidate_ref_cache` inside the vector.
abbrev pub forgot : Mpt → ℕ → Mpt
forgot m i = record m { cached_references = set m.cached_references i none }

pub invalidate-forgot :
    (m : Mpt) (i : ℕ) → IsSized m → i < length m.nodes → invalidate_ref_cache m i ≡ ok (forgot m i)
unfolding invalidate_ref_cache
invalidate-forgot m i s h = rw (lt→ltb i (length m.cached_references) (omega arith))

pub forgot-SameAt : (m : Mpt) (i j : ℕ) → i ≢ j → SameAt m (forgot m i) j
forgot-SameAt m i j h = (refl, get_elem?-set_ne m.cached_references i j none h)

pub memo-forgot :
    (m : Mpt) (i : ℕ) → IsSized m → i < length m.nodes → memo (forgot m i) i ≡ some none
memo-forgot m i s h = get_elem?-set_self m.cached_references i none (omega arith)

pub SameAt-trans : (m m' m'' : Mpt) (j : ℕ) → SameAt m m' j → SameAt m' m'' j → SameAt m m'' j
SameAt-trans m m' m'' j a b = (b.0 ∙ a.0, b.1 ∙ a.1)

module _ (ref : Tree → NodeRef) where
  Holds-frame : (m m' : Mpt) (t : Tree) → Holds ref m t → SameAt m m' (id_of t) → Holds ref m' t
  Holds-frame m m' t h s = record {
    at = s.0 ∙ h.at;
    cached = elim h.cached [ inl e ↦ inl (s.1 ∙ e) | inr e ↦ inr (s.1 ∙ e) ];
  }

  mutual
    frame :
        (m m' : Mpt) (t : Tree)
        → Rep ref m t
        → ((j : ℕ) → mem j t ≡ true → SameAt m m' j)
        → Rep ref m' t
    frame m m' (null i) r s = Holds-frame m m' (null i) r (s i (ground arith))
    frame m m' (branch i ks) r s = (
      Holds-frame m m' (branch i ks) r.0 (s i (ground arith)),
      kids_frame m m' ks r.1 λ j h. s j (ground arith),
    )
    frame m m' (leaf i p v) r s = Holds-frame m m' (leaf i p v) r (s i (ground arith))
    frame m m' (extension i p t) r s = (
      Holds-frame m m' (extension i p t) r.0 (s i (ground arith)),
      frame m m' t r.1 λ j h. s j (ground arith),
    )
    frame m m' (Tree.digest i d) r s = Holds-frame m m' (Tree.digest i d) r (s i (ground arith))

    kids_frame :
        (m m' : Mpt) (ks : Kids)
        → KidsRep ref m ks
        → ((j : ℕ) → kids_mem j ks ≡ true → SameAt m m' j)
        → KidsRep ref m' ks
    kids_frame m m' end r s = tt
    kids_frame m m' (absent ks) r s = kids_frame m m' ks r s
    kids_frame m m' (child t ks) r s = (
      frame m m' t r.0 λ j h. s j (ground arith),
      kids_frame m m' ks r.1 λ j h. s j (ground arith),
    )

  pub Rep-frame :
      (m m' : Mpt) (t : Tree)
      → Rep ref m t
      → ((j : ℕ) → mem j t ≡ true → SameAt m m' j)
      → Rep ref m' t
  Rep-frame m m' t r s = frame m m' t r s

  pub KidsRep-frame :
      (m m' : Mpt) (ks : Kids)
      → KidsRep ref m ks
      → ((j : ℕ) → kids_mem j ks ≡ true → SameAt m m' j)
      → KidsRep ref m' ks
  KidsRep-frame m m' ks r s = kids_frame m m' ks r s

  -- What a tree says of the arena below its root.
  abbrev pub Below : Mpt → Tree → Type 0
  Below m (branch i ks) = KidsRep ref m ks
  Below m (extension i p t) = Rep ref m t
  Below m _ = Unit

  pub Rep-Holds : (m : Mpt) (t : Tree) → Rep ref m t → Holds ref m t
  Rep-Holds m (null i) r = r
  Rep-Holds m (branch i ks) r = r.0
  Rep-Holds m (leaf i p v) r = r
  Rep-Holds m (extension i p t) r = r.0
  Rep-Holds m (Tree.digest i d) r = r

  pub Rep-of : (m : Mpt) (t : Tree) → Holds ref m t → Below m t → Rep ref m t
  Rep-of m (null i) h b = h
  Rep-of m (branch i ks) h b = (h, b)
  Rep-of m (leaf i p v) h b = h
  Rep-of m (extension i p t) h b = (h, b)
  Rep-of m (Tree.digest i d) h b = h

  pub Below-frame :
      (m m' : Mpt) (t : Tree)
      → Below m t
      → ((j : ℕ) → mem j t ≡ true → j ≢ id_of t → SameAt m m' j)
      → Wf t
      → Below m' t
  Below-frame m m' (null i) b s w = tt
  Below-frame m m' (branch i ks) b s w =
      kids_frame m m' ks b λ j h. s j (ground arith) λ e. cc (w.1, e)
  Below-frame m m' (leaf i p v) b s w = tt
  Below-frame m m' (extension i p t) b s w =
      frame m m' t b λ j h. s j (ground arith) λ e. cc (w.1, e)
  Below-frame m m' (Tree.digest i d) b s w = tt

  mutual
    mem_bound : (m : Mpt) (t : Tree) (j : ℕ) → Rep ref m t → mem j t ≡ true → j < length m.nodes
    mem_bound m (null i) j r h = ground (arith, cell_lt m i r.at)
    mem_bound m (branch i ks) j r h = ground (arith, cell_lt m i r.0.at, kids_mem_bound m ks j r.1)
    mem_bound m (leaf i p v) j r h = ground (arith, cell_lt m i r.at)
    mem_bound m (extension i p t) j r h = ground (arith, cell_lt m i r.0.at, mem_bound m t j r.1)
    mem_bound m (Tree.digest i d) j r h = ground (arith, cell_lt m i r.at)

    kids_mem_bound :
        (m : Mpt) (ks : Kids) (j : ℕ) → KidsRep ref m ks → kids_mem j ks ≡ true → j < length m.nodes
    kids_mem_bound m end j r h = cc
    kids_mem_bound m (absent ks) j r h = kids_mem_bound m ks j r h
    kids_mem_bound m (child t ks) j r h =
        ground (arith, mem_bound m t j r.0, kids_mem_bound m ks j r.1)

  pub mem-lt : (m : Mpt) (t : Tree) (j : ℕ) → Rep ref m t → mem j t ≡ true → j < length m.nodes
  mem-lt m t j r h = mem_bound m t j r h

  pub kids_mem-lt :
      (m : Mpt) (ks : Kids) (j : ℕ) → KidsRep ref m ks → kids_mem j ks ≡ true → j < length m.nodes
  kids_mem-lt m ks j r h = kids_mem_bound m ks j r h
