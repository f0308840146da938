-- ===== src/Trie/Tree.antt =====
-- What a tree-shaped arena stands for: a tree whose nodes carry their indices. `Rep` ties it to the
-- node vector and to the cache of references.
use ceno_reth_benchmark.Base.{
  ℕ, suc, max, ◌≡◌, ◌⊎◌, Bool, true, false, ◌||◌, Option, none, some, List, [], ◌∷◌, ◌==◌, length,
  get_elem?, All,
}
use ceno_reth_benchmark.Hp.{IsByte}
use ceno_reth_benchmark.Trie.{NodeData, NodeRef, Mpt}

mutual
  pub data Tree : Type 0 where
    null : ℕ → Tree
    branch : ℕ → Kids → Tree
    leaf : ℕ → List ℕ → List ℕ → Tree
    extension : ℕ → List ℕ → Tree → Tree
    digest : ℕ → List ℕ → Tree

  -- The slots of a branch.
  pub data Kids : Type 0 where
    end : Kids
    absent : Kids → Kids
    child : Tree → Kids → Kids

abbrev pub id_of : Tree → ℕ
id_of (null i) = i
id_of (branch i ks) = i
id_of (leaf i p v) = i
id_of (extension i p t) = i
id_of (digest i d) = i

abbrev pub is_null : Tree → Bool
is_null (null i) = true
is_null _ = false

abbrev pub slots : Kids → List (Option ℕ)
slots end = []
slots (absent ks) = none ∷ slots ks
slots (child t ks) = some (id_of t) ∷ slots ks

-- The node that the arena holds at the root of the tree.
abbrev pub data_of : Tree → NodeData
data_of (null i) = NodeData.null
data_of (branch i ks) = NodeData.branch (slots ks)
data_of (leaf i p v) = NodeData.leaf p v
data_of (extension i p t) = NodeData.extension p (id_of t)
data_of (digest i d) = NodeData.digest d

-- The indices that occur in a tree.
abbrev mutual
  pub mem : ℕ → Tree → Bool
  mem j (null i) = j == i
  mem j (branch i ks) = j == i || kids_mem j ks
  mem j (leaf i p v) = j == i
  mem j (extension i p t) = j == i || mem j t
  mem j (digest i d) = j == i

  pub kids_mem : ℕ → Kids → Bool
  kids_mem j end = false
  kids_mem j (absent ks) = kids_mem j ks
  kids_mem j (child t ks) = mem j t || kids_mem j ks

abbrev mutual
  pub height : Tree → ℕ
  height (null i) = 1
  height (branch i ks) = suc (kids_height ks)
  height (leaf i p v) = 1
  height (extension i p t) = suc (height t)
  height (digest i d) = 1

  pub kids_height : Kids → ℕ
  kids_height end = 0
  kids_height (absent ks) = kids_height ks
  kids_height (child t ks) = max (height t) (kids_height ks)

abbrev pub Disjoint : Tree → Kids → Type 0
Disjoint t ks = (j : ℕ) → mem j t ≡ true → kids_mem j ks ≡ false

-- Each index occurs once, paths are bytes, a branch has 16 slots, a digest 32 bytes.
abbrev mutual
  pub Wf : Tree → Type 0
  Wf (null i) = Unit
  Wf (branch i ks) = (length (slots ks) ≡ 16) × (kids_mem i ks ≡ false) × KidsWf ks
  Wf (leaf i p v) = All IsByte p
  Wf (extension i p t) = All IsByte p × (mem i t ≡ false) × Wf t
  Wf (digest i d) = length d ≡ 32

  pub KidsWf : Kids → Type 0
  KidsWf end = Unit
  KidsWf (absent ks) = KidsWf ks
  KidsWf (child t ks) = Wf t × KidsWf ks × Disjoint t ks

abbrev pub cell : Mpt → ℕ → Option NodeData
cell m i = get_elem? m.nodes i

abbrev pub memo : Mpt → ℕ → Option (Option NodeRef)
memo m i = get_elem? m.cached_references i

-- `ref` says what a tree looks like in its parent; a cached reference is that or is missing.
module _ (ref : Tree → NodeRef) where
  pub record Holds (m : Mpt) (t : Tree) : Type 0 where
    pub at : cell m (id_of t) ≡ some (data_of t)
    pub cached : (memo m (id_of t) ≡ some none) ⊎ (memo m (id_of t) ≡ some (some (ref t)))

  abbrev mutual
    pub Rep : Mpt → Tree → Type 0
    Rep m (null i) = Holds m (null i)
    Rep m (branch i ks) = Holds m (branch i ks) × KidsRep m ks
    Rep m (leaf i p v) = Holds m (leaf i p v)
    Rep m (extension i p t) = Holds m (extension i p t) × Rep m t
    Rep m (digest i d) = Holds m (digest i d)

    pub KidsRep : Mpt → Kids → Type 0
    KidsRep m end = Unit
    KidsRep m (absent ks) = KidsRep m ks
    KidsRep m (child t ks) = Rep m t × KidsRep m ks
