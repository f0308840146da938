-- ===== src/Trie/Hash/Root.antt =====
-- The root hash of a trie, and that it does not depend on what is cached.
use ceno_reth_benchmark.Base.{
  ℕ, zero, suc, ◌<◌, ◌≡◌, refl, sym, ap, subst, ◌∙◌, inl, Bool, true, false, none, some, List,
  arith, ltb, ◌==◌, if◌then◌else◌, length, get_elem?, replicate, Option,
}
use ceno_reth_benchmark.Base.Result.{ok, ◌>>=◌}
use ceno_reth_benchmark.Trie.{NodeRef, bytes, Mpt, node}
use ceno_reth_benchmark.Trie.Get.{get}
use ceno_reth_benchmark.Trie.Tree.{
  Tree, null, branch, leaf, extension, Kids, end, absent, child, mem, id_of, Wf, Rep, KidsRep,
  Holds, data_of,
}
use ceno_reth_benchmark.Trie.Arena.{Rep-Holds, cell_lt}
use ceno_reth_benchmark.Trie.Total.{height-length}
use ceno_reth_benchmark.Trie.Valid.{IsValid, get-tree_get}
use ceno_reth_benchmark.Trie.Hash.{
  Rlp, Calc, no_borrows, borrow_cell, calc_reference, hash_of, hash, get_or_insert, Encoded,
  hash_node,
}
use ceno_reth_benchmark.Trie.Hash.Spec.{Laws, ref_of_rlp, tree_ref, root_hash, hash_of_ref}
use ceno_reth_benchmark.Trie.Hash.Memo.{Filled-IsSized, Cached, get_or_insert-Cached}
use ceno_reth_benchmark.Trie.Hash.Correct.{calc_reference-Calced}

-- A trie of the tree `t` that was hashed: the hash, and the same trie with more of the cache filled.
pub record Hashed (rlp : Rlp) (m : Mpt) (t : Tree) (h : List ℕ) (r : Encoded) : Type 0 where
  pub after : Mpt
  pub eq : r ≡ ok (h, after)
  pub valid : IsValid (tree_ref rlp) after
  pub tree : valid.tree ≡ t
  pub reads : (k : List ℕ) → get after k ≡ get m k
  pub nodes : after.nodes ≡ m.nodes
  pub root : after.root_id ≡ m.root_id

module _ (rlp : Rlp) (laws : Laws rlp) where
  HasLength : NodeRef → Type 0
  HasLength (bytes bs) = Unit
  HasLength (NodeRef.digest d) = length d ≡ 32

  ref_HasLength : (e : List ℕ) → HasLength (ref_of_rlp rlp e)
  unfolding HasLength
  ref_HasLength e = go (ltb (length e) 32)
    where
      go : (b : Bool) → HasLength (if b then bytes e else NodeRef.digest (rlp.keccak256 e))
      go true = tt
      go false = laws.length-keccak256 e

  tree_ref-HasLength : (t : Tree) → Wf t → HasLength (tree_ref rlp t)
  unfolding tree_ref HasLength
  tree_ref-HasLength (null i) w = tt
  tree_ref-HasLength (branch i ks) w = ref_HasLength _
  tree_ref-HasLength (leaf i p v) w = ref_HasLength _
  tree_ref-HasLength (extension i p t) w = ref_HasLength _
  tree_ref-HasLength (Tree.digest i d) w = w

  hash_of-hash_of_ref :
      (r : NodeRef) (m : Mpt) → HasLength r → hash_of rlp (r, m) ≡ ok (hash_of_ref rlp r, m)
  unfolding HasLength
  hash_of-hash_of_ref (bytes bs) m h = refl
  hash_of-hash_of_ref (NodeRef.digest d) m h = rw h

  module _ (m : Mpt) (v : IsValid (tree_ref rlp) m) where
    abbrev rec : Calc
    rec b m' id = calc_reference rlp (length m.nodes) b m' id

    root_Cached : Cached rlp m v.tree (get_or_insert rec no_borrows m (id_of v.tree))
    root_Cached = get_or_insert-Cached rlp rec no_borrows m v.tree v.rep v.wf v.sized refl (
        calc_reference-Calced rlp laws v.tree (length m.nodes)
          (borrow_cell (id_of v.tree) no_borrows) m
          (height-length (tree_ref rlp) m v.tree v.rep v.wf) v.rep v.wf v.sized refl
          (λ j q ne. ground (arith, ne, j == id_of v.tree)))

    through_cache :
        Hashed rlp m v.tree
          (hash_of_ref rlp (tree_ref rlp v.tree))
          (get_or_insert rec no_borrows m m.root_id >>= hash_of rlp)
    through_cache =
        let c = root_Cached in
        let at_root : get_or_insert rec no_borrows m m.root_id ≡ ok (tree_ref rlp v.tree, c.after) =
          subst (λ i. get_or_insert rec no_borrows m i ≡ ok (tree_ref rlp v.tree, c.after)) v.root
            c.eq in
        let valid' : IsValid (tree_ref rlp) c.after = record {
          tree = v.tree;
          root = v.root ∙ sym c.filled.root;
          rep = c.rep;
          wf = v.wf;
          sized = Filled-IsSized m (λ j. mem j v.tree) c.after c.filled v.sized;
          canon = v.canon;
        } in
        record {
          after = c.after;
          eq =
              ap (λ r. r >>= hash_of rlp) at_root
              ∙ hash_of-hash_of_ref (tree_ref rlp v.tree) c.after (tree_ref-HasLength v.tree v.wf);
          valid = valid';
          tree = refl;
          reads = λ k.
              get-tree_get (tree_ref rlp) c.after valid' k
              ∙ sym (get-tree_get (tree_ref rlp) m v k);
          nodes = c.filled.nodes;
          root = c.filled.root;
        }

    through_cache_at :
        (t : Tree)
        → v.tree ≡ t
        → Hashed rlp m v.tree
            (hash_of_ref rlp (tree_ref rlp t))
            (get_or_insert rec no_borrows m m.root_id >>= hash_of rlp)
    through_cache_at t e =
        subst
          (λ t.
            Hashed rlp m v.tree (hash_of_ref rlp (tree_ref rlp t))
              (get_or_insert rec no_borrows m m.root_id >>= hash_of rlp))
          e through_cache

    hash_node-Hashed :
        (t : Tree)
        → v.tree ≡ t
        → Hashed rlp m v.tree (root_hash rlp t) (hash_node rlp m (data_of t))
    hash_node-Hashed (null i) e = record {
      after = m;
      eq = refl;
      valid = v;
      tree = refl;
      reads = λ k. refl;
      nodes = refl;
      root = refl;
    }
    hash_node-Hashed (branch i ks) e = through_cache_at (branch i ks) e
    hash_node-Hashed (leaf i p u) e = through_cache_at (leaf i p u) e
    hash_node-Hashed (extension i p t) e = through_cache_at (extension i p t) e
    hash_node-Hashed (Tree.digest i d) e = through_cache_at (Tree.digest i d) e

-- On a valid trie whose cached references are those of its tree, `hash` gives the root hash of the tree, with no panic, a
-- second borrow included, and with fuel enough; the trie stays valid, and only its cache changes.
pub hash-Hashed :
    (rlp : Rlp) (m : Mpt)
    → Laws rlp
    → (v : IsValid (tree_ref rlp) m) → Hashed rlp m v.tree (root_hash rlp v.tree) (hash rlp m)
unfolding hash
hash-Hashed rlp m laws v =
    let at : node m m.root_id ≡ ok (data_of v.tree) =
      subst (λ i. node m i ≡ ok (data_of v.tree)) v.root
        (rw (Rep-Holds (tree_ref rlp) m v.tree v.rep).at) in
    rw at (hash_node-Hashed rlp laws m v v.tree refl)

-- The same trie with nothing cached.
abbrev pub uncached : Mpt → Mpt
uncached m = record m { cached_references = replicate (length m.nodes) none }

get_elem?-replicate :
    (n i : ℕ) → i < n → get_elem? {A = Option NodeRef} (replicate n none) i ≡ some none
get_elem?-replicate zero i h = absurd (omega arith)
get_elem?-replicate (suc n) zero h = refl
get_elem?-replicate (suc n) (suc i) h = get_elem?-replicate n i (omega arith)

length-replicate : (n : ℕ) → length {A = Option NodeRef} (replicate n none) ≡ n
length-replicate zero = refl
length-replicate (suc n) = ap suc (length-replicate n)

module _ (ref : Tree → NodeRef) (m : Mpt) where
  Holds-uncached : (t : Tree) → Holds ref m t → Holds ref (uncached m) t
  Holds-uncached t h = record {
    at = h.at;
    cached = inl (get_elem?-replicate (length m.nodes) (id_of t) (cell_lt m (id_of t) h.at));
  }

  mutual
    Rep-uncached : (t : Tree) → Rep ref m t → Rep ref (uncached m) t
    Rep-uncached (null i) r = Holds-uncached (null i) r
    Rep-uncached (branch i ks) r = (Holds-uncached (branch i ks) r.0, KidsRep-uncached ks r.1)
    Rep-uncached (leaf i p v) r = Holds-uncached (leaf i p v) r
    Rep-uncached (extension i p t) r = (Holds-uncached (extension i p t) r.0, Rep-uncached t r.1)
    Rep-uncached (Tree.digest i d) r = Holds-uncached (Tree.digest i d) r

    KidsRep-uncached : (ks : Kids) → KidsRep ref m ks → KidsRep ref (uncached m) ks
    KidsRep-uncached end r = tt
    KidsRep-uncached (absent ks) r = KidsRep-uncached ks r
    KidsRep-uncached (child t ks) r = (Rep-uncached t r.0, KidsRep-uncached ks r.1)

  uncached-IsValid : IsValid ref m → IsValid ref (uncached m)
  uncached-IsValid v = record {
    tree = v.tree;
    root = v.root;
    rep = Rep-uncached v.tree v.rep;
    wf = v.wf;
    sized = sym (length-replicate (length m.nodes));
    canon = v.canon;
  }

-- On such a trie `hash` gives the hash that it gives on the same nodes with nothing cached.
pub hash-uncached :
    (rlp : Rlp) (m : Mpt)
    → Laws rlp
    → (v : IsValid (tree_ref rlp) m)
    → (h : List ℕ) × Hashed rlp m v.tree h (hash rlp m)
      × Hashed rlp (uncached m) v.tree h (hash rlp (uncached m))
unfolding uncached-IsValid
hash-uncached rlp m laws v = (
  root_hash rlp v.tree,
  hash-Hashed rlp m laws v,
  hash-Hashed rlp (uncached m) laws (uncached-IsValid (tree_ref rlp) m v),
)
