-- ===== src/Trie/Hash/Memo.antt =====
-- The cache while references are computed: cells below a node are filled with the right reference,
-- the others are left alone, and a filled cell answers with no computation.
use ceno_reth_benchmark.Base.{
  ℕ, ◌+◌, ◌<◌, ◌≡◌, ◌≢◌, refl, sym, ap, ◌∙◌, inl, inr, Bool, true, false, some, List, arith, ltb,
  if◌then◌else◌, length, length-append, length-set, get_elem?, set, get_elem?-set_self,
  get_elem?-set_ne,
}
use ceno_reth_benchmark.Base.Result.{ok}
use ceno_reth_benchmark.Trie.{NodeData, NodeRef, bytes, Mpt}
use ceno_reth_benchmark.Trie.Tree.{
  Tree, Kids, end, absent, child, mem, kids_mem, id_of, slots, memo, Wf, Rep,
}
use ceno_reth_benchmark.Trie.Arena.{SameAt, IsSized, Rep-Holds, Rep-of, Below, Below-frame, cell_lt}
use ceno_reth_benchmark.Trie.Refine.Post.{mem-id_of}
use ceno_reth_benchmark.Trie.Hash.{
  Rlp, Borrows, borrow_cell, borrow_scratch, Referred, Calc, get_or_insert, reference_encode,
  children_encode, encode_with_payload_len, calc_sized,
}
use ceno_reth_benchmark.Trie.Hash.Spec.{Laws, rlp_list, ref_of_rlp, tree_ref, kids_payload}

-- Only cells inside are filled.
pub record Filled (m : Mpt) (inside : ℕ → Bool) (m' : Mpt) : Type 0 where
  pub nodes : m'.nodes ≡ m.nodes
  pub root : m'.root_id ≡ m.root_id
  pub size : length m'.cached_references ≡ length m.cached_references
  pub outside : (j : ℕ) → inside j ≡ false → memo m' j ≡ memo m j

pub Filled-refl : (m : Mpt) (inside : ℕ → Bool) → Filled m inside m
Filled-refl m inside = record { nodes = refl; root = refl; size = refl; outside = λ j h. refl }

pub Filled-trans :
    (m m1 m2 : Mpt) (p q r : ℕ → Bool)
    → Filled m p m1
    → Filled m1 q m2
    → ((j : ℕ) → r j ≡ false → (p j ≡ false) × (q j ≡ false))
    → Filled m r m2
Filled-trans m m1 m2 p q r a b h = record {
  nodes = b.nodes ∙ a.nodes;
  root = b.root ∙ a.root;
  size = b.size ∙ a.size;
  outside = λ j o. b.outside j (h j o).1 ∙ a.outside j (h j o).0;
}

pub Filled-SameAt :
    (m : Mpt) (p : ℕ → Bool) (m' : Mpt) (j : ℕ) → Filled m p m' → p j ≡ false → SameAt m m' j
Filled-SameAt m p m' j f h = (ap (λ l. get_elem? l j) f.nodes, f.outside j h)

pub Filled-IsSized : (m : Mpt) (p : ℕ → Bool) (m' : Mpt) → Filled m p m' → IsSized m → IsSized m'
Filled-IsSized m p m' f s = ap length f.nodes ∙ s ∙ sym f.size

module _ (rlp : Rlp) where
  abbrev pub Warm : Mpt → Tree → Type 0
  Warm m t = memo m (id_of t) ≡ some (some (tree_ref rlp t))

  abbrev pub KidsWarm : Mpt → Kids → Type 0
  KidsWarm m end = Unit
  KidsWarm m (absent ks) = KidsWarm m ks
  KidsWarm m (child t ks) = Warm m t × KidsWarm m ks

  -- What `calc_reference` does on a tree.
  pub record Calced (m : Mpt) (t : Tree) (r : Referred) : Type 0 where
    pub after : Mpt
    pub eq : r ≡ ok (tree_ref rlp t, after)
    pub filled : Filled m (λ j. mem j t) after
    pub below : Below (tree_ref rlp) after t

  -- The same through the cache.
  pub record Cached (m : Mpt) (t : Tree) (r : Referred) : Type 0 where
    pub after : Mpt
    pub eq : r ≡ ok (tree_ref rlp t, after)
    pub filled : Filled m (λ j. mem j t) after
    pub rep : Rep (tree_ref rlp) after t
    pub warm : Warm after t

  pub get_or_insert-Cached :
      (rec : Calc) (b : Borrows) (m : Mpt) (t : Tree)
      → Rep (tree_ref rlp) m t
      → Wf t
      → IsSized m
      → b.cells (id_of t) ≡ false
      → Calced m t (rec (borrow_cell (id_of t) b) m (id_of t))
      → Cached m t (get_or_insert rec b m (id_of t))
  unfolding get_or_insert
  get_or_insert-Cached rec b m t r w s free c =
      let h = Rep-Holds (tree_ref rlp) m t r in
      let i = id_of t in
      elim h.cached [
        | inr e ↦ record {
          after = m;
          eq = rw (free, e);
          filled = Filled-refl m (λ j. mem j t);
          rep = r;
          warm = e;
        }
        | inl e ↦
            let m1 = c.after in
            let m2 : Mpt = record m1 {
              cached_references = set m1.cached_references i (some (tree_ref rlp t));
            } in
            let lt : i < length m1.cached_references =
              omega (arith, cell_lt m i h.at, c.filled.size) in
            let at : memo m2 i ≡ some (some (tree_ref rlp t)) =
              get_elem?-set_self m1.cached_references i (some (tree_ref rlp t)) lt in
            let far : (j : ℕ) → j ≢ i → SameAt m1 m2 j = λ j ne. (
              refl,
              get_elem?-set_ne m1.cached_references i j (some (tree_ref rlp t)) (λ q. ne (sym q)),
            ) in
            record {
              after = m2;
              eq = rw (free, e, c.eq);
              filled = record {
                nodes = c.filled.nodes;
                root = c.filled.root;
                size = length-set m1.cached_references i (some (tree_ref rlp t)) ∙ c.filled.size;
                outside = λ j o. (far j λ q. cc (q, mem-id_of t, o)).1 ∙ c.filled.outside j o;
              };
              rep =
                  Rep-of (tree_ref rlp) m2 t
                    (record { at = ap (λ l. get_elem? l i) c.filled.nodes ∙ h.at; cached = inr at })
                    (Below-frame (tree_ref rlp) m1 m2 t c.below (λ j q ne. far j ne) w);
              warm = at;
            }
      ]

  pub get_or_insert-Warm :
      (rec : Calc) (b : Borrows) (m : Mpt) (t : Tree)
      → Warm m t
      → b.cells (id_of t) ≡ false
      → get_or_insert rec b m (id_of t) ≡ ok (tree_ref rlp t, m)
  unfolding get_or_insert
  get_or_insert-Warm rec b m t e free = rw (free, e)

  -- Once the children's references are there, encoding computes nothing.
  pub children_encode-Warm :
      (rec : Calc) (b : Borrows) (m : Mpt) (ks : Kids)
      → KidsWarm m ks
      → ((j : ℕ) → kids_mem j ks ≡ true → b.cells j ≡ false)
      → children_encode rec b m (slots ks) ≡ ok (kids_payload rlp ks, m)
  unfolding children_encode reference_encode kids_payload
  children_encode-Warm rec b m end w free = refl
  children_encode-Warm rec b m (absent ks) w free = rw (children_encode-Warm rec b m ks w free)
  children_encode-Warm rec b m (child t ks) w free = rw (
    get_or_insert-Warm rec b m t w.0 (free (id_of t) (ground (arith, mem-id_of t))),
    children_encode-Warm rec b m ks w.1 (λ j h. free j (ground arith)),
  )

  -- Both ways to write an encoding end in the same reference.
  pub calc_sized-ref_of_rlp :
      Laws rlp
      → (rec : Calc) (b : Borrows) (m : Mpt) (d : NodeData) (n : ℕ) (payload : List ℕ)
      → n ≡ length payload
      → b.scratch ≡ false
      → encode_with_payload_len rlp rec b m d n ≡ ok (rlp_list rlp payload, m)
      → encode_with_payload_len rlp rec (borrow_scratch b) m d n ≡ ok (rlp_list rlp payload, m)
      → calc_sized rlp rec b m d n ≡ ok (ref_of_rlp rlp (rlp_list rlp payload), m)
  unfolding calc_sized
  calc_sized-ref_of_rlp laws rec b m d n payload e free short long =
      let total : length (rlp_list rlp payload) ≡ n + rlp.length_of_length n = rw e (
        omega (
          arith,
          length-append (rlp.list_header (length payload)) payload,
          laws.length-list_header (length payload),
        )) in
      rw (short, long, free, total) (go (ltb (n + rlp.length_of_length n) 32))
    where
      chosen : Bool → NodeRef
      chosen c =
          if c
          then bytes (rlp_list rlp payload)
          else NodeRef.digest (rlp.keccak256 (rlp_list rlp payload))

      branches : Bool → Referred
      branches c =
          if c
          then ok (bytes (rlp_list rlp payload), m)
          else ok (NodeRef.digest (rlp.keccak256 (rlp_list rlp payload)), m)

      go : (c : Bool) → branches c ≡ ok (chosen c, m)
      go true = refl
      go false = refl
