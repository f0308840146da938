-- ===== src/Trie/Hash/Correct.antt =====
-- `calc_reference` and `hash` give the reference and the root hash of the tree, whatever is cached.
use ceno_reth_benchmark.Base.{
  ℕ, zero, suc, ◌+◌, ◌≤◌, ◌≡◌, ◌≢◌, refl, ◌∙◌, true, false, ◌||◌, none, some, List, [], ◌∷◌, ◌++◌,
  arith, ◌==◌, length, length-append,
}
use ceno_reth_benchmark.Base.Result.{ok}
use ceno_reth_benchmark.Trie.{NodeData, Mpt}
use ceno_reth_benchmark.Trie.Tree.{
  Tree, null, branch, leaf, extension, Kids, end, absent, child, mem, kids_mem, id_of, slots,
  height, kids_height, Wf, KidsWf, Rep, KidsRep,
}
use ceno_reth_benchmark.Trie.Arena.{SameAt, IsSized, Rep-frame, KidsRep-frame}
use ceno_reth_benchmark.Trie.Refine.Post.{mem-id_of}
use ceno_reth_benchmark.Trie.Hash.{
  Rlp, Borrows, borrow_cell, borrow_scratch, Calc, Measured, encoded_ref, encoded_ref_length,
  reference_length, reference_encode, children_length, payload_length, encode_with_payload_len,
  calc_long, calc_node, calc_reference, empty_string_code, get_or_insert,
}
use ceno_reth_benchmark.Trie.Hash.Spec.{Laws, tree_ref, kids_payload, length-encoded_ref}
use ceno_reth_benchmark.Trie.Hash.Memo.{
  Filled, Filled-refl, Filled-trans, Filled-SameAt, Filled-IsSized, KidsWarm, Calced, Cached,
  get_or_insert-Cached, get_or_insert-Warm, children_encode-Warm, calc_sized-ref_of_rlp,
}

module _ (rlp : Rlp) (laws : Laws rlp) where
  -- What the sum over the children does: it fills their cells.
  record Summed (m : Mpt) (ks : Kids) (r : Measured) : Type 0 where
    after : Mpt
    eq : r ≡ ok (length (kids_payload rlp ks), after)
    filled : Filled m (λ j. kids_mem j ks) after
    rep : KidsRep (tree_ref rlp) after ks
    warm : KidsWarm rlp after ks

  KidsWarm-frame :
      (m m' : Mpt) (ks : Kids)
      → ((j : ℕ) → kids_mem j ks ≡ true → SameAt m m' j)
      → KidsWarm rlp m ks
      → KidsWarm rlp m' ks
  KidsWarm-frame m m' end s w = tt
  KidsWarm-frame m m' (absent ks) s w = KidsWarm-frame m m' ks s w
  KidsWarm-frame m m' (child t ks) s w = (
    (s (id_of t) (ground (arith, mem-id_of t))).1 ∙ w.0,
    KidsWarm-frame m m' ks (λ j h. s j (ground arith)) w.1,
  )

  Summed-child :
      (rec : Calc) (b : Borrows) (m : Mpt) (t : Tree) (ks : Kids)
      → KidsWf (child t ks)
      → (c : Cached rlp m t (get_or_insert rec b m (id_of t)))
      → Summed c.after ks (children_length rec b c.after (slots ks))
      → Summed m (child t ks) (children_length rec b m (some (id_of t) ∷ slots ks))
  unfolding children_length reference_length kids_payload
  Summed-child rec b m t ks w c s = record {
    after = s.after;
    eq = rw (
      c.eq,
      s.eq,
      length-append (encoded_ref (tree_ref rlp t)) (kids_payload rlp ks),
      length-encoded_ref rlp laws t w.0,
    );
    filled =
        Filled-trans m c.after s.after (λ j. mem j t) (λ j. kids_mem j ks)
          (λ j. mem j t || kids_mem j ks) c.filled s.filled (λ j h. (ground arith, ground arith));
    rep = (
      Rep-frame (tree_ref rlp) c.after s.after t c.rep
          (λ j h. Filled-SameAt c.after (λ j. kids_mem j ks) s.after j s.filled (w.2 j h)),
      s.rep,
    );
    warm = (s.filled.outside (id_of t) (w.2 (id_of t) (mem-id_of t)) ∙ c.warm, s.warm);
  }

  Summed-absent :
      (rec : Calc) (b : Borrows) (m : Mpt) (ks : Kids)
      → Summed m ks (children_length rec b m (slots ks))
      → Summed m (absent ks) (children_length rec b m (none ∷ slots ks))
  unfolding children_length kids_payload
  Summed-absent rec b m ks s = record {
    after = s.after;
    eq =
        let one : 1 + length (kids_payload rlp ks) ≡ suc (length (kids_payload rlp ks)) =
          omega arith in
        rw (s.eq, one);
    filled = s.filled;
    rep = s.rep;
    warm = s.warm;
  }

  -- One node, once the references of its children are known.
  branch-Calced :
      (rec : Calc) (b : Borrows) (m : Mpt) (i : ℕ) (ks : Kids)
      → b.scratch ≡ false
      → ((j : ℕ) → kids_mem j ks ≡ true → b.cells j ≡ false)
      → Summed m ks (children_length rec b m (slots ks))
      → Calced rlp m (branch i ks) (calc_node rlp rec b m (NodeData.branch (slots ks)))
  unfolding calc_node calc_long payload_length encode_with_payload_len tree_ref
  branch-Calced rec b m i ks free cells s =
      let payload = kids_payload rlp ks ++ (empty_string_code ∷ []) in
      let n : 1 + length (kids_payload rlp ks) ≡ length payload =
        omega (arith, length-append (kids_payload rlp ks) (empty_string_code ∷ [])) in
      record {
        after = s.after;
        eq = rw s.eq (
            calc_sized-ref_of_rlp rlp laws rec b s.after (NodeData.branch (slots ks))
              (1 + length (kids_payload rlp ks)) payload n free
              (rw (children_encode-Warm rlp rec b s.after ks s.warm cells, n))
              (rw (children_encode-Warm rlp rec (borrow_scratch b) s.after ks s.warm cells, n)));
        filled = record {
          nodes = s.filled.nodes;
          root = s.filled.root;
          size = s.filled.size;
          outside = λ j o. s.filled.outside j (ground arith);
        };
        below = s.rep;
      }

  extension-Calced :
      (rec : Calc) (b : Borrows) (m : Mpt) (i : ℕ) (p : List ℕ) (t : Tree)
      → Wf t
      → b.scratch ≡ false
      → b.cells (id_of t) ≡ false
      → Cached rlp m t (get_or_insert rec b m (id_of t))
      → Calced rlp m (extension i p t) (calc_node rlp rec b m (NodeData.extension p (id_of t)))
  unfolding calc_node calc_long payload_length encode_with_payload_len tree_ref reference_length
      reference_encode
  extension-Calced rec b m i p t w free cells c =
      let payload = rlp.string p ++ encoded_ref (tree_ref rlp t) in
      let n : rlp.string_length p + encoded_ref_length (tree_ref rlp t) ≡ length payload = omega (
        arith,
        length-append (rlp.string p) (encoded_ref (tree_ref rlp t)),
        laws.length-string p,
        length-encoded_ref rlp laws t w,
      ) in
      record {
        after = c.after;
        eq = rw c.eq (
            calc_sized-ref_of_rlp rlp laws rec b c.after (NodeData.extension p (id_of t))
              (rlp.string_length p + encoded_ref_length (tree_ref rlp t)) payload n free
              (rw (get_or_insert-Warm rlp rec b c.after t c.warm cells, n))
              (rw (get_or_insert-Warm rlp rec (borrow_scratch b) c.after t c.warm cells, n)));
        filled = record {
          nodes = c.filled.nodes;
          root = c.filled.root;
          size = c.filled.size;
          outside = λ j o. c.filled.outside j (ground arith);
        };
        below = c.rep;
      }

  leaf-Calced :
      (rec : Calc) (b : Borrows) (m : Mpt) (i : ℕ) (p v : List ℕ)
      → b.scratch ≡ false
      → Calced rlp m (leaf i p v) (calc_node rlp rec b m (NodeData.leaf p v))
  unfolding calc_node calc_long payload_length encode_with_payload_len tree_ref
  leaf-Calced rec b m i p v free =
      let payload = rlp.string p ++ rlp.string v in
      let n : rlp.string_length p + rlp.string_length v ≡ length payload = omega (
        arith,
        length-append (rlp.string p) (rlp.string v),
        laws.length-string p,
        laws.length-string v,
      ) in
      record {
        after = m;
        eq =
            calc_sized-ref_of_rlp rlp laws rec b m (NodeData.leaf p v)
              (rlp.string_length p + rlp.string_length v) payload n free (rw n) (rw n);
        filled = Filled-refl m (λ j. mem j (leaf i p v));
        below = tt;
      }

  mutual
    unfolding calc_reference calc_node tree_ref kids_payload children_length

    calc :
        (t : Tree) (fuel : ℕ) (b : Borrows) (m : Mpt)
        → height t ≤ fuel
        → Rep (tree_ref rlp) m t
        → Wf t
        → IsSized m
        → b.scratch ≡ false
        → ((j : ℕ) → mem j t ≡ true → j ≢ id_of t → b.cells j ≡ false)
        → Calced rlp m t (calc_reference rlp fuel b m (id_of t))
    calc (null i) zero b m h r w s free cells = absurd (omega arith)
    calc (null i) (suc f) b m h r w s free cells = record {
      after = m;
      eq = rw r.at;
      filled = Filled-refl m (λ j. mem j (null i));
      below = tt;
    }
    calc (branch i ks) zero b m h r w s free cells = absurd (omega arith)
    calc (branch i ks) (suc f) b m h r w s free cells =
        let below : (j : ℕ) → kids_mem j ks ≡ true → b.cells j ≡ false =
          λ j q. cells j (ground arith) λ e. cc (w.1, e, q) in
        rw r.0.at (
          branch-Calced (λ b m id. calc_reference rlp f b m id) b m i ks free below
            (kids ks f b m (omega arith) r.1 w.2 s free below))
    calc (leaf i p v) zero b m h r w s free cells = absurd (omega arith)
    calc (leaf i p v) (suc f) b m h r w s free cells =
        rw r.at (leaf-Calced (λ b m id. calc_reference rlp f b m id) b m i p v free)
    calc (extension i p t) zero b m h r w s free cells = absurd (omega arith)
    calc (extension i p t) (suc f) b m h r w s free cells =
        let below : (j : ℕ) → mem j t ≡ true → b.cells j ≡ false =
          λ j q. cells j (ground arith) λ e. cc (w.1, e, q) in
        let here = below (id_of t) (mem-id_of t) in
        rw r.0.at (
          extension-Calced (λ b m id. calc_reference rlp f b m id) b m i p t w.2 free here
            (get_or_insert-Cached rlp (λ b m id. calc_reference rlp f b m id) b m t r.1 w.2 s here
              (calc t f (borrow_cell (id_of t) b) m (omega arith) r.1 w.2 s free
                (λ j q ne. ground (arith, below j q, ne, j == id_of t)))))
    calc (Tree.digest i d) zero b m h r w s free cells = absurd (omega arith)
    calc (Tree.digest i d) (suc f) b m h r w s free cells = record {
      after = m;
      eq = rw r.at;
      filled = Filled-refl m (λ j. mem j (Tree.digest i d));
      below = tt;
    }

    kids :
        (ks : Kids) (fuel : ℕ) (b : Borrows) (m : Mpt)
        → kids_height ks ≤ fuel
        → KidsRep (tree_ref rlp) m ks
        → KidsWf ks
        → IsSized m
        → b.scratch ≡ false
        → ((j : ℕ) → kids_mem j ks ≡ true → b.cells j ≡ false)
        → Summed m ks (children_length (λ b m id. calc_reference rlp fuel b m id) b m (slots ks))
    kids end f b m h r w s free cells = record {
      after = m;
      eq = refl;
      filled = Filled-refl m (λ j. false);
      rep = tt;
      warm = tt;
    }
    kids (absent ks) f b m h r w s free cells =
        Summed-absent (λ b m id. calc_reference rlp f b m id) b m ks
          (kids ks f b m h r w s free cells)
    kids (child t ks) f b m h r w s free cells =
        let rec : Calc = λ b m id. calc_reference rlp f b m id in
        let c =
          get_or_insert-Cached rlp rec b m t r.0 w.0 s
            (cells (id_of t) (ground (arith, mem-id_of t)))
            (calc t f (borrow_cell (id_of t) b) m (omega arith) r.0 w.0 s free
              (λ j q ne. ground (arith, cells j, ne, j == id_of t))) in
        let others : (j : ℕ) → kids_mem j ks ≡ true → SameAt m c.after j =
          λ j q. Filled-SameAt m (λ j. mem j t) c.after j c.filled (ground (arith, w.2 j)) in
        Summed-child rec b m t ks w c (
          kids ks f b c.after (omega arith) (KidsRep-frame (tree_ref rlp) m c.after ks r.1 others)
            w.1 (Filled-IsSized m (λ j. mem j t) c.after c.filled s) free
            (λ j q. cells j (ground arith)))

  -- In an arena that represents a well formed tree, with fuel for the tree's height, no borrow of the scratch
  -- buffer and none of a cell below the node, `calc_reference` gives the reference of the tree; it
  -- fills cells of the tree only and leaves the nodes as they are.
  pub calc_reference-Calced :
      (t : Tree) (fuel : ℕ) (b : Borrows) (m : Mpt)
      → height t ≤ fuel
      → Rep (tree_ref rlp) m t
      → Wf t
      → IsSized m
      → b.scratch ≡ false
      → ((j : ℕ) → mem j t ≡ true → j ≢ id_of t → b.cells j ≡ false)
      → Calced rlp m t (calc_reference rlp fuel b m (id_of t))
  calc_reference-Calced t fuel b m h r w s free cells = calc t fuel b m h r w s free cells
