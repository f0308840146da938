-- ===== src/Trie/Refine/Split.antt =====
-- Where `insert_internal` splits a leaf or an extension, against `leaf_insert` and
-- `extension_insert`.
use ceno_reth_benchmark.Base.{
  ℕ, suc, ◌≤◌, ◌≡◌, refl, Bool, true, false, List, [], ◌∷◌, ◌++◌, arith, length, ltb, if◌then◌else◌,
  length-append, drop-suc-append, get_elem?-append_mid, bytes_eq, ◌==◌,
}
use ceno_reth_benchmark.Base.Result.{ok, Sim, sim_ok, sim_err, bind}
use ceno_reth_benchmark.Hp.{prefix_to_nibs}
use ceno_reth_benchmark.Hp.Encode.{encoded, to_encoded_path-encoded}
use ceno_reth_benchmark.Hp.Lcp.{Apart, lcp-append}
use ceno_reth_benchmark.Trie.{Error, Mpt, NodeData, NodeRef, set_node, no_children}
use ceno_reth_benchmark.Trie.Insert.{split_leaf, insert_leaf, old_child, split_extension}
use ceno_reth_benchmark.Trie.Tree.{Tree, leaf, extension, id_of, data_of, Rep}
use ceno_reth_benchmark.Trie.Spec.{all_absent, fork, leaf_insert, rest_of, next_after}
use ceno_reth_benchmark.Trie.Arena.{
  IsSized, HasRoom, add_node-grown, grown, length-grown, grown-IsSized,
}
use ceno_reth_benchmark.Trie.Refine.Post.{Spares, Spares-refl, Spares-grown, Pending}
use ceno_reth_benchmark.Trie.Refine.Fork.{
  put_child-put_kid, grown-Holds, grown-Rep, grown-KidsRep, replace_by_branch-wrap,
}

-- The tests on the common length, by what is left of each side.
pub at_end-nil : (c : List ℕ) → (length c == length (c ++ [])) ≡ true
at_end-nil c = ground (arith, length-append c [])

pub at_end-cons : (c : List ℕ) (x : ℕ) (l : List ℕ) → (length c == length (c ++ (x ∷ l))) ≡ false
at_end-cons c x l = ground (arith, length-append c (x ∷ l))

module _ (ref : Tree → NodeRef) where
  split_leaf-fork :
      (m : Mpt) (t : Tree) (c : List ℕ) (x : ℕ) (left : List ℕ) (y : ℕ) (right old v : List ℕ)
      → IsSized m
      → HasRoom m
      → Sim
          (Pending ref m t)
          (split_leaf m (id_of t) (c ++ (x ∷ left)) (c ++ (y ∷ right)) (length c) old v)
          (fork
            (id_of t)
            c
            x
            (leaf (length m.nodes) (encoded left true) old)
            y
            (leaf (suc (length m.nodes)) (encoded right true) v)
            (suc (suc (length m.nodes))))
  unfolding split_leaf fork
  split_leaf-fork m t c x left y right old v s room =
      let t1 = leaf (length m.nodes) (encoded left true) old in
      let m1 = grown m (data_of t1) in
      let l1 = length-grown m (data_of t1) in
      let s1 = grown-IsSized m (data_of t1) s in
      let t2 = leaf (length m1.nodes) (encoded right true) v in
      let m2 = grown m1 (data_of t2) in
      let l2 = length-grown m1 (data_of t2) in
      let s2 = grown-IsSized m1 (data_of t2) s1 in
      let r1 : Rep ref m2 t1 = grown-Rep ref m1 (data_of t2) t1 s1 (grown-Holds ref m t1 s refl) in
      let r2 : Rep ref m2 t2 = grown-Holds ref m1 t2 s1 refl in
      let sp1 = Spares-grown m t m (data_of t1) (Spares-refl m t s) (omega arith) in
      let sp2 = Spares-grown m t m1 (data_of t2) sp1 (omega arith) in
      rw
        (
          ← l1,
          ← l2,
          drop-suc-append c left x,
          drop-suc-append c right y,
          to_encoded_path-encoded {E = Error} left true,
          to_encoded_path-encoded {E = Error} right true,
          add_node-grown m (data_of t1) (omega arith),
          add_node-grown m1 (data_of t2) (omega arith),
          get_elem?-append_mid c left x,
          get_elem?-append_mid c right y,
        )
        (bind (put_child-put_kid ref m2 no_children all_absent x t1 (refl, tt) r1) λ c1 k1 h1.
          bind (put_child-put_kid ref m2 c1 k1 y t2 h1 r2) λ c2 k2 h2.
            replace_by_branch-wrap ref m m2 t c (x ∷ left) c2 k2 h2 sp2 (omega arith) (omega arith))

  pub insert_leaf-leaf_insert :
      (m : Mpt) (i : ℕ) (p c left right old v : List ℕ)
      → prefix_to_nibs p ≡ c ++ left
      → Apart left right
      → IsSized m
      → HasRoom m
      → Sim
          (Pending ref m (leaf i p old))
          (insert_leaf m i p old (c ++ right) v)
          (leaf_insert i p old v (length m.nodes) c left right)
  unfolding insert_leaf leaf_insert
  insert_leaf-leaf_insert m i p c [] [] old v e a s room =
      rw (e, lcp-append c [] [] a, at_end-nil c) (go (bytes_eq old v))
    where
      go :
          (b : Bool)
          → Sim {E = Error}
              (Pending ref m (leaf i p old))
              (if b then ok (false, m) else ok (true, set_node m i (NodeData.leaf p v)))
              (if b then ok (false, leaf i p old) else ok (true, leaf i p v))
      go true = sim_ok (refl, refl)
      go false =
          sim_ok (record {
            before = m;
            write = refl;
            below = tt;
            spares = Spares-refl m (leaf i p old) s;
          })
  insert_leaf-leaf_insert m i p c [] (y ∷ right) old v e a s room =
      rw (e, lcp-append c [] (y ∷ right) a, at_end-nil c, at_end-cons c y right) sim_err
  insert_leaf-leaf_insert m i p c (x ∷ left) [] old v e a s room =
      rw (e, lcp-append c (x ∷ left) [] a, at_end-nil c, at_end-cons c x left) sim_err
  insert_leaf-leaf_insert m i p c (x ∷ left) (y ∷ right) old v e a s room =
      rw (e, lcp-append c (x ∷ left) (y ∷ right) a, at_end-cons c x left, at_end-cons c y right)
        (split_leaf-fork m (leaf i p old) c x left y right old v s room)

  -- What stands below the branch for the old child.
  record Old (m : Mpt) (t u : Tree) (left : List ℕ) (r : ℕ × Mpt) : Type 0 where
    id_eq : r.0 ≡ id_of (rest_of (length m.nodes) left u)
    rep : Rep ref r.1 (rest_of (length m.nodes) left u)
    spares : Spares m t r.1
    next : length r.1.nodes ≡ next_after (length m.nodes) left

  old_child-Old :
      (m : Mpt) (t u : Tree) (c : List ℕ) (x : ℕ) (left : List ℕ)
      → Rep ref m u
      → IsSized m
      → HasRoom m
      → (r : ℕ × Mpt) × (old_child m (c ++ (x ∷ left)) (length c) (id_of u) ≡ ok r)
        × Old m t u left r
  unfolding old_child rest_of next_after
  old_child-Old m t u c x [] r s room =
      let e : ltb (suc (length c)) (length (c ++ (x ∷ []))) ≡ false =
        ground (arith, length-append c (x ∷ [])) in
      (
        (id_of u, m),
        rw e,
        record { id_eq = refl; rep = r; spares = Spares-refl m t s; next = refl },
      )
  old_child-Old m t u c x (z ∷ left) r s room =
      let w = extension (length m.nodes) (encoded (z ∷ left) false) u in
      let d = data_of w in
      let e : ltb (suc (length c)) (length (c ++ (x ∷ z ∷ left))) ≡ true =
        ground (arith, length-append c (x ∷ z ∷ left)) in
      (
        (length m.nodes, grown m d),
        rw (
          e,
          drop-suc-append c (z ∷ left) x,
          to_encoded_path-encoded {E = Error} (z ∷ left) false,
          add_node-grown m d (omega arith),
        ),
        record {
          id_eq = refl;
          rep = (grown-Holds ref m w s refl, grown-Rep ref m d u s r);
          spares = Spares-grown m t m d (Spares-refl m t s) (omega arith);
          next = length-grown m d;
        },
      )

  next_after-le : (n : ℕ) (left : List ℕ) → next_after n left ≤ suc n
  unfolding next_after
  next_after-le n [] = omega arith
  next_after-le n (z ∷ left) = omega arith

  pub split_extension-fork :
      (m : Mpt) (t u : Tree) (c : List ℕ) (x : ℕ) (left : List ℕ) (y : ℕ) (right v : List ℕ)
      → Rep ref m u
      → IsSized m
      → HasRoom m
      → Sim
          (Pending ref m t)
          (split_extension m (id_of t) (c ++ (x ∷ left)) (c ++ (y ∷ right)) (length c) (id_of u) v)
          (fork
            (id_of t)
            c
            x
            (rest_of (length m.nodes) left u)
            y
            (leaf (next_after (length m.nodes) left) (encoded right true) v)
            (suc (next_after (length m.nodes) left)))
  unfolding split_extension fork
  split_extension-fork m t u c x left y right v r s room =
      let ((id, m1), e, o) = old_child-Old m t u c x left r s room in
      let t1 = rest_of (length m.nodes) left u in
      let t2 = leaf (length m1.nodes) (encoded right true) v in
      let d = data_of t2 in
      let m2 = grown m1 d in
      let l2 = length-grown m1 d in
      let lt = next_after-le (length m.nodes) left in
      let s1 = o.spares.sized in
      let r2 : Rep ref m2 t2 = grown-Holds ref m1 t2 s1 refl in
      let sp2 = Spares-grown m t m1 d o.spares (omega (arith, o.next)) in
      rw
        (
          e,
          ← o.next,
          ← l2,
          drop-suc-append c right y,
          to_encoded_path-encoded {E = Error} right true,
          add_node-grown m1 d (omega (arith, o.next)),
          get_elem?-append_mid c left x,
          get_elem?-append_mid c right y,
          o.id_eq,
        )
        (bind (put_child-put_kid ref m1 no_children all_absent x t1 (refl, tt) o.rep) λ c1 k1 h1.
          bind (put_child-put_kid ref m2 c1 k1 y t2 (h1.0, grown-KidsRep ref m1 d k1 s1 h1.1) r2)
            λ c2 k2 h2.
              replace_by_branch-wrap ref m m2 t c (x ∷ left) c2 k2 h2 sp2 (omega (arith, o.next))
                (omega (arith, o.next)))
