-- ===== src/Trie/Refine/Insert.antt =====
-- `insert_internal` carries out `tree_insert` on the arena.
use ceno_reth_benchmark.Base.{
  ℕ, zero, suc, ◌≤◌, ◌≡◌, refl, sym, subst, ◌∙◌, ap, Bool, true, false, Option, none, some, List,
  [], ◌∷◌, ◌++◌, arith, length, All, All-append_right, get_elem?, lt→ltb,
}
use ceno_reth_benchmark.Base.Result.{
  ok, unwrap, ◌>>=◌, Sim, sim_ok, sim_err, sim_panic, Ensures, Ensures-mono, Sim-both,
}
use ceno_reth_benchmark.Hp.{to_encoded_path, prefix_to_nibs, IsNib}
use ceno_reth_benchmark.Hp.Encode.{encoded, to_encoded_path-encoded}
use ceno_reth_benchmark.Hp.Lcp.{Apart, align, lcp-append}
use ceno_reth_benchmark.Trie.{Error, Mpt, NodeData, NodeRef, set_node, put_child, finish}
use ceno_reth_benchmark.Trie.Insert.{
  Updates, Insert, insert_leaf, insert_extension, insert_child, insert_node, insert_internal,
}
use ceno_reth_benchmark.Trie.Tree.{
  Tree, null, branch, leaf, extension, Kids, end, absent, child, id_of, data_of, slots, height,
  kids_height, Wf, KidsWf, Rep, KidsRep,
}
use ceno_reth_benchmark.Trie.Spec.{
  Changed, KidsChanged, leaf_insert, extension_insert, tree_insert, kids_insert,
}
use ceno_reth_benchmark.Trie.Spec.InsertWf.{Grows, tree_insert-Grows}
use ceno_reth_benchmark.Trie.Slots.{
  kid_at, put, slots-kid_at, ids?, slots-put, slots-put_same, put_self, kid_at_lt, kid_at-Inside,
  put-Rep, put_free-Rep,
}
use ceno_reth_benchmark.Trie.Slots.Steps.{insert_at, kids_insert_step}
use ceno_reth_benchmark.Trie.Arena.{
  IsSized, HasRoom, add_node-grown, grown, grown-SameAt, mem-lt, kids_mem-lt,
}
use ceno_reth_benchmark.Trie.Refine.Post.{
  Spares-refl, Spares-grown, Follows, Pending, round-Follows, kept_node, resolved,
}
use ceno_reth_benchmark.Trie.Refine.Fork.{grown-Holds}
use ceno_reth_benchmark.Trie.Refine.Split.{
  insert_leaf-leaf_insert, split_extension-fork, at_end-nil, at_end-cons,
}
use ceno_reth_benchmark.Base.{drop-append}

-- What a change keeps of a subtree, for the node above.
abbrev pub Stays : Tree → Bool × Tree → Type 0
Stays t b = (id_of b.1 ≡ id_of t) × (b.0 ≡ false → b.1 ≡ t)

abbrev replaced : Kids → ℕ → Bool × Tree → KidsChanged
replaced ks x b = ok (b.0, put ks x (some b.1))

module _ (ref : Tree → NodeRef) (m : Mpt) (sized : IsSized m) (room : HasRoom m) where
  abbrev Both : Tree → Bool × Mpt → Bool × Tree → Type 0
  Both u a b = Follows ref m u a b × Stays u b

  -- A change below an extension, which stays as it is.
  extension_back :
      (i : ℕ) (p : List ℕ) (u : Tree) {r : Updates} {s : Changed}
      → Rep ref m (extension i p u)
      → Wf (extension i p u)
      → Sim (Both u) r s
      → Sim (Pending ref m (extension i p u)) r (s >>= λ b. ok (b.0, extension i p b.1))
  extension_back i p u rep w (sim_ok {a = (true, m')} {b = (true, u')} (f, st)) = sim_ok (
      kept_node ref m m' (extension i p u) u (extension i p u') rep (ap (NodeData.extension p) st.0)
        f.spares w.1 (λ j h. ground arith) f.rep)
  extension_back i p u rep w (sim_ok {a = (true, m')} {b = (false, u')} (f, st)) = cc (f.flag)
  extension_back i p u rep w (sim_ok {a = (false, m')} {b = (true, u')} (f, st)) = cc (f.flag)
  extension_back i p u rep w (sim_ok {a = (false, m')} {b = (false, u')} (f, st)) =
      sim_ok (f.same refl, ap (extension i p) (st.1 refl))
  extension_back i p u rep w sim_err = sim_err
  extension_back i p u rep w sim_panic = sim_panic

  insert_extension-extension_insert :
      (rec : Insert) (rec' : List ℕ → Changed) (i : ℕ) (p c left right v : List ℕ) (u : Tree)
      → prefix_to_nibs p ≡ c ++ left
      → Apart left right
      → Rep ref m (extension i p u)
      → Wf (extension i p u)
      → Sim (Both u) (rec m (id_of u) right v) (rec' right)
      → Sim
          (Pending ref m (extension i p u))
          (insert_extension rec m i p (id_of u) (c ++ right) v)
          (extension_insert i p u rec' v (length m.nodes) c left right)
  unfolding insert_extension extension_insert
  insert_extension-extension_insert rec rec' i p c [] right v u e a rep w h =
      rw (e, lcp-append c [] right a, at_end-nil c, drop-append c right)
        (extension_back i p u rep w h)
  insert_extension-extension_insert rec rec' i p c (x ∷ left) [] v u e a rep w h =
      rw (e, lcp-append c (x ∷ left) [] a, at_end-nil c, at_end-cons c x left) sim_err
  insert_extension-extension_insert rec rec' i p c (x ∷ left) (y ∷ right) v u e a rep w h =
      rw (e, lcp-append c (x ∷ left) (y ∷ right) a, at_end-cons c x left, at_end-cons c y right)
        (split_extension-fork ref m (extension i p u) u c x left y right v rep.1 sized room)

  -- A change below a branch, which stays as it is.
  branch_back :
      (i : ℕ) (ks : Kids) (x : ℕ) (u : Tree) {r : Updates} {s : Changed}
      → Rep ref m (branch i ks)
      → Wf (branch i ks)
      → kid_at ks x ≡ some (some u)
      → Sim (Both u) r s
      → Sim (Pending ref m (branch i ks)) r ((s >>= replaced ks x) >>= λ b. ok (b.0, branch i b.1))
  branch_back i ks x u rep w e (sim_ok {a = (true, m')} {b = (true, u')} (f, st)) =
      let k = kid_at-Inside ks x u w.2 e in
      sim_ok (
        kept_node ref m m' (branch i ks) u (branch i (put ks x (some u'))) rep
          (ap NodeData.branch (slots-put_same ks x u u' e st.0)) f.spares
          (ground (arith, k.mem_kids i, w.1)) (λ j h. ground (arith, k.mem_kids j h))
          (put-Rep ref m m' ks x u u' rep.1 w.2 e
            (λ j h o. f.spares.outside j (kids_mem-lt ref m ks j rep.1 h) o) f.rep))
  branch_back i ks x u rep w e (sim_ok {a = (true, m')} {b = (false, u')} (f, st)) = cc (f.flag)
  branch_back i ks x u rep w e (sim_ok {a = (false, m')} {b = (true, u')} (f, st)) = cc (f.flag)
  branch_back i ks x u rep w e (sim_ok {a = (false, m')} {b = (false, u')} (f, st)) =
      sim_ok
        (f.same refl, ap (branch i) (ap (λ w. put ks x (some w)) (st.1 refl) ∙ put_self ks x u e))
  branch_back i ks x u rep w e sim_err = sim_err
  branch_back i ks x u rep w e sim_panic = sim_panic

  branch_insert_at :
      (rec : Insert) (i : ℕ) (ks : Kids) (x : ℕ) (tail v : List ℕ) (o : Option (Option Tree))
      → Rep ref m (branch i ks)
      → Wf (branch i ks)
      → kid_at ks x ≡ o
      → ((u : Tree)
          → o ≡ some (some u)
          → Sim (Both u) (rec m (id_of u) tail v) (tree_insert u tail v (length m.nodes)))
      → Sim
          (Pending ref m (branch i ks))
          (unwrap (ids? o) >>= insert_child rec m i (slots ks) x tail v)
          (insert_at ks x tail v (length m.nodes) o >>= λ b. ok (b.0, branch i b.1))
  unfolding insert_child put_child
  branch_insert_at rec i ks x tail v none rep w e h = sim_panic
  branch_insert_at rec i ks x tail v (some none) rep w e h =
      let t = leaf (length m.nodes) (encoded tail true) v in
      let m' = grown m (data_of t) in
      rw
        (
          to_encoded_path-encoded {E = Error} tail true,
          add_node-grown m (data_of t) (omega arith),
          lt→ltb x (length (slots ks)) (kid_at_lt ks x e),
        )
        (sim_ok (record {
          before = m';
          write = ap (λ l. set_node m' i (NodeData.branch l)) (sym (slots-put ks x (some t)));
          below =
              put_free-Rep ref m m' ks x t rep.1 e
                (λ j q. grown-SameAt m (data_of t) j sized (kids_mem-lt ref m ks j rep.1 q))
                (grown-Holds ref m t sized refl);
          spares =
              Spares-grown m (branch i ks) m (data_of t) (Spares-refl m (branch i ks) sized)
                (omega arith);
        }))
  branch_insert_at rec i ks x tail v (some (some u)) rep w e h =
      branch_back i ks x u rep w e (h u refl)

  branch_insert :
      (rec : Insert) (i : ℕ) (ks : Kids) (x : ℕ) (tail v : List ℕ)
      → Rep ref m (branch i ks)
      → Wf (branch i ks)
      → ((u : Tree)
          → kid_at ks x ≡ some (some u)
          → Sim (Both u) (rec m (id_of u) tail v) (tree_insert u tail v (length m.nodes)))
      → Sim
          (Pending ref m (branch i ks))
          (unwrap (get_elem? (slots ks) x) >>= insert_child rec m i (slots ks) x tail v)
          (kids_insert ks x tail v (length m.nodes) >>= λ b. ok (b.0, branch i b.1))
  branch_insert rec i ks x tail v rep w h =
      rw (slots-kid_at ks x, kids_insert_step ks x tail v (length m.nodes))
        (branch_insert_at rec i ks x tail v (kid_at ks x) rep w refl h)

  null_insert :
      (i : ℕ) (key v : List ℕ)
      → Sim {E = Error}
          (Pending ref m (null i))
          (to_encoded_path key true >>= λ path. ok (true, set_node m i (NodeData.leaf path v)))
          (ok (true, leaf i (encoded key true) v))
  null_insert i key v = rw (to_encoded_path-encoded {E = Error} key true) (
      sim_ok
        (record { before = m; write = refl; below = tt; spares = Spares-refl m (null i) sized }))

  -- What the round needs of the tree operation.
  grows :
      (t : Tree) (key v : List ℕ)
      → Rep ref m t
      → Wf t
      → All IsNib key
      → Ensures (Grows (length m.nodes) t) (tree_insert t key v (length m.nodes))
  grows t key v r w nk =
      tree_insert-Grows t key v (length m.nodes) (λ j h. mem-lt ref m t j r h) w nk

  round :
      (t : Tree) (key v : List ℕ) {r : Updates}
      → Sim (Pending ref m t) r (tree_insert t key v (length m.nodes))
      → Rep ref m t
      → Wf t
      → All IsNib key
      → Sim (Follows ref m t) (r >>= finish (id_of t)) (tree_insert t key v (length m.nodes))
  round t key v h rep w nk =
      round-Follows ref m t h (Ensures-mono (grows t key v rep w nk) λ a g. (g.wf, g.id)) rep sized

  both :
      (t : Tree) (key v : List ℕ) {r : Updates}
      → Sim (Follows ref m t) r (tree_insert t key v (length m.nodes))
      → Rep ref m t
      → Wf t
      → All IsNib key
      → Sim (Both t) r (tree_insert t key v (length m.nodes))
  both t key v h rep w nk = Sim-both h (Ensures-mono (grows t key v rep w nk) λ a g. (g.id, g.same))

  mutual
    unfolding insert_internal insert_node tree_insert kid_at

    insert_ref :
        (t : Tree) (fuel : ℕ) (key v : List ℕ)
        → height t ≤ fuel
        → Rep ref m t
        → Wf t
        → All IsNib key
        → Sim
            (Follows ref m t)
            (insert_internal fuel m (id_of t) key v)
            (tree_insert t key v (length m.nodes))
    insert_ref (null i) zero key v h r w nk = absurd (omega arith)
    insert_ref (null i) (suc f) key v h r w nk =
        rw r.at (round (null i) key v (null_insert i key v) r w nk)
    insert_ref (branch i ks) zero key v h r w nk = absurd (omega arith)
    insert_ref (branch i ks) (suc f) [] v h r w nk = rw r.0.at sim_err
    insert_ref (branch i ks) (suc f) (x ∷ key) v h r w nk = rw r.0.at (
        round (branch i ks) (x ∷ key) v
          (branch_insert (λ m id q v. insert_internal f m id q v) i ks x key v r w
            λ u e. kid_ref ks x u f key v e (omega arith) r.1 w.2 nk.1)
          r w nk)
    insert_ref (leaf i p old) zero key v h r w nk = absurd (omega arith)
    insert_ref (leaf i p old) (suc f) key v h r w nk =
        let a = align (prefix_to_nibs p) key in
        rw r.at (
          round (leaf i p old) key v
            (subst
              (λ k.
                Sim (Pending ref m (leaf i p old)) (insert_leaf m i p old k v)
                  (leaf_insert i p old v (length m.nodes) a.common a.left a.right))
              (sym a.right_eq)
              (insert_leaf-leaf_insert ref m i p a.common a.left a.right old v a.left_eq a.apart
                sized room))
            r w nk)
    insert_ref (extension i p t) zero key v h r w nk = absurd (omega arith)
    insert_ref (extension i p t) (suc f) key v h r w nk =
        let a = align (prefix_to_nibs p) key in
        let nr = All-append_right IsNib a.common a.right (subst (All IsNib) a.right_eq nk) in
        rw r.0.at (
          round (extension i p t) key v
            (subst
              (λ k.
                Sim (Pending ref m (extension i p t))
                  (insert_extension (λ m id q v. insert_internal f m id q v) m i p (id_of t) k v)
                  (extension_insert i p t (λ k. tree_insert t k v (length m.nodes)) v
                    (length m.nodes) a.common a.left a.right))
              (sym a.right_eq)
              (insert_extension-extension_insert (λ m id q v. insert_internal f m id q v)
                (λ k. tree_insert t k v (length m.nodes)) i p a.common a.left a.right v t a.left_eq
                a.apart r w
                (both t a.right v (insert_ref t f a.right v (omega arith) r.1 w.2 nr) r.1 w.2 nr)))
            r w nk)
    insert_ref (Tree.digest i d) zero key v h r w nk = absurd (omega arith)
    insert_ref (Tree.digest i d) (suc f) key v h r w nk =
        rw r.at (round (Tree.digest i d) key v (resolved d) r w nk)

    kid_ref :
        (ks : Kids) (x : ℕ) (u : Tree) (fuel : ℕ) (key v : List ℕ)
        → kid_at ks x ≡ some (some u)
        → kids_height ks ≤ fuel
        → KidsRep ref m ks
        → KidsWf ks
        → All IsNib key
        → Sim
            (Both u)
            (insert_internal fuel m (id_of u) key v)
            (tree_insert u key v (length m.nodes))
    kid_ref end x u f key v e h r w nk = cc
    kid_ref (absent ks) zero u f key v e h r w nk = cc
    kid_ref (absent ks) (suc x) u f key v e h r w nk = kid_ref ks x u f key v e h r w nk
    kid_ref (child t ks) zero u f key v e h r w nk =
        let q : t ≡ u = cc in
        subst
          (λ u.
            Sim (Both u) (insert_internal f m (id_of u) key v)
              (tree_insert u key v (length m.nodes)))
          q (both t key v (insert_ref t f key v (omega arith) r.0 w.0 nk) r.0 w.0 nk)
    kid_ref (child t ks) (suc x) u f key v e h r w nk =
        kid_ref ks x u f key v e (omega arith) r.1 w.1 nk

  -- In an arena with room for three nodes that represents a well formed tree, with fuel for the
  -- tree's height and a key of nibbles, `insert_internal` ends as the insertion into the tree does: with
  -- the same error or panic, or with the same flag and an arena that represents the new tree, with no
  -- stale reference in the cache; no index outside the tree is written, and with the flag down the arena is the old one.
  pub insert_internal-Follows :
      (t : Tree) (fuel : ℕ) (key v : List ℕ)
      → height t ≤ fuel
      → Rep ref m t
      → Wf t
      → All IsNib key
      → Sim
          (Follows ref m t)
          (insert_internal fuel m (id_of t) key v)
          (tree_insert t key v (length m.nodes))
  insert_internal-Follows t fuel key v h r w nk = insert_ref t fuel key v h r w nk
