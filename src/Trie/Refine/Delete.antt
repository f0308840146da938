-- ===== src/Trie/Refine/Delete.antt =====
-- `delete_internal` carries out `tree_delete` on the arena.
use ceno_reth_benchmark.Base.{
  ℕ, zero, suc, ◌≤◌, ◌≡◌, refl, sym, subst, ap, Bool, true, false, Option, none, some, List, [],
  ◌∷◌, arith, length, if◌then◌else◌, get_elem?, lt→ltb, bytes_eq,
}
use ceno_reth_benchmark.Base.Result.{
  ok, unwrap, ◌>>=◌, Sim, sim_ok, sim_err, sim_panic, Ensures-mono, Sim-both,
}
use ceno_reth_benchmark.Hp.{prefix_to_nibs}
use ceno_reth_benchmark.Hp.Compare.{strip_prefix}
use ceno_reth_benchmark.Trie.{Error, Mpt, NodeData, NodeRef, set_node, put_child, finish}
use ceno_reth_benchmark.Trie.Insert.{Updates}
use ceno_reth_benchmark.Trie.Delete.{
  remaining, shrink, Delete, after_child, delete_child, after_extension, delete_extension,
  delete_node, delete_internal,
}
use ceno_reth_benchmark.Trie.Delete
use ceno_reth_benchmark.Trie.Tree.{
  Tree, null, branch, leaf, extension, Kids, end, absent, child, mem, kids_mem, id_of, data_of,
  slots, height, kids_height, Wf, KidsWf, Rep, KidsRep,
}
use ceno_reth_benchmark.Trie.Spec.{
  Changed, live, branch_delete, extension_delete, delete_below, tree_delete, kids_delete,
}
use ceno_reth_benchmark.Trie.Spec.DeleteWf.{tree_delete-Keeps}
use ceno_reth_benchmark.Trie.Slots.{
  kid_at, put, slots-kid_at, ids?, slots-put, slots-put_same, kid_at_lt, kid_at-Inside, put-Rep,
  put_empty-Rep,
}
use ceno_reth_benchmark.Trie.Slots.Steps.{delete_at, kids_delete_step, left_of, put_back}
use ceno_reth_benchmark.Trie.Arena.{SameAt, IsSized, kids_mem-lt, Rep-Holds}
use ceno_reth_benchmark.Trie.Refine.Post.{
  Spares-refl, Spares-part, Follows, Pending, round-Follows, resolved,
}
use ceno_reth_benchmark.Trie.Refine.Merge.{remaining-slots, shrink-shrunk, join-joined, merge_write}
use ceno_reth_benchmark.Trie.Refine.Insert.{Stays}

module _ (ref : Tree → NodeRef) (m : Mpt) (sized : IsSized m) where
  abbrev Both : Tree → Bool × Mpt → Bool × Tree → Type 0
  Both u a b = Follows ref m u a b × Stays u b

  extension_back :
      (i : ℕ) (p : List ℕ) (u : Tree) {r : Updates} {s : Changed}
      → Sim (Both u) r s
      → Sim
          (Pending ref m (extension i p u))
          (r >>= after_extension i p (id_of u))
          (s >>= extension_delete i p u)
  unfolding after_extension extension_delete
  extension_back i p u (sim_ok {a = (true, m')} {b = (true, u')} (f, st)) =
      let sp = Spares-part m u (extension i p u) m' f.spares λ j h. ground arith in
      rw (← st.0, (Rep-Holds ref m' u' f.rep).at)
        (merge_write ref m m' (extension i p u) sp (join-joined ref m' i p u' f.rep))
  extension_back i p u (sim_ok {a = (true, m')} {b = (false, u')} (f, st)) = cc (f.flag)
  extension_back i p u (sim_ok {a = (false, m')} {b = (true, u')} (f, st)) = cc (f.flag)
  extension_back i p u (sim_ok {a = (false, m')} {b = (false, u')} (f, st)) =
      sim_ok (f.same refl, refl)
  extension_back i p u sim_err = sim_err
  extension_back i p u sim_panic = sim_panic

  -- The slots of the branch once the child was changed.
  cleared :
      (ks : Kids) (x : ℕ) (u u' : Tree)
      → kid_at ks x ≡ some (some u)
      → id_of u' ≡ id_of u
      → (if Delete.is_null (data_of u') then put_child (slots ks) x none else ok (slots ks))
        ≡ ok (slots (put ks x (left_of u')))
  unfolding put_child
  cleared ks x u (null j) e h =
      rw (lt→ltb x (length (slots ks)) (kid_at_lt ks x e), slots-put ks x none)
  cleared ks x u (branch j ls) e h = ap ok (sym (slots-put_same ks x u (branch j ls) e h))
  cleared ks x u (leaf j p v) e h = ap ok (sym (slots-put_same ks x u (leaf j p v) e h))
  cleared ks x u (extension j p t) e h = ap ok (sym (slots-put_same ks x u (extension j p t) e h))
  cleared ks x u (Tree.digest j d) e h = ap ok (sym (slots-put_same ks x u (Tree.digest j d) e h))

  cleared-Rep :
      (m' : Mpt) (ks : Kids) (x : ℕ) (u u' : Tree)
      → KidsRep ref m ks
      → KidsWf ks
      → kid_at ks x ≡ some (some u)
      → ((j : ℕ) → kids_mem j ks ≡ true → mem j u ≡ false → SameAt m m' j)
      → Rep ref m' u'
      → KidsRep ref m' (put ks x (left_of u'))
  cleared-Rep m' ks x u (null j) r w e s q = put_empty-Rep ref m m' ks x u r w e s
  cleared-Rep m' ks x u (branch j ls) r w e s q = put-Rep ref m m' ks x u (branch j ls) r w e s q
  cleared-Rep m' ks x u (leaf j p v) r w e s q = put-Rep ref m m' ks x u (leaf j p v) r w e s q
  cleared-Rep m' ks x u (extension j p t) r w e s q =
      put-Rep ref m m' ks x u (extension j p t) r w e s q
  cleared-Rep m' ks x u (Tree.digest j d) r w e s q =
      put-Rep ref m m' ks x u (Tree.digest j d) r w e s q

  branch_back :
      (i : ℕ) (ks : Kids) (x : ℕ) (u : Tree) {r : Updates} {s : Changed}
      → Rep ref m (branch i ks)
      → Wf (branch i ks)
      → kid_at ks x ≡ some (some u)
      → Sim (Both u) r s
      → Sim
          (Pending ref m (branch i ks))
          (r >>= after_child i (slots ks) x (id_of u))
          ((s >>= put_back ks x) >>= branch_delete i ks)
  unfolding after_child branch_delete
  branch_back i ks x u rep w e (sim_ok {a = (true, m')} {b = (true, u')} (f, st)) =
      let k = kid_at-Inside ks x u w.2 e in
      let sp = Spares-part m u (branch i ks) m' f.spares λ j h. ground (arith, k.mem_kids j h) in
      let ks' = put ks x (left_of u') in
      let kr =
        cleared-Rep m' ks x u u' rep.1 w.2 e
          (λ j h o. f.spares.outside j (kids_mem-lt ref m ks j rep.1 h) o) f.rep in
      rw (← st.0, (Rep-Holds ref m' u' f.rep).at, cleared ks x u u' e st.0, remaining-slots 0 ks')
        (shrink-shrunk ref m m' (branch i ks) ks' (live 0 ks') refl sp kr)
  branch_back i ks x u rep w e (sim_ok {a = (true, m')} {b = (false, u')} (f, st)) = cc (f.flag)
  branch_back i ks x u rep w e (sim_ok {a = (false, m')} {b = (true, u')} (f, st)) = cc (f.flag)
  branch_back i ks x u rep w e (sim_ok {a = (false, m')} {b = (false, u')} (f, st)) =
      sim_ok (f.same refl, refl)
  branch_back i ks x u rep w e sim_err = sim_err
  branch_back i ks x u rep w e sim_panic = sim_panic

  branch_delete_at :
      (rec : Delete) (i : ℕ) (ks : Kids) (x : ℕ) (tail : List ℕ) (o : Option (Option Tree))
      → Rep ref m (branch i ks)
      → Wf (branch i ks)
      → kid_at ks x ≡ o
      → ((u : Tree) → o ≡ some (some u) → Sim (Both u) (rec m (id_of u) tail) (tree_delete u tail))
      → Sim
          (Pending ref m (branch i ks))
          (unwrap (ids? o) >>= delete_child rec m i (slots ks) x tail)
          (delete_at ks x tail o >>= branch_delete i ks)
  unfolding delete_child branch_delete
  branch_delete_at rec i ks x tail none rep w e h = sim_panic
  branch_delete_at rec i ks x tail (some none) rep w e h = sim_ok (refl, refl)
  branch_delete_at rec i ks x tail (some (some u)) rep w e h =
      branch_back i ks x u rep w e (h u refl)

  branch_delete-lem :
      (rec : Delete) (i : ℕ) (ks : Kids) (x : ℕ) (tail : List ℕ)
      → Rep ref m (branch i ks)
      → Wf (branch i ks)
      → ((u : Tree)
          → kid_at ks x ≡ some (some u)
          → Sim (Both u) (rec m (id_of u) tail) (tree_delete u tail))
      → Sim
          (Pending ref m (branch i ks))
          (unwrap (get_elem? (slots ks) x) >>= delete_child rec m i (slots ks) x tail)
          (kids_delete ks x tail >>= branch_delete i ks)
  branch_delete-lem rec i ks x tail rep w h =
      rw (slots-kid_at ks x, kids_delete_step ks x tail)
        (branch_delete_at rec i ks x tail (kid_at ks x) rep w refl h)

  leaf_delete :
      (i : ℕ) (p v : List ℕ) (same : Bool)
      → Sim {E = Error}
          (Pending ref m (leaf i p v))
          (if same then ok (true, set_node m i NodeData.null) else ok (false, m))
          (if same then ok (true, null i) else ok (false, leaf i p v))
  leaf_delete i p v true =
      sim_ok
        (record { before = m; write = refl; below = tt; spares = Spares-refl m (leaf i p v) sized })
  leaf_delete i p v false = sim_ok (refl, refl)

  extension_delete-lem :
      (rec : Delete) (i : ℕ) (p : List ℕ) (u : Tree) (o : Option (List ℕ))
      → ((tail : List ℕ) → o ≡ some tail → Sim (Both u) (rec m (id_of u) tail) (tree_delete u tail))
      → Sim
          (Pending ref m (extension i p u))
          (delete_extension rec m i p (id_of u) o)
          (delete_below (extension i p u) (λ k. tree_delete u k >>= extension_delete i p u) o)
  unfolding delete_extension
  extension_delete-lem rec i p u none h = sim_ok (refl, refl)
  extension_delete-lem rec i p u (some tail) h = extension_back i p u (h tail refl)

  round :
      (t : Tree) (key : List ℕ) {r : Updates}
      → Sim (Pending ref m t) r (tree_delete t key)
      → Rep ref m t
      → Wf t
      → Sim (Follows ref m t) (r >>= finish (id_of t)) (tree_delete t key)
  round t key h rep w =
      round-Follows ref m t h (Ensures-mono (tree_delete-Keeps t key w) λ a g. (g.wf, g.id)) rep
        sized

  both :
      (t : Tree) (key : List ℕ) {r : Updates}
      → Sim (Follows ref m t) r (tree_delete t key)
      → Wf t
      → Sim (Both t) r (tree_delete t key)
  both t key h w = Sim-both h (Ensures-mono (tree_delete-Keeps t key w) λ a g. (g.id, g.same))

  mutual
    unfolding delete_internal delete_node tree_delete kid_at

    delete_ref :
        (t : Tree) (fuel : ℕ) (key : List ℕ)
        → height t ≤ fuel
        → Rep ref m t
        → Wf t
        → Sim (Follows ref m t) (delete_internal fuel m (id_of t) key) (tree_delete t key)
    delete_ref (null i) zero key h r w = absurd (omega arith)
    delete_ref (null i) (suc f) key h r w =
        rw r.at
          (round (null i) key (sim_ok {a = (false, m)} {b = (false, null i)} (refl, refl)) r w)
    delete_ref (branch i ks) zero key h r w = absurd (omega arith)
    delete_ref (branch i ks) (suc f) [] h r w = rw r.0.at sim_err
    delete_ref (branch i ks) (suc f) (x ∷ key) h r w = rw r.0.at (
        round (branch i ks) (x ∷ key)
          (branch_delete-lem (λ m id q. delete_internal f m id q) i ks x key r w
            λ u e. kid_ref ks x u f key e (omega arith) r.1 w.2)
          r w)
    delete_ref (leaf i p v) zero key h r w = absurd (omega arith)
    delete_ref (leaf i p v) (suc f) key h r w =
        rw r.at (round (leaf i p v) key (leaf_delete i p v (bytes_eq (prefix_to_nibs p) key)) r w)
    delete_ref (extension i p t) zero key h r w = absurd (omega arith)
    delete_ref (extension i p t) (suc f) key h r w = rw r.0.at (
        round (extension i p t) key
          (extension_delete-lem (λ m id q. delete_internal f m id q) i p t
            (strip_prefix (prefix_to_nibs p) key)
            λ tail e. both t tail (delete_ref t f tail (omega arith) r.1 w.2) w.2)
          r w)
    delete_ref (Tree.digest i d) zero key h r w = absurd (omega arith)
    delete_ref (Tree.digest i d) (suc f) key h r w =
        rw r.at (round (Tree.digest i d) key (resolved d) r w)

    kid_ref :
        (ks : Kids) (x : ℕ) (u : Tree) (fuel : ℕ) (key : List ℕ)
        → kid_at ks x ≡ some (some u)
        → kids_height ks ≤ fuel
        → KidsRep ref m ks
        → KidsWf ks
        → Sim (Both u) (delete_internal fuel m (id_of u) key) (tree_delete u key)
    kid_ref end x u f key e h r w = cc
    kid_ref (absent ks) zero u f key e h r w = cc
    kid_ref (absent ks) (suc x) u f key e h r w = kid_ref ks x u f key e h r w
    kid_ref (child t ks) zero u f key e h r w =
        let q : t ≡ u = cc in
        subst (λ u. Sim (Both u) (delete_internal f m (id_of u) key) (tree_delete u key)) q
          (both t key (delete_ref t f key (omega arith) r.0 w.0) w.0)
    kid_ref (child t ks) (suc x) u f key e h r w = kid_ref ks x u f key e (omega arith) r.1 w.1

  -- In an arena that represents a well formed tree, with fuel for the tree's height,
  -- `delete_internal` ends as the deletion from the tree does: with the same error or panic, or with the
  -- same flag and an arena that represents the new tree, with no stale reference in the cache; no index outside the tree is written, and with
  -- the flag down the arena is the old one.
  pub delete_internal-Follows :
      (t : Tree) (fuel : ℕ) (key : List ℕ)
      → height t ≤ fuel
      → Rep ref m t
      → Wf t
      → Sim (Follows ref m t) (delete_internal fuel m (id_of t) key) (tree_delete t key)
  delete_internal-Follows t fuel key h r w = delete_ref t fuel key h r w
