-- ===== src/Trie/Refine/Post.antt =====
-- What an operation on the arena leaves behind, before and after `finish`.
use ceno_reth_benchmark.Base.{
  ℕ, ◌+◌, ◌≤◌, ◌<◌, ◌≡◌, refl, sym, subst, ◌∙◌, ap, ◌≢◌, inl, Bool, true, false, none, some, List,
  arith, if◌then◌else◌, ◌==◌, length, length-set, set_self,
}
use ceno_reth_benchmark.Base.Result.{
  Result, ok, err, panic, ◌>>=◌, Sim, sim_ok, sim_err, sim_panic, Ensures, on_ok,
}
use ceno_reth_benchmark.Trie.{not_resolved, Error, Mpt, NodeData, NodeRef, set_node, finish}
use ceno_reth_benchmark.Trie.Tree.{
  Tree, null, branch, leaf, extension, mem, id_of, data_of, cell, Wf, Rep,
}
use ceno_reth_benchmark.Trie.Arena.{
  SameAt, IsSized, forgot, invalidate-forgot, forgot-SameAt, memo-forgot, Below, Below-frame,
  Rep-of, cell_lt, set_node-SameAt, cell-set_node, SameAt-trans, Rep-Holds, grown, grown-SameAt,
  grown-IsSized, length-grown,
}

set_node_self : (m : Mpt) (i : ℕ) (d : NodeData) → cell m i ≡ some d → set_node m i d ≡ m
set_node_self m i d e = ap (λ l. record m { nodes = l }) (set_self m.nodes i e)

-- Nothing but the tree's own indices and new ones is touched.
pub record Spares (m : Mpt) (t : Tree) (m' : Mpt) : Type 0 where
  pub outside : (j : ℕ) → j < length m.nodes → mem j t ≡ false → SameAt m m' j
  pub grows : length m.nodes ≤ length m'.nodes
  pub few : length m'.nodes ≤ length m.nodes + 3
  pub sized : IsSized m'
  pub root : m'.root_id ≡ m.root_id

pub Spares-refl : (m : Mpt) (t : Tree) → IsSized m → Spares m t m
Spares-refl m t s = record {
  outside = λ j h o. (refl, refl);
  grows = omega arith;
  few = omega arith;
  sized = s;
  root = refl;
}

-- A change inside a part of the tree.
pub Spares-part :
    (m : Mpt) (u t : Tree) (m' : Mpt)
    → Spares m u m'
    → ((j : ℕ) → mem j u ≡ true → mem j t ≡ true)
    → Spares m t m'
Spares-part m u t m' s h = record {
  outside = λ j l o. s.outside j l (ground (arith, h j));
  grows = s.grows;
  few = s.few;
  sized = s.sized;
  root = s.root;
}

pub Spares-grown :
    (m : Mpt) (t : Tree) (m' : Mpt) (d : NodeData)
    → Spares m t m'
    → length m'.nodes < length m.nodes + 3
    → Spares m t (grown m' d)
Spares-grown m t m' d s h = record {
  outside = λ j l o.
      SameAt-trans m m' (grown m' d) j (s.outside j l o)
        (grown-SameAt m' d j s.sized (omega (arith, s.grows)));
  grows = omega (arith, s.grows, length-grown m' d);
  few = omega (arith, length-grown m' d);
  sized = grown-IsSized m' d s.sized;
  root = s.root;
}

pub Spares-set_node :
    (m : Mpt) (t : Tree) (m' : Mpt) (d : NodeData)
    → Spares m t m'
    → mem (id_of t) t ≡ true
    → Spares m t (set_node m' (id_of t) d)
Spares-set_node m t m' d s own = record {
  outside = λ j l o.
      SameAt-trans m m' (set_node m' (id_of t) d) j (s.outside j l o)
        (set_node-SameAt m' (id_of t) d j λ q. cc (q, own, o));
  grows = omega (arith, s.grows, length-set m'.nodes (id_of t) d);
  few = omega (arith, s.few, length-set m'.nodes (id_of t) d);
  sized = omega (arith, s.sized, length-set m'.nodes (id_of t) d);
  root = s.root;
}

pub mem-id_of : (t : Tree) → mem (id_of t) t ≡ true
mem-id_of (null i) = ground arith
mem-id_of (branch i ks) = ground arith
mem-id_of (leaf i p v) = ground arith
mem-id_of (extension i p t) = ground arith
mem-id_of (Tree.digest i d) = ground arith

pub resolved :
    (d : List ℕ) {Q : Bool × Mpt → Bool × Tree → Type 0}
    → Sim {E = Error} Q (not_resolved d) (not_resolved d)
unfolding not_resolved
resolved d {Q} = go (length d == 32)
  where
    go :
        (b : Bool)
        → Sim {E = Error} Q
            (if b then err (Error.node_not_resolved d) else panic)
            (if b then err (Error.node_not_resolved d) else panic)
    go true = sim_err
    go false = sim_panic

module _ (ref : Tree → NodeRef) where
  -- The arena follows the tree.
  pub record Follows (m : Mpt) (t : Tree) (r : Bool × Mpt) (s : Bool × Tree) : Type 0 where
    pub flag : r.0 ≡ s.0
    pub rep : Rep ref r.1 s.1
    pub spares : Spares m t r.1
    pub same : r.0 ≡ false → r.1 ≡ m

  -- Before `finish`: the node has its new data, and the rest of the new tree is in place.
  pub record Rewrites (m : Mpt) (t : Tree) (m' : Mpt) (t' : Tree) : Type 0 where
    pub before : Mpt
    pub write : m' ≡ set_node before (id_of t) (data_of t')
    pub below : Below ref before t'
    pub spares : Spares m t before

  abbrev pub Pending : Mpt → Tree → Bool × Mpt → Bool × Tree → Type 0
  Pending m t (true, m') (true, t') = Rewrites m t m' t'
  Pending m t (false, m') (false, t') = (m' ≡ m) × (t' ≡ t)
  Pending m t _ _ = ⊥

  finished :
      (m b : Mpt) (t t' : Tree)
      → Below ref b t'
      → Spares m t b
      → id_of t < length b.nodes
      → Wf t'
      → id_of t' ≡ id_of t
      → Follows m t (true, forgot (set_node b (id_of t) (data_of t')) (id_of t)) (true, t')
  finished m b t t' below s lt v e =
      let i = id_of t in
      let m1 = set_node b i (data_of t') in
      let s1 = Spares-set_node m t b (data_of t') s (mem-id_of t) in
      let lt1 : i < length m1.nodes = omega (arith, length-set b.nodes i (data_of t')) in
      record {
        flag = refl;
        rep =
            Rep-of ref (forgot m1 i) t'
              (record {
                at = rw e (cell-set_node b i (data_of t') lt);
                cached = inl (rw e (memo-forgot m1 i s1.sized lt1));
              })
              (Below-frame ref b (forgot m1 i) t' below
                (λ j _ ne.
                  let far : i ≢ j = λ q. ne (sym q ∙ sym e) in
                  SameAt-trans b m1 (forgot m1 i) j (set_node-SameAt b i (data_of t') j far)
                    (forgot-SameAt m1 i j far))
                v);
        spares = record {
          outside = λ j h o.
              SameAt-trans m m1 (forgot m1 i) j (s1.outside j h o)
                (forgot-SameAt m1 i j λ q. cc (q, mem-id_of t, o));
          grows = s1.grows;
          few = s1.few;
          sized = omega (arith, s1.sized, length-set m1.cached_references i none);
          root = s1.root;
        };
        same = λ d. cc;
      }

  untouched : (m : Mpt) (t : Tree) → Rep ref m t → IsSized m → Follows m t (false, m) (false, t)
  untouched m t r s = record { flag = refl; rep = r; spares = Spares-refl m t s; same = λ d. refl }

  finish-Follows :
      (m : Mpt) (t : Tree) (r : Bool × Mpt) (s : Bool × Tree)
      → Pending m t r s
      → Rep ref m t
      → IsSized m
      → Wf s.1
      → id_of s.1 ≡ id_of t
      → Sim (Follows m t) (finish (id_of t) r) (ok s)
  unfolding finish
  finish-Follows m t (true, m') (true, t') p r z w e =
      let i = id_of t in
      let lt : i < length p.before.nodes =
        omega (arith, p.spares.grows, cell_lt m i (Rep-Holds ref m t r).at) in
      let lt1 : i < length (set_node p.before i (data_of t')).nodes =
        omega (arith, length-set p.before.nodes i (data_of t')) in
      let s1 = Spares-set_node m t p.before (data_of t') p.spares (mem-id_of t) in
      rw (p.write, invalidate-forgot (set_node p.before i (data_of t')) i s1.sized lt1)
        (sim_ok (finished m p.before t t' p.below p.spares lt w e))
  finish-Follows m t (true, m') (false, t') p r z w e = absurd p
  finish-Follows m t (false, m') (true, t') p r z w e = absurd p
  finish-Follows m t (false, m') (false, t') p r z w e = sim_ok (
      subst (λ a. Follows m t (false, a) (false, t')) (sym p.0)
        (subst (λ b. Follows m t (false, m) (false, b)) (sym p.1) (untouched m t r z)))

  -- One round: the match on the node, then `finish`, which clears the node's cached reference if
  -- the node was rewritten.
  pub round-Follows :
      (m : Mpt) (t : Tree) {r : Result Error (Bool × Mpt)} {s : Result Error (Bool × Tree)}
      → Sim (Pending m t) r s
      → Ensures (λ a. Wf a.1 × (id_of a.1 ≡ id_of t)) s
      → Rep ref m t
      → IsSized m
      → Sim (Follows m t) (r >>= finish (id_of t)) s
  round-Follows m t (sim_ok {a} {b} p) (on_ok q) rep z = finish-Follows m t a b p rep z q.0 q.1
  round-Follows m t sim_err q rep z = sim_err
  round-Follows m t sim_panic q rep z = sim_panic

  -- A node that a change below leaves as it is.
  pub kept_node :
      (m m' : Mpt) (t u t' : Tree)
      → Rep ref m t
      → data_of t' ≡ data_of t
      → Spares m u m'
      → mem (id_of t) u ≡ false
      → ((j : ℕ) → mem j u ≡ true → mem j t ≡ true)
      → Below ref m' t'
      → Rewrites m t m' t'
  kept_node m m' t u t' r e s out h below =
      let h0 = Rep-Holds ref m t r in
      let still : cell m' (id_of t) ≡ some (data_of t') =
        (s.outside (id_of t) (cell_lt m (id_of t) h0.at) out).0 ∙ h0.at ∙ ap some (sym e) in
      record {
        before = m';
        write = sym (set_node_self m' (id_of t) (data_of t') still);
        below = below;
        spares = Spares-part m u t m' s h;
      }
