-- ===== src/Trie/Refine/Fork.antt =====
-- The branch that replaces a split node of the arena, against `fork`.
use ceno_reth_benchmark.Base.{
  ℕ, zero, suc, ◌+◌, ◌<◌, ◌^◌, ◌≡◌, refl, sym, ap, inl, Bool, true, false, Option, some, List, [],
  ◌∷◌, ◌++◌, arith, length, ltb, lt→ltb, if◌then◌else◌, set, take-append,
}
use ceno_reth_benchmark.Base.Result.{ok, panic, Sim, sim_ok, sim_panic}
use ceno_reth_benchmark.Hp.Encode.{to_encoded_path-encoded}
use ceno_reth_benchmark.Trie.{Error, Mpt, NodeData, NodeRef, set_node, put_child}
use ceno_reth_benchmark.Trie.Insert.{replace_by_branch}
use ceno_reth_benchmark.Trie.Tree.{
  Tree, branch, Kids, end, absent, child, id_of, data_of, slots, Holds, Rep, KidsRep,
}
use ceno_reth_benchmark.Trie.Spec.{put_kid, wrap}
use ceno_reth_benchmark.Trie.Slots.{put, slots-put}
use ceno_reth_benchmark.Trie.Slots.Put.{put_kid_lem}
use ceno_reth_benchmark.Trie.Arena.{
  IsSized, add_node-grown, grown, cell-grown, memo-grown, grown-SameAt, KidsRep-frame, Rep-frame,
  mem-lt, kids_mem-lt,
}
use ceno_reth_benchmark.Trie.Refine.Post.{Spares, Spares-grown, Pending}

module _ (ref : Tree → NodeRef) where
  put-KidsRep :
      (m : Mpt) (ks : Kids) (x : ℕ) (t : Tree)
      → KidsRep ref m ks
      → Rep ref m t
      → KidsRep ref m (put ks x (some t))
  unfolding put
  put-KidsRep m end x t r h = tt
  put-KidsRep m (absent ks) zero t r h = (h, r)
  put-KidsRep m (absent ks) (suc x) t r h = put-KidsRep m ks x t r h
  put-KidsRep m (child u ks) zero t r h = (h, r.1)
  put-KidsRep m (child u ks) (suc x) t r h = (r.0, put-KidsRep m ks x t r.1 h)

  abbrev pub SlotsOf : Mpt → List (Option ℕ) → Kids → Type 0
  SlotsOf m cs ks = (cs ≡ slots ks) × KidsRep ref m ks

  pub put_child-put_kid :
      (m : Mpt) (cs : List (Option ℕ)) (ks : Kids) (x : ℕ) (t : Tree)
      → SlotsOf m cs ks
      → Rep ref m t
      → Sim (SlotsOf m) (put_child cs x (some (id_of t))) (put_kid ks x t)
  unfolding put_child
  put_child-put_kid m cs ks x t (e, r) h =
      rw (e, put_kid_lem ks x t) (go (ltb x (length (slots ks))))
    where
      go :
          (b : Bool)
          → Sim {E = Error}
              (SlotsOf m)
              (if b then ok (set (slots ks) x (some (id_of t))) else panic)
              (if b then ok (put ks x (some t)) else panic)
      go true = sim_ok (sym (slots-put ks x (some t)), put-KidsRep m ks x t r h)
      go false = sim_panic

  -- A node that was just added is represented, if what is below it was.
  pub grown-Holds :
      (m : Mpt) (t : Tree)
      → IsSized m
      → id_of t ≡ length m.nodes
      → Holds ref (grown m (data_of t)) t
  grown-Holds m t s e = record {
    at = rw e (cell-grown m (data_of t));
    cached = inl (rw e (memo-grown m (data_of t) s));
  }

  pub grown-Rep :
      (m : Mpt) (d : NodeData) (t : Tree) → IsSized m → Rep ref m t → Rep ref (grown m d) t
  grown-Rep m d t s r =
      Rep-frame ref m (grown m d) t r λ j h. grown-SameAt m d j s (mem-lt ref m t j r h)

  pub grown-KidsRep :
      (m : Mpt) (d : NodeData) (ks : Kids)
      → IsSized m
      → KidsRep ref m ks
      → KidsRep ref (grown m d) ks
  grown-KidsRep m d ks s r =
      KidsRep-frame ref m (grown m d) ks r λ j h. grown-SameAt m d j s (kids_mem-lt ref m ks j r h)

  pub replace_by_branch-wrap :
      (m m2 : Mpt) (t : Tree) (c rest : List ℕ) (cs : List (Option ℕ)) (ks : Kids)
      → SlotsOf m2 cs ks
      → Spares m t m2
      → length m2.nodes < length m.nodes + 3
      → length m2.nodes < 2 ^ 32
      → Sim
          (Pending ref m t)
          (replace_by_branch m2 (id_of t) (c ++ rest) (length c) cs)
          (ok (true, wrap (id_of t) c ks (length m2.nodes)))
  unfolding replace_by_branch wrap
  replace_by_branch-wrap m m2 t [] rest cs ks (e, r) s h room = sim_ok (record {
    before = m2;
    write = ap (λ l. set_node m2 (id_of t) (NodeData.branch l)) e;
    below = r;
    spares = s;
  })
  replace_by_branch-wrap m m2 t (x ∷ c) rest cs ks (e, r) s h room =
      let b = branch (length m2.nodes) ks in
      let hb = grown-Holds m2 b s.sized refl in
      rw
        (
          lt→ltb 0 (suc (length c)) (omega arith),
          e,
          add_node-grown m2 (NodeData.branch (slots ks)) room,
          take-append (x ∷ c) rest,
          to_encoded_path-encoded {E = Error} (x ∷ c) false,
        )
        (sim_ok (record {
          before = grown m2 (NodeData.branch (slots ks));
          write = refl;
          below = (hb, grown-KidsRep m2 (NodeData.branch (slots ks)) ks s.sized r);
          spares = Spares-grown m t m2 (NodeData.branch (slots ks)) s h;
        }))
