-- ===== src/Trie/Refine/Merge.antt =====
-- The merges of `delete_internal` with the node below, against `absorbed`, `shrunk` and `joined`.
use ceno_reth_benchmark.Base.{ℕ, suc, ◌≡◌, refl, subst, ap, true, false, List, [], ◌∷◌, ◌++◌}
use ceno_reth_benchmark.Base.Result.{Result, ok, ◌>>=◌, Sim, sim_ok, sim_panic, bind}
use ceno_reth_benchmark.Hp.{prefix_to_nibs}
use ceno_reth_benchmark.Hp.Encode.{to_encoded_path-encoded}
use ceno_reth_benchmark.Trie.{Error, Mpt, NodeData, NodeRef, set_node, node}
use ceno_reth_benchmark.Trie.Delete.{remaining, absorb, shrink, join}
use ceno_reth_benchmark.Trie.Tree.{
  Tree, null, branch, leaf, extension, Kids, end, absent, child, id_of, data_of, slots, Rep,
  KidsRep,
}
use ceno_reth_benchmark.Trie.Spec.{live, absorbed, shrunk, joined}
use ceno_reth_benchmark.Trie.Arena.{Below, Rep-Holds}
use ceno_reth_benchmark.Trie.Refine.Post.{Spares, Pending}

abbrev with_ids : List (ℕ × Tree) → List (ℕ × ℕ)
with_ids [] = []
with_ids ((x, t) ∷ l) = (x, id_of t) ∷ with_ids l

pub remaining-slots : (b : ℕ) (ks : Kids) → remaining b (slots ks) ≡ with_ids (live b ks)
unfolding remaining live
remaining-slots b end = refl
remaining-slots b (absent ks) = remaining-slots (suc b) ks
remaining-slots b (child t ks) = ap (λ l. (b, id_of t) ∷ l) (remaining-slots (suc b) ks)

module _ (ref : Tree → NodeRef) where
  live-Rep :
      (m : Mpt) (b : ℕ) (ks : Kids) {x : ℕ} {t : Tree} {more : List (ℕ × Tree)}
      → live b ks ≡ (x, t) ∷ more
      → KidsRep ref m ks
      → Rep ref m t
  unfolding live
  live-Rep m b end e r = cc
  live-Rep m b (absent ks) e r = live-Rep m (suc b) ks e r
  live-Rep m b (child u ks) {x} {t} e r = let q : u ≡ t = cc in subst (Rep ref m) q r.0

  pub node-Rep : (m : Mpt) (t : Tree) → Rep ref m t → node m (id_of t) ≡ ok (data_of t)
  node-Rep m t r = rw (Rep-Holds ref m t r).at

  -- The data that a merge writes is that of the merged tree, and what is below it is in place.
  abbrev pub Merged : ℕ → Mpt → NodeData → Tree → Type 0
  Merged i m d t = (d ≡ data_of t) × Below ref m t × (id_of t ≡ i)

  pub absorb-absorbed :
      (m : Mpt) (i x : ℕ) (t : Tree)
      → Rep ref m t
      → Sim (Merged i m) (absorb x (id_of t) (data_of t)) (absorbed i x t)
  unfolding absorb absorbed
  absorb-absorbed m i x (null j) r = sim_panic
  absorb-absorbed m i x (branch j ks) r =
      rw (to_encoded_path-encoded {E = Error} (x ∷ []) false) (sim_ok (refl, r, refl))
  absorb-absorbed m i x (leaf j p v) r =
      rw (to_encoded_path-encoded {E = Error} (x ∷ prefix_to_nibs p) true) (sim_ok (refl, tt, refl))
  absorb-absorbed m i x (extension j p t) r =
      rw (to_encoded_path-encoded {E = Error} (x ∷ prefix_to_nibs p) false)
        (sim_ok (refl, r.1, refl))
  absorb-absorbed m i x (Tree.digest j d) r =
      rw (to_encoded_path-encoded {E = Error} (x ∷ []) false) (sim_ok (refl, r, refl))

  pub join-joined :
      (m : Mpt) (i : ℕ) (p : List ℕ) (t : Tree)
      → Rep ref m t
      → Sim (Merged i m) (join p (id_of t) (data_of t)) (ok (joined i p t))
  unfolding join joined
  join-joined m i p (null j) r = sim_ok (refl, tt, refl)
  join-joined m i p (branch j ks) r = sim_ok (refl, r, refl)
  join-joined m i p (leaf j q v) r =
      rw (to_encoded_path-encoded {E = Error} (prefix_to_nibs p ++ prefix_to_nibs q) true)
        (sim_ok (refl, tt, refl))
  join-joined m i p (extension j q t) r =
      rw (to_encoded_path-encoded {E = Error} (prefix_to_nibs p ++ prefix_to_nibs q) false)
        (sim_ok (refl, r.1, refl))
  join-joined m i p (Tree.digest j d) r = sim_ok (refl, r, refl)

  -- The write that follows a merge.
  pub merge_write :
      (m m' : Mpt) (t : Tree) {r : Result Error NodeData} {s : Result Error Tree}
      → Spares m t m'
      → Sim (Merged (id_of t) m') r s
      → Sim
          (Pending ref m t)
          (r >>= λ d. ok (true, set_node m' (id_of t) d))
          (s >>= λ t'. ok (true, t'))
  merge_write m m' t sp h = bind h λ d t' q.
      sim_ok
        (record { before = m'; write = ap (set_node m' (id_of t)) q.0; below = q.1; spares = sp })

  pub shrink-shrunk :
      (m m' : Mpt) (t : Tree) (ks : Kids) (l : List (ℕ × Tree))
      → live 0 ks ≡ l
      → Spares m t m'
      → KidsRep ref m' ks
      → Sim (Pending ref m t) (shrink m' (id_of t) (slots ks) (with_ids l)) (shrunk (id_of t) ks l)
  unfolding shrink shrunk
  shrink-shrunk m m' t ks [] e sp r = sim_panic
  shrink-shrunk m m' t ks ((x, c) ∷ []) e sp r =
      let rc = live-Rep m' 0 ks e r in
      rw (Rep-Holds ref m' c rc).at (merge_write m m' t sp (absorb-absorbed m' (id_of t) x c rc))
  shrink-shrunk m m' t ks (a ∷ b ∷ l) e sp r =
      sim_ok (record { before = m'; write = refl; below = r; spares = sp })
