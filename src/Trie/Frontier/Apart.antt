-- ===== src/Trie/Frontier/Apart.antt =====
-- The chunks of a frontier lie apart: a key is below one of their prefixes at most.
use ceno_reth_benchmark.Base.{
  ℕ, zero, suc, ◌≤◌, ◌<◌, ◌≡◌, refl, ◌||◌, true, false, Bool-cases, inl, inr, Option, none, some,
  List, [], ◌∷◌, ◌++◌, length, ◌==◌, starts_with, All, All-map, All-append, arith,
}
use ceno_reth_benchmark.Base.Result.{
  Ensures, on_ok, on_stuck, Ensures-bind, Ensures-any, Ensures-if,
}
use ceno_reth_benchmark.Hp.{prefix_to_nibs}
use ceno_reth_benchmark.Trie.{NodeData, null, branch, leaf, extension, Mpt, node}
use ceno_reth_benchmark.Trie.Hash.{Rlp, hash}
use ceno_reth_benchmark.Trie.Wire.Encode.{encode_trie, encoded_subtrie, subtree_num_nodes}
use ceno_reth_benchmark.Trie.Frontier.{FrontierChunk, replace_frontier_slot}
use ceno_reth_benchmark.Trie.Frontier.Build.{
  FrontierLimits, Weighted, Boundary, CollectRec, nibbles_leb, insert_by, sort_by, any_inline,
  child_keys, collect_child, collect_children, keep_below, collect_below,
  collect_frontier_boundaries, chunk_of, cut_chunks, build_for, build_frontier_weighted, over_limit,
  expand_keys, dedup_by,
}

-- Nothing starts with both.
abbrev pub Disjoint : List ℕ → List ℕ → Type 0
Disjoint p q = (k : List ℕ) → starts_with k p ≡ true → starts_with k q ≡ false

-- Pairwise.
abbrev pub Apart : {A : Type 0} → List (List ℕ × A) → Type 0
Apart [] = Unit {0}
Apart (e ∷ es) = All (λ f. Disjoint e.0 f.0) es × Apart es

abbrev pub ChunksApart : List FrontierChunk → Type 0
ChunksApart [] = Unit {0}
ChunksApart (c ∷ cs) = All (λ (d : FrontierChunk). Disjoint c.prefix d.prefix) cs × ChunksApart cs

Disjoint-sym : (p q : List ℕ) → Disjoint p q → Disjoint q p
Disjoint-sym p q d k h = elim (Bool-cases (starts_with k p)) [
  | inl e ↦ absurd (cc (d k e, h))
  | inr e ↦ e
]

-- All that starts with `p` starts with `q`.
abbrev Below : List ℕ → List ℕ → Type 0
Below q p = (k : List ℕ) → starts_with k p ≡ true → starts_with k q ≡ true

Disjoint-Below : (p q p' q' : List ℕ) → Disjoint p q → Below p p' → Below q q' → Disjoint p' q'
Disjoint-Below p q p' q' d b c k h = elim (Bool-cases (starts_with k q')) [
  | inl e ↦ absurd (cc (d k (b k h), c k e))
  | inr e ↦ e
]

starts_with-append : (p q : List ℕ) → Below p (p ++ q)
unfolding starts_with
starts_with-append [] q k h = refl
starts_with-append (x ∷ p) q [] h = cc
starts_with-append (x ∷ p) q (y ∷ k) h = ground (arith, starts_with-append p q k)

-- Two different nibbles behind one prefix.
fork-Disjoint : (p : List ℕ) (i j : ℕ) → i < j → Disjoint (p ++ (i ∷ [])) (p ++ (j ∷ []))
unfolding starts_with
fork-Disjoint [] i j lt [] h = cc
fork-Disjoint [] i j lt (y ∷ k) h = ground arith
fork-Disjoint (x ∷ p) i j lt [] h = cc
fork-Disjoint (x ∷ p) i j lt (y ∷ k) h = ground (arith, fork-Disjoint p i j lt k)

Apart-append :
    {A : Type 0} (xs ys : List (List ℕ × A))
    → Apart xs
    → Apart ys
    → All (λ x. All (λ y. Disjoint x.0 y.0) ys) xs
    → Apart (xs ++ ys)
Apart-append [] ys a b d = b
Apart-append (x ∷ xs) ys a b d =
    (All-append (λ y. Disjoint x.0 y.0) xs ys a.0 d.0, Apart-append xs ys a.1 b d.1)

insert_by-All :
    {A : Type 0} (P : List ℕ × A → Type 0) (e : List ℕ × A) (es : List (List ℕ × A))
    → P e
    → All P es
    → All P (insert_by e es)
unfolding insert_by
insert_by-All P e [] p h = (p, tt)
insert_by-All P e (f ∷ es) p h = elim (Bool-cases (nibbles_leb e.0 f.0)) [
  | inl t ↦ rw t (p, h)
  | inr t ↦ rw t (h.0, insert_by-All P e es p h.1)
]

insert_by-Apart :
    {A : Type 0} (e : List ℕ × A) (es : List (List ℕ × A))
    → All (λ f. Disjoint e.0 f.0) es
    → Apart es
    → Apart (insert_by e es)
unfolding insert_by
insert_by-Apart e [] d a = (tt, tt)
insert_by-Apart e (f ∷ es) d a = elim (Bool-cases (nibbles_leb e.0 f.0)) [
  | inl t ↦ rw t (d, a)
  | inr t ↦ rw t (
    insert_by-All (λ g. Disjoint f.0 g.0) e es (Disjoint-sym e.0 f.0 d.0) a.0,
    insert_by-Apart e es d.1 a.1,
  )
]

sort_by-All :
    {A : Type 0} (P : List ℕ × A → Type 0) (es : List (List ℕ × A)) → All P es → All P (sort_by es)
unfolding sort_by
sort_by-All P [] h = tt
sort_by-All P (e ∷ es) h = insert_by-All P e (sort_by es) h.0 (sort_by-All P es h.1)

sort_by-Apart : {A : Type 0} (es : List (List ℕ × A)) → Apart es → Apart (sort_by es)
unfolding sort_by
sort_by-Apart [] a = tt
sort_by-Apart (e ∷ es) a =
    insert_by-Apart e (sort_by es) (sort_by-All (λ f. Disjoint e.0 f.0) es a.0)
      (sort_by-Apart es a.1)

-- Apart, and all below a prefix.
abbrev Spread : List ℕ → List Boundary → Type 0
Spread p out = Apart out × All (λ (b : Boundary). Below p b.0) out

-- Apart, each below a child of the prefix from the n-th on.
abbrev Forked : List ℕ → ℕ → List Boundary → Type 0
Forked p n out =
    Apart out × All (λ (b : Boundary). (j : ℕ) × (n ≤ j) × Below (p ++ (j ∷ [])) b.0) out

alone : (p : List ℕ) (n : Option ℕ) → Spread p ((p, n) ∷ [])
alone p n = ((tt, tt), ((λ k h. h), tt))

Forked-first :
    (p : List ℕ) (n : ℕ) (out rest : List Boundary)
    → Spread (p ++ (n ∷ [])) out
    → Forked p (suc n) rest
    → Forked p n (out ++ rest)
Forked-first p n out rest s f = (
  Apart-append out rest s.0 f.0 (
      All-map (λ (b : Boundary). Below (p ++ (n ∷ [])) b.0) _ out
        (λ b h.
          All-map (λ (c : Boundary). (j : ℕ) × (suc n ≤ j) × Below (p ++ (j ∷ [])) c.0) _ rest
            (λ c g.
              Disjoint-Below (p ++ (n ∷ [])) (p ++ (g.0 ∷ [])) b.0 c.0
                (fork-Disjoint p n g.0 (omega (arith, g.1))) h g.2)
            f.1)
        s.1),
  All-append _ out rest
      (All-map (λ (b : Boundary). Below (p ++ (n ∷ [])) b.0) _ out (λ b h. (n, omega arith, h)) s.1)
      (All-map (λ (c : Boundary). (j : ℕ) × (suc n ≤ j) × Below (p ++ (j ∷ [])) c.0) _ rest
        (λ c g. (g.0, omega (arith, g.1), g.2)) f.1),
)

Spread-Forked : (p : List ℕ) (out : List Boundary) → Forked p 0 out → Spread p out
Spread-Forked p out f = (
  f.0,
  All-map (λ (c : Boundary). (j : ℕ) × (0 ≤ j) × Below (p ++ (j ∷ [])) c.0) _ out
      (λ c g k h. starts_with-append p (g.0 ∷ []) k (g.2 k h)) f.1,
)

Spread-append : (p q : List ℕ) (out : List Boundary) → Spread (p ++ q) out → Spread p out
Spread-append p q out s = (
  s.0,
  All-map (λ (c : Boundary). Below (p ++ q) c.0) _ out (λ c g k h. starts_with-append p q k (g k h))
      s.1,
)

module _ (rlp : Rlp) where
  abbrev SpreadsRec : CollectRec → Type 0
  SpreadsRec rec =
      (m : Mpt) (id : ℕ) (p : List ℕ) (keys : List Weighted)
      → Ensures (λ r. Spread p r.0) (rec m id p keys)

  module _ (rec : CollectRec) (spreads : SpreadsRec rec) where
    collect_child-Spread :
        (m : Mpt) (p : List ℕ) (keys : List Weighted) (c : Option ℕ)
        → Ensures (λ r. Spread p r.0) (collect_child rlp rec m p keys c)
    collect_child-Spread m p [] c = on_ok (tt, tt)
    collect_child-Spread m p (k ∷ keys) none = on_ok (alone p none)
    collect_child-Spread m p (k ∷ keys) (some child) = spreads m child p (k ∷ keys)

    collect_children-Forked :
        (m : Mpt) (p : List ℕ) (keys : List Weighted) (n : ℕ) (cs : List (Option ℕ))
        → Ensures (λ r. Forked p n r.0) (collect_children rlp rec m p keys n cs)
    unfolding collect_children
    collect_children-Forked m p keys n [] = on_ok (tt, tt)
    collect_children-Forked m p keys n (c ∷ cs) =
        Ensures-bind (collect_child-Spread m (p ++ (n ∷ [])) (child_keys n (length p) keys) c)
          λ r s.
            Ensures-bind (collect_children-Forked r.1 p keys (suc n) cs)
              (λ r' f. on_ok (Forked-first p n r.0 r'.0 s f))

    keep_below-Spread :
        (p : List ℕ) (id : ℕ) (r : List Boundary × Mpt)
        → Spread p r.0
        → Ensures (λ r'. Spread p r'.0) (keep_below rlp p id r)
    unfolding keep_below
    keep_below-Spread p id (out, m) s = Ensures-bind (Ensures-any (any_inline rlp m out)) λ x _.
        elim (Bool-cases (x.0 || length out == 0)) [
          | inl t ↦ rw t (on_ok (alone p (some id)))
          | inr t ↦ rw t (on_ok s)
        ]

    collect_below-Spread :
        (m : Mpt) (id : ℕ) (p : List ℕ) (keys : List Weighted) (d : NodeData)
        → Ensures (λ r. Spread p r.0) (collect_below rlp rec m id p keys d)
    collect_below-Spread m id p keys (branch children) =
        Ensures-bind (collect_children-Forked m p keys 0 children)
          (λ r f. keep_below-Spread p id r (Spread-Forked p r.0 f))
    collect_below-Spread m id p keys (extension path child) =
        Ensures-bind (spreads m child (p ++ prefix_to_nibs path) keys)
          (λ r s. keep_below-Spread p id r (Spread-append p (prefix_to_nibs path) r.0 s))
    collect_below-Spread m id p keys null = on_ok (alone p (some id))
    collect_below-Spread m id p keys (leaf path value) = on_ok (alone p (some id))
    collect_below-Spread m id p keys (NodeData.digest d) = on_ok (alone p (some id))

  collect-Spread :
      (limits : FrontierLimits) (fuel : ℕ)
      → SpreadsRec (collect_frontier_boundaries rlp limits fuel)
  unfolding collect_frontier_boundaries
  collect-Spread limits zero m id p keys = on_stuck
  collect-Spread limits (suc fuel) m id p keys =
      Ensures-bind (Ensures-any (encoded_subtrie rlp m id)) λ e _.
        Ensures-bind (Ensures-any (subtree_num_nodes (length e.1.nodes) e.1 id)) λ n _.
          Ensures-bind (Ensures-any (node e.1 id)) λ d _.
            Ensures-if (over_limit limits n (length e.0) keys)
              (λ _.
                collect_below-Spread (collect_frontier_boundaries rlp limits fuel)
                  (collect-Spread limits fuel) e.1 id p keys d)
              (λ _. on_ok (alone p (some id)))

  -- The chunks have the prefixes of the boundaries.
  abbrev Cut : List Boundary → Mpt × Mpt × List FrontierChunk → Type 0
  Cut bs r =
      ChunksApart r.2
      × ((p : List ℕ)
          → All (λ (b : Boundary). Disjoint p b.0) bs
          → All (λ (c : FrontierChunk). Disjoint p c.prefix) r.2)

  cut_chunks-Cut :
      (m frontier : Mpt) (bs : List Boundary)
      → Apart bs
      → Ensures (Cut bs) (cut_chunks rlp m frontier bs)
  unfolding cut_chunks
  cut_chunks-Cut m frontier [] a = on_ok (tt, λ p h. tt)
  cut_chunks-Cut m frontier ((p, n) ∷ bs) a = Ensures-bind (Ensures-any (chunk_of rlp m n)) λ c _.
      Ensures-bind (Ensures-any (replace_frontier_slot rlp frontier p c.0.0 c.0.0)) λ f _.
        Ensures-bind (cut_chunks-Cut c.1 f bs a.1)
          λ r cut. on_ok ((cut.1 p a.0, cut.0), λ q h. (h.0, cut.1 q h.1))

  build_for-Apart :
      (m : Mpt) (limits : FrontierLimits) (keys : List Weighted)
      → Ensures (λ r. ChunksApart r.0.chunks) (build_for rlp m limits keys)
  build_for-Apart m limits [] = Ensures-bind (Ensures-any (encode_trie rlp m)) (λ e _. on_ok tt)
  build_for-Apart m limits (k ∷ keys) =
      Ensures-bind (collect-Spread limits (length m.nodes) m m.root_id [] (k ∷ keys)) λ b s.
        Ensures-bind (cut_chunks-Cut b.1 b.1 (sort_by b.0) (sort_by-Apart b.0 s.0)) λ r cut.
          Ensures-bind (Ensures-any (hash rlp r.0)) λ h _.
            Ensures-bind (Ensures-any (subtree_num_nodes (length r.1.nodes) r.1 r.1.root_id))
              λ n _. Ensures-bind (Ensures-any (encode_trie rlp r.1)) (λ e _. on_ok cut.0)

-- The chunks of a frontier lie apart, in whatever trie and for whatever keys and limits: a key that
-- starts with the prefix of one chunk starts with that of no other one.
pub build_frontier_weighted-ChunksApart :
    (rlp : Rlp) (m : Mpt) (keys : List (List ℕ × ℕ)) (limits : FrontierLimits)
    → Ensures (λ r. ChunksApart r.0.chunks) (build_frontier_weighted rlp m keys limits)
unfolding build_frontier_weighted
build_frontier_weighted-ChunksApart rlp m keys limits =
    build_for-Apart rlp m limits (dedup_by (sort_by (expand_keys keys)))
