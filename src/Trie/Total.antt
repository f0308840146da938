-- ===== src/Trie/Total.antt =====
-- The fuel: a tree in the arena is no higher than the arena is long, since no index occurs twice.
use ceno_reth_benchmark.Base.{
  ℕ, zero, suc, ◌+◌, ◌≤◌, ◌<◌, ◌≡◌, Bool, true, false, ◌||◌, ◌==◌, if◌then◌else◌, arith, length,
  ==→eq, Bool-cases, inl, inr,
}
use ceno_reth_benchmark.Trie.{Mpt, NodeRef}
use ceno_reth_benchmark.Trie.Tree.{
  Tree, null, branch, leaf, extension, Kids, end, absent, child, mem, kids_mem, height, kids_height,
  Wf, KidsWf, Rep,
}
use ceno_reth_benchmark.Trie.Arena.{mem-lt}

-- How many numbers below `n` pass the test.
abbrev count_below : ℕ → (ℕ → Bool) → ℕ
count_below zero p = 0
count_below (suc n) p = (if p n then 1 else 0) + count_below n p

count_below_le : (n : ℕ) (p : ℕ → Bool) → count_below n p ≤ n
count_below_le zero p = omega arith
count_below_le (suc n) p = ground (arith, count_below_le n p)

count_below_found : (n : ℕ) (p : ℕ → Bool) (i : ℕ) → i < n → p i ≡ true → 1 ≤ count_below n p
count_below_found zero p i h e = absurd (omega arith)
count_below_found (suc n) p i h e = elim (Bool-cases (i == n)) [
  | inl here ↦
      let q : i ≡ n = ==→eq i n here in let e' : p n ≡ true = cc (q, e) in rw e' (omega arith)
  | inr there ↦ let lt : i < n = ground arith in omega (arith, count_below_found n p i lt e)
]

-- Tests that nothing passes together count on their own.
count_below_or :
    (n : ℕ) (p q : ℕ → Bool)
    → ((j : ℕ) → p j ≡ true → q j ≡ false)
    → count_below n p + count_below n q ≤ count_below n (λ j. p j || q j)
count_below_or zero p q h = omega arith
count_below_or (suc n) p q h = ground (arith, h n, count_below_or n p q h)

only : (i j : ℕ) (ks : Kids) → (j == i) ≡ true → kids_mem i ks ≡ false → kids_mem j ks ≡ false
only i j ks e h = let q : j ≡ i = ==→eq j i e in cc (q, h)

only_tree : (i j : ℕ) (t : Tree) → (j == i) ≡ true → mem i t ≡ false → mem j t ≡ false
only_tree i j t e h = let q : j ≡ i = ==→eq j i e in cc (q, h)

mutual
  height_le_count :
      (n : ℕ) (t : Tree)
      → ((j : ℕ) → mem j t ≡ true → j < n)
      → Wf t
      → height t ≤ count_below n (λ j. mem j t)
  height_le_count n (null i) b w =
      count_below_found n (λ j. mem j (null i)) i (b i (ground arith)) (ground arith)
  height_le_count n (branch i ks) b w =
      let d = count_below_or n (λ j. j == i) (λ j. kids_mem j ks) (λ j e. only i j ks e w.1) in
      let one = count_below_found n (λ j. j == i) i (b i (ground arith)) (ground arith) in
      omega (arith, d, one, kids_height_le_count n ks (λ j m. b j (ground arith)) w.2)
  height_le_count n (leaf i p v) b w =
      count_below_found n (λ j. mem j (leaf i p v)) i (b i (ground arith)) (ground arith)
  height_le_count n (extension i p t) b w =
      let d = count_below_or n (λ j. j == i) (λ j. mem j t) (λ j e. only_tree i j t e w.1) in
      let one = count_below_found n (λ j. j == i) i (b i (ground arith)) (ground arith) in
      omega (arith, d, one, height_le_count n t (λ j m. b j (ground arith)) w.2)
  height_le_count n (Tree.digest i d) b w =
      count_below_found n (λ j. mem j (Tree.digest i d)) i (b i (ground arith)) (ground arith)

  kids_height_le_count :
      (n : ℕ) (ks : Kids)
      → ((j : ℕ) → kids_mem j ks ≡ true → j < n)
      → KidsWf ks
      → kids_height ks ≤ count_below n (λ j. kids_mem j ks)
  kids_height_le_count n end b w = omega arith
  kids_height_le_count n (absent ks) b w = kids_height_le_count n ks b w
  kids_height_le_count n (child t ks) b w =
      let d = count_below_or n (λ j. mem j t) (λ j. kids_mem j ks) w.2 in
      omega (
        arith,
        d,
        height_le_count n t (λ j m. b j (ground arith)) w.0,
        kids_height_le_count n ks (λ j m. b j (ground arith)) w.1,
      )

-- The length of the node vector is fuel enough for a tree that the arena represents.
pub height-length :
    (ref : Tree → NodeRef) (m : Mpt) (t : Tree) → Rep ref m t → Wf t → height t ≤ length m.nodes
height-length ref m t r w = omega (
  arith,
  height_le_count (length m.nodes) t (λ j h. mem-lt ref m t j r h) w,
  count_below_le (length m.nodes) (λ j. mem j t),
)
