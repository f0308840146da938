-- ===== src/Trie/Spec/ForkWf.antt =====
-- A fork is well formed, and its indices are those of its two children and at most two more.
use ceno_reth_benchmark.Base.{
  ℕ, ◌≡◌, refl, ◌∙◌, ◌≢◌, Bool, true, false, some, List, [], ◌∷◌, All, arith, length, ltb,
  if◌then◌else◌,
}
use ceno_reth_benchmark.Base.Result.{ok, panic, Ensures, on_ok, on_panic, Ensures-bind}
use ceno_reth_benchmark.Hp.{IsNib}
use ceno_reth_benchmark.Hp.Encode.{encoded-IsByte}
use ceno_reth_benchmark.Trie.{Error}
use ceno_reth_benchmark.Trie.Tree.{Tree, Kids, mem, kids_mem, slots, id_of, Wf, KidsWf}
use ceno_reth_benchmark.Trie.Spec.{put_kid, all_absent, wrap, fork}
use ceno_reth_benchmark.Trie.Slots.{put}
use ceno_reth_benchmark.Trie.Slots.Put.{
  length-slots-put, kids_mem-put, kids_mem-put-none, put-KidsWf, put_kid_lem,
}

-- A new child beside those that the branch has.
record Added (ks : Kids) (t : Tree) (ks' : Kids) : Type 0 where
  size : length (slots ks') ≡ length (slots ks)
  wf : KidsWf ks'
  from : (j : ℕ) → kids_mem j ks' ≡ true → mem j t ≡ false → kids_mem j ks ≡ true

put-Added :
    (ks : Kids) (x : ℕ) (t : Tree)
    → KidsWf ks
    → Wf t
    → ((j : ℕ) → mem j t ≡ true → kids_mem j ks ≡ false)
    → Added ks t (put ks x (some t))
put-Added ks x t w v d = record {
  size = length-slots-put ks x (some t);
  wf = put-KidsWf ks x t w v λ j m. ground (arith, d j m, kids_mem-put-none j ks x);
  from = λ j h n. ground (arith, kids_mem-put j ks x t h, kids_mem-put-none j ks x);
}

put_kid-Added :
    (ks : Kids) (x : ℕ) (t : Tree)
    → KidsWf ks
    → Wf t
    → ((j : ℕ) → mem j t ≡ true → kids_mem j ks ≡ false)
    → Ensures (Added ks t) (put_kid ks x t)
put_kid-Added ks x t w v d = rw (put_kid_lem ks x t) (go (ltb x (length (slots ks))))
  where
    go : (b : Bool) → Ensures {E = Error} (Added ks t) (if b then ok (put ks x (some t)) else panic)
    go true = on_ok (put-Added ks x t w v d)
    go false = on_panic

pub record IsFork (i n : ℕ) (tx ty : Tree) (r : Bool × Tree) : Type 0 where
  pub flag : r.0 ≡ true
  pub wf : Wf r.1
  pub id : id_of r.1 ≡ i
  pub from : (j : ℕ) → mem j r.1 ≡ true → j ≢ i → j ≢ n → mem j tx ≡ false → mem j ty ≡ true

wrap-IsFork :
    (i n : ℕ) (c : List ℕ) (tx ty : Tree) (ks : Kids)
    → All IsNib c
    → length (slots ks) ≡ 16
    → KidsWf ks
    → ((j : ℕ) → kids_mem j ks ≡ true → mem j tx ≡ false → mem j ty ≡ true)
    → kids_mem i ks ≡ false
    → kids_mem n ks ≡ false
    → i ≢ n
    → IsFork i n tx ty (true, wrap i c ks n)
unfolding wrap
wrap-IsFork i n [] tx ty ks hc l w f oi on ne = record {
  flag = refl;
  wf = (l, oi, w);
  id = refl;
  from = λ j m a b d. ground (arith, f j);
}
wrap-IsFork i n (x ∷ c) tx ty ks hc l w f oi on ne = record {
  flag = refl;
  wf = (encoded-IsByte (x ∷ c) false hc, ground arith, (l, on, w));
  id = refl;
  from = λ j m a b d. ground (arith, f j);
}

pub fork-IsFork :
    (i : ℕ) (c : List ℕ) (x : ℕ) (tx : Tree) (y : ℕ) (ty : Tree) (n : ℕ)
    → All IsNib c
    → Wf tx
    → Wf ty
    → ((j : ℕ) → mem j ty ≡ true → mem j tx ≡ false)
    → (mem i tx ≡ false) × (mem i ty ≡ false)
    → (mem n tx ≡ false) × (mem n ty ≡ false)
    → i ≢ n
    → Ensures (IsFork i n tx ty) (fork i c x tx y ty n)
unfolding fork
fork-IsFork i c x tx y ty n hc wx wy d oi on ne =
    Ensures-bind (put_kid-Added all_absent x tx tt wx λ j m. refl) λ ks1 a1.
      Ensures-bind (put_kid-Added ks1 y ty a1.wf wy λ j m. ground (arith, a1.from j, d j)) λ ks2 a2.
        on_ok (
          wrap-IsFork i n c tx ty ks2 hc (a2.size ∙ a1.size) a2.wf
            (λ j h m. ground (arith, a2.from j, a1.from j)) (ground (arith, a2.from i, a1.from i))
            (ground (arith, a2.from n, a1.from n)) ne)
