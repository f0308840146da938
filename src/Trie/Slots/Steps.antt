-- ===== src/Trie/Slots/Steps.antt =====
-- The three operations on the slots of a branch, through the slot that the key selects.
use ceno_reth_benchmark.Base.{
  ℕ, zero, suc, ◌≡◌, refl, Bool, true, false, Option, none, some, List, if◌then◌else◌, arith, ap,
  sym, fun_ext,
}
use ceno_reth_benchmark.Base.Result.{ok, err, panic, ◌>>=◌, stuck}
use ceno_reth_benchmark.Hp.Encode.{encoded}
use ceno_reth_benchmark.Trie.Tree.{Tree, leaf, Kids, end, absent, child, is_null}
use ceno_reth_benchmark.Trie.Slots.{kid_at, put}
use ceno_reth_benchmark.Trie.Spec.{
  Found, tree_get, kids_get, Changed, KidsChanged, tree_insert, kids_insert, tree_delete,
  kids_delete, kept, child_delete,
}

abbrev pub get_at : Option (Option Tree) → List ℕ → Found
get_at none key = panic
get_at (some none) key = ok none
get_at (some (some t)) key = tree_get t key

pub kids_get_step :
    (ks : Kids) (x : ℕ) (key : List ℕ) → kids_get ks x key ≡ get_at (kid_at ks x) key
unfolding kids_get kid_at
kids_get_step end x key = refl
kids_get_step (absent ks) zero key = refl
kids_get_step (absent ks) (suc x) key = kids_get_step ks x key
kids_get_step (child t ks) zero key = refl
kids_get_step (child t ks) (suc x) key = kids_get_step ks x key

abbrev pub insert_at : Kids → ℕ → List ℕ → List ℕ → ℕ → Option (Option Tree) → KidsChanged
insert_at ks x key v n none = panic
insert_at ks x key v n (some none) = ok (true, put ks x (some (leaf n (encoded key true) v)))
insert_at ks x key v n (some (some t)) =
    tree_insert t key v n >>= λ r. ok (r.0, put ks x (some r.1))

-- A change to the slots of a branch, seen from a branch with one more slot.
abbrev over : (Kids → Kids) → Bool × Kids → KidsChanged
over f (b, ks) = ok (b, f ks)

over_insert :
    (f : Kids → Kids) (us ks : Kids) (y x : ℕ) (key v : List ℕ) (n : ℕ) (o : Option (Option Tree))
    → ((c : Option Tree) → put us y c ≡ f (put ks x c))
    → (insert_at ks x key v n o >>= over f) ≡ insert_at us y key v n o
over_insert f us ks y x key v n none h = refl
over_insert f us ks y x key v n (some none) h = ap (λ l. ok (true, l)) (sym (h _))
over_insert f us ks y x key v n (some (some t)) h = go (tree_insert t key v n)
  where
    go :
        (r : Changed)
        → ((r >>= λ q. ok (q.0, put ks x (some q.1))) >>= over f)
          ≡ (r >>= λ q. ok (q.0, put us y (some q.1)))
    go (ok q) = ap (λ l. ok (q.0, l)) (sym (h (some q.1)))
    go (err e) = refl
    go panic = refl
    go stuck = refl

pub kids_insert_step :
    (ks : Kids) (x : ℕ) (key v : List ℕ) (n : ℕ)
    → kids_insert ks x key v n ≡ insert_at ks x key v n (kid_at ks x)
unfolding kids_insert kid_at put
kids_insert_step end x key v n = refl
kids_insert_step (absent ks) zero key v n = refl
kids_insert_step (absent ks) (suc x) key v n =
    rw (kids_insert_step ks x key v n)
      (over_insert absent (absent ks) ks (suc x) x key v n (kid_at ks x) λ c. refl)
kids_insert_step (child t ks) zero key v n = refl
kids_insert_step (child t ks) (suc x) key v n =
    rw (kids_insert_step ks x key v n)
      (over_insert (child t) (child t ks) ks (suc x) x key v n (kid_at ks x) λ c. refl)

-- What a deletion leaves in the slot.
abbrev pub left_of : Tree → Option Tree
left_of t = if is_null t then none else some t

abbrev pub put_back : Kids → ℕ → Bool × Tree → KidsChanged
put_back ks x (false, t') = ok (false, ks)
put_back ks x (true, t') = ok (true, put ks x (left_of t'))

abbrev pub delete_at : Kids → ℕ → List ℕ → Option (Option Tree) → KidsChanged
delete_at ks x key none = panic
delete_at ks x key (some none) = ok (false, ks)
delete_at ks x key (some (some t)) = tree_delete t key >>= put_back ks x

over_delete :
    (f : Kids → Kids) (us ks : Kids) (y x : ℕ) (key : List ℕ) (o : Option (Option Tree))
    → us ≡ f ks
    → ((c : Option Tree) → put us y c ≡ f (put ks x c))
    → (delete_at ks x key o >>= over f) ≡ delete_at us y key o
over_delete f us ks y x key none e h = refl
over_delete f us ks y x key (some none) e h = ap (λ l. ok (false, l)) (sym e)
over_delete f us ks y x key (some (some t)) e h = go (tree_delete t key)
  where
    go : (r : Changed) → ((r >>= put_back ks x) >>= over f) ≡ (r >>= put_back us y)
    go (ok (true, q)) = ap (λ l. ok (true, l)) (sym (h (left_of q)))
    go (ok (false, q)) = ap (λ l. ok (false, l)) (sym e)
    go (err e) = refl
    go panic = refl
    go stuck = refl

here_delete :
    (t : Tree) (ks : Kids) (r : Bool × Tree) → child_delete t ks r ≡ put_back (child t ks) zero r
unfolding child_delete kept put
here_delete t ks (false, t') = refl
here_delete t ks (true, t') = ground arith

pub kids_delete_step :
    (ks : Kids) (x : ℕ) (key : List ℕ) → kids_delete ks x key ≡ delete_at ks x key (kid_at ks x)
unfolding kids_delete kid_at put
kids_delete_step end x key = refl
kids_delete_step (absent ks) zero key = refl
kids_delete_step (absent ks) (suc x) key =
    rw (kids_delete_step ks x key)
      (over_delete absent (absent ks) ks (suc x) x key (kid_at ks x) refl λ c. refl)
kids_delete_step (child t ks) zero key = rw (fun_ext (here_delete t ks))
kids_delete_step (child t ks) (suc x) key =
    rw (kids_delete_step ks x key)
      (over_delete (child t) (child t ks) ks (suc x) x key (kid_at ks x) refl λ c. refl)
