-- ===== src/Client/Update/Sorted.antt =====
-- The accounts of a bundle in the order of their hashed addresses.
use ceno_reth_benchmark.Base.{ℕ, Bool, true, false, List, [], ◌∷◌, ltb, if◌then◌else◌}
use ceno_reth_benchmark.State.{BundleAccount}
use ceno_reth_benchmark.Client.Reader.{Env}

abbrev pub Entry : Type 0
Entry = List ℕ × BundleAccount

-- Byte strings in the order of the language.
unfoldable pub bytes_leb : List ℕ → List ℕ → Bool
bytes_leb [] ys = true
bytes_leb (x ∷ xs) [] = false
bytes_leb (x ∷ xs) (y ∷ ys) = if ltb x y then true else if ltb y x then false else bytes_leb xs ys

-- An insertion into a sorted list, in front of equal keys.
unfoldable pub insert_entry : Entry → List Entry → List Entry
insert_entry e [] = e ∷ []
insert_entry e (f ∷ es) = if bytes_leb e.0 f.0 then e ∷ f ∷ es else f ∷ insert_entry e es

-- `sort_by_key`, which is stable.
unfoldable pub sort_accounts : List Entry → List Entry
unfolding bytes_leb insert_entry
sort_accounts [] = []
sort_accounts (e ∷ es) = insert_entry e (sort_accounts es)

unfoldable pub hash_accounts : Env → List (List ℕ × BundleAccount) → List Entry
hash_accounts env [] = []
hash_accounts env ((address, account) ∷ bundle) =
    (env.codec.rlp.keccak256 address, account) ∷ hash_accounts env bundle
