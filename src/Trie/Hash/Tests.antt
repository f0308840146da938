-- ===== src/Trie/Hash/Tests.antt =====
-- Uses of the theorems on hashes, with a toy encoding and a toy hash in place of the libraries'.
use ceno_reth_benchmark.Base.{ℕ, suc, refl, List, [], ◌∷◌, length, replicate, arith}
use ceno_reth_benchmark.Trie.Tests.{two, tree_two, two-Rep, two_Wf, two-IsValid}
use ceno_reth_benchmark.Trie.Hash.{Rlp, no_borrows, calc_reference, hash}
use ceno_reth_benchmark.Trie.Hash.Spec.{Laws, tree_ref, root_hash}
use ceno_reth_benchmark.Trie.Hash.Memo.{Calced}
use ceno_reth_benchmark.Trie.Hash.Correct.{calc_reference-Calced}
use ceno_reth_benchmark.Trie.Hash.Root.{Hashed, hash-Hashed, uncached, hash-uncached}

abbrev toy : Rlp
toy = record {
  list_header = λ n. n ∷ [];
  string = λ s. length s ∷ s;
  string_length = λ s. suc (length s);
  length_of_length = λ n. 1;
  keccak256 = λ s. replicate 32 (length s);
  empty_root_hash = replicate 32 0;
}

toy-Laws : Laws toy
toy-Laws = record {
  length-list_header = λ n. refl;
  length-string = λ s. refl;
  length-keccak256 = λ s. refl;
}

calc_reference-Calced_example : Calced toy two tree_two (calc_reference toy 2 no_borrows two 0)
calc_reference-Calced_example =
    calc_reference-Calced toy toy-Laws tree_two 2 no_borrows two (omega arith)
      (two-Rep (tree_ref toy)) two_Wf refl refl (λ j h ne. refl)

hash-Hashed_example : Hashed toy two tree_two (root_hash toy tree_two) (hash toy two)
hash-Hashed_example = hash-Hashed toy two toy-Laws (two-IsValid (tree_ref toy))

hash-uncached_example :
    (h : List ℕ) × Hashed toy two tree_two h (hash toy two)
    × Hashed toy (uncached two) tree_two h (hash toy (uncached two))
hash-uncached_example = hash-uncached toy two toy-Laws (two-IsValid (tree_ref toy))
