-- ===== src/State/Tests.antt =====
-- Uses of the theorems on the state, with toy encodings in place of the libraries'.
use ceno_reth_benchmark.Base.{
  ℕ, zero, suc, bytes_eq, refl, false, List, [], ◌∷◌, All, arith, length, replicate, some, none,
  true,
}
use ceno_reth_benchmark.Base.Result.{Returns}
use ceno_reth_benchmark.Hp.{IsByte}
use ceno_reth_benchmark.Trie.{new}
use ceno_reth_benchmark.Trie.Delete.{delete}
use ceno_reth_benchmark.Trie.Spec.Returns.{IsRefusal}
use ceno_reth_benchmark.Trie.Valid.{new-IsValid}
use ceno_reth_benchmark.Trie.Runs.{Ran}
use ceno_reth_benchmark.Trie.Tests.{two, two-IsValid}
use ceno_reth_benchmark.Trie.Hash.{Rlp}
use ceno_reth_benchmark.Trie.Hash.Spec.{tree_ref}
use ceno_reth_benchmark.State.{
  Codec, AccountInfo, EthereumState, update_slots, update_info, lookup, remove_account,
  BundleAccount, update_from_bundle_state,
}
use ceno_reth_benchmark.State.Fits.{Fits}
use ceno_reth_benchmark.State.Bundle.{total_weight, Follows, update_from_bundle_state-Follows}
use ceno_reth_benchmark.State.Correct.{
  CodecLaws, slot_ops, update_slots-Ran, Updated, update_info-Updated, Removed,
  remove_account-Removed,
}

abbrev zeros : List ℕ
zeros = replicate 32 0

abbrev toy_rlp : Rlp
toy_rlp = record {
  list_header = λ n. n ∷ [];
  string = λ s. length s ∷ s;
  string_length = λ s. suc (length s);
  length_of_length = λ n. 1;
  keccak256 = λ s. zeros;
  empty_root_hash = zeros;
}

abbrev toy_codec : Codec
toy_codec = record {
  rlp = toy_rlp;
  be_bytes = λ n. n ∷ [];
  encode_value = λ n. n ∷ [];
  encode_account = λ nonce balance root code. nonce ∷ balance ∷ root;
}

toy_codec-CodecLaws : CodecLaws toy_codec
toy_codec-CodecLaws = record {
  rlp = record {
    length-list_header = λ n. refl;
    length-string = λ s. refl;
    length-keccak256 = λ s. refl;
  };
  keccak256_bytes = λ s. zeros-All;
}
  where
    bytes_of : (n : ℕ) → All IsByte (replicate n 0)
    bytes_of zero = tt
    bytes_of (suc n) = (omega arith, bytes_of n)

    zeros-All : All IsByte zeros
    zeros-All = bytes_of 32

abbrev one_account : EthereumState
one_account = record { state_trie = two; storage_tries = (0x56 ∷ [], two) ∷ [] }

abbrev some_info : AccountInfo
some_info = record { nonce = 1; balance = 5; code_hash = [] }

-- One slot is set and one is cleared.
abbrev some_slots : List (ℕ × ℕ)
some_slots = (3, 9) ∷ (4, 0) ∷ []

update_slots-Ran_example :
    Returns
      (Ran (tree_ref toy_rlp) new (slot_ops toy_codec some_slots) (0x12 ∷ []))
      IsRefusal
      (update_slots toy_codec new some_slots)
unfolding new
update_slots-Ran_example =
    update_slots-Ran toy_codec new some_slots (0x12 ∷ []) toy_codec-CodecLaws
      (new-IsValid (tree_ref toy_rlp)) (omega arith) (omega arith, tt)

update_info-Updated_example :
    Returns
      (Updated toy_codec one_account
        (0x56 ∷ [])
        some_info
        false
        some_slots
        (0x12 ∷ [])
        (0x34 ∷ [])
        (0x78 ∷ []))
      IsRefusal
      (update_info toy_codec one_account (0x56 ∷ []) some_info false some_slots)
unfolding lookup bytes_eq
update_info-Updated_example =
    update_info-Updated toy_codec one_account (0x56 ∷ []) some_info false some_slots (0x12 ∷ [])
      (0x34 ∷ []) (0x78 ∷ []) toy_codec-CodecLaws (two-IsValid (tree_ref toy_rlp)) (omega arith)
      (two-IsValid (tree_ref toy_rlp)) (omega arith) (omega arith, tt) (omega arith, tt)
      (omega arith, tt)

remove_account-Removed_example :
    Removed toy_codec one_account
      (0x12 ∷ [])
      (0x34 ∷ [])
      (delete two (0x12 ∷ []))
      (remove_account one_account (0x12 ∷ []))
remove_account-Removed_example =
    remove_account-Removed toy_codec one_account (0x12 ∷ []) (0x34 ∷ [])
      (two-IsValid (tree_ref toy_rlp)) (omega arith, tt) (omega arith, tt)

-- One account that stays and one that goes.
abbrev some_bundle : List (List ℕ × BundleAccount)
some_bundle =
    (0x56 ∷ [], record { info = some some_info; was_destroyed = false; storage = some_slots })
    ∷ (0x57 ∷ [], record { info = none; was_destroyed = true; storage = [] })
    ∷ []

two-Fits : Fits toy_codec (total_weight some_bundle) two
two-Fits = record { valid = two-IsValid (tree_ref toy_rlp); room = omega arith }

update_from_bundle_state-Follows_example :
    Follows toy_codec one_account some_bundle
      (update_from_bundle_state toy_codec one_account some_bundle)
update_from_bundle_state-Follows_example =
    update_from_bundle_state-Follows toy_codec one_account some_bundle toy_codec-CodecLaws
      (record { state = two-Fits; storage = (two-Fits, tt) }) (omega arith)
