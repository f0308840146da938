-- ===== src/Trie/Tests.antt =====
-- Runs of the operations of crates/mpt/src/trie.rs on small tries, and uses of the theorems on them.
use ceno_reth_benchmark.Base.{ℕ, ◌≡◌, refl, inl, Option, none, some, List, [], ◌∷◌, arith, bytes_eq}
use ceno_reth_benchmark.Base.Result.{Sim, ok, err, Returns}
use ceno_reth_benchmark.Hp.{to_encoded_path, to_nibs, lcp, prefix_to_nibs}
use ceno_reth_benchmark.Trie.{value_in_branch, Mpt, NodeData, NodeRef, new, put_child, add_node}
use ceno_reth_benchmark.Trie.Get.{get}
use ceno_reth_benchmark.Trie.Insert.{insert, insert_nibbles, insert_internal}
use ceno_reth_benchmark.Trie.Delete.{delete, delete_nibbles, delete_internal}
use ceno_reth_benchmark.Trie.Tree.{Rep, Wf, Tree, branch, leaf, end, absent, child}
use ceno_reth_benchmark.Trie.Spec.Returns.{IsUnresolved, IsRefusal}
use ceno_reth_benchmark.Trie.Spec.DeleteGet.{Was}
use ceno_reth_benchmark.Trie.Spec.{tree_insert, tree_delete}
use ceno_reth_benchmark.Trie.Refine.Post.{Follows}
use ceno_reth_benchmark.Trie.Refine.Insert.{insert_internal-Follows}
use ceno_reth_benchmark.Trie.Refine.Delete.{delete_internal-Follows}
use ceno_reth_benchmark.Trie.Valid.{IsValid}
use ceno_reth_benchmark.Trie.Correct.{Any, Wrote, get-Returns, insert-Wrote, delete-Wrote}
use ceno_reth_benchmark.Trie.Fixed.{IsFixed, insert-IsFixed, delete-IsFixed}
use ceno_reth_benchmark.Trie.Runs.{Op, insert_op, delete_op, Ran, run, run-write_each}

abbrev slots12 : List (Option ℕ)
slots12 =
    none
    ∷ some 1
    ∷ none
    ∷ some 2
    ∷ none
    ∷ none
    ∷ none
    ∷ none
    ∷ none
    ∷ none
    ∷ none
    ∷ none
    ∷ none
    ∷ none
    ∷ none
    ∷ none
    ∷ []

-- The keys 0x12 and 0x34 with the values 7 and 8.
abbrev pub two : Mpt
two = record {
  root_id = 0;
  nodes =
      NodeData.branch slots12
      ∷ NodeData.leaf (0x32 ∷ []) (7 ∷ [])
      ∷ NodeData.leaf (0x34 ∷ []) (8 ∷ [])
      ∷ [];
  cached_references = none ∷ none ∷ none ∷ [];
}

abbrev leaf1 : Tree
leaf1 = leaf 1 (0x32 ∷ []) (7 ∷ [])

abbrev leaf2 : Tree
leaf2 = leaf 2 (0x34 ∷ []) (8 ∷ [])

abbrev pub tree_two : Tree
tree_two = branch 0 (
    absent (
      child leaf1 (
        absent (
          child leaf2 (
            absent (
              absent (
                absent (
                  absent (
                    absent
                      (absent (absent (absent (absent (absent (absent (absent end))))))))))))))))

pub two-Rep : (ref : Tree → NodeRef) → Rep ref two tree_two
two-Rep ref = (
  record { at = refl; cached = inl refl },
  (record { at = refl; cached = inl refl }, (record { at = refl; cached = inl refl }, tt)),
)

pub two_Wf : Wf tree_two
two_Wf =
    (refl, refl, ((omega arith, tt), ((omega arith, tt), tt, λ j h. refl), λ j h. ground arith))

abbrev pub two-IsValid : (ref : Tree → NodeRef) → IsValid ref two
two-IsValid ref = record {
  tree = tree_two;
  root = refl;
  rep = two-Rep ref;
  wf = two_Wf;
  sized = refl;
  canon = (omega arith, (tt, (tt, tt)));
}

abbrev no_ref : Tree → NodeRef
no_ref t = NodeRef.bytes (0x80 ∷ [])

insert_two : run new (insert_op (0x12 ∷ []) (7 ∷ []) ∷ insert_op (0x34 ∷ []) (8 ∷ []) ∷ []) ≡ ok two
unfolding insert new insert_nibbles insert_internal to_encoded_path to_nibs lcp prefix_to_nibs
    put_child add_node
insert_two = refl

delete_two :
    run two (delete_op (0x34 ∷ []) ∷ [])
    ≡ ok (record {
      root_id = 0;
      nodes =
          NodeData.leaf (0x20 ∷ 0x12 ∷ []) (7 ∷ [])
          ∷ NodeData.leaf (0x32 ∷ []) (7 ∷ [])
          ∷ NodeData.null
          ∷ [];
      cached_references = none ∷ none ∷ none ∷ [];
    })
unfolding delete delete_nibbles delete_internal to_nibs bytes_eq prefix_to_nibs put_child
    to_encoded_path
delete_two = refl

short_key : insert two [] (9 ∷ []) ≡ err value_in_branch
unfolding insert insert_nibbles insert_internal to_nibs
short_key = refl

get-Returns_example : Returns Any IsUnresolved (get two (0x12 ∷ []))
get-Returns_example = get-Returns no_ref two (0x12 ∷ []) (two-IsValid no_ref) (omega arith, tt)

insert-Wrote_example :
    Returns
      (Wrote no_ref two (0x13 ∷ []) (ok (some (9 ∷ []))) (0x12 ∷ []))
      IsRefusal
      (insert two (0x13 ∷ []) (9 ∷ []))
insert-Wrote_example =
    insert-Wrote no_ref two (0x13 ∷ []) (9 ∷ []) (0x12 ∷ []) (two-IsValid no_ref) (omega arith)
      (omega arith, tt) (omega arith, tt)

delete-Wrote_example :
    Returns
      (λ r. Wrote no_ref two (0x34 ∷ []) (ok none) (0x12 ∷ []) r × Was r.0 (get two (0x34 ∷ [])))
      IsRefusal
      (delete two (0x34 ∷ []))
delete-Wrote_example =
    delete-Wrote no_ref two (0x34 ∷ []) (0x12 ∷ []) (two-IsValid no_ref) (omega arith, tt)
      (omega arith, tt)

abbrev some_ops : List Op
some_ops = insert_op (0x13 ∷ []) (9 ∷ []) ∷ delete_op (0x34 ∷ []) ∷ []

run-write_each_example : Returns (Ran no_ref two some_ops (0x12 ∷ [])) IsRefusal (run two some_ops)
run-write_each_example =
    run-write_each no_ref two some_ops (0x12 ∷ []) (two-IsValid no_ref) (omega arith)
      ((omega arith, tt), ((omega arith, tt), tt)) (omega arith, tt)

insert_internal-Follows_example :
    Sim
      (Follows no_ref two tree_two)
      (insert_internal 2 two 0 (1 ∷ 3 ∷ []) (9 ∷ []))
      (tree_insert tree_two (1 ∷ 3 ∷ []) (9 ∷ []) 3)
insert_internal-Follows_example =
    insert_internal-Follows no_ref two refl (omega arith) tree_two 2 (1 ∷ 3 ∷ []) (9 ∷ [])
      (omega arith) (two-Rep no_ref) two_Wf (omega arith, (omega arith, tt))

delete_internal-Follows_example :
    Sim
      (Follows no_ref two tree_two)
      (delete_internal 2 two 0 (3 ∷ 4 ∷ []))
      (tree_delete tree_two (3 ∷ 4 ∷ []))
delete_internal-Follows_example =
    delete_internal-Follows no_ref two refl tree_two 2 (3 ∷ 4 ∷ []) (omega arith) (two-Rep no_ref)
      two_Wf

two-IsFixed : IsFixed no_ref 1 two
unfolding prefix_to_nibs to_nibs
two-IsFixed = record { valid = two-IsValid no_ref; deep = (omega arith, (refl, (refl, tt))) }

insert-IsFixed_example :
    Returns (λ r. IsFixed no_ref 1 r.1) IsUnresolved (insert two (0x13 ∷ []) (9 ∷ []))
insert-IsFixed_example =
    insert-IsFixed no_ref two (0x13 ∷ []) (9 ∷ []) two-IsFixed (omega arith) (omega arith, tt)

delete-IsFixed_example : Returns (λ r. IsFixed no_ref 1 r.1) IsUnresolved (delete two (0x34 ∷ []))
delete-IsFixed_example = delete-IsFixed no_ref two (0x34 ∷ []) two-IsFixed (omega arith, tt)
