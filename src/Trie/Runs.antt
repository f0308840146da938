-- ===== src/Trie/Runs.antt =====
-- Any sequence of insertions and deletions on a trie of crates/mpt/src/trie.rs, as from_proof.rs and
-- the block execution make them, against the same writes to a map.
use ceno_reth_benchmark.Base.{
  ℕ, ◌+◌, ◌*◌, ◌≤◌, ◌^◌, ◌≡◌, refl, ap, ◌∙◌, some, none, List, [], ◌∷◌, All, arith, length,
  bytes_eq, if◌then◌else◌,
}
use ceno_reth_benchmark.Base.Result.{
  Result, ok, ◌>>=◌, Returns, returns, Returns-bind, Returns-mono,
}
use ceno_reth_benchmark.Hp.{IsByte}
use ceno_reth_benchmark.Trie.{Error, Mpt, NodeRef}
use ceno_reth_benchmark.Trie.Get.{get}
use ceno_reth_benchmark.Trie.Insert.{insert}
use ceno_reth_benchmark.Trie.Delete.{delete}
use ceno_reth_benchmark.Trie.Tree.{Tree}
use ceno_reth_benchmark.Trie.Spec.{Found}
use ceno_reth_benchmark.Trie.Spec.Returns.{IsRefusal}
use ceno_reth_benchmark.Trie.Valid.{IsValid}
use ceno_reth_benchmark.Trie.Correct.{insert-Wrote, delete-Wrote}

pub data Op : Type 0 where
  insert_op : List ℕ → List ℕ → Op
  delete_op : List ℕ → Op

abbrev pub key_of : Op → List ℕ
key_of (insert_op key value) = key
key_of (delete_op key) = key

abbrev pub step : Mpt → Op → Result Error Mpt
step m (insert_op key value) = insert m key value >>= λ r. ok r.1
step m (delete_op key) = delete m key >>= λ r. ok r.1

-- The first error ends the run.
abbrev pub run : Mpt → List Op → Result Error Mpt
run m [] = ok m
run m (op ∷ ops) = step m op >>= λ m'. run m' ops

-- A map is a function.
abbrev pub found : Op → Found
found (insert_op key value) = ok (some value)
found (delete_op key) = ok none

abbrev pub write : (List ℕ → Found) → Op → List ℕ → Found
write f op k = if bytes_eq (key_of op) k then found op else f k

abbrev pub write_each : (List ℕ → Found) → List Op → List ℕ → Found
write_each f [] = f
write_each f (op ∷ ops) = write_each (write f op) ops

abbrev pub HasByteKey : Op → Type 0
HasByteKey op = All IsByte (key_of op)

-- What one step does, seen at one key.
record Stepped (ref : Tree → NodeRef) (m : Mpt) (op : Op) (k : List ℕ) (m' : Mpt) : Type 0 where
  valid : IsValid ref m'
  reads : get m' k ≡ write (get m) op k
  few : length m'.nodes ≤ length m.nodes + 3

step-Stepped :
    (ref : Tree → NodeRef) (m : Mpt) (op : Op) (k : List ℕ)
    → IsValid ref m
    → length m.nodes + 3 ≤ 2 ^ 32
    → HasByteKey op
    → All IsByte k
    → Returns (Stepped ref m op k) IsRefusal (step m op)
step-Stepped ref m (insert_op key value) k v room kb kk =
    Returns-bind (insert-Wrote ref m key value k v room kb kk)
      λ r w. returns (record { valid = w.valid; reads = w.reads; few = w.few })
step-Stepped ref m (delete_op key) k v room kb kk =
    Returns-bind (delete-Wrote ref m key k v kb kk)
      λ r w. returns (record { valid = w.0.valid; reads = w.0.reads; few = w.0.few })

write_each_ext :
    (ops : List Op) (f g : List ℕ → Found) (k : List ℕ)
    → f k ≡ g k
    → write_each f ops k ≡ write_each g ops k
write_each_ext [] f g k h = h
write_each_ext (op ∷ ops) f g k h =
    write_each_ext ops (write f op) (write g op) k
      (ap (λ r. if bytes_eq (key_of op) k then found op else r) h)

-- What a run does, seen at one key.
pub record Ran (ref : Tree → NodeRef) (m : Mpt) (ops : List Op) (k : List ℕ) (m' : Mpt)
    : Type 0 where
  pub valid : IsValid ref m'
  pub reads : get m' k ≡ write_each (get m) ops k
  pub few : length m'.nodes ≤ length m.nodes + 3 * length ops

-- A run of insertions and deletions with byte keys, on a valid trie with room for three nodes each,
-- returns a valid trie, three nodes longer for each at most, in which any byte key reads as in the
-- map after the same writes; its only errors are those of the writes, and it does not panic.
pub run-write_each :
    (ref : Tree → NodeRef) (m : Mpt) (ops : List Op) (k : List ℕ)
    → IsValid ref m
    → length m.nodes + 3 * length ops ≤ 2 ^ 32
    → All HasByteKey ops
    → All IsByte k
    → Returns (Ran ref m ops k) IsRefusal (run m ops)
run-write_each ref m [] k v room kb kk =
    returns (record { valid = v; reads = refl; few = omega arith })
run-write_each ref m (op ∷ ops) k v room (ob, kb) kk =
    Returns-bind (step-Stepped ref m op k v (omega arith) ob kk) λ m' s.
      Returns-mono (run-write_each ref m' ops k s.valid (omega (arith, s.few)) kb kk)
        (λ m'' w. record {
          valid = w.valid;
          reads = w.reads ∙ write_each_ext ops (get m') (write (get m) op) k s.reads;
          few = omega (arith, w.few, s.few);
        })
        (λ e q. q)
