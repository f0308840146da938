-- ===== src/Client/Replay.antt =====
-- An eager run that records its lookups, and the streaming run over what is written in that order.
pub mod Linked
pub mod Steps
pub mod Storage
pub mod Run
pub mod Built
pub mod Correct
pub mod Tests
use ceno_reth_benchmark.Base.{ℕ, ◌≡◌, Bool, true, false, Option, none, some, List, [], ◌∷◌}
use ceno_reth_benchmark.Base.Result.{Result, ok, err, ◌>>=◌}
use ceno_reth_benchmark.Base.Maps.{Key, contains}
use ceno_reth_benchmark.State.{AccountInfo}
use ceno_reth_benchmark.Client.Input.{Bytecode, ProviderError}
use ceno_reth_benchmark.Client.Reader.{Env}
use ceno_reth_benchmark.Client.Database.{
  WitnessDb, basic_ref, storage_ref, code_by_hash_ref, block_hash_ref,
}

-- What the execution asks of its database.
pub data Query : Type 0 where
  basic : (address : List ℕ) → Query
  storage : (address : List ℕ) (index : ℕ) → Query
  code : (hash : List ℕ) → Query
  block_hash : (number : ℕ) → Query

pub data Answer : Type 0 where
  account_is : Option AccountInfo → Answer
  value_is : ℕ → Answer
  code_is : Bytecode → Answer
  hash_is : List ℕ → Answer

module _ (env : Env) where
  unfoldable pub answer : WitnessDb → Query → Result ProviderError (Answer × WitnessDb)
  answer db (basic address) = do (a, db') ← basic_ref env db address; ok (account_is a, db')
  answer db (storage address index) = do
    (v, db') ← storage_ref env db address index
    ok (value_is v, db')
  answer db (code hash) = do (c, db') ← code_by_hash_ref env db hash; ok (code_is c, db')
  answer db (block_hash number) = do h ← block_hash_ref env db number; ok (hash_is h, db)

  unfoldable pub run : WitnessDb → List Query → Result ProviderError (List Answer × WitnessDb)
  unfolding answer
  run db [] = ok ([], db)
  run db (q ∷ qs) = do (a, db1) ← answer db q; (as', db2) ← run db1 qs; ok (a ∷ as', db2)

  -- The account of an address is asked for before its slots, as the execution library does it.
  abbrev pub AccountsFirst : List Key → List Query → Type 0
  AccountsFirst known [] = Unit {0}
  AccountsFirst known (basic address ∷ qs) =
      AccountsFirst (env.codec.rlp.keccak256 address ∷ known) qs
  AccountsFirst known (storage address index ∷ qs) =
      (contains known (env.codec.rlp.keccak256 address) ≡ true) × AccountsFirst known qs
  AccountsFirst known (code hash ∷ qs) = AccountsFirst known qs
  AccountsFirst known (block_hash number ∷ qs) = AccountsFirst known qs
