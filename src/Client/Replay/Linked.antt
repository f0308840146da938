-- ===== src/Client/Replay/Linked.antt =====
-- The eager and the streaming database after the same queries.
use ceno_reth_benchmark.Base.{◌≡◌, refl, true, false, Option, none, some, List, ◌++◌, All}
use ceno_reth_benchmark.Base.Result.{Result, ok, err, panic, stuck}
use ceno_reth_benchmark.Base.Maps.{Key, Map, find?, contains, is_some}
use ceno_reth_benchmark.Trie.{Mpt}
use ceno_reth_benchmark.State.{EthereumState}
use ceno_reth_benchmark.Client.Input.{
  TrieAccount, StorageTrieInput, Bytecode, WitnessAccess, account, storage_trie, bytecode,
  state_trie, modified_account, ProviderError,
}
use ceno_reth_benchmark.Client.Reader.{Env, Item, Input, get_rlp, open_trie, root_or_empty}
use ceno_reth_benchmark.Client.Stream.{Streaming}
use ceno_reth_benchmark.Client.Database.{StateProvider, BytecodeProvider, WitnessDb, expect}
use ceno_reth_benchmark.Trie.Frontier.{MptFrontier}
use ceno_reth_benchmark.Host.Write.{Sources, write_accesses}
use ceno_reth_benchmark.Headers.{Hashes}

-- The state and the codes are those of the writer's tables.
pub record Opened (env : Env) (state : EthereumState) (codes : Map Bytecode) (src : Sources)
    : Type 0 where
  pub tries :
      (k : Key) (m : Mpt)
      → find? k state.storage_tries ≡ some m
      → (i : StorageTrieInput) × (find? k src.storage_trie_by_hash ≡ some i)
        × (i.hashed_address ≡ k)
        × ((a : Option TrieAccount) × (get_rlp env.decode_account state.state_trie k ≡ ok a)
            × (open_trie env i.encoded ≡ ok (root_or_empty env a, m)))
  pub same_codes : src.bytecode_by_hash ≡ codes
  pub hashed : (k : Key) (c : Bytecode) → find? k codes ≡ some c → env.code_hash_slow c ≡ k

-- The table of accounts has those of the accesses.
abbrev pub Covered : Env → EthereumState → Sources → WitnessAccess → Type 0
Covered env state src (account k) =
    (a : Option TrieAccount) × (get_rlp env.decode_account state.state_trie k ≡ ok a)
    × (find? k src.account_by_hash ≡ some a)
Covered env state src (storage_trie k) = Unit {0}
Covered env state src (bytecode k) = Unit {0}
Covered env state src state_trie = Unit {0}
Covered env state src (modified_account k n) = Unit {0}

-- The eager database while it records.
abbrev pub eager_db :
    EthereumState
    → Map Bytecode
    → Hashes
    → (accounts tries code_order : List Key) → List WitnessAccess
    → WitnessDb
eager_db state codes hashes accounts tries code_order order = record {
  state = StateProvider.eager (record {
    state = state;
    account_lookup_order = some accounts;
    storage_lookup_order = some tries;
  });
  block_hashes = hashes;
  bytecodes = BytecodeProvider.eager codes (some code_order);
  witness_order = some order;
}

abbrev pub fed : Streaming → Input → Streaming
fed s input = record s { input = input }

abbrev pub streaming_db : Hashes → Streaming → WitnessDb
streaming_db hashes s = record {
  state = StateProvider.streaming s;
  block_hashes = hashes;
  bytecodes = BytecodeProvider.streaming;
  witness_order = none;
}

-- What was looked up eagerly is there, and the same.
pub record Linked (env : Env) (state : EthereumState) (accounts tries : List Key) (s : Streaming)
    : Type 0 where
  pub cached : (k : Key) → contains accounts k ≡ is_some (find? k s.account_cache)
  pub values :
      (k : Key) (a : Option TrieAccount)
      → find? k s.account_cache ≡ some a
      → get_rlp env.decode_account state.state_trie k ≡ ok a
  pub loaded : (k : Key) → contains tries k ≡ is_some (find? k s.storage_tries)
  pub same :
      (k : Key) (m : Mpt) → find? k s.storage_tries ≡ some m → find? k state.storage_tries ≡ some m

-- One query: the eager database records `w`; on the items that are written for `w` the streaming one
-- gives the same answer, and they stay linked.
pub record Step {A : Type 0} (env : Env) (state : EthereumState) (codes : Map Bytecode)
    (hashes : Hashes) (src : Sources) (frontier : MptFrontier) (known accounts tries : List Key)
    (order : List WitnessAccess) (call : WitnessDb → Result ProviderError (A × WitnessDb))
    (r : A × WitnessDb) : Type 0 where
  pub accounts' : List Key
  pub tries' : List Key
  pub code_order' : List Key
  pub w : List WitnessAccess
  pub db_eq : r.1 ≡ eager_db state codes hashes accounts' tries' code_order' (order ++ w)
  pub known_ok : (k : Key) → contains known k ≡ true → contains accounts' k ≡ true
  pub streams :
      All (Covered env state src) w
      → (its : List Item) × (write_accesses src frontier w ≡ ok its)
        × ((s : Streaming) (rest : Input)
            → Linked env state accounts tries s
            → (s' : Streaming) × (call (streaming_db hashes (fed s (its ++ rest)))
                ≡ ok (r.0, streaming_db hashes (fed s' rest)))
              × Linked env state accounts' tries' s')

pub is_some-find : {A : Type 0} (o : Option A) → true ≡ is_some o → (a : A) × (o ≡ some a)
is_some-find none h = cc
is_some-find (some a) h = (a, refl)

pub is_some-none : {A : Type 0} (o : Option A) → false ≡ is_some o → o ≡ none
is_some-none none h = refl
is_some-none (some a) h = cc

pub expect-ok : {E F A : Type 0} (r : Result E A) {a : A} → expect {F = F} r ≡ ok a → r ≡ ok a
expect-ok (ok a) h = cc
expect-ok (err e) h = cc
expect-ok panic h = cc
expect-ok stuck h = cc
