-- ===== src/Host/Write.antt =====
-- The items of `write_ceno_client_input` of crates/host-bench/src/lib.rs: the accesses up to the
-- marker of the state trie, and then chunk by chunk those that come after it.
use ceno_reth_benchmark.Base.{
  ℕ, Bool, true, false, Option, none, some, List, [], ◌∷◌, ◌++◌, if◌then◌else◌, length, starts_with,
}
use ceno_reth_benchmark.Base.Result.{Result, ok, err, panic, ◌>>=◌}
use ceno_reth_benchmark.Base.Maps.{Key, Map, find?, put}
use ceno_reth_benchmark.Hp.{to_nibs}
use ceno_reth_benchmark.Trie.{Error, Mpt}
use ceno_reth_benchmark.Trie.Frontier.{FrontierChunk, MptFrontier}
use ceno_reth_benchmark.Headers.{Header}
use ceno_reth_benchmark.Client.Input.{
  TrieAccount, StorageTrieInput, Bytecode, ClientWitnessInput, WitnessAccess, account, storage_trie,
  bytecode, state_trie, modified_account,
}
use ceno_reth_benchmark.Client.Reader.{
  Env, Block, Item, ancestor_headers, current_block, state_trie_header, witness, raw, get_rlp,
  map_err,
}

-- The errors of the writer, by their messages.
pub data WriteFault : Type 0 where
  missing_account : Key → WriteFault
  missing_storage_trie : Key → WriteFault
  missing_bytecode : Key → WriteFault
  no_state_trie_marker : WriteFault
  mpt : Error → WriteFault

-- What is looked up while the accesses are written.
pub record Sources : Type 0 where
  pub account_by_hash : Map (Option TrieAccount)
  pub storage_trie_by_hash : Map StorageTrieInput
  pub bytecode_by_hash : Map Bytecode

abbrev pub Written : Type 0
Written = Result WriteFault (List Item)

-- `collect` of the storage tries by their address: the last one of an address stays.
unfoldable pub collect_tries : List StorageTrieInput → Map StorageTrieInput → Map StorageTrieInput
collect_tries [] m = m
collect_tries (i ∷ inputs) m = collect_tries inputs (put i.hashed_address i m)

-- The account of each recorded account access.
unfoldable pub collect_accounts :
    Env
    → Mpt
    → List WitnessAccess
    → Map (Option TrieAccount)
    → Result WriteFault (Map (Option TrieAccount))
unfolding get_rlp
collect_accounts env trie [] m = ok m
collect_accounts env trie (account h ∷ order) m = do
  a ← map_err mpt (get_rlp env.decode_account trie h)
  collect_accounts env trie order (put h a m)
collect_accounts env trie (storage_trie h ∷ order) m = collect_accounts env trie order m
collect_accounts env trie (bytecode h ∷ order) m = collect_accounts env trie order m
collect_accounts env trie (state_trie ∷ order) m = collect_accounts env trie order m
collect_accounts env trie (modified_account h n ∷ order) m = collect_accounts env trie order m

abbrev pub account_items : Key → Option (Option TrieAccount) → Written
account_items h none = err (missing_account h)
account_items h (some a) =
    ok (witness (ClientWitnessInput.account (record { hashed_address = h; account = a })) ∷ [])

abbrev pub trie_items : Key → Option StorageTrieInput → Written
trie_items h none = err (missing_storage_trie h)
trie_items h (some i) = ok (
    witness (
      ClientWitnessInput.storage_trie
        (record { hashed_address = i.hashed_address; num_nodes = i.num_nodes }))
    ∷ raw i.encoded
    ∷ [])

abbrev pub code_items : Key → Option Bytecode → Written
code_items h none = err (missing_bytecode h)
code_items h (some code) = ok (witness (ClientWitnessInput.bytecode code) ∷ [])

-- An access of the part before the marker, and the marker.
unfoldable pub write_access : Sources → MptFrontier → WitnessAccess → Written
write_access src frontier (account h) = account_items h (find? h src.account_by_hash)
write_access src frontier (storage_trie h) = trie_items h (find? h src.storage_trie_by_hash)
write_access src frontier (bytecode h) = code_items h (find? h src.bytecode_by_hash)
write_access src frontier state_trie = ok (raw frontier.encoded ∷ [])
write_access src frontier (modified_account h n) = panic

unfoldable pub write_accesses : Sources → MptFrontier → List WitnessAccess → Written
unfolding write_access
write_accesses src frontier [] = ok []
write_accesses src frontier (a ∷ order) = do
  items ← write_access src frontier a
  rest ← write_accesses src frontier order
  ok (items ++ rest)

abbrev pub is_state_trie : WitnessAccess → Bool
is_state_trie state_trie = true
is_state_trie (account h) = false
is_state_trie (storage_trie h) = false
is_state_trie (bytecode h) = false
is_state_trie (modified_account h n) = false

-- `witness_order[..=state_marker]` and `witness_order[state_marker + 1..]`.
unfoldable pub split_at_marker :
    List WitnessAccess → Option (List WitnessAccess × List WitnessAccess)
split_at_marker [] = none
split_at_marker (a ∷ order) =
    if is_state_trie a then some (a ∷ [], order) else extend (split_at_marker order)
  where
    extend :
        Option (List WitnessAccess × List WitnessAccess)
        → Option (List WitnessAccess × List WitnessAccess)
    extend none = none
    extend (some (before, after)) = some (a ∷ before, after)

abbrev pub access_key : WitnessAccess → Option Key
access_key (account h) = some h
access_key (storage_trie h) = some h
access_key (bytecode h) = none
access_key state_trie = none
access_key (modified_account h n) = none

-- The accounts and storage tries of a list of accesses that lie below a prefix.
unfoldable pub accesses_below : List ℕ → List WitnessAccess → List WitnessAccess
unfolding starts_with
accesses_below prefix [] = []
accesses_below prefix (a ∷ order) = keep (access_key a) (accesses_below prefix order)
  where
    keep : Option Key → List WitnessAccess → List WitnessAccess
    keep none rest = rest
    keep (some h) rest = if starts_with (to_nibs h) prefix then a ∷ rest else rest

unfoldable pub write_chunk : Sources → MptFrontier → List WitnessAccess → FrontierChunk → Written
unfolding accesses_below write_accesses
write_chunk src frontier post_accesses chunk = do
  let chunk_accesses = accesses_below chunk.prefix post_accesses
  items ← write_accesses src frontier chunk_accesses
  ok (
      witness (
        ClientWitnessInput.state_chunk (record {
          prefix = chunk.prefix;
          expected_root = chunk.expected_root;
          num_nodes = chunk.num_nodes;
          witness_count = length chunk_accesses;
        }))
      ∷ raw chunk.encoded
      ∷ items)

unfoldable pub write_chunks :
    Sources → MptFrontier → List WitnessAccess → List FrontierChunk → Written
unfolding write_chunk
write_chunks src frontier post_accesses [] = ok []
write_chunks src frontier post_accesses (chunk ∷ chunks) = do
  items ← write_chunk src frontier post_accesses chunk
  rest ← write_chunks src frontier post_accesses chunks
  ok (items ++ rest)

-- All items, given the order that was recorded, the frontier and the tables.
abbrev pub write_split :
    Sources
    → MptFrontier
    → List Header
    → Block
    → Option (List WitnessAccess × List WitnessAccess)
    → Written
write_split src frontier headers block none = err no_state_trie_marker
write_split src frontier headers block (some (before, after)) = do
  items ← write_accesses src frontier before
  chunks ← write_chunks src frontier after frontier.chunks
  ok (
      ancestor_headers headers
      ∷ current_block block
      ∷ state_trie_header (record {
        version = 2;
        num_nodes = frontier.num_nodes;
        chunk_count = length frontier.chunks;
      })
      ∷ (items ++ chunks))

unfoldable pub write_ceno_client_input :
    Sources → MptFrontier → List Header → Block → List WitnessAccess → Written
unfolding split_at_marker write_accesses write_chunks
write_ceno_client_input src frontier headers block witness_order =
    write_split src frontier headers block (split_at_marker witness_order)
