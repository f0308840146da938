-- ===== src/Client/Replay/Correct.antt =====
-- What an eager execution read, the streaming execution reads.
use ceno_reth_benchmark.Base.{◌≡◌, refl, ap, subst, Option, none, some, List, [], ◌∷◌, ◌++◌}
use ceno_reth_benchmark.Base.Result.{
  ok, Ensures, on_ok, Ensures-bind, Ensures-bind_eq, Ensures-ok, Ensures-self,
}
use ceno_reth_benchmark.Base.Maps.{Map, find?, contains}
use ceno_reth_benchmark.State.{EthereumState}
use ceno_reth_benchmark.Headers.{Header, Hashes, build_block_hashes}
use ceno_reth_benchmark.Client.Input.{TrieAccount, Bytecode, StateTrieHeader, WitnessAccess}
use ceno_reth_benchmark.Client.Reader.{Env, Item, Input, state_trie_header}
use ceno_reth_benchmark.Client.Stream.{Streaming, build_streaming_state_from_input_reader}
use ceno_reth_benchmark.Client.Database.{
  ClientExecutorInput, StateProvider, BytecodeProvider, WitnessDb, build, from_parts,
  from_parts_recording, from_streaming_parts, collect_bytecodes,
}
use ceno_reth_benchmark.Trie.Frontier.{MptFrontier}
use ceno_reth_benchmark.Host.Write.{Sources, write_accesses, collect_tries, collect_accounts}
use ceno_reth_benchmark.Client.Replay.{Query, Answer, run, AccountsFirst}
use ceno_reth_benchmark.Client.Replay.Linked.{Opened, Linked, eager_db, streaming_db, fed}
use ceno_reth_benchmark.Client.Replay.Run.{run-Step}
use ceno_reth_benchmark.Client.Replay.Built.{
  build-AllPaired, collect_bytecodes-hashed, collect_accounts-Covered,
}

-- The tables of the writer for this input.
abbrev pub sources : Env → ClientExecutorInput → Map (Option TrieAccount) → Sources
sources env input accounts = record {
  account_by_hash = accounts;
  storage_trie_by_hash = collect_tries input.storage_tries [];
  bytecode_by_hash = collect_bytecodes env.code_hash_slow input.bytecodes [];
}

-- The queries over the streamed items, from the first read on: the answers, and what is left.
abbrev pub StreamsTo :
    Env → ClientExecutorInput → StateTrieHeader → List Item → List Query → List Answer → Type 0
StreamsTo env input header items qs answers =
    (rest : Input)
    → (s : Streaming) × (build_streaming_state_from_input_reader input.ancestor_headers
          (state_trie_header header ∷ (items ++ rest))
        ≡ ok s)
      × ((db : WitnessDb) × (from_streaming_parts env s input.current_block.header
              input.ancestor_headers
            ≡ ok db)
          × ((hashes : Hashes) × (s' : Streaming) × (run env db qs
                ≡ ok (answers, streaming_db hashes (fed s' rest)))))

-- An eager run that ended, with the order that it recorded.
abbrev pub Replays :
    Env → ClientExecutorInput → EthereumState → List Query → List Answer × WitnessDb → Type 0
Replays env input state qs r =
    (order : List WitnessAccess) × (r.1.witness_order ≡ some order)
    × ((accounts : Map (Option TrieAccount)) (more : List WitnessAccess) (frontier : MptFrontier)
          (header : StateTrieHeader)
        → collect_accounts env state.state_trie (order ++ more) [] ≡ ok accounts
        → (items : List Item) × (write_accesses (sources env input accounts) frontier order
            ≡ ok items)
          × StreamsTo env input header items qs r.0)

module _ (env : Env) (input : ClientExecutorInput) (state : EthereumState)
    (built : build env input ≡ ok state) where
  opened :
      (accounts : Map (Option TrieAccount))
      → Opened env state
          (collect_bytecodes env.code_hash_slow input.bytecodes [])
          (sources env input accounts)
  unfolding find?
  opened accounts = record {
    tries = (Ensures-ok (build-AllPaired env input) built).0;
    same_codes = refl;
    hashed = collect_bytecodes-hashed env input.bytecodes [] (λ k c h. cc);
  }

  abbrev codes : Map Bytecode
  codes = collect_bytecodes env.code_hash_slow input.bytecodes []

  abbrev Fresh : WitnessDb → Type 0
  Fresh db =
      (hashes : Hashes) × (build_block_hashes env.header_hash_slow
          (input.current_block.header ∷ input.ancestor_headers)
        ≡ ok hashes)
      × (db ≡ eager_db state codes hashes [] [] [] [])

  from_parts-Fresh :
      Ensures
        (λ db.
          (hashes : Hashes) × (build_block_hashes env.header_hash_slow
              (input.current_block.header ∷ input.ancestor_headers)
            ≡ ok hashes)
          × (db ≡ record {
            state = StateProvider.eager (record {
              state = state;
              account_lookup_order = none;
              storage_lookup_order = none;
            });
            block_hashes = hashes;
            bytecodes = BytecodeProvider.eager codes none;
            witness_order = none;
          }))
        (from_parts env state input.current_block.header input.ancestor_headers input.bytecodes)
  unfolding from_parts
  from_parts-Fresh =
      Ensures-bind_eq
        (build_block_hashes env.header_hash_slow
          (input.current_block.header ∷ input.ancestor_headers))
        (λ hashes q. on_ok (hashes, q, refl))

  recording-Fresh : Ensures Fresh (
      from_parts_recording env state input.current_block.header input.ancestor_headers
        input.bytecodes)
  unfolding from_parts_recording
  recording-Fresh = Ensures-bind from_parts-Fresh (λ db f. rw f.2 (on_ok (f.0, f.1, refl)))

  abbrev fresh_stream : StateTrieHeader → Header → Input → Streaming
  fresh_stream header parent rest = record {
    state_trie_header = header;
    parent_state_root = parent.state_root;
    state_trie = none;
    account_cache = [];
    storage_tries = [];
    input = rest;
  }

  fresh-Linked :
      (header : StateTrieHeader) (parent : Header) (rest : Input)
      → Linked env state [] [] (fresh_stream header parent rest)
  unfolding contains find?
  fresh-Linked header parent rest = record {
    cached = λ k. refl;
    values = λ k a h. cc;
    loaded = λ k. refl;
    same = λ k m h. cc;
  }

  streams_to :
      (qs : List Query) (hashes : Hashes) (src : Sources) (frontier : MptFrontier)
      (header : StateTrieHeader) (r : List Answer × WitnessDb) (items : List Item)
      → build_block_hashes env.header_hash_slow
          (input.current_block.header ∷ input.ancestor_headers)
        ≡ ok hashes
      → ((s : Streaming) (rest : Input)
          → Linked env state [] [] s
          → (s' : Streaming) × (run env (streaming_db hashes (fed s (items ++ rest))) qs
              ≡ ok (r.0, streaming_db hashes (fed s' rest))))
      → StreamsTo env input header items qs r.0
  unfolding build_streaming_state_from_input_reader from_streaming_parts
  streams_to qs hashes src frontier header r items b go rest =
      let parent = (Ensures-ok (build-AllPaired env input) built).1 in
      let s : Streaming = fresh_stream header parent.0 (items ++ rest) in
      let ran = go s rest (fresh-Linked header parent.0 (items ++ rest)) in
      (s, rw parent.1 refl, (streaming_db hashes s, rw b refl, (hashes, ran.0, ran.1)))

  -- One run, for every table of accounts.
  replays :
      (hashes : Hashes) (qs : List Query) (r : List Answer × WitnessDb)
      → build_block_hashes env.header_hash_slow
          (input.current_block.header ∷ input.ancestor_headers)
        ≡ ok hashes
      → AccountsFirst env [] qs
      → run env (eager_db state codes hashes [] [] [] []) qs ≡ ok r
      → Replays env input state qs r
  replays hashes qs r b ready e =
      let step = λ (accounts : Map (Option TrieAccount)) (frontier : MptFrontier).
        Ensures-ok
          (run-Step env state codes hashes (sources env input accounts) frontier (opened accounts)
            [] [] [] [] [] qs (λ k h. h) ready)
          e in
      let no_frontier : MptFrontier = record { num_nodes = 0; encoded = []; chunks = [] } in
      let first = step [] no_frontier in
      (
        first.w,
        ap (λ (db : WitnessDb). db.witness_order) first.db_eq,
        λ accounts more frontier header c.
            let st = step accounts frontier in
            let same : first.w ≡ st.w = cc (
              ap (λ (db : WitnessDb). db.witness_order) first.db_eq,
              ap (λ (db : WitnessDb). db.witness_order) st.db_eq,
            ) in
            let covered =
              collect_accounts-Covered env state (sources env input accounts) st.w more (
                subst (λ w. collect_accounts env state.state_trie (w ++ more) [] ≡ ok accounts) same
                  c) in
            let t = st.streams covered in
            (
              t.0,
              rw same t.1,
              streams_to qs hashes (sources env input accounts) frontier header r t.0 b
                  (λ s rest l. let u = t.2 s rest l in (u.0, u.1)),
            ),
      )

-- A run of queries over the eager database of a built input, each slot after its account, that ends
-- with answers and a recorded order: if the writer finds the accounts of this order and of whatever
-- follows it, it writes the items of the order, and over these items, whatever comes behind them, the
-- streaming database gives the same answers and leaves what comes behind.
pub run-Replays :
    (env : Env) (input : ClientExecutorInput) (state : EthereumState) (db : WitnessDb)
    (qs : List Query)
    → build env input ≡ ok state
    → from_parts_recording env state input.current_block.header input.ancestor_headers
        input.bytecodes
      ≡ ok db
    → AccountsFirst env [] qs
    → Ensures (Replays env input state qs) (run env db qs)
run-Replays env input state db qs built recorded ready =
    let f = Ensures-ok (recording-Fresh env input state built) recorded in
    Ensures-self (run env db qs) λ r e.
      replays env input state built f.0 qs r f.1 ready (subst (λ d. run env d qs ≡ ok r) f.2 e)
