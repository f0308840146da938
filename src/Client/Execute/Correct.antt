-- ===== src/Client/Execute/Correct.antt =====
-- A recorded execution of a block, and the execution over the stream.
use ceno_reth_benchmark.Base.{
  ℕ, ◌≡◌, refl, ◌∙◌, subst, not, true, Option, some, List, [], ◌∷◌, ◌++◌, append_assoc, get_elem?,
  bytes_eq,
}
use ceno_reth_benchmark.Base.Result.{
  ok, Ensures, on_ok, on_err, Ensures-bind, Ensures-bind_eq, Ensures-mono, unwrap-Ensures,
  Ensures-any, Ensures-if, Ensures-ok,
}
use ceno_reth_benchmark.Base.Maps.{Map}
use ceno_reth_benchmark.Trie.Hash.{hash}
use ceno_reth_benchmark.State.{EthereumState, BundleAccount}
use ceno_reth_benchmark.Headers.{Header, Hashes, mpt_error, invalid_block_post_execution}
use ceno_reth_benchmark.Client.Input.{TrieAccount, StateTrieHeader, WitnessAccess}
use ceno_reth_benchmark.Client.Reader.{
  Env, Block, Item, Input, ancestor_headers, current_block, state_trie_header, map_err,
  read_ancestor_headers, read_current_block,
}
use ceno_reth_benchmark.Client.Stream.{
  Streaming, build_streaming_state_from_input_reader, state_root,
}
use ceno_reth_benchmark.Client.Database.{
  ClientExecutorInput, EagerState, WitnessDb, build, from_parts_recording, from_streaming_parts,
  record_access,
}
use ceno_reth_benchmark.Trie.Frontier.{MptFrontier}
use ceno_reth_benchmark.Host.Write.{collect_accounts, write_accesses}
use ceno_reth_benchmark.Client.Update.{update_from_bundle_state}
use ceno_reth_benchmark.Client.Replay.Linked.{streaming_db, fed}
use ceno_reth_benchmark.Client.Replay.Correct.{sources, run-Replays}
use ceno_reth_benchmark.Client.Execute.{
  Output, Chain, ChainVariant, checked, interpret, check_block, execute_block, close_block,
  derive_header, finish_streaming, execute_from_reader, push_access, note_bundle, finish_eager,
  eager_of, execute_with_state, execute_recording_witness_order,
}
use ceno_reth_benchmark.Client.Execute.Recorded.{note_bundle-Appends}
use ceno_reth_benchmark.Client.Execute.Traced.{
  AsksFirst, AccountsFirst-Traces, interpret-Traced, interpret-run,
}

module _ (env : Env) (chain : Chain) where
  -- A header that was given is the one that is derived.
  abbrev Closed : Block → List Header → Output → Header → Type 0
  Closed b headers out h =
      (parent : Header) × (get_elem? headers 0 ≡ some parent)
      × (h ≡ derive_header env chain b parent out)

  close_block-Closed :
      (b : Block) (headers : List Header) (out : Output) (actual : List ℕ)
      → Ensures (Closed b headers out) (close_block env chain b headers out actual)
  unfolding close_block
  close_block-Closed b headers out actual =
      Ensures-if (not (bytes_eq actual b.header.state_root)) (λ _. on_err)
        λ _.
          Ensures-bind (unwrap-Ensures (get_elem? headers 0)) (λ parent q. on_ok (parent, q, refl))

  finish_streaming-Closed :
      (b : Block) (headers : List Header) (s : Streaming) (out : Output)
      → Ensures (Closed b headers out) (finish_streaming env chain b headers s out)
  unfolding finish_streaming
  finish_streaming-Closed b headers s out =
      Ensures-bind (Ensures-any (update_from_bundle_state env s out.bundle)) λ s1 _.
        Ensures-bind (Ensures-any (state_root env s1)) (λ r _. close_block-Closed b headers out r.0)

  finish_eager-Closed :
      (input : ClientExecutorInput) (state : EthereumState) (out : Output)
      → Ensures
          (Closed input.current_block input.ancestor_headers out)
          (finish_eager env chain input state out)
  unfolding finish_eager
  finish_eager-Closed input state out =
      Ensures-bind
        (Ensures-any (
          map_err mpt_error
            (ceno_reth_benchmark.State.update_from_bundle_state env.codec state out.bundle)))
        λ state' _.
          Ensures-bind (Ensures-any (map_err mpt_error (hash env.codec.rlp state'.state_trie)))
            λ r _. close_block-Closed input.current_block input.ancestor_headers out r.0

  Closed-same :
      (b : Block) (headers : List Header) (out : Output) (h h' : Header)
      → Closed b headers out h
      → Closed b headers out h'
      → h' ≡ h
  Closed-same b headers out h h' c c' = cc (c.1, c.2, c'.1, c'.2)

  abbrev Executed : Block → WitnessDb → Output × WitnessDb → Type 0
  Executed b db r =
      (interpret env chain db (chain.executor b) ≡ ok r)
      × (checked invalid_block_post_execution (chain.validate_block_post_execution b r.0) ≡ ok tt)

  execute_block-Executed :
      (b : Block) (db : WitnessDb) → Ensures (Executed b db) (execute_block env chain b db)
  unfolding execute_block
  execute_block-Executed b db = Ensures-bind_eq (interpret env chain db (chain.executor b)) λ r q.
      Ensures-bind_eq
        (checked invalid_block_post_execution (chain.validate_block_post_execution b r.0))
        (λ u v. on_ok (q, v))

  -- The stream's execution up to its update.
  execute_from_reader-stream :
      (b : Block) (headers : List Header) (header : StateTrieHeader) (input : Input)
      (s s' : Streaming) (db : WitnessDb) (hashes : Hashes) (out : Output)
      → check_block env chain b ≡ ok tt
      → build_streaming_state_from_input_reader headers (state_trie_header header ∷ input) ≡ ok s
      → from_streaming_parts env s b.header headers ≡ ok db
      → interpret env chain db (chain.executor b) ≡ ok (out, streaming_db hashes s')
      → checked invalid_block_post_execution (chain.validate_block_post_execution b out) ≡ ok tt
      → execute_from_reader env chain
          (ancestor_headers headers ∷ current_block b ∷ state_trie_header header ∷ input)
        ≡ finish_streaming env chain b headers s' out
  unfolding execute_from_reader read_ancestor_headers read_current_block execute_block
  execute_from_reader-stream b headers header input s s' db hashes out v p q e w =
      rw v (rw p (rw q (rw e (rw w refl))))

  -- The output of the recorded execution, and the order that it recorded.
  abbrev pub Recorded : ClientExecutorInput → EthereumState → Output → List WitnessAccess → Type 0
  Recorded input state out before =
      (db : WitnessDb) × (from_parts_recording env state input.current_block.header
          input.ancestor_headers input.bytecodes
        ≡ ok db)
      × ((db1 : WitnessDb) × (interpret env chain db (chain.executor input.current_block)
            ≡ ok (out, db1))
          × (db1.witness_order ≡ some before))

  -- The execution over the stream has this output, and leaves this state.
  abbrev pub Streams : Block → List Header → Output → Input → Streaming → Type 0
  Streams b headers out input s' =
      (s : Streaming) × (build_streaming_state_from_input_reader headers input ≡ ok s)
      × ((db : WitnessDb) × (from_streaming_parts env s b.header headers ≡ ok db)
          × ((hashes : Hashes) × (interpret env chain db (chain.executor b)
                ≡ ok (out, streaming_db hashes s'))))

  -- The stream over the items that are written for the recorded order, whatever comes behind them.
  abbrev pub Resumes : ClientExecutorInput → EthereumState → Header × List WitnessAccess → Type 0
  Resumes input state r =
      (out : Output) × (before : List WitnessAccess) × (after : List WitnessAccess) × Recorded input
        state out before
      × (r.1 ≡ before ++ (WitnessAccess.state_trie ∷ after))
      × ((accounts : Map (Option TrieAccount)) (frontier : MptFrontier) (header : StateTrieHeader)
          → collect_accounts env state.state_trie r.1 [] ≡ ok accounts
          → (items : List Item) × (write_accesses (sources env input accounts) frontier before
              ≡ ok items)
            × ((rest : Input)
                → (s' : Streaming) × Streams input.current_block input.ancestor_headers out
                    (state_trie_header header ∷ (items ++ rest)) (fed s' rest)
                  × (execute_from_reader env chain (
                        ancestor_headers input.ancestor_headers
                        ∷ current_block input.current_block
                        ∷ state_trie_header header
                        ∷ (items ++ rest))
                      ≡ finish_streaming env chain input.current_block input.ancestor_headers
                          (fed s' rest) out)
                  × Ensures (λ h. h ≡ r.0)
                      (finish_streaming env chain input.current_block input.ancestor_headers
                        (fed s' rest) out)))

  module _ (input : ClientExecutorInput) (state : EthereumState) (db : WitnessDb)
      (built : build env input ≡ ok state)
      (recorded : from_parts_recording env state input.current_block.header input.ancestor_headers
          input.bytecodes
        ≡ ok db)
      (first : AsksFirst env [] (chain.executor input.current_block))
      (valid : check_block env chain input.current_block ≡ ok tt) where
    resumes :
        (out : Output) (db1 : WitnessDb) (header : Header) (order : List WitnessAccess)
        → Executed input.current_block db (out, db1)
        → Closed input.current_block input.ancestor_headers out header
        → ((w : List WitnessAccess)
            → db1.witness_order ≡ some w
            → (after : List WitnessAccess) × (order ≡ w ++ (WitnessAccess.state_trie ∷ after)))
        → Resumes input state (header, order)
    resumes out db1 header order ran closed appended =
        let (qs, as', traces, eager) =
          Ensures-ok (interpret-Traced env chain db (chain.executor input.current_block)) ran.0 in
        let (before, recorded_order, replay) =
          Ensures-ok
            (run-Replays env input state db qs built recorded
              (AccountsFirst-Traces env [] first traces))
            eager in
        let (after, whole) = appended before recorded_order in
        (
          out,
          before,
          after,
          (db, recorded, (db1, ran.0, recorded_order)),
          whole,
          λ accounts frontier head c.
              let (items, written, streams) =
                replay accounts (WitnessAccess.state_trie ∷ after) frontier head
                  (subst (λ o. collect_accounts env state.state_trie o [] ≡ ok accounts) whole c) in
              (
                items,
                written,
                λ rest.
                    let (s, p, (sdb, q, (hashes, s', e))) = streams rest in
                    (
                      s',
                      (
                        s,
                        p,
                        (
                          sdb,
                          q,
                          (
                            hashes,
                            interpret-run env chain sdb (streaming_db hashes (fed s' rest)) traces
                                e,
                          ),
                        ),
                      ),
                      execute_from_reader-stream input.current_block input.ancestor_headers head
                          (items ++ rest) s (fed s' rest) sdb hashes out valid p q
                          (interpret-run env chain sdb (streaming_db hashes (fed s' rest)) traces e)
                          ran.1,
                      Ensures-mono
                          (finish_streaming-Closed input.current_block input.ancestor_headers
                            (fed s' rest) out)
                          (λ h c'.
                            Closed-same input.current_block input.ancestor_headers out header h
                              closed c'),
                    ),
              ),
        )

  note_bundle-after :
      (db : WitnessDb) (e : EagerState) (bundle : List (List ℕ × BundleAccount))
      → Ensures
          (λ r.
            (w : List WitnessAccess)
            → db.witness_order ≡ some w
            → (after : List WitnessAccess) × (r.1.witness_order
                ≡ some (w ++ (WitnessAccess.state_trie ∷ after))))
          (note_bundle env chain (push_access env chain WitnessAccess.state_trie db) e bundle)
  unfolding record_access
  note_bundle-after db e bundle =
      Ensures-mono
        (note_bundle-Appends env chain (push_access env chain WitnessAccess.state_trie db) e bundle)
        λ r grown w h.
          let t = grown (w ++ (WitnessAccess.state_trie ∷ [])) (rw h refl) in
          (t.0, t.1 ∙ rw (append_assoc w (WitnessAccess.state_trie ∷ []) t.0) refl)

  execute_with_state-Resumes :
      (input : ClientExecutorInput) (state : EthereumState)
      → build env input ≡ ok state
      → AsksFirst env [] (chain.executor input.current_block)
      → Ensures
          (λ r. (order : List WitnessAccess) → r.1 ≡ some order → Resumes input state (r.0, order))
          (execute_with_state env chain true input state)
  unfolding execute_with_state
  execute_with_state-Resumes input state built first =
      Ensures-bind_eq
        (from_parts_recording env state input.current_block.header input.ancestor_headers
          input.bytecodes)
        λ db recorded. Ensures-bind_eq (check_block env chain input.current_block) λ u valid.
          Ensures-bind (execute_block-Executed input.current_block db) λ o ran.
            Ensures-bind (Ensures-any (eager_of env chain o.1.state)) λ e _.
              Ensures-bind (note_bundle-after o.1 e o.0.bundle) λ n grown.
                Ensures-bind (finish_eager-Closed input n.0.state o.0) λ header closed.
                  on_ok λ order same.
                    resumes input state db built recorded first valid o.0 o.1 header order ran
                      closed λ w h. let t = grown w h in (t.0, cc (t.1, same))

-- A recorded execution of a block that asks for the account of an address before its slots: the
-- recorded order is what the run of the block over the recording database noted, then the marker of
-- the state trie, then more. If the writer finds the accounts of the order, it writes the items before
-- the marker, and over these items, whatever comes behind them, the run of the same block over the
-- streaming database has the very output of the recorded run and leaves what comes behind;
-- `execute_from_reader` then passes all its checks and is its update by that output from the state that
-- this run leaves. A header that it then returns is the header that was recorded.
pub execute_from_reader-Resumes :
    (env : Env) (spec : ChainVariant → Chain) (variant : ChainVariant) (input : ClientExecutorInput)
    → AsksFirst env [] ((spec variant).executor input.current_block)
    → Ensures
        (λ r.
          (state : EthereumState) × (build env input ≡ ok state)
          × Resumes env (spec variant) input state r)
        (execute_recording_witness_order env spec variant input)
unfolding execute_recording_witness_order
execute_from_reader-Resumes env spec variant input first =
    Ensures-bind_eq (build env input) λ state built.
      Ensures-bind (execute_with_state-Resumes env (spec variant) input state built first)
        λ r resume.
          Ensures-bind (unwrap-Ensures r.1) (λ order same. on_ok (state, built, resume order same))
