-- ===== src/Client/Execute/Checked.antt =====
-- What holds when the streaming execution gives a header.
use ceno_reth_benchmark.Base.{◌≡◌, some, List, ◌∷◌, get_elem?}
use ceno_reth_benchmark.Base.Result.{ok}
use ceno_reth_benchmark.Headers.{Header, Hashes, build_block_hashes}
use ceno_reth_benchmark.Client.Reader.{Env, Block, Input, ancestor_headers, current_block}
use ceno_reth_benchmark.Client.Stream.{
  Streaming, build_streaming_state_from_input_reader, state_root,
}
use ceno_reth_benchmark.Client.Database.{WitnessDb, from_streaming_parts}
use ceno_reth_benchmark.Client.Update.{update_from_bundle_state}
use ceno_reth_benchmark.Client.Update.Accepts.{Accepted}
use ceno_reth_benchmark.Client.Execute.{
  Output, Chain, check_block, execute_block, derive_header, streaming_of,
}

module _ (env : Env) (chain : Chain) where
  -- The update was accepted, and its root is the block's.
  abbrev pub Finished : Block → List Header → Streaming → Output → Header → Type 0
  Finished b headers s out h =
      (s1 : Streaming) × (update_from_bundle_state env s out.bundle ≡ ok s1)
      × Accepted env s out.bundle s1
      × ((s2 : Streaming) × (state_root env s1 ≡ ok (b.header.state_root, s2)))
      × ((parent : Header) × (get_elem? headers 0 ≡ some parent)
          × (h ≡ derive_header env chain b parent out))

  -- All that was checked on the way.
  abbrev pub Accounted : Input → Header → Type 0
  Accounted input h =
      (headers : List Header) × (b : Block) × (rest : Input) × (input
        ≡ ancestor_headers headers ∷ current_block b ∷ rest)
      × (check_block env chain b ≡ ok tt)
      × ((hashes : Hashes) × (build_block_hashes env.header_hash_slow (b.header ∷ headers)
            ≡ ok hashes))
      × ((s0 : Streaming) × (build_streaming_state_from_input_reader headers rest ≡ ok s0)
          × ((db : WitnessDb) × (from_streaming_parts env s0 b.header headers ≡ ok db)
              × ((db' : WitnessDb) × (out : Output) × (execute_block env chain b db ≡ ok (out, db'))
                  × ((s : Streaming) × (streaming_of env chain db'.state ≡ ok s)
                      × Finished b headers s out h))))
