-- ===== src/Client/Update/Moves.antt =====
-- One chunk of an update that succeeds, as a step of the streaming state: what it reads of the input,
-- what it writes, and what the frontier holds at its prefix, before and after.
use ceno_reth_benchmark.Base.{
  of_not-false, ℕ, zero, suc, ◌≡◌, refl, ap, not, ◌&&◌, ◌||◌, Bool, true, false, bytes_eq, Option,
  some, List, [], ◌∷◌, ◌++◌, ◌==◌, length, All,
}
use ceno_reth_benchmark.Base.Result.{
  ok, Ensures, on_ok, on_err, on_panic, Ensures-bind, Ensures-any, Ensures-bind_eq, Ensures-if,
  Ensures-mono, Ensures-ok, unwrap-Ensures,
}
use ceno_reth_benchmark.Base.Maps.{Map, is_some, find?}
use ceno_reth_benchmark.Trie.{Mpt}
use ceno_reth_benchmark.Trie.Hash.{hash, root_is_hash_addressed}
use ceno_reth_benchmark.Trie.Frontier.{replace_frontier_slot}
use ceno_reth_benchmark.Trie.Frontier.Slot.{HasRoot, replace_frontier_slot-HasRoot}
use ceno_reth_benchmark.Headers.{mpt_error}
use ceno_reth_benchmark.Client.Input.{
  TrieAccount, accounts_eq, StateChunkHeader, StorageTrieHeader, AccountInput, ClientWitnessInput,
  account, storage_trie, bytecode, state_chunk,
}
use ceno_reth_benchmark.Client.Reader.{
  Env, Input, Item, ancestor_headers, current_block, state_trie_header, witness, raw,
  read_witness_input, read_raw_bytes, map_err, map_err-ok, get_rlp_nibbles, open_trie,
}
use ceno_reth_benchmark.Client.Stream.{Streaming}
use ceno_reth_benchmark.Client.Update.Sorted.{Entry}
use ceno_reth_benchmark.Client.Update.Chunk.{
  in_chunk, suffix, as_state_chunk, Work, read_in_chunk, check_account_witness,
  read_storage_witness, read_chunk_witness, read_chunk_witnesses, chunk_root, close_chunk,
}
use ceno_reth_benchmark.Client.Update.Written.{Writes, read_in_chunk-ok}

pub read_witness_input-front :
    {E : Type 0} (input : Input)
    → Ensures {E = E} (λ r. input ≡ witness r.0 ∷ r.1) (read_witness_input input)
unfolding read_witness_input
read_witness_input-front [] = on_panic
read_witness_input-front (ancestor_headers hs ∷ input) = on_panic
read_witness_input-front (current_block b ∷ input) = on_panic
read_witness_input-front (state_trie_header h ∷ input) = on_panic
read_witness_input-front (witness w ∷ input) = on_ok refl
read_witness_input-front (raw bs ∷ input) = on_panic

pub read_raw_bytes-front :
    {E : Type 0} (input : Input)
    → Ensures {E = E} (λ r. input ≡ raw r.0 ∷ r.1) (read_raw_bytes input)
unfolding read_raw_bytes
read_raw_bytes-front [] = on_panic
read_raw_bytes-front (ancestor_headers hs ∷ input) = on_panic
read_raw_bytes-front (current_block b ∷ input) = on_panic
read_raw_bytes-front (state_trie_header h ∷ input) = on_panic
read_raw_bytes-front (witness w ∷ input) = on_panic
read_raw_bytes-front (raw bs ∷ input) = on_ok refl

pub as_state_chunk-is :
    (w : ClientWitnessInput) → Ensures (λ h. w ≡ state_chunk h) (as_state_chunk w)
unfolding as_state_chunk
as_state_chunk-is (account a) = on_err
as_state_chunk-is (storage_trie h) = on_err
as_state_chunk-is (bytecode c) = on_err
as_state_chunk-is (state_chunk h) = on_ok refl

-- A chunk, as it was opened, with what it takes: the accounts of the bundle and its witnesses.
pub record Chunk (env : Env) : Type 0 where
  pub header : StateChunkHeader
  pub encoded : List ℕ
  pub trie : Mpt
  pub opened : open_trie env encoded ≡ ok (header.expected_root, trie)
  pub accounts : List Entry
  pub witnesses : List AccountInput

abbrev pub witness_items : List AccountInput → List Item
witness_items [] = []
witness_items (w ∷ ws) = witness (account w) ∷ witness_items ws

module _ (env : Env) where
  -- The chunk holds the account of the witness.
  abbrev pub Holds : Mpt → List ℕ → AccountInput → Type 0
  Holds chunk prefix w =
      (in_chunk prefix w.hashed_address ≡ true)
      × ((a : Option TrieAccount) × (get_rlp_nibbles env.decode_account chunk
              (suffix prefix w.hashed_address)
            ≡ ok a)
          × (accounts_eq a w.account ≡ true))

  check_account_witness-Holds :
      (chunk : Mpt) (prefix : List ℕ) (w : AccountInput)
      → Ensures (λ _. Holds chunk prefix w) (check_account_witness env chunk prefix w)
  unfolding check_account_witness
  check_account_witness-Holds chunk prefix w =
      Ensures-if (not (in_chunk prefix w.hashed_address)) (λ _. on_err)
        λ inside. Ensures-bind_eq (read_in_chunk env chunk prefix w.hashed_address) λ a q.
          Ensures-if (not (accounts_eq a w.account)) (λ _. on_err)
            λ same. on_ok (
              of_not-false (in_chunk prefix w.hashed_address) inside,
              (
                a,
                read_in_chunk-ok env chunk prefix w.hashed_address a q,
                of_not-false (accounts_eq a w.account) same,
              ),
            )

  -- A storage witness is refused or panics.
  read_storage_witness-panics :
      {P : Map Mpt × Input → Type 0} (chunk : Mpt) (prefix : List ℕ) (h : StorageTrieHeader)
      (post : Map Mpt) (input : Input)
      → Ensures P (read_storage_witness env true chunk prefix h post input)
  unfolding read_storage_witness
  read_storage_witness-panics chunk prefix h post input =
      Ensures-if (not (in_chunk prefix h.hashed_address) || is_some (find? h.hashed_address post))
        (λ _. on_err)
        λ _.
          Ensures-bind (Ensures-any (read_in_chunk env chunk prefix h.hashed_address))
            (λ a _. on_panic)

  -- The witnesses of a chunk that are read: accounts only, in the chunk.
  abbrev pub Witnesses : ℕ → Mpt → List ℕ → Map Mpt → Input → Map Mpt × Input → Type 0
  Witnesses n chunk prefix post input r =
      (r.0 ≡ post)
      × ((ws : List AccountInput) × (length ws ≡ n)
          × (input ≡ witness_items ws ++ r.1)
          × All (Holds chunk prefix) ws)

  read_chunk_witness-Holds :
      (chunk : Mpt) (prefix : List ℕ) (post : Map Mpt) (input : Input) (w : ClientWitnessInput)
      → Ensures
          (λ r.
            (r.0 ≡ post)
            × (r.1 ≡ input)
            × ((a : AccountInput) × (w ≡ account a) × Holds chunk prefix a))
          (read_chunk_witness env chunk prefix post input w)
  read_chunk_witness-Holds chunk prefix post input (account a) =
      Ensures-bind (check_account_witness-Holds chunk prefix a)
        (λ _ h. on_ok (refl, refl, (a, refl, h)))
  read_chunk_witness-Holds chunk prefix post input (storage_trie h) =
      read_storage_witness-panics chunk prefix h post input
  read_chunk_witness-Holds chunk prefix post input (bytecode c) = on_err
  read_chunk_witness-Holds chunk prefix post input (state_chunk h) = on_err

  pub read_chunk_witnesses-Witnesses :
      (n : ℕ) (chunk : Mpt) (prefix : List ℕ) (post : Map Mpt) (input : Input)
      → Ensures
          (Witnesses n chunk prefix post input)
          (read_chunk_witnesses env n chunk prefix post input)
  unfolding read_chunk_witnesses
  read_chunk_witnesses-Witnesses zero chunk prefix post input = on_ok (refl, ([], refl, refl, tt))
  read_chunk_witnesses-Witnesses (suc n) chunk prefix post input =
      Ensures-bind (read_witness_input-front input) λ (w, input1) e.
        Ensures-bind (read_chunk_witness-Holds chunk prefix post input1 w) λ (post', input2) h.
          Ensures-mono (read_chunk_witnesses-Witnesses n chunk prefix post' input2) λ r t.
            let (same, (ws, count, rest, all)) = t in
            let (p, i, (a, is, holds)) = h in
            (
              cc (same, p),
              (
                a ∷ ws,
                ap suc count,
                rw e (rw is (ap (λ l. witness (account a) ∷ l) (cc (i, rest)))),
                (holds, all),
              ),
            )

  -- The new root of a chunk: it is kept by its digest, if it goes below the root of the frontier.
  abbrev pub ChunkRoot : List ℕ → Mpt → List ℕ → Type 0
  ChunkRoot prefix chunk root =
      (m : Mpt) × (m1 : Mpt) × (addressed : Bool) × (hash env.codec.rlp chunk ≡ ok (root, m))
      × (root_is_hash_addressed env.codec.rlp m ≡ ok (addressed, m1))
      × ((not (length prefix == 0)
            && not (bytes_eq root env.codec.rlp.empty_root_hash)
            && not addressed)
          ≡ false)

  chunk_root-ChunkRoot :
      (prefix : List ℕ) (chunk : Mpt)
      → Ensures (ChunkRoot prefix chunk) (chunk_root env prefix chunk)
  unfolding chunk_root
  chunk_root-ChunkRoot prefix chunk =
      Ensures-bind_eq (map_err mpt_error (hash env.codec.rlp chunk)) λ r q.
        Ensures-bind_eq (map_err mpt_error (root_is_hash_addressed env.codec.rlp r.1)) λ b h.
          Ensures-if
            (not (length prefix == 0)
              && not (bytes_eq r.0 env.codec.rlp.empty_root_hash)
              && not b.0)
            (λ _. on_err)
            λ kept. on_ok (
              r.1,
              b.1,
              b.0,
              map_err-ok mpt_error (hash env.codec.rlp chunk) q,
              map_err-ok mpt_error (root_is_hash_addressed env.codec.rlp r.1) h,
              kept,
            )

  -- What the chunk's new root does to the frontier.
  abbrev pub Replaces : List ℕ → List ℕ → Mpt → Streaming → Streaming → Type 0
  Replaces prefix expected_root chunk s s1 =
      (root : List ℕ) × ChunkRoot prefix chunk root
      × ((f : Mpt) × (f1 : Mpt) × (s.state_trie ≡ some f)
          × (s1.state_trie ≡ some f1)
          × HasRoot env.codec.rlp f expected_root f.root_id prefix
          × (replace_frontier_slot env.codec.rlp f prefix expected_root root ≡ ok f1))

  pub close_chunk-Replaces :
      (s : Streaming) (header : StateChunkHeader) (cache : Map (Option TrieAccount)) (input : Input)
      (w : Work)
      → Ensures
          (λ s1.
            (s1.account_cache ≡ cache)
            × (s1.input ≡ input)
            × (s1.storage_tries ≡ w.storage_tries)
            × Replaces header.prefix header.expected_root w.chunk s s1)
          (close_chunk env s header cache input w)
  unfolding close_chunk
  close_chunk-Replaces s header cache input w =
      Ensures-if (not (length w.post_storage_tries == 0)) (λ _. on_err)
        λ _. Ensures-bind (chunk_root-ChunkRoot header.prefix w.chunk) λ root h.
          Ensures-bind (unwrap-Ensures s.state_trie) λ f q.
            Ensures-bind_eq
              (map_err mpt_error
                (replace_frontier_slot env.codec.rlp f header.prefix header.expected_root root))
              λ f1 e.
                let found =
                  map_err-ok mpt_error
                    (replace_frontier_slot env.codec.rlp f header.prefix header.expected_root root)
                    e in
                on_ok (
                  refl,
                  refl,
                  refl,
                  (
                    root,
                    h,
                    (
                      f,
                      f1,
                      q,
                      refl,
                      Ensures-ok
                          (replace_frontier_slot-HasRoot env.codec.rlp f header.prefix
                            header.expected_root root)
                          found,
                      found,
                    ),
                  ),
                )

-- The step of a chunk.
pub record Moves (env : Env) (s : Streaming) (c : Chunk env) (s1 : Streaming) : Type 0 where
  pub reads :
      s.input
      ≡ witness (state_chunk c.header) ∷ raw c.encoded ∷ (witness_items c.witnesses ++ s1.input)
  pub counted : length c.witnesses ≡ c.header.witness_count
  pub held : All (Holds env c.trie c.header.prefix) c.witnesses
  pub chunk : Mpt
  pub writes : Writes env c.header.prefix c.trie s.storage_tries c.accounts chunk s1.storage_tries
  pub replaces : Replaces env c.header.prefix c.header.expected_root chunk s s1

-- The steps of all chunks, one after another.
pub data MovesAll (env : Env) : Streaming → List (Chunk env) → Streaming → Type 0 where
  no_chunk : {s : Streaming} → MovesAll env s [] s
  then_chunks :
      {s s1 s2 : Streaming} {c : Chunk env} {cs : List (Chunk env)}
      → Moves env s c s1
      → MovesAll env s1 cs s2
      → MovesAll env s (c ∷ cs) s2
