-- ===== src/Client/Update/Accepts.antt =====
-- `update_from_bundle_state` of crates/executor/client/src/io.rs when it succeeds: the steps of its chunks, and
-- what the accounts that the execution read were compared with.
use ceno_reth_benchmark.Base.{
  of_not-false, ℕ, zero, suc, ◌≡◌, refl, ap, bytes_eq→eq, sym, ◌∙◌, ◌⊎◌, inl, inr, not, true, false,
  Option, none, some, List, [], ◌∷◌, ◌++◌, append_assoc, ◌==◌, length, bytes_eq, All, All-In,
  All-map, All-self, In, Some, append-nil, arith,
}
use ceno_reth_benchmark.Base.Result.{
  ok, Ensures, on_ok, on_err, Ensures-bind, Ensures-bind_eq, Ensures-if, Ensures-mono,
  unwrap-Ensures,
}
use ceno_reth_benchmark.Base.Maps.{Map}
use ceno_reth_benchmark.Trie.{Mpt}
use ceno_reth_benchmark.Headers.{mpt_error}
use ceno_reth_benchmark.State.{BundleAccount}
use ceno_reth_benchmark.Client.Input.{TrieAccount, accounts_eq}
use ceno_reth_benchmark.Client.Reader.{Env, Input, raw, map_err, map_err-ok, get_rlp, open_trie}
use ceno_reth_benchmark.Client.Stream.{
  Streaming, ensure_state_trie_loaded, loaded_or_read, validate_accounts, validate_account_cache,
}
use ceno_reth_benchmark.Client.Update.{process_chunks, finish_update, update_from_bundle_state}
use ceno_reth_benchmark.Client.Update.Sorted.{Entry, sort_accounts, hash_accounts}
use ceno_reth_benchmark.Client.Update.Took.{
  CacheEntry, CheckedIn, Filled, all_accounts, Tracked, Took, process_chunk-Took,
}
use ceno_reth_benchmark.Client.Update.Moves.{
  Chunk, MovesAll, no_chunk, then_chunks, read_raw_bytes-front,
}

module _ (env : Env) where
  -- The state trie holds it.
  abbrev pub CheckedBy : Mpt → CacheEntry → Type 0
  CheckedBy m e =
      (a : Option TrieAccount) × (get_rlp env.decode_account m e.0 ≡ ok a)
      × (accounts_eq a e.1 ≡ true)

  -- All chunks.
  abbrev TookAll : ℕ → Streaming → List Entry → Streaming × List Entry → Type 0
  TookAll n s left r =
      (cs : List (Chunk env)) × All (Filled env) cs
      × (left ≡ all_accounts env cs ++ r.1)
      × All (Tracked env cs r.0.account_cache) s.account_cache
      × MovesAll env s cs r.0
      × (length cs ≡ n)

  Took-then :
      (n : ℕ) (s : Streaming) (left : List Entry) (r r' : Streaming × List Entry)
      → Took env s left r
      → TookAll n r.0 r.1 r'
      → TookAll (suc n) s left r'
  Took-then n s left r r' t ts = (
    t.0 ∷ ts.0,
    (t.1, ts.1),
    t.2 ∙ rw ts.2 (sym (append_assoc t.0.accounts (all_accounts env ts.0) r'.1)),
    All-map (Tracked env (t.0 ∷ []) r.0.account_cache) (Tracked env (t.0 ∷ ts.0) r'.0.account_cache)
        s.account_cache (λ e h. go e h) t.3,
    then_chunks t.4 ts.4,
    ap suc ts.5,
  )
    where
      later :
          (e : CacheEntry)
          → Tracked env ts.0 r'.0.account_cache e
          → Tracked env (t.0 ∷ ts.0) r'.0.account_cache e
      later e (inl h) = inl (inr h)
      later e (inr h) = inr h

      go :
          (e : CacheEntry)
          → Tracked env (t.0 ∷ []) r.0.account_cache e
          → Tracked env (t.0 ∷ ts.0) r'.0.account_cache e
      go e (inl (inl h)) = inl (inl h)
      go e (inl (inr h)) = absurd h
      go e (inr h) =
          later e (All-In (Tracked env ts.0 r'.0.account_cache) r.0.account_cache e ts.3 h)

  process_chunks-TookAll :
      (n : ℕ) (s : Streaming) (left : List Entry)
      → Ensures (TookAll n s left) (process_chunks env n s left)
  unfolding process_chunks
  process_chunks-TookAll zero s left = on_ok (
    [],
    tt,
    refl,
    All-map (λ e. In e s.account_cache) (Tracked env [] s.account_cache) s.account_cache
        (λ e i. inr i) (All-self s.account_cache),
    no_chunk,
    refl,
  )
  process_chunks-TookAll (suc n) s left =
      Ensures-bind (process_chunk-Took env s left) λ r t.
        Ensures-mono (process_chunks-TookAll n r.0 r.1) (λ r' ts. Took-then n s left r r' t ts)

  validate_accounts-Ensures :
      (m : Mpt) (cache : Map (Option TrieAccount))
      → Ensures (λ _. All (CheckedBy m) cache) (validate_accounts env m cache)
  unfolding validate_accounts
  validate_accounts-Ensures m [] = on_ok tt
  validate_accounts-Ensures m ((k, streamed) ∷ cache) =
      Ensures-bind_eq (map_err mpt_error (get_rlp env.decode_account m k)) λ a q.
        Ensures-if (not (accounts_eq a streamed)) (λ _. on_err)
          λ same. Ensures-mono (validate_accounts-Ensures m cache) (λ _ h. (
            (
              a,
              map_err-ok mpt_error (get_rlp env.decode_account m k) q,
              of_not-false (accounts_eq a streamed) same,
            ),
            h,
          ))

  validate_account_cache-Ensures :
      (s : Streaming)
      → Ensures
          (λ _. (m : Mpt) × (s.state_trie ≡ some m) × All (CheckedBy m) s.account_cache)
          (validate_account_cache env s)
  unfolding validate_account_cache
  validate_account_cache-Ensures s =
      Ensures-bind (unwrap-Ensures s.state_trie)
        λ m q. Ensures-mono (validate_accounts-Ensures m s.account_cache) (λ _ h. (m, q, h))

-- The state trie is there, or it is the next of the input and has the root of the parent's state.
pub data Loaded (env : Env) (s0 : Streaming) : Streaming → Type 0 where
  loaded : (m : Mpt) → s0.state_trie ≡ some m → Loaded env s0 s0
  from_input :
      (bytes : List ℕ) (rest : Input) (m : Mpt)
      → s0.state_trie ≡ none
      → s0.input ≡ raw bytes ∷ rest
      → open_trie env bytes ≡ ok (s0.parent_state_root, m)
      → Loaded env s0 (record s0 { state_trie = some m; input = rest })

-- An update that was accepted: its state at the start, its chunks with their steps, and its state
-- after the last one, with the state trie there.
pub record Accepted (env : Env) (s0 : Streaming) (bundle : List (List ℕ × BundleAccount))
    (s' : Streaming) : Type 0 where
  pub first : Streaming
  pub last : Streaming
  pub chunks : List (Chunk env)
  pub state_trie : Mpt
  pub started : Loaded env s0 first
  pub versioned : first.state_trie_header.version ≡ 2
  pub counted : length chunks ≡ first.state_trie_header.chunk_count
  pub moves : MovesAll env first chunks last
  pub ended : last.state_trie ≡ some state_trie
  pub result : s' ≡ record last { storage_tries = [] }
  pub filled : All (Filled env) chunks
  pub complete : sort_accounts (hash_accounts env bundle) ≡ all_accounts env chunks
  pub compared :
      All (λ e. Some (CheckedIn env e) chunks ⊎ CheckedBy env state_trie e) s0.account_cache

module _ (env : Env) where
  no_entries : (l : List Entry) → not (length l == 0) ≡ false → l ≡ []
  no_entries [] h = refl
  no_entries (e ∷ l) h = absurd (ground arith)

  finish_update-Accepted :
      (s0 s : Streaming) (bundle : List (List ℕ × BundleAccount)) (total : ℕ)
      (r : Streaming × List Entry)
      → Loaded env s0 s
      → s.account_cache ≡ s0.account_cache
      → s.state_trie_header.version ≡ 2
      → TookAll env s.state_trie_header.chunk_count s (sort_accounts (hash_accounts env bundle)) r
      → Ensures (Accepted env s0 bundle) (finish_update env total r)
  unfolding finish_update
  finish_update-Accepted s0 s bundle total (s', left) started same versioned t =
      Ensures-if (not (length left == 0)) (λ _. on_err)
        λ done. Ensures-bind (validate_account_cache-Ensures env s') λ _ v. on_ok (record {
          first = s;
          last = s';
          chunks = t.0;
          state_trie = v.0;
          started = started;
          versioned = versioned;
          counted = t.5;
          moves = t.4;
          ended = v.1;
          result = refl;
          filled = t.1;
          complete = t.2 ∙ rw (no_entries left done) (append-nil (all_accounts env t.0));
          compared = rw (← same) (
              All-map (Tracked env t.0 s'.account_cache) _ s.account_cache
                (λ e h. resolve v.0 v.2 t.0 e h) t.3);
        })
    where
      resolve :
          (m : Mpt)
          → All (CheckedBy env m) s'.account_cache
          → (cs : List (Chunk env)) (e : CacheEntry) → Tracked env cs s'.account_cache e
          → Some (CheckedIn env e) cs ⊎ CheckedBy env m e
      resolve m h cs e (inl c) = inl c
      resolve m h cs e (inr i) = inr (All-In (CheckedBy env m) s'.account_cache e h i)

  ensure_state_trie_loaded-Loaded :
      (s0 : Streaming)
      → Ensures
          (λ s. Loaded env s0 s × (s.account_cache ≡ s0.account_cache))
          (ensure_state_trie_loaded env s0)
  unfolding ensure_state_trie_loaded
  ensure_state_trie_loaded-Loaded s0 = go s0.state_trie refl
    where
      go :
          (o : Option Mpt)
          → s0.state_trie ≡ o
          → Ensures
              (λ s. Loaded env s0 s × (s.account_cache ≡ s0.account_cache))
              (loaded_or_read env s0 o)
      go (some m) e = on_ok (loaded m e, refl)
      go none e = Ensures-bind (read_raw_bytes-front s0.input) λ (bytes, rest) front.
          Ensures-bind_eq (map_err mpt_error (open_trie env bytes)) λ am q.
            Ensures-if (not (bytes_eq am.0 s0.parent_state_root)) (λ _. on_err)
              λ same. on_ok (
                from_input bytes rest am.1 e front (
                    rw
                      (← bytes_eq→eq am.0 s0.parent_state_root
                        (of_not-false (bytes_eq am.0 s0.parent_state_root) same))
                      (map_err-ok mpt_error (open_trie env bytes) q)),
                refl,
              )

-- The streamed update, when it succeeds. The state trie was there, or was the next of the input and has the
-- root of the parent's state; its header has version 2, and as many chunks follow as the header says.
-- Each chunk is a step from state to state. It reads from the input a header, bytes that open as a
-- trie with the expected root, and its witnesses, which are accounts that this trie holds below the
-- prefix. It writes its accounts to this trie, one after another: a deletion for an account that goes, and
-- for one that stays its record, with the root of the storage trie that its slots are written to or,
-- without slots, with its old root, which is compared with the trie that was read for it. It
-- replaces in the frontier what stands at the prefix, where the expected root was found, by the
-- root of the trie that was written. The chunks have all accounts of the bundle, in the order of their hashed
-- addresses, each chunk at least one and only such below its prefix. Every account in the cache is the one
-- that a chunk, when it is opened, or the state trie at the end holds at its address.
pub update_from_bundle_state-Accepted :
    (env : Env) (s0 : Streaming) (bundle : List (List ℕ × BundleAccount))
    → Ensures (Accepted env s0 bundle) (update_from_bundle_state env s0 bundle)
unfolding update_from_bundle_state
update_from_bundle_state-Accepted env s0 bundle =
    Ensures-bind (ensure_state_trie_loaded-Loaded env s0) λ s (started, same).
      Ensures-if (not (s.state_trie_header.version == 2)) (λ _. on_err)
        λ version.
          Ensures-bind
            (process_chunks-TookAll env s.state_trie_header.chunk_count s
              (sort_accounts (hash_accounts env bundle)))
            λ r t.
              finish_update-Accepted env s0 s bundle
                (length (sort_accounts (hash_accounts env bundle))) r started same (ground arith) t
