-- ===== src/Client/Update/Took.antt =====
-- One chunk of an update that succeeds: what it takes of the bundle, and what it checks of the cache.
use ceno_reth_benchmark.Base.{
  of_not-false, ℕ, ◌≡◌, refl, ap, ◌⊎◌, inl, inr, not, true, Option, List, [], ◌∷◌, ◌++◌, ◌<◌, ◌==◌,
  length, bytes_eq, bytes_eq→eq, Bool-cases, All, All-map, In, Some, arith,
}
use ceno_reth_benchmark.Base.Result.{
  ok, Ensures, on_ok, on_err, Ensures-bind, Ensures-bind_eq, Ensures-if, Ensures-mono,
}
use ceno_reth_benchmark.Base.Maps.{Key, Map}
use ceno_reth_benchmark.Trie.{Mpt}
use ceno_reth_benchmark.Headers.{mpt_error}
use ceno_reth_benchmark.Client.Input.{TrieAccount, accounts_eq, state_chunk}
use ceno_reth_benchmark.Client.Reader.{
  Env, Input, witness, raw, map_err, map_err-ok, get_rlp_nibbles, open_trie,
}
use ceno_reth_benchmark.Client.Stream.{Streaming}
use ceno_reth_benchmark.Client.Update.Sorted.{Entry}
use ceno_reth_benchmark.Client.Update.Chunk.{
  in_chunk, suffix, take_below, Work, read_in_chunk, check_cached, update_below, process_chunk,
}
use ceno_reth_benchmark.Client.Update.Written.{read_in_chunk-ok, update_accounts-Writes}
use ceno_reth_benchmark.Client.Update.Moves.{
  Chunk, witness_items, Holds, Moves, read_witness_input-front, read_raw_bytes-front,
  as_state_chunk-is, read_chunk_witnesses-Witnesses, close_chunk-Replaces,
}

abbrev pub CacheEntry : Type 0
CacheEntry = Key × Option TrieAccount

module _ (env : Env) where
  -- The chunk holds the account that was streamed.
  abbrev pub CheckedIn : CacheEntry → Chunk env → Type 0
  CheckedIn e c =
      (in_chunk c.header.prefix e.0 ≡ true)
      × ((a : Option TrieAccount) × (get_rlp_nibbles env.decode_account c.trie
              (suffix c.header.prefix e.0)
            ≡ ok a)
          × (accounts_eq e.1 a ≡ true))

  abbrev pub Filled : Chunk env → Type 0
  Filled c =
      (0 < length c.accounts) × All (λ (e : Entry). in_chunk c.header.prefix e.0 ≡ true) c.accounts

  abbrev pub all_accounts : List (Chunk env) → List Entry
  all_accounts [] = []
  all_accounts (c ∷ cs) = c.accounts ++ all_accounts cs

  -- What a chunk checks, of the entries that it takes out of the cache.
  abbrev Checks : Mpt → List ℕ → CacheEntry → Type 0
  Checks chunk prefix e =
      (in_chunk prefix e.0 ≡ true)
      × ((a : Option TrieAccount) × (get_rlp_nibbles env.decode_account chunk (suffix prefix e.0)
            ≡ ok a)
          × (accounts_eq e.1 a ≡ true))

  -- Checked, or kept.
  abbrev Sorts : Mpt → List ℕ → Map (Option TrieAccount) → CacheEntry → Type 0
  Sorts chunk prefix kept e = Checks chunk prefix e ⊎ In e kept

  Sorts-later :
      (chunk : Mpt) (prefix : List ℕ) (kept : Map (Option TrieAccount)) (x e : CacheEntry)
      → Sorts chunk prefix kept e
      → Sorts chunk prefix (x ∷ kept) e
  Sorts-later chunk prefix kept x e (inl h) = inl h
  Sorts-later chunk prefix kept x e (inr h) = inr (inr h)

  check_cached-Ensures :
      (chunk : Mpt) (prefix : List ℕ) (cache : Map (Option TrieAccount))
      → Ensures (λ kept. All (Sorts chunk prefix kept) cache) (check_cached env chunk prefix cache)
  unfolding check_cached
  check_cached-Ensures chunk prefix [] = on_ok tt
  check_cached-Ensures chunk prefix ((k, streamed) ∷ cache) =
      Ensures-if (in_chunk prefix k)
        (λ e. Ensures-bind_eq (read_in_chunk env chunk prefix k) λ a q.
          Ensures-if (not (accounts_eq streamed a)) (λ _. on_err)
            λ same. Ensures-mono (check_cached-Ensures chunk prefix cache) (λ kept h. (
              inl (
                e,
                (
                  a,
                  read_in_chunk-ok env chunk prefix k a q,
                  of_not-false (accounts_eq streamed a) same,
                ),
              ),
              h,
            )))
        (λ _. Ensures-bind (check_cached-Ensures chunk prefix cache) (λ kept h. on_ok (
          inr (inl refl),
          All-map (Sorts chunk prefix kept) (Sorts chunk prefix ((k, streamed) ∷ kept)) cache
              (Sorts-later chunk prefix kept (k, streamed)) h,
        )))

  take_below-Ensures :
      (prefix : List ℕ) (es : List Entry)
      → (es ≡ (take_below prefix es).0 ++ (take_below prefix es).1)
        × All (λ (e : Entry). in_chunk prefix e.0 ≡ true) (take_below prefix es).0
  unfolding take_below
  take_below-Ensures prefix [] = (refl, tt)
  take_below-Ensures prefix (e ∷ es) = elim (Bool-cases (in_chunk prefix e.0)) [
    | inl h ↦ let rest = take_below-Ensures prefix es in rw h (ap (λ l. e ∷ l) rest.0, (h, rest.1))
    | inr h ↦ rw h (refl, tt)
  ]

  -- Of the cache `old`, an entry is checked in one of the chunks or is still there.
  abbrev pub Tracked : List (Chunk env) → Map (Option TrieAccount) → CacheEntry → Type 0
  Tracked chunks kept e = Some (CheckedIn e) chunks ⊎ In e kept

  -- A chunk that was processed, with what it took, and the step that it is.
  abbrev pub Took : Streaming → List Entry → Streaming × List Entry → Type 0
  Took s left r =
      (c : Chunk env) × Filled c
      × (left ≡ c.accounts ++ r.1)
      × All (Tracked (c ∷ []) r.0.account_cache) s.account_cache
      × Moves env s c r.0

  Sorts-Tracked :
      (c : Chunk env) (cache : Map (Option TrieAccount)) (e : CacheEntry)
      → Sorts c.trie c.header.prefix cache e
      → Tracked (c ∷ []) cache e
  Sorts-Tracked c cache e (inl h) = inl (inl h)
  Sorts-Tracked c cache e (inr h) = inr h

  update_below-Took :
      (s : Streaming) (c : Chunk env) (cache : Map (Option TrieAccount)) (input : Input)
      (left : List Entry)
      → c.accounts ≡ (take_below c.header.prefix left).0
      → s.input
        ≡ witness (state_chunk c.header) ∷ raw c.encoded ∷ (witness_items c.witnesses ++ input)
      → length c.witnesses ≡ c.header.witness_count
      → All (Holds env c.trie c.header.prefix) c.witnesses
      → All (Sorts c.trie c.header.prefix cache) s.account_cache
      → Ensures
          (Took s left)
          (update_below env s c.header c.trie cache [] input (take_below c.header.prefix left))
  update_below-Took s c cache input left taken reads counted held sorts =
      let (eq, inside) = take_below-Ensures c.header.prefix left in
      let below : List Entry = (take_below c.header.prefix left).0 in
      let w : Work = record {
        chunk = c.trie;
        storage_tries = s.storage_tries;
        post_storage_tries = [];
      } in
      Ensures-if (length below == 0) (λ _. on_err)
        λ some_accounts.
          Ensures-bind (update_accounts-Writes env c.header.prefix w below refl) λ w' writes.
            Ensures-bind (close_chunk-Replaces env s c.header cache input w') λ s1 h.
              let (same, rest, tries, replaces) = h in
              on_ok (
                c,
                (rw taken (ground arith), rw taken inside),
                rw taken eq,
                rw same (
                    All-map (Sorts c.trie c.header.prefix cache) (Tracked (c ∷ []) cache)
                      s.account_cache (λ e h. Sorts-Tracked c cache e h) sorts),
                record {
                  reads = rw rest reads;
                  counted = counted;
                  held = held;
                  chunk = w'.chunk;
                  writes = rw taken (rw tries writes);
                  replaces = replaces;
                },
              )

  pub process_chunk-Took :
      (s : Streaming) (left : List Entry) → Ensures (Took s left) (process_chunk env s left)
  unfolding process_chunk
  process_chunk-Took s left = Ensures-bind (read_witness_input-front s.input) λ (wi, input1) first.
      Ensures-bind (as_state_chunk-is wi) λ header is.
        Ensures-bind (read_raw_bytes-front input1) λ (bytes, input2) second.
          Ensures-bind_eq (map_err mpt_error (open_trie env bytes)) λ am q.
            Ensures-if (not (bytes_eq am.0 header.expected_root)) (λ _. on_err)
              λ same.
                Ensures-bind (check_cached-Ensures am.1 header.prefix s.account_cache)
                  λ cache sorts.
                    Ensures-bind
                      (read_chunk_witnesses-Witnesses env header.witness_count am.1 header.prefix []
                        input2)
                      λ (post, input3) (none_left, (ws, counted, third, held)).
                        let c : Chunk env = record {
                          header = header;
                          encoded = bytes;
                          trie = am.1;
                          opened =
                              rw
                                (← bytes_eq→eq am.0 header.expected_root
                                  (of_not-false (bytes_eq am.0 header.expected_root) same))
                                (map_err-ok mpt_error (open_trie env bytes) q);
                          accounts = (take_below header.prefix left).0;
                          witnesses = ws;
                        } in
                        rw none_left (
                          update_below-Took s c cache input3 left refl
                            (rw first (rw is (rw second (rw third refl)))) counted held sorts)
