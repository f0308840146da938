-- ===== src/Client/Update/Written.antt =====
-- What the accounts of a chunk come to, when `update_accounts` succeeds, as a relation on the chunk and the
-- storage tries of the execution. It speaks of a chunk without storage witnesses.
use ceno_reth_benchmark.Base.{
  of_not-false, ℕ, ◌≡◌, refl, not, Bool, true, false, Option, none, some, List, [], ◌∷◌, ◌==◌,
  length, bytes_eq, bytes_eq→eq,
}
use ceno_reth_benchmark.Base.Result.{
  ok, Ensures, on_ok, on_err, Ensures-bind, Ensures-bind_eq, Ensures-if, Ensures-mono, Ensures-ok,
}
use ceno_reth_benchmark.Base.Maps.{Key, Map, find?, erase}
use ceno_reth_benchmark.Trie.{Mpt, new}
use ceno_reth_benchmark.Trie.Insert.{insert_nibbles}
use ceno_reth_benchmark.Trie.Delete.{delete_nibbles}
use ceno_reth_benchmark.Trie.Hash.{hash}
use ceno_reth_benchmark.State.{AccountInfo, BundleAccount, update_slots}
use ceno_reth_benchmark.Headers.{mpt_error}
use ceno_reth_benchmark.Client.Input.{TrieAccount}
use ceno_reth_benchmark.Client.Reader.{Env, map_err, map_err-ok, get_rlp_nibbles, root_or_empty}
use ceno_reth_benchmark.Client.Update.Sorted.{Entry}
use ceno_reth_benchmark.Client.Update.Chunk.{
  suffix, Work, read_in_chunk, update_storage_trie, slots_root, write_slots, keep_root,
  storage_root_of, write_account, update_accounts,
}

module _ (env : Env) where
  -- The root of a storage trie after the slots.
  abbrev pub SlotsRoot : Mpt → List (ℕ × ℕ) → List ℕ → Type 0
  SlotsRoot m storage root =
      (m1 : Mpt) × (m2 : Mpt) × (update_slots env.codec m storage ≡ ok m1)
      × (hash env.codec.rlp m1 ≡ ok (root, m2))

-- The storage root that an account is written with, and the storage tries that stay.
pub data NewRoot (env : Env) (k : Key) (a : BundleAccount) (old : Option TrieAccount) (t : Map Mpt)
    : List ℕ → Map Mpt → Type 0 where
  destroyed :
      {root : List ℕ}
      → a.was_destroyed ≡ true
      → SlotsRoot env new a.storage root
      → NewRoot env k a old t root t
  over_read :
      {root : List ℕ} (m : Mpt)
      → a.was_destroyed ≡ false
      → (length a.storage == 0) ≡ false
      → find? k t ≡ some m
      → SlotsRoot env m a.storage root
      → NewRoot env k a old t root (erase k t)
  over_empty :
      {root : List ℕ}
      → a.was_destroyed ≡ false
      → (length a.storage == 0) ≡ false
      → find? k t ≡ none
      → root_or_empty env old ≡ env.codec.rlp.empty_root_hash
      → SlotsRoot env new a.storage root
      → NewRoot env k a old t root t
  kept_unread :
      a.was_destroyed ≡ false
      → (length a.storage == 0) ≡ true
      → find? k t ≡ none
      → NewRoot env k a old t (root_or_empty env old) t
  kept_read :
      (m m1 : Mpt)
      → a.was_destroyed ≡ false
      → (length a.storage == 0) ≡ true
      → find? k t ≡ some m
      → hash env.codec.rlp m ≡ ok (root_or_empty env old, m1)
      → NewRoot env k a old t (root_or_empty env old) (erase k t)

-- From a chunk and storage tries, over accounts, to a chunk and storage tries.
pub data Writes (env : Env) (prefix : List ℕ)
    : Mpt → Map Mpt → List Entry → Mpt → Map Mpt → Type 0 where
  all_written : {m : Mpt} {t : Map Mpt} → Writes env prefix m t [] m t
  removed :
      {m m1 m2 : Mpt} {t t2 : Map Mpt} {k : Key} {a : BundleAccount} {es : List Entry}
      (changed : Bool)
      → a.info ≡ none
      → delete_nibbles m (suffix prefix k) ≡ ok (changed, m1)
      → Writes env prefix m1 (erase k t) es m2 t2
      → Writes env prefix m t ((k, a) ∷ es) m2 t2
  written :
      {m m1 m2 : Mpt} {t t1 t2 : Map Mpt} {k : Key} {a : BundleAccount} {es : List Entry}
      (old : Option TrieAccount) (info : AccountInfo) (root : List ℕ) (changed : Bool)
      → get_rlp_nibbles env.decode_account m (suffix prefix k) ≡ ok old
      → a.info ≡ some info
      → NewRoot env k a old t root t1
      → insert_nibbles m
          (suffix prefix k)
          (env.codec.encode_account info.nonce info.balance root info.code_hash)
        ≡ ok (changed, m1)
      → Writes env prefix m1 t1 es m2 t2
      → Writes env prefix m t ((k, a) ∷ es) m2 t2

module _ (env : Env) where
  pub read_in_chunk-ok :
      (chunk : Mpt) (prefix : List ℕ) (k : Key) (a : Option TrieAccount)
      → read_in_chunk env chunk prefix k ≡ ok a
      → get_rlp_nibbles env.decode_account chunk (suffix prefix k) ≡ ok a
  unfolding read_in_chunk
  read_in_chunk-ok chunk prefix k a q =
      map_err-ok mpt_error (get_rlp_nibbles env.decode_account chunk (suffix prefix k)) q

  update_storage_trie-SlotsRoot :
      (m : Mpt) (storage : List (ℕ × ℕ))
      → Ensures (SlotsRoot env m storage) (update_storage_trie env m storage)
  unfolding update_storage_trie
  update_storage_trie-SlotsRoot m storage =
      Ensures-bind_eq (update_slots env.codec m storage)
        λ m1 q. Ensures-bind_eq (hash env.codec.rlp m1) (λ r h. on_ok (m1, r.1, q, h))

  -- What `slots_root` gives: the root, and the tries as they were given to it.
  slots_root-SlotsRoot :
      (w : Work) (m : Mpt) (storage : List (ℕ × ℕ))
      → Ensures (λ r. (r.1 ≡ w) × SlotsRoot env m storage r.0) (slots_root env w m storage)
  slots_root-SlotsRoot w m storage =
      Ensures-bind_eq (map_err mpt_error (update_storage_trie env m storage)) λ root q. on_ok (
        refl,
        Ensures-ok (update_storage_trie-SlotsRoot m storage)
            (map_err-ok mpt_error (update_storage_trie env m storage) q),
      )

  -- The chunk stays, no storage witness comes, and the storage tries are those of the new root.
  abbrev Rooted : Work → Key → BundleAccount → Option TrieAccount → List ℕ × Work → Type 0
  Rooted w k a old r =
      (r.1.chunk ≡ w.chunk)
      × (r.1.post_storage_tries ≡ [])
      × NewRoot env k a old w.storage_tries r.0 r.1.storage_tries

  module _ (w : Work) (none_left : w.post_storage_tries ≡ []) (k : Key) (a : BundleAccount)
      (old : Option TrieAccount) where
    Rooted-same :
        (r : List ℕ × Work)
        → r.1 ≡ w
        → NewRoot env k a old w.storage_tries r.0 w.storage_tries
        → Rooted w k a old r
    Rooted-same (root, w1) same h = rw same (refl, none_left, h)

    Rooted-erased :
        (r : List ℕ × Work)
        → r.1 ≡ record w { storage_tries = erase k w.storage_tries }
        → NewRoot env k a old w.storage_tries r.0 (erase k w.storage_tries)
        → Rooted w k a old r
    Rooted-erased (root, w1) same h = rw same (refl, none_left, h)

    write_slots-Rooted :
        (o p : Option Mpt)
        → a.was_destroyed ≡ false
        → (length a.storage == 0) ≡ false
        → find? k w.storage_tries ≡ o
        → p ≡ none
        → Ensures (Rooted w k a old) (write_slots env w k old a.storage o p)
    write_slots-Rooted (some m) p d l q e =
        Ensures-mono
          (slots_root-SlotsRoot (record w { storage_tries = erase k w.storage_tries }) m a.storage)
          (λ r h. Rooted-erased r h.0 (over_read m d l q h.1))
    write_slots-Rooted none (some m) d l q e = cc
    write_slots-Rooted none none d l q e =
        Ensures-if (bytes_eq (root_or_empty env old) env.codec.rlp.empty_root_hash)
          (λ same. Ensures-mono (slots_root-SlotsRoot w new a.storage) λ r h. Rooted-same r h.0 (
            over_empty d l q
              (bytes_eq→eq (root_or_empty env old) env.codec.rlp.empty_root_hash same) h.1))
          (λ _. on_err)

    keep_root-Rooted :
        (o : Option Mpt)
        → a.was_destroyed ≡ false
        → (length a.storage == 0) ≡ true
        → find? k w.storage_tries ≡ o
        → Ensures (Rooted w k a old) (keep_root env w k (root_or_empty env old) o)
    keep_root-Rooted none d l q =
        on_ok (Rooted-same (root_or_empty env old, w) refl (kept_unread d l q))
    keep_root-Rooted (some m) d l q =
        Ensures-bind_eq (map_err mpt_error (hash env.codec.rlp m)) λ r h.
          Ensures-if (not (bytes_eq r.0 (root_or_empty env old))) (λ _. on_err)
            λ same. on_ok (
              Rooted-erased
                (root_or_empty env old, record w { storage_tries = erase k w.storage_tries }) refl
                (kept_read m r.1 d l q (
                  rw
                    (← bytes_eq→eq r.0 (root_or_empty env old)
                      (of_not-false (bytes_eq r.0 (root_or_empty env old)) same))
                    (map_err-ok mpt_error (hash env.codec.rlp m) h))))

    storage_root_of-Rooted :
        Ensures (Rooted w k a old) (storage_root_of env w k old a.was_destroyed a.storage)
    unfolding storage_root_of find?
    storage_root_of-Rooted =
        Ensures-if a.was_destroyed
          (λ d.
            Ensures-mono (slots_root-SlotsRoot w new a.storage)
              (λ r h. Rooted-same r h.0 (destroyed d h.1)))
          λ d.
            Ensures-if (not (length a.storage == 0))
              (λ l.
                write_slots-Rooted (find? k w.storage_tries) (find? k w.post_storage_tries) d
                  (not-true (length a.storage == 0) l) refl (rw none_left refl))
              (λ l.
                keep_root-Rooted (find? k w.storage_tries) d
                  (of_not-false (length a.storage == 0) l) refl)
      where
        not-true : (b : Bool) → not b ≡ true → b ≡ false
        not-true true h = cc
        not-true false h = refl

  -- Whatever is written after an account, is written after it.
  abbrev Before : List ℕ → Work → Key → BundleAccount → Work → Type 0
  Before prefix w k a w1 =
      (w1.post_storage_tries ≡ [])
      × ((es : List Entry) (m2 : Mpt) (t2 : Map Mpt)
          → Writes env prefix w1.chunk w1.storage_tries es m2 t2
          → Writes env prefix w.chunk w.storage_tries ((k, a) ∷ es) m2 t2)

  write_account-Before :
      (prefix : List ℕ) (w : Work) (k : Key) (a : BundleAccount) (old : Option TrieAccount)
      (o : Option AccountInfo)
      → w.post_storage_tries ≡ []
      → get_rlp_nibbles env.decode_account w.chunk (suffix prefix k) ≡ ok old
      → a.info ≡ o
      → Ensures (Before prefix w k a) (write_account env prefix w k a old o)
  write_account-Before prefix w k a old none z q i =
      Ensures-bind_eq (map_err mpt_error (delete_nibbles w.chunk (suffix prefix k))) λ r h. on_ok (
        z,
        λ es m2 t2 rest.
            removed r.0 i (map_err-ok mpt_error (delete_nibbles w.chunk (suffix prefix k)) h) rest,
      )
  write_account-Before prefix w k a old (some info) z q i =
      Ensures-bind (storage_root_of-Rooted w z k a old) λ (root, w1) s.
        Ensures-bind_eq
          (map_err mpt_error (
            insert_nibbles w1.chunk (suffix prefix k)
              (env.codec.encode_account info.nonce info.balance root info.code_hash)))
          λ r h. on_ok (
            s.1,
            λ es m2 t2 rest.
                written old info root r.0 q i s.2
                  (rw (← s.0) (
                    map_err-ok mpt_error
                      (insert_nibbles w1.chunk (suffix prefix k)
                        (env.codec.encode_account info.nonce info.balance root info.code_hash))
                      h))
                  rest,
          )

  pub update_accounts-Writes :
      (prefix : List ℕ) (w : Work) (es : List Entry)
      → w.post_storage_tries ≡ []
      → Ensures
          (λ w'. Writes env prefix w.chunk w.storage_tries es w'.chunk w'.storage_tries)
          (update_accounts env prefix w es)
  unfolding update_accounts
  update_accounts-Writes prefix w [] z = on_ok all_written
  update_accounts-Writes prefix w ((k, a) ∷ es) z =
      Ensures-bind_eq (read_in_chunk env w.chunk prefix k) λ old q.
        Ensures-bind
          (write_account-Before prefix w k a old a.info z (read_in_chunk-ok w.chunk prefix k old q)
            refl)
          λ w1 b.
            Ensures-mono (update_accounts-Writes prefix w1 es b.0)
              (λ w' rest. b.1 es w'.chunk w'.storage_tries rest)
