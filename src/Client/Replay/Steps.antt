-- ===== src/Client/Replay/Steps.antt =====
-- Each kind of query, eager and streaming.
use ceno_reth_benchmark.Base.{
  ℕ, ◌≡◌, refl, sym, ◌∙◌, true, false, Option, none, some, List, [], ◌∷◌, ◌++◌, append-nil,
  bytes_eq_refl, Bool-cases, inl, inr,
}
use ceno_reth_benchmark.Base.Result.{ok, Ensures, on_ok, Ensures-bind_eq}
use ceno_reth_benchmark.Base.Maps.{
  Key, Map, find?, put, contains, put-each, contains-put, contains-cons, contains-append_left,
  contains-append_self,
}
use ceno_reth_benchmark.State.{EthereumState}
use ceno_reth_benchmark.Headers.{Hashes}
use ceno_reth_benchmark.Client.Input.{
  TrieAccount, Bytecode, ClientWitnessInput, WitnessAccess, account,
}
use ceno_reth_benchmark.Client.Reader.{Env, Item, Input, witness, get_rlp}
use ceno_reth_benchmark.Client.Stream.{Streaming, read_account, read_until}
use ceno_reth_benchmark.Client.Database.{
  basic_ref, note_account, record_first, record_access, expect, to_account_info,
}
use ceno_reth_benchmark.Trie.Frontier.{MptFrontier}
use ceno_reth_benchmark.Host.Write.{Sources, write_accesses}
use ceno_reth_benchmark.Client.Replay.Linked.{
  Opened, Linked, Step, eager_db, fed, is_some-find, is_some-none, expect-ok,
}

abbrev pub account_item : Key → Option TrieAccount → Item
account_item k a = witness (ClientWitnessInput.account (record { hashed_address = k; account = a }))

read_until-found :
    (k : Key) (a : Option TrieAccount) (cache : Map (Option TrieAccount)) (rest : Input)
    → find? k cache ≡ none
    → read_until k cache (account_item k a ∷ rest) ≡ ok (a, put k a cache, rest)
unfolding read_until
read_until-found k a cache rest h = rw (h, bytes_eq_refl k)

read_account-first :
    (k : Key) (a : Option TrieAccount) (s : Streaming) (rest : Input)
    → find? k s.account_cache ≡ none
    → read_account (fed s (account_item k a ∷ rest)) k
      ≡ ok (a, fed (record s { account_cache = put k a s.account_cache }) rest)
unfolding read_account
read_account-first k a s rest h = rw h (rw (read_until-found k a s.account_cache rest h))

pub read_account-again :
    (k : Key) (a : Option TrieAccount) (s : Streaming)
    → find? k s.account_cache ≡ some a
    → read_account s k ≡ ok (a, s)
unfolding read_account
read_account-again k a s h = rw h

module _ (env : Env) (state : EthereumState) (codes : Map Bytecode) (hashes : Hashes)
    (src : Sources) (frontier : MptFrontier) (opened : Opened env state codes src) where
  -- An account that was read before.
  pub basic_again :
      (accounts tries : List Key) (k : Key) (a : Option TrieAccount) (s : Streaming)
      → Linked env state accounts tries s
      → contains accounts k ≡ true
      → get_rlp env.decode_account state.state_trie k ≡ ok a
      → find? k s.account_cache ≡ some a
  basic_again accounts tries k a s l seen q =
      let found = is_some-find (find? k s.account_cache) (sym seen ∙ l.cached k) in
      cc (found.1, l.values k found.0 found.1, q)

  -- An account that is read first.
  basic_first :
      (accounts tries : List Key) (k : Key) (a : Option TrieAccount) (s : Streaming)
      → Linked env state accounts tries s
      → get_rlp env.decode_account state.state_trie k ≡ ok a
      → Linked env state
          (accounts ++ (k ∷ []))
          tries
          (record s { account_cache = put k a s.account_cache })
  basic_first accounts tries k a s l q = record {
    cached = contains-put accounts k a s.account_cache l.cached;
    values =
        put-each (λ j b. get_rlp env.decode_account state.state_trie j ≡ ok b) k a s.account_cache q
          l.values;
    loaded = l.loaded;
    same = l.same;
  }

  basic_seen :
      (known accounts tries code_order : List Key) (order : List WitnessAccess) (address : List ℕ)
      (a : Option TrieAccount)
      → ((k : Key) → contains known k ≡ true → contains accounts k ≡ true)
      → contains accounts (env.codec.rlp.keccak256 address) ≡ true
      → get_rlp env.decode_account state.state_trie (env.codec.rlp.keccak256 address) ≡ ok a
      → Step env state codes hashes src frontier
          (env.codec.rlp.keccak256 address ∷ known)
          accounts
          tries
          order
          (λ db. basic_ref env db address)
          (to_account_info a, eager_db state codes hashes accounts tries code_order order)
  unfolding basic_ref write_accesses
  basic_seen known accounts tries code_order order address a looked seen q = record {
    accounts' = accounts;
    tries' = tries;
    code_order' = code_order;
    w = [];
    db_eq = rw append-nil;
    known_ok = contains-cons known accounts (env.codec.rlp.keccak256 address) seen looked;
    streams = λ c. (
      [],
      refl,
      λ s rest l. (
        s,
        rw
            (read_account-again (env.codec.rlp.keccak256 address) a (fed s rest)
              (basic_again accounts tries (env.codec.rlp.keccak256 address) a s l seen q))
            refl,
        l,
      ),
    );
  }

  basic_new :
      (known accounts tries code_order : List Key) (order : List WitnessAccess) (address : List ℕ)
      (a : Option TrieAccount)
      → ((k : Key) → contains known k ≡ true → contains accounts k ≡ true)
      → contains accounts (env.codec.rlp.keccak256 address) ≡ false
      → get_rlp env.decode_account state.state_trie (env.codec.rlp.keccak256 address) ≡ ok a
      → let k : Key = env.codec.rlp.keccak256 address in
        Step env state codes hashes src frontier
          (k ∷ known)
          accounts
          tries
          order
          (λ db. basic_ref env db address)
          (
            to_account_info a,
            eager_db state codes hashes
                (accounts ++ (k ∷ []))
                tries
                code_order
                (order ++ (account k ∷ [])),
          )
  unfolding basic_ref write_accesses
  basic_new known accounts tries code_order order address a looked new q =
      let k : Key = env.codec.rlp.keccak256 address in
      record {
        accounts' = accounts ++ (k ∷ []);
        tries' = tries;
        code_order' = code_order;
        w = account k ∷ [];
        db_eq = refl;
        known_ok =
            contains-cons known (accounts ++ (k ∷ [])) k (contains-append_self accounts k)
              (λ j h. contains-append_left accounts k j (looked j h));
        streams = λ c.
            let found : find? k src.account_by_hash ≡ some a = cc (c.0.1, c.0.2, q) in
            (
              account_item k a ∷ [],
              rw found refl,
              λ s rest l. (
                record s { account_cache = put k a s.account_cache },
                rw
                    (read_account-first k a s rest
                      (is_some-none (find? k s.account_cache) (sym new ∙ l.cached k)))
                    refl,
                basic_first accounts tries k a s l q,
              ),
            );
      }

  pub basic-Step :
      (known accounts tries code_order : List Key) (order : List WitnessAccess) (address : List ℕ)
      → ((k : Key) → contains known k ≡ true → contains accounts k ≡ true)
      → Ensures
          (Step env state codes hashes src frontier
            (env.codec.rlp.keccak256 address ∷ known)
            accounts
            tries
            order
            (λ db. basic_ref env db address))
          (basic_ref env (eager_db state codes hashes accounts tries code_order order) address)
  unfolding basic_ref note_account record_first record_access read_account
  basic-Step known accounts tries code_order order address looked =
      elim (Bool-cases (contains accounts (env.codec.rlp.keccak256 address))) [
        | inl seen ↦ rw seen (
            Ensures-bind_eq
              (expect
                (get_rlp env.decode_account state.state_trie (env.codec.rlp.keccak256 address)))
              λ a q. on_ok (
                basic_seen known accounts tries code_order order address a looked seen (
                  expect-ok
                    (get_rlp env.decode_account state.state_trie (env.codec.rlp.keccak256 address))
                    q)))
        | inr new ↦ rw new (
            Ensures-bind_eq
              (expect
                (get_rlp env.decode_account state.state_trie (env.codec.rlp.keccak256 address)))
              λ a q. on_ok (
                basic_new known accounts tries code_order order address a looked new (
                  expect-ok
                    (get_rlp env.decode_account state.state_trie (env.codec.rlp.keccak256 address))
                    q)))
      ]
