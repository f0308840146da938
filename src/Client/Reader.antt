-- ===== src/Client/Reader.antt =====
-- `ClientInputReader` of crates/executor/client/src/io.rs over a list of items, and what the client
-- takes from libraries. A read of another item than the next one is a panic.
use ceno_reth_benchmark.Base.{ℕ, ◌≡◌, Option, none, some, List, ◌∷◌, ◌⊎◌}
use ceno_reth_benchmark.Base.Result.{Result, ok, err, panic, stuck, ◌>>=◌}
use ceno_reth_benchmark.Trie.{Error, RlpError, Mpt}
use ceno_reth_benchmark.Trie.Get.{get, get_nibbles}
use ceno_reth_benchmark.Trie.Wire.{DecodeHeader, lift}
use ceno_reth_benchmark.Trie.Wire.Decode.{decode_trie}
use ceno_reth_benchmark.Trie.Hash.{hash}
use ceno_reth_benchmark.State.{Codec}
use ceno_reth_benchmark.Headers.{Header}
use ceno_reth_benchmark.Client.Input.{TrieAccount, StateTrieHeader, ClientWitnessInput, Bytecode}

-- The encodings and hashes of the libraries.
pub record Env : Type 0 where
  pub codec : Codec
  pub decode_header : DecodeHeader
  pub decode_account : List ℕ → RlpError ⊎ TrieAccount
  pub decode_value : List ℕ → RlpError ⊎ ℕ
  pub code_hash_slow : Bytecode → List ℕ
  pub header_hash_slow : Header → List ℕ

-- Of a block, its header; `body` stands for the rest.
pub record Block : Type 0 where
  pub header : Header
  pub body : List ℕ

pub data Item : Type 0 where
  ancestor_headers : List Header → Item
  current_block : Block → Item
  state_trie_header : StateTrieHeader → Item
  witness : ClientWitnessInput → Item
  raw : List ℕ → Item

abbrev pub Input : Type 0
Input = List Item

unfoldable pub read_ancestor_headers : {E : Type 0} → Input → Result E (List Header × Input)
read_ancestor_headers (ancestor_headers headers ∷ input) = ok (headers, input)
read_ancestor_headers _ = panic

unfoldable pub read_current_block : {E : Type 0} → Input → Result E (Block × Input)
read_current_block (current_block b ∷ input) = ok (b, input)
read_current_block _ = panic

unfoldable pub read_witness_input : {E : Type 0} → Input → Result E (ClientWitnessInput × Input)
read_witness_input (witness w ∷ input) = ok (w, input)
read_witness_input _ = panic

unfoldable pub read_raw_bytes : {E : Type 0} → Input → Result E (List ℕ × Input)
read_raw_bytes (raw bs ∷ input) = ok (bs, input)
read_raw_bytes _ = panic

unfoldable pub read_state_trie_header : {E : Type 0} → Input → Result E (StateTrieHeader × Input)
read_state_trie_header (state_trie_header h ∷ input) = ok (h, input)
read_state_trie_header _ = panic

-- `map_err`
abbrev pub map_err {ℓ} : {E F A : Type ℓ} → (E → F) → Result E A → Result F A
map_err f (ok a) = ok a
map_err f (err e) = err (f e)
map_err f panic = panic
map_err f stuck = stuck

pub map_err-ok :
    {E F A : Type 0} (f : E → F) (r : Result E A) {a : A} → map_err f r ≡ ok a → r ≡ ok a
map_err-ok f (ok a) h = cc
map_err-ok f (err e) h = cc
map_err-ok f panic h = cc
map_err-ok f stuck h = cc

abbrev pub decoded :
    {A : Type 0} → (List ℕ → RlpError ⊎ A) → Option (List ℕ) → Result Error (Option A)
decoded decode none = ok none
decoded decode (some bytes) = do a ← lift (decode bytes); ok (some a)

-- `get_rlp` and `get_rlp_nibbles` of crates/mpt/src/trie.rs.
unfoldable pub get_rlp :
    {A : Type 0} → (List ℕ → RlpError ⊎ A) → Mpt → List ℕ → Result Error (Option A)
get_rlp decode m key = get m key >>= decoded decode

unfoldable pub get_rlp_nibbles :
    {A : Type 0} → (List ℕ → RlpError ⊎ A) → Mpt → List ℕ → Result Error (Option A)
get_rlp_nibbles decode m key_nibs = get_nibbles m key_nibs >>= decoded decode

-- A trie decoded and hashed, as every caller does.
unfoldable pub open_trie : Env → List ℕ → Result Error (List ℕ × Mpt)
open_trie env bs = do
  (m, rest) ← decode_trie env.decode_header env.codec.rlp.keccak256 bs
  hash env.codec.rlp m

abbrev pub root_or_empty : Env → Option TrieAccount → List ℕ
root_or_empty env none = env.codec.rlp.empty_root_hash
root_or_empty env (some a) = a.storage_root
