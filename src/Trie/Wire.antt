-- ===== src/Trie/Wire.antt =====
-- crates/mpt/src/trie.rs: a whole trie as bytes, `encode_trie` and `decode_trie`. The bytes of the
-- nodes follow one another, a node before its children, each padded to whole words.
pub mod Decode
pub mod Ends
pub mod Placed
pub mod Root
pub mod Encode
pub mod Count
pub mod Tests
use ceno_reth_benchmark.Base.{
  ℕ, ◌+◌, ◌-◌, ◌%◌, List, Option, ◌≤◌, ◌≡◌, ◌⊎◌, inl, inr, length, Bool, take, drop, ltb,
  if◌then◌else◌,
}
use ceno_reth_benchmark.Base.Result.{Result, ok, err, panic, ◌>>=◌}
use ceno_reth_benchmark.Trie.{Error, rlp_error, RlpError}

-- A header of the RLP library.
pub record Header : Type 0 where
  pub list : Bool
  pub payload_length : ℕ

-- `Header::decode` of the RLP library: it fails, or moves its slice on.
abbrev pub DecodeHeader : Type 0
DecodeHeader = List ℕ → RlpError ⊎ (Header × List ℕ)

-- What it is relied on for: the payload lies within the slice, the header is read off its front, and
-- the item is not empty.
abbrev pub IsBounded : DecodeHeader → Type 0
IsBounded decode =
    (bs : List ℕ) (h : Header) (rest : List ℕ)
    → decode bs ≡ inr (h, rest)
    → (h.payload_length ≤ length rest)
      × (length rest ≤ length bs)
      × (length rest + 1 ≤ length bs + h.payload_length)

abbrev pub lift : {A : Type 0} → RlpError ⊎ A → Result Error A
lift (inl e) = err (rlp_error e)
lift (inr a) = ok a

abbrev pub min_align : ℕ
min_align = 4

abbrev pub padding : ℕ → ℕ
padding rlp_length = (min_align - rlp_length % min_align) % min_align

-- `&buf[..cnt]`, which panics past the end, and the slice moved on.
unfoldable pub advance_unchecked : List ℕ → ℕ → Result Error (List ℕ × List ℕ)
advance_unchecked buf cnt = if ltb (length buf) cnt then panic else ok (take cnt buf, drop cnt buf)
