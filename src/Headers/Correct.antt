-- ===== src/Headers/Correct.antt =====
-- The block hashes are those of a chain of headers.
use ceno_reth_benchmark.Base.{
  ℕ, ◌≡◌, refl, subst, ◌⊎◌, inl, inr, Bool, true, false, List, [], ◌∷◌, ◌==◌, ==→eq, eq→==,
  bytes_eq, bytes_eq→eq, bytes_eq_refl, Bool-cases,
}
use ceno_reth_benchmark.Base.Result.{Result, ok, err}
use ceno_reth_benchmark.Headers.{
  ClientExecutionError, non_consecutive_block_headers, parent_block_hash_mismatch, Header, Hashes,
  wrapping_pred, check_link, build_from, build_block_hashes,
}

module _ (hash_slow : Header → List ℕ) where
  -- Each header is the parent of the one before it.
  abbrev pub IsLink : Header → Header → Type 0
  IsLink child parent =
      (parent.number ≡ wrapping_pred child.number) × (hash_slow parent ≡ child.parent_hash)

  abbrev pub IsChain : Header → List Header → Type 0
  IsChain child [] = Unit
  IsChain child (parent ∷ headers) = IsLink child parent × IsChain parent headers

  -- The number and the hash of each of these headers, a later one in front.
  abbrev pub entries : List Header → Hashes → Hashes
  entries [] hashes = hashes
  entries (h ∷ headers) hashes = entries headers ((h.number, hash_slow h) ∷ hashes)

  -- Either the headers are a chain and the map is theirs, or they are none and it fails.
  abbrev pub Verdict : Header → List Header → Hashes → Result ClientExecutionError Hashes → Type 0
  Verdict child headers hashes r =
      (IsChain child headers × (r ≡ ok (entries headers hashes)))
      ⊎ (¬ IsChain child headers × ((e : ClientExecutionError) × (r ≡ err e)))

  check_link-IsLink :
      (child parent : Header) (hashes : Hashes)
      → (IsLink child parent
          × (check_link hash_slow child parent hashes
              ≡ ok ((parent.number, hash_slow parent) ∷ hashes)))
        ⊎ (¬ IsLink child parent
            × ((e : ClientExecutionError) × (check_link hash_slow child parent hashes ≡ err e)))
  unfolding check_link
  check_link-IsLink child parent hashes =
      elim (Bool-cases (parent.number == wrapping_pred child.number)) [
        | inr a ↦ inr (
          λ l. far a (eq→== parent.number (wrapping_pred child.number) l.0),
          (non_consecutive_block_headers parent.number child.number, rw a),
        )
        | inl a ↦ elim (Bool-cases (bytes_eq (hash_slow parent) child.parent_hash)) [
          | inr b ↦ inr (
            λ l. far b (
                subst (λ h. bytes_eq (hash_slow parent) h ≡ true) l.1
                  (bytes_eq_refl (hash_slow parent))),
            (
              parent_block_hash_mismatch parent.number (hash_slow parent) child.parent_hash,
              rw (a, b),
            ),
          )
          | inl b ↦ inl (
            (
              ==→eq parent.number (wrapping_pred child.number) a,
              bytes_eq→eq (hash_slow parent) child.parent_hash b,
            ),
            rw (a, b) (rw (bytes_eq→eq (hash_slow parent) child.parent_hash b) refl),
          )
        ]
      ]
    where
      far : {b : Bool} → b ≡ false → b ≡ true → ⊥
      far p q = cc (p, q)

  build_from-Verdict :
      (child : Header) (headers : List Header) (hashes : Hashes)
      → Verdict child headers hashes (build_from hash_slow child headers hashes)
  unfolding build_from
  build_from-Verdict child [] hashes = inl (tt, refl)
  build_from-Verdict child (parent ∷ headers) hashes =
      elim (check_link-IsLink child parent hashes) [
        | inr (n, (e, q)) ↦ inr (λ l. n l.0, (e, rw q refl))
        | inl (l, q) ↦
            let entry : ℕ × List ℕ = (parent.number, hash_slow parent) in
            let rest = build_from-Verdict parent headers (entry ∷ hashes) in
            rw q (elim rest [
              | inl (c, found) ↦ inl ((l, c), found)
              | inr (n, failed) ↦ inr (λ c. n c.1, failed)
            ])
      ]

-- `build_block_hashes` succeeds exactly on headers of which each is the parent of the one before it, by its
-- number and by its hash, and then the map holds the number and the hash of each header after the first.
pub build_block_hashes-Verdict :
    (hash_slow : Header → List ℕ) (child : Header) (headers : List Header)
    → Verdict hash_slow child headers [] (build_block_hashes hash_slow (child ∷ headers))
unfolding build_block_hashes
build_block_hashes-Verdict hash_slow child headers = build_from-Verdict hash_slow child headers []
