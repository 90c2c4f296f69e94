-- ===== src/Snapshot/Extra/Safety.antt =====
-- The readers of the extra field (chain/bsc2/snapshot.go) never index outside it.
use btp2_bsc.Base.{
  >>=-ne-panics, Bool-cases, ℕ, zero, suc, ◌+◌, ◌-◌, ◌*◌, ◌/◌, ◌≤◌, ◌≡◌, ◌≢◌, refl, List, length,
  drop, length-drop, Result, ok, err, panics, ◌>>=◌, arith, leb, inl, inr,
}
use btp2_bsc.Chain.{Header, Ethereum, index_lt, slice_range, slice_range_ok}
use btp2_bsc.Snapshot.Extra.{
  parse_turn_length, validator_bytes, read_addresses, parse_validators, decoded, attestation_bytes,
  vote_attestation,
}

read_addresses_safe :
    (n : ℕ) (bytes : List ℕ) → n * 68 ≤ length bytes → read_addresses n bytes ≢ panics
unfolding read_addresses
read_addresses_safe zero bytes h = λ e. cc
read_addresses_safe (suc n) bytes h =
    >>=-ne-panics (slice_range 0 20 bytes) _ (λ e. ground (arith, slice_range_ok 0 20 bytes, e))
      (λ a.
        >>=-ne-panics (read_addresses n (drop 68 bytes)) _
          (read_addresses_safe n (drop 68 bytes) (omega (arith, length-drop {0} 68 bytes)))
          (λ r p. cc))

module _ (eth : Ethereum) (head : Header) where
  parse_turn_length_safe : parse_turn_length eth head ≢ panics
  unfolding parse_turn_length
  parse_turn_length_safe e = elim (Bool-cases (leb (length head.extra) 97)) [
    | inl short ↦ ground arith
    | inr long ↦
        let (num, i, _) = index_lt head.extra 32 (ground arith) in
        elim (Bool-cases (leb (length head.extra) (33 + num * 68))) [
          | inl short' ↦ ground (arith, i)
          | inr long' ↦
              let (turn, j, _) = index_lt head.extra (33 + num * 68) (ground arith) in
              ground (arith, i, j)
        ]
  ]

  validator_bytes_safe : validator_bytes eth head ≢ panics
  unfolding validator_bytes
  validator_bytes_safe e = elim (Bool-cases (leb (length head.extra) 97)) [
    | inl short ↦ ground arith
    | inr long ↦
        let (num, i, _) = index_lt head.extra 32 (ground arith) in
        ground (arith, i, slice_range_ok 33 (33 + num * 68) head.extra)
  ]

  parse_validators_safe : parse_validators eth head ≢ panics
  unfolding parse_validators
  parse_validators_safe e = by_bytes (validator_bytes eth head) refl
    where
      by_bytes : (r : Result (List ℕ)) → validator_bytes eth head ≡ r → ⊥
      by_bytes panics p = validator_bytes_safe p
      by_bytes (err x) p = ground (arith, e)
      by_bytes (ok bytes) p = ground (arith, e, read_addresses_safe (length bytes / 68) bytes)

  module _ (d : (bytes : List ℕ) → eth.decode_attestation bytes ≢ panics) where
    decoded_safe : (bytes : List ℕ) → decoded eth bytes ≢ panics
    unfolding decoded
    decoded_safe bytes e = ground (arith, d bytes, e)

    tail_safe :
        (start : ℕ)
        → start + 65 ≤ length head.extra
        → (attestation_bytes head start >>= decoded eth) ≢ panics
    unfolding attestation_bytes
    tail_safe start h =
        >>=-ne-panics (slice_range start (length head.extra - 65) head.extra) (decoded eth)
          (λ e. ground (arith, slice_range_ok start (length head.extra - 65) head.extra, e))
          decoded_safe

    vote_attestation_safe : vote_attestation eth head ≢ panics
    unfolding vote_attestation
    vote_attestation_safe e = elim (Bool-cases (leb (length head.extra) 97)) [
      | inl short ↦ ground arith
      | inr long ↦
          let (num, i, _) = index_lt head.extra 32 (ground arith) in
          ground
            (arith, i, tail_safe 32, tail_safe (33 + num * 68), tail_safe (33 + num * 68 + 1), e)
    ]

    -- Where the decoder of attestations does not panic, whatever bytes a header carries, reading
    -- its validators, its turn length and its attestation ends in a value or an error: no index or
    -- slice is out of range.
    pub readers_safe :
        (parse_validators eth head ≢ panics)
        × (parse_turn_length eth head ≢ panics)
        × (vote_attestation eth head ≢ panics)
    readers_safe = (parse_validators_safe, parse_turn_length_safe, vote_attestation_safe)
