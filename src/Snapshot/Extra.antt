-- ===== src/Snapshot/Extra.antt =====
-- chain/bsc2/snapshot.go: what a header's extra field holds. Slices are read with Go's bounds: an
-- index outside is `panics`.
pub mod Layout
pub mod Safety
use btp2_bsc.Base.{
  ℕ, zero, suc, ◌+◌, ◌-◌, ◌*◌, ◌/◌, ◌%◌, ◌≤◌, ◌<◌, ◌≡◌, refl, List, [], ◌∷◌, ◌++◌, Option, none,
  some, Bool, true, false, length, leb, ltb, ◌==◌, if◌then◌else◌, Result, ok, err, panics, ◌>>=◌,
  Error, arith, invalid_span_validators, invalid_turn_length, invalid_validators_bytes,
  missing_signature, drop, not, ◌||◌, decode_failure,
}
use btp2_bsc.Chain.{Header, Ethereum, VoteData, index, slice_range, from_bytes}

abbrev pub address_length : ℕ
address_length = 20

abbrev pub validator_bytes_length : ℕ
validator_bytes_length = 68

abbrev pub extra_vanity : ℕ
extra_vanity = 32

abbrev pub extra_seal : ℕ
extra_seal = 65

abbrev pub epoch : ℕ
epoch = 200

abbrev pub validator_number_size : ℕ
validator_number_size = 1

abbrev pub turn_length_size : ℕ
turn_length_size = 1

-- The loop of `parseValidators`: the addresses of n entries.
unfoldable pub read_addresses : ℕ → List ℕ → Result (List ℕ)
read_addresses zero bytes = ok []
read_addresses (suc n) bytes = do
  a ← slice_range 0 address_length bytes
  rest ← read_addresses n (drop validator_bytes_length bytes)
  ok (from_bytes a ∷ rest)

unfoldable pub attestation_bytes : Header → ℕ → Result (List ℕ)
attestation_bytes head start = slice_range start (length head.extra - extra_seal) head.extra

module _ (eth : Ethereum) where
  abbrev pub is_bohr_at : Header → Bool
  is_bohr_at h = eth.is_bohr h.number h.time

  unfoldable pub parse_turn_length : Header → Result ℕ
  parse_turn_length head =
      if is_bohr_at head
      then (if leb (length head.extra) (extra_vanity + extra_seal)
          then err invalid_span_validators
          else index head.extra extra_vanity >>= λ num.
              if leb (length head.extra)
                (extra_vanity + validator_number_size + num * validator_bytes_length)
              then err invalid_turn_length
              else index head.extra
                  (extra_vanity + validator_number_size + num * validator_bytes_length))
      else ok 1

  -- `end + extraSeal`, and a byte more since Bohr.
  abbrev pub extra_min_len : Header → ℕ → ℕ
  extra_min_len head num =
      if is_bohr_at head
      then extra_vanity
        + validator_number_size
        + num * validator_bytes_length
        + extra_seal
        + turn_length_size
      else extra_vanity + validator_number_size + num * validator_bytes_length + extra_seal

  -- `getValidatorBytesFromHeader`; the nil slice is the empty list.
  unfoldable pub validator_bytes : Header → Result (List ℕ)
  validator_bytes head =
      if leb (length head.extra) (extra_vanity + extra_seal)
      then ok []
      else if not (head.number % epoch == 0)
      then ok []
      else index head.extra extra_vanity >>= λ num.
          if num == 0 || ltb (length head.extra) (extra_min_len head num)
          then ok []
          else slice_range (extra_vanity + validator_number_size)
              (extra_vanity + validator_number_size + num * validator_bytes_length) head.extra

  unfoldable pub parse_validators : Header → Result (List ℕ)
  parse_validators head = validator_bytes head >>= λ bytes.
      if length bytes == 0
      then err invalid_validators_bytes
      else read_addresses (length bytes / validator_bytes_length) bytes

  abbrev pub attestation_start : Header → ℕ → ℕ
  attestation_start head num =
      if is_bohr_at head
      then extra_vanity + validator_number_size + num * validator_bytes_length + turn_length_size
      else extra_vanity + validator_number_size + num * validator_bytes_length

  -- A decoding error is wrapped into an error of its own.
  unfoldable pub decoded : List ℕ → Result (Option VoteData)
  decoded bytes = elim (eth.decode_attestation bytes) [
    | ok d ↦ ok (some d)
    | err e ↦ err decode_failure
    | panics ↦ panics
  ]

  -- `getVoteAttestationFromHeader`; `nil, nil` is `ok none`.
  unfoldable pub vote_attestation : Header → Result (Option VoteData)
  vote_attestation head =
      if leb (length head.extra) (extra_vanity + extra_seal)
      then ok none
      else if not (head.number % epoch == 0)
      then attestation_bytes head extra_vanity >>= decoded
      else index head.extra extra_vanity >>= λ num.
          if leb (length head.extra)
            (extra_vanity + extra_seal + validator_number_size + num * validator_bytes_length)
          then ok none
          else attestation_bytes head (attestation_start head num) >>= decoded

  -- The address of the key that signed the header.
  unfoldable pub ecrecover : Header → ℕ → Result ℕ
  ecrecover head chain_id =
      if ltb (length head.extra) extra_seal
      then err missing_signature
      else slice_range (length head.extra - extra_seal) (length head.extra) head.extra >>= λ sig.
          eth.recover (eth.seal_hash head chain_id) sig >>= λ pubkey.
          slice_range 1 (length pubkey) pubkey >>= λ body.
          slice_range 12 (length (eth.keccak body)) (eth.keccak body) >>= λ tail.
          ok (from_bytes tail)
