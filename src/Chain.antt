-- ===== src/Chain.antt =====
-- What chain/bsc2 takes from go-ethereum: headers and vote attestations as the code reads them, and
-- the functions of that library as the fields of one record. A hash or an address is the number
-- that its bytes spell; a header carries what `Header.Hash()` gives for it, and its number is the
-- value that `Number.Uint64()` reads.
use btp2_bsc.Base.{
  ℕ, zero, suc, ◌+◌, ◌-◌, ◌*◌, ◌≤◌, ◌<◌, ◌≡◌, refl, List, [], ◌∷◌, ◌++◌, Bool, length, drop, take,
  leb, if◌then◌else◌, Result, ok, panics, arith, Has, inl, inr,
}

pub record Header : Type 0 where
  pub number : ℕ
  pub hash : ℕ
  pub parent_hash : ℕ
  pub time : ℕ
  pub coinbase : ℕ
  pub extra : List ℕ
  -- `Header.Size()`, rounded up to whole bytes.
  pub size : ℕ

pub record VoteData : Type 0 where
  pub source_number : ℕ
  pub source_hash : ℕ
  pub target_number : ℕ
  pub target_hash : ℕ

pub record Ethereum : Type 0 where
  -- `config.IsBohr(number, time)`
  pub is_bohr : ℕ → ℕ → Bool
  -- `types.SealHash(header, chainId)`, `crypto.Ecrecover` and `crypto.Keccak256`
  pub seal_hash : Header → ℕ → List ℕ
  pub recover : List ℕ → List ℕ → Result (List ℕ)
  pub keccak : List ℕ → List ℕ
  -- `rlp.Decode` at a `VoteAttestation`, of which the code reads the data; the decoder sets that
  -- pointer whenever it succeeds
  pub decode_attestation : List ℕ → Result VoteData

-- `xs[i]` and `xs[start:end]` in Go panic outside the slice.
unfoldable pub index : List ℕ → ℕ → Result ℕ
index [] i = panics
index (x ∷ xs) zero = ok x
index (x ∷ xs) (suc i) = index xs i

unfoldable pub slice_range : ℕ → ℕ → List ℕ → Result (List ℕ)
slice_range start end xs =
    if leb start end
    then (if leb end (length xs) then ok (take (end - start) (drop start xs)) else panics)
    else panics

-- `common.BytesToAddress`: the number that big-endian bytes spell.
unfoldable pub from_bytes_acc : ℕ → List ℕ → ℕ
from_bytes_acc acc [] = acc
from_bytes_acc acc (b ∷ bs) = from_bytes_acc (acc * 256 + b) bs

abbrev pub from_bytes : List ℕ → ℕ
from_bytes = from_bytes_acc 0

pub index_lt : (xs : List ℕ) (i : ℕ) → i < length xs → (b : ℕ) × (index xs i ≡ ok b) × Has b xs
unfolding index
index_lt [] i h = absurd (omega arith)
index_lt (x ∷ xs) zero h = (x, refl, inl refl)
index_lt (x ∷ xs) (suc i) h = let (b, e, m) = index_lt xs i (omega arith) in (b, e, inr m)

pub slice_range_ok :
    (start end : ℕ) (xs : List ℕ)
    → start ≤ end
    → end ≤ length xs
    → slice_range start end xs ≡ ok (take (end - start) (drop start xs))
unfolding slice_range
slice_range_ok start end xs h k = ground arith

pub index-append : (xs ys : List ℕ) (y : ℕ) → index (xs ++ y ∷ ys) (length xs) ≡ ok y
unfolding index
index-append [] ys y = refl
index-append (x ∷ xs) ys y = index-append xs ys y
