-- ===== src/Receiver/Relay.antt =====
-- chain/bsc2/receiver.go: message proofs, the accumulator's catching up, and the relay message; the
-- lengths and sequence numbers of chain/bsc2/types.go. The caches, the node and the tries are
-- arguments.
use btp2_bsc.Base.{
  ℕ, zero, suc, ◌+◌, ◌-◌, List, [], ◌∷◌, ◌++◌, Option, none, some, Bool, true, false, ltb, ◌==◌,
  ◌&&◌, if◌then◌else◌, length, Result, ok, err, panics, ◌>>=◌, add64,
}
use btp2_bsc.Chain.{Header}
use btp2_bsc.Client.{Message}

-- `BuildMessageProof`: the messages after a sequence number, up to the verifier's height, all at the
-- height of the first. `of_block` is that height once there is a first; the hashes of the blocks are
-- not compared.
unfoldable pub same_height : Option ℕ → ℕ → Bool
same_height none number = true
same_height (some n) number = n == number

unfoldable pub collect_messages : (ℕ → Option Message) → ℕ → ℕ → Option ℕ → ℕ → List Message
collect_messages cached zero height of_block sequence = []
collect_messages cached (suc fuel) height of_block sequence = elim (cached (add64 sequence 1)) [
  | none ↦ []
  | some m ↦
      let rest = collect_messages cached fuel height (some m.block_number) (add64 sequence 1) in
      if ltb height m.block_number
      then []
      else if same_height of_block m.block_number
      then m ∷ rest
      else []
]

-- A receipt's key in the trie and the nodes of its proof.
pub record ReceiptProof : Type 0 where
  pub key : List ℕ
  pub proof : List (List ℕ)

pub record MessageProof : Type 0 where
  pub hash : ℕ
  pub proofs : List ReceiptProof
  pub sequence : ℕ

unfoldable pub size_of_proof : List (List ℕ) → ℕ
size_of_proof [] = 0
size_of_proof (part ∷ parts) = length part + size_of_proof parts

-- `newProofOf` on the receipts' trie, and the RLP of an index.
module _ (key_of : ℕ → Result (List ℕ)) (proof_of : List ℕ → Result (List (List ℕ))) where
  -- The proofs of the messages; the first is taken whatever its size. What is left of the limit is
  -- the limit less `spent`, and may be negative.
  unfoldable pub prove_messages : ℕ → ℕ → Bool → List Message → Result (List ReceiptProof)
  prove_messages limit spent started [] = ok []
  prove_messages limit spent started (m ∷ ms) = key_of m.tx_index >>= λ key.
      proof_of key >>= λ proof.
      if started && ltb limit (spent + size_of_proof proof)
      then ok []
      else prove_messages limit (spent + size_of_proof proof) true ms >>= λ rest.
          ok (record { key = key; proof = proof } ∷ rest)

unfoldable pub as_proof : List Message → List ReceiptProof → Option MessageProof
as_proof [] proofs = none
as_proof (m ∷ ms) proofs = some (record { hash = m.block_hash; proofs = proofs; sequence = m.seq })

-- `trie` stands for the receipts of a block in their trie, with the errors of fetching them.
unfoldable pub build_message_proof :
    (ℕ → Option Message)
    → (ℕ → Result (List ℕ))
    → (ℕ → Result (List ℕ → Result (List (List ℕ))))
    → ℕ
    → ℕ
    → ℕ
    → ℕ
    → Result (Option MessageProof)
unfolding prove_messages as_proof
build_message_proof cached key_of trie fuel height rx_seq limit =
    elim (collect_messages cached fuel height none rx_seq) [
      | [] ↦ ok none
      | m ∷ ms ↦ trie m.block_hash >>= λ proof_of.
          prove_messages key_of proof_of limit 0 false (m ∷ ms) >>= λ proofs.
          ok (as_proof (m ∷ ms) proofs)
    ]

-- `MessageProof.Len`, `UpdateBMCLinkStatus` on the received sequence, and `LastSeqNum`
-- (chain/bsc2/types.go).
unfoldable pub message_proof_len : List ReceiptProof → ℕ
unfolding size_of_proof
message_proof_len [] = 0
message_proof_len (p ∷ ps) = size_of_proof p.proof + message_proof_len ps

unfoldable pub receive_sequence : MessageProof → ℕ → ℕ
receive_sequence p rx_seq = rx_seq + length p.proofs

unfoldable pub last_seq_num : MessageProof → ℕ
last_seq_num p = p.sequence + length p.proofs - 1

-- `BlockUpdate.Len` (chain/bsc2/types.go).
unfoldable pub headers_len : List Header → ℕ
headers_len [] = 0
headers_len (h ∷ hs) = h.size + headers_len hs

-- `syncAcc`: the hashes that are added to the accumulator for the heights from the cursor on, and
-- the error that ends it.
unfoldable pub sync_rounds : (ℕ → Result Header) → ℕ → ℕ → List ℕ × Result (Unit {0})
sync_rounds header_by_number zero cursor = ([], ok tt)
sync_rounds header_by_number (suc rounds) cursor =
    let rest = sync_rounds header_by_number rounds (cursor + 1) in
    elim (header_by_number cursor) [
      | err e ↦ ([], err e)
      | panics ↦ ([], panics)
      | ok head ↦ (head.hash ∷ rest.0, rest.1)
    ]

-- The indices in the order in which `newMTPWithReceipts` puts the receipts into the trie: that of
-- their RLP bytes, in which 0 follows 0x7f.
unfoldable pub count_up : ℕ → ℕ → List ℕ
count_up zero i = []
count_up (suc n) i = i ∷ count_up n (i + 1)

abbrev least : ℕ → ℕ → ℕ
least a b = if ltb a b then a else b

unfoldable pub insertion_order : ℕ → List ℕ
unfolding count_up
insertion_order n =
    count_up (least n 128 - 1) 1 ++ ((if ltb 0 n then 0 ∷ [] else []) ++ count_up (n - 128) 128)

-- `typeToUint`
pub data ItemType : Type 0 where
  block_update block_proof message_proof other_type : ItemType

unfoldable pub type_to_uint : ItemType → ℕ
type_to_uint block_update = 1
type_to_uint block_proof = 2
type_to_uint message_proof = 3
type_to_uint other_type = 0

-- `BuildRelayMessage`: each part with its type, in order; `encode` is RLP.
unfoldable pub prefix_parts :
    {P : Type 0} → (P → Result (List ℕ)) → (P → ItemType) → List P → Result (List (ℕ × List ℕ))
unfolding type_to_uint
prefix_parts encode item_type [] = ok []
prefix_parts encode item_type (p ∷ ps) = encode p >>= λ blob.
    prefix_parts encode item_type ps >>= λ rest. ok ((type_to_uint (item_type p), blob) ∷ rest)
