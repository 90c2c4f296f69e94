-- ===== src/Receiver/Link.antt =====
-- The parts of a relay message as the link sees them: chain/bsc2/types.go, and `BuildBlockProof`,
-- `BuildRelayMessage`, `newStatus` and `calcLatestFinality` of chain/bsc2/receiver.go. The accumulator
-- and RLP below the level of items are arguments.
pub mod Status
pub mod Rounds
pub mod Examples
use btp2_bsc.Base.{
  ℕ, ◌+◌, List, [], ◌∷◌, Option, none, some, Result, ok, err, panics, ◌>>=◌, length, add64,
}
use btp2_bsc.Chain.{Header}
use btp2_bsc.Snapshot.State.{Snapshot}
use btp2_bsc.Tree.{Item, Pair, VerifierStatus, encode_status, decode_status}
use btp2_bsc.Calculator.{Calculator, newest, feed}
use btp2_bsc.Client.{Message}
use btp2_bsc.Receiver.{Bstatus, Peer, BlockUpdate, new_status}
use btp2_bsc.Receiver.Relay.{
  ItemType, block_update, block_proof, message_proof, MessageProof, headers_len, message_proof_len,
  receive_sequence, prefix_parts,
}
use btp2_bsc.Receiver.Sync.{sync_acc}
use btp2_bsc.Receiver.Watch.{clone}

-- `BMCLinkStatus`: the received sequence, and the verifier's height and extra bytes, as the items that
-- they spell.
pub record BmcLinkStatus : Type 0 where
  pub rx_seq : ℕ
  pub height : ℕ
  pub extra : ℕ × List Item

pub record BlockProof : Type 0 where
  pub header : Header
  pub acc_height : ℕ
  pub witness : List ℕ

pub data RelayItem : Type 0 where
  update_item : BlockUpdate → RelayItem
  proof_item : BlockProof → RelayItem
  message_item : MessageProof → RelayItem

-- `Type` and `Len` of the three kinds.
unfoldable pub item_type : RelayItem → ItemType
item_type (update_item u) = block_update
item_type (proof_item p) = block_proof
item_type (message_item m) = message_proof

unfoldable pub item_len : RelayItem → ℕ
item_len (update_item u) = headers_len u.headers
item_len (proof_item p) = 0
item_len (message_item m) = message_proof_len m.proofs

-- `ProofHeight` of the two block items.
unfoldable pub proof_height : RelayItem → ℕ
proof_height (update_item u) = u.height
proof_height (proof_item p) = 0
proof_height (message_item m) = 0

-- `UpdateBMCLinkStatus`; without enough fuel for the encoder `none`.
unfoldable pub update_link_status : ℕ → RelayItem → BmcLinkStatus → Option BmcLinkStatus
update_link_status fuel (update_item u) s = elim (encode_status fuel u.status) [
  | none ↦ none
  | some extra ↦ some (record s { height = u.height; extra = extra })
]
update_link_status fuel (proof_item p) s = some s
update_link_status fuel (message_item m) s =
    some (record s { rx_seq = receive_sequence m s.rx_seq })

-- The calls of `UpdateBMCLinkStatus` of several parts, in their order; what makes them is the relay
-- library.
unfoldable pub update_by_all : ℕ → List RelayItem → BmcLinkStatus → Option BmcLinkStatus
unfolding update_link_status
update_by_all fuel [] s = some s
update_by_all fuel (item ∷ items) s = elim (update_link_status fuel item s) [
  | none ↦ none
  | some s' ↦ update_by_all fuel items s'
]

-- `BuildRelayMessage`: the parts with their types, and the whole.
unfoldable pub build_relay_message :
    (RelayItem → Result (List ℕ))
    → (List (ℕ × List ℕ) → Result (List ℕ))
    → List RelayItem
    → Result (List ℕ)
unfolding item_type
build_relay_message encode encode_message parts =
    prefix_parts encode item_type parts >>= λ prefixed. encode_message prefixed

-- `newStatus` of a link status.
unfoldable pub peer_of : (List Item → Result (Pair × List Item)) → ℕ → BmcLinkStatus → Result Peer
peer_of past_end fuel s = new_status s.height s.rx_seq (decode_status past_end fuel s.extra)

-- `ToVerifierStatus`: a blob that does not decode panics.
unfoldable pub to_verifier_status :
    (List Item → Result (Pair × List Item)) → ℕ → ℕ × List Item → Result VerifierStatus
to_verifier_status past_end fuel blob = elim (decode_status past_end fuel blob) [
  | ok vs ↦ ok vs
  | err e ↦ panics
  | panics ↦ panics
]

-- `GetStatus`
unfoldable pub get_receive_status : Bstatus → Bstatus
unfolding clone
get_receive_status local = clone local

-- `BuildBlockProof`: the hashes that the accumulator takes in first, and the proof. `witness_for` is
-- the accumulator's `WitnessForAt`, at the height behind the target and that behind the peer's block.
module _ (header_by_hash header_by_number : ℕ → Result Header) (flush : Result (Unit {0}))
    (witness_for : ℕ → ℕ → Result (List ℕ)) where
  abbrev pub proof_after : Peer → ℕ → List ℕ × Result (Unit {0}) → List ℕ × Result BlockProof
  proof_after peer target (added, err e) = (added, err e)
  proof_after peer target (added, panics) = (added, panics)
  proof_after peer target (added, ok _) = (
    added,
    witness_for (target + 1) (add64 peer.number 1) >>= λ witness.
        header_by_number target >>= λ head.
        ok (record { header = head; acc_height = add64 peer.number 1; witness = witness }),
  )

  unfoldable pub build_block_proof : ℕ → Peer → ℕ → List ℕ × Result BlockProof
  unfolding sync_acc
  build_block_proof height peer target =
      proof_after peer target (sync_acc header_by_hash header_by_number flush height peer.hash)

-- `calcLatestFinality`: the last finalized block, or the zero hash.
abbrev pub latest_of : Option ℕ → ℕ
latest_of none = 0
latest_of (some hash) = hash

unfoldable pub calc_latest_finality :
    (ℕ → Result Snapshot) → ℕ → Calculator → ℕ → Calculator × Result ℕ
calc_latest_finality get fuel calc hash =
    let fed = feed get fuel calc hash in
    (fed.0, (fed.1 >>= λ finalities. ok (latest_of (newest finalities))))
