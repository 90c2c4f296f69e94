-- ===== src/Receiver/Link/Status.antt =====
-- A link status after the parts of a relay message (chain/bsc2/types.go), and the peer that the receiver
-- reads from it (`newStatus`, chain/bsc2/receiver.go).
use btp2_bsc.Base.{ℕ, ◌+◌, ◌≤◌, ◌≡◌, refl, List, [], ◌∷◌, some, Result, ok, length, lookup}
use btp2_bsc.Tree.{Item, Pair, encode_status, decode_status}
use btp2_bsc.Tree.Grow.{IsTree}
use btp2_bsc.Tree.Rank.{tree_size, encode-decode}
use btp2_bsc.Receiver.{Peer, BlockUpdate, new_status}
use btp2_bsc.Receiver.Relay.{MessageProof, receive_sequence}
use btp2_bsc.Receiver.Link.{
  BmcLinkStatus, update_item, message_item, update_link_status, update_by_all, peer_of,
}

-- After a block update with a well-formed tree and a message proof, with fuel for the tree, the
-- receiver reads from the link status a peer at the update's height, with the root and the entries
-- of the update's tree, and as many received messages more as the proof has.
pub update-peer_of :
    (past_end : List Item → Result (Pair × List Item)) (fuel : ℕ) (u : BlockUpdate)
    (m : MessageProof) (s : BmcLinkStatus) (tree : IsTree u.status.block_tree)
    → tree_size u.status.block_tree tree ≤ fuel
    → (s' : BmcLinkStatus) × (peer : Peer) × (update_by_all fuel
          (update_item u ∷ message_item m ∷ [])
          s
        ≡ some s')
      × (peer_of past_end fuel s' ≡ ok peer)
      × (peer.number ≡ u.height)
      × (peer.sequence ≡ s.rx_seq + length m.proofs)
      × (peer.hash ≡ u.status.block_tree.root)
      × ((k : ℕ) → lookup k peer.blocks.nodes ≡ lookup k u.status.block_tree.nodes)
unfolding update_by_all update_link_status peer_of new_status encode_status decode_status
    receive_sequence
update-peer_of past_end fuel u m s tree h =
    let (out, t, e, d, r, same) = encode-decode past_end u.status.block_tree tree fuel h in
    (
      record {
        rx_seq = s.rx_seq + length m.proofs;
        height = u.height;
        extra = (u.status.offset, out);
      },
      record {
        number = u.height;
        hash = t.root;
        sequence = s.rx_seq + length m.proofs;
        blocks = t;
      },
      rw (update_by_all, update_link_status, encode_status, e) refl,
      rw (peer_of, decode_status, d) refl,
      refl,
      refl,
      r,
      same,
    )
