-- ===== src/Receiver/Link/Rounds.antt =====
-- Rounds of relaying: the receiver builds an update for the peer (`BuildBlockUpdate`), the link takes it
-- in with a message proof (chain/bsc2/types.go), and the receiver reads the peer back (`newStatus`).
pub mod Examples
use btp2_bsc.Base.{
  ℕ, ◌+◌, ◌≤◌, ◌≡◌, refl, sym, ap, subst, ◌∙◌, inl, inr, arith, List, [], ◌∷◌, ◌++◌, Option, none,
  some, Result, ok, length, lookup, Has, add64, ok-injective, Option-cases,
}
use btp2_bsc.Chain.{Header}
use btp2_bsc.Snapshot.State.{Snapshot}
use btp2_bsc.Tree.{Item, Pair, new_block_tree, encode_status, decode_status, encode}
use btp2_bsc.Tree.Grow.{IsTree, new_block_tree-IsTree, same-IsTree}
use btp2_bsc.Tree.Rank.{tree_size, decode_same}
use btp2_bsc.Tree.Line.{last_or}
use btp2_bsc.Client.{Message}
use btp2_bsc.Receiver.{Peer, BlockUpdate, new_status, select_fork, build_block_update}
use btp2_bsc.Receiver.Kept.{hashes}
use btp2_bsc.Receiver.Rooted.{IsHashed, build_block_update_roots}
use btp2_bsc.Receiver.Relay.{MessageProof, receive_sequence}
use btp2_bsc.Receiver.Link.{
  BmcLinkStatus, update_item, message_item, update_link_status, update_by_all, peer_of,
}
use btp2_bsc.Receiver.Link.Status.{update-peer_of}

module _ (get : ℕ → Result Snapshot) (messages : ℕ → Result (List Message))
    (past_end : List Item → Result (Pair × List Item)) where
  -- In a round an update is built for the peer, from any headers and limits, and taken in by the
  -- link with a message proof; the next peer is what the receiver reads from the link then.
  pub data Relayed (start : Peer) : Peer → Type 0 where
    begun : Relayed start start
    round :
        {peer peer' : Peer} (us : List BlockUpdate) (u : BlockUpdate) (s s' : BmcLinkStatus)
        (heads : ℕ → Option Header) (fuel rounds cache offset limit fuel' : ℕ) (m : MessageProof)
        → Relayed start peer
        → build_block_update get messages heads fuel rounds cache offset peer limit ≡ ok us
        → Has u us
        → update_by_all fuel' (update_item u ∷ message_item m ∷ []) s ≡ some s'
        → peer_of past_end fuel' s' ≡ ok peer'
        → Relayed start peer'

  abbrev pub IsRooted : Peer → Type 0
  IsRooted peer = IsTree peer.blocks × (peer.blocks.root ≡ peer.hash)

  -- What the receiver reads back after an update with a well-formed tree.
  read_back :
      (fuel : ℕ) (u : BlockUpdate) (m : MessageProof) (s s' : BmcLinkStatus) (peer' : Peer)
      → IsTree u.status.block_tree
      → update_by_all fuel (update_item u ∷ message_item m ∷ []) s ≡ some s'
      → peer_of past_end fuel s' ≡ ok peer'
      → IsRooted peer'
  unfolding update_by_all update_link_status peer_of new_status encode_status decode_status
      receive_sequence
  read_back fuel u m s s' peer' tree e p = elim (Option-cases (encode fuel u.status.block_tree)) [
    | inl n ↦ absurd (ground (arith, e, n))
    | inr (out, q) ↦
        let (t, d, r, same) = decode_same past_end u.status.block_tree tree fuel out q in
        let taken : s'.extra ≡ (u.status.offset, out) = ground (arith, e, q) in
        let made : peer'
            ≡ record { number = s'.height; hash = t.root; sequence = s'.rx_seq; blocks = t } =
          ground (arith, p, taken, d) in
        subst IsRooted (sym made) (same-IsTree u.status.block_tree t r same tree, refl)
  ]

  -- Where the store answers a hash with its snapshot and the peer at the start has a well-formed tree
  -- with its own block as the root, this holds of the peer after any rounds.
  pub relayed-IsRooted :
      (start peer : Peer)
      → IsHashed get messages
      → IsRooted start
      → Relayed start peer
      → IsRooted peer
  relayed-IsRooted start peer hashed rooted begun = rooted
  relayed-IsRooted start peer' hashed rooted
        (round {peer} us u s s' heads fuel rounds cache offset limit fuel' m before e has t p) =
      let (tree, at) = relayed-IsRooted start peer hashed rooted before in
      let (tree', _) =
        build_block_update_roots get messages heads fuel rounds cache offset peer limit us u hashed
          tree at e has in
      read_back fuel' u m s s' peer' tree' t p

  -- The peer read back after an update: a round on, with a first part of the fork and of the
  -- update's blocks final, and the messages of the proof received.
  abbrev pub Next :
      Peer → Peer → List ℕ → BlockUpdate → MessageProof → BmcLinkStatus → Peer → Type 0
  Next start peer fork u m s peer' =
      Relayed start peer'
      × (peer'.sequence ≡ s.rx_seq + length m.proofs)
      × ((done left : List ℕ) × (done ++ left ≡ fork ++ hashes u.headers)
          × (peer'.number ≡ add64 peer.number (length done))
          × (peer'.hash ≡ last_or peer.hash done))

  -- Where the store answers a hash with its snapshot and the peer at the start has a well-formed tree
  -- with its own block as the root: after any rounds an update that is built for the peer is taken in
  -- by the link with any message proof, from some fuel on, and the receiver reads a peer back: the
  -- peer at the last of a first part of its fork and of the update's blocks, as many blocks higher,
  -- with as many received messages more as the proof has.
  pub round_goes_on :
      (start peer : Peer) (heads : ℕ → Option Header) (fuel rounds cache offset limit : ℕ)
      (us : List BlockUpdate) (u : BlockUpdate) (m : MessageProof) (s : BmcLinkStatus)
      → IsHashed get messages
      → IsRooted start
      → Relayed start peer
      → build_block_update get messages heads fuel rounds cache offset peer limit ≡ ok us
      → Has u us
      → (need : ℕ) × ((fuel' : ℕ)
          → need ≤ fuel'
          → (s' : BmcLinkStatus) × (peer' : Peer) × (update_by_all fuel'
                (update_item u ∷ message_item m ∷ [])
                s
              ≡ some s')
            × (peer_of past_end fuel' s' ≡ ok peer')
            × Next start peer (select_fork get messages fuel peer.hash peer.blocks) u m s peer')
  round_goes_on start peer heads fuel rounds cache offset limit us u m s hashed rooted before e
        has =
      let (tree, at) = relayed-IsRooted start peer hashed rooted before in
      let (tree', (done, left, whole, height, root, _)) =
        build_block_update_roots get messages heads fuel rounds cache offset peer limit us u hashed
          tree at e has in
      (
        tree_size u.status.block_tree tree',
        λ fuel' h.
            let (s', peer', t, p, number, sequence, hash, _) =
              update-peer_of past_end fuel' u m s tree' h in
            (
              s',
              peer',
              t,
              p,
              (
                round us u s s' heads fuel rounds cache offset limit fuel' m before e has t p,
                sequence,
                (done, left, whole, number ∙ height, hash ∙ root),
              ),
            ),
      )
