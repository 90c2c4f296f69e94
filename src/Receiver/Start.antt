-- ===== src/Receiver/Start.antt =====
-- `Start` and `FinalizedStatus` (chain/bsc2/receiver.go), put together from the receiver's parts. What
-- fails in `Start` ends in `log.Panicf`.
pub mod Grown
pub mod Examples
use btp2_bsc.Base.{
  ℕ, ◌+◌, List, [], ◌∷◌, ◌++◌, Option, none, some, Bool, Result, ok, err, panics, ◌>>=◌, or_panic,
}
use btp2_bsc.Chain.{Header, Ethereum}
use btp2_bsc.Snapshot.State.{Snapshot}
use btp2_bsc.Client.{Message}
use btp2_bsc.Receiver.{Bstatus, Peer}
use btp2_bsc.Receiver.Sync.{sync_acc, synchronize, prepare, Buffer, purge_and_wakeup}
use btp2_bsc.Receiver.Watch.{take_missing}

-- `newStatus` a second time, for `local`; the tree is not read there.
unfoldable pub local_of : Peer → Bstatus
local_of peer = record {
  number = peer.number;
  hash = peer.hash;
  sequence = peer.sequence;
  cache = 0;
}

abbrev pub all_added : List ℕ × Result (Unit {0}) → Result (List ℕ)
all_added (added, ok _) = ok added
all_added (added, err e) = panics
all_added (added, panics) = panics

-- What the receiver holds when the loop is entered: what the accumulator took in, the messages put
-- into the cache, and the status.
pub record Started : Type 0 where
  pub added : List ℕ
  pub msgs : List Message
  pub local : Bstatus

module _ (header_by_hash header_by_number : ℕ → Result Header) (flush : Result (Unit {0})) where
  module _ (has : ℕ → Result Bool) (store : Snapshot → Result (Unit {0})) (eth : Ethereum)
      (ensure : ℕ → Result (Unit {0})) (latest : Result ℕ)
      (messages_after : ℕ → ℕ → Result (List Message)) (height_after : List ℕ → ℕ) where
    -- `height_after` is the accumulator's height once it has taken in the hashes.
    unfoldable pub start : ℕ → ℕ → ℕ → Result Peer → Result Started
    unfolding local_of
    start epoch offset leaves status = or_panic status >>= λ peer.
        all_added (prepare header_by_hash header_by_number flush has store eth epoch offset leaves)
        >>= λ first.
            all_added (
              synchronize header_by_hash header_by_number flush ensure (height_after first)
                peer.number)
            >>= λ later. or_panic latest >>= λ _.
                or_panic (messages_after peer.number peer.sequence) >>= λ found.
                let taken = take_missing (local_of peer) [] found in
                ok (record { added = first ++ later; msgs = taken.0; local = taken.1 })

  module _ {Heads Msgs : Type 0} (remove_head : Heads → ℕ → Heads)
      (remove_msg : Msgs → ℕ → Msgs) where
    -- A round of the goroutine of `FinalizedStatus`: an error of `syncAcc` is only logged.
    unfoldable pub take_status : ℕ → Buffer Heads Msgs → Peer → List ℕ × Buffer Heads Msgs
    take_status height buffer peer = (
      (sync_acc header_by_hash header_by_number flush height peer.hash).0,
      purge_and_wakeup remove_head remove_msg buffer peer,
    )
