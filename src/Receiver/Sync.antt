-- ===== src/Receiver/Sync.antt =====
-- `prepare`, `synchronize`, `syncAcc`, `purgeAndWakeup` and `waitIfFullBuf` (chain/bsc2/receiver.go).
-- The node, the database, the snapshots' store, the accumulator and the caches are arguments; of the
-- accumulator the hashes added are followed, in order, with its height before.
pub mod Heights
pub mod Purged
pub mod Examples
use btp2_bsc.Base.{
  ◌||◌, ℕ, zero, suc, ◌+◌, ◌-◌, ◌*◌, ◌/◌, ◌%◌, List, [], ◌∷◌, Option, none, some, Bool, true, false,
  leb, ltb, ◌==◌, not, if◌then◌else◌, Error, Result, ok, err, panics, ◌>>=◌, add64, mul64,
}
use btp2_bsc.Chain.{Header, Ethereum}
use btp2_bsc.Snapshot.State.{Snapshot}
use btp2_bsc.Snapshot.Boot.{boot_snapshot}
use btp2_bsc.Receiver.{Peer}
use btp2_bsc.Receiver.Relay.{sync_rounds}

-- What is flushed after the rounds that all succeeded.
abbrev pub flushed : Result (Unit {0}) → List ℕ × Result (Unit {0}) → List ℕ × Result (Unit {0})
flushed flush (added, ok _) = (added, flush)
flushed flush (added, err e) = (added, err e)
flushed flush (added, panics) = (added, panics)

module _ (header_by_hash header_by_number : ℕ → Result Header) (flush : Result (Unit {0})) where
  -- `syncAcc` from the accumulator's height on; the heights are int64, and not negative.
  unfoldable pub sync_acc : ℕ → ℕ → List ℕ × Result (Unit {0})
  sync_acc height until = elim (header_by_hash until) [
    | err e ↦ ([], err e)
    | panics ↦ ([], panics)
    | ok end ↦ flushed flush (sync_rounds header_by_number (end.number + 1 - height) height)
  ]

  abbrev pub ensured : ℕ → ℕ → Result (Unit {0}) → List ℕ × Result (Unit {0})
  ensured height hash (ok _) = sync_acc height hash
  ensured height hash (err e) = ([], err e)
  ensured height hash panics = ([], panics)

  -- `synchronize`; `ensure` is that of the snapshots' store.
  unfoldable pub synchronize : (ℕ → Result (Unit {0})) → ℕ → ℕ → List ℕ × Result (Unit {0})
  unfolding sync_acc
  synchronize ensure height until = elim (header_by_number until) [
    | err e ↦ ([], err e)
    | panics ↦ ([], panics)
    | ok target ↦ ensured height target.hash (ensure target.hash)
  ]

  -- The first header goes into an empty accumulator.
  unfoldable pub add_initial : ℕ → Header → List ℕ × Result (Unit {0})
  add_initial leaves head = if leaves == 0 then (head.hash ∷ [], flush) else ([], ok tt)

  module _ (has : ℕ → Result Bool) (store : Snapshot → Result (Unit {0})) (eth : Ethereum) where
    -- The snapshot of the first block is made and stored where there is none.
    unfoldable pub store_initial : ℕ → Header → Result (Unit {0})
    store_initial epoch head = has head.hash >>= λ there.
        if there then ok tt else (boot_snapshot header_by_number eth epoch head >>= store)

    abbrev pub with_snapshot : ℕ → Header → List ℕ × Result (Unit {0}) → List ℕ × Result (Unit {0})
    with_snapshot epoch head (added, ok _) = (added, store_initial epoch head)
    with_snapshot epoch head (added, err e) = (added, err e)
    with_snapshot epoch head (added, panics) = (added, panics)

    -- `prepare`: an offset that is no epoch block panics, as does the epoch 0.
    unfoldable pub prepare : ℕ → ℕ → ℕ → List ℕ × Result (Unit {0})
    unfolding add_initial store_initial
    prepare epoch offset leaves =
        if epoch == 0 || not (offset % epoch == 0)
        then ([], panics)
        else elim (header_by_number offset) [
          | err e ↦ ([], err e)
          | panics ↦ ([], panics)
          | ok head ↦ with_snapshot epoch head (add_initial leaves head)
        ]

-- `for i := first; i <= last; i++ { cache.Remove(i) }`, of a cache of the library, by the number of
-- its rounds; it ends for a last one below 2^64 - 1.
unfoldable pub remove_range : {Cache : Type 0} → (Cache → ℕ → Cache) → ℕ → ℕ → Cache → Cache
remove_range remove zero i cache = cache
remove_range remove (suc rounds) i cache = remove_range remove rounds (i + 1) (remove cache i)

abbrev pub cache_size : ℕ
cache_size = 1024

-- The two caches and the peer's height and sequence, with the height for which the loop waits.
pub record Buffer (Heads Msgs : Type 0) : Type 0 where
  pub heads : Heads
  pub msgs : Msgs
  pub number : ℕ
  pub sequence : ℕ
  pub waiting : Option ℕ

module _ {Heads Msgs : Type 0} (remove_head : Heads → ℕ → Heads)
    (remove_msg : Msgs → ℕ → Msgs) where
  -- `purgeAndWakeup`: what is not above the peer's new status goes; the waiting loop is woken where
  -- two thirds of the old height are below the new one. The product is a uint64's.
  unfoldable pub purge_and_wakeup : Buffer Heads Msgs → Peer → Buffer Heads Msgs
  unfolding remove_range
  purge_and_wakeup o peer = record {
    heads = remove_range remove_head (peer.number + 1 - o.number) o.number o.heads;
    msgs = remove_range remove_msg (peer.sequence + 1 - o.sequence) o.sequence o.msgs;
    number = peer.number;
    sequence = peer.sequence;
    waiting = if ltb (mul64 o.number 2 / 3) peer.number then none else o.waiting;
  }

  -- `waitIfFullBuf`: the loop waits with a height beyond the buffer, or goes on.
  unfoldable pub wait_if_full : Buffer Heads Msgs → ℕ → Buffer Heads Msgs
  wait_if_full o number =
      if ltb (add64 o.number cache_size) number then record o { waiting = some number } else o
