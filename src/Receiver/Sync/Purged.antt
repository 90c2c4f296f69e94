-- ===== src/Receiver/Sync/Purged.antt =====
-- What `purgeAndWakeup` leaves, and when it wakes the loop (chain/bsc2/receiver.go).
use btp2_bsc.Base.{
  ℕ, zero, suc, ◌+◌, ◌-◌, ◌*◌, ◌/◌, ◌≤◌, ◌<◌, ◌≡◌, refl, ◌∙◌, Option, none, some, leb, ltb, ◌==◌,
  ◌&&◌, if◌then◌else◌, arith, mul64, add64, ◌^◌, lt→ltb, u64_mod, ◌%◌,
}
use btp2_bsc.Receiver.{Peer}
use btp2_bsc.Receiver.Sync.{remove_range, Buffer, purge_and_wakeup, wait_if_full, cache_size}

module _ {Cache : Type 0} {Value : Type 0} (get : Cache → ℕ → Option Value)
    (remove : Cache → ℕ → Cache)
    (removed : (c : Cache) (k j : ℕ)
      → get (remove c k) j ≡ (if k == j then none else get c j)) where
  remove_range_lem :
      (rounds i : ℕ) (c : Cache) (j : ℕ)
      → get (remove_range remove rounds i c) j
        ≡ (if leb i j && ltb j (i + rounds) then none else get c j)
  unfolding remove_range
  remove_range_lem zero i c j = ground arith
  remove_range_lem (suc rounds) i c j =
      remove_range_lem rounds (i + 1) (remove c i) j ∙ ground (arith, removed c i j)

-- A cache answers nothing for what was removed, and else what it did.
abbrev pub Removes :
    {Cache Value : Type 0} → (Cache → ℕ → Option Value) → (Cache → ℕ → Cache) → Type 0
Removes {Cache} get remove =
    (c : Cache) (k j : ℕ) → get (remove c k) j ≡ (if k == j then none else get c j)

module _ {Heads Msgs Head Msg : Type 0} (head_at : Heads → ℕ → Option Head)
    (remove_head : Heads → ℕ → Heads) (msg_at : Msgs → ℕ → Option Msg)
    (remove_msg : Msgs → ℕ → Msgs) (heads_law : Removes head_at remove_head)
    (msgs_law : Removes msg_at remove_msg) where
  -- The header of a height is gone where the height is between the peer's old and new ones, both
  -- included, and else as before; the same for messages and sequence numbers.
  pub purge_removes :
      (o : Buffer Heads Msgs) (peer : Peer) (j : ℕ)
      → (head_at (purge_and_wakeup remove_head remove_msg o peer).heads j
          ≡ (if leb o.number j && leb j peer.number then none else head_at o.heads j))
        × (msg_at (purge_and_wakeup remove_head remove_msg o peer).msgs j
            ≡ (if leb o.sequence j && leb j peer.sequence then none else msg_at o.msgs j))
  unfolding purge_and_wakeup
  purge_removes o peer j = (
    remove_range_lem head_at remove_head heads_law (peer.number + 1 - o.number) o.number o.heads j
        ∙ ground arith,
    remove_range_lem msg_at remove_msg msgs_law (peer.sequence + 1 - o.sequence) o.sequence o.msgs j
        ∙ ground arith,
  )

module _ {Heads Msgs : Type 0} (remove_head : Heads → ℕ → Heads)
    (remove_msg : Msgs → ℕ → Msgs) where
  abbrev pub purged : Buffer Heads Msgs → Peer → Buffer Heads Msgs
  purged = purge_and_wakeup remove_head remove_msg

  abbrev pub tested : Buffer Heads Msgs → ℕ → Buffer Heads Msgs
  tested = wait_if_full remove_head remove_msg

  -- A loop that waits is woken by any status of the peer whose height is not below the last, above 0 and
  -- below 2^63; it goes on with
  -- its head then, though where the head is still beyond the buffer the test would hold again.
  pub wait_ends :
      (o : Buffer Heads Msgs) (peer : Peer) (number : ℕ)
      → o.number ≤ peer.number
      → 0 < peer.number
      → peer.number < 2 ^ 63
      → ((purged o peer).waiting ≡ none)
        × (peer.number + 1024 < number → (tested (purged o peer) number).waiting ≡ some number)
  unfolding purge_and_wakeup wait_if_full mul64 add64
  wait_ends o peer number h k w = (
    rw (lt→ltb (o.number * 2 % u64_mod / 3) peer.number (omega arith)) refl,
    λ far. rw (lt→ltb ((peer.number + cache_size) % u64_mod) number (omega arith)) refl,
  )
