-- ===== src/Snapshot/Step/Recents.antt =====
-- The recent signers (chain/bsc2/snapshot.go): `countRecents`, `SignRecently` and what `apply` makes
-- of them.
use btp2_bsc.Base.{
  length, ◌*◌, ◌/◌, ◌&&◌, ℕ, suc, ◌+◌, ◌%◌, ◌≤◌, ◌<◌, ◌≡◌, ◌≢◌, ◌↔◌, inl, inr, List, [], ◌∷◌, true,
  ◌==◌, ◌||◌, leb, ltb, arith, lookup, insert, lookup-insert, if◌then◌else◌, Option-cases,
}
use btp2_bsc.Snapshot.State.{
  Snapshot, count_of, count_loop, count_recents, left_history_bound, sign_recently,
  sign_recently_by_counts,
}

-- How often an address signed above the bound.
unfoldable pub signatures : ℕ → ℕ → List (ℕ × ℕ) → ℕ
signatures bound v [] = 0
signatures bound v ((seen, recent) ∷ rest) =
    if ltb bound seen && (recent == v)
    then suc (signatures bound v rest)
    else signatures bound v rest

count_loop-signatures :
    (bound v : ℕ) (recents counts : List (ℕ × ℕ))
    → v ≢ 0
    → count_of v counts + signatures bound v recents < 256
    → count_of v (count_loop bound recents counts) ≡ count_of v counts + signatures bound v recents
unfolding count_loop signatures
count_loop-signatures bound v [] counts n h = omega arith
count_loop-signatures bound v ((seen, recent) ∷ rest) counts n h =
    let counts' =
      if leb seen bound || recent == 0
      then counts
      else insert recent ((count_of recent counts + 1) % 256) counts in
    ground (
      arith,
      lookup-insert recent v ((count_of recent counts + 1) % 256) counts,
      count_loop-signatures bound v rest counts' n,
    )

-- With a positive turn length, and fewer signatures than a byte counts, `SignRecently` says of an
-- address other than zero whether it signed at least a turn of the blocks above the left bound of
-- the history.
pub sign_recently_iff :
    (s : Snapshot) (v : ℕ)
    → v ≢ 0
    → 0 < s.curr_turn_length
    → signatures (left_history_bound s) v s.recents < 256
    → (sign_recently s v ≡ true)
      ↔ (s.curr_turn_length ≤ signatures (left_history_bound s) v s.recents)
unfolding sign_recently sign_recently_by_counts count_recents lookup
sign_recently_iff s v n t h =
    let c = count_loop-signatures (left_history_bound s) v s.recents [] n (omega arith) in
    elim (Option-cases (lookup v (count_loop (left_history_bound s) s.recents []))) [
      | inl e ↦ ground arith
      | inr (k, e) ↦ ground arith
    ]

-- The number of blocks after which the code forgets an entry.
abbrev pub history : Snapshot → ℕ
history s = (length s.validators / 2 + 1) * s.curr_turn_length
