-- ===== src/Transactor/Polling.antt =====
-- `PendingMessage.Transit` (chain/bsc2/transactor.go): the polling loop ends, and a transaction that is
-- not found is not asked for again.
use btp2_bsc.Base.{
  ℕ, zero, suc, ◌+◌, ◌≤◌, ◌<◌, ◌≡◌, ◌≢◌, refl, ◌⊎◌, inl, inr, none, some, Bool, true, false, arith,
  Error, not_found, Option-cases, ap,
}
use native.Mathlib.Nat.{add-zero}
use Prim.Native.Nat.add
use btp2_bsc.Transactor.{
  MessageTx, Pending, Node, poll, after_poll, Polled, settled, gives, out_of_fuel, transit_pending,
  is_not_found,
}

-- go-ethereum's `TransactionByHash` answers `nil, false, err` when it has no transaction to report.
abbrev pub NotFoundIsSettled : Node → Type 0
NotFoundIsSettled node =
    (k : ℕ) → (node.query k).failure ≡ some not_found → (node.query k).is_pending ≡ false

is_not_found-eq : (e : Error) → is_not_found e ≡ true → e ≡ not_found
is_not_found-eq not_found h = refl
is_not_found-eq _ h = cc

shift : (k i : ℕ) → suc k + i ≡ k + suc i
shift k i = omega arith

Polled-cases :
    (p : Polled)
    → ((b : Bool) × (p ≡ settled b)) ⊎ (((t : MessageTx) × (p ≡ gives t)) ⊎ (p ≡ out_of_fuel))
Polled-cases (settled b) = inl (b, refl)
Polled-cases (gives t) = inr (inl (t, refl))
Polled-cases out_of_fuel = inr (inr refl)

module _ (node : Node) (m : Pending) (law : NotFoundIsSettled node) where
  -- A call that found nothing ends the loop.
  stay_settles :
      (fuel attempt k : ℕ) (e : Error)
      → (node.query k).failure ≡ some e
      → is_not_found e ≡ true
      → poll node m fuel (node.query k).is_pending attempt (suc k) ≡ settled false
  unfolding poll
  stay_settles zero attempt k e f n = ground (arith, law k, is_not_found-eq e)
  stay_settles (suc fuel) attempt k e f n = ground (arith, law k, is_not_found-eq e)

  poll_ends :
      (fuel attempt k : ℕ) (p : Bool)
      → 10 ≤ attempt + fuel
      → poll node m fuel p attempt k ≢ out_of_fuel
  unfolding poll
  poll_ends fuel attempt k false h = λ e. cc
  poll_ends zero attempt k true h = ground arith
  poll_ends (suc fuel) attempt k true h = elim (Option-cases (node.query k).failure) [
    | inl fine ↦ ground (arith, poll_ends fuel (attempt + 1) (suc k) (node.query k).is_pending)
    | inr (e, f) ↦ ground (arith, stay_settles fuel attempt k e f)
  ]

  found_nothing :
      (n fuel attempt k : ℕ)
      → n < fuel
      → attempt + n < 5
      → ((i : ℕ)
          → i < n
          → ((node.query (k + i)).failure ≡ none) × ((node.query (k + i)).is_pending ≡ true))
      → (node.query (k + n)).failure ≡ some not_found
      → poll node m fuel true attempt k ≡ settled false
  unfolding poll
  found_nothing n zero attempt k h l before e = absurd (omega arith)
  found_nothing zero (suc fuel) attempt k h l before e =
      let f = rw add-zero at e in ground (arith, f, stay_settles fuel attempt k not_found f refl)
  found_nothing (suc n) (suc fuel) attempt k h l before e =
      let (fine, still) = rw add-zero at (before 0 (omega arith)) in
      let rest =
        found_nothing n fuel (attempt + 1) (suc k) (omega arith) (omega arith)
          (λ i b. rw (shift k i) (before (suc i) (omega arith))) (rw (shift k n) e) in
      ground (arith, fine, still, rest)

  settled_some : (b : Bool) → after_poll node m (settled b) ≢ none
  unfolding after_poll
  settled_some true = ground arith
  settled_some false = ground arith

  given_some : (t : MessageTx) → after_poll node m (gives t) ≢ none
  unfolding after_poll
  given_some t = ground arith

  -- Where a query that finds nothing answers that nothing is pending, and with fuel for ten rounds,
  -- the transition of a pending message has a result.
  pub transit_pending_ends : (fuel : ℕ) → 10 ≤ fuel → transit_pending fuel node m ≢ none
  unfolding transit_pending
  transit_pending_ends fuel h =
      let ends = poll_ends fuel 0 0 true (omega arith) in
      elim (Polled-cases (poll node m fuel true 0 0)) [
        | inl (b, e) ↦ rw e (settled_some b)
        | inr (inl (t, e)) ↦ rw e (given_some t)
        | inr (inr e) ↦ absurd (ends e)
      ]

  -- Where a query that finds nothing answers that nothing is pending, and with fuel for the
  -- queries: when one of the first five queries finds nothing, and those before it found the
  -- transaction pending, the result is the one after a poll that has settled, whatever later
  -- queries would have answered.
  pub not_found_no_retry :
      (n fuel : ℕ)
      → n < fuel
      → n < 5
      → ((i : ℕ) → i < n → ((node.query i).failure ≡ none) × ((node.query i).is_pending ≡ true))
      → (node.query n).failure ≡ some not_found
      → transit_pending fuel node m ≡ after_poll node m (settled false)
  unfolding transit_pending
  not_found_no_retry n fuel h l before e =
      ap (after_poll node m)
        (found_nothing n fuel 0 0 h (omega arith) (λ i b. rw add.zero (before i b)) (rw add.zero e))
