-- ===== src/Transactor/Settled.antt =====
-- How long a message is on its way through the goroutines of `Run` (chain/bsc2/transactor.go).
use btp2_bsc.Base.{
  ℕ, zero, suc, ◌+◌, ◌≤◌, ◌≡◌, ◌≢◌, refl, ◌∙◌, inl, inr, Option, none, some, true, false,
  if◌then◌else◌, arith, Bool-cases, Option-cases,
}
use btp2_bsc.Transactor.{
  MessageTx, Node, created_message, pending_message, executing_message, executed_message,
  finalized_message, dropped_message, faulted_message, type_of, id_of, transit,
}
use btp2_bsc.Transactor.Transit.{stage, transit_moves}
use btp2_bsc.Transactor.Polling.{NotFoundIsSettled, transit_pending_ends}
use btp2_bsc.Transactor.Run.{is_live}

-- At most so many transitions, each with the node's answers of its time, as long as the message is put
-- back on the channel.
unfoldable pub travel : ℕ → ℕ → (ℕ → Node) → ℕ → ℕ → MessageTx → Option MessageTx
travel fuel max nodes zero k m = some m
travel fuel max nodes (suc n) k m = elim (transit fuel max (nodes k) m) [
  | none ↦ if is_live m then none else some m
  | some m' ↦ let rest = travel fuel max nodes n (suc k) m' in if is_live m then rest else some m
]

live_stage : (m : MessageTx) → is_live m ≡ true → stage (type_of m) ≤ 3
unfolding type_of
live_stage (created_message m) l = omega arith
live_stage (pending_message m) l = omega arith
live_stage (executing_message m r) l = omega arith
live_stage (executed_message m) l = cc
live_stage (finalized_message m) l = cc
live_stage (dropped_message m) l = cc
live_stage (faulted_message m) l = cc

on_way : (m : MessageTx) → 1 ≤ stage (type_of m)
unfolding type_of
on_way (created_message m) = omega arith
on_way (pending_message m) = omega arith
on_way (executing_message m r) = omega arith
on_way (executed_message m) = omega arith
on_way (finalized_message m) = omega arith
on_way (dropped_message m) = omega arith
on_way (faulted_message m) = omega arith

transit_ends :
    (fuel max : ℕ) (node : Node) (m : MessageTx)
    → 10 ≤ fuel
    → NotFoundIsSettled node
    → is_live m ≡ true
    → transit fuel max node m ≢ none
unfolding transit
transit_ends fuel max node (created_message m) h s l = λ e. cc
transit_ends fuel max node (pending_message m) h s l = transit_pending_ends node m s fuel h
transit_ends fuel max node (executing_message m r) h s l = λ e. cc
transit_ends fuel max node (executed_message m) h s l = λ e. cc
transit_ends fuel max node (finalized_message m) h s l = cc
transit_ends fuel max node (dropped_message m) h s l = cc
transit_ends fuel max node (faulted_message m) h s l = cc

module _ (fuel max : ℕ) (nodes : ℕ → Node) (enough : 10 ≤ fuel)
    (settled : (k : ℕ) → NotFoundIsSettled (nodes k)) where
  travel_far :
      (n k : ℕ) (m : MessageTx)
      → 4 ≤ n + stage (type_of m)
      → (m' : MessageTx) × (travel fuel max nodes n k m ≡ some m')
        × (is_live m' ≡ false)
        × (id_of m' ≡ id_of m)
  unfolding travel
  travel_far zero k m h = elim (Bool-cases (is_live m)) [
    | inl live ↦ absurd (omega (arith, live_stage m live, h))
    | inr ended ↦ (m, refl, ended, refl)
  ]
  travel_far (suc n) k m h = elim (Bool-cases (is_live m)) [
    | inr ended ↦ (m, stays (transit fuel max (nodes k) m) ended refl, ended, refl)
    | inl live ↦ elim (Option-cases (transit fuel max (nodes k) m)) [
      | inl stuck ↦ absurd (transit_ends fuel max (nodes k) m enough (settled k) live stuck)
      | inr (m1, e) ↦
          let (_, same, later) = transit_moves fuel max (nodes k) m m1 e in
          let (m', t, ended, same') = travel_far n (suc k) m1 (omega (arith, h, later)) in
          (m', rw (travel, e, live) t, ended, same' ∙ same)
    ]
  ]
    where
      stays :
          (r : Option MessageTx)
          → is_live m ≡ false
          → transit fuel max (nodes k) m ≡ r
          → travel fuel max nodes (suc n) k m ≡ some m
      stays none ended p = rw (travel, p, ended) refl
      stays (some m1) ended p = rw (travel, p, ended) refl

  -- Where a query that finds nothing answers that nothing is pending, and with fuel for ten rounds of
  -- the poll: a message is on its way for at most three transitions, whatever the node answers at each: it
  -- then has a result, under the id that it had.
  pub travel_ends :
      (m : MessageTx)
      → (m' : MessageTx) × (travel fuel max nodes 3 0 m ≡ some m')
        × (is_live m' ≡ false)
        × (id_of m' ≡ id_of m)
  travel_ends m = travel_far 3 0 m (omega (arith, on_way m))
