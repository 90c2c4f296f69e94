-- ===== src/Transactor/Transit.antt =====
-- The moves of a relay message (chain/bsc2/transactor.go).
use btp2_bsc.Base.{
  subst, ℕ, zero, suc, ◌+◌, ◌≤◌, ◌<◌, ◌≡◌, ◌≢◌, ◌↔◌, refl, ◌⊎◌, inl, inr, none, some, Bool, true,
  false, arith, Error, estimate_gas_failure, Option-cases,
}
use native.Mathlib.Decide.{ℕ_discrete}
use btp2_bsc.Transactor.{
  MessageType, unknown, created, pending, executing, executed, finalized, dropped, faulted,
  MessageTx, created_message, pending_message, executing_message, executed_message,
  finalized_message, dropped_message, faulted_message, Created, Pending, Node, Reply, reply, fails,
  type_of, id_of, estimate_loop, submit_at, transit_created, poll, after_poll, Polled, settled,
  gives, out_of_fuel, transit_pending, transit_executing, transit, end_with,
}

-- The moves that `Transit` makes.
abbrev pub may_move : MessageType → MessageType → Bool
may_move created pending = true
may_move created dropped = true
may_move pending executing = true
may_move pending dropped = true
may_move pending faulted = true
may_move executing executed = true
may_move executing faulted = true
may_move executed finalized = true
may_move _ _ = false

-- How far a message is on its way.
abbrev pub stage : MessageType → ℕ
stage unknown = 0
stage created = 1
stage pending = 2
stage executing = 3
stage executed = 4
stage finalized = 5
stage dropped = 5
stage faulted = 5

abbrev Good : ℕ → MessageType → MessageTx → Type 0
Good id t m = (may_move t (type_of m) ≡ true) × (id_of m ≡ id)

submit_at-Good : (node : Node) (m : Created) (g : ℕ) → Good m.id created (submit_at node m g)
unfolding submit_at type_of id_of
submit_at-Good node m g = ground arith

transit_created-Good :
    (max : ℕ) (node : Node) (m : Created) → Good m.id created (transit_created max node m)
unfolding transit_created type_of id_of
transit_created-Good max node m = ground arith

poll-Good :
    (node : Node) (m : Pending) (fuel : ℕ) (p : Bool) (attempt k : ℕ) (t : MessageTx)
    → poll node m fuel p attempt k ≡ gives t
    → Good m.id pending t
unfolding poll type_of id_of
poll-Good node m fuel false attempt k t e = cc
poll-Good node m zero true attempt k t e = ground arith
poll-Good node m (suc fuel) true attempt k t e = ground (
  arith,
  poll-Good node m fuel (node.query k).is_pending attempt (suc k) t,
  poll-Good node m fuel (node.query k).is_pending (attempt + 1) (suc k) t,
)

after_poll-Good :
    (node : Node) (m : Pending) (p : Polled) (t : MessageTx)
    → ((u : MessageTx) → p ≡ gives u → Good m.id pending u)
    → after_poll node m p ≡ some t
    → Good m.id pending t
unfolding after_poll type_of id_of
after_poll-Good node m (settled true) t h e = ground arith
after_poll-Good node m (settled false) t h e = ground arith
after_poll-Good node m (gives u) t h e = ground (arith, h u refl)
after_poll-Good node m out_of_fuel t h e = cc

-- Whatever the node answers, a transition makes one of the moves of the table, keeps the id, and
-- goes to a later stage.
pub transit_moves :
    (fuel max : ℕ) (node : Node) (m m' : MessageTx)
    → transit fuel max node m ≡ some m'
    → (may_move (type_of m) (type_of m') ≡ true)
      × (id_of m' ≡ id_of m)
      × (stage (type_of m) < stage (type_of m'))
unfolding transit transit_pending transit_executing type_of id_of
transit_moves fuel max node (created_message m) m' e =
    ground (arith, transit_created-Good max node m)
transit_moves fuel max node (pending_message m) m' e = ground (
  arith,
  after_poll-Good node m (poll node m fuel true 0 0) m' (poll-Good node m fuel true 0 0) e,
)
transit_moves fuel max node (executing_message m r) m' e = ground arith
transit_moves fuel max node (executed_message m) m' e = ground arith
transit_moves fuel max node (finalized_message m) m' e = cc
transit_moves fuel max node (dropped_message m) m' e = cc
transit_moves fuel max node (faulted_message m) m' e = cc

-- The gas of a call with no limit is estimated at most eleven times.
abbrev Fails : Node → ℕ → Type 0
Fails node k = (e : Error) × (node.estimate k ≡ fails e)

Reply-cases : {A : Type 0} (r : Reply A) → ((a : A) × (r ≡ reply a)) ⊎ ((e : Error) × (r ≡ fails e))
Reply-cases (reply a) = inl (a, refl)
Reply-cases (fails e) = inr (e, refl)

estimate_loop-none :
    (node : Node) (left k : ℕ)
    → estimate_loop node left k ≡ none
    → (j : ℕ) → k ≤ j
    → j ≤ k + left
    → Fails node j
unfolding estimate_loop
estimate_loop-none node zero k e j l h = elim (Reply-cases (node.estimate k)) [
  | inl (tx, r) ↦ ground arith
  | inr (x, r) ↦ subst (Fails node) (omega arith) (x, r)
]
estimate_loop-none node (suc left) k e j l h = elim (Reply-cases (node.estimate k)) [
  | inl (tx, r) ↦ ground arith
  | inr (x, r) ↦ elim (ℕ_discrete k j) [
    | yes same ↦ subst (Fails node) same (x, r)
    | no other ↦ estimate_loop-none node left (suc k) (ground arith) j (omega arith) (omega arith)
  ]
]

none-estimate_loop :
    (node : Node) (left k : ℕ)
    → ((j : ℕ) → k ≤ j → j ≤ k + left → Fails node j)
    → estimate_loop node left k ≡ none
unfolding estimate_loop
none-estimate_loop node zero k h = ground (arith, h k)
none-estimate_loop node (suc left) k h =
    ground
      (arith, h k, none-estimate_loop node left (suc k) (λ j l r. h j (omega arith) (omega arith)))

-- Without a gas limit in the configuration or the message, and where a submission does not fail by
-- that very error, the message is dropped as not estimable exactly if the first eleven estimates
-- all fail.
pub estimate_gives_up :
    (node : Node) (m : Created)
    → m.gas_limit ≡ 0
    → ((g : ℕ) → node.submit g ≢ fails estimate_gas_failure)
    → (transit_created 0 node m ≡ dropped_message (end_with m.id estimate_gas_failure unknown))
      ↔ ((j : ℕ) → j ≤ 10 → (e : Error) × (node.estimate j ≡ fails e))
unfolding transit_created submit_at
estimate_gives_up node m z other = (
  λ e j h. elim (Option-cases (estimate_loop node 10 0)) [
    | inl stuck ↦ estimate_loop-none node 10 0 stuck j (omega arith) h
    | inr (tx, found) ↦ absurd (ground (arith, other (node.scale_gas tx.gas), e))
  ],
  λ all. ground (arith, none-estimate_loop node 10 0 (λ j _ h. all j h)),
)
