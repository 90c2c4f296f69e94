-- ===== src/Transactor/Finality.antt =====
-- `MessageTransactor.tryFinalizeInLock` (chain/bsc2/transactor.go). `Snapshots.get` is an argument, a
-- function from a hash to what it answers.
use btp2_bsc.Base.{
  ℕ, zero, suc, ◌+◌, ◌≤◌, ◌<◌, ◌≡◌, ◌≢◌, ◌⊎◌, inl, inr, ltb, ◌==◌, if◌then◌else◌, arith, tx_dropped,
  Result, ok, err, panics, Bool-cases,
}
use btp2_bsc.Snapshot.State.{Snapshot}
use btp2_bsc.Transactor.{
  MessageTx, Executed, executed, created_message, pending_message, executing_message,
  executed_message, finalized_message, dropped_message, faulted_message, end_with,
}

-- How the walk to a block's height ends: at a snapshot, or in `log.Panicln`.
pub data Walk : Type 0 where
  arrives : Snapshot → Walk
  breaks : Walk
  out_of_fuel : Walk

abbrev pub dropped_by_fork : Executed → MessageTx
dropped_by_fork m = dropped_message (end_with m.id tx_dropped executed)

-- At the height of the block: the message is dropped if it was executed in another one.
unfoldable pub judge : Executed → Walk → Result MessageTx
judge m (arrives snap) =
    if m.hash == snap.hash then ok (finalized_message m) else ok (dropped_by_fork m)
judge m breaks = panics
judge m out_of_fuel = panics

module _ (get : ℕ → Result Snapshot) where
  -- `for exec.number < snap.Number`
  unfoldable pub descend : ℕ → ℕ → Snapshot → Walk
  descend zero number snap = if ltb number snap.number then out_of_fuel else arrives snap
  descend (suc fuel) number snap =
      if ltb number snap.number
      then elim (get snap.parent_hash) [
        | ok parent ↦ descend fuel number parent
        | err e ↦ breaks
        | panics ↦ breaks
      ]
      else arrives snap

  unfoldable pub try_finalize_at : Snapshot → Executed → Result MessageTx
  unfolding judge
  try_finalize_at snap m =
      if ltb snap.number m.number
      then ok (executed_message m)
      else judge m (descend snap.number m.number snap)

  -- A message that is not an executed one panics, and so does a missing snapshot. The fuel is the
  -- height of the finalized block.
  unfoldable pub try_finalize : ℕ → MessageTx → Result MessageTx
  try_finalize finality (executed_message m) = elim (get finality) [
    | ok snap ↦ try_finalize_at snap m
    | err e ↦ panics
    | panics ↦ panics
  ]
  try_finalize finality (created_message m) = panics
  try_finalize finality (pending_message m) = panics
  try_finalize finality (executing_message m r) = panics
  try_finalize finality (finalized_message m) = panics
  try_finalize finality (dropped_message m) = panics
  try_finalize finality (faulted_message m) = panics

  -- The ancestors of a block, by the snapshots that `get` answers.
  pub data Ancestor (snap : Snapshot) : Snapshot → Type 0 where
    itself : Ancestor snap snap
    parent : {a p : Snapshot} → Ancestor snap a → get a.parent_hash ≡ ok p → Ancestor snap p

  -- The ancestors of a block chain: what `get` answers for a parent hash is one block lower, as
  -- `apply` makes them, and `get` answers down to a lowest height.
  pub record Chains (top : Snapshot) (lowest : ℕ) : Type 0 where
    pub lower :
        (s p : Snapshot) → Ancestor top s → get s.parent_hash ≡ ok p → suc p.number ≡ s.number
    pub known :
        (s : Snapshot)
        → Ancestor top s
        → lowest < s.number
        → (p : Snapshot) × (get s.parent_hash ≡ ok p)

  module _ (top : Snapshot) (lowest : ℕ) (chains : Chains top lowest) where
    descend_arrives :
        (fuel number : ℕ) (snap : Snapshot)
        → Ancestor top snap
        → lowest ≤ number
        → number ≤ snap.number
        → snap.number ≤ number + fuel
        → (a : Snapshot) × (descend fuel number snap ≡ arrives a)
          × Ancestor top a
          × (a.number ≡ number)
    unfolding descend
    descend_arrives zero number snap anc b l h = (snap, ground arith, anc, omega arith)
    descend_arrives (suc fuel) number snap anc b l h = elim (Bool-cases (ltb number snap.number)) [
      | inr stop ↦ (snap, ground arith, anc, ground arith)
      | inl go ↦
          let (p, e) = chains.known snap anc (ground arith) in
          let low = chains.lower snap p anc e in
          let (a, d, anc', n) =
            descend_arrives fuel number p (parent anc e) b (ground arith) (omega arith) in
          (a, ground arith, anc', n)
    ]

  -- Where the answers of `get` form a chain from the finalized block down to a lowest height, not
  -- above the message's: a message that was executed above the finalized block stays; any other is
  -- decided by the ancestor of that block at the message's height, finalized if it was executed in
  -- that very block, dropped if in another one.
  pub try_finalize_decides :
      (finality : ℕ) (top : Snapshot) (lowest : ℕ) (m : Executed)
      → Chains top lowest
      → lowest ≤ m.number
      → get finality ≡ ok top
      → ((top.number < m.number)
          × (try_finalize finality (executed_message m) ≡ ok (executed_message m)))
        ⊎ ((a : Snapshot) × Ancestor top a
            × (a.number ≡ m.number)
            × (((m.hash ≡ a.hash)
                  × (try_finalize finality (executed_message m) ≡ ok (finalized_message m)))
                ⊎ ((m.hash ≢ a.hash)
                    × (try_finalize finality (executed_message m) ≡ ok (dropped_by_fork m)))))
  unfolding try_finalize try_finalize_at
  try_finalize_decides finality top lowest m chains b e =
      elim (Bool-cases (ltb top.number m.number)) [
        | inl above ↦ inl (ground arith, ground arith)
        | inr below ↦
            let (a, d, anc, n) =
              descend_arrives top lowest chains top.number m.number top itself b (ground arith)
                (omega arith) in
            inr (
              a,
              anc,
              n,
              elim (Bool-cases (m.hash == a.hash)) [
                | inl same ↦ inl (ground arith, ground arith)
                | inr other ↦ inr (ground arith, ground arith)
              ],
            )
      ]
