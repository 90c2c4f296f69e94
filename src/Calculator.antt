-- ===== src/Calculator.antt =====
-- chain/bsc2/calculator.go: which of the blocks that were fed are final. `Snapshots.get` is an
-- argument, a function from a hash to what it answers.
pub mod Verdict
pub mod Examples
use btp2_bsc.Base.{
  ℕ, zero, suc, ◌+◌, List, [], ◌∷◌, ◌++◌, Option, none, some, Bool, true, false, ltb, ◌==◌,
  if◌then◌else◌, Error, Result, ok, err, panics, ◌>>=◌, add64,
}
use btp2_bsc.Chain.{VoteData}
use btp2_bsc.Snapshot.State.{Snapshot}

pub record Calculator : Type 0 where
  pub checkpoint : ℕ
  pub feeds : List ℕ

-- The blocks up to the finalized one, and those after it; `none` if it is not among them.
unfoldable pub split_at : ℕ → List ℕ → Option (List ℕ × List ℕ)
split_at finality [] = none
split_at finality (f ∷ fs) =
    let rest = split_at finality fs in
    if f == finality
    then some (f ∷ [], fs)
    else elim rest [ none ↦ none | some r ↦ some (f ∷ r.0, r.1) ]

unfoldable pub newest : List ℕ → Option ℕ
newest [] = none
newest (f ∷ []) = some f
newest (f ∷ g ∷ fs) = newest (g ∷ fs)

module _ (get : ℕ → Result Snapshot) where
  -- The loop of `calculate`, from a block down to the checkpoint; a nil attestation is dereferenced.
  -- Out of fuel is `panics`.
  unfoldable pub calculate_loop : ℕ → Snapshot → Snapshot → Result ℕ
  calculate_loop zero checkpoint snap =
      if snap.hash == checkpoint.hash then ok checkpoint.hash else panics
  calculate_loop (suc fuel) checkpoint snap =
      if snap.hash == checkpoint.hash then ok checkpoint.hash else elim snap.attestation [
        | none ↦ panics
        | some a ↦
            if ltb a.source_number checkpoint.number
            then ok checkpoint.hash
            else if a.target_number == add64 a.source_number 1
            then ok a.source_hash
            else get snap.parent_hash >>= λ parent. calculate_loop fuel checkpoint parent
      ]

  unfoldable pub calculate : ℕ → Calculator → Result ℕ
  calculate fuel c = elim (newest c.feeds) [
    | none ↦ panics
    | some last ↦
        get last >>= λ snap. get c.checkpoint >>= λ checkpoint. calculate_loop fuel checkpoint snap
  ]

  abbrev settle : Calculator → ℕ → Option (List ℕ × List ℕ) → Calculator × List ℕ
  settle c finality none = (record { checkpoint = finality; feeds = c.feeds }, [])
  settle c finality (some (finals, left)) = (record { checkpoint = finality; feeds = left }, finals)

  abbrev finish : Calculator → Result ℕ → Calculator × Result (List ℕ)
  finish c (ok finality) = let r = settle c finality (split_at finality c.feeds) in (r.0, ok r.1)
  finish c (err e) = (c, err e)
  finish c panics = (c, panics)

  -- The new state and the finalized blocks; after an error the block stays among the feeds.
  unfoldable pub feed : ℕ → Calculator → ℕ → Calculator × Result (List ℕ)
  unfolding split_at calculate
  feed fuel c hash =
      let fed = record c { feeds = c.feeds ++ hash ∷ [] } in finish fed (calculate fuel fed)
