-- ===== src/Calculator/Verdict.antt =====
-- What the calculator answers (chain/bsc2/calculator.go).
use btp2_bsc.Base.{
  ℕ, zero, suc, ◌≤◌, ◌≡◌, refl, ◌⊎◌, inl, inr, List, [], ◌∷◌, ◌++◌, some, ltb, ◌==◌, arith, Result,
  ok, err, panics, add64, Bool-cases, Option-cases,
}
use btp2_bsc.Chain.{VoteData}
use btp2_bsc.Snapshot.State.{Snapshot}
use btp2_bsc.Calculator.{Calculator, split_at, newest, calculate_loop, calculate, feed}

newest_cons : (f v : ℕ) (fs : List ℕ) → newest fs ≡ some v → newest (f ∷ fs) ≡ some v
unfolding newest
newest_cons f v [] e = cc
newest_cons f v (g ∷ fs) e = e

split_at_lem :
    (finality : ℕ) (fs finals left : List ℕ)
    → split_at finality fs ≡ some (finals, left)
    → (finals ++ left ≡ fs) × (newest finals ≡ some finality)
unfolding split_at newest
split_at_lem finality [] finals left e = cc
split_at_lem finality (f ∷ fs) finals left e = elim (Bool-cases (f == finality)) [
  | inl y ↦ ground (arith, e)
  | inr n ↦ elim (Option-cases (split_at finality fs)) [
    | inl stuck ↦ ground (arith, e)
    | inr (r, q) ↦
        let ih = split_at_lem finality fs r.0 r.1 q in
        ground (arith, e, ih, newest_cons f finality r.0)
  ]
]

module _ (get : ℕ → Result Snapshot) where
  -- The blocks from one down to the checkpoint, by the answers of `get`, each with its attestation.
  pub data Line (checkpoint : Snapshot) : ℕ → Snapshot → Type 0 where
    ends : Line checkpoint 0 checkpoint
    goes :
        {n : ℕ} {parent : Snapshot} (snap : Snapshot) (a : VoteData)
        → snap.attestation ≡ some a
        → get snap.parent_hash ≡ ok parent
        → Line checkpoint n parent
        → Line checkpoint (suc n) snap

  -- An attestation of a block on the line.
  abbrev pub Votes :
      {checkpoint : Snapshot} {n : ℕ} {snap : Snapshot} → Line checkpoint n snap → VoteData → Type 0
  Votes ends v = ⊥
  Votes (goes snap a s p l) v = (v ≡ a) ⊎ Votes l v

  -- From a block whose line of parents reaches the checkpoint, with fuel for its length, the loop
  -- ends: with the checkpoint, or with the source of an attestation on the line whose target is the
  -- next block and whose source is not below the checkpoint.
  pub calculate_loop_decides :
      (fuel n : ℕ) (checkpoint snap : Snapshot) (line : Line checkpoint n snap)
      → n ≤ fuel
      → (final : ℕ) × (calculate_loop get fuel checkpoint snap ≡ ok final)
        × ((final ≡ checkpoint.hash)
            ⊎ ((v : VoteData) × Votes line v
                × (final ≡ v.source_hash)
                × (checkpoint.number ≤ v.source_number)
                × (v.target_number ≡ add64 v.source_number 1)))
  unfolding calculate_loop
  calculate_loop_decides zero zero checkpoint snap ends h =
      (checkpoint.hash, ground arith, inl refl)
  calculate_loop_decides (suc fuel) zero checkpoint snap ends h =
      (checkpoint.hash, ground arith, inl refl)
  calculate_loop_decides zero (suc n) checkpoint snap line h = absurd (omega arith)
  calculate_loop_decides (suc fuel) (suc n) checkpoint snap (goes s a e p l) h =
      elim (Bool-cases (snap.hash == checkpoint.hash)) [
        | inl same ↦ (checkpoint.hash, ground arith, inl refl)
        | inr other ↦ elim (Bool-cases (ltb a.source_number checkpoint.number)) [
          | inl below ↦ (checkpoint.hash, ground arith, inl refl)
          | inr above ↦ elim (Bool-cases (a.target_number == add64 a.source_number 1)) [
            | inl direct ↦
                (a.source_hash, ground arith, inr (a, inl refl, refl, ground arith, ground arith))
            | inr far ↦
                let (final, r, why) = calculate_loop_decides fuel n checkpoint _ l (omega arith) in
                (
                  final,
                  ground (arith, r),
                  elim why [
                    | inl c ↦ inl c
                    | inr w ↦ let (v, on, f, b, d) = w in inr (v, inr on, f, b, d)
                  ],
                )
          ]
        ]
      ]

  -- A feed that succeeds splits the blocks fed so far, the new one last, into those it returns and
  -- those that stay; the new checkpoint is what `calculate` answers, and the last of the returned
  -- blocks unless there are none.
  pub feed_splits :
      (fuel : ℕ) (c c' : Calculator) (hash : ℕ) (finals : List ℕ)
      → feed get fuel c hash ≡ (c', ok finals)
      → (finals ++ c'.feeds ≡ c.feeds ++ hash ∷ [])
        × (calculate get fuel (record c { feeds = c.feeds ++ hash ∷ [] }) ≡ ok c'.checkpoint)
        × ((finals ≡ []) ⊎ (newest finals ≡ some c'.checkpoint))
  unfolding feed
  feed_splits fuel c c' hash finals e =
      by_answer (calculate get fuel (record c { feeds = c.feeds ++ hash ∷ [] })) refl
    where
      by_answer :
          (r : Result ℕ)
          → calculate get fuel (record c { feeds = c.feeds ++ hash ∷ [] }) ≡ r
          → (finals ++ c'.feeds ≡ c.feeds ++ hash ∷ [])
            × (calculate get fuel (record c { feeds = c.feeds ++ hash ∷ [] }) ≡ ok c'.checkpoint)
            × ((finals ≡ []) ⊎ (newest finals ≡ some c'.checkpoint))
      by_answer (err x) q = ground (arith, e, q)
      by_answer panics q = ground (arith, e, q)
      by_answer (ok final) q = elim (Option-cases (split_at final (c.feeds ++ hash ∷ []))) [
        | inl not_there ↦ ground (arith, e, q)
        | inr (r, there) ↦
            ground (arith, e, q, split_at_lem final (c.feeds ++ hash ∷ []) r.0 r.1 there)
      ]
