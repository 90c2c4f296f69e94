-- ===== src/Sender/Heads.antt =====
-- What a head does in the sender's loop (`watchBlockFinalities`, chain/bsc2/sender.go).
use btp2_bsc.Base.{
  ℕ, ◌≡◌, refl, ap, subst, ◌∙◌, ◌⊎◌, inl, inr, List, [], ◌∷◌, ◌++◌, Option, none, some, Result, ok,
  err, panics, arith,
}
use btp2_bsc.Chain.{Header}
use btp2_bsc.Snapshot.State.{Snapshot}
use btp2_bsc.Snapshot.Step.Chained.{apply_chains}
use btp2_bsc.Snapshot.Port.{Port, IsPort, apply_and_add, apply_and_add_sound, apply_and_add_applies}
use btp2_bsc.Calculator.{Calculator, newest, feed}
use btp2_bsc.Calculator.Verdict.{feed_splits}
use btp2_bsc.Sender.{Sender, finish_head, fed_head, applied_head, on_head}
use btp2_bsc.Sender.Finality.{Follows}

newest-none : (fs : List ℕ) → newest fs ≡ none → fs ≡ []
unfolding newest
newest-none [] e = refl
newest-none (f ∷ []) e = cc
newest-none (f ∷ g ∷ fs) e = absurd (cons (newest-none (g ∷ fs) e))
  where
    cons : g ∷ fs ≡ [] → ⊥
    cons q = cc

newest_empty : (fs : List ℕ) {f : ℕ} → fs ≡ [] → newest fs ≡ some f → ⊥
unfolding newest
newest_empty [] q e = cc
newest_empty (f ∷ fs) q e = cc

module _ {Store : Type 0} (port : Port Store) {IsSound : Store → Type 0}
    {Of : ℕ → Snapshot → Type 0} {Known : Header → Type 0}
    (laws : IsPort port IsSound Of Known) where
  -- What working in a head leaves.
  abbrev pub Worked : Sender Store → Sender Store → ℕ → Option ℕ → Type 0
  Worked o o' hash n =
      (o'.snap.hash ≡ hash)
      × (((n ≡ none) × (o'.finality ≡ o.finality) × (o'.calc.feeds ≡ o.calc.feeds ++ hash ∷ []))
          ⊎ ((finals : List ℕ) × (finals ++ o'.calc.feeds ≡ o.calc.feeds ++ hash ∷ [])
              × (newest finals ≡ some o'.finality.hash)
              × (n ≡ some o'.finality.hash)
              × (o'.calc.checkpoint ≡ o'.finality.hash)))

  abbrev Finished : Sender Store → Sender Store → List ℕ → Option ℕ → Type 0
  Finished o o' finals n =
      (o'.snap ≡ o.snap)
      × (o'.calc ≡ o.calc)
      × (((newest finals ≡ none) × (n ≡ none) × (o'.finality ≡ o.finality))
          ⊎ ((newest finals ≡ some o'.finality.hash) × (n ≡ some o'.finality.hash)))

  finish_head_inv :
      (o o' : Sender Store) (finals : List ℕ) (n : Option ℕ)
      → IsSound o.store
      → finish_head port o finals ≡ (o', ok n)
      → Finished o o' finals n
  unfolding finish_head
  finish_head_inv o o' finals n sound e = by_last (newest finals) refl
    where
      by_get :
          (last : ℕ) (r : Result Snapshot)
          → newest finals ≡ some last
          → port.get o.store last ≡ r
          → Finished o o' finals n
      by_get last panics p q = absurd (ground (arith, p, q, e))
      by_get last (err x) p q = absurd (ground (arith, p, q, e))
      by_get last (ok fn) p q =
          let at = laws.named last fn (laws.answers o.store last fn sound q) in
          ground (arith, p, q, e, at)

      by_last : (l : Option ℕ) → newest finals ≡ l → Finished o o' finals n
      by_last none p = ground (arith, p, e)
      by_last (some last) p = by_get last (port.get o.store last) p refl

  fed_head-Worked :
      (o o' : Sender Store) (hash : ℕ) (n : Option ℕ) (fuel : ℕ)
      → IsSound o.store
      → o.snap.hash ≡ hash
      → fed_head port o (feed (port.get o.store) fuel o.calc hash) ≡ (o', ok n)
      → Worked o o' hash n
  fed_head-Worked o o' hash n fuel sound at e =
      by_fed (feed (port.get o.store) fuel o.calc hash) refl e
    where
      by_finished :
          (calc : Calculator) (finals : List ℕ)
          → (finals ++ calc.feeds ≡ o.calc.feeds ++ hash ∷ [])
          → ((finals ≡ []) ⊎ (newest finals ≡ some calc.checkpoint))
          → Finished (record o { calc = calc }) o' finals n
          → Worked o o' hash n
      by_finished calc finals split last (same, kept, how) = elim how [
        | inl (nothing, n_none, stays) ↦
            let empty = newest-none finals nothing in
            (
              ap (λ (t : Snapshot). t.hash) same ∙ at,
              inl (
                n_none,
                stays,
                ap (λ (c : Calculator). c.feeds) kept
                    ∙ subst (λ fs. fs ++ calc.feeds ≡ o.calc.feeds ++ hash ∷ []) empty split,
              ),
            )
        | inr (is_last, n_is) ↦ (
          ap (λ (t : Snapshot). t.hash) same ∙ at,
          inr (
            finals,
            ap (λ (c : Calculator). finals ++ c.feeds) kept ∙ split,
            is_last,
            n_is,
            ap (λ (c : Calculator). c.checkpoint) kept ∙ checkpoint_last is_last last,
          ),
        )
      ]
        where
          checkpoint_last :
              newest finals ≡ some o'.finality.hash
              → (finals ≡ []) ⊎ (newest finals ≡ some calc.checkpoint)
              → calc.checkpoint ≡ o'.finality.hash
          checkpoint_last l (inl empty) = absurd (newest_empty finals empty l)
          checkpoint_last l (inr c) = ground (arith, l, c)

      by_fed :
          (r : Calculator × Result (List ℕ))
          → feed (port.get o.store) fuel o.calc hash ≡ r
          → fed_head port o r ≡ (o', ok n)
          → Worked o o' hash n
      by_fed (calc, panics) p q = absurd (ground (arith, q))
      by_fed (calc, err x) p q = absurd (ground (arith, q))
      by_fed (calc, ok finals) p q =
          let (split, _, last) = feed_splits (port.get o.store) fuel o.calc calc hash finals p in
          by_finished calc finals split last
            (finish_head_inv (record o { calc = calc }) o' finals n sound q)

  -- Where the store keeps its laws, the loop follows and the node has the head, and the head is worked
  -- in: the loop goes on at its block; and either no block was finalized, the
  -- finality stays and the block waits, or the last of the finalized ones among the blocks fed so far
  -- is notified, is the finality, and the calculator goes on from it.
  pub on_head_finalizes :
      (fuel : ℕ) (o o' : Sender Store) (h : Header) (n : Option ℕ)
      → Follows port laws o
      → Known h
      → on_head port fuel o h ≡ (o', ok n)
      → (o'.snap.hash ≡ h.hash)
        × (((n ≡ none) × (o'.finality ≡ o.finality) × (o'.calc.feeds ≡ o.calc.feeds ++ h.hash ∷ []))
            ⊎ ((finals : List ℕ) × (finals ++ o'.calc.feeds ≡ o.calc.feeds ++ h.hash ∷ [])
                × (newest finals ≡ some o'.finality.hash)
                × (n ≡ some o'.finality.hash)
                × (o'.calc.checkpoint ≡ o'.finality.hash)))
  unfolding on_head
  on_head_finalizes fuel o o' h n f known e =
      by_applied (apply_and_add port o.store o.snap h) refl e
    where
      by_applied :
          (r : Store × Result Snapshot)
          → apply_and_add port o.store o.snap h ≡ r
          → applied_head port fuel o r ≡ (o', ok n)
          → Worked o o' h.hash n
      by_applied (st, panics) p q = absurd (ground (arith, q))
      by_applied (st, err x) p q = absurd (ground (arith, q))
      by_applied (st, ok next) p q =
          let at =
            (apply_chains port.eth o.snap next h port.chain_id
              (apply_and_add_applies port o.store st o.snap next h p)).3 in
          let (sound, _) = apply_and_add_sound port laws o.store o.snap h f.sound f.tip known in
          let sound' = subst (λ (r : Store × Result Snapshot). IsSound r.0) p sound in
          subst (λ k. Worked o o' k n) at
            (fed_head-Worked (record o { store = st; snap = next }) o' next.hash n fuel sound' refl
              q)
