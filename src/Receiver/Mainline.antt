-- ===== src/Receiver/Mainline.antt =====
-- A chain without forks, as the snapshots' store answers it, and what the calculator
-- (chain/bsc2/calculator.go) finds on it.
use btp2_bsc.Base.{
  ℕ, zero, suc, ◌+◌, ◌-◌, ◌≤◌, ◌<◌, ◌≡◌, ◌≢◌, refl, sym, ap, ◌∙◌, inl, inr, List, [], ◌∷◌, ◌++◌,
  none, some, false, ltb, ◌==◌, arith, Result, ok, add64, Bool-cases, ==_iff, ==_ne, ==_refl,
}
use btp2_bsc.Chain.{VoteData}
use btp2_bsc.Snapshot.State.{Snapshot}
use btp2_bsc.Tree.Line.{last_or}
use btp2_bsc.Calculator.{Calculator, split_at, newest, calculate_loop, calculate, feed}

-- The blocks from one height to another: the store knows each, and each names the one below as its
-- parent and carries an attestation, whose source is a block below.
pub record Mainline (get : ℕ → Result Snapshot) (chain : ℕ → Snapshot) (low high : ℕ) : Type 0 where
  pub numbered : (n : ℕ) → (chain n).number ≡ n
  pub known : (n : ℕ) → low ≤ n → n ≤ high → get (chain n).hash ≡ ok (chain n)
  pub linked : (n : ℕ) → (chain (suc n)).parent_hash ≡ (chain n).hash
  pub distinct : (m n : ℕ) → (chain m).hash ≡ (chain n).hash → m ≡ n
  pub nonzero : (n : ℕ) → (chain n).hash ≢ 0
  pub voted :
      (n : ℕ)
      → low < n
      → (a : VoteData) × ((chain n).attestation ≡ some a)
        × (a.source_number < n)
        × (a.source_hash ≡ (chain a.source_number).hash)

module _ (chain : ℕ → Snapshot) where
  -- The hashes of some blocks from a height on.
  abbrev pub run : ℕ → ℕ → List ℕ
  run start zero = []
  run start (suc len) = (chain start).hash ∷ run (suc start) len

  pub run_snoc :
      (start len : ℕ) → run start len ++ (chain (start + len)).hash ∷ [] ≡ run start (suc len)
  run_snoc start zero = ap (λ k. (chain k).hash ∷ []) (omega arith)
  run_snoc start (suc len) = ap (◌∷◌ ((chain start).hash)) (
      ap (λ k. run (suc start) len ++ (chain k).hash ∷ []) (omega arith) ∙ run_snoc (suc start) len)

  pub run_append :
      (start a b len : ℕ) → len ≡ a + b → run start len ≡ run start a ++ run (start + a) b
  run_append start zero b len e =
      let left : len ≡ b = omega arith in
      let at : start ≡ start + 0 = omega arith in ap (run start) left ∙ ap (λ k. run k b) at
  run_append start (suc a) b zero e = absurd (omega arith)
  run_append start (suc a) b (suc len) e =
      let at : suc start + a ≡ start + suc a = omega arith in
      ap (◌∷◌ ((chain start).hash))
        (run_append (suc start) a b len (omega arith) ∙ ap (λ k. run (suc start) a ++ run k b) at)

  pub run_last : (r len : ℕ) → last_or (chain r).hash (run (suc r) len) ≡ (chain (r + len)).hash
  run_last r zero = ap (λ k. (chain k).hash) (omega arith)
  run_last r (suc len) = run_last (suc r) len ∙ ap (λ k. (chain k).hash) (omega arith)

  pub newest-run :
      (start len : ℕ) → newest (run start (suc len)) ≡ some ((chain (start + len)).hash)
  unfolding newest
  newest-run start zero = ap (λ k. some ((chain k).hash)) (omega arith)
  newest-run start (suc len) =
      newest-run (suc start) len ∙ ap (λ k. some ((chain k).hash)) (omega arith)

  -- The calculator with the blocks above one as its feeds.
  abbrev pub above : ℕ → ℕ → Calculator
  above r n = record { checkpoint = (chain r).hash; feeds = run (suc r) (n - r) }

  pub fed_run :
      (r n : ℕ)
      → r ≤ n
      → run (suc r) (n - r) ++ (chain (suc n)).hash ∷ [] ≡ run (suc r) (suc (n - r))
  fed_run r n h =
      ap (λ k. run (suc r) (n - r) ++ (chain k).hash ∷ []) (omega arith) ∙ run_snoc (suc r) (n - r)

module _ (get : ℕ → Result Snapshot) (chain : ℕ → Snapshot) (low high : ℕ)
    (line : Mainline get chain low high) where
  open line use {numbered, known, linked, distinct, voted}

  other_hash : (m n : ℕ) → m ≢ n → ((chain m).hash == (chain n).hash) ≡ false
  other_hash m n h = ==_ne _ _ (λ e. h (distinct m n e))

  split_run :
      (before after len start f : ℕ)
      → len ≡ suc (before + after)
      → f ≡ start + before
      → split_at (chain f).hash (run chain start len)
        ≡ some (run chain start (suc before), run chain (suc f) after)
  unfolding split_at
  split_run before after zero start f e q = absurd (omega (arith, e))
  split_run zero after (suc len) start f e q =
      let same : f ≡ start = omega arith in
      let left : len ≡ after = omega arith in
      rw (left, same, split_at, ==_refl (chain start).hash) refl
  split_run (suc before) after (suc len) start f e q =
      rw
        (
          split_at,
          other_hash start f (λ r. omega (arith, q, r)),
          split_run before after len (suc start) f (omega arith) (omega arith),
        )
        refl

  split_none : (f start len : ℕ) → f < start → split_at (chain f).hash (run chain start len) ≡ none
  unfolding split_at
  split_none f start zero h = refl
  split_none f start (suc len) h = rw (
    split_at,
    other_hash start f (λ e. omega (arith, e)),
    split_none f (suc start) len (omega arith),
  )

  -- The calculator's loop between two blocks of the chain, with fuel for the distance.
  calculate_loop_lem :
      (c fuel n : ℕ)
      → low ≤ c
      → c ≤ n
      → n ≤ high
      → n ≤ c + fuel
      → (f : ℕ) × (c ≤ f)
        × (f ≤ n)
        × (calculate_loop get fuel (chain c) (chain n) ≡ ok (chain f).hash)
  unfolding calculate_loop
  calculate_loop_lem c zero n l h k e =
      let same : n ≡ c = omega arith in
      (c, omega arith, omega arith, rw (same, calculate_loop, ==_refl (chain c).hash) refl)
  calculate_loop_lem c (suc fuel) n l h k e = elim (Bool-cases (n == c)) [
    | inl y ↦
        let same : n ≡ c = (==_iff n c).0 y in
        (
          c,
          omega arith,
          omega (arith, same),
          rw (same, calculate_loop, ==_refl (chain c).hash) refl,
        )
    | inr y ↦
        let above : c < n = ground arith in
        let (a, there, below, source) = voted n (omega arith) in
        elim (Bool-cases (ltb a.source_number (chain c).number)) [
          | inl out ↦ (
            c,
            omega arith,
            h,
            rw (calculate_loop, other_hash n c (λ q. omega (arith, q)), there, out) refl,
          )
          | inr in_range ↦ elim (Bool-cases (a.target_number == add64 a.source_number 1)) [
            | inl direct ↦ (
              a.source_number,
              ground (arith, numbered c, in_range),
              omega arith,
              rw (calculate_loop, other_hash n c (λ q. omega (arith, q)), there, in_range, direct)
                  (ap ok source),
            )
            | inr far ↦
                let (f, lower, upper, r) =
                  calculate_loop_lem c fuel (n - 1) l (omega arith) (omega arith) (omega arith) in
                let parent : get (chain n).parent_hash ≡ ok (chain (n - 1)) =
                  ap (λ m. get (chain m).parent_hash) (omega arith)
                  ∙ ap get (linked (n - 1))
                  ∙ known (n - 1) (omega arith) (omega arith) in
                (
                  f,
                  lower,
                  omega arith,
                  rw
                      (
                        calculate_loop,
                        other_hash n c (λ q. omega (arith, q)),
                        there,
                        in_range,
                        far,
                        parent,
                      )
                      r,
                )
          ]
        ]
  ]

  calculate-run :
      (fuel r n : ℕ)
      → low ≤ r
      → r ≤ n
      → suc n ≤ high
      → calculate get fuel
          (record { checkpoint = (chain r).hash; feeds = run chain (suc r) (suc (n - r)) })
        ≡ calculate_loop get fuel (chain r) (chain (suc n))
  unfolding calculate
  calculate-run fuel r n l h k =
      let last : newest (run chain (suc r) (suc (n - r))) ≡ some ((chain (suc n)).hash) =
        newest-run chain (suc r) (n - r) ∙ ap (λ k. some ((chain k).hash)) (omega arith) in
      rw (calculate, last, known (suc n) (omega arith) k, known r l (omega arith)) refl

  feed_stays :
      (fuel hash final : ℕ) (c : Calculator)
      → calculate get fuel (record c { feeds = c.feeds ++ hash ∷ [] }) ≡ ok final
      → split_at final (c.feeds ++ hash ∷ []) ≡ none
      → feed get fuel c hash ≡ (record { checkpoint = final; feeds = c.feeds ++ hash ∷ [] }, ok [])
  unfolding feed
  feed_stays fuel hash final c p q = rw (feed, p, q) refl

  feed_cuts :
      (fuel hash final : ℕ) (c : Calculator) (finals left : List ℕ)
      → calculate get fuel (record c { feeds = c.feeds ++ hash ∷ [] }) ≡ ok final
      → split_at final (c.feeds ++ hash ∷ []) ≡ some (finals, left)
      → feed get fuel c hash ≡ (record { checkpoint = final; feeds = left }, ok finals)
  unfolding feed
  feed_cuts fuel hash final c finals left p q = rw (feed, p, q) refl

  -- Fed with the next block, it splits its feeds at one of them, or keeps them all.
  pub feed-run :
      (fuel r n : ℕ)
      → low ≤ r
      → r ≤ n
      → suc n ≤ high
      → suc n ≤ r + fuel
      → (f : ℕ) × (r ≤ f)
        × (f ≤ suc n)
        × (feed get fuel (above chain r n) (chain (suc n)).hash
            ≡ (above chain f (suc n), ok (run chain (suc r) (f - r))))
  feed-run fuel r n l h k e =
      let (f, lower, upper, loop) = calculate_loop_lem r fuel (suc n) l (omega arith) k e in
      let fed = fed_run chain r n h in
      let answer =
        ap (λ fs. calculate get fuel (record { checkpoint = (chain r).hash; feeds = fs })) fed
        ∙ calculate-run fuel r n l h k
        ∙ loop in
      (
        f,
        lower,
        upper,
        elim (Bool-cases (f == r)) [
          | inl y ↦
              let same : f ≡ r = (==_iff f r).0 y in
              let none_cut : 0 ≡ f - r = omega (arith, same) in
              let len : suc (n - f) ≡ suc n - f = omega (arith, same) in
              feed_stays fuel (chain (suc n)).hash (chain f).hash (above chain r n) answer (
                ap (split_at (chain f).hash) fed
                ∙ split_none f (suc r) (suc (n - r)) (omega (arith, same)))
              ∙ ap (λ fs. (record { checkpoint = (chain f).hash; feeds = fs }, ok []))
                  (fed
                    ∙ ap (λ k. run chain (suc k) (suc (n - k))) (sym same)
                    ∙ ap (run chain (suc f)) len)
              ∙ ap (λ k. (above chain f (suc n), ok (run chain (suc r) k))) none_cut
          | inr y ↦
              let cut : suc (f - suc r) ≡ f - r = ground arith in
              feed_cuts fuel (chain (suc n)).hash (chain f).hash (above chain r n)
                (run chain (suc r) (suc (f - suc r))) (run chain (suc f) (suc n - f)) answer
                (ap (split_at (chain f).hash) fed
                  ∙ split_run (f - suc r) (suc n - f) (suc (n - r)) (suc r) f (ground arith)
                      (ground arith))
              ∙ ap (λ k. (above chain f (suc n), ok (run chain (suc r) k))) cut
        ],
      )
