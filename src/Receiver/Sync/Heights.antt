-- ===== src/Receiver/Sync/Heights.antt =====
-- The heights that the accumulator takes in (`syncAcc`, chain/bsc2/receiver.go).
use btp2_bsc.Base.{
  ℕ, zero, suc, ◌+◌, ◌-◌, ◌≤◌, ◌≡◌, refl, ap, List, [], ◌∷◌, length, Result, ok, err, panics, arith,
}
use btp2_bsc.Chain.{Header}
use btp2_bsc.Receiver.Relay.{sync_rounds}
use btp2_bsc.Receiver.Sync.{sync_acc, flushed}

module _ (header_by_number : ℕ → Result Header) where
  -- The hashes are those of the blocks at the heights from one on, without a gap.
  abbrev pub Run : ℕ → List ℕ → Type 0
  Run height [] = Unit {0}
  Run height (x ∷ xs) =
      ((head : Header) × (header_by_number height ≡ ok head) × (head.hash ≡ x))
      × Run (height + 1) xs

  sync_rounds-Run :
      (rounds cursor : ℕ)
      → Run cursor (sync_rounds header_by_number rounds cursor).0
        × ((u : Unit {0})
            → (sync_rounds header_by_number rounds cursor).1 ≡ ok u
            → length (sync_rounds header_by_number rounds cursor).0 ≡ rounds)
  unfolding sync_rounds
  sync_rounds-Run zero cursor = (tt, λ u e. refl)
  sync_rounds-Run (suc rounds) cursor =
      by_head (header_by_number cursor) refl (sync_rounds-Run rounds (cursor + 1))
    where
      by_head :
          (r : Result Header)
          → header_by_number cursor ≡ r
          → Run (cursor + 1) (sync_rounds header_by_number rounds (cursor + 1)).0
            × ((u : Unit {0})
                → (sync_rounds header_by_number rounds (cursor + 1)).1 ≡ ok u
                → length (sync_rounds header_by_number rounds (cursor + 1)).0 ≡ rounds)
          → Run cursor (sync_rounds header_by_number (suc rounds) cursor).0
            × ((u : Unit {0})
                → (sync_rounds header_by_number (suc rounds) cursor).1 ≡ ok u
                → length (sync_rounds header_by_number (suc rounds) cursor).0 ≡ suc rounds)
      by_head panics p ih = rw (sync_rounds, p) (tt, λ u e. cc)
      by_head (err x) p ih = rw (sync_rounds, p) (tt, λ u e. cc)
      by_head (ok head) p (run, len) =
          rw (sync_rounds, p) (((head, p, refl), run), λ u e. ap suc (len u e))

  -- Whatever the node answers, what is added are the hashes of the blocks from the accumulator's height
  -- on, without a gap; and after a success the last is that of the block asked for, unless its height
  -- was there already.
  pub sync_acc-Run :
      (header_by_hash : ℕ → Result Header) (flush : Result (Unit {0})) (height until : ℕ)
      → Run height (sync_acc header_by_hash header_by_number flush height until).0
        × ((u : Unit {0})
            → (sync_acc header_by_hash header_by_number flush height until).1 ≡ ok u
            → (end : Header) × (header_by_hash until ≡ ok end)
              × (height ≤ end.number + 1
                  → height + length (sync_acc header_by_hash header_by_number flush height until).0
                    ≡ end.number + 1))
  unfolding sync_acc
  sync_acc-Run header_by_hash flush height until = by_end (header_by_hash until) refl
    where
      by_rounds :
          (end : Header) (r : List ℕ × Result (Unit {0}))
          → Run height r.0
          → ((u : Unit {0}) → r.1 ≡ ok u → length r.0 ≡ end.number + 1 - height)
          → Run height (flushed flush r).0
            × ((u : Unit {0})
                → (flushed flush r).1 ≡ ok u
                → height ≤ end.number + 1
                → height + length (flushed flush r).0 ≡ end.number + 1)
      by_rounds end (added, panics) run len = (run, λ u e. cc)
      by_rounds end (added, err x) run len = (run, λ u e. cc)
      by_rounds end (added, ok v) run len = (run, λ u e h. omega (arith, len v refl, h))

      by_end :
          (r : Result Header)
          → header_by_hash until ≡ r
          → Run height (sync_acc header_by_hash header_by_number flush height until).0
            × ((u : Unit {0})
                → (sync_acc header_by_hash header_by_number flush height until).1 ≡ ok u
                → (end : Header) × (header_by_hash until ≡ ok end)
                  × (height ≤ end.number + 1
                      → height
                          + length (sync_acc header_by_hash header_by_number flush height until).0
                        ≡ end.number + 1))
      by_end panics p = rw (sync_acc, p) (tt, λ u e. cc)
      by_end (err x) p = rw (sync_acc, p) (tt, λ u e. cc)
      by_end (ok end) p =
          let (run, len) = sync_rounds-Run (end.number + 1 - height) height in
          let (run', len') = by_rounds end _ run len in
          rw (sync_acc, p) (run', λ u e. (end, refl, len' u e))
