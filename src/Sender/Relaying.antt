-- ===== src/Sender/Relaying.antt =====
-- `Relay` (chain/bsc2/sender.go) on the transactor of chain/bsc2/transactor.go.
use btp2_bsc.Base.{
  ℕ, ◌≡◌, ◌≢◌, refl, sym, subst, ◌⊎◌, inl, inr, Bool, true, false, Error, invalid_state, Result, ok,
  err, panics, arith, Bool-cases,
}
use btp2_bsc.Snapshot.State.{Snapshot}
use btp2_bsc.Transactor.{Created, created_message}
use btp2_bsc.Transactor.Run.{Transactor, busy, enqueue, send, relays, Reach, next, new_transactor}
use btp2_bsc.Sender.{relay}

clash : (b : Bool) → b ≡ true → b ≡ false → ⊥
clash b p q = cc

module _ (success : ℕ) (code_of : Error → ℕ) (get : ℕ → Result Snapshot) where
  -- From a state of the transactor's run, `Relay` with a key that does not panic leaves a state of
  -- the run, on every branch: either it gives the message's id and the message is last in the
  -- channel, which was not full, or it fails and changes nothing; a busy transactor's error is the
  -- invalid state.
  pub relay_reaches :
      (keyed : Result (Unit {0})) (st st' : Transactor) (m : Created) (r : Result ℕ)
      → Reach success code_of get (new_transactor success code_of) st
      → keyed ≢ panics
      → relay success code_of keyed st m ≡ (st', r)
      → Reach success code_of get (new_transactor success code_of) st'
        × (((r ≡ ok m.id) × (busy st ≡ false) × (st' ≡ enqueue st (created_message m)))
            ⊎ ((st' ≡ st) × (e : Error) × (r ≡ err e) × (busy st ≡ true → e ≡ invalid_state)))
  unfolding relay send
  relay_reaches keyed st st' m r reach no_panic e = elim (Bool-cases (busy st)) [
    | inl full ↦
        let same : st' ≡ st = ground (arith, e, full) in
        (
          subst (Reach success code_of get (new_transactor success code_of)) (sym same) reach,
          inr (same, invalid_state, ground (arith, e, full), λ _. refl),
        )
    | inr free ↦ by_key keyed refl free
  ]
    where
      by_key :
          (k : Result (Unit {0}))
          → keyed ≡ k
          → busy st ≡ false
          → Reach success code_of get (new_transactor success code_of) st'
            × (((r ≡ ok m.id) × (busy st ≡ false) × (st' ≡ enqueue st (created_message m)))
                ⊎ ((st' ≡ st) × (e : Error) × (r ≡ err e) × (busy st ≡ true → e ≡ invalid_state)))
      by_key panics p free = absurd (no_panic p)
      by_key (err x) p free =
          let same : st' ≡ st = ground (arith, e, free, p) in
          (
            subst (Reach success code_of get (new_transactor success code_of)) (sym same) reach,
            inr (same, x, ground (arith, e, free, p), λ full. absurd (clash (busy st) full free)),
          )
      by_key (ok _) p free =
          let same : st' ≡ enqueue st (created_message m) = ground (arith, e, free, p) in
          (
            subst (Reach success code_of get (new_transactor success code_of)) (sym same)
                (next reach (relays st m free)),
            inl (ground (arith, e, free, p), free, same),
          )
