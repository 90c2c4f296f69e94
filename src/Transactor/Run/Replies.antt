-- ===== src/Transactor/Run/Replies.antt =====
-- What the relay is told (chain/bsc2/transactor.go): an invariant over every interleaving of `Run`.
use btp2_bsc.Base.{
  ok-injective, ℕ, ◌≡◌, refl, sym, subst, ◌⊎◌, inl, inr, List, [], ◌∷◌, ◌++◌, none, true,
  if◌then◌else◌, arith, Error, Result, ok, >>=-eq-ok, Has, Has-append_left, Has-append_right,
  Has-append_cases,
}
use btp2_bsc.Snapshot.State.{Snapshot}
use btp2_bsc.Transactor.{MessageTx, Executed, created_message, executed_message, finalized_message}
use btp2_bsc.Transactor.Finality.{try_finalize, try_finalize_at, dropped_by_fork}
use btp2_bsc.Transactor.Run.{
  RelayResult, Transactor, is_live, is_executed, send, sweep, finalize, Step, relays, takes, sends,
  stops, finality, Reach, here, next, new_transactor,
}
use btp2_bsc.Transactor.Run.Sending.{
  executed_reply, Waits, Safe, Safe-enqueued, Sendable, send-Safe, live-Sendable, send-Waits,
}

module _ (success : ℕ) (code_of : Error → ℕ) (get : ℕ → Result Snapshot) where
  -- The three outcomes of a waiting message.
  try_finalize_cases :
      (hash : ℕ) (x : Executed) (m' : MessageTx)
      → try_finalize get hash (executed_message x) ≡ ok m'
      → (m' ≡ executed_message x) ⊎ ((m' ≡ finalized_message x) ⊎ (m' ≡ dropped_by_fork x))
  unfolding try_finalize try_finalize_at
  try_finalize_cases hash x m' e = ground arith

  abbrev Waitings : List RelayResult → List MessageTx → Type 0
  Waitings replies ms = (m : MessageTx) → Has m ms → Waits success code_of get replies m

  -- The state and the list of those that stay, after one waiting message.
  abbrev Swept : Transactor → List MessageTx → List MessageTx → Type 0
  Swept st kept rest =
      Safe success code_of get st × Waitings st.replies kept × Waitings st.replies rest

  abbrev After : List MessageTx → List MessageTx → Transactor → Transactor → MessageTx → Type 0
  After rest kept st st1 m' =
      (if is_executed m' then ok st else send success code_of st m') ≡ ok st1
      → Swept st1 (if is_executed m' then kept ++ m' ∷ [] else kept) rest

  module _ (x : Executed) (rest kept : List MessageTx) (st st1 : Transactor)
      (h : Swept st kept (executed_message x ∷ rest)) where
    stays : After rest kept st st1 (executed_message x)
    stays e =
        subst (λ (t : Transactor). Swept t (kept ++ executed_message x ∷ []) rest) (ok-injective e)
          (
            h.0,
            λ m q. elim (Has-append_cases m kept (executed_message x ∷ []) q) [
              | inl old ↦ h.1 m old
              | inr (inl n) ↦ h.2 m (inl n)
              | inr (inr f) ↦ absurd f
            ],
            λ m q. h.2 m (inr q),
          )

    leaves :
        (m' : MessageTx)
        → Sendable success code_of get st.replies m'
        → send success code_of st m' ≡ ok st1
        → Swept st1 kept rest
    leaves m' k e = (
      send-Safe success code_of get st st1 m' h.0 k e,
      λ m q. send-Waits success code_of get st st1 m' m e (h.1 m q),
      λ m q. send-Waits success code_of get st st1 m' m e (h.2 m (inr q)),
    )

    was_waiting : (x.error ≡ none) × Has (executed_reply success code_of get x.id) st.replies
    was_waiting =
        let (y, e, n, a) = h.2 (executed_message x) (inl refl) in
        let same : y ≡ x = cc in
        subst
          (λ (z : Executed).
            (z.error ≡ none) × Has (executed_reply success code_of get z.id) st.replies)
          same (n, a)

    sweep-one :
        (m' : MessageTx)
        → (m' ≡ executed_message x) ⊎ ((m' ≡ finalized_message x) ⊎ (m' ≡ dropped_by_fork x))
        → After rest kept st st1 m'
    sweep-one m' (inl p) = subst (After rest kept st st1) (sym p) stays
    sweep-one m' (inr (inl p)) =
        subst (After rest kept st st1) (sym p) (leaves (finalized_message x) was_waiting)
    sweep-one m' (inr (inr p)) =
        subst (After rest kept st st1) (sym p) (leaves (dropped_by_fork x) tt)

  sweep-Safe :
      (hash : ℕ) (rest kept ks : List MessageTx) (st st' : Transactor)
      → Swept st kept rest
      → sweep success code_of get hash rest kept st ≡ ok (ks, st')
      → Safe success code_of get st' × Waitings st'.replies ks
  unfolding sweep
  sweep-Safe hash [] kept ks st st' h e =
      subst
        (λ (r : List MessageTx × Transactor).
          Safe success code_of get r.1 × Waitings r.1.replies r.0)
        (ok-injective e) (h.0, h.1)
  sweep-Safe hash (msg ∷ rest) kept ks st st' h e =
      let (x, p, _, _) = h.2 msg (inl refl) in
      let (m', f, e1) = >>=-eq-ok (try_finalize get hash msg) _ e in
      let (st1, g, e2) =
        >>=-eq-ok (if is_executed m' then ok st else send success code_of st m') _ e1 in
      let h' = subst (λ (q : MessageTx). Swept st kept (q ∷ rest)) p h in
      sweep-Safe hash rest _ ks st1 st'
        (sweep-one x rest kept st st1 h' m' (try_finalize_cases hash x m' (rw p at f)) g) e2

  finalize-Safe :
      (st st' : Transactor) (hash : ℕ)
      → Safe success code_of get st
      → finalize success code_of get st hash ≡ ok st'
      → Safe success code_of get st'
  unfolding finalize
  finalize-Safe st st' hash s e =
      let (r, f, e') = >>=-eq-ok (sweep success code_of get hash st.waitings [] st) _ e in
      let (s', w) = sweep-Safe hash st.waitings [] r.0 st r.1 (s, λ m q. absurd q, s.waits) f in
      subst (Safe success code_of get) (ok-injective e')
        (record { queued = s'.queued; running = s'.running; waits = w; announced = s'.announced })

  removed :
      (before after : List MessageTx) (m q : MessageTx)
      → Has q (before ++ after)
      → Has q (before ++ m ∷ after)
  removed before after m q h = elim (Has-append_cases q before after h) [
    | inl b ↦ Has-append_left q before (m ∷ after) b
    | inr a ↦ Has-append_right q before (m ∷ after) (inr a)
  ]

  without :
      (st : Transactor) (before after : List MessageTx) (m : MessageTx)
      → st.running ≡ before ++ m ∷ after
      → Safe success code_of get st
      → Safe success code_of get (record st { running = before ++ after }) × (is_live m ≡ true)
  without st before after m e s = (
    record {
      queued = s.queued;
      running = λ q h. s.running q (rw e (removed before after m q h));
      waits = s.waits;
      announced = s.announced;
    },
    s.running m (rw e (Has-append_right m before (m ∷ after) (inl refl))),
  )

  -- Every step of every interleaving keeps the invariant.
  pub Step-Safe :
      {st st' : Transactor}
      → Step success code_of get st st'
      → Safe success code_of get st
      → Safe success code_of get st'
  Step-Safe (relays st m free) s = Safe-enqueued success code_of get st (created_message m) refl s
  Step-Safe (takes st m rest e) s = record {
    queued = λ q h. s.queued q (rw e (inr h));
    running =
        λ q h. elim h [ inl p ↦ rw p (s.queued m (rw e (inl refl))) | inr old ↦ s.running q old ];
    waits = s.waits;
    announced = s.announced;
  }
  Step-Safe (sends st st' fuel max node before after m m' e t room sent) s =
      let (s', live) = without st before after m e s in
      send-Safe success code_of get _ st' m' s'
        (live-Sendable success code_of get fuel max node m m' st.replies live t) sent
  Step-Safe (stops st fuel max node before after m e t) s = (without st before after m e s).0
  Step-Safe (finality st st' hash e) s = finalize-Safe st st' hash s e

  new-Safe : Safe success code_of get (new_transactor success code_of)
  unfolding new_transactor
  new-Safe = record {
    queued = λ m h. absurd h;
    running = λ m h. absurd h;
    waits = λ m h. absurd h;
    announced = λ r h f. absurd h;
  }

  Reach-Safe :
      {st : Transactor}
      → Reach success code_of get (new_transactor success code_of) st
      → Safe success code_of get st
  Reach-Safe here = new-Safe
  Reach-Safe (next r step) = Step-Safe step (Reach-Safe r)

  -- In every reachable state a finalized reply reports success, and among the replies is one that
  -- says that the same message was executed with success.
  pub finalized_was_executed :
      {st : Transactor} (r : RelayResult)
      → Reach success code_of get (new_transactor success code_of) st
      → Has r st.replies
      → r.is_finalized ≡ true
      → (r.code ≡ success) × Has (executed_reply success code_of get r.id) st.replies
  finalized_was_executed r reach h f = (Reach-Safe reach).announced r h f
