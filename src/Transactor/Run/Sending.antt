-- ===== src/Transactor/Run/Sending.antt =====
-- What `Send` keeps (chain/bsc2/transactor.go): which messages are where, and what was replied.
use btp2_bsc.Base.{
  ok-injective, ℕ, ◌≡◌, ◌≢◌, refl, sym, subst, inl, inr, List, [], ◌∷◌, Option, none, some, true,
  false, Error, Result, ok, Has, Has-append_cases,
}
use btp2_bsc.Snapshot.State.{Snapshot}
use btp2_bsc.Transactor.{
  MessageTx, Executed, Node, created_message, pending_message, executing_message, executed_message,
  finalized_message, dropped_message, faulted_message, type_of, transit,
}
use btp2_bsc.Transactor.Transit.{may_move, transit_moves}
use btp2_bsc.Transactor.Run.{RelayResult, Transactor, is_live, code_for, enqueue, await, send}

module _ (success : ℕ) (code_of : Error → ℕ) (get : ℕ → Result Snapshot) where
  -- The reply that a message was executed with success.
  abbrev pub executed_reply : ℕ → RelayResult
  executed_reply id = record { id = id; code = success; is_finalized = false }

  abbrev pub Waits : List RelayResult → MessageTx → Type 0
  Waits replies m =
      (x : Executed) × (m ≡ executed_message x)
      × (x.error ≡ none)
      × Has (executed_reply x.id) replies

  abbrev pub Announced : List RelayResult → Type 0
  Announced replies =
      (r : RelayResult)
      → Has r replies
      → r.is_finalized ≡ true
      → (r.code ≡ success) × Has (executed_reply r.id) replies

  -- The queue and the goroutines hold messages on their way, the waiting messages were executed
  -- with success and announced, and a finalized reply follows an announcement.
  pub record Safe (st : Transactor) : Type 0 where
    pub queued : (m : MessageTx) → Has m st.transition → is_live m ≡ true
    pub running : (m : MessageTx) → Has m st.running → is_live m ≡ true
    pub waits : (m : MessageTx) → Has m st.waitings → Waits st.replies m
    pub announced : Announced st.replies

  Waits-more :
      (replies : List RelayResult) (r : RelayResult) (m : MessageTx)
      → Waits replies m
      → Waits (r ∷ replies) m
  Waits-more replies r m (x, e, n, h) = (x, e, n, inr h)

  -- A reply that is not final keeps the announcements.
  Announced-plain :
      (replies : List RelayResult) (r : RelayResult)
      → r.is_finalized ≡ false
      → Announced replies
      → Announced (r ∷ replies)
  Announced-plain replies r f h q (inl e) g = cc
  Announced-plain replies r f h q (inr m) g = let (c, a) = h q m g in (c, inr a)

  Announced-final :
      (replies : List RelayResult) (r : RelayResult)
      → r.code ≡ success
      → Has (executed_reply r.id) replies
      → Announced replies
      → Announced (r ∷ replies)
  Announced-final replies r c a h q (inl e) g =
      subst (λ (p : RelayResult). (p.code ≡ success) × Has (executed_reply p.id) (r ∷ replies))
        (sym e) (c, inr a)
  Announced-final replies r c a h q (inr m) g = let (c', a') = h q m g in (c', inr a')

  Safe-replied :
      (st : Transactor) (r : RelayResult)
      → Announced (r ∷ st.replies)
      → Safe st
      → Safe (record st { replies = r ∷ st.replies })
  Safe-replied st r a s = record {
    queued = s.queued;
    running = s.running;
    waits = λ m h. Waits-more st.replies r m (s.waits m h);
    announced = a;
  }

  pub Safe-enqueued :
      (st : Transactor) (m : MessageTx) → is_live m ≡ true → Safe st → Safe (enqueue st m)
  Safe-enqueued st m live s = record {
    queued = λ q h. elim (Has-append_cases q st.transition (m ∷ []) h) [
      | inl old ↦ s.queued q old
      | inr (inl e) ↦ rw e live
      | inr (inr f) ↦ absurd f
    ];
    running = s.running;
    waits = s.waits;
    announced = s.announced;
  }

  -- What `Send` may be handed: a finalized message must have been announced.
  abbrev pub Sendable : List RelayResult → MessageTx → Type 0
  Sendable replies (finalized_message x) = (x.error ≡ none) × Has (executed_reply x.id) replies
  Sendable replies _ = Unit {0}

  await-Safe :
      (st : Transactor) (x : Executed) (e : Option Error)
      → x.error ≡ e
      → Safe (record st {
        replies =
            record { id = x.id; code = code_for success code_of e; is_finalized = false }
            ∷ st.replies;
      })
      → Safe (
          await
            (record st {
              replies =
                  record { id = x.id; code = code_for success code_of e; is_finalized = false }
                  ∷ st.replies;
            })
            (executed_message x)
            e)
  await-Safe st x (some e) p s = s
  await-Safe st x none p s = record {
    queued = s.queued;
    running = s.running;
    waits = λ m h. elim (Has-append_cases m st.waitings (executed_message x ∷ []) h) [
      | inl old ↦ s.waits m old
      | inr (inl e) ↦ (x, e, p, inl refl)
      | inr (inr f) ↦ absurd f
    ];
    announced = s.announced;
  }

  pub send-Safe :
      (st st' : Transactor) (m : MessageTx)
      → Safe st
      → Sendable st.replies m
      → send success code_of st m ≡ ok st'
      → Safe st'
  unfolding send
  send-Safe st st' (created_message m) s k e =
      subst Safe (ok-injective e) (Safe-enqueued st (created_message m) refl s)
  send-Safe st st' (pending_message m) s k e =
      subst Safe (ok-injective e) (Safe-enqueued st (pending_message m) refl s)
  send-Safe st st' (executing_message m r) s k e =
      subst Safe (ok-injective e) (Safe-enqueued st (executing_message m r) refl s)
  send-Safe st st' (executed_message m) s k e =
      let r : RelayResult = record {
        id = m.id;
        code = code_for success code_of m.error;
        is_finalized = false;
      } in
      subst Safe (ok-injective e) (
        await-Safe st m m.error refl
          (Safe-replied st r (Announced-plain st.replies r refl s.announced) s))
  send-Safe st st' (finalized_message m) s (n, a) e =
      let r : RelayResult = record {
        id = m.id;
        code = code_for success code_of m.error;
        is_finalized = true;
      } in
      subst Safe (ok-injective e)
        (Safe-replied st r (Announced-final st.replies r (rw n refl) a s.announced) s)
  send-Safe st st' (dropped_message m) s k e =
      let r : RelayResult = record { id = m.id; code = code_of m.error; is_finalized = false } in
      subst Safe (ok-injective e)
        (Safe-replied st r (Announced-plain st.replies r refl s.announced) s)
  send-Safe st st' (faulted_message m) s k e =
      let r : RelayResult = record { id = m.id; code = code_of m.error; is_finalized = false } in
      subst Safe (ok-injective e)
        (Safe-replied st r (Announced-plain st.replies r refl s.announced) s)

  -- A message on its way never becomes a finalized one in one transition.
  pub live-Sendable :
      (fuel max : ℕ) (node : Node) (m m' : MessageTx) (replies : List RelayResult)
      → is_live m ≡ true
      → transit fuel max node m ≡ some m'
      → Sendable replies m'
  unfolding type_of
  live-Sendable fuel max node m (finalized_message x) replies live e =
      absurd (not_final m x live (transit_moves fuel max node m (finalized_message x) e).0)
    where
      not_final :
          (m : MessageTx) (x : Executed)
          → is_live m ≡ true
          → may_move (type_of m) (type_of (finalized_message x)) ≢ true
      not_final (created_message m) x l p = cc
      not_final (pending_message m) x l p = cc
      not_final (executing_message m r) x l p = cc
      not_final _ x l p = cc
  live-Sendable fuel max node m _ replies live e = tt

  await-replies :
      (st : Transactor) (x : MessageTx) (e : Option Error) → (await st x e).replies ≡ st.replies
  await-replies st x none = refl
  await-replies st x (some e) = refl

  -- A send only adds to the replies.
  pub send-Waits :
      (st st' : Transactor) (m q : MessageTx)
      → send success code_of st m ≡ ok st'
      → Waits st.replies q
      → Waits st'.replies q
  unfolding send
  send-Waits st st' (created_message m) q e w =
      subst (λ (t : Transactor). Waits t.replies q) (ok-injective e) w
  send-Waits st st' (pending_message m) q e w =
      subst (λ (t : Transactor). Waits t.replies q) (ok-injective e) w
  send-Waits st st' (executing_message m r) q e w =
      subst (λ (t : Transactor). Waits t.replies q) (ok-injective e) w
  send-Waits st st' (executed_message m) q e w =
      let t : Transactor = record st {
        replies =
            record { id = m.id; code = code_for success code_of m.error; is_finalized = false }
            ∷ st.replies;
      } in
      let same : (await t (executed_message m) m.error).replies ≡ t.replies =
        await-replies t (executed_message m) m.error in
      let to : await t (executed_message m) m.error ≡ st' = ok-injective e in
      subst (λ (u : Transactor). Waits u.replies q) to
        (subst (λ (rs : List RelayResult). Waits rs q) (sym same) (Waits-more st.replies _ q w))
  send-Waits st st' (finalized_message m) q e w =
      let r : RelayResult = record {
        id = m.id;
        code = code_for success code_of m.error;
        is_finalized = true;
      } in
      let to : record st { replies = r ∷ st.replies } ≡ st' = ok-injective e in
      subst (λ (u : Transactor). Waits u.replies q) to (Waits-more st.replies r q w)
  send-Waits st st' (dropped_message m) q e w =
      let r : RelayResult = record { id = m.id; code = code_of m.error; is_finalized = false } in
      let to : record st { replies = r ∷ st.replies } ≡ st' = ok-injective e in
      subst (λ (u : Transactor). Waits u.replies q) to (Waits-more st.replies r q w)
  send-Waits st st' (faulted_message m) q e w =
      let r : RelayResult = record { id = m.id; code = code_of m.error; is_finalized = false } in
      let to : record st { replies = r ∷ st.replies } ≡ st' = ok-injective e in
      subst (λ (u : Transactor). Waits u.replies q) to (Waits-more st.replies r q w)
