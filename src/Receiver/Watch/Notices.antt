-- ===== src/Receiver/Watch/Notices.antt =====
-- The statuses that the loop sends (`receiver.loop`, chain/bsc2/receiver.go).
use btp2_bsc.Base.{
  add64, ℕ, ◌≤◌, ◌<◌, ◌≡◌, refl, inl, inr, List, [], ◌∷◌, Option, none, some, ltb, leb, ◌==◌, ◌||◌,
  not, Error, Result, ok, err, panics, arith, Bool-cases,
}
use btp2_bsc.Chain.{Header, VoteData}
use btp2_bsc.Errors.{restarts}
use btp2_bsc.Snapshot.State.{Snapshot}
use btp2_bsc.Snapshot.Port.{Port, apply_and_add}
use btp2_bsc.Calculator.{Calculator, newest}
use btp2_bsc.Client.{Message}
use btp2_bsc.Receiver.{Bstatus, update_status, query_messages}
use btp2_bsc.Receiver.Watch.{
  Watcher, Event, new_head, failure, finalized, clone, Outcome, enter_loop, finish_query,
  move_status, moved, finish_feed, fed_head, applied_head, on_head, retry, left_by, sent, on_event,
  watch,
}

-- Nothing is sent and the height does not fall, or what is sent is above it and the new height.
abbrev Moves : ℕ → ℕ → Option Bstatus → Type 0
Moves before after none = before ≤ after
Moves before after (some n) = (before < n.number) × (n.number ≡ after)

-- Each status is above the one before, the first above a height.
abbrev pub Ascends : ℕ → List Bstatus → Type 0
Ascends low [] = Unit {0}
Ascends low (n ∷ ns) = (low < n.number) × Ascends n.number ns

Ascends-below : (a b : ℕ) (ns : List Bstatus) → a ≤ b → Ascends b ns → Ascends a ns
Ascends-below a b [] h t = tt
Ascends-below a b (n ∷ ns) h (l, t) = (omega (arith, h, l), t)

module _ {Store : Type 0} (port : Port Store) where
  -- What a case leaves; a panic is not looked at.
  abbrev Good : ℕ → Outcome Store → Type 0
  Good before (o, panics) = Unit {0}
  Good before (o, err e) = before ≤ o.local.number
  Good before (o, ok n) = Moves before o.local.number n

  finish_query-Good :
      (o : Watcher Store) (number hash : ℕ) (r : List Message × Result ℕ)
      → o.local.number < number
      → Good o.local.number (finish_query port o number hash r)
  unfolding finish_query clone update_status
  finish_query-Good o number hash (cached, panics) h = tt
  finish_query-Good o number hash (cached, err e) h = omega arith
  finish_query-Good o number hash (cached, ok sequence) h =
      elim (Bool-cases (not (sequence == 0) || ltb 50 o.fed)) [
        | inl now ↦ rw now (h, refl)
        | inr later ↦ rw later (omega (arith, h))
      ]

  module _ (messages : ℕ → Result (List Message)) (fuel : ℕ) where
    move_status-Good :
        (o : Watcher Store) (s : Snapshot)
        → Good o.local.number (move_status port messages fuel o s)
    unfolding move_status
    move_status-Good o s = by_vote s.attestation refl
      where
        by_vote :
            (v : Option VoteData)
            → s.attestation ≡ v
            → Good o.local.number (move_status port messages fuel o s)
        by_vote none p = rw (move_status, p) tt
        by_vote (some a) p = elim (Bool-cases (leb a.source_number o.local.number)) [
          | inl old ↦ rw (move_status, p, old) (omega arith)
          | inr above ↦
              rw (move_status, p, above)
                (finish_query-Good (record o { local = record o.local { cache = s.number } })
                  a.source_number a.source_hash
                  (query_messages (port.get o.store) messages fuel a.source_hash o.local.hash 0
                    o.msgs)
                  (ground (arith, above)))
        ]

    moved-Good :
        (o : Watcher Store) (r : Result Snapshot)
        → Good o.local.number (moved port messages fuel o r)
    moved-Good o panics = tt
    moved-Good o (err e) = tt
    moved-Good o (ok s) = move_status-Good o s

    finish_feed-Good :
        (o : Watcher Store) (finals : List ℕ)
        → Good o.local.number (finish_feed port messages fuel o finals)
    unfolding finish_feed
    finish_feed-Good o finals = by_last (newest finals) refl
      where
        by_last :
            (l : Option ℕ)
            → newest finals ≡ l
            → Good o.local.number (finish_feed port messages fuel o finals)
        by_last none p = rw (finish_feed, p) (omega arith)
        by_last (some last) p = rw (finish_feed, p) (moved-Good o (port.get o.store last))

    fed_head-Good :
        (o : Watcher Store) (r : Calculator × Result (List ℕ))
        → Good o.local.number (fed_head port messages fuel o r)
    fed_head-Good o (calc, panics) = tt
    fed_head-Good o (calc, err e) = omega arith
    fed_head-Good o (calc, ok finals) = finish_feed-Good (record o { calc = calc }) finals

    applied_head-Good :
        (o : Watcher Store) (h : Header) (r : Store × Result Snapshot)
        → Good o.local.number (applied_head port messages fuel o h r)
    applied_head-Good o h (st, panics) = tt
    applied_head-Good o h (st, err e) = omega arith
    applied_head-Good o h (st, ok snap) =
        fed_head-Good (record o { store = st; snap = snap; heads = h ∷ o.heads }) _

  -- The loop that goes on, if it does, and what was sent.
  abbrev Went : ℕ → Option (Watcher Store) × Option Bstatus → Type 0
  Went before (none, n) = n ≡ none
  Went before (some o, n) = Moves before o.local.number n

  enter_loop-Went :
      (before : ℕ) (o : Watcher Store)
      → before ≤ o.local.number
      → Went before (enter_loop port o, none)
  unfolding enter_loop
  enter_loop-Went before o h = by_get (port.get o.store o.peer_hash) refl
    where
      by_get :
          (r : Result Snapshot)
          → port.get o.store o.peer_hash ≡ r
          → Went before (enter_loop port o, none)
      by_get panics p = rw (enter_loop, p) refl
      by_get (err e) p = rw (enter_loop, p) refl
      by_get (ok s) p = rw (enter_loop, p) h

  retry-Went :
      (before : ℕ) (o : Watcher Store) (e : Error)
      → before ≤ o.local.number
      → Went before (retry port o e, none)
  retry-Went before o e h = elim (Bool-cases (restarts e)) [
    | inl again ↦ rw again (enter_loop-Went before o h)
    | inr over ↦ rw over refl
  ]

  left_by-Went : (before : ℕ) (r : Outcome Store) → Good before r → Went before (left_by port r)
  left_by-Went before (o, panics) g = refl
  left_by-Went before (o, err e) g = retry-Went before o e g
  left_by-Went before (o, ok n) g = g

  on_event-Went :
      (fuel : ℕ) (o : Watcher Store) (e : Event) → Went o.local.number (on_event port fuel o e)
  unfolding on_event on_head
  on_event-Went fuel o (new_head h messages) =
      left_by-Went o.local.number (on_head port messages fuel o h) (
        applied_head-Good messages fuel (record o { fed = add64 o.fed 1 }) h
          (apply_and_add port o.store o.snap h))
  on_event-Went fuel o (failure e) = retry-Went o.local.number o e (omega arith)
  on_event-Went fuel o (finalized hash) = omega arith

  abbrev Follows : Option (Watcher Store) → List Bstatus → Type 0
  Follows none ns = ns ≡ []
  Follows (some o) ns = Ascends o.local.number ns

  sent-Ascends :
      (before : ℕ) (r : Option (Watcher Store) × Option Bstatus) (rest : List Bstatus)
      → Went before r
      → Follows r.0 rest
      → Ascends before (sent port r.1 rest)
  sent-Ascends before (none, n) rest g f = rw (g, f) tt
  sent-Ascends before (some o, none) rest g f = Ascends-below before o.local.number rest g f
  sent-Ascends before (some o, some n) rest (above, at) f = (above, rw at f)

  watch-Follows :
      (fuel : ℕ) (w : Option (Watcher Store)) (events : List Event)
      → Follows w (watch port fuel w events).1
  unfolding watch
  watch-Follows fuel none events = refl
  watch-Follows fuel (some o) [] = tt
  watch-Follows fuel (some o) (e ∷ events) =
      sent-Ascends o.local.number (on_event port fuel o e) _ (on_event-Went fuel o e)
        (watch-Follows fuel (on_event port fuel o e).0 events)

  -- Over any sequence of headers, errors and the peer's statuses, with the restarts: the statuses
  -- sent have strictly ascending heights, the first above that of the status at the start.
  pub watch-Ascends :
      (fuel : ℕ) (o : Watcher Store) (events : List Event)
      → Ascends o.local.number (watch port fuel (some o) events).1
  watch-Ascends fuel o events = watch-Follows fuel (some o) events
