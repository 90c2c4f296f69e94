-- ===== src/Sender/Finality.antt =====
-- The finality that the sender follows (`watchBlockFinalities`, chain/bsc2/sender.go).
use btp2_bsc.Base.{
  ℕ, ◌≡◌, refl, sym, subst, inl, inr, List, [], ◌∷◌, Option, none, some, Error, Result, ok, err,
  panics, arith, Has, Bool-cases,
}
use btp2_bsc.Chain.{Header}
use btp2_bsc.Errors.{restarts}
use btp2_bsc.Snapshot.State.{Snapshot}
use btp2_bsc.Snapshot.Port.{Port, IsPort, apply_and_add, apply_and_add_sound}
use btp2_bsc.Calculator.{Calculator, newest}
use btp2_bsc.Sender.{
  Sender, Event, new_head, failure, enter, finish_head, fed_head, applied_head, on_head, retry,
  noted, outcome, on_event, watch,
}

module _ {Store : Type 0} (port : Port Store) {IsSound : Store → Type 0}
    {Of : ℕ → Snapshot → Type 0} {Known : Header → Type 0}
    (laws : IsPort port IsSound Of Known) where
  -- What the loop keeps: a sound store, and snapshots of the blocks they name.
  pub record Follows (o : Sender Store) : Type 0 where
    pub sound : IsSound o.store
    pub tip : Of o.snap.hash o.snap
    pub last : Of o.finality.hash o.finality

  pub enter-Follows :
      (finality : Snapshot) (store : Store)
      → IsSound store
      → Of finality.hash finality
      → Follows (enter finality store)
  unfolding enter
  enter-Follows finality store sound of = record { sound = sound; tip = of; last = of }

  -- A notified hash is that of a snapshot.
  abbrev pub Notified : Option ℕ → Type 0
  Notified none = Unit {0}
  Notified (some hash) = (s : Snapshot) × Of hash s

  abbrev Good : Sender Store × Result (Option ℕ) → Type 0
  Good r = Follows r.0 × ((n : Option ℕ) → r.1 ≡ ok n → Notified n)

  finish_head-Good :
      (o : Sender Store) (finals : List ℕ) → Follows o → Good (finish_head port o finals)
  unfolding finish_head
  finish_head-Good o finals f = by_last (newest finals) refl
    where
      by_get :
          (last : ℕ) (r : Result Snapshot)
          → newest finals ≡ some last
          → port.get o.store last ≡ r
          → Good (finish_head port o finals)
      by_get last panics p q = rw (finish_head, p, q) (f, λ n e. cc)
      by_get last (err x) p q = rw (finish_head, p, q) (f, λ n e. cc)
      by_get last (ok fn) p q =
          let of = laws.answers o.store last fn f.sound q in
          let of' = subst (λ k. Of k fn) (sym (laws.named last fn of)) of in
          rw (finish_head, p, q)
            (
              record { sound = f.sound; tip = f.tip; last = of' },
              λ n e. subst Notified {x = some fn.hash} (ground (arith, e)) (fn, of'),
            )

      by_last : (l : Option ℕ) → newest finals ≡ l → Good (finish_head port o finals)
      by_last none p =
          rw (finish_head, p) (f, λ n e. subst Notified {x = none} (ground (arith, e)) tt)
      by_last (some last) p = by_get last (port.get o.store last) p refl

  fed_head-Good :
      (o : Sender Store) (r : Calculator × Result (List ℕ)) → Follows o → Good (fed_head port o r)
  fed_head-Good o (calc, panics) f =
      (record { sound = f.sound; tip = f.tip; last = f.last }, λ n e. cc)
  fed_head-Good o (calc, err x) f =
      (record { sound = f.sound; tip = f.tip; last = f.last }, λ n e. cc)
  fed_head-Good o (calc, ok finals) f =
      finish_head-Good (record o { calc = calc }) finals
        (record { sound = f.sound; tip = f.tip; last = f.last })

  on_head-Good :
      (fuel : ℕ) (o : Sender Store) (h : Header)
      → Follows o
      → Known h
      → Good (on_head port fuel o h)
  unfolding on_head
  on_head-Good fuel o h f known =
      by_applied (apply_and_add port o.store o.snap h)
        (apply_and_add_sound port laws o.store o.snap h f.sound f.tip known)
    where
      by_applied :
          (r : Store × Result Snapshot)
          → IsSound r.0 × ((next : Snapshot) → r.1 ≡ ok next → Of next.hash next)
          → Good (applied_head port fuel o r)
      by_applied (st, panics) (sound, of) =
          (record { sound = sound; tip = f.tip; last = f.last }, λ n e. cc)
      by_applied (st, err x) (sound, of) =
          (record { sound = sound; tip = f.tip; last = f.last }, λ n e. cc)
      by_applied (st, ok next) (sound, of) =
          fed_head-Good (record o { store = st; snap = next }) _
            (record { sound = sound; tip = of next refl; last = f.last })

  abbrev KnownEvent : Event → Type 0
  KnownEvent (new_head h) = Known h
  KnownEvent (failure e) = Unit {0}

  abbrev pub AllKnown : List Event → Type 0
  AllKnown [] = Unit {0}
  AllKnown (e ∷ es) = KnownEvent e × AllKnown es

  -- The goroutine has ended, or the loop follows.
  abbrev pub Alive : Option (Sender Store) → Type 0
  Alive none = Unit {0}
  Alive (some o) = Follows o

  retry-Alive : (o : Sender Store) (e : Error) → Follows o → Alive (retry port o e)
  unfolding enter
  retry-Alive o e f = elim (Bool-cases (restarts e)) [
    | inl again ↦ rw again (enter-Follows o.finality o.store f.sound f.last)
    | inr over ↦ rw over tt
  ]

  outcome-Alive :
      (r : Sender Store × Result (Option ℕ))
      → Good r
      → Alive (outcome port r).0 × Notified (outcome port r).1
  outcome-Alive (o, panics) (f, k) = (tt, tt)
  outcome-Alive (o, err x) (f, k) = (retry-Alive o x f, tt)
  outcome-Alive (o, ok n) (f, k) = (f, k n refl)

  on_event-Alive :
      (fuel : ℕ) (o : Sender Store) (e : Event)
      → Follows o
      → KnownEvent e
      → Alive (on_event port fuel o e).0 × Notified (on_event port fuel o e).1
  unfolding on_event
  on_event-Alive fuel o (new_head h) f known =
      outcome-Alive (on_head port fuel o h) (on_head-Good fuel o h f known)
  on_event-Alive fuel o (failure x) f known = (retry-Alive o x f, tt)

  noted-Has :
      (n : Option ℕ) (hashes : List ℕ) (hash : ℕ)
      → Notified n
      → (Has hash hashes → (s : Snapshot) × Of hash s)
      → Has hash (noted port n hashes)
      → (s : Snapshot) × Of hash s
  noted-Has none hashes hash t k m = k m
  noted-Has (some first) hashes hash (s, of) k (inl e) = (s, subst (λ k. Of k s) (sym e) of)
  noted-Has (some first) hashes hash t k (inr m) = k m

  -- Over any run, with its restarts: the loop follows as long as its goroutine lives, and every
  -- hash that the transactor is notified of is that of a snapshot.
  pub watch-Alive :
      (fuel : ℕ) (w : Option (Sender Store)) (events : List Event)
      → Alive w
      → AllKnown events
      → Alive (watch port fuel w events).0
        × ((hash : ℕ) → Has hash (watch port fuel w events).1 → (s : Snapshot) × Of hash s)
  unfolding watch
  watch-Alive fuel none events a known = (tt, λ hash m. absurd m)
  watch-Alive fuel (some o) [] f known = (f, λ hash m. absurd m)
  watch-Alive fuel (some o) (e ∷ events) f (k, known) =
      let (alive, noticed) = on_event-Alive fuel o e f k in
      let (alive', all) = watch-Alive fuel (on_event port fuel o e).0 events alive known in
      (alive', λ hash m. noted-Has (on_event port fuel o e).1 _ hash noticed (all hash) m)
