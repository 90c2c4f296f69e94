-- ===== src/Subscription/Deadlock.antt =====
-- Two ways in which a subscription hangs (chain/bsc2/subscription.go, and WatchHeader of
-- chain/bsc2/client.go).
use btp2_bsc.Base.{ℕ, ◌≡◌, ◌≢◌, refl, false, some, Error, arith}
use btp2_bsc.Subscription.{
  by_producer, sending, offering, selecting, calling, Subscription, new_subscription, Step, quits,
  asks, misses, fails, fetches, hands_over, locks, skips, ends, offers, delivers, marks, closes_err,
  calls, calls_again, enters, returns_early, unsubscribes, Reach, here, next,
}

-- The goroutine offers its error with the mutex held, and the other side waits for the mutex.
abbrev pub Hangs : Error → Subscription → Type 0
Hangs e s = (s.producer ≡ offering e) × (s.user ≡ calling) × (s.lock ≡ by_producer)

Hangs-stops : (e : Error) (s t : Subscription) → Hangs e s → Step s t → ⊥
Hangs-stops e s t h (quits p c q) = ground arith
Hangs-stops e s t h (asks p c q) = ground arith
Hangs-stops e s t h (misses p q) = ground arith
Hangs-stops e s t h (fails x p q) = ground arith
Hangs-stops e s t h (fetches p q) = ground arith
Hangs-stops e s t h (hands_over n p u q) = ground arith
Hangs-stops e s t h (locks r p l q) = ground arith
Hangs-stops e s t h (skips r p u q) = ground arith
Hangs-stops e s t h (ends p u q) = ground arith
Hangs-stops e s t h (offers x p u q) = ground arith
Hangs-stops e s t h (delivers x p u q) = ground arith
Hangs-stops e s t h (marks p q) = ground arith
Hangs-stops e s t h (closes_err p q) = ground arith
Hangs-stops e s t h (calls p q) = ground arith
Hangs-stops e s t h (calls_again p q) = ground arith
Hangs-stops e s t h (enters p l q) = ground arith
Hangs-stops e s t h (returns_early p u q) = ground arith
Hangs-stops e s t h (unsubscribes p u q) = ground arith

abbrev hung : ℕ → Error → Subscription
hung n e = record {
  lock = by_producer;
  unsubed = false;
  closes = 0;
  errors = 0;
  number = n;
  producer = offering e;
  user = calling;
}

hung_reached : (n : ℕ) (e : Error) → Reach (new_subscription n) (hung n e)
unfolding new_subscription
hung_reached n e =
    next
      (next
        (next (next (next here (asks refl refl refl)) (fails e refl refl))
          (locks (some e) refl refl refl))
        (offers e refl refl refl))
      (calls refl refl)

-- For every error of the producer there is a reachable state in which neither side can take a step:
-- the other side has gone to Unsubscribe while the goroutine holds the mutex at its send.
pub unsubscribe_deadlocks :
    (n : ℕ) (e : Error)
    → (s : Subscription) × Reach (new_subscription n) s × ((t : Subscription) → ¬ Step s t)
unsubscribe_deadlocks n e =
    (hung n e, hung_reached n e, λ t st. Hangs-stops e (hung n e) t (refl, refl, refl) st)

-- The goroutine is at `headCh <- head`, and the other side has left its `select`.
abbrev pub Leaks : ℕ → Subscription → Type 0
Leaks h s = (s.producer ≡ sending h) × (s.user ≢ selecting)

Step-Leaks : (h : ℕ) (s t : Subscription) → Leaks h s → Step s t → Leaks h t
Step-Leaks h s t l (quits p c q) = absurd (ground (arith, l))
Step-Leaks h s t l (asks p c q) = absurd (ground (arith, l))
Step-Leaks h s t l (misses p q) = absurd (ground (arith, l))
Step-Leaks h s t l (fails x p q) = absurd (ground (arith, l))
Step-Leaks h s t l (fetches p q) = absurd (ground (arith, l))
Step-Leaks h s t l (hands_over n p u q) = absurd (l.1 u)
Step-Leaks h s t l (locks r p k q) = absurd (ground (arith, l))
Step-Leaks h s t l (skips r p u q) = absurd (ground (arith, l))
Step-Leaks h s t l (ends p u q) = absurd (ground (arith, l))
Step-Leaks h s t l (offers x p u q) = absurd (ground (arith, l))
Step-Leaks h s t l (delivers x p u q) = absurd (ground (arith, l))
Step-Leaks h s t l (marks p q) = absurd (ground (arith, l))
Step-Leaks h s t l (closes_err p q) = absurd (ground (arith, l))
Step-Leaks h s t l (calls p q) = absurd (l.1 p)
Step-Leaks h s t l (calls_again p q) = ground (arith, l)
Step-Leaks h s t l (enters p k q) = ground (arith, l)
Step-Leaks h s t l (returns_early p u q) = ground (arith, l)
Step-Leaks h s t l (unsubscribes p u q) = ground (arith, l)

Reach-Leaks : (h : ℕ) {s t : Subscription} → Leaks h s → Reach s t → Leaks h t
Reach-Leaks h l here = l
Reach-Leaks h l (next r st) = Step-Leaks h _ _ (Reach-Leaks h l r) st

-- A goroutine that is sending a header when the other side leaves its `select` never gets past that
-- send, whatever either side does, Unsubscribe included.
pub watcher_leaks :
    (h : ℕ) {s t : Subscription}
    → s.producer ≡ sending h
    → s.user ≢ selecting
    → Reach s t
    → t.producer ≡ sending h
watcher_leaks h p u r = (Reach-Leaks h (p, u) r).0
