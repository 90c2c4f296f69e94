-- ===== src/Subscription/Channel.antt =====
-- What holds of a subscription in every interleaving (chain/bsc2/subscription.go).
use btp2_bsc.Base.{ℕ, ◌≤◌, ◌≡◌, Bool, true, false, if◌then◌else◌, arith}
use btp2_bsc.Subscription.{
  Lock, unlocked, by_producer, by_user, Producer, locked, offering, delivered, leaving, finished,
  User, holding, Subscription, new_subscription, Step, quits, asks, misses, fails, fetches,
  hands_over, locks, skips, ends, offers, delivers, marks, closes_err, calls, calls_again, enters,
  returns_early, unsubscribes, Reach, here, next,
}

-- Who should hold the mutex at a place.
abbrev pub producer_holds : Producer → Bool
producer_holds (locked r) = true
producer_holds (offering e) = true
producer_holds delivered = true
producer_holds _ = false

abbrev pub user_holds : User → Bool
user_holds holding = true
user_holds _ = false

abbrev held_by : Lock → Bool × Bool
held_by unlocked = (false, false)
held_by by_producer = (true, false)
held_by by_user = (false, true)

-- The errors that went out, once the goroutine is past its send.
abbrev may_have_sent : Producer → Bool
may_have_sent delivered = true
may_have_sent leaving = true
may_have_sent finished = true
may_have_sent _ = false

pub record Inv (s : Subscription) : Type 0 where
  pub producer_lock : (held_by s.lock).0 ≡ producer_holds s.producer
  pub user_lock : (held_by s.lock).1 ≡ user_holds s.user
  -- `unsub` is closed at most once, and only then is the flag set by Unsubscribe
  pub closed_once : s.closes ≤ (if s.unsubed then 1 else 0)
  -- an error goes out at most once, at the end
  pub sent_once : s.errors ≤ (if may_have_sent s.producer then 1 else 0)

Step-Inv : (s t : Subscription) → Step s t → Inv s → Inv t
Step-Inv s t (quits p c e) i = ground arith
Step-Inv s t (asks p c e) i = ground arith
Step-Inv s t (misses p e) i = ground arith
Step-Inv s t (fails x p e) i = ground arith
Step-Inv s t (fetches p e) i = ground arith
Step-Inv s t (hands_over n p u e) i = ground arith
Step-Inv s t (locks r p l e) i = ground arith
Step-Inv s t (skips r p u e) i = ground arith
Step-Inv s t (ends p u e) i = ground arith
Step-Inv s t (offers x p u e) i = ground arith
Step-Inv s t (delivers x p u e) i = ground arith
Step-Inv s t (marks p e) i = ground arith
Step-Inv s t (closes_err p e) i = ground arith
Step-Inv s t (calls p e) i = ground arith
Step-Inv s t (calls_again p e) i = ground arith
Step-Inv s t (enters p l e) i = ground arith
Step-Inv s t (returns_early p u e) i = ground arith
Step-Inv s t (unsubscribes p u e) i = ground arith

Reach-Inv : (n : ℕ) {s : Subscription} → Reach (new_subscription n) s → Inv s
unfolding new_subscription
Reach-Inv n here = ground arith
Reach-Inv n (next r st) = Step-Inv _ _ st (Reach-Inv n r)

-- In every reachable state the mutex is held by at most one side, the channel `unsub` was closed at
-- most once, so that no close panics, and at most one error went over the channel.
pub subscription_safe :
    (n : ℕ) (s : Subscription)
    → Reach (new_subscription n) s
    → (¬ ((producer_holds s.producer ≡ true) × (user_holds s.user ≡ true)))
      × (s.closes ≤ 1)
      × (s.errors ≤ 1)
subscription_safe n s r =
    let i = Reach-Inv n r in (λ both. both_hold s.lock i both, ground (arith, i), ground (arith, i))
  where
    both_hold :
        (l : Lock) → Inv s → (producer_holds s.producer ≡ true) × (user_holds s.user ≡ true) → ⊥
    both_hold l i b = ground (arith, i.producer_lock, i.user_lock)
