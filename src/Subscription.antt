-- ===== src/Subscription.antt =====
-- chain/bsc2/subscription.go, with WatchHeader of chain/bsc2/client.go as its producer: a goroutine,
-- a mutex and the channels `unsub`, `err` and `headCh`, as a step relation over all interleavings.
-- The other side reads headers and errors, and calls Unsubscribe when it leaves.
pub mod Channel
pub mod Deadlock
pub mod Examples
use btp2_bsc.Base.{ℕ, ◌≡◌, ◌<◌, Bool, true, false, Option, none, some, Error, ◌+◌}

-- Who holds `mu`.
pub data Lock : Type 0 where
  unlocked by_producer by_user : Lock

-- Where the goroutine of NewSubscription stands: at the producer's `select`, in its query, at
-- `headCh <- head`, back from the producer,
-- with the mutex, at `sub.err <- err` with the mutex, after that send, after the unlocking, or done
-- with `err` closed.
pub data Producer : Type 0 where
  watching : Producer
  querying : Producer
  sending : ℕ → Producer
  returned : Option Error → Producer
  locked : Option Error → Producer
  offering : Error → Producer
  delivered : Producer
  leaving : Producer
  finished : Producer

-- Where the other side stands: in its `select`, at the `Lock` of Unsubscribe, with the mutex there,
-- or gone.
pub data User : Type 0 where
  selecting : User
  calling : User
  holding : User
  gone : User

-- `closes` counts the times that `close(o.unsub)` ran; a second time panics. `errors` counts the
-- errors that went over the channel, `number` is the next height to watch.
pub record Subscription : Type 0 where
  pub lock : Lock
  pub unsubed : Bool
  pub closes : ℕ
  pub errors : ℕ
  pub number : ℕ
  pub producer : Producer
  pub user : User

unfoldable pub new_subscription : ℕ → Subscription
new_subscription number = record {
  lock = unlocked;
  unsubed = false;
  closes = 0;
  errors = 0;
  number = number;
  producer = watching;
  user = selecting;
}

pub data Step (s t : Subscription) : Type 0 where
  -- WatchHeader: the `quit` case, and the default if that is not ready; the query's three outcomes
  quits :
      s.producer ≡ watching → 0 < s.closes → t ≡ record s { producer = returned none } → Step s t
  asks : s.producer ≡ watching → s.closes ≡ 0 → t ≡ record s { producer = querying } → Step s t
  misses : s.producer ≡ querying → t ≡ record s { producer = watching } → Step s t
  fails :
      (e : Error) → s.producer ≡ querying → t ≡ record s { producer = returned (some e) } → Step s t
  fetches :
      s.producer ≡ querying
      → t ≡ record s { producer = sending s.number; number = s.number + 1 }
      → Step s t
  -- the other side's `select` takes the header
  hands_over :
      (n : ℕ)
      → s.producer ≡ sending n
      → s.user ≡ selecting
      → t ≡ record s { producer = watching }
      → Step s t
  -- the goroutine after the producer
  locks :
      (r : Option Error)
      → s.producer ≡ returned r
      → s.lock ≡ unlocked
      → t ≡ record s { producer = locked r; lock = by_producer }
      → Step s t
  skips :
      (r : Option Error)
      → s.producer ≡ locked r
      → s.unsubed ≡ true
      → t ≡ record s { producer = leaving; lock = unlocked }
      → Step s t
  ends :
      s.producer ≡ locked none
      → s.unsubed ≡ false
      → t ≡ record s { producer = delivered }
      → Step s t
  offers :
      (e : Error)
      → s.producer ≡ locked (some e)
      → s.unsubed ≡ false
      → t ≡ record s { producer = offering e }
      → Step s t
  -- the other side's `select` takes the error, and returns with it
  delivers :
      (e : Error)
      → s.producer ≡ offering e
      → s.user ≡ selecting
      → t ≡ record s { producer = delivered; user = gone; errors = s.errors + 1 }
      → Step s t
  marks :
      s.producer ≡ delivered
      → t ≡ record s { producer = leaving; unsubed = true; lock = unlocked }
      → Step s t
  closes_err : s.producer ≡ leaving → t ≡ record s { producer = finished } → Step s t
  -- Unsubscribe, also by one that has called it before
  calls : s.user ≡ selecting → t ≡ record s { user = calling } → Step s t
  calls_again : s.user ≡ gone → t ≡ record s { user = calling } → Step s t
  enters :
      s.user ≡ calling
      → s.lock ≡ unlocked
      → t ≡ record s { user = holding; lock = by_user }
      → Step s t
  returns_early :
      s.user ≡ holding → s.unsubed ≡ true → t ≡ record s { user = gone; lock = unlocked } → Step s t
  unsubscribes :
      s.user ≡ holding
      → s.unsubed ≡ false
      → t ≡ record s { user = gone; unsubed = true; closes = s.closes + 1; lock = unlocked }
      → Step s t

pub data Reach (s : Subscription) : Subscription → Type 0 where
  here : Reach s s
  next : {t u : Subscription} → Reach s t → Step t u → Reach s u
