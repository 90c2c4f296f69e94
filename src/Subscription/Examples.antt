-- ===== src/Subscription/Examples.antt =====
-- Runs of a subscription.
use btp2_bsc.Base.{ℕ, ◌≤◌, ◌≡◌, refl, Bool, true, false, some, external}
use btp2_bsc.Subscription.{
  Lock, unlocked, Producer, sending, leaving, User, calling, gone, Subscription, new_subscription,
  Step, asks, fails, fetches, hands_over, locks, offers, delivers, marks, enters, unsubscribes,
  Reach, here, next,
}
use btp2_bsc.Subscription.Channel.{producer_holds, user_holds, subscription_safe}
use btp2_bsc.Subscription.Deadlock.{unsubscribe_deadlocks, watcher_leaks}

abbrev state : Lock → Bool → ℕ → ℕ → ℕ → Producer → User → Subscription
state lock unsubed closes errors number producer user = record {
  lock = lock;
  unsubed = unsubed;
  closes = closes;
  errors = errors;
  number = number;
  producer = producer;
  user = user;
}

-- A header goes over, the next query fails, and the error goes over.
failed_run : Reach (new_subscription 7) (state unlocked true 0 1 8 leaving gone)
unfolding new_subscription
failed_run =
    next
      (next
        (next
          (next
            (next
              (next
                (next (next (next here (asks refl refl refl)) (fetches refl refl))
                  (hands_over 7 refl refl refl))
                (asks refl refl refl))
              (fails (external 1) refl refl))
            (locks (some (external 1)) refl refl refl))
          (offers (external 1) refl refl refl))
        (delivers (external 1) refl refl refl))
      (marks refl refl)

subscription_safe_example :
    (¬ ((producer_holds leaving ≡ true) × (user_holds gone ≡ true))) × (0 ≤ 1) × (1 ≤ 1)
subscription_safe_example = subscription_safe 7 (state unlocked true 0 1 8 leaving gone) failed_run

unsubscribe_deadlocks_example :
    (s : Subscription) × Reach (new_subscription 7) s × ((t : Subscription) → ¬ Step s t)
unsubscribe_deadlocks_example = unsubscribe_deadlocks 7 (external 1)

abbrev left : Subscription
left = state unlocked false 0 0 8 (sending 7) calling

abbrev unsubscribed : Subscription
unsubscribed = state unlocked true 1 0 8 (sending 7) gone

unsubscribing : Reach left unsubscribed
unsubscribing = next (next here (enters refl refl refl)) (unsubscribes refl refl refl)

watcher_leaks_example : unsubscribed.producer ≡ sending 7
watcher_leaks_example = watcher_leaks 7 {s = left} {t = unsubscribed} refl (λ e. cc) unsubscribing
