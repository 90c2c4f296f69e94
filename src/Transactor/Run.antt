-- ===== src/Transactor/Run.antt =====
-- `MessageTransactor.Run`, `Send` and `Busy` (chain/bsc2/transactor.go): the queue, the goroutines, the
-- waiting messages and the replies, as a step relation over all interleavings.
pub mod Sending
pub mod Replies
use btp2_bsc.Base.{
  ℕ, zero, suc, ◌+◌, ◌≤◌, ◌<◌, ◌≡◌, ◌≢◌, refl, ◌⊎◌, inl, inr, List, [], ◌∷◌, ◌++◌, Option, none,
  some, Bool, true, false, ltb, ◌==◌, ◌&&◌, ◌||◌, if◌then◌else◌, arith, Error, Result, ok, err,
  panics, ◌>>=◌, length, Has,
}
use btp2_bsc.Snapshot.State.{Snapshot}
use btp2_bsc.Transactor.{
  MessageType, unknown, created, pending, executing, executed, finalized, dropped, faulted,
  MessageTx, Created, Node, created_message, pending_message, executing_message, executed_message,
  finalized_message, dropped_message, faulted_message, type_of, transit,
}
use btp2_bsc.Transactor.Finality.{try_finalize}

pub record RelayResult : Type 0 where
  pub id : ℕ
  pub code : ℕ
  pub is_finalized : Bool

-- `transition` is the buffered channel, oldest first; `running` the messages of goroutines that are
-- in `Transit` or before their `Send`; `replies` what went over the reply channel, newest first.
pub record Transactor : Type 0 where
  pub transition : List MessageTx
  pub running : List MessageTx
  pub waitings : List MessageTx
  pub replies : List RelayResult

abbrev pub transition_cap : ℕ
transition_cap = 128

unfoldable pub busy : Transactor → Bool
busy st = length st.transition == transition_cap

abbrev pub is_live : MessageTx → Bool
is_live (created_message m) = true
is_live (pending_message m) = true
is_live (executing_message m r) = true
is_live (executed_message m) = false
is_live (finalized_message m) = false
is_live (dropped_message m) = false
is_live (faulted_message m) = false

abbrev pub enqueue : Transactor → MessageTx → Transactor
enqueue st msg = record st { transition = st.transition ++ msg ∷ [] }

-- Only a successfully executed message waits for finality.
abbrev pub await : Transactor → MessageTx → Option Error → Transactor
await st msg none = record st { waitings = st.waitings ++ msg ∷ [] }
await st msg (some e) = st

abbrev pub is_executed : MessageTx → Bool
is_executed (executed_message m) = true
is_executed _ = false

-- `errs.SUCCESS` and `errs.CodeOf` of the btp2 library.
module _ (success : ℕ) (code_of : Error → ℕ) where
  abbrev pub code_for : Option Error → ℕ
  code_for none = success
  code_for (some e) = code_of e

  -- The messages that are on their way have no result: `log.Panicln`.
  unfoldable pub raw : MessageTx → Result RelayResult
  raw (created_message m) = panics
  raw (pending_message m) = panics
  raw (executing_message m r) = panics
  raw (executed_message m) =
      ok (record { id = m.id; code = code_for m.error; is_finalized = false })
  raw (finalized_message m) =
      ok (record { id = m.id; code = code_for m.error; is_finalized = true })
  raw (dropped_message m) = ok (record { id = m.id; code = code_of m.error; is_finalized = false })
  raw (faulted_message m) = ok (record { id = m.id; code = code_of m.error; is_finalized = false })

  unfoldable pub notify : Transactor → MessageTx → Result Transactor
  unfolding raw
  notify st msg = raw msg >>= λ r. ok (record st { replies = r ∷ st.replies })

  -- `Send`, once the channels that it writes to take what it sends.
  unfoldable pub send : Transactor → MessageTx → Result Transactor
  unfolding notify
  send st (created_message m) = ok (enqueue st (created_message m))
  send st (pending_message m) = ok (enqueue st (pending_message m))
  send st (executing_message m r) = ok (enqueue st (executing_message m r))
  send st (executed_message m) =
      notify st (executed_message m) >>= λ st'. ok (await st' (executed_message m) m.error)
  send st (finalized_message m) = notify st (finalized_message m)
  send st (dropped_message m) = notify st (dropped_message m)
  send st (faulted_message m) = notify st (faulted_message m)

  module _ (get : ℕ → Result Snapshot) where
    -- The loop over the waiting messages under the lock: those that stay, and the state after the
    -- sends.
    unfoldable pub sweep :
        ℕ → List MessageTx → List MessageTx → Transactor → Result (List MessageTx × Transactor)
    sweep finality [] kept st = ok (kept, st)
    sweep finality (msg ∷ rest) kept st = try_finalize get finality msg >>= λ msg'.
        (if is_executed msg' then ok st else send st msg') >>= λ st'.
        sweep finality rest (if is_executed msg' then kept ++ msg' ∷ [] else kept) st'

    unfoldable pub finalize : Transactor → ℕ → Result Transactor
    finalize st finality =
        sweep finality st.waitings [] st >>= λ r. ok (record r.1 { waitings = r.0 })

    -- One step of the relay: a new message while the transactor is not busy; a goroutine takes a
    -- message off the channel; it ends a transition and sends what that gave, if the channel has
    -- room, or ends with the nil message; a finalized block is worked in. That the channel has room
    -- is Go's rule for a channel made with 128 places, not a test of the code; `Relay`'s own test of
    -- `Busy` and its `Send` are one step here, at the moment of the send.
    pub data Step : Transactor → Transactor → Type 0 where
      relays :
          (st : Transactor) (m : Created)
          → busy st ≡ false
          → Step st (enqueue st (created_message m))
      takes :
          (st : Transactor) (m : MessageTx) (rest : List MessageTx)
          → st.transition ≡ m ∷ rest
          → Step st (record st { transition = rest; running = m ∷ st.running })
      sends :
          (st st' : Transactor) (fuel max : ℕ) (node : Node) (before after : List MessageTx)
          (m m' : MessageTx)
          → st.running ≡ before ++ m ∷ after
          → transit fuel max node m ≡ some m'
          → (is_live m' ≡ false) ⊎ (busy st ≡ false)
          → send (record st { running = before ++ after }) m' ≡ ok st'
          → Step st st'
      stops :
          (st : Transactor) (fuel max : ℕ) (node : Node) (before after : List MessageTx)
          (m : MessageTx)
          → st.running ≡ before ++ m ∷ after
          → transit fuel max node m ≡ none
          → Step st (record st { running = before ++ after })
      finality : (st st' : Transactor) (hash : ℕ) → finalize st hash ≡ ok st' → Step st st'

    pub data Reach (st : Transactor) : Transactor → Type 0 where
      here : Reach st st
      next : {t u : Transactor} → Reach st t → Step t u → Reach st u

  unfoldable pub new_transactor : Transactor
  new_transactor = record { transition = []; running = []; waitings = []; replies = [] }
