-- ===== src/Transactor/Examples.antt =====
-- Tests of the transactor, and its theorems at a node that answers from small tables.
use btp2_bsc.Base.{
  ℕ, zero, suc, ◌+◌, ◌-◌, ◌≤◌, ◌<◌, ◌≡◌, ◌≢◌, refl, ◌⊎◌, inl, inr, List, [], ◌∷◌, none, some, true,
  false, leb, ◌==◌, if◌then◌else◌, arith, Error, not_found, external, Result, ok, err, Has,
}
use btp2_bsc.Snapshot.State.{Snapshot}
use btp2_bsc.Transactor.{
  Tx, Receipt, Created, Pending, Executed, MessageTx, created_message, pending_message,
  executing_message, executed_message, finalized_message, Node, reply, fails, transit,
  transit_created, transit_pending, transit_executing, estimate_loop, submit_at, poll, after_poll,
  type_of, id_of,
}
use btp2_bsc.Transactor.Transit.{may_move, stage, transit_moves}
use btp2_bsc.Transactor.Polling.{NotFoundIsSettled, not_found_no_retry}
use btp2_bsc.Transactor.Finality.{
  Ancestor, itself, parent, Chains, dropped_by_fork, try_finalize, try_finalize_at, descend, judge,
  try_finalize_decides,
}
use btp2_bsc.Transactor.Settled.{travel, travel_ends}
use btp2_bsc.Transactor.Run.{
  is_live, relays, takes, sends, finality, here, next, RelayResult, Transactor, busy, send, notify,
  raw, sweep, finalize, Reach, new_transactor,
}
use btp2_bsc.Transactor.Run.Sending.{executed_reply}
use btp2_bsc.Transactor.Run.Replies.{finalized_was_executed}

abbrev tx : Tx
tx = record { hash = 70; gas = 21000 }

abbrev receipt : Receipt
receipt = record { status = 1; block_number = 2; block_hash = 12; tx_hash = 70 }

abbrev message : Created
message = record { id = 5; gas_limit = 0 }

abbrev waiting : Pending
waiting = record { id = 5; tx = tx }

-- Gas is never estimated, the second query finds nothing, and the others find the transaction in the
-- pool.
abbrev node : Node
node = record {
  estimate = λ k. fails (external k);
  submit = λ gas. reply tx;
  scale_gas = λ gas. gas + gas;
  query = λ k.
      if k == 1
      then record { is_pending = false; failure = some not_found }
      else record { is_pending = true; failure = none };
  receipt = reply receipt;
  recover_sender = reply 1;
  call_contract = λ from. reply tt;
}

executing_step :
    transit 10 0 node (executing_message waiting receipt)
    ≡ some (executed_message (record { id = 5; number = 2; hash = 12; tx = 70; error = none }))
unfolding transit transit_executing
executing_step = refl

transit_moves_example :
    (may_move (type_of (executing_message waiting receipt)) (
        type_of
          (executed_message (record { id = 5; number = 2; hash = 12; tx = 70; error = none })))
      ≡ true)
    × (id_of (executed_message (record { id = 5; number = 2; hash = 12; tx = 70; error = none }))
        ≡ id_of (executing_message waiting receipt))
    × (stage (type_of (executing_message waiting receipt))
        < stage (
            type_of
              (executed_message (record { id = 5; number = 2; hash = 12; tx = 70; error = none }))))
transit_moves_example =
    transit_moves 10 0 node (executing_message waiting receipt)
      (executed_message (record { id = 5; number = 2; hash = 12; tx = 70; error = none }))
      executing_step

settled_law : NotFoundIsSettled node
settled_law k e = ground (arith, e)

travel_ends_example :
    (m' : MessageTx) × (travel 10 0 (λ k. node) 3 0 (pending_message waiting) ≡ some m')
    × (is_live m' ≡ false)
    × (id_of m' ≡ id_of (pending_message waiting))
travel_ends_example =
    travel_ends 10 0 (λ k. node) (omega arith) (λ k. settled_law) (pending_message waiting)

pooled_first :
    (i : ℕ) → i < 1 → ((node.query i).failure ≡ none) × ((node.query i).is_pending ≡ true)
pooled_first i h = ground arith

not_found_no_retry_example :
    transit_pending 10 node waiting ≡ some (executing_message waiting receipt)
unfolding after_poll
not_found_no_retry_example =
    not_found_no_retry node waiting settled_law 1 10 (omega arith) (omega arith) pooled_first refl

abbrev block : ℕ → Snapshot
block n = record {
  number = n;
  hash = 10 + n;
  parent_hash = 9 + n;
  sealer = 0;
  validators = [];
  candidates = [];
  recents = [];
  attestation = none;
  curr_turn_length = 1;
  next_turn_length = 1;
}

-- The blocks with the hashes from 10 on.
abbrev get : ℕ → Result Snapshot
get hash = if leb 10 hash then ok (block (hash - 10)) else err not_found

abbrev done : Executed
done = record { id = 5; number = 2; hash = 12; tx = 70; error = none }

-- An ancestor of block 5 is a block up to 5.
is_block : {s : Snapshot} → Ancestor get (block 5) s → (n : ℕ) × (s ≡ block n) × (n ≤ 5)
is_block itself = (5, refl, omega arith)
is_block (parent {a} {p} anc e) =
    let (n, q, l) = is_block anc in
    elim n as (λ n. a ≡ block n → n ≤ 5 → (m : ℕ) × (p ≡ block m) × (m ≤ 5)) [
      | zero ↦ λ q l. ground (arith, e, q)
      | suc n ↦ λ q l. (n, ground (arith, e, q), omega arith)
    ]
      q l

done_finalized : try_finalize get 15 (executed_message done) ≡ ok (finalized_message done)
unfolding try_finalize try_finalize_at descend judge
done_finalized = refl

forked_dropped :
    try_finalize get 15 (executed_message (record done { hash = 99 }))
    ≡ ok (dropped_by_fork (record done { hash = 99 }))
unfolding try_finalize try_finalize_at descend judge
forked_dropped = refl

lower_block : (n : ℕ) (p : Snapshot) → get (9 + n) ≡ ok p → suc p.number ≡ n
lower_block zero p e = ground (arith, e)
lower_block (suc n) p e = ground (arith, e)

lower_get :
    (s p : Snapshot) → Ancestor get (block 5) s → get s.parent_hash ≡ ok p → suc p.number ≡ s.number
lower_get s p anc e = let (n, q, l) = is_block anc in rw q (lower_block n p (rw q at e))

known_get :
    (s : Snapshot)
    → Ancestor get (block 5) s
    → 0 < s.number
    → (p : Snapshot) × (get s.parent_hash ≡ ok p)
known_get s anc h = let (n, q, l) = is_block anc in (block (s.number - 1), ground (arith, q, h))

block_chain : Chains get (block 5) 0
block_chain = record { lower = lower_get; known = known_get }

try_finalize_decides_example :
    ((5 < 2) × (try_finalize get 15 (executed_message done) ≡ ok (executed_message done)))
    ⊎ ((a : Snapshot) × Ancestor get (block 5) a
        × (a.number ≡ 2)
        × (((12 ≡ a.hash)
              × (try_finalize get 15 (executed_message done) ≡ ok (finalized_message done)))
            ⊎ ((12 ≢ a.hash)
                × (try_finalize get 15 (executed_message done) ≡ ok (dropped_by_fork done)))))
try_finalize_decides_example =
    try_finalize_decides get 15 (block 5) 0 done block_chain (omega arith) refl

-- A message that is estimated, submitted, found in a block and finalized.
abbrev good : Node
good = record {
  estimate = λ k. reply tx;
  submit = λ gas. reply tx;
  scale_gas = λ gas. gas + gas;
  query = λ k. record { is_pending = false; failure = none };
  receipt = reply receipt;
  recover_sender = reply 1;
  call_contract = λ from. reply tt;
}

abbrev code : Error → ℕ
code e = 1

abbrev state : List MessageTx → List MessageTx → List MessageTx → List RelayResult → Transactor
state transition running waitings replies = record {
  transition = transition;
  running = running;
  waitings = waitings;
  replies = replies;
}

abbrev executed_now : RelayResult
executed_now = record { id = 5; code = 0; is_finalized = false }

abbrev finalized_now : RelayResult
finalized_now = record { id = 5; code = 0; is_finalized = true }

abbrev at_start : MessageTx
at_start = created_message message

abbrev at_pool : MessageTx
at_pool = pending_message waiting

abbrev at_block : MessageTx
at_block = executing_message waiting receipt

abbrev at_end : MessageTx
at_end = executed_message done

abbrev Reached : Transactor → Type 0
Reached = Reach 0 code get (new_transactor 0 code)

relayed : Reached (state (at_start ∷ []) [] [] [])
unfolding busy new_transactor
relayed = next here (relays (state [] [] [] []) message refl)

pooled : Reached (state (at_pool ∷ []) [] [] [])
unfolding busy transit transit_created estimate_loop submit_at send
pooled = next (next relayed (takes (state (at_start ∷ []) [] [] []) at_start [] refl)) (
    sends (state [] (at_start ∷ []) [] []) (state (at_pool ∷ []) [] [] []) 10 0 good [] [] at_start
      at_pool refl refl (inr refl) refl)

in_block : Reached (state (at_block ∷ []) [] [] [])
unfolding busy transit transit_pending poll after_poll send
in_block = next (next pooled (takes (state (at_pool ∷ []) [] [] []) at_pool [] refl)) (
    sends (state [] (at_pool ∷ []) [] []) (state (at_block ∷ []) [] [] []) 10 0 good [] [] at_pool
      at_block refl refl (inr refl) refl)

awaiting : Reached (state [] [] (at_end ∷ []) (executed_now ∷ []))
unfolding transit transit_executing send notify raw
awaiting = next (next in_block (takes (state (at_block ∷ []) [] [] []) at_block [] refl)) (
    sends (state [] (at_block ∷ []) [] []) (state [] [] (at_end ∷ []) (executed_now ∷ [])) 10 0 good
      [] [] at_block at_end refl refl (inl refl) refl)

settled_run : Reached (state [] [] [] (finalized_now ∷ executed_now ∷ []))
unfolding finalize sweep try_finalize try_finalize_at descend judge send notify raw
settled_run = next awaiting (
    finality (state [] [] (at_end ∷ []) (executed_now ∷ []))
      (state [] [] [] (finalized_now ∷ executed_now ∷ [])) 15 refl)

finalized_was_executed_example :
    (finalized_now.code ≡ 0) × Has (executed_reply 0 code get 5) (finalized_now ∷ executed_now ∷ [])
finalized_was_executed_example =
    finalized_was_executed 0 code get finalized_now settled_run (inl refl) refl
