-- ===== src/Client/Examples.antt =====
-- Tests of the client's searches, and their theorem at a node with three logged messages.
use btp2_bsc.Base.{
  ℕ, ◌≤◌, ◌≡◌, ◌↔◌, refl, List, [], ◌∷◌, none, leb, ◌&&◌, if◌then◌else◌, arith, ok, sub64, Has,
}
use btp2_bsc.Transactor.{Reply, reply}
use btp2_bsc.Client.{
  Message, window_start, newer, after_loop, messages_after_sequence, by_loop, message_by_sequence,
  attempt_from, round_trip, no_response,
}
use btp2_bsc.Client.Windows.{Answers, Wanted, messages_after_sequence_finds}

abbrev message : ℕ → ℕ → Message
message seq number = record { seq = seq; block_number = number; block_hash = number; tx_index = 0 }

abbrev within : ℕ → ℕ → List Message → List Message
within sp ep [] = []
within sp ep (m ∷ ms) =
    let rest = within sp ep ms in
    if leb sp m.block_number && leb m.block_number ep then m ∷ rest else rest

abbrev logged : List Message
logged = message 1 10 ∷ message 2 952 ∷ message 3 2000 ∷ []

abbrev node : ℕ → ℕ → Reply (List Message)
node sp ep = reply (within sp ep logged)

within_lem :
    (sp ep : ℕ) (m : Message) (ms : List Message)
    → Has m (within sp ep ms) ↔ (Has m ms × (sp ≤ m.block_number) × (m.block_number ≤ ep))
within_lem sp ep m [] = ground arith
within_lem sp ep m (x ∷ ms) = ground (arith, within_lem sp ep m ms)

abbrev node_answers : Answers (λ m. Has m logged) node
node_answers sp ep = (within sp ep logged, refl, λ m. within_lem sp ep m logged)

messages_after_sequence_finds_example :
    (out : List Message) × (messages_after_sequence node 3001 0 3000 1 ≡ ok out)
    × ((m : Message) → Has m out ↔ Wanted (λ m. Has m logged) node node_answers 0 1 3000 m)
messages_after_sequence_finds_example =
    messages_after_sequence_finds (λ m. Has m logged) node node_answers 0 1 3001 3000 (omega arith)
      (omega arith) (omega arith)

-- The block on the border of two windows is asked for twice, so a message in it is there twice.
border_twice :
    messages_after_sequence node 9 0 3000 0
    ≡ ok (message 1 10 ∷ message 2 952 ∷ message 2 952 ∷ message 3 2000 ∷ [])
unfolding messages_after_sequence after_loop newer window_start sub64
border_twice = refl

-- An empty answer of the newest window is a nil event; the window with the message is not asked.
older_missed : message_by_sequence (λ sp ep seq. node sp ep) 9 0 5000 1 ≡ ok none
unfolding message_by_sequence by_loop window_start sub64
older_missed = refl

five_faults : round_trip none (λ k. reply 503) ≡ ok no_response
unfolding round_trip attempt_from
five_faults = refl
