-- ===== src/Client.antt =====
-- chain/bsc2/client.go: the retrying transport and the searches for messages by windows of blocks.
-- What the node answers is an argument.
pub mod Windows
pub mod Connect
pub mod Examples
use btp2_bsc.Base.{
  ℕ, zero, suc, ◌+◌, ◌-◌, List, [], ◌∷◌, ◌++◌, Option, none, some, Bool, true, false, leb, ltb,
  ◌==◌, ◌&&◌, not, if◌then◌else◌, Error, not_found, Result, ok, err, panics, ◌>>=◌, sub64,
}
use btp2_bsc.Transactor.{Reply, reply, fails, is_not_found}

-- An event of the message center, with the place of its log.
pub record Message : Type 0 where
  pub seq : ℕ
  pub block_number : ℕ
  pub block_hash : ℕ
  pub tx_index : ℕ

-- `transport.RoundTrip`: a server fault is tried again, five times in all, an error is not. The k-th
-- attempt gets the k-th answer, a response with its status. After five faults the error is nil and
-- so is the response.
pub data Response : Type 0 where
  response : ℕ → Response
  no_response : Response
  transport_error : Error → Response

unfoldable pub attempt_from : (ℕ → Reply ℕ) → ℕ → ℕ → Response
attempt_from answers zero attempts = no_response
attempt_from answers (suc left) attempts = elim (answers attempts) [
  | fails e ↦ transport_error e
  | reply status ↦
      let again = attempt_from answers left (suc attempts) in
      if leb 500 status then again else response status
]

-- An error of the first read of the request's body, the first argument, is a panic.
unfoldable pub round_trip : Option Error → (ℕ → Reply ℕ) → Result Response
unfolding attempt_from
round_trip (some e) answers = panics
round_trip none answers = ok (attempt_from answers 5 0)

abbrev pub max_query_range : ℕ
max_query_range = 2048

-- The first block of the window that ends at `ep`; the difference is a uint64's.
unfoldable pub window_start : ℕ → ℕ → ℕ
window_start start ep =
    if ltb max_query_range (sub64 ep start) then sub64 ep max_query_range else start

-- The messages above a sequence number, in order.
unfoldable pub newer : ℕ → List Message → List Message
newer sequence [] = []
newer sequence (m ∷ ms) =
    let rest = newer sequence ms in if leb m.seq sequence then rest else m ∷ rest

-- `FilterMessage` over the blocks from the first to the second argument, both included.
module _ (filter : ℕ → ℕ → Reply (List Message)) where
  -- Out of fuel is `panics`.
  unfoldable pub after_loop : ℕ → ℕ → ℕ → ℕ → ℕ → List Message → Result (List Message)
  after_loop zero start sp ep sequence msgs = panics
  after_loop (suc fuel) start sp ep sequence msgs = elim (filter sp ep) [
    | fails e ↦ err e
    | reply found ↦
        let rest =
          after_loop fuel start (window_start start sp) sp sequence
            (newer sequence found ++ msgs) in
        if leb ep sp then ok (newer sequence found ++ msgs) else rest
  ]

  unfoldable pub messages_after_sequence : ℕ → ℕ → ℕ → ℕ → Result (List Message)
  messages_after_sequence fuel start end sequence =
      after_loop fuel start (window_start start end) end sequence []

-- `iter.Next(); iter.Event`: the first event, or nil.
abbrev pub first : List Message → Option Message
first [] = none
first (m ∷ ms) = some m

-- The same with the sequence number as a topic.
module _ (filter : ℕ → ℕ → ℕ → Reply (List Message)) where
  unfoldable pub by_loop : ℕ → ℕ → ℕ → ℕ → ℕ → Result (Option Message)
  by_loop zero start sp ep sequence = panics
  by_loop (suc fuel) start sp ep sequence = elim (filter sp ep sequence) [
    | reply found ↦ ok (first found)
    | fails e ↦
        let rest = by_loop fuel start (window_start start sp) sp sequence in
        if is_not_found e && not (sp == ep) then rest else err e
  ]

  unfoldable pub message_by_sequence : ℕ → ℕ → ℕ → ℕ → Result (Option Message)
  message_by_sequence fuel start end sequence =
      by_loop fuel start (window_start start end) end sequence

-- `ReceiptsByBlockHash`: the receipts of a block's transactions in order, or the first error.
unfoldable pub receipts_of : {A : Type 0} → (ℕ → Reply A) → List ℕ → Result (List A)
receipts_of receipt [] = ok []
receipts_of receipt (tx ∷ txs) = elim (receipt tx) [
  | fails e ↦ err e
  | reply r ↦ receipts_of receipt txs >>= λ rs. ok (r ∷ rs)
]

unfoldable pub receipts_by_block_hash :
    {A : Type 0} → (ℕ → Reply (List ℕ)) → (ℕ → Reply A) → ℕ → Result (List A)
unfolding receipts_of
receipts_by_block_hash block receipt hash = elim (block hash) [
  | fails e ↦ err e
  | reply txs ↦ receipts_of receipt txs
]

-- `MessagesByBlockHash`: the block's height, then the messages of that height.
unfoldable pub messages_by_block_hash :
    (ℕ → Reply ℕ) → (ℕ → ℕ → Reply (List Message)) → ℕ → Result (List Message)
messages_by_block_hash height filter hash = elim (height hash) [
  | fails e ↦ err e
  | reply number ↦ elim (filter number number) [ fails e ↦ err e | reply ms ↦ ok ms ]
]
