-- ===== src/Receiver/Watch/Cached.antt =====
-- The messages that the loop caches (`queryAndCacheMessages`, chain/bsc2/receiver.go).
use btp2_bsc.Base.{
  ℕ, zero, suc, ◌≤◌, ◌≡◌, ◌≢◌, refl, sym, ap, ◌∙◌, ◌⊎◌, inl, inr, List, [], ◌∷◌, ◌++◌, length, ◌==◌,
  Result, ok, arith, Has, Has-append_left, Has-append_right, Has-append_cases, ==_ne, ==_refl,
  Bool-cases, append_nil_eq,
}
use btp2_bsc.Snapshot.State.{Snapshot}
use btp2_bsc.Client.{Message}
use btp2_bsc.Receiver.{last_sequence, query_messages}

abbrev pub flatten : List (List Message) → List Message
flatten [] = []
flatten (ms ∷ mss) = ms ++ flatten mss

last_sequence-append :
    (xs ys : List Message) (s : ℕ)
    → last_sequence s (xs ++ ys) ≡ last_sequence (last_sequence s xs) ys
unfolding last_sequence
last_sequence-append [] ys s = refl
last_sequence-append (x ∷ xs) ys s = last_sequence-append xs ys _

flatten-append :
    (upper : List (List Message)) (ms : List Message)
    → flatten (upper ++ ms ∷ []) ≡ flatten upper ++ ms
flatten-append [] ms = append_nil_eq ms
flatten-append (us ∷ upper) ms =
    ap (λ rest. us ++ rest) (flatten-append upper ms) ∙ sym (assoc us (flatten upper) ms)
  where
    assoc : (xs ys zs : List Message) → (xs ++ ys) ++ zs ≡ xs ++ (ys ++ zs)
    assoc [] ys zs = refl
    assoc (x ∷ xs) ys zs = ap (◌∷◌ x) (assoc xs ys zs)

-- Either a message has a number that is not 0, or none has and what was there stays.
last_sequence_cases :
    (ms : List Message) (s t : ℕ)
    → (last_sequence s ms ≡ last_sequence t ms)
      ⊎ ((last_sequence s ms ≡ s) × (last_sequence t ms ≡ t))
unfolding last_sequence
last_sequence_cases [] s t = inr (refl, refl)
last_sequence_cases (m ∷ ms) s t = elim (Bool-cases (m.seq == 0)) [
  | inl zero_seq ↦ rw zero_seq (last_sequence_cases ms s t)
  | inr own ↦ rw own (inl refl)
]

last_sequence_own :
    (ms : List Message) (s : ℕ) → last_sequence 0 ms ≢ 0 → last_sequence s ms ≡ last_sequence 0 ms
last_sequence_own ms s k = elim (last_sequence_cases ms s 0) [
  | inl same ↦ same
  | inr (_, z) ↦ absurd (k z)
]

module _ (get : ℕ → Result Snapshot) (messages : ℕ → Result (List Message)) where
  -- The blocks from one down to an ancestor, the ancestor excluded, with their messages, the highest
  -- block first.
  pub data Span (ancestor : ℕ) : ℕ → List (List Message) → Type 0 where
    ends : Span ancestor ancestor []
    goes :
        {child : ℕ} {ms : List Message} {mss : List (List Message)} (snap : Snapshot)
        → child ≢ ancestor
        → get child ≡ ok snap
        → messages child ≡ ok ms
        → Span ancestor snap.parent_hash mss
        → Span ancestor child (ms ∷ mss)

  -- Where the blocks down to the ancestor have snapshots and messages, and with fuel for the blocks, the
  -- query ends: all their messages are in the cache, with those that
  -- were there; and the sequence number is the last one that is not 0 in the order of the query.
  pub query_messages_collects :
      (fuel child ancestor sequence : ℕ) (cached : List Message) (mss : List (List Message))
      → Span ancestor child mss
      → length mss ≤ fuel
      → (after : List Message) × (query_messages get messages fuel child ancestor sequence cached
          ≡ (after, ok (last_sequence sequence (flatten mss))))
        × ((m : Message) → Has m (flatten mss) ⊎ Has m cached → Has m after)
  unfolding query_messages last_sequence
  query_messages_collects zero child ancestor sequence cached [] ends h =
      (cached, rw (==_refl child) refl, λ m w. elim w [ inl f ↦ absurd f | inr c ↦ c ])
  query_messages_collects (suc fuel) child ancestor sequence cached [] ends h =
      (cached, rw (==_refl child) refl, λ m w. elim w [ inl f ↦ absurd f | inr c ↦ c ])
  query_messages_collects zero child ancestor sequence cached (ms ∷ mss) span h =
      absurd (omega arith)
  query_messages_collects (suc fuel) child ancestor sequence cached (ms ∷ mss)
        (goes snap n g q span) h =
      let (after, e, all) =
        query_messages_collects fuel snap.parent_hash ancestor (last_sequence sequence ms)
          (ms ++ cached) mss span (omega (arith, h)) in
      (
        after,
        rw
            (
              query_messages,
              ==_ne child ancestor n,
              g,
              q,
              e,
              last_sequence-append ms (flatten mss) sequence,
            )
            refl,
        λ m w. all m (elim w [
          | inl here ↦ elim (Has-append_cases m ms (flatten mss) here) [
            | inl mine ↦ inr (Has-append_left m ms cached mine)
            | inr lower ↦ inl lower
          ]
          | inr old ↦ inr (Has-append_right m ms cached old)
        ]),
      )

  -- For the same blocks and with fuel for them, the number that the query gives is that of the lowest block, where that block's messages have
  -- one, whatever messages the blocks above it have.
  pub query_keeps_lowest :
      (fuel child ancestor : ℕ) (cached : List Message) (upper : List (List Message))
      (ms : List Message)
      → Span ancestor child (upper ++ ms ∷ [])
      → length (upper ++ ms ∷ []) ≤ fuel
      → last_sequence 0 ms ≢ 0
      → (query_messages get messages fuel child ancestor 0 cached).1 ≡ ok (last_sequence 0 ms)
  query_keeps_lowest fuel child ancestor cached upper ms span h k =
      let (after, e, _) = query_messages_collects fuel child ancestor 0 cached _ span h in
      ap (λ (r : List Message × Result ℕ). r.1) e
      ∙ ap ok (
          ap (last_sequence 0) (flatten-append upper ms)
          ∙ last_sequence-append (flatten upper) ms 0
          ∙ last_sequence_own ms _ k)
