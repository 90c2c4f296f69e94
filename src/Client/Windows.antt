-- ===== src/Client/Windows.antt =====
-- The searches by windows (chain/bsc2/client.go): that they end, and what they find.
use btp2_bsc.Base.{
  ℕ, zero, suc, ◌+◌, ◌≤◌, ◌<◌, ◌≡◌, ◌↔◌, ◌⊎◌, inl, inr, List, [], ◌∷◌, ◌++◌, leb, arith, ok,
  sub64_le, u64_mod, Has, Has-append_left, Has-append_right, Has-append_cases, Bool-cases,
}
use btp2_bsc.Transactor.{Reply, reply}
use btp2_bsc.Client.{Message, window_start, newer, after_loop, messages_after_sequence}

window_start_bounds :
    (start ep : ℕ)
    → start ≤ ep
    → ep < u64_mod
    → (start ≤ window_start start ep)
      × (window_start start ep ≤ ep)
      × ((window_start start ep ≡ start) ⊎ (window_start start ep < ep))
unfolding window_start
window_start_bounds start ep h k = ground (arith, sub64_le ep start, sub64_le ep 2048)

newer-Has :
    (sequence : ℕ) (m : Message) (ms : List Message)
    → Has m (newer sequence ms)
    → Has m ms × (sequence < m.seq)
unfolding newer
newer-Has sequence m [] h = absurd h
newer-Has sequence m (x ∷ ms) h = ground (arith, newer-Has sequence m ms)

Has-newer :
    (sequence : ℕ) (m : Message) (ms : List Message)
    → Has m ms
    → sequence < m.seq
    → Has m (newer sequence ms)
unfolding newer
Has-newer sequence m [] h l = h
Has-newer sequence m (x ∷ ms) h l = ground (arith, Has-newer sequence m ms)

-- `FilterMessage` answers exactly the messages that are logged in its blocks.
abbrev pub Answers : (Message → Type 0) → (ℕ → ℕ → Reply (List Message)) → Type 0
Answers Logged filter =
    (sp ep : ℕ)
    → (ms : List Message) × (filter sp ep ≡ reply ms)
      × ((m : Message) → Has m ms ↔ (Logged m × (sp ≤ m.block_number) × (m.block_number ≤ ep)))

module _ (Logged : Message → Type 0) (filter : ℕ → ℕ → Reply (List Message))
    (answers : Answers Logged filter) (start sequence : ℕ) where
  abbrev pub Wanted : ℕ → Message → Type 0
  Wanted ep m = Logged m × (start ≤ m.block_number) × (m.block_number ≤ ep) × (sequence < m.seq)

  -- One window's part.
  joined :
      (sp ep : ℕ) (ms msgs : List Message) (m : Message)
      → (Has m ms ↔ (Logged m × (sp ≤ m.block_number) × (m.block_number ≤ ep)))
      → Has m (newer sequence ms ++ msgs) ↔ (
          Has m msgs
          ⊎ (Logged m × (sp ≤ m.block_number) × (m.block_number ≤ ep) × (sequence < m.seq)))
  joined sp ep ms msgs m exact = (
    (λ h. elim (Has-append_cases m (newer sequence ms) msgs h) [
      | inl l ↦
          let (a, b) = newer-Has sequence m ms l in let (x, y, z) = exact.0 a in inr (x, y, z, b)
      | inr r ↦ inl r
    ]),
    (λ h. elim h [
      | inl l ↦ Has-append_right m (newer sequence ms) msgs l
      | inr r ↦
          let (x, y, z, b) = r in
          Has-append_left m (newer sequence ms) msgs (Has-newer sequence m ms (exact.1 (x, y, z)) b)
    ]),
  )

  after_loop_finds :
      (fuel sp ep : ℕ) (msgs : List Message)
      → ep < u64_mod
      → start ≤ sp
      → sp ≤ ep
      → (sp ≡ start) ⊎ (sp < ep)
      → ep < start + fuel
      → (out : List Message) × (after_loop filter fuel start sp ep sequence msgs ≡ ok out)
        × ((m : Message) → Has m out ↔ (Has m msgs ⊎ Wanted ep m))
  unfolding after_loop
  after_loop_finds zero sp ep msgs k l h w f = absurd (omega arith)
  after_loop_finds (suc fuel) sp ep msgs k l h w f =
      let (ms, e, exact) = answers sp ep in
      elim (Bool-cases (leb ep sp)) [
        | inl stop ↦ (
          newer sequence ms ++ msgs,
          ground arith,
          λ m. ground (arith, joined sp ep ms msgs m (exact m)),
        )
        | inr go ↦
            let (b, c, d) = window_start_bounds start sp l (ground arith) in
            let (out, r, spec) =
              after_loop_finds fuel (window_start start sp) sp (newer sequence ms ++ msgs)
                (ground arith) b c d (ground arith) in
            (out, ground arith, λ m. ground (arith, spec m, joined sp ep ms msgs m (exact m)))
      ]

  -- Where every query is answered with exactly the messages logged in its blocks: for blocks
  -- `start` to `end` below 2^64, with fuel for every block, the search returns, and its list holds
  -- exactly the messages logged in these blocks with a sequence number above the one asked for.
  pub messages_after_sequence_finds :
      (fuel end : ℕ)
      → start ≤ end
      → end < u64_mod
      → end < start + fuel
      → (out : List Message) × (messages_after_sequence filter fuel start end sequence ≡ ok out)
        × ((m : Message) → Has m out ↔ Wanted end m)
  unfolding messages_after_sequence
  messages_after_sequence_finds fuel end h k f =
      let (b, c, d) = window_start_bounds start end h k in
      let (out, r, spec) = after_loop_finds fuel (window_start start end) end [] k b c d f in
      (out, r, λ m. ground (arith, spec m))
