-- ===== src/Receiver/Proof.antt =====
-- What a message proof holds (`receiver.BuildMessageProof`, chain/bsc2/receiver.go).
use btp2_bsc.Base.{
  subst, ℕ, zero, suc, ◌+◌, ◌≤◌, ◌<◌, ◌≡◌, ◌≢◌, refl, sym, ◌⊎◌, inl, inr, List, [], ◌∷◌, Option,
  none, some, Bool, true, false, ltb, ◌&&◌, length, arith, Result, ok, >>=-eq-ok, Bool-cases,
  Option-cases, add64_lt, u64_mod, ok-injective,
}
use btp2_bsc.Client.{Message}
use btp2_bsc.Receiver.Relay.{
  same_height, collect_messages, ReceiptProof, MessageProof, size_of_proof, prove_messages,
  as_proof, build_message_proof, message_proof_len, receive_sequence, last_seq_num,
}

module _ (cached : ℕ → Option Message) (height : ℕ) where
  -- The cache holds the messages under the next sequence numbers, each in a block up to the height
  -- and at the height of the one before.
  abbrev pub Follows : ℕ → Option ℕ → List Message → Type 0
  Follows sequence of_block [] = Unit {0}
  Follows sequence of_block (m ∷ ms) =
      (cached (sequence + 1) ≡ some m)
      × (m.block_number ≤ height)
      × (same_height of_block m.block_number ≡ true)
      × Follows (sequence + 1) (some m.block_number) ms

  collect_step :
      (fuel sequence : ℕ) (of_block : Option ℕ)
      → sequence + 1 < u64_mod
      → (collect_messages cached (suc fuel) height of_block sequence ≡ [])
        ⊎ ((m : Message) × (cached (sequence + 1) ≡ some m)
            × (m.block_number ≤ height)
            × (same_height of_block m.block_number ≡ true)
            × (collect_messages cached (suc fuel) height of_block sequence
                ≡ m ∷ collect_messages cached fuel height (some m.block_number) (sequence + 1)))
  unfolding collect_messages
  collect_step fuel sequence of_block h =
      let up = add64_lt sequence 1 h in
      elim (Option-cases (cached (sequence + 1))) [
        | inl nothing ↦ inl (ground (arith, up, nothing))
        | inr (m, found) ↦ elim (Bool-cases (ltb height m.block_number)) [
          | inl above ↦ inl (ground (arith, up, found, above))
          | inr below ↦ elim (Bool-cases (same_height of_block m.block_number)) [
            | inr other ↦ inl (ground (arith, up, found, below, other))
            | inl same ↦ inr (m, found, ground arith, same, ground (arith, up, found, below, same))
          ]
        ]
      ]

  collect_messages-Follows :
      (fuel sequence : ℕ) (of_block : Option ℕ)
      → sequence + fuel < u64_mod
      → Follows sequence of_block (collect_messages cached fuel height of_block sequence)
  collect_messages-Follows zero sequence of_block h = unfold collect_messages in tt
  collect_messages-Follows (suc fuel) sequence of_block h =
      elim (collect_step fuel sequence of_block (omega arith)) [
        | inl e ↦ subst (Follows sequence of_block) (sym e) tt
        | inr (m, found, low, same, e) ↦ subst (Follows sequence of_block) (sym e) (
          found,
          low,
          same,
          collect_messages-Follows fuel (sequence + 1) (some m.block_number) (omega arith),
        )
      ]

module _ (key_of : ℕ → Result (List ℕ)) (proof_of : List ℕ → Result (List (List ℕ))) where
  -- The proofs are those of the first messages, in order.
  abbrev pub Proves : List Message → List ReceiptProof → Type 0
  Proves ms [] = Unit {0}
  Proves [] (p ∷ ps) = ⊥
  Proves (m ∷ ms) (p ∷ ps) =
      (key_of m.tx_index ≡ ok p.key) × (proof_of p.key ≡ ok p.proof) × Proves ms ps

  abbrev Within : ℕ → ℕ → Bool → List ReceiptProof → Type 0
  Within limit spent started [] = Unit {0}
  Within limit spent started (p ∷ ps) =
      ((started ≡ false) ⊎ (spent + size_of_proof p.proof ≤ limit))
      × Within limit (spent + size_of_proof p.proof) true ps

  prove_messages_lem :
      (limit spent : ℕ) (started : Bool) (ms : List Message) (ps : List ReceiptProof)
      → prove_messages key_of proof_of limit spent started ms ≡ ok ps
      → Proves ms ps × Within limit spent started ps × ((started ≡ true) ⊎ ((ms ≡ []) ⊎ (ps ≢ [])))
  unfolding prove_messages
  prove_messages_lem limit spent started [] ps e =
      let q = ok-injective e in
      (subst (Proves []) q tt, subst (Within limit spent started) q tt, inr (inl refl))
  prove_messages_lem limit spent started (m ∷ ms) ps e =
      let (key, k, e1) = >>=-eq-ok (key_of m.tx_index) _ e in
      let (proof, p, e2) = >>=-eq-ok (proof_of key) _ e1 in
      elim (Bool-cases (started && ltb limit (spent + size_of_proof proof))) [
        | inl full ↦
            let q : [] ≡ ps = ground (arith, e2, full) in
            (
              subst (Proves (m ∷ ms)) q tt,
              subst (Within limit spent started) q tt,
              ground (arith, full),
            )
        | inr fits ↦
            let (rest, r, e3) =
              >>=-eq-ok (prove_messages key_of proof_of limit (spent + size_of_proof proof) true ms)
                _ (rw fits at e2) in
            let (proves, within, _) =
              prove_messages_lem limit (spent + size_of_proof proof) true ms rest r in
            let q = ok-injective e3 in
            (
              subst (Proves (m ∷ ms)) q (k, p, proves),
              subst (Within limit spent started) q (ground (arith, fits), within),
              inr (inr (λ z. cc)),
            )
      ]

  Within-len :
      (limit spent : ℕ) (ps : List ReceiptProof)
      → Within limit spent true ps
      → (ps ≡ []) ⊎ (spent + message_proof_len ps ≤ limit)
  unfolding message_proof_len
  Within-len limit spent [] w = inl refl
  Within-len limit spent (p ∷ ps) w =
      inr (ground (arith, w, Within-len limit (spent + size_of_proof p.proof) ps w.1, empty_len ps))
    where
      empty_len : (qs : List ReceiptProof) → qs ≡ [] → message_proof_len qs ≡ 0
      empty_len qs e = rw e refl

module _ (cached : ℕ → Option Message) (key_of : ℕ → Result (List ℕ))
    (trie : ℕ → Result (List ℕ → Result (List (List ℕ)))) where
  -- What a message proof is, for the messages it was made from.
  pub record Sound (height rx_seq limit : ℕ) (p : MessageProof) : Type 0 where
    pub m : Message
    pub ms : List Message
    pub proof_of : List ℕ → Result (List (List ℕ))
    pub in_trie : trie p.hash ≡ ok proof_of
    pub of_block : p.hash ≡ m.block_hash
    pub follows : Follows cached height rx_seq none (m ∷ ms)
    pub proves : Proves key_of proof_of (m ∷ ms) p.proofs
    pub starts : p.sequence ≡ rx_seq + 1
    pub ends : last_seq_num p ≡ receive_sequence p rx_seq
    pub nonempty : 0 < length p.proofs
    pub fits : (length p.proofs ≤ 1) ⊎ (message_proof_len p.proofs ≤ limit)

  fits_lem :
      (proof_of : List ℕ → Result (List (List ℕ))) (limit : ℕ) (ps : List ReceiptProof)
      → Within key_of proof_of limit 0 false ps
      → (length ps ≤ 1) ⊎ (message_proof_len ps ≤ limit)
  unfolding message_proof_len
  fits_lem proof_of limit [] w = inl (omega arith)
  fits_lem proof_of limit (p ∷ ps) w =
      elim (Within-len key_of proof_of limit (0 + size_of_proof p.proof) ps w.1) [
        | inl e ↦ inl (rw e (omega arith))
        | inr l ↦ inr (omega (arith, l))
      ]

  pos : (ps : List ReceiptProof) → ps ≢ [] → 0 < length ps
  pos [] n = absurd (n refl)
  pos (p ∷ ps) n = omega arith

  -- Where the cache holds each message under its sequence number and the numbers looked up stay
  -- below 2^64, a proof that is built is for the next messages after the peer's sequence number, in
  -- order and without a gap, all at one height, the verifier's or one below; its first sequence number is
  -- the next one, its last the one that the peer has received after it; and unless it has
  -- a single part its size is within the limit.
  pub build_message_proof-Sound :
      (fuel height rx_seq limit : ℕ) (p : MessageProof)
      → ((k : ℕ) (m : Message) → cached k ≡ some m → m.seq ≡ k)
      → rx_seq + fuel < u64_mod
      → build_message_proof cached key_of trie fuel height rx_seq limit ≡ ok (some p)
      → Sound height rx_seq limit p
  unfolding build_message_proof as_proof last_seq_num receive_sequence
  build_message_proof-Sound fuel height rx_seq limit p keyed h e =
      by_messages (collect_messages cached fuel height none rx_seq) refl
    where
      by_messages :
          (l : List Message)
          → collect_messages cached fuel height none rx_seq ≡ l
          → Sound height rx_seq limit p
      by_messages [] q = absurd (ground (arith, e, q))
      by_messages (m ∷ ms) q =
          let (proof_of, t, e1) =
            >>=-eq-ok (trie m.block_hash) _ (rw (build_message_proof, q) at e) in
          let (ps, r, e2) =
            >>=-eq-ok (prove_messages key_of proof_of limit 0 false (m ∷ ms)) _ e1 in
          let (proves, within, some_proof) =
            prove_messages_lem key_of proof_of limit 0 false (m ∷ ms) ps r in
          let fol =
            subst (Follows cached height rx_seq none) q
              (collect_messages-Follows cached height fuel rx_seq none h) in
          let same : record { hash = m.block_hash; proofs = ps; sequence = m.seq } ≡ p =
            ground (arith, e2) in
          let seq = keyed (rx_seq + 1) m fol.0 in
          let many = pos ps (ground (arith, some_proof)) in
          subst (Sound height rx_seq limit) same (record {
            m = m;
            ms = ms;
            proof_of = proof_of;
            in_trie = t;
            of_block = refl;
            follows = fol;
            proves = proves;
            starts = seq;
            ends = omega (arith, seq, many);
            nonempty = many;
            fits = fits_lem proof_of limit ps within;
          })
