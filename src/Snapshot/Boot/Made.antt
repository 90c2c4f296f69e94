-- ===== src/Snapshot/Boot/Made.antt =====
-- What `BootSnapshot` makes (chain/bsc2/snapshot.go), its recent signers included.
use btp2_bsc.Base.{
  ℕ, zero, suc, ◌+◌, ◌-◌, ◌/◌, ◌≤◌, ◌<◌, ◌≡◌, ◌≢◌, ◌∙◌, ap, sym, refl, ◌⊎◌, inl, inr, List, [],
  none, some, length, ltb, Result, ok, sub64, sub64_le, u64_mod, lookup, insert, lookup-insert,
  arith, >>=-eq-ok, ok-injective, Bool-cases, ◌==◌,
}
use btp2_bsc.Chain.{Header, Ethereum, VoteData}
use btp2_bsc.Snapshot.Extra.{parse_validators, parse_turn_length, vote_attestation}
use btp2_bsc.Snapshot.State.{Snapshot, new_snapshot, set_of, fill_recents}
use btp2_bsc.Snapshot.Boot.{collect_recents, boot_snapshot, boot-Booted}

module _ (header_by_number : ℕ → Result Header) where
  length-collect_recents :
      (rounds height : ℕ) (l : List ℕ)
      → collect_recents header_by_number rounds height ≡ ok l
      → length l ≡ rounds
  unfolding collect_recents
  length-collect_recents zero height l e = ap length (sym (ok-injective e))
  length-collect_recents (suc rounds) height l e =
      let (head, h, e1) = >>=-eq-ok (header_by_number height) _ e in
      let (rest, r, e2) = >>=-eq-ok (collect_recents header_by_number rounds (height + 1)) _ e1 in
      let len = length-collect_recents rounds (height + 1) rest r in
      ap length (sym (ok-injective e2)) ∙ omega (arith, len)

  -- The signer of each of the `rounds` heights that end at `number`, under its height.
  abbrev pub Signed : ℕ → ℕ → List (ℕ × ℕ) → List (ℕ × ℕ) → Type 0
  Signed rounds number before after =
      (k : ℕ)
      → ((number < k + rounds)
          × (k ≤ number)
          × ((h : Header) × (header_by_number k ≡ ok h) × (lookup k after ≡ some h.coinbase)))
        ⊎ (((k + rounds ≤ number) ⊎ (number < k)) × (lookup k after ≡ lookup k before))

  fill_recents-Signed :
      (rounds number : ℕ) (l : List ℕ) (acc : List (ℕ × ℕ))
      → rounds ≤ number + 1
      → number < u64_mod
      → collect_recents header_by_number rounds (number + 1 - rounds) ≡ ok l
      → Signed rounds number acc (fill_recents number l acc)
  unfolding collect_recents fill_recents
  fill_recents-Signed zero number l acc fits small e k =
      inr (omega arith, ap (λ x. lookup k (fill_recents number x acc)) (sym (ok-injective e)))
  fill_recents-Signed (suc rounds) number l acc fits small e k =
      let h0 = number + 1 - suc rounds in
      let (head, h, e1) = >>=-eq-ok (header_by_number h0) _ e in
      let (rest, r, e2) = >>=-eq-ok (collect_recents header_by_number rounds (h0 + 1)) _ e1 in
      let up : h0 + 1 ≡ number + 1 - rounds = omega (arith, fits) in
      let len = length-collect_recents rounds (h0 + 1) rest r in
      let key : sub64 number (length rest) ≡ h0 =
        ap (sub64 number) len
        ∙ sub64_le number rounds (omega (arith, fits)) small
        ∙ omega (arith, fits) in
      let acc' = insert (sub64 number (length rest)) head.coinbase acc in
      let made : fill_recents number l acc ≡ fill_recents number rest acc' =
        ap (λ x. fill_recents number x acc) (sym (ok-injective e2)) in
      let put = lookup-insert (sub64 number (length rest)) k head.coinbase acc in
      elim (fill_recents-Signed rounds number rest acc' (omega (arith, fits)) small (rw up at r)
        k) [
          | inl (above, below, (x, found, signer)) ↦
              inl (omega (arith, above), below, (x, found, ap (lookup k) made ∙ signer))
          | inr (out, same) ↦ elim (Bool-cases (h0 == k)) [
            | inl here ↦
                let at : h0 ≡ k = ground (arith, here) in
                inl (
                  omega (arith, at, fits),
                  omega (arith, at, fits),
                  (
                    head,
                    ap header_by_number (sym at) ∙ h,
                    ap (lookup k) made ∙ same ∙ put ∙ rw (key, here) refl,
                  ),
                )
            | inr other ↦
                let off : h0 ≢ k = λ q. ground (arith, other, q) in
                inr (
                  omega (arith, out, off, fits),
                  ap (lookup k) made ∙ same ∙ put ∙ rw (key, other) refl,
                )
          ]
        ]

module _ (header_by_number : ℕ → Result Header) (eth : Ethereum) (epoch : ℕ) (head : Header) where
  recents_of :
      (s : Snapshot) (n : ℕ) (l : List ℕ)
      → head.number < u64_mod
      → collect_recents header_by_number (n + 1) (head.number - n) ≡ ok l
      → s.recents ≡ fill_recents head.number l []
      → (head.number < n)
        ⊎ ((k : ℕ)
            → ((head.number ≤ k + n)
                × (k ≤ head.number)
                × ((h : Header) × (header_by_number k ≡ ok h)
                    × (lookup k s.recents ≡ some h.coinbase)))
              ⊎ (((k + n < head.number) ⊎ (head.number < k)) × (lookup k s.recents ≡ none)))
  unfolding lookup
  recents_of s n l small e made = elim (Bool-cases (ltb head.number n)) [
    | inl high ↦ inl (ground (arith, high))
    | inr low ↦ inr (λ k.
        let fits : n ≤ head.number = ground (arith, low) in
        let start : head.number - n ≡ head.number + 1 - (n + 1) = omega (arith, fits) in
        let filled =
          fill_recents-Signed header_by_number (n + 1) head.number l [] (omega (arith, fits)) small
            (ap (collect_recents header_by_number (n + 1)) (sym start) ∙ e) k in
        elim filled [
          | inl (above, below, (h, found, signer)) ↦
              inl (omega (arith, above), below, (h, found, ap (lookup k) made ∙ signer))
          | inr (out, same) ↦ inr (omega (arith, out), ap (lookup k) made ∙ same)
        ])
  ]

  -- A snapshot is booted only above height 0 and only from a header that carries an attestation. It
  -- stands at that header; its validators and turn length are those of the epoch before, its
  -- candidates and next turn length the header's, and its attestation the header's. At heights below
  -- 2^64, unless half of those validators is more than the height, its recent signers are the
  -- coinbases of the headers from that half below the height up to it, each under its height, and no
  -- others.
  pub boot_makes :
      (s : Snapshot)
      → head.number < u64_mod
      → boot_snapshot header_by_number eth epoch head ≡ ok s
      → (head.number ≢ 0)
        × (s.number ≡ head.number)
        × (s.hash ≡ head.hash)
        × (s.parent_hash ≡ head.parent_hash)
        × (s.sealer ≡ head.coinbase)
        × ((vote : VoteData) × (vote_attestation eth head ≡ ok (some vote))
            × (s.attestation ≡ some vote))
        × ((old : Header) × (old_vals : List ℕ) × (cur_vals : List ℕ) × (header_by_number
                (sub64 head.number epoch)
              ≡ ok old)
            × (parse_validators eth old ≡ ok old_vals)
            × (s.validators ≡ set_of [] old_vals)
            × (parse_turn_length eth old ≡ ok s.curr_turn_length)
            × (parse_validators eth head ≡ ok cur_vals)
            × (s.candidates ≡ set_of [] cur_vals)
            × (parse_turn_length eth head ≡ ok s.next_turn_length)
            × ((head.number < length old_vals / 2)
                ⊎ ((k : ℕ)
                    → ((head.number ≤ k + length old_vals / 2)
                        × (k ≤ head.number)
                        × ((h : Header) × (header_by_number k ≡ ok h)
                            × (lookup k s.recents ≡ some h.coinbase)))
                      ⊎ (((k + length old_vals / 2 < head.number) ⊎ (head.number < k))
                          × (lookup k s.recents ≡ none)))))
  unfolding new_snapshot
  boot_makes s small e =
      let (n, b) = boot-Booted header_by_number eth epoch head s e in
      let (turn, old_turn, q, q', m) = b.made in
      (
        n,
        ground (arith, m),
        ground (arith, m),
        ground (arith, m),
        ground (arith, m),
        (b.vote, b.voted, ground (arith, m)),
        (
          b.old_head,
          b.old_vals,
          b.cur_vals,
          b.old_fetched,
          b.old_parsed,
          ground (arith, m),
          ground (arith, m, q'),
          b.cur_parsed,
          ground (arith, m),
          ground (arith, m, q),
          recents_of s (length b.old_vals / 2) b.recents small b.recents_fetched
              (ground (arith, m)),
        ),
      )
