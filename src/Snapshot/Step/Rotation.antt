-- ===== src/Snapshot/Step/Rotation.antt =====
-- `Snapshot.apply` (chain/bsc2/snapshot.go): when the validators, the candidates and the turn lengths
-- change, and how the attestation does.
use btp2_bsc.Base.{
  refl, Result, err, panics, ◌≢◌, Bool, ℕ, ◌%◌, ◌≡◌, sym, ◌∙◌, ap, ◌⊎◌, inl, inr, List, [], Option,
  none, some, true, false, ◌==◌, ◌&&◌, ltb, ok, arith, add64, if◌then◌else◌, >>=-eq-ok, Bool-cases,
  insert,
}
use btp2_bsc.Chain.{Header, Ethereum, VoteData}
use btp2_bsc.Snapshot.Extra.{epoch, vote_attestation, parse_validators, parse_turn_length}
use btp2_bsc.Snapshot.State.{Snapshot, set_of, miner_history_check_len}
use btp2_bsc.Snapshot.Step.{
  update_attestation, forget_oldest, switch_validators, load_candidates, fresh_candidates, advance,
  apply, merge_attestation, extend_attestation,
}
use btp2_bsc.Snapshot.Step.Chained.{apply-Applied}

module _ (eth : Ethereum) where
  -- The three stages of `advance`.
  pub record Staged (s : Snapshot) (head : Header) (v : ℕ) (s' : Snapshot) : Type 0 where
    pub loaded : Snapshot
    pub loads :
        load_candidates eth
          (switch_validators eth (record s { recents = insert head.number v s.recents }) head)
          head
        ≡ ok loaded
    pub voted : Snapshot
    pub votes : update_attestation eth loaded head ≡ ok voted
    pub result : s' ≡ record voted {
      number = add64 voted.number 1;
      hash = head.hash;
      parent_hash = head.parent_hash;
      sealer = v;
    }

  pub advance-Staged :
      (s s' : Snapshot) (head : Header) (v : ℕ) → advance eth s head v ≡ ok s' → Staged s head v s'
  unfolding advance
  advance-Staged s s' head v e =
      let s0 = record s { recents = insert head.number v s.recents } in
      let (l, a, e') = >>=-eq-ok (load_candidates eth (switch_validators eth s0 head) head) _ e in
      let (u, b, e'') = >>=-eq-ok (update_attestation eth l head) _ e' in
      record { loaded = l; loads = a; voted = u; votes = b; result = cc }

  pub update_keeps :
      (s u : Snapshot) (head : Header)
      → update_attestation eth s head ≡ ok u
      → (u.validators ≡ s.validators)
        × (u.candidates ≡ s.candidates)
        × (u.recents ≡ s.recents)
        × (u.curr_turn_length ≡ s.curr_turn_length)
        × (u.next_turn_length ≡ s.next_turn_length)
  unfolding update_attestation
  update_keeps s u head e = ground arith

  -- The test for the height at which the candidates become the validators.
  abbrev pub is_switch : Snapshot → Header → Bool
  is_switch s head = ltb 0 head.number && (head.number % epoch == miner_history_check_len s)

  abbrev pub is_epoch : Header → Bool
  is_epoch head = ltb 0 head.number && (head.number % epoch == 0)

  forget_oldest_keeps :
      (s : Snapshot) (n : ℕ)
      → (miner_history_check_len (forget_oldest s n) ≡ miner_history_check_len s)
        × ((forget_oldest s n).validators ≡ s.validators)
        × ((forget_oldest s n).candidates ≡ s.candidates)
        × ((forget_oldest s n).curr_turn_length ≡ s.curr_turn_length)
        × ((forget_oldest s n).next_turn_length ≡ s.next_turn_length)
        × ((forget_oldest s n).attestation ≡ s.attestation)
  unfolding forget_oldest miner_history_check_len
  forget_oldest_keeps s n = ground arith

  switch_lem :
      (s : Snapshot) (head : Header)
      → ((switch_validators eth s head).validators
          ≡ (if is_switch s head then s.candidates else s.validators))
        × ((switch_validators eth s head).curr_turn_length
            ≡ (if is_switch s head then s.next_turn_length else s.curr_turn_length))
        × ((switch_validators eth s head).candidates ≡ s.candidates)
        × ((switch_validators eth s head).next_turn_length ≡ s.next_turn_length)
        × ((switch_validators eth s head).attestation ≡ s.attestation)
  unfolding switch_validators
  switch_lem s head = ground arith

  pub load_lem :
      (s l : Snapshot) (head : Header)
      → load_candidates eth s head ≡ ok l
      → (l.validators ≡ s.validators)
        × (l.curr_turn_length ≡ s.curr_turn_length)
        × (l.attestation ≡ s.attestation)
        × (l.recents ≡ s.recents)
        × (is_epoch head ≡ false
            → (l.candidates ≡ s.candidates) × (l.next_turn_length ≡ s.next_turn_length))
        × (is_epoch head ≡ true
            → (vals : List ℕ) × (parse_validators eth head ≡ ok vals)
              × (l.candidates ≡ set_of [] vals)
              × (parse_turn_length eth head ≡ ok l.next_turn_length))
  unfolding load_candidates fresh_candidates
  load_lem s l head e = elim (Bool-cases (is_epoch head)) [
    | inr no_epoch ↦ ground arith
    | inl yes_epoch ↦
        let (vals, p, e') = >>=-eq-ok (parse_validators eth head) _ (rw yes_epoch at e) in
        let (turn, q, e'') = >>=-eq-ok (parse_turn_length eth head) _ e' in
        (
          ground arith,
          ground arith,
          ground arith,
          ground arith,
          λ n. ground arith,
          λ y. (vals, p, ground arith, ground arith),
        )
  ]

  -- After an accepted header the validators and the turn length are the candidates and the next
  -- turn length of before if the height's remainder by the epoch is the length of the checked
  -- history, and unchanged otherwise. The candidates and the next turn length are those that an
  -- epoch header carries, and unchanged at every other.
  pub apply_rotates :
      (s s' : Snapshot) (head : Header) (chain_id : ℕ)
      → apply eth s (some head) chain_id ≡ ok s'
      → (s'.validators ≡ (if is_switch s head then s.candidates else s.validators))
        × (s'.curr_turn_length
            ≡ (if is_switch s head then s.next_turn_length else s.curr_turn_length))
        × (((is_epoch head ≡ false)
              × (s'.candidates ≡ s.candidates)
              × (s'.next_turn_length ≡ s.next_turn_length))
            ⊎ ((is_epoch head ≡ true)
                × (vals : List ℕ) × (parse_validators eth head ≡ ok vals)
                × (s'.candidates ≡ set_of [] vals)
                × (parse_turn_length eth head ≡ ok s'.next_turn_length)))
  unfolding miner_history_check_len
  apply_rotates s s' head chain_id e =
      let a = apply-Applied eth s s' head chain_id e in
      let s0 = forget_oldest s head.number in
      let t = advance-Staged s0 s' head a.signer a.advanced in
      let s1 = record s0 { recents = insert head.number a.signer s0.recents } in
      let (len, v0, c0, t0, n0, _) = forget_oldest_keeps s head.number in
      let (v1, t1, c1, n1, _) = switch_lem s1 head in
      let (v2, t2, _, _, same, parsed) =
        load_lem (switch_validators eth s1 head) t.loaded head t.loads in
      let (v3, c3, _, t3, n3) = update_keeps t.loaded t.voted head t.votes in
      (
        ap (λ (x : Snapshot). x.validators) t.result ∙ v3 ∙ v2 ∙ v1 ∙ rw (v0, c0, t0),
        ap (λ (x : Snapshot). x.curr_turn_length) t.result ∙ t3 ∙ t2 ∙ t1 ∙ rw (v0, n0, t0),
        elim (Bool-cases (is_epoch head)) [
          | inr n ↦ inl (
            n,
            ap (λ (x : Snapshot). x.candidates) t.result ∙ c3 ∙ (same n).0 ∙ c1 ∙ c0,
            ap (λ (x : Snapshot). x.next_turn_length) t.result ∙ n3 ∙ (same n).1 ∙ n1 ∙ n0,
          )
          | inl y ↦
              let (vals, p, c, q) = parsed y in
              inr (
                y,
                vals,
                p,
                ap (λ (x : Snapshot). x.candidates) t.result ∙ c3 ∙ c,
                q ∙ ap ok (sym (ap (λ (x : Snapshot). x.next_turn_length) t.result ∙ n3)),
              )
        ],
      )

  voted_cases :
      (r : Result (Option VoteData))
      → ((d : VoteData) × (r ≡ ok (some d))) ⊎ ((d : VoteData) → r ≢ ok (some d))
  voted_cases (ok none) = inr (λ d e. cc)
  voted_cases (ok (some d)) = inl (d, refl)
  voted_cases (err e) = inr (λ d q. cc)
  voted_cases panics = inr (λ d q. cc)

  update_cases :
      (s u : Snapshot) (head : Header)
      → update_attestation eth s head ≡ ok u
      → (u.attestation ≡ s.attestation)
        ⊎ ((d : VoteData) × (vote_attestation eth head ≡ ok (some d))
            × (u.attestation ≡ merge_attestation s.attestation d head))
  unfolding update_attestation
  update_cases s u head e = ground arith

  update_lem :
      (s u : Snapshot) (head : Header)
      → update_attestation eth s head ≡ ok u
      → ((u.attestation ≡ s.attestation)
          × ((d : VoteData) → vote_attestation eth head ≢ ok (some d)))
        ⊎ ((d : VoteData) × (vote_attestation eth head ≡ ok (some d))
            × (u.attestation ≡ merge_attestation s.attestation d head))
  unfolding update_attestation
  update_lem s u head e = elim (voted_cases (vote_attestation eth head)) [
    | inl (d, v) ↦ inr (d, v, ground (arith, e, v))
    | inr unvoted ↦ elim (update_cases s u head e) [
      | inl kept ↦ inl (kept, unvoted)
      | inr (d, v, m) ↦ absurd (unvoted d v)
    ]
  ]

  merge_lem :
      (old : Option VoteData) (d : VoteData) (head : Header)
      → ((merge_attestation old d head ≡ old)
          × ((d.target_hash ≢ head.parent_hash) ⊎ (add64 d.target_number 1 ≢ head.number)))
        ⊎ ((d.target_hash ≡ head.parent_hash)
            × (add64 d.target_number 1 ≡ head.number)
            × (merge_attestation old d head ≡ some (extend_attestation old d)))
  unfolding merge_attestation
  merge_lem old d head = ground arith

  extend_lem :
      (old : Option VoteData) (d : VoteData)
      → ((extend_attestation old d).target_hash ≡ d.target_hash)
        × ((extend_attestation old d).target_number ≡ d.target_number)
        × (add64 d.source_number 1 ≡ d.target_number → extend_attestation old d ≡ d)
        × (add64 d.source_number 1 ≢ d.target_number
            → (a : VoteData) → old ≡ some a
            → ((extend_attestation old d).source_number ≡ a.source_number)
              × ((extend_attestation old d).source_hash ≡ a.source_hash))
  unfolding extend_attestation
  extend_lem none d = ground arith
  extend_lem (some a) d = ground arith

  -- An accepted header either leaves the attestation, and then carries none whose target is its
  -- parent, or carries one whose target is its parent. Then the new attestation has that target; it
  -- is the header's own if its source is just before its target, and keeps the source of the old one
  -- otherwise.
  pub apply_attests :
      (s s' : Snapshot) (head : Header) (chain_id : ℕ)
      → apply eth s (some head) chain_id ≡ ok s'
      → ((s'.attestation ≡ s.attestation)
          × ((d : VoteData)
              → vote_attestation eth head ≡ ok (some d)
              → (d.target_hash ≢ s.hash) ⊎ (add64 d.target_number 1 ≢ head.number)))
        ⊎ ((d : VoteData) × (a : VoteData) × (vote_attestation eth head ≡ ok (some d))
            × (s'.attestation ≡ some a)
            × (a.target_hash ≡ s.hash)
            × (a.target_number ≡ d.target_number)
            × (add64 a.target_number 1 ≡ head.number)
            × (add64 d.source_number 1 ≡ d.target_number → a ≡ d)
            × (add64 d.source_number 1 ≢ d.target_number
                → (b : VoteData) → s.attestation ≡ some b
                → (a.source_number ≡ b.source_number) × (a.source_hash ≡ b.source_hash)))
  apply_attests s s' head chain_id e =
      let a = apply-Applied eth s s' head chain_id e in
      let s0 = forget_oldest s head.number in
      let t = advance-Staged s0 s' head a.signer a.advanced in
      let s1 = record s0 { recents = insert head.number a.signer s0.recents } in
      let same : t.loaded.attestation ≡ s.attestation =
        (load_lem (switch_validators eth s1 head) t.loaded head t.loads).2
        ∙ (switch_lem s1 head).4
        ∙ (forget_oldest_keeps s head.number).5 in
      let end : s'.attestation ≡ t.voted.attestation =
        ap (λ (x : Snapshot). x.attestation) t.result in
      elim (update_lem t.loaded t.voted head t.votes) [
        | inl (kept, unvoted) ↦ inl (end ∙ kept ∙ same, λ d v. absurd (unvoted d v))
        | inr (d, v, m) ↦ elim (merge_lem t.loaded.attestation d head) [
          | inl (kept, elsewhere) ↦
              inl (end ∙ m ∙ kept ∙ same, λ d' v'. ground (arith, elsewhere, v, v', a.linked))
          | inr (h, n, m') ↦
              let (th, tn, adjacent, apart) = extend_lem t.loaded.attestation d in
              inr (
                d,
                extend_attestation t.loaded.attestation d,
                v,
                end ∙ m ∙ m',
                th ∙ h ∙ sym a.linked,
                tn,
                ap (λ k. add64 k 1) tn ∙ n,
                adjacent,
                λ far b old. apart far b (same ∙ old),
              )
        ]
      ]
