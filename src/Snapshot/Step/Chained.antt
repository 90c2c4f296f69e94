-- ===== src/Snapshot/Step/Chained.antt =====
-- `Snapshot.apply` (chain/bsc2/snapshot.go): what a header must satisfy, and that snapshots chain.
use btp2_bsc.Base.{
  ℕ, ◌≡◌, ◌≢◌, sym, ◌∙◌, ap, inl, inr, some, true, false, ◌==◌, ok, err, arith, add64, >>=-eq-ok,
  Bool-cases, ==_iff, out_of_range, inconsistent_block, unauthorized_validator, insert,
}
use btp2_bsc.Chain.{Header, Ethereum}
use btp2_bsc.Snapshot.Extra.{ecrecover}
use btp2_bsc.Snapshot.State.{Snapshot, contains}
use btp2_bsc.Snapshot.Step.{
  update_attestation, forget_oldest, check_recent, switch_validators, load_candidates,
  fresh_candidates, advance, accept, apply,
}

forget_oldest-validators : (s : Snapshot) (n : ℕ) → (forget_oldest s n).validators ≡ s.validators
unfolding forget_oldest
forget_oldest-validators s n = ground arith

forget_oldest-number : (s : Snapshot) (n : ℕ) → (forget_oldest s n).number ≡ s.number
unfolding forget_oldest
forget_oldest-number s n = ground arith

module _ (eth : Ethereum) where
  -- A successful `apply`, taken apart.
  pub record Applied (s : Snapshot) (head : Header) (chain_id : ℕ) (s' : Snapshot) : Type 0 where
    pub follows : add64 s.number 1 ≡ head.number
    pub linked : s.hash ≡ head.parent_hash
    pub signer : ℕ
    pub signed : ecrecover eth head chain_id ≡ ok signer
    pub authorized : contains signer s.validators ≡ true
    pub fresh : check_recent eth (forget_oldest s head.number) head signer ≡ ok tt
    pub advanced : advance eth (forget_oldest s head.number) head signer ≡ ok s'

  accept-Applied :
      (s s' : Snapshot) (head : Header) (chain_id : ℕ)
      → add64 s.number 1 ≡ head.number
      → s.hash ≡ head.parent_hash
      → accept eth s head chain_id ≡ ok s'
      → Applied s head chain_id s'
  unfolding accept
  accept-Applied s s' head chain_id f l e =
      let (v, r, e') = >>=-eq-ok (ecrecover eth head chain_id) _ e in
      elim (Bool-cases (contains v (forget_oldest s head.number).validators)) [
        | inr no_auth ↦ absurd (ground arith)
        | inl auth ↦
            let (_, c, a) =
              >>=-eq-ok (check_recent eth (forget_oldest s head.number) head v) _ (rw auth at e') in
            record {
              follows = f;
              linked = l;
              signer = v;
              signed = r;
              authorized = rw (← forget_oldest-validators s head.number) auth;
              fresh = c;
              advanced = a;
            }
      ]

  pub apply-Applied :
      (s s' : Snapshot) (head : Header) (chain_id : ℕ)
      → apply eth s (some head) chain_id ≡ ok s'
      → Applied s head chain_id s'
  unfolding apply
  apply-Applied s s' head chain_id e = elim (Bool-cases (add64 s.number 1 == head.number)) [
    | inr bad ↦ absurd (ground arith)
    | inl f ↦ elim (Bool-cases (s.hash == head.parent_hash)) [
      | inr bad ↦ absurd (ground arith)
      | inl l ↦
          accept-Applied s s' head chain_id ((==_iff _ _).0 f) ((==_iff _ _).0 l) (rw (f, l) at e)
    ]
  ]

  switch_validators-number :
      (s : Snapshot) (head : Header) → ((switch_validators eth s head).number ≡ s.number)
  unfolding switch_validators
  switch_validators-number s head = ground arith

  load_candidates-number :
      (s l : Snapshot) (head : Header) → load_candidates eth s head ≡ ok l → l.number ≡ s.number
  unfolding load_candidates fresh_candidates
  load_candidates-number s l head e = ground arith

  update_attestation-number :
      (s u : Snapshot) (head : Header) → update_attestation eth s head ≡ ok u → u.number ≡ s.number
  unfolding update_attestation
  update_attestation-number s u head e = ground arith

  pub advance_lem :
      (s s' : Snapshot) (head : Header) (v : ℕ)
      → advance eth s head v ≡ ok s'
      → (s'.number ≡ add64 s.number 1)
        × (s'.hash ≡ head.hash)
        × (s'.parent_hash ≡ head.parent_hash)
        × (s'.sealer ≡ v)
  unfolding advance
  advance_lem s s' head v e =
      let s0 = record s { recents = insert head.number v s.recents } in
      let (l, a, e') = >>=-eq-ok (load_candidates eth (switch_validators eth s0 head) head) _ e in
      let (u, b, e'') = >>=-eq-ok (update_attestation eth l head) _ e' in
      ground (
        arith,
        load_candidates-number (switch_validators eth s0 head) l head,
        update_attestation-number l u head,
        switch_validators-number s0 head,
      )

  -- A header that is accepted is the next one above the snapshot, in uint64 arithmetic, and names
  -- its hash as the parent; its signer is one of the validators; the new snapshot is at the header,
  -- its parent is the old one, and its sealer is the signer.
  pub apply_chains :
      (s s' : Snapshot) (head : Header) (chain_id : ℕ)
      → apply eth s (some head) chain_id ≡ ok s'
      → (head.number ≡ add64 s.number 1)
        × (head.parent_hash ≡ s.hash)
        × (s'.number ≡ head.number)
        × (s'.hash ≡ head.hash)
        × (s'.parent_hash ≡ s.hash)
        × (ecrecover eth head chain_id ≡ ok s'.sealer)
        × (contains s'.sealer s.validators ≡ true)
  apply_chains s s' head chain_id e =
      let a = apply-Applied s s' head chain_id e in
      let (n, h, p, v) = advance_lem (forget_oldest s head.number) s' head a.signer a.advanced in
      (
        sym a.follows,
        sym a.linked,
        n ∙ ap (λ k. add64 k 1) (forget_oldest-number s head.number) ∙ a.follows,
        h,
        p ∙ sym a.linked,
        rw v a.signed,
        rw v a.authorized,
      )

  -- The refusals, in the order in which they are made.
  pub apply_refuses :
      (s : Snapshot) (head : Header) (chain_id : ℕ)
      → (add64 s.number 1 ≢ head.number → apply eth s (some head) chain_id ≡ err out_of_range)
        × (add64 s.number 1 ≡ head.number
            → s.hash ≢ head.parent_hash
            → apply eth s (some head) chain_id ≡ err inconsistent_block)
        × ((v : ℕ)
            → add64 s.number 1 ≡ head.number
            → s.hash ≡ head.parent_hash
            → ecrecover eth head chain_id ≡ ok v
            → contains v s.validators ≡ false
            → apply eth s (some head) chain_id ≡ err unauthorized_validator)
  unfolding apply accept
  apply_refuses s head chain_id = (
    λ n. ground arith,
    λ f n. ground arith,
    λ v f l r no_auth. ground (arith, forget_oldest-validators s head.number),
  )
