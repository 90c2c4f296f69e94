-- ===== src/Snapshot/Store/Derived.antt =====
-- What the snapshot of a block is, apart from caches and databases: the trusted one, or the parent's
-- with the block's header applied.
use btp2_bsc.Base.{
  if◌then◌else◌, ℕ, ◌<◌, ◌≡◌, sym, ap, subst, ◌∙◌, ◌⊎◌, inl, inr, List, [], some, Bool, true, false,
  ok, add64, ok-injective,
}
use btp2_bsc.Chain.{Header}
use btp2_bsc.Snapshot.Extra.{parse_validators, parse_turn_length}
use btp2_bsc.Snapshot.State.{Snapshot, set_of}
use btp2_bsc.Snapshot.Step.{apply}
use btp2_bsc.Snapshot.Step.Chained.{apply_chains}
use btp2_bsc.Snapshot.Step.Rotation.{apply_rotates, is_switch, is_epoch}
use btp2_bsc.Snapshot.Store.{Backend}

module _ {Cache Database Blob : Type 0} (b : Backend Cache Database Blob) (base : Snapshot) where
  pub data Derived : ℕ → Snapshot → Type 0 where
    trusted : {id : ℕ} {s : Snapshot} → base.hash ≡ id → base ≡ s → Derived id s
    follows :
        {id : ℕ} {s p : Snapshot} (head : Header)
        → b.header_by_hash id ≡ ok head
        → head.hash ≡ id
        → Derived head.parent_hash p
        → apply b.eth p (some head) b.chain_id ≡ ok s
        → Derived id s

  -- What is asked of the chain: the turn lengths that its headers give are not 0, and the trusted snapshot is of its block.
  pub record IsChain : Type 0 where
    pub turns :
        (id : ℕ) (head : Header) (n : ℕ)
        → b.header_by_hash id ≡ ok head
        → parse_turn_length b.eth head ≡ ok n
        → 0 < n
    pub base_turns : (0 < base.curr_turn_length) × (0 < base.next_turn_length)
    pub base_number :
        (head : Header) → b.header_by_hash base.hash ≡ ok head → head.number ≡ base.number

  pub Derived-hash : {id : ℕ} {s : Snapshot} → Derived id s → s.hash ≡ id
  Derived-hash (trusted e q) = ap (λ (t : Snapshot). t.hash) (sym q) ∙ e
  Derived-hash {s = s} (follows {p = p} head f e d a) =
      (apply_chains b.eth p s head b.chain_id a).3 ∙ e

  pub Derived-turns :
      {id : ℕ} {s : Snapshot}
      → IsChain
      → Derived id s
      → (0 < s.curr_turn_length) × (0 < s.next_turn_length)
  Derived-turns c (trusted e q) =
      subst (λ (t : Snapshot). (0 < t.curr_turn_length) × (0 < t.next_turn_length)) q c.base_turns
  Derived-turns {s = s} c (follows {p = p} head f e d a) =
      let (_, curr, next) = apply_rotates b.eth p s head b.chain_id a in
      let (old_curr, old_next) = Derived-turns c d in
      (rw curr (by_switch (is_switch b.eth p head) p old_curr old_next), by_epoch next old_next)
    where
      by_switch :
          (w : Bool) (p : Snapshot)
          → 0 < p.curr_turn_length
          → 0 < p.next_turn_length
          → 0 < (if w then p.next_turn_length else p.curr_turn_length)
      by_switch true p x y = y
      by_switch false p x y = x

      by_epoch :
          ((is_epoch b.eth head ≡ false)
              × (s.candidates ≡ p.candidates)
              × (s.next_turn_length ≡ p.next_turn_length))
            ⊎ ((is_epoch b.eth head ≡ true)
                × (vals : List ℕ) × (parse_validators b.eth head ≡ ok vals)
                × (s.candidates ≡ set_of [] vals)
                × (parse_turn_length b.eth head ≡ ok s.next_turn_length))
          → 0 < p.next_turn_length
          → 0 < s.next_turn_length
      by_epoch (inl (_, _, same)) y = rw same y
      by_epoch (inr (_, _, _, _, parsed)) y = c.turns _ head s.next_turn_length f parsed

  at_header :
      (s p : Snapshot) (head : Header)
      → apply b.eth p (some head) b.chain_id ≡ ok s
      → s.number ≡ head.number
  at_header s p head a = (apply_chains b.eth p s head b.chain_id a).2

  base_at :
      {id : ℕ} (head : Header)
      → IsChain
      → b.header_by_hash id ≡ ok head
      → base.hash ≡ id
      → head.number ≡ base.number
  base_at head c f e = c.base_number head (subst (λ k. b.header_by_hash k ≡ ok head) (sym e) f)

  -- Two snapshots of one block have the same height.
  Derived-number :
      {id : ℕ} {s t : Snapshot} → IsChain → Derived id s → Derived id t → s.number ≡ t.number
  Derived-number c (trusted e q) (trusted e' q') = ap (λ (t : Snapshot). t.number) (sym q ∙ q')
  Derived-number c (trusted e q) (follows head f e' d a) =
      ap (λ (t : Snapshot). t.number) (sym q)
      ∙ sym (base_at head c f e)
      ∙ sym (at_header _ _ head a)
  Derived-number c (follows head f e d a) (trusted e' q) =
      at_header _ _ head a ∙ base_at head c f e' ∙ ap (λ (t : Snapshot). t.number) q
  Derived-number c (follows head f e d a) (follows head' f' e' d' a') =
      at_header _ _ head a
      ∙ ap (λ (h : Header). h.number) (ok-injective (sym f ∙ f'))
      ∙ sym (at_header _ _ head' a')

  -- The snapshot of the parent is one lower, but for the trusted one's.
  pub Derived-parent :
      {id : ℕ} {s p : Snapshot}
      → IsChain
      → Derived id s
      → Derived s.parent_hash p
      → (base ≡ s) ⊎ (s.number ≡ add64 p.number 1)
  Derived-parent c (trusted e q) d = inl q
  Derived-parent {s = s} {p = p} c (follows {p = r} head f e d a) d' =
      let (n, h, at, _, up, _, _) = apply_chains b.eth r s head b.chain_id a in
      let same = Derived-number c (subst (λ k. Derived k r) (h ∙ sym up) d) d' in
      inr (at ∙ n ∙ ap (λ k. add64 k 1) same)
