-- ===== src/Snapshot/Step/Bounded.antt =====
-- The heights in the recent signers under `apply` (chain/bsc2/snapshot.go).
use btp2_bsc.Base.{
  u64_mod, length, add64_lt, ◌-◌, ◌/◌, ℕ, zero, suc, ◌+◌, ◌≤◌, ◌<◌, ◌≡◌, ◌∙◌, ap, inl, inr, List,
  some, leb, ok, arith, lookup, insert, delete, lookup-insert, lookup-delete, add64, sub64,
  Bool-cases,
}
use btp2_bsc.Chain.{Header, Ethereum}
use btp2_bsc.Snapshot.State.{Snapshot, miner_history_check_len}
use btp2_bsc.Snapshot.Step.{forget_oldest, shrink_recents, switch_recents, switch_validators, apply}
use btp2_bsc.Snapshot.Step.Chained.{apply-Applied, apply_chains}
use btp2_bsc.Snapshot.Step.Rotation.{advance-Staged, update_keeps, load_lem}

-- No entry of the recent signers lies above the snapshot.
abbrev pub Bounded : List (ℕ × ℕ) → ℕ → Type 0
Bounded recents n = (k v : ℕ) → lookup k recents ≡ some v → k ≤ n

delete-Bounded : (k n : ℕ) (m : List (ℕ × ℕ)) → Bounded m n → Bounded (delete k m) n
delete-Bounded k n m h j v e = ground (arith, lookup-delete k j m, h j v)

insert-Bounded : (k v n : ℕ) (m : List (ℕ × ℕ)) → k ≤ n → Bounded m n → Bounded (insert k v m) n
insert-Bounded k v n m l h j w e = ground (arith, lookup-insert k j v m, h j w)

shrink_recents-Bounded :
    (rounds start n : ℕ) (m : List (ℕ × ℕ))
    → Bounded m n
    → Bounded (shrink_recents rounds start m) n
unfolding shrink_recents
shrink_recents-Bounded zero start n m h = h
shrink_recents-Bounded (suc rounds) start n m h =
    shrink_recents-Bounded rounds (sub64 start 1) n (delete start m) (delete-Bounded start n m h)

forget_oldest-Bounded :
    (s : Snapshot) (n b : ℕ) → Bounded s.recents b → Bounded (forget_oldest s n).recents b
unfolding forget_oldest
forget_oldest-Bounded s n b h k v e =
    elim (Bool-cases (leb (add64 (miner_history_check_len s) 1) n)) [
      | inl old ↦
          delete-Bounded (sub64 n (add64 (miner_history_check_len s) 1)) b s.recents h k v
            (rw old at e)
      | inr young ↦ h k v (rw young at e)
    ]

switch-Bounded :
    (eth : Ethereum) (s : Snapshot) (head : Header) (b : ℕ)
    → Bounded s.recents b
    → Bounded (switch_validators eth s head).recents b
unfolding switch_validators switch_recents lookup
switch-Bounded eth s head b h k v e = ground (
  arith,
  h k v,
  shrink_recents-Bounded (length s.validators / 2 + 1 - (length s.candidates / 2 + 1))
      (sub64 head.number (length s.candidates / 2 + 1)) b s.recents h k v,
)

-- Below the height at which uint64 wraps, `apply` keeps every entry of the recent signers at or
-- below the snapshot.
pub apply-Bounded :
    (eth : Ethereum) (s s' : Snapshot) (head : Header) (chain_id : ℕ)
    → s.number + 1 < u64_mod
    → Bounded s.recents s.number
    → apply eth s (some head) chain_id ≡ ok s'
    → Bounded s'.recents s'.number
apply-Bounded eth s s' head chain_id r h e =
    let a = apply-Applied eth s s' head chain_id e in
    let s0 = forget_oldest s head.number in
    let t = advance-Staged eth s0 s' head a.signer a.advanced in
    let s1 = record s0 { recents = insert head.number a.signer s0.recents } in
    let n = (apply_chains eth s s' head chain_id e).2 in
    let up = add64_lt s.number 1 r in
    let b0 =
      forget_oldest-Bounded s head.number head.number
        (λ k v l. omega (arith, h k v l, up, a.follows)) in
    let b1 =
      switch-Bounded eth s1 head head.number
        (insert-Bounded head.number a.signer head.number s0.recents (omega arith) b0) in
    let same =
      ap (λ (x : Snapshot). x.recents) t.result
      ∙ (update_keeps eth t.loaded t.voted head t.votes).2
      ∙ (load_lem eth (switch_validators eth s1 head) t.loaded head t.loads).3 in
    rw (n, same) b1
