-- ===== src/Receiver/Start/Grown.antt =====
-- What the accumulator holds after `Start` (chain/bsc2/receiver.go).
use btp2_bsc.Base.{
  ℕ, ◌+◌, ◌≤◌, ◌≡◌, refl, sym, ap, subst, ◌∙◌, List, [], ◌∷◌, ◌++◌, Bool, true, false, ◌==◌, ◌%◌,
  ◌||◌, not, length, length-append, Result, ok, err, panics, >>=-eq-ok, ok-injective, arith,
  or_panic,
}
use btp2_bsc.Chain.{Header, Ethereum}
use btp2_bsc.Snapshot.State.{Snapshot}
use btp2_bsc.Client.{Message}
use btp2_bsc.Receiver.{Peer}
use btp2_bsc.Receiver.Sync.{ensured, synchronize, add_initial, with_snapshot, prepare}
use btp2_bsc.Receiver.Sync.Heights.{Run, sync_acc-Run}
use btp2_bsc.Receiver.Start.{Started, all_added, start}

pub all_added_inv :
    (r : List ℕ × Result (Unit {0})) (xs : List ℕ)
    → all_added r ≡ ok xs
    → (u : Unit {0}) × (r.0 ≡ xs) × (r.1 ≡ ok u)
all_added_inv (added, panics) xs e = cc
all_added_inv (added, err x) xs e = cc
all_added_inv (added, ok u) xs e = (u, ok-injective e, refl)

module _ (header_by_hash header_by_number : ℕ → Result Header) (flush : Result (Unit {0})) where
  -- The node answers a height with its block, and that block's hash with the same one.
  pub record IsNode : Type 0 where
    pub heights : (n : ℕ) (h : Header) → header_by_number n ≡ ok h → h.number ≡ n
    pub hashes : (n : ℕ) (h : Header) → header_by_number n ≡ ok h → header_by_hash h.hash ≡ ok h

  Run-append :
      (xs ys : List ℕ) (height : ℕ)
      → Run header_by_number height xs
      → Run header_by_number (height + length xs) ys
      → Run header_by_number height (xs ++ ys)
  Run-append [] ys height r q = subst (λ k. Run header_by_number k ys) (omega arith) q
  Run-append (x ∷ xs) ys height (here, r) q = (
    here,
    Run-append xs ys (height + 1) r (subst (λ k. Run header_by_number k ys) (omega arith) q),
  )

  synchronize_grows :
      (node : IsNode) (ensure : ℕ → Result (Unit {0})) (height until : ℕ) (xs : List ℕ)
      → all_added (synchronize header_by_hash header_by_number flush ensure height until) ≡ ok xs
      → Run header_by_number height xs × (height ≤ until + 1 → height + length xs ≡ until + 1)
  unfolding synchronize
  synchronize_grows node ensure height until xs e = by_target (header_by_number until) refl
    where
      by_ensure :
          (target : Header) (r : Result (Unit {0}))
          → header_by_number until ≡ ok target
          → all_added (ensured header_by_hash header_by_number flush height target.hash r) ≡ ok xs
          → Run header_by_number height xs × (height ≤ until + 1 → height + length xs ≡ until + 1)
      by_ensure target panics p q = cc
      by_ensure target (err x) p q = cc
      by_ensure target (ok _) p q =
          let (u, same, done) = all_added_inv _ xs q in
          let (run, all) = sync_acc-Run header_by_number header_by_hash flush height target.hash in
          let (end, found, len) = all u done in
          let at : end.number ≡ until =
            ap (λ (h : Header). h.number) (ok-injective (sym found ∙ node.hashes until target p))
            ∙ node.heights until target p in
          (
            subst (Run header_by_number height) same run,
            λ h.
                ap (λ ys. height + length ys) (sym same)
                ∙ len (omega (arith, h, at))
                ∙ ap (λ k. k + 1) at,
          )

      by_target :
          (r : Result Header)
          → header_by_number until ≡ r
          → Run header_by_number height xs × (height ≤ until + 1 → height + length xs ≡ until + 1)
      by_target panics p = absurd (ground (arith, rw (synchronize, p) at e))
      by_target (err x) p = absurd (ground (arith, rw (synchronize, p) at e))
      by_target (ok target) p = by_ensure target (ensure target.hash) p (rw (synchronize, p) at e)

  -- Into an empty accumulator `prepare` puts the block at the offset.
  prepare_adds :
      (has : ℕ → Result Bool) (store : Snapshot → Result (Unit {0})) (eth : Ethereum)
      (epoch offset : ℕ) (xs : List ℕ)
      → all_added (prepare header_by_hash header_by_number flush has store eth epoch offset 0)
        ≡ ok xs
      → Run header_by_number offset xs × (length xs ≡ 1)
  unfolding prepare add_initial
  prepare_adds has store eth epoch offset xs e =
      by_test (epoch == 0 || not (offset % epoch == 0)) refl
    where
      by_flush :
          (head : Header) (f r : Result (Unit {0}))
          → header_by_number offset ≡ ok head
          → all_added (
              with_snapshot header_by_hash header_by_number flush has store eth epoch head
                (head.hash ∷ [], f))
            ≡ ok xs
          → Run header_by_number offset xs × (length xs ≡ 1)
      by_flush head panics r p q = cc
      by_flush head (err x) r p q = cc
      by_flush head (ok _) r p q =
          let (u, same, _) = all_added_inv _ xs q in
          subst (λ ys. Run header_by_number offset ys × (length ys ≡ 1)) same
            (((head, p, refl), tt), omega arith)

      by_test :
          (t : Bool)
          → (epoch == 0 || not (offset % epoch == 0)) ≡ t
          → Run header_by_number offset xs × (length xs ≡ 1)
      by_test true p = absurd (ground (arith, rw (prepare, p) at e))
      by_test false p = by_head (header_by_number offset) refl
        where
          by_head :
              (r : Result Header)
              → header_by_number offset ≡ r
              → Run header_by_number offset xs × (length xs ≡ 1)
          by_head panics q = absurd (ground (arith, rw (prepare, p, q) at e))
          by_head (err x) q = absurd (ground (arith, rw (prepare, p, q) at e))
          by_head (ok head) q = by_flush head flush flush q (rw (prepare, p, q) at e)

  -- Where the node answers a height and a hash with the same block, the accumulator's height counts what
  -- it took in, and it was empty: after a start that succeeds it has taken in the hashes of the blocks
  -- from its offset on without a gap, up to the peer's block where that is not below the offset.
  pub start_accumulates :
      (node : IsNode) (has : ℕ → Result Bool) (store : Snapshot → Result (Unit {0}))
      (eth : Ethereum) (ensure : ℕ → Result (Unit {0})) (latest : Result ℕ)
      (messages_after : ℕ → ℕ → Result (List Message)) (height_after : List ℕ → ℕ)
      (epoch offset : ℕ) (peer : Peer) (s : Started)
      → ((xs : List ℕ) → height_after xs ≡ offset + length xs)
      → start header_by_hash header_by_number flush has store eth ensure latest messages_after
          height_after epoch offset 0
          (ok peer)
        ≡ ok s
      → Run header_by_number offset s.added
        × (offset ≤ peer.number → offset + length s.added ≡ peer.number + 1)
  unfolding start
  start_accumulates node has store eth ensure latest messages_after height_after epoch offset peer s
        counts e =
      let (first, a, e1) =
        >>=-eq-ok
          (all_added (prepare header_by_hash header_by_number flush has store eth epoch offset 0)) _
          e in
      let (later, c, e2) =
        >>=-eq-ok
          (all_added (
            synchronize header_by_hash header_by_number flush ensure (height_after first)
              peer.number))
          _ e1 in
      let (_, _, e3) = >>=-eq-ok (or_panic latest) _ e2 in
      let (_, _, e4) = >>=-eq-ok (or_panic (messages_after peer.number peer.sequence)) _ e3 in
      let (run, one) = prepare_adds has store eth epoch offset first a in
      let (run', len) = synchronize_grows node ensure (height_after first) peer.number later c in
      let whole : first ++ later ≡ s.added = ap (λ (t : Started). t.added) (ok-injective e4) in
      (
        subst (Run header_by_number offset) whole (
            Run-append first later offset run
              (subst (λ k. Run header_by_number k later) (counts first) run')),
        λ h.
            ap (λ ys. offset + length ys) (sym whole)
            ∙ omega (arith, len, length-append first later, counts first, one, h),
      )
