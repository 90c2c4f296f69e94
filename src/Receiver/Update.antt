-- ===== src/Receiver/Update.antt =====
-- What a block update holds (`receiver.BuildBlockUpdate`, chain/bsc2/receiver.go).
use btp2_bsc.Base.{
  ok-injective, ℕ, zero, suc, ◌+◌, ◌-◌, ◌*◌, ◌≤◌, ◌≡◌, ◌≢◌, refl, sym, ap, ◌∙◌, inl, inr, List, [],
  ◌∷◌, ◌++◌, Option, leb, ltb, ◌==◌, ◌&&◌, not, length, arith, Result, ok, err, panics, >>=-eq-ok,
  Bool-cases, Option-cases, ==_iff, Has, append_nil_eq,
}
use btp2_bsc.Chain.{Header}
use btp2_bsc.Snapshot.State.{Snapshot}
use btp2_bsc.Tree.{BlockTree, add, prune}
use btp2_bsc.Calculator.{Calculator, feed, newest}
use btp2_bsc.Client.{Message}
use btp2_bsc.Receiver.Relay.{headers_len}
use btp2_bsc.Receiver.{
  Peer, Building, BlockUpdate, size_of, has_messages, finish_round, build_round, build_loop,
  start_building, pack, build_block_update,
}

-- Each header names the one before as its parent, from a hash on to a hash.
abbrev pub Chained : ℕ → List Header → ℕ → Type 0
Chained p [] q = p ≡ q
Chained p (h ∷ hs) q = (h.parent_hash ≡ p) × Chained h.hash hs q

append_assoc : (xs ys zs : List Header) → (xs ++ ys) ++ zs ≡ xs ++ (ys ++ zs)
append_assoc [] ys zs = refl
append_assoc (x ∷ xs) ys zs = ap (◌∷◌ x) (append_assoc xs ys zs)

module _ (get : ℕ → Result Snapshot) (messages : ℕ → Result (List Message)) where
  finish_round_keeps :
      (fuel : ℕ) (b b' : Building get messages) (finals : List ℕ)
      → finish_round get messages fuel b finals ≡ ok b'
      → (b'.limit ≡ b.limit) × (b'.heads ≡ b.heads)
  unfolding finish_round
  finish_round_keeps fuel b b' finals e = elim (Option-cases (newest finals)) [
    | inl q ↦ ground (arith, e, q)
    | inr (last, q) ↦ elim (Option-cases (prune fuel b.blocks last)) [
      | inl r ↦ ground (arith, e, q, r)
      | inr (pruned, r) ↦
          let (found, f, e') =
            >>=-eq-ok (has_messages get messages finals) _ (rw (finish_round, q, r) at e) in
          ground (arith, e')
    ]
  ]

  pub build_round_lem :
      (fuel : ℕ) (b b' : Building get messages) (head : Header)
      → build_round get messages fuel b head ≡ ok b'
      → (b'.limit ≡ b.limit - head.size * 5)
        × (b'.heads ≡ b.heads ++ head ∷ [])
        × (b'.parent ≡ head.hash)
  unfolding build_round
  build_round_lem fuel b b' head e = by_add (add b.blocks head.parent_hash head.hash) refl
    where
      by_feed :
          (grown : BlockTree) (c : Calculator) (r : Result (List ℕ))
          → add b.blocks head.parent_hash head.hash ≡ ok grown
          → feed get fuel b.calc head.hash ≡ (c, r)
          → (b'.limit ≡ b.limit - head.size * 5)
            × (b'.heads ≡ b.heads ++ head ∷ [])
            × (b'.parent ≡ head.hash)
      by_feed grown c panics p q = ground (arith, e, p, q)
      by_feed grown c (err x) p q = ground (arith, e, p, q)
      by_feed grown c (ok finals) p q =
          let (d, f, e') =
            >>=-eq-ok (finish_round get messages fuel _ finals) _ (rw (build_round, p, q) at e) in
          ground (arith, finish_round_keeps fuel _ d finals f, e')

      by_add :
          (r : Result BlockTree)
          → add b.blocks head.parent_hash head.hash ≡ r
          → (b'.limit ≡ b.limit - head.size * 5)
            × (b'.heads ≡ b.heads ++ head ∷ [])
            × (b'.parent ≡ head.hash)
      by_add panics p = ground (arith, e, p)
      by_add (err x) p = ground (arith, e, p)
      by_add (ok grown) p = by_feed grown _ _ p refl

  abbrev Extends : Building get messages → Building get messages → Type 0
  Extends b b' =
      (more : List Header) × (b'.heads ≡ b.heads ++ more)
      × Chained b.parent more b'.parent
      × (headers_len more * 5 + b'.limit ≡ b.limit)

  pub build_loop-Extends :
      (heads : ℕ → Option Header) (fuel cache rounds : ℕ) (b b' : Building get messages)
      → build_loop get messages heads fuel cache rounds b ≡ ok b'
      → Extends b b'
  unfolding build_loop headers_len
  build_loop-Extends heads fuel cache zero b b' e = cc
  build_loop-Extends heads fuel cache (suc rounds) b b' e =
      elim (Bool-cases (leb b.number cache && not b.exists)) [
        | inr stop ↦ stays b b' (ground (arith, e, stop))
        | inl go ↦ elim (Option-cases (heads b.number)) [
          | inl no_head ↦ stays b b' (ground (arith, e, go, no_head))
          | inr (head, there) ↦ elim (Bool-cases (b.parent == head.parent_hash)) [
            | inr bad ↦ absurd (ground (arith, e, go, there, bad))
            | inl linked ↦ elim (Bool-cases (ltb b.limit (size_of get messages head))) [
              | inl full ↦ stays b b' (ground (arith, e, go, there, linked, full))
              | inr fits ↦
                  let (c, r, e') =
                    >>=-eq-ok (build_round get messages fuel b head) _
                      (rw (build_loop, go, there, linked, fits) at e) in
                  let (l, h, p) = build_round_lem fuel b c head r in
                  let (more, hs, chained, len) =
                    build_loop-Extends heads fuel cache rounds c b' e' in
                  (
                    head ∷ more,
                    hs ∙ ap (λ xs. xs ++ more) h ∙ append_assoc b.heads (head ∷ []) more,
                    (sym ((==_iff _ _).0 linked), rw p at chained),
                    ground (arith, len, l, fits),
                  )
            ]
          ]
        ]
      ]
    where
      stays : (b b' : Building get messages) → b ≡ b' → Extends b b'
      stays b b' q = rw (← q) ([], sym (append_nil_eq b.heads), refl, omega arith)

  -- An update that is built holds at least one header; each names the one before as its parent,
  -- the first the last block of the peer's fork; and five times their size is within the limit.
  pub build_block_update_links :
      (heads : ℕ → Option Header) (fuel rounds cache offset : ℕ) (peer : Peer) (limit : ℕ)
      (us : List BlockUpdate) (u : BlockUpdate)
      → build_block_update get messages heads fuel rounds cache offset peer limit ≡ ok us
      → Has u us
      → (q : ℕ) × Chained (start_building get messages fuel peer limit).parent u.headers q
        × (u.headers ≢ [])
        × (headers_len u.headers * 5 ≤ limit)
  unfolding build_block_update pack start_building
  build_block_update_links heads fuel rounds cache offset peer limit us u e m =
      by_get (get peer.hash) refl
    where
      packed :
          (b : Building get messages)
          → Extends (start_building get messages fuel peer limit) b
          → Has u (pack get messages peer offset b)
          → (q : ℕ) × Chained (start_building get messages fuel peer limit).parent u.headers q
            × (u.headers ≢ [])
            × (headers_len u.headers * 5 ≤ limit)
      packed b (more, hs, chained, len) h = elim (Bool-cases (length b.heads == 0)) [
        | inl empty ↦ absurd (ground (arith, h, empty))
        | inr some_heads ↦
            let same : u.headers ≡ more = ground (arith, h, some_heads, hs) in
            (
              b.parent,
              rw same chained,
              ground (arith, h, some_heads, same),
              ground (arith, same, len),
            )
      ]

      by_get :
          (r : Result Snapshot)
          → get peer.hash ≡ r
          → (q : ℕ) × Chained (start_building get messages fuel peer limit).parent u.headers q
            × (u.headers ≢ [])
            × (headers_len u.headers * 5 ≤ limit)
      by_get panics p = absurd (ground (arith, e, p))
      by_get (err x) p = absurd (ground (arith, e, p))
      by_get (ok snap) p =
          let (b, l, e') =
            >>=-eq-ok
              (build_loop get messages heads fuel cache rounds
                (start_building get messages fuel peer limit))
              _ (rw (build_block_update, p) at e) in
          packed b (build_loop-Extends heads fuel cache rounds _ b l) (rw (← ok-injective e') at m)
