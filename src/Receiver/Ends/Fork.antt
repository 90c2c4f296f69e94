-- ===== src/Receiver/Ends/Fork.antt =====
-- What the parts of `BuildBlockUpdate` answer by themselves (chain/bsc2/receiver.go): the fork's next block,
-- the loop's first header, and the update.
use btp2_bsc.Base.{
  ℕ, suc, ◌+◌, ◌*◌, ◌≤◌, ◌<◌, ◌^◌, ◌≡◌, ◌≢◌, refl, sym, ap, ◌∙◌, inl, inr, List, [], ◌∷◌, ◌++◌,
  Option, some, true, false, leb, ltb, ◌==◌, ◌&&◌, not, length, arith, Result, ok, err, panics,
  >>=-eq-ok, Bool-cases, ==_iff, ==_ne, add64, Has, length-append,
}
use btp2_bsc.Chain.{Header}
use btp2_bsc.Snapshot.State.{Snapshot}
use btp2_bsc.Client.{Message}
use btp2_bsc.Receiver.{Peer, Building, size_of, first_found, build_round, build_loop, pack}
use btp2_bsc.Receiver.Update.{build_round_lem, build_loop-Extends}

pub two_adds : (p k t : ℕ) → p + k ≡ t → t + 2 < 2 ^ 64 → add64 (add64 p k) 1 ≡ suc t
unfolding add64
two_adds p k t e h = omega arith

module _ (get : ℕ → Result Snapshot) (messages : ℕ → Result (List Message)) where
  -- Where the store knows just one of the children, or none.
  pub first_found_one :
      (wanted : ℕ) (children : List ℕ)
      → ((c : ℕ) (s : Snapshot) → Has c children → get c ≡ ok s → s.hash ≡ wanted)
      → ((c : ℕ) × (s : Snapshot) × Has c children × (get c ≡ ok s))
      → first_found get messages children ≡ wanted
  unfolding first_found
  first_found_one wanted [] only (c, s, m, e) = absurd m
  first_found_one wanted (child ∷ children) only (c, s, m, e) =
      by_get (get child) refl
        (λ later. first_found_one wanted children (λ d t h. only d t (inr h)) (c, s, later, e))
    where
      there : (r : Result Snapshot) → get child ≡ r → ((t : Snapshot) → r ≢ ok t) → Has c children
      there r p no_snap = elim m [
        | inl same ↦ absurd (no_snap s (sym p ∙ ap get (sym same) ∙ e))
        | inr later ↦ later
      ]

      by_get :
          (r : Result Snapshot)
          → get child ≡ r
          → (Has c children → first_found get messages children ≡ wanted)
          → first_found get messages (child ∷ children) ≡ wanted
      by_get (ok t) p rest = rw (first_found, p) (only child t (inl refl) p)
      by_get (err x) p rest = rw (first_found, p) (rest (there (err x) p (λ t q. cc)))
      by_get panics p rest = rw (first_found, p) (rest (there panics p (λ t q. cc)))

  pub first_found_none :
      (children : List ℕ)
      → ((c : ℕ) (s : Snapshot) → Has c children → get c ≢ ok s)
      → first_found get messages children ≡ 0
  unfolding first_found
  first_found_none [] unknown = refl
  first_found_none (child ∷ children) unknown =
      by_get (get child) refl (first_found_none children (λ c s h. unknown c s (inr h)))
    where
      by_get :
          (r : Result Snapshot)
          → get child ≡ r
          → first_found get messages children ≡ 0
          → first_found get messages (child ∷ children) ≡ 0
      by_get (ok t) p rest = absurd (unknown child t (inl refl) p)
      by_get (err x) p rest = rw (first_found, p) rest
      by_get panics p rest = rw (first_found, p) rest

  -- A first header that is linked and fits is taken.
  pub build_loop_takes :
      (heads : ℕ → Option Header) (fuel cache rounds : ℕ) (b b' : Building get messages)
      (head : Header)
      → build_loop get messages heads fuel cache (suc rounds) b ≡ ok b'
      → heads b.number ≡ some head
      → b.number ≤ cache
      → b.exists ≡ false
      → b.parent ≡ head.parent_hash
      → head.size * 5 ≤ b.limit
      → length b'.heads ≢ 0
  unfolding build_loop
  build_loop_takes heads fuel cache rounds b b' head e there low_enough first linked fits empty =
      let go : (leb b.number cache && not b.exists) ≡ true = ground (arith, low_enough, first) in
      let next : (b.parent == head.parent_hash) ≡ true = (==_iff _ _).1 linked in
      let room : ltb b.limit (size_of get messages head) ≡ false = ground (arith, fits) in
      let (c, built, e') =
        >>=-eq-ok (build_round get messages fuel b head) _
          (rw (build_loop, go, there, next, room) at e) in
      let (_, taken, _) = build_round_lem get messages fuel b c head built in
      let (more, grown, _, _) = build_loop-Extends get messages heads fuel cache rounds c b' e' in
      let count : length b'.heads ≡ length ((b.heads ++ head ∷ []) ++ more) =
        ap length (grown ∙ ap (λ hs. hs ++ more) taken) in
      omega (
        arith,
        count,
        empty,
        length-append (b.heads ++ head ∷ []) more,
        length-append b.heads (head ∷ []),
      )

module _ (get : ℕ → Result Snapshot) (messages : ℕ → Result (List Message)) (peer : Peer)
    (offset : ℕ) (b : Building get messages) where
  pub pack_one : length (pack get messages peer offset b) ≤ 1
  unfolding pack
  pack_one = elim (Bool-cases (length b.heads == 0)) [
    | inl empty ↦ rw (pack, empty) (omega arith)
    | inr full ↦ rw (pack, full) (omega arith)
  ]

  pub pack_full : length b.heads ≢ 0 → length (pack get messages peer offset b) ≡ 1
  unfolding pack
  pack_full n = rw (pack, ==_ne (length b.heads) 0 n) refl
