-- ===== src/Snapshot/Extra/Layout.antt =====
-- The layout of an epoch header's extra field, as the comment in chain/bsc2/snapshot.go draws it, and
-- that the readers find its parts: vanity, number of validators, validators, the turn length since
-- Bohr, vote attestation, seal.
use btp2_bsc.Base.{
  ◌⊎◌, inl, inr, none, ℕ, zero, suc, ◌+◌, ◌-◌, ◌*◌, ◌/◌, ◌%◌, ◌<◌, ◌≡◌, ◌≢◌, refl, sym, ◌∙◌, ap,
  List, [], ◌∷◌, ◌++◌, true, false, length, take, drop, length-append, ok, ◌>>=◌, arith,
}
use mathlib.Core.List.{append_assoc}
use btp2_bsc.Chain.{Header, Ethereum, index, slice_range, slice_range_ok, index-append, from_bytes}
use btp2_bsc.Snapshot.Extra.{
  is_bohr_at, parse_turn_length, validator_bytes, read_addresses, parse_validators, decoded,
  attestation_bytes, vote_attestation,
}

pub record Entry : Type 0 where
  pub address : List ℕ
  pub bls_key : List ℕ

abbrev pub IsEntry : Entry → Type 0
IsEntry e = (length e.address ≡ 20) × (length e.bls_key ≡ 48)

abbrev pub AreEntries : List Entry → Type 0
AreEntries [] = Unit {0}
AreEntries (e ∷ es) = IsEntry e × AreEntries es

abbrev pub entry_bytes : List Entry → List ℕ
entry_bytes [] = []
entry_bytes (e ∷ es) = e.address ++ (e.bls_key ++ entry_bytes es)

abbrev pub addresses : List Entry → List ℕ
addresses [] = []
addresses (e ∷ es) = from_bytes e.address ∷ addresses es

-- The bytes up to the turn length and the attestation, then those, then the seal.
abbrev pub front : List ℕ → List Entry → List ℕ
front vanity es = vanity ++ length es ∷ entry_bytes es

abbrev pub layout : List ℕ → List Entry → List ℕ → List ℕ → List ℕ
layout vanity es rest seal = front vanity es ++ (rest ++ seal)

drop-append : {A : Type 0} (n : ℕ) (xs ys : List A) → length xs ≡ n → drop n (xs ++ ys) ≡ ys
drop-append zero [] ys e = refl
drop-append zero (x ∷ xs) ys e = absurd (omega arith)
drop-append (suc n) [] ys e = absurd (omega arith)
drop-append (suc n) (x ∷ xs) ys e = drop-append n xs ys (omega arith)

take-append : {A : Type 0} (n : ℕ) (xs ys : List A) → length xs ≡ n → take n (xs ++ ys) ≡ xs
take-append zero [] ys e = refl
take-append zero (x ∷ xs) ys e = absurd (omega arith)
take-append (suc n) [] ys e = absurd (omega arith)
take-append (suc n) (x ∷ xs) ys e = ap (◌∷◌ x) (take-append n xs ys (omega arith))

-- The part `ys` of a slice that begins after `xs`.
slice_part :
    (xs ys zs : List ℕ) (start end : ℕ)
    → length xs ≡ start
    → start + length ys ≡ end
    → slice_range start end (xs ++ (ys ++ zs)) ≡ ok ys
slice_part xs ys zs start end s e =
    slice_range_ok start end (xs ++ (ys ++ zs)) (omega arith)
      (omega (arith, length-append {0} xs (ys ++ zs), length-append {0} ys zs))
    ∙ ap ok (
        ap (take (end - start)) (drop-append start xs (ys ++ zs) s)
        ∙ take-append (end - start) ys zs (omega arith))

index_part : (xs ys : List ℕ) (y i : ℕ) → length xs ≡ i → index (xs ++ y ∷ ys) i ≡ ok y
index_part xs ys y i e = rw (← e) (index-append xs ys y)

length-entry_bytes : (es : List Entry) → AreEntries es → length (entry_bytes es) ≡ length es * 68
length-entry_bytes [] h = omega arith
length-entry_bytes (e ∷ es) h = omega (
  arith,
  length-append {0} e.address (e.bls_key ++ entry_bytes es),
  length-append {0} e.bls_key (entry_bytes es),
  length-entry_bytes es h.1,
  h.0,
)

read_addresses-entries :
    (es : List Entry)
    → AreEntries es
    → read_addresses (length es) (entry_bytes es) ≡ ok (addresses es)
unfolding read_addresses
read_addresses-entries [] h = refl
read_addresses-entries (e ∷ es) h =
    let rest : drop 68 (entry_bytes (e ∷ es)) ≡ entry_bytes es =
      ap (drop 68) (sym (append_assoc e.address e.bls_key (entry_bytes es)))
      ∙ drop-append 68 (e.address ++ e.bls_key) (entry_bytes es)
          (omega (arith, length-append {0} e.address e.bls_key, h.0)) in
    rw (slice_part [] e.address (e.bls_key ++ entry_bytes es) 0 20 refl (omega (arith, h.0)), ◌>>=◌)
      (rw (rest, read_addresses-entries es h.1))

module _ {A : Type 0} where
  List-cases : (xs : List A) → (xs ≡ []) ⊎ (xs ≢ [])
  List-cases [] = inl refl
  List-cases (x ∷ xs) = inr (λ e. cc)

  length_pos : (xs : List A) → xs ≢ [] → 0 < length xs
  length_pos [] n = absurd (n refl)
  length_pos (x ∷ xs) n = omega arith

module _ (eth : Ethereum) (head : Header) (vanity : List ℕ) (es : List Entry) (rest seal : List ℕ)
    (is_layout : head.extra ≡ layout vanity es rest seal) (v : length vanity ≡ 32)
    (s : length seal ≡ 65) (entries : AreEntries es) where
  length-front : length (front vanity es) ≡ 33 + length es * 68
  length-front = omega (
    arith,
    length-append {0} vanity (length es ∷ entry_bytes es),
    length-entry_bytes es entries,
    v,
  )

  length-extra : length head.extra ≡ 98 + length es * 68 + length rest
  length-extra = omega (
    arith,
    ap length is_layout,
    length-append {0} (front vanity es) (rest ++ seal),
    length-append {0} rest seal,
    length-front,
    s,
  )

  regroup : head.extra ≡ vanity ++ length es ∷ (entry_bytes es ++ (rest ++ seal))
  regroup = is_layout ∙ append_assoc vanity (length es ∷ entry_bytes es) (rest ++ seal)

  number_part : index head.extra 32 ≡ ok (length es)
  number_part = rw regroup (index_part vanity _ (length es) 32 v)

  validators_part : slice_range 33 (33 + length es * 68) head.extra ≡ ok (entry_bytes es)
  validators_part =
      rw (regroup ∙ sym (append_assoc vanity (length es ∷ []) (entry_bytes es ++ (rest ++ seal)))) (
        slice_part (vanity ++ length es ∷ []) (entry_bytes es) (rest ++ seal) 33 _
          (omega (arith, length-append {0} vanity (length es ∷ []), v))
          (omega (arith, length-entry_bytes es entries)))

  bytes_found :
      head.number % 200 ≡ 0
      → es ≢ []
      → (is_bohr_at eth head ≡ true → rest ≢ [])
      → validator_bytes eth head ≡ ok (entry_bytes es)
  unfolding validator_bytes
  bytes_found ep n room =
      ground
        (arith, length-extra, number_part, validators_part, length_pos es n, room, length_pos rest)

  -- At an epoch block with some validators, and room for the turn length since Bohr, the addresses
  -- are those of the entries.
  layout_validators :
      head.number % 200 ≡ 0
      → es ≢ []
      → (is_bohr_at eth head ≡ true → rest ≢ [])
      → parse_validators eth head ≡ ok (addresses es)
  unfolding parse_validators
  layout_validators ep n room =
      let count : length (entry_bytes es) / 68 ≡ length es =
        omega (arith, length-entry_bytes es entries) in
      ground (
        arith,
        bytes_found ep n room,
        length-entry_bytes es entries,
        length_pos es n,
        ap (λ (k : ℕ). read_addresses k (entry_bytes es)) count,
        read_addresses-entries es entries,
      )

  layout_turn :
      is_bohr_at eth head ≡ true
      → (turn : ℕ) (more : List ℕ) → rest ≡ turn ∷ more
      → parse_turn_length eth head ≡ ok turn
  unfolding parse_turn_length
  layout_turn b turn more e =
      let part : index head.extra (33 + length es * 68) ≡ ok turn =
        rw (is_layout, e) (index_part (front vanity es) (more ++ seal) turn _ length-front) in
      ground (arith, length-extra, number_part, part, ap length e)

  attestation_part :
      (skipped att : List ℕ) (start : ℕ)
      → rest ≡ skipped ++ att
      → start ≡ 33 + length es * 68 + length skipped
      → attestation_bytes head start ≡ ok att
  unfolding attestation_bytes
  attestation_part skipped att start e st =
      let shape : head.extra ≡ (front vanity es ++ skipped) ++ (att ++ seal) =
        is_layout
        ∙ ap (λ (r : List ℕ). front vanity es ++ (r ++ seal)) e
        ∙ ap (λ (r : List ℕ). front vanity es ++ r) (append_assoc skipped att seal)
        ∙ sym (append_assoc (front vanity es) skipped (att ++ seal)) in
      let len = length-extra in
      let len' = ap length e ∙ length-append {0} skipped att in
      rw shape (
        slice_part (front vanity es ++ skipped) att seal start _
          (omega (arith, length-append {0} (front vanity es) skipped, length-front, st))
          (omega (arith, len, len', st, ap length shape)))

  -- For an extra field of 32 bytes of vanity, the number of entries, at least one entry of 20 and
  -- 48 bytes, a turn length, an attestation and 65 bytes of seal: since Bohr an epoch header reads
  -- back as it was laid out, the addresses of the validators, the turn length, and the vote
  -- attestation, which is decoded from exactly its bytes.
  pub layout_since_bohr :
      is_bohr_at eth head ≡ true
      → head.number % 200 ≡ 0
      → es ≢ []
      → (turn : ℕ) (att : List ℕ) → rest ≡ turn ∷ att
      → (parse_validators eth head ≡ ok (addresses es))
        × (parse_turn_length eth head ≡ ok turn)
        × (vote_attestation eth head ≡ decoded eth att)
  unfolding vote_attestation
  layout_since_bohr b ep n turn att e = (
    layout_validators ep n (λ _ no_rest. cc (sym e ∙ no_rest)),
    layout_turn b turn att e,
    ground (
      arith,
      length-extra,
      number_part,
      attestation_part (turn ∷ []) att (33 + length es * 68 + 1) e refl,
      ap length e,
    ),
  )

  -- For the same layout without a turn length: before Bohr an epoch header reads back the addresses
  -- of the validators, the turn length 1, no attestation if its bytes are empty, and else the one
  -- decoded from exactly these bytes.
  pub layout_before_bohr :
      is_bohr_at eth head ≡ false
      → head.number % 200 ≡ 0
      → es ≢ []
      → (parse_validators eth head ≡ ok (addresses es))
        × (parse_turn_length eth head ≡ ok 1)
        × (((rest ≡ []) × (vote_attestation eth head ≡ ok none))
            ⊎ ((rest ≢ []) × (vote_attestation eth head ≡ decoded eth rest)))
  unfolding vote_attestation parse_turn_length
  layout_before_bohr b ep n =
      (layout_validators ep n (λ since. cc), ground arith, by_rest (List-cases rest))
    where
      by_rest :
          (rest ≡ []) ⊎ (rest ≢ [])
          → ((rest ≡ []) × (vote_attestation eth head ≡ ok none))
            ⊎ ((rest ≢ []) × (vote_attestation eth head ≡ decoded eth rest))
      by_rest (inl e) = inl (e, ground (arith, length-extra, number_part, ap length e))
      by_rest (inr e) = inr (
        e,
        ground (
          arith,
          length-extra,
          number_part,
          attestation_part [] rest (33 + length es * 68) refl (omega arith),
          length_pos rest e,
        ),
      )
