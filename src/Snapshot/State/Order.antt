-- ===== src/Snapshot/State/Order.antt =====
-- `validators` and `inturn` (chain/bsc2/snapshot.go): Go gives the keys of a map in no fixed order, so the
-- list of validators stands for any rearrangement of it.
use mathlib.Core.Quot
use mathlib.Core.Quot.{Quot}
use mathlib.Core.List.{Permᴰ}
use btp2_bsc.Base.{
  ℕ, zero, suc, ◌%◌, ◌<◌, ◌≡◌, ◌≢◌, refl, sym, ap, ◌∙◌, inl, inr, List, [], ◌∷◌, some, ltb, ◌==◌,
  length, get_elem?, arith, ok, add64, Bool-cases, Has, ==_ne,
}
use btp2_bsc.Snapshot.State.{Snapshot, insert_sorted, sorted_validators, inturn}

insert_sorted_lt :
    (a b : ℕ) (l : List ℕ)
    → a < b
    → insert_sorted a (insert_sorted b l) ≡ insert_sorted b (insert_sorted a l)
unfolding insert_sorted
insert_sorted_lt a b [] h = ground arith
insert_sorted_lt a b (x ∷ xs) h = ground (arith, insert_sorted_lt a b xs h)

insert_sorted_comm :
    (a b : ℕ) (l : List ℕ)
    → insert_sorted a (insert_sorted b l) ≡ insert_sorted b (insert_sorted a l)
insert_sorted_comm a b l = elim (Bool-cases (ltb a b)) [
  | inl y ↦ insert_sorted_lt a b l (ground arith)
  | inr n ↦ elim (Bool-cases (ltb b a)) [
    | inl y ↦ sym (insert_sorted_lt b a l (ground arith))
    | inr m ↦
        let same : a ≡ b = ground arith in
        ap (λ k. insert_sorted a (insert_sorted k l)) (sym same)
        ∙ ap (λ k. insert_sorted k (insert_sorted a l)) same
  ]
]

-- Rearranged, the validators are sorted to the same list.
pub sorted_validators-Perm :
    {xs ys : List ℕ} → Permᴰ xs ys → sorted_validators xs ≡ sorted_validators ys
unfolding sorted_validators
sorted_validators-Perm Permᴰ.nil = refl
sorted_validators-Perm (Permᴰ.cons {a} {l₂} e p) =
    ap (insert_sorted a) (sorted_validators-Perm p)
    ∙ ap (λ k. insert_sorted k (sorted_validators l₂)) e
sorted_validators-Perm (Permᴰ.swap {a} {b} {a'} {l} e e') =
    insert_sorted_comm a b (sorted_validators l)
    ∙ ap (λ k. insert_sorted k (insert_sorted a (sorted_validators l))) e'
    ∙ ap (λ k. insert_sorted a' (insert_sorted k (sorted_validators l))) e
sorted_validators-Perm (Permᴰ.trans p q) = sorted_validators-Perm p ∙ sorted_validators-Perm q

length-insert_sorted : (a : ℕ) (l : List ℕ) → length (insert_sorted a l) ≡ suc (length l)
unfolding insert_sorted
length-insert_sorted a [] = refl
length-insert_sorted a (x ∷ xs) = ground (arith, length-insert_sorted a xs)

length-sorted_validators : (l : List ℕ) → length (sorted_validators l) ≡ length l
unfolding sorted_validators
length-sorted_validators [] = refl
length-sorted_validators (x ∷ xs) =
    length-insert_sorted x (sorted_validators xs) ∙ ap suc (length-sorted_validators xs)

Has-insert_sorted : (v a : ℕ) (l : List ℕ) → Has v (insert_sorted a l) → Has v (a ∷ l)
unfolding insert_sorted
Has-insert_sorted v a [] h = h
Has-insert_sorted v a (x ∷ xs) h = elim (Bool-cases (ltb a x)) [
  | inl y ↦ rw (insert_sorted, y) at h
  | inr n ↦ elim (rw (insert_sorted, n) at h) [
    | inl e ↦ inr (inl e)
    | inr later ↦ elim (Has-insert_sorted v a xs later) [ inl e ↦ inl e | inr m ↦ inr (inr m) ]
  ]
]

Has-sorted_validators : (v : ℕ) (l : List ℕ) → Has v (sorted_validators l) → Has v l
unfolding sorted_validators
Has-sorted_validators v [] h = h
Has-sorted_validators v (x ∷ xs) h = elim (Has-insert_sorted v x (sorted_validators xs) h) [
  | inl e ↦ inl e
  | inr m ↦ inr (Has-sorted_validators v xs m)
]

get_elem?_lt : (l : List ℕ) (i : ℕ) → i < length l → (v : ℕ) × (get_elem? l i ≡ some v) × Has v l
get_elem?_lt [] i h = absurd (omega arith)
get_elem?_lt (x ∷ xs) zero h = (x, refl, inl refl)
get_elem?_lt (x ∷ xs) (suc i) h = let (v, e, m) = get_elem?_lt xs i (omega arith) in (v, e, inr m)

-- The validators as the map holds them, without an order.
abbrev pub ValidatorSet : Type 0
ValidatorSet = Quot {α = List ℕ} Permᴰ

-- `validators`, of the map.
unfoldable pub ascending : ValidatorSet → List ℕ
unfolding sorted_validators
ascending = Quot.lift (hlevel) sorted_validators (λ xs ys p. sorted_validators-Perm p)

abbrev pub set_from : List ℕ → ValidatorSet
set_from validators = Quot.mk validators

same_sorted :
    (xs ys : List ℕ) → set_from xs ≡ set_from ys → sorted_validators xs ≡ sorted_validators ys
unfolding ascending
same_sorted xs ys p = ap ascending p

same_length : (xs ys : List ℕ) → set_from xs ≡ set_from ys → length xs ≡ length ys
same_length xs ys p =
    sym (length-sorted_validators xs)
    ∙ ap length (same_sorted xs ys p)
    ∙ length-sorted_validators ys

-- Of a snapshot with validators just one is in turn: one of them, and the same for any list that
-- makes the same set.
pub inturn_one :
    (s : Snapshot)
    → s.validators ≢ []
    → (v : ℕ) × Has v s.validators
      × ((validators : List ℕ) (w : ℕ)
          → set_from s.validators ≡ set_from validators
          → inturn (record s { validators = validators }) w ≡ ok (v == w))
unfolding inturn
inturn_one s some_left = by_validators s.validators refl
  where
    by_validators :
        (vs : List ℕ)
        → s.validators ≡ vs
        → (v : ℕ) × Has v s.validators
          × ((validators : List ℕ) (w : ℕ)
              → set_from s.validators ≡ set_from validators
              → inturn (record s { validators = validators }) w ≡ ok (v == w))
    by_validators [] e = absurd (some_left e)
    by_validators (x ∷ xs) e =
        let count = length s.validators in
        let positive : count ≢ 0 = λ z. omega (arith, ap length e, z) in
        let len = length-sorted_validators s.validators in
        let (v, at, m) =
          get_elem?_lt (sorted_validators s.validators) (add64 s.number 1 % count)
            (omega (arith, positive, len)) in
        (
          v,
          Has-sorted_validators v s.validators m,
          λ validators w p.
              rw
                (
                  inturn,
                  ← same_length s.validators validators p,
                  ← same_sorted s.validators validators p,
                  ==_ne count 0 positive,
                  at,
                )
                refl,
        )
