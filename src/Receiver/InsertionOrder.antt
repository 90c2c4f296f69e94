-- ===== src/Receiver/InsertionOrder.antt =====
-- The order in which receipts enter their trie (`newMTPWithReceipts`, chain/bsc2/receiver.go).
use btp2_bsc.Base.{
  subst, ℕ, zero, suc, ◌+◌, ◌-◌, ◌≤◌, ◌<◌, ◌≡◌, ◌↔◌, refl, ap, ◌∙◌, ◌⊎◌, inl, inr, List, ◌∷◌, ◌++◌,
  ltb, length, arith, Bool-cases, Has, Has-append_left, Has-append_right, Has-append_cases,
  length-append,
}
use btp2_bsc.Receiver.Relay.{count_up, insertion_order}

count_up_iff : (n i k : ℕ) → Has k (count_up n i) ↔ ((i ≤ k) × (k < i + n))
unfolding count_up
count_up_iff zero i k = ground arith
count_up_iff (suc n) i k = ground (arith, count_up_iff n (i + 1) k)

length-count_up : (n i : ℕ) → length (count_up n i) ≡ n
unfolding count_up
length-count_up zero i = refl
length-count_up (suc n) i = omega (arith, length-count_up n (i + 1))

Has-append_iff : (k : ℕ) (xs ys : List ℕ) → Has k (xs ++ ys) ↔ (Has k xs ⊎ Has k ys)
Has-append_iff k xs ys = (
  Has-append_cases k xs ys,
  λ h. elim h [ inl l ↦ Has-append_left k xs ys l | inr r ↦ Has-append_right k xs ys r ],
)

three_parts :
    (x y : ℕ)
    → (length (count_up x 1 ++ 0 ∷ count_up y 128) ≡ suc (x + y))
      × ((k : ℕ)
          → Has k (count_up x 1 ++ 0 ∷ count_up y 128)
            ↔ ((k < suc x) ⊎ ((128 ≤ k) × (k < 128 + y))))
three_parts x y = (
  omega (
    arith,
    length-append {0} (count_up x 1) (0 ∷ count_up y 128),
    length-count_up x 1,
    length-count_up y 128,
  ),
  λ k. ground (
    arith,
    Has-append_iff k (count_up x 1) (0 ∷ count_up y 128),
    count_up_iff x 1 k,
    count_up_iff y 128 k,
  ),
)

insertion_order_few :
    (n : ℕ) → n < 128 → insertion_order (suc n) ≡ count_up n 1 ++ 0 ∷ count_up 0 128
unfolding insertion_order
insertion_order_few n h = ground arith

insertion_order_many : (n : ℕ) → insertion_order (128 + n) ≡ count_up 127 1 ++ 0 ∷ count_up n 128
unfolding insertion_order
insertion_order_many n = ground arith

insertion_order_parts :
    (n : ℕ)
    → (n ≡ 0)
      ⊎ ((x y : ℕ) × (suc (x + y) ≡ n)
          × ((y ≡ 0) ⊎ (x ≡ 127))
          × (x < 128)
          × (insertion_order n ≡ count_up x 1 ++ 0 ∷ count_up y 128))
insertion_order_parts zero = inl refl
insertion_order_parts (suc n) = elim (Bool-cases (ltb n 128)) [
  | inl few ↦ inr (
    n,
    0,
    omega arith,
    inl refl,
    ground (arith, few),
    insertion_order_few n (ground (arith, few)),
  )
  | inr many ↦ inr (
    127,
    suc n - 128,
    ground (arith, many),
    inr refl,
    omega arith,
    subst (λ z. insertion_order z ≡ count_up 127 1 ++ 0 ∷ count_up (suc n - 128) 128)
        (ground (arith, many)) (insertion_order_many (suc n - 128)),
  )
]

-- Every receipt of a block enters the trie, and none twice: the indices put in are n many, and are
-- those below n.
pub insertion_order_all :
    (n : ℕ) → (length (insertion_order n) ≡ n) × ((k : ℕ) → Has k (insertion_order n) ↔ (k < n))
insertion_order_all n = elim (insertion_order_parts n) [
  | inl z ↦ rw z empty
  | inr (x, y, total, shape, few, parts) ↦
      let (len, members) = three_parts x y in
      (ap length parts ∙ len ∙ total, λ k. rw parts (ground (arith, members k, total, shape)))
]
  where
    empty : (length (insertion_order 0) ≡ 0) × ((k : ℕ) → Has k (insertion_order 0) ↔ (k < 0))
    empty = unfold insertion_order count_up in (refl, λ k. ground arith)
