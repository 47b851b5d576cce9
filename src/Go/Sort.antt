-- ===== src/Go/Sort.antt =====
-- The package sort, and the order of strings. `sort.Slice` is not stable, so what it does with equal
-- elements is not determined; the program sorts by keys that tell its elements apart.
use xiaoya_qwen.Prelude.{
  List, [], ◌∷◌, Bool, true, false, Bytes, ◌==◌, ltb, if◌then◌else◌, In, Bool-cases, inl, inr, ◌↔◌,
}

-- a < b on strings
unfoldable pub str_lt : Bytes → Bytes → Bool
str_lt [] [] = false
str_lt [] (b ∷ t) = true
str_lt (a ∷ s) [] = false
str_lt (a ∷ s) (b ∷ t) = if a == b then str_lt s t else ltb a b

module _ {A : Type 0} where
  unfoldable pub insert_by : (A → A → Bool) → A → List A → List A
  insert_by lt x [] = x ∷ []
  insert_by lt x (y ∷ ys) = let rest = insert_by lt x ys in if lt y x then y ∷ rest else x ∷ y ∷ ys

  -- sort.Slice(xs, lt)
  unfoldable pub sort_by : (A → A → Bool) → List A → List A
  unfolding insert_by
  sort_by lt [] = []
  sort_by lt (x ∷ xs) = insert_by lt x (sort_by lt xs)

-- Sorting keeps the members.
module _ {A : Type 0} (lt : A → A → Bool) (a : A) where
  insert_by-In : (x : A) (ys : List A) → In a (insert_by lt x ys) → In a (x ∷ ys)
  unfolding insert_by
  insert_by-In x [] i = i
  insert_by-In x (y ∷ ys) i = elim (Bool-cases (lt y x)) [
    | inl h ↦ elim (rw h at i) [
      | inl e ↦ inr (inl e)
      | inr j ↦ elim (insert_by-In x ys j) [ inl e ↦ inl e | inr k ↦ inr (inr k) ]
    ]
    | inr h ↦ rw h at i
  ]

  In-insert_by : (x : A) (ys : List A) → In a (x ∷ ys) → In a (insert_by lt x ys)
  unfolding insert_by
  In-insert_by x [] i = i
  In-insert_by x (y ∷ ys) i = elim (Bool-cases (lt y x)) [
    | inl h ↦ rw h (later (In-insert_by x ys) i)
    | inr h ↦ rw h i
  ]
    where
      later :
          (In a (x ∷ ys) → In a (insert_by lt x ys))
          → In a (x ∷ y ∷ ys)
          → In a (y ∷ insert_by lt x ys)
      later rest (inl e) = inr (rest (inl e))
      later rest (inr (inl e)) = inl e
      later rest (inr (inr k)) = inr (rest (inr k))

  pub In-sort_by : (xs : List A) → In a (sort_by lt xs) ↔ In a xs
  unfolding sort_by
  In-sort_by [] = (λ i. i, λ i. i)
  In-sort_by (x ∷ xs) = (
    λ i. elim (insert_by-In x (sort_by lt xs) i) [
      | inl e ↦ inl e
      | inr j ↦ inr ((In-sort_by xs).0 j)
    ],
    λ i. elim i [
      | inl e ↦ In-insert_by x (sort_by lt xs) (inl e)
      | inr j ↦ In-insert_by x (sort_by lt xs) (inr ((In-sort_by xs).1 j))
    ],
  )
