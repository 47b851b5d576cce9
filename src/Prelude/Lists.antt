-- ===== src/Prelude/Lists.antt =====
-- Lists measured and indexed by native numbers, and predicates on lists by recursion.
use Prim.Native.Nat.{ℕ, zero, suc, ◌+◌, ◌-◌, min}
use mathlib.Core.Path.{◌≡◌, refl, ap, sym, subst}
use mathlib.Core.Logic.{◌⊎◌, inl, inr}
use mathlib.Core.List.{List, [], ◌∷◌, ◌++◌, reverse, reverse_aux}
use mathlib.Core.Option.{Option, none, some}
use native.Mathlib.Omega.{arith}

module _ {ℓ} {A : Type ℓ} where
  abbrev pub length : List A → ℕ
  length [] = 0
  length (x ∷ xs) = suc (length xs)

  abbrev pub get_elem? : List A → ℕ → Option A
  get_elem? [] i = none
  get_elem? (x ∷ xs) zero = some x
  get_elem? (x ∷ xs) (suc i) = get_elem? xs i

  abbrev pub take : ℕ → List A → List A
  take zero xs = []
  take (suc n) [] = []
  take (suc n) (x ∷ xs) = x ∷ take n xs

  abbrev pub drop : ℕ → List A → List A
  drop zero xs = xs
  drop (suc n) [] = []
  drop (suc n) (x ∷ xs) = drop n xs

  pub length-append : (xs ys : List A) → length (xs ++ ys) ≡ length xs + length ys
  length-append [] ys = omega arith
  length-append (x ∷ xs) ys = omega (arith, length-append xs ys)

  pub take-append-drop : (n : ℕ) (xs : List A) → take n xs ++ drop n xs ≡ xs
  take-append-drop zero xs = refl
  take-append-drop (suc n) [] = refl
  take-append-drop (suc n) (x ∷ xs) = ap (λ r. x ∷ r) (take-append-drop n xs)

  pub length-take : (n : ℕ) (xs : List A) → length (take n xs) ≡ min n (length xs)
  length-take zero xs = omega arith
  length-take (suc n) [] = omega arith
  length-take (suc n) (x ∷ xs) = omega (arith, length-take n xs)

  pub length-drop : (n : ℕ) (xs : List A) → length (drop n xs) ≡ length xs - n
  length-drop zero xs = omega arith
  length-drop (suc n) [] = omega arith
  length-drop (suc n) (x ∷ xs) = omega (arith, length-drop n xs)

pub data Never {ℓ} : Type ℓ where

-- An element is in a list; each way to be in it is kept.
abbrev pub In {ℓ} : {A : Type ℓ} → A → List A → Type ℓ
In a [] = Never
In a (x ∷ xs) = (a ≡ x) ⊎ In a xs

abbrev pub All {ℓ κ} : {A : Type ℓ} → (A → Type κ) → List A → Type κ
All P [] = Unit
All P (x ∷ xs) = P x × All P xs

module _ {ℓ} {A : Type ℓ} where
  pub In-append_left : (a : A) (xs ys : List A) → In a xs → In a (xs ++ ys)
  In-append_left a [] ys h = elim h [ ]
  In-append_left a (x ∷ xs) ys (inl e) = inl e
  In-append_left a (x ∷ xs) ys (inr h) = inr (In-append_left a xs ys h)

  pub In-append_right : (a : A) (xs ys : List A) → In a ys → In a (xs ++ ys)
  In-append_right a [] ys h = h
  In-append_right a (x ∷ xs) ys h = inr (In-append_right a xs ys h)

  pub In-append : (a : A) (xs ys : List A) → In a (xs ++ ys) → In a xs ⊎ In a ys
  In-append a [] ys h = inr h
  In-append a (x ∷ xs) ys (inl e) = inl (inl e)
  In-append a (x ∷ xs) ys (inr h) = elim (In-append a xs ys h) [
    | inl k ↦ inl (inr k)
    | inr k ↦ inr k
  ]

module _ {ℓ κ} {A : Type ℓ} (P : A → Type κ) where
  pub All-append : (xs ys : List A) → All P xs → All P ys → All P (xs ++ ys)
  All-append [] ys hx hy = hy
  All-append (x ∷ xs) ys hx hy = (hx.0, All-append xs ys hx.1 hy)

  -- What holds of the head and of the members of the tail holds of every member.
  pub In-cons :
      (a : A) (xs : List A) → P a → ((x : A) → In x xs → P x) → (x : A) → In x (a ∷ xs) → P x
  In-cons a xs h t x (inl e) = subst P (sym e) h
  In-cons a xs h t x (inr i) = t x i

  pub All-In : (xs : List A) (a : A) → All P xs → In a xs → P a
  All-In [] a h i = elim i [ ]
  All-In (x ∷ xs) a h (inl e) = subst P (sym e) h.0
  All-In (x ∷ xs) a h (inr i) = All-In xs a h.1 i

pub List-cases {ℓ} :
    {A : Type ℓ} (xs : List A) → (xs ≡ []) ⊎ ((y : A) × (ys : List A) × (xs ≡ y ∷ ys))
List-cases [] = inl refl
List-cases (x ∷ xs) = inr (x, xs, refl)

pub In-one {ℓ} : {A : Type ℓ} (a b : A) → In a (b ∷ []) → a ≡ b
In-one a b (inl e) = e
In-one a b (inr i) = elim i [ ]

-- Reversing a list keeps its members.
module _ {ℓ} {A : Type ℓ} (a : A) where
  pub In-reverse_aux : (xs ys : List A) → In a xs ⊎ In a ys → In a (reverse_aux xs ys)
  In-reverse_aux [] ys (inl i) = elim i [ ]
  In-reverse_aux [] ys (inr i) = i
  In-reverse_aux (x ∷ xs) ys (inl (inl e)) = In-reverse_aux xs (x ∷ ys) (inr (inl e))
  In-reverse_aux (x ∷ xs) ys (inl (inr i)) = In-reverse_aux xs (x ∷ ys) (inl i)
  In-reverse_aux (x ∷ xs) ys (inr i) = In-reverse_aux xs (x ∷ ys) (inr (inr i))

  pub reverse_aux-In : (xs ys : List A) → In a (reverse_aux xs ys) → In a xs ⊎ In a ys
  reverse_aux-In [] ys i = inr i
  reverse_aux-In (x ∷ xs) ys i = elim (reverse_aux-In xs (x ∷ ys) i) [
    | inl j ↦ inl (inr j)
    | inr (inl e) ↦ inl (inl e)
    | inr (inr j) ↦ inr j
  ]

  pub reverse-In : (xs : List A) → In a (reverse xs) → In a xs
  reverse-In xs i = elim (reverse_aux-In xs [] i) [ inl j ↦ j | inr j ↦ elim j [ ] ]

pub get_elem?-In {ℓ} :
    {A : Type ℓ} (xs : List A) (i : ℕ) {a : A} → get_elem? xs i ≡ some a → In a xs
get_elem?-In [] i h = cc
get_elem?-In (x ∷ xs) zero h = inl (cc)
get_elem?-In (x ∷ xs) (suc i) h = inr (get_elem?-In xs i h)
