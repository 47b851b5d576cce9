-- ===== src/Op/Files/Shared/Slices.antt =====
-- Slices, and the cells of the arrays that they are prefixes of.
use xiaoya_qwen.Prelude.{
  ℕ, zero, suc, ◌≤◌, List, [], ◌∷◌, ◌++◌, length, length-take, length-append, take, drop, ◌≡◌, refl,
  ap, ◌∙◌, arith,
}
use xiaoya_qwen.Model.Objects.{Listed}
use xiaoya_qwen.Op.Files.Shared.{Array, Slice, value, written, overwrite}

-- A slice ends inside its array.
abbrev pub Fits : (ℕ → Array) → Slice → Type 0
Fits arrays s = s.len ≤ length (arrays s.array).cells

take_prefix : (a b : List Listed) → take (length a) (a ++ b) ≡ a
take_prefix [] b = refl
take_prefix (o ∷ a) b = ap (λ (r : List Listed). o ∷ r) (take_prefix a b)

pub length-value :
    (arrays : ℕ → Array) (s : Slice) → Fits arrays s → length (value arrays s) ≡ s.len
unfolding value
length-value arrays s f = omega (arith, f, length-take s.len (arrays s.array).cells)

-- What a written array holds.
at_written : (arrays : ℕ → Array) (a : ℕ) (x : Array) → written arrays a x a ≡ x
unfolding written
at_written arrays a x = ground arith

-- A slice of the first cells of an array that is written.
pub held-prefix :
    (arrays : ℕ → Array) (a : ℕ) (x : Array) (objs rest : List Listed) (n : ℕ)
    → x.cells ≡ objs ++ rest
    → n ≡ length objs
    → value (written arrays a x) (record { array = a; len = n }) ≡ objs
unfolding value
held-prefix arrays a x objs rest n e l =
    ap (λ (y : Array). take n y.cells) (at_written arrays a x)
    ∙ ap (take n) e
    ∙ ap (λ m. take m (objs ++ rest)) l
    ∙ take_prefix objs rest

pub held-Fits :
    (arrays : ℕ → Array) (a : ℕ) (x : Array) (n : ℕ)
    → n ≤ length x.cells
    → Fits (written arrays a x) (record { array = a; len = n })
held-Fits arrays a x n h =
    omega (arith, h, ap (λ (y : Array). length y.cells) (at_written arrays a x))

pub value-overwrite :
    (arrays : ℕ → Array) (s : Slice) (objs : List Listed) (n : ℕ)
    → n ≡ length objs
    → value (overwrite s objs arrays) (record { array = s.array; len = n }) ≡ objs
unfolding overwrite
value-overwrite arrays s objs n e =
    held-prefix arrays s.array _ objs (drop s.len (arrays s.array).cells) n refl e

take-append : (n : ℕ) (a b : List Listed) → n ≤ length a → take n (a ++ b) ≡ take n a
take-append zero a b h = refl
take-append (suc n) [] b h = absurd (omega (arith, h))
take-append (suc n) (o ∷ a) b h =
    ap (λ (r : List Listed). o ∷ r) (take-append n a b (omega (arith, h)))

-- A shorter slice than was written.
pub value-front :
    (arrays : ℕ → Array) (s : Slice) (objs : List Listed) (n : ℕ)
    → n ≤ length objs
    → value (overwrite s objs arrays) (record { array = s.array; len = n }) ≡ take n objs
unfolding value overwrite
value-front arrays s objs n h =
    ap (λ (y : Array). take n y.cells) (at_written arrays s.array _)
    ∙ take-append n objs (drop s.len (arrays s.array).cells) h

pub Fits-overwrite :
    (arrays : ℕ → Array) (s : Slice) (objs : List Listed) (n : ℕ)
    → n ≤ length objs
    → Fits (overwrite s objs arrays) (record { array = s.array; len = n })
unfolding overwrite
Fits-overwrite arrays s objs n h =
    let rest = drop s.len (arrays s.array).cells in
    held-Fits arrays s.array _ n (omega (arith, h, length-append objs rest))

pub take-all : (os : List Listed) (n : ℕ) → length os ≤ n → take n os ≡ os
take-all [] zero h = refl
take-all [] (suc n) h = refl
take-all (o ∷ os) zero h = absurd (omega (arith, h))
take-all (o ∷ os) (suc n) h = ap (λ (r : List Listed). o ∷ r) (take-all os n (omega (arith, h)))
