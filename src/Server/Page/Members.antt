-- ===== src/Server/Page/Members.antt =====
-- The objects of a page are objects of the list.
use xiaoya_qwen.Prelude.{
  ℕ, zero, suc, ◌-◌, List, [], ◌∷◌, Bool, true, false, ◌&&◌, Option, none, some, ◌≡◌, refl, subst,
  arith, leb, if◌then◌else◌, length, take, drop, In, inl, inr, Bool-cases,
}
use xiaoya_qwen.Prelude.Int.{ℤ, pos, negsuc, int_lt, int_add, int_sub, int_mul}
use xiaoya_qwen.Server.Page.{PageReq, slice, pagination}

-- What pagination makes of the page.
page_of_slice : {A : Type 0} → ℕ → Bool → Option (List A) → Option (ℕ × List A)
page_of_slice total over page =
    if over then some (total, []) else elim page [ none ↦ none | some p ↦ some (total, p) ]

page_of_slice-total :
    {A : Type 0} (xs ys : List A) (total : ℕ) (over : Bool) (page : Option (List A))
    → page_of_slice (length xs) over page ≡ some (total, ys)
    → total ≡ length xs
unfolding page_of_slice
page_of_slice-total xs ys total true page h = cc
page_of_slice-total xs ys total false none h = cc
page_of_slice-total xs ys total false (some zs) h = cc

pub pagination-total :
    {A : Type 0} (xs ys : List A) (req : PageReq) (total : ℕ)
    → pagination xs req ≡ some (total, ys)
    → total ≡ length xs
unfolding pagination page_of_slice
pagination-total xs ys req total h = page_of_slice-total xs ys total _ _ h

module _ {A : Type 0} (x : A) where
  take-In : (n : ℕ) (xs : List A) → In x (take n xs) → In x xs
  take-In zero xs i = elim i [ ]
  take-In (suc n) [] i = elim i [ ]
  take-In (suc n) (y ∷ xs) (inl e) = inl e
  take-In (suc n) (y ∷ xs) (inr i) = inr (take-In n xs i)

  drop-In : (n : ℕ) (xs : List A) → In x (drop n xs) → In x xs
  drop-In zero xs i = i
  drop-In (suc n) [] i = elim i [ ]
  drop-In (suc n) (y ∷ xs) i = inr (drop-In n xs i)

  slice-In : (xs ys : List A) (i j : ℤ) → slice xs i j ≡ some ys → In x ys → In x xs
  unfolding slice
  slice-In xs ys (pos i) (pos j) h m = elim (Bool-cases (leb i j && leb j (length xs))) [
    | inl within ↦
        let same : ys ≡ take (j - i) (drop i xs) = ground arith in
        drop-In i xs (take-In (j - i) (drop i xs) (subst (In x) same m))
    | inr outside ↦ absurd (ground arith)
  ]
  slice-In xs ys (pos i) (negsuc n) h m = absurd (cc)
  slice-In xs ys (negsuc n) j h m = absurd (cc)

  page_of_slice-In :
      (xs ys : List A) (total : ℕ) (over : Bool) (page : Option (List A))
      → ((zs : List A) → page ≡ some zs → In x zs → In x xs)
      → page_of_slice (length xs) over page ≡ some (total, ys)
      → In x ys
      → In x xs
  unfolding page_of_slice
  page_of_slice-In xs ys total true page from h i =
      let same : ys ≡ [] = cc in elim (subst (In x) same i) [ ]
  page_of_slice-In xs ys total false none from h i = absurd (cc)
  page_of_slice-In xs ys total false (some zs) from h i =
      let same : ys ≡ zs = cc in from zs refl (subst (In x) same i)

  pub pagination-In :
      (xs ys : List A) (req : PageReq) (total : ℕ)
      → pagination xs req ≡ some (total, ys)
      → In x ys
      → In x xs
  unfolding pagination page_of_slice
  pagination-In xs ys req total h i =
      let start = int_mul (int_sub req.page (pos 1)) req.per_page in
      let end = int_add start req.per_page in
      let end' = if int_lt (pos (length xs)) end then pos (length xs) else end in
      page_of_slice-In xs ys total _ _ (λ zs e j. slice-In xs zs start end' e j) h i
