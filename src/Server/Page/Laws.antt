-- ===== src/Server/Page/Laws.antt =====
-- What a page holds, and the requests that make the slice panic.
use xiaoya_qwen.Prelude.{
  ℕ, zero, suc, ◌+◌, ◌*◌, ◌-◌, ◌^◌, ◌≤◌, ◌<◌, List, [], ◌∷◌, ◌++◌, Option, none, some, ltb,
  if◌then◌else◌, length, length-drop, ltb→lt, take, drop, ◌≡◌, refl, sym, ap, ◌∙◌, arith,
  Bool-cases, inl, inr,
}
use xiaoya_qwen.Prelude.Int.{
  int64-mod_negative, pos, negsuc, int_lt, int_add, int_sub, int_mul, int_sub-pos, int_mul-pos,
  int_add-pos,
}
use xiaoya_qwen.Server.Page.{validate, max_int, slice, pagination}

drop-all : {A : Type 0} (n : ℕ) (xs : List A) → length xs ≤ n → drop n xs ≡ []
drop-all zero [] h = refl
drop-all (suc n) [] h = refl
drop-all zero (x ∷ xs) h = absurd (omega arith)
drop-all (suc n) (x ∷ xs) h = drop-all n xs (omega arith)

take-all : {A : Type 0} (n : ℕ) (xs : List A) → length xs ≤ n → take n xs ≡ xs
take-all zero [] h = refl
take-all (suc n) [] h = refl
take-all zero (x ∷ xs) h = absurd (omega arith)
take-all (suc n) (x ∷ xs) h = ap (λ r. x ∷ r) (take-all n xs (omega arith))

take-nil : {A : Type 0} (n : ℕ) → take {A = A} n [] ≡ []
take-nil zero = refl
take-nil (suc n) = refl

-- The part of the objects that a page shows.
abbrev pub page_of : {A : Type 0} → ℕ → ℕ → List A → List A
page_of i k objs = take k (drop (i * k) objs)

page_start :
    (i k : ℕ)
    → i < 2 ^ 62
    → k < 2 ^ 63
    → (i + 1) * k < 2 ^ 63
    → int_mul (int_sub (pos (i + 1)) (pos 1)) (pos k) ≡ pos (i * k)
page_start i k hi hk h =
    ap (λ r. int_mul r (pos k))
      (int_sub-pos (i + 1) 1 (omega arith) (omega arith) ∙ ap pos (omega arith))
    ∙ int_mul-pos i k (omega arith) hk (omega arith)

page_end : (i k : ℕ) → (i + 1) * k < 2 ^ 63 → int_add (pos (i * k)) (pos k) ≡ pos (i * k + k)
page_end i k h = int_add-pos (i * k) k (omega arith)

module _ {A : Type 0} (objs : List A) where
  -- The end is beyond the objects, or it is not.
  slice-page :
      (start end k : ℕ)
      → start ≤ length objs
      → end ≡ start + k
      → slice objs
          (pos start)
          (if int_lt (pos (length objs)) (pos end) then pos (length objs) else pos end)
        ≡ some (take k (drop start objs))
  unfolding slice
  slice-page start end k h e =
      let rest = λ (n : ℕ) (q : length objs ≤ start + n).
        take-all n (drop start objs) (omega (arith, length-drop start objs)) in
      elim (Bool-cases (ltb (length objs) end)) [
        | inl over ↦ rw over (
            ground (
              arith,
              rest k (omega (arith, ltb→lt _ _ over)),
              rest (length objs - start) (omega arith),
            ))
        | inr fits ↦ rw (fits, e) (ground arith)
      ]

  -- A page number and a page size whose product stays in range give the part of the objects that
  -- they stand for, empty behind the last page, and the total.
  pub pagination-page_of :
      (i k : ℕ)
      → i < 2 ^ 62
      → k < 2 ^ 63
      → (i + 1) * k < 2 ^ 63
      → pagination objs (record { page = pos (i + 1); per_page = pos k })
        ≡ some (length objs, page_of i k objs)
  unfolding pagination
  pagination-page_of i k hi hk h =
      rw (page_start i k hi hk h, page_end i k h)
        (elim (Bool-cases (ltb (length objs) (i * k))) [
          | inl over ↦
              rw (over, drop-all (i * k) objs (omega (arith, ltb→lt _ _ over)), take-nil {A = A} k)
          | inr fits ↦ rw (fits, slice-page (i * k) (i * k + k) k (ground arith) refl)
        ])

take-add : {A : Type 0} (k n : ℕ) (xs : List A) → take k xs ++ take n (drop k xs) ≡ take (k + n) xs
take-add zero n xs = ap (λ m. take m xs) (omega arith)
take-add (suc k) n [] = rw (take-nil n, take-nil (suc k + n))
take-add (suc k) n (x ∷ xs) =
    ap (λ r. x ∷ r) (take-add k n xs)
    ∙ (let e : suc (k + n) ≡ suc k + n = omega arith in ap (λ m. take m (x ∷ xs)) e)

drop-nil : {A : Type 0} (n : ℕ) → drop {A = A} n [] ≡ []
drop-nil zero = refl
drop-nil (suc n) = refl

drop-add : {A : Type 0} (k n : ℕ) (xs : List A) → drop k (drop n xs) ≡ drop (n + k) xs
drop-add k zero xs = ap (λ m. drop m xs) (omega arith)
drop-add k (suc n) [] = rw (drop-nil k, drop-nil (suc n + k))
drop-add k (suc n) (x ∷ xs) =
    drop-add k n xs ∙ (let e : suc (n + k) ≡ suc n + k = omega arith in ap (λ m. drop m (x ∷ xs)) e)

-- The objects of the pages after the `i`-th, `m` of them, one request after another.
unfoldable pub read_pages : {A : Type 0} → ℕ → ℕ → ℕ → List A → Option (List A)
read_pages zero i k objs = some []
read_pages (suc m) i k objs =
    let rest = read_pages m (i + 1) k objs in
    elim (pagination objs (record { page = pos (i + 1); per_page = pos k })) [
      | none ↦ none
      | some (total, p) ↦ elim rest [ none ↦ none | some ps ↦ some (p ++ ps) ]
    ]

le_mul : (a k : ℕ) → 0 < k → a ≤ a * k
le_mul zero k h = omega arith
le_mul (suc a) k h = omega (arith, le_mul a k h)

read_step :
    {A : Type 0} (objs : List A) (m i k : ℕ) {total : ℕ} {p ps : List A}
    → pagination objs (record { page = pos (i + 1); per_page = pos k }) ≡ some (total, p)
    → read_pages m (i + 1) k objs ≡ some ps
    → read_pages (suc m) i k objs ≡ some (p ++ ps)
unfolding read_pages
read_step objs m i k h r = ground arith

joined_pages :
    {A : Type 0} (objs : List A) (m i k : ℕ)
    → page_of i k objs ++ take (m * k) (drop ((i + 1) * k) objs)
      ≡ take (suc m * k) (drop (i * k) objs)
joined_pages objs m i k =
    let next : i * k + k ≡ (i + 1) * k = omega arith in
    let size : k + m * k ≡ suc m * k = omega arith in
    ap (λ r. page_of i k objs ++ take (m * k) r)
      (ap (λ n. drop n objs) (sym next) ∙ sym (drop-add k (i * k) objs))
    ∙ take-add k (m * k) (drop (i * k) objs)
    ∙ ap (λ n. take n (drop (i * k) objs)) size

module _ {A : Type 0} (objs : List A) (k : ℕ) (hk : 0 < k) where
  read_pages_from :
      (m i : ℕ)
      → (i + m) * k < 2 ^ 62
      → read_pages m i k objs ≡ some (take (m * k) (drop (i * k) objs))
  unfolding read_pages
  read_pages_from zero i h =
      (let e : 0 ≡ 0 * k = omega arith in ap (λ n. some (take n (drop (i * k) objs))) e)
  read_pages_from (suc m) i h =
      read_step objs m i k
        (pagination-page_of objs i k (omega (arith, le_mul i k hk)) (omega arith) (omega arith))
        (read_pages_from m (i + 1) (omega arith))
      ∙ ap some (joined_pages objs m i k)

  -- Reading pages of `k` objects one after another, until they cover the listing, gives the listing:
  -- every object once and in order.
  pub read_pages-all :
      (m : ℕ) → length objs ≤ m * k → m * k < 2 ^ 62 → read_pages m 0 k objs ≡ some objs
  read_pages-all m fits h =
      read_pages_from m 0 (omega arith)
      ∙ ap some (
          let e : 0 * k ≡ 0 = omega arith in
          ap (λ n. take (m * k) (drop n objs)) e ∙ take-all (m * k) objs fits)

validated :
    (j : ℕ)
    → validate (record { page = pos (2 * j + 3); per_page = pos 0 })
      ≡ record { page = pos (2 * j + 3); per_page = max_int }
unfolding validate
validated j = ground arith

wrapped :
    (j : ℕ)
    → 2 * j + 3 < 2 ^ 63
    → int_mul (int_sub (pos (2 * j + 3)) (pos 1)) max_int ≡ negsuc (2 * j + 1)
unfolding int_mul
wrapped j h = rw (int_sub-pos (2 * j + 3) 1 (omega arith) h) (
    int64-mod_negative _ (2 ^ 64 - (2 * j + 2)) (omega arith) (omega arith)
    ∙ ap negsuc (omega arith))

-- A request for a page 3, 5, 7, … with no page size (0 stands for all) makes the product of the page
-- number and the largest int wrap around below zero, and the slice panics, whatever the listing.
pub pagination-panics :
    {A : Type 0} (objs : List A) (j : ℕ)
    → 2 * j + 3 < 2 ^ 63
    → pagination objs (validate (record { page = pos (2 * j + 3); per_page = pos 0 })) ≡ none
unfolding pagination slice
pagination-panics objs j h = rw (validated j, wrapped j h)
