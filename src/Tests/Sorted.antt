-- ===== src/Tests/Sorted.antt =====
-- Cached listings that are sorted by name, by insertion.
use xiaoya_qwen.Prelude.{
  ℕ, suc, In, List, [], ◌∷◌, ◌++◌, Bytes, Bool, true, false, none, some, beq, beq-ne, ltb, codes,
  length, if◌then◌else◌, ◌≡◌, ◌≢◌, ◌↔◌, ◌⊎◌, refl, arith, inl, inr, Bool-cases,
}
use xiaoya_qwen.Model.Objects.{Listed, Sorter}
use xiaoya_qwen.Model.Objects.Sorting.{sort_files, file_less}
use xiaoya_qwen.Op.Files.Listing.{add_obj, del_obj, has_name, ends_like}
use xiaoya_qwen.Op.Files.Listing.Map.{IsListing}
use xiaoya_qwen.Op.Files.Listing.Refinement.{add, Allowed}
use xiaoya_qwen.Op.Files.Shared.{
  Shared, last_of, load_shared, listing, add_shared, del_shared, sort_shared,
}
use xiaoya_qwen.Op.Files.Shared.Plain.{load_shared-Caches}
use xiaoya_qwen.Op.Files.Shared.Counts.{KeepsNames, count}
use xiaoya_qwen.Op.Files.Shared.Settled.{loads, sorts, edits, perform}
use xiaoya_qwen.Op.Files.Shared.Sorts.{Runs, begins, goes_on, Shows, effect, run-Shows}
use xiaoya_qwen.Op.Files.Shared.Lost.{sort_shared-loses}
use xiaoya_qwen.Tests.Objects.{file}

put_in : (Listed → Listed → Bool) → Listed → List Listed → List Listed
put_in lt x [] = x ∷ []
put_in lt x (y ∷ ys) = let rest = put_in lt x ys in if lt x y then x ∷ y ∷ ys else y ∷ rest

put_all : (Listed → Listed → Bool) → List Listed → List Listed
unfolding put_in
put_all lt [] = []
put_all lt (x ∷ xs) = put_in lt x (put_all lt xs)

put_in-In :
    (lt : Listed → Listed → Bool) (x : Listed) (ys : List Listed) (o : Listed)
    → In o (put_in lt x ys) ↔ (o ≡ x) ⊎ In o ys
unfolding put_in
put_in-In lt x [] o = ((λ i. i), λ i. i)
put_in-In lt x (y ∷ ys) o =
    let (to, from) = put_in-In lt x ys o in
    elim (Bool-cases (lt x y)) [
      | inl h ↦ rw h ((λ i. i), λ i. i)
      | inr h ↦ rw h (
        (λ i. elim i [
          | inl e ↦ inr (inl e)
          | inr j ↦ elim (to j) [ inl e ↦ inl e | inr k ↦ inr (inr k) ]
        ]),
        λ i. elim i [
          | inl e ↦ inr (from (inl e))
          | inr j ↦ elim j [ inl e ↦ inl e | inr k ↦ inr (from (inr k)) ]
        ],
      )
    ]

put_all-In :
    (lt : Listed → Listed → Bool) (os : List Listed) (o : Listed) → In o (put_all lt os) ↔ In o os
unfolding put_all
put_all-In lt [] o = ((λ i. i), λ i. i)
put_all-In lt (x ∷ xs) o =
    let (to, from) = put_all-In lt xs o in
    let (split, join) = put_in-In lt x (put_all lt xs) o in
    (
      (λ i. elim (split i) [ inl e ↦ inl e | inr j ↦ inr (to j) ]),
      λ i. join (elim i [ inl e ↦ inl e | inr j ↦ inr (from j) ]),
    )

-- The first byte of a name.
abbrev first : Bytes → ℕ
first [] = 0
first (b ∷ s) = b

abbrev by_insertion : Sorter
by_insertion = record {
  slice = put_all;
  slice_stable = put_all;
  less = λ m n. ltb (first m) (first n);
  slice-In = put_all-In;
  slice_stable-In = put_all-In;
}

put_in-length :
    (lt : Listed → Listed → Bool) (x : Listed) (ys : List Listed)
    → length (put_in lt x ys) ≡ suc (length ys)
unfolding put_in
put_in-length lt x [] = refl
put_in-length lt x (y ∷ ys) = ground (arith, put_in-length lt x ys)

put_in-count :
    (lt : Listed → Listed → Bool) (x : Listed) (ys : List Listed) (n : Bytes)
    → count n (put_in lt x ys) ≡ count n (x ∷ ys)
unfolding put_in count
put_in-count lt x [] n = refl
put_in-count lt x (y ∷ ys) n = ground (arith, put_in-count lt x ys n)

put_all-length :
    (lt : Listed → Listed → Bool) (os : List Listed) → length (put_all lt os) ≡ length os
unfolding put_all
put_all-length lt [] = refl
put_all-length lt (x ∷ xs) = omega (arith, put_in-length lt x (put_all lt xs), put_all-length lt xs)

put_all-count :
    (lt : Listed → Listed → Bool) (n : Bytes) (os : List Listed)
    → count n (put_all lt os) ≡ count n os
unfolding put_all count
put_all-count lt n [] = refl
put_all-count lt n (x ∷ xs) =
    ground (arith, put_in-count lt x (put_all lt xs) n, put_all-count lt n xs)

by_name-KeepsNames : KeepsNames (sort_files by_insertion (codes "name") (codes "asc"))
unfolding sort_files beq
by_name-KeepsNames = record {
  lengths = put_all-length (file_less by_insertion (codes "name") (codes "asc"));
  counts = put_all-count (file_less by_insertion (codes "name") (codes "asc"));
}

abbrev entry : Bytes → Listed
entry n = record { obj = file n; name = n }

abbrev two : List Listed
two = entry (codes "b") ∷ entry (codes "c") ∷ []

-- Nothing is cached, and nothing is to be sorted.
abbrev empty : Shared
empty = record {
  arrays = λ a. record { cells = []; spare = 0 };
  next = 0;
  cached = none;
  pending = none;
}

abbrev loaded : Shared
loaded = load_shared two 0 empty

two-IsListing : IsListing two
unfolding IsListing has_name beq
two-IsListing = (refl, (refl, tt))

fresh : has_name two (codes "a") ≡ false
unfolding has_name beq
fresh = refl

deletable : has_name (add_obj two (entry (codes "a"))) (codes "b") ≡ true
unfolding add_obj has_name ends_like beq
deletable = refl

last_is : last_of (add_obj two (entry (codes "a"))) ≡ entry (codes "a") ∷ []
unfolding last_of add_obj has_name ends_like beq
last_is = refl

sorted_is :
    sort_files by_insertion
      (codes "name")
      (codes "asc")
      (del_obj (add_obj two (entry (codes "a"))) (entry (codes "b")) ++ entry (codes "a") ∷ [])
    ≡ (entry (codes "a") ∷ entry (codes "a") ∷ []) ++ entry (codes "c") ∷ []
unfolding sort_files file_less put_all add_obj del_obj has_name ends_like beq
sorted_is = refl

apart : codes "c" ≢ codes "a"
apart = beq-ne (codes "c") (codes "a") (unfold beq in refl)

-- The name "c" is lost, and "a" is there twice.
sort_shared-loses_example :
    (listing (
        sort_shared by_insertion
          (codes "name")
          (codes "asc")
          (del_shared (entry (codes "b")) (add_shared (λ n. n) true (entry (codes "a")) loaded)))
      ≡ some (entry (codes "a") ∷ entry (codes "a") ∷ []))
    × (has_name (del_obj (add_obj two (entry (codes "a"))) (entry (codes "b"))) (codes "c") ≡ true)
    × (has_name (entry (codes "a") ∷ entry (codes "a") ∷ []) (codes "c") ≡ false)
sort_shared-loses_example =
    sort_shared-loses by_insertion (codes "name") (codes "asc") by_name-KeepsNames (λ n. n) loaded
      two (entry (codes "a") ∷ entry (codes "a") ∷ []) (entry (codes "a")) (entry (codes "b"))
      (entry (codes "a")) (entry (codes "c")) (load_shared-Caches two 0 empty) two-IsListing fresh
      deletable last_is sorted_is apart

abbrev added_sorted : Shared
added_sorted =
    perform (λ n. n) true by_insertion (codes "name") (codes "asc") sorts
      (perform (λ n. n) true by_insertion (codes "name") (codes "asc")
        (edits (add (entry (codes "a"))))
        (perform (λ n. n) true by_insertion (codes "name") (codes "asc") (loads two 0) empty))

added_sorted-Runs :
    Runs
      (λ n. n)
      true
      by_insertion
      (codes "name")
      (codes "asc")
      by_name-KeepsNames
      added_sorted
      (effect sorts (effect (edits (add (entry (codes "a")))) (effect (loads two 0) none)))
unfolding effect Allowed
added_sorted-Runs =
    goes_on sorts _ _
      (goes_on (edits (add (entry (codes "a")))) _ _
        (goes_on (loads two 0) empty none (begins empty refl refl) tt two-IsListing) tt tt)
      tt tt

run-Shows_example :
    Shows
      (listing added_sorted)
      (effect sorts (effect (edits (add (entry (codes "a")))) (effect (loads two 0) none)))
run-Shows_example =
    run-Shows (λ n. n) true by_insertion (codes "name") (codes "asc") by_name-KeepsNames
      added_sorted
      (effect sorts (effect (edits (add (entry (codes "a")))) (effect (loads two 0) none)))
      added_sorted-Runs
