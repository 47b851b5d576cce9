-- ===== src/Op/Files/Shared/Counts.antt =====
-- How often a listing has a name, and what a sort keeps.
use xiaoya_qwen.Prelude.{
  ℕ, suc, ◌+◌, ◌≤◌, In, List, [], ◌∷◌, ◌++◌, Bytes, true, false, none, some, beq, beq_iff, beq_refl,
  length, if◌then◌else◌, ◌≡◌, ◌↔◌, refl, sym, ap, ◌∙◌, arith, Bool-cases, Option-cases, inl, inr,
}
use xiaoya_qwen.Model.Objects.{Listed, Sorter}
use xiaoya_qwen.Model.Objects.Sorting.{sort_files, sort_files-In}
use xiaoya_qwen.Op.Files.Listing.{has_name}
use xiaoya_qwen.Op.Files.Listing.Map.{find, IsListing, find-has_name}
use xiaoya_qwen.Op.Files.Listing.Refinement.{Folder, Represents}

unfoldable pub count : Bytes → List Listed → ℕ
count n [] = 0
count n (o ∷ os) = let rest = count n os in if beq o.name n then suc rest else rest

-- A sort only moves the objects.
pub record KeepsNames (f : List Listed → List Listed) : Type 0 where
  pub lengths : (os : List Listed) → length (f os) ≡ length os
  pub counts : (n : Bytes) (os : List Listed) → count n (f os) ≡ count n os

pub count-append : (n : Bytes) (os ps : List Listed) → count n (os ++ ps) ≡ count n os + count n ps
unfolding count
count-append n [] ps = omega arith
count-append n (o ∷ os) ps = ground (arith, count-append n os ps)

pub has_name-count : (os : List Listed) (n : Bytes) → (has_name os n ≡ false) ↔ (count n os ≡ 0)
unfolding has_name count
has_name-count [] n = ((λ h. refl), λ h. refl)
has_name-count (o ∷ os) n =
    let (to, from) = has_name-count os n in
    elim (Bool-cases (beq o.name n)) [
      | inl e ↦ rw e ((λ h. cc), λ h. absurd (omega (arith, h)))
      | inr e ↦ rw e (to, from)
    ]

pub IsListing-count : (os : List Listed) (n : Bytes) → IsListing os → count n os ≤ 1
unfolding IsListing count
IsListing-count [] n h = omega arith
IsListing-count (o ∷ os) n h = ground (
  arith,
  IsListing-count os n h.1,
  (has_name-count os o.name).0 h.0,
  ap (λ m. count m os) ((beq_iff o.name n).0 _),
)

pub count-IsListing : (os : List Listed) → ((n : Bytes) → count n os ≤ 1) → IsListing os
unfolding IsListing count
count-IsListing [] h = tt
count-IsListing (o ∷ os) h = (
  (has_name-count os o.name).1 (ground (arith, h o.name, beq_refl o.name)),
  count-IsListing os (λ n. ground (arith, h n)),
)

find-none : (os : List Listed) (n : Bytes) → find os n ≡ none → has_name os n ≡ false
unfolding find has_name
find-none [] n h = refl
find-none (o ∷ os) n h = ground (arith, find-none os n)

find-In : (os : List Listed) (n : Bytes) (o : Listed) → find os n ≡ some o → In o os × (o.name ≡ n)
unfolding find
find-In [] n o h = cc
find-In (p ∷ os) n o h = elim (Bool-cases (beq p.name n)) [
  | inl e ↦
      let same : p ≡ o = (let f : some p ≡ some o = rw e at h in cc) in
      (inl (sym same), ap (λ (x : Listed). x.name) (sym same) ∙ (beq_iff p.name n).0 e)
  | inr e ↦ let (i, m) = find-In os n o (rw e at h) in (inr i, m)
]

In-has_name : (os : List Listed) (o : Listed) → In o os → has_name os o.name ≡ true
unfolding has_name
In-has_name [] o i = elim i [ ]
In-has_name (p ∷ os) o (inl e) = rw e (ground (arith, beq_refl p.name))
In-has_name (p ∷ os) o (inr i) = ground (arith, In-has_name os o i)

In-find : (os : List Listed) (o : Listed) → IsListing os → In o os → find os o.name ≡ some o
unfolding find IsListing
In-find [] o h i = elim i [ ]
In-find (p ∷ os) o h (inl e) = rw e (ground (arith, beq_refl p.name))
In-find (p ∷ os) o h (inr i) = ground (
  arith,
  In-find os o h.1 i,
  In-has_name os o i,
  ap (λ m. has_name os m) ((beq_iff p.name o.name).0 _),
  h.0,
)

module _ (sorter : Sorter) (order_by order_direction : Bytes)
    (keeps : KeepsNames (sort_files sorter order_by order_direction)) where
  sort-IsListing :
      (os : List Listed) → IsListing os → IsListing (sort_files sorter order_by order_direction os)
  sort-IsListing os h =
      count-IsListing (sort_files sorter order_by order_direction os)
        (λ n. omega (arith, keeps.counts n os, IsListing-count os n h))

  sort-find :
      (os : List Listed) (n : Bytes)
      → IsListing os
      → find (sort_files sorter order_by order_direction os) n ≡ find os n
  sort-find os n h =
      let sorted = sort_files sorter order_by order_direction os in
      elim (Option-cases (find sorted n)) [
        | inl e ↦
            let none_here = (has_name-count sorted n).0 (find-none sorted n e) in
            e
            ∙ sym
                (find-has_name os n ((has_name-count os n).1 (sym (keeps.counts n os) ∙ none_here)))
        | inr (o, e) ↦
            let (i, m) = find-In sorted n o e in
            let there = (sort_files-In sorter order_by order_direction os o).0 i in
            e ∙ sym (In-find os o h there) ∙ ap (find os) m
      ]

  -- A sort of a listing holds the objects of the same map.
  pub sort-Represents :
      (os : List Listed) (m : Folder)
      → Represents os m
      → Represents (sort_files sorter order_by order_direction os) m
  sort-Represents os m r = record {
    listing = sort-IsListing os r.listing;
    agrees = λ n. sort-find os n r.listing ∙ r.agrees n;
  }
