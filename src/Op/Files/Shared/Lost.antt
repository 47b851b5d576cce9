-- ===== src/Op/Files/Shared/Lost.antt =====
-- A deletion between an addition and the sort that it asks for.
use xiaoya_qwen.Prelude.{
  ℕ, suc, ◌+◌, ◌≤◌, List, [], ◌∷◌, ◌++◌, Bytes, true, false, Option, some, beq_iff, beq_refl,
  length, length-append, take, ◌≡◌, ◌≢◌, refl, sym, ap, subst, ◌∙◌, arith, Bool-cases, inl, inr,
}
use xiaoya_qwen.Model.Objects.{Listed, Sorter}
use xiaoya_qwen.Model.Objects.Sorting.{sort_files}
use xiaoya_qwen.Op.Files.Listing.{del_obj, has_name, ends_like, add_obj}
use xiaoya_qwen.Op.Files.Listing.Map.{find, IsListing}
use xiaoya_qwen.Op.Files.Listing.Refinement.{add, del, edit, Allowed, meaning, edit-Represents}
use xiaoya_qwen.Op.Files.Shared.{
  Slice, Shared, value, written, overwrite, last_of, del_cached, del_shared, debounced, add_cached,
  add_shared, sort_pending, sort_shared, listing,
}
use xiaoya_qwen.Op.Files.Shared.Slices.{Fits, length-value, value-overwrite, value-front}
use xiaoya_qwen.Op.Files.Shared.Plain.{Caches, add_shared-Caches}
use xiaoya_qwen.Op.Files.Shared.Counts.{
  KeepsNames, count, count-append, has_name-count, IsListing-count,
}

length-last : (o : Listed) (os : List Listed) → length (last_of (o ∷ os)) ≡ 1
unfolding last_of
length-last o [] = refl
length-last o (p ∷ os) = length-last p os

length-del_obj :
    (os : List Listed) (old : Listed)
    → has_name os old.name ≡ true
    → suc (length (del_obj os old)) ≡ length os
unfolding del_obj has_name
length-del_obj [] old h = cc
length-del_obj (o ∷ os) old h = ground (arith, length-del_obj os old)

-- The cells that a deletion leaves in the array are as many as before.
length-left :
    (os : List Listed) (old : Listed)
    → has_name os old.name ≡ true
    → length (del_obj os old ++ last_of os) ≡ length os
unfolding has_name
length-left [] old h = cc
length-left (o ∷ os) old h = omega (
  arith,
  length-append (del_obj (o ∷ os) old) (last_of (o ∷ os)),
  length-last o os,
  length-del_obj (o ∷ os) old h,
)

add_cached-pending :
    (grow : ℕ → ℕ) (new : Listed) (c : Shared) (s : Slice)
    → has_name (value c.arrays s) new.name ≡ false
    → (add_cached grow true new (some s) c).pending ≡ (add_cached grow true new (some s) c).cached
unfolding add_cached debounced
add_cached-pending grow new c s h = elim (Bool-cases (ends_like (value c.arrays s) new)) [
  | inl l ↦ rw (h, l) refl
  | inr l ↦ rw (h, l) refl
]

add_shared-pending :
    (grow : ℕ → ℕ) (new : Listed) (c : Shared) (objs : List Listed)
    → Caches c objs
    → has_name objs new.name ≡ false
    → (add_shared grow true new c).pending ≡ (add_shared grow true new c).cached
unfolding add_shared
add_shared-pending grow new c objs (s, e, f, v) h =
    subst (λ o. (add_cached grow true new o c).pending ≡ (add_cached grow true new o c).cached)
      (sym e)
      (add_cached-pending grow new c s (subst (λ os. has_name os new.name ≡ false) (sym v) h))

left-IsListing :
    (objs : List Listed) (new old : Listed)
    → IsListing objs
    → IsListing (del_obj (add_obj objs new) old)
unfolding edit Allowed
left-IsListing objs new old h =
    let added =
      edit-Represents (add new) objs (find objs) (record { listing = h; agrees = λ n. refl }) tt in
    (edit-Represents (del old) (add_obj objs new) (meaning (add new) (find objs)) added tt).listing

front : (ys : List Listed) (x : Listed) → take (length ys) (ys ++ x ∷ []) ≡ ys
front [] x = refl
front (y ∷ ys) x = ap (λ (r : List Listed). y ∷ r) (front ys x)

module _ (sorter : Sorter) (order_by order_direction : Bytes)
    (keeps : KeepsNames (sort_files sorter order_by order_direction)) where
  -- The cells that the deletion leaves, sorted, and as many of them as the cached slice has.
  abbrev pub resorted : List Listed → Listed → List Listed
  resorted objs old =
      take (length (del_obj objs old))
        (sort_files sorter order_by order_direction (del_obj objs old ++ last_of objs))

  -- What the sort leaves in the cache after a deletion from the slice that it has.
  sorted_slice :
      (c : Shared) (s : Slice) (old : Listed)
      → c.pending ≡ some s
      → Fits c.arrays s
      → has_name (value c.arrays s) old.name ≡ true
      → listing (sort_shared sorter order_by order_direction (del_cached old (some s) c))
        ≡ some (resorted (value c.arrays s) old)
  unfolding sort_shared sort_pending del_cached listing value overwrite written
  sorted_slice c s old p f h =
      let objs = value c.arrays s in
      let left = del_obj objs old in
      let cells = left ++ last_of objs in
      let n : s.len ≡ length cells =
        omega (arith, length-left objs old h, length-value c.arrays s f) in
      let written_cells : value (overwrite s cells c.arrays) s ≡ cells =
        value-overwrite c.arrays s cells s.len n in
      let sorted = sort_files sorter order_by order_direction cells in
      let fewer : length left ≤ length sorted =
        omega (arith, keeps.lengths cells, length-append left (last_of objs)) in
      rw (h, p, written_cells)
        (ap some (value-front (overwrite s cells c.arrays) s sorted (length left) fewer))

  sorted_after :
      (c : Shared) (objs : List Listed) (old : Listed)
      → Caches c objs
      → c.pending ≡ c.cached
      → has_name objs old.name ≡ true
      → listing (sort_shared sorter order_by order_direction (del_shared old c))
        ≡ some (resorted objs old)
  unfolding del_shared
  sorted_after c objs old (s, e, f, v) p h =
      let after = λ (o : Option Slice).
        listing (sort_shared sorter order_by order_direction (del_cached old o c)) in
      subst (λ o. after o ≡ some (resorted objs old)) (sym e)
        (subst (λ os. after (some s) ≡ some (resorted os old)) v
          (sorted_slice c s old (p ∙ e) f (subst (λ os. has_name os old.name ≡ true) (sym v) h)))

  -- An object that the sort puts last, behind the end of the cached slice.
  lost_name :
      (left ys : List Listed) (l x : Listed)
      → IsListing left
      → sort_files sorter order_by order_direction (left ++ l ∷ []) ≡ ys ++ x ∷ []
      → x.name ≢ l.name
      → (has_name left x.name ≡ true) × (has_name ys x.name ≡ false)
  unfolding count
  lost_name left ys l x h e n =
      let c = count x.name in
      let total : c left + c (l ∷ []) ≡ c ys + c (x ∷ []) =
        sym (count-append x.name left (l ∷ []))
        ∙ sym (keeps.counts x.name (left ++ l ∷ []))
        ∙ ap c e
        ∙ count-append x.name ys (x ∷ []) in
      let apart : c (l ∷ []) ≡ 0 = ground (arith, beq_iff l.name x.name, n) in
      let once : c (x ∷ []) ≡ 1 = ground (arith, beq_refl x.name) in
      let no_more = IsListing-count left x.name h in
      (
        elim (Bool-cases (has_name left x.name)) [
          | inl b ↦ b
          | inr b ↦ absurd (omega (arith, total, apart, once, (has_name-count left x.name).0 b))
        ],
        (has_name-count ys x.name).1 (omega (arith, total, apart, once, no_more)),
      )

  -- If a name is added that the cached listing does not have, in a storage that sorts its listings,
  -- and a name is then deleted, before the sort that the addition asks for: the sort moves the
  -- cells of the listing before the deletion, and unless it puts an object of the name that was
  -- last there at the end, the object that it puts there, which the directory has after the
  -- deletion, is missing in the cached listing. The sort is taken to keep the length of a listing
  -- and how often each name is in it.
  pub sort_shared-loses :
      (grow : ℕ → ℕ) (c : Shared) (objs ys : List Listed) (new old l x : Listed)
      → Caches c objs
      → IsListing objs
      → has_name objs new.name ≡ false
      → has_name (add_obj objs new) old.name ≡ true
      → last_of (add_obj objs new) ≡ l ∷ []
      → sort_files sorter order_by order_direction (del_obj (add_obj objs new) old ++ l ∷ [])
        ≡ ys ++ x ∷ []
      → x.name ≢ l.name
      → (listing (
            sort_shared sorter order_by order_direction
              (del_shared old (add_shared grow true new c)))
          ≡ some ys)
        × (has_name (del_obj (add_obj objs new) old) x.name ≡ true)
        × (has_name ys x.name ≡ false)
  sort_shared-loses grow c objs ys new old l x h is fresh has last e n =
      let added = add_obj objs new in
      let left = del_obj added old in
      let c' = add_shared grow true new c in
      let (there, missing) = lost_name left ys l x (left-IsListing objs new old is) e n in
      let size : length left ≡ length ys = omega (
        arith,
        keeps.lengths (left ++ l ∷ []),
        length-append left (l ∷ []),
        length-append ys (x ∷ []),
        ap length e,
      ) in
      (
        sorted_after c' added old (add_shared-Caches grow true new c objs h)
              (add_shared-pending grow new c objs h fresh) has
            ∙ ap some (rw (last, e, size) (front ys x)),
        there,
        missing,
      )
