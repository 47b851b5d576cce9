-- ===== src/Op/Files/Listing/Map.antt =====
-- A listing whose names are distinct, as a map from names to objects.
use xiaoya_qwen.Prelude.{
  List, [], ◌∷◌, ◌++◌, Bytes, true, false, Option, none, some, beq, beq_iff, if◌then◌else◌, ◌≡◌,
  refl, arith, Bool-cases, inl, inr,
}
use xiaoya_qwen.Model.Objects.{Listed}
use xiaoya_qwen.Op.Files.Listing.{update_obj, del_obj, has_name, ends_like, add_obj}

-- What a search by name finds: the loop of Get.
unfoldable pub find : List Listed → Bytes → Option Listed
find [] n = none
find (o ∷ os) n = let rest = find os n in if beq o.name n then some o else rest

-- No name twice.
unfoldable pub IsListing : List Listed → Type 0
IsListing [] = Unit
IsListing (o ∷ os) = (has_name os o.name ≡ false) × IsListing os

pub find-has_name : (os : List Listed) (n : Bytes) → has_name os n ≡ false → find os n ≡ none
unfolding find has_name
find-has_name [] n h = refl
find-has_name (o ∷ os) n h = ground (arith, find-has_name os n)

find-append :
    (os : List Listed) (new : Listed) (n : Bytes)
    → has_name os new.name ≡ false
    → find (os ++ new ∷ []) n ≡ (if beq new.name n then some new else find os n)
unfolding find has_name
find-append [] new n h = refl
find-append (o ∷ os) new n h =
    ground
      (arith, find-append os new n, beq_iff o.name n, beq_iff new.name n, beq_iff o.name new.name)

find-replace :
    (os : List Listed) (new : Listed) (n : Bytes)
    → has_name os new.name ≡ true
    → find (update_obj os new new) n ≡ (if beq new.name n then some new else find os n)
unfolding find has_name update_obj
find-replace [] new n h = cc
find-replace (o ∷ os) new n h =
    ground
      (arith, find-replace os new n, beq_iff o.name n, beq_iff new.name n, beq_iff o.name new.name)

-- addCacheObj puts an object into the map under its name.
pub find-add_obj :
    (os : List Listed) (new : Listed) (n : Bytes)
    → find (add_obj os new) n ≡ (if beq new.name n then some new else find os n)
unfolding add_obj
find-add_obj os new n = elim (Bool-cases (has_name os new.name)) [
  | inl h ↦ rw h (find-replace os new n h)
  | inr h ↦ elim (Bool-cases (ends_like os new)) [
    | inl e ↦ rw (h, e) (find-append os new n h)
    | inr e ↦ rw (h, e) (unfold find in refl)
  ]
]

-- delCacheObj takes a name out of it.
pub find-del_obj :
    (os : List Listed) (old : Listed) (n : Bytes)
    → IsListing os
    → find (del_obj os old) n ≡ (if beq old.name n then none else find os n)
unfolding find del_obj IsListing
find-del_obj [] old n h = ground arith
find-del_obj (o ∷ os) old n h = ground (
  arith,
  find-del_obj os old n h.1,
  beq_iff o.name n,
  beq_iff old.name n,
  beq_iff o.name old.name,
  find-has_name os n,
)

-- updateCacheObj puts the new object in the place of the old name.
pub find-update_obj :
    (os : List Listed) (old new : Listed) (n : Bytes)
    → IsListing os
    → has_name os old.name ≡ true
    → has_name os new.name ≡ false
    → find (update_obj os old new) n
      ≡ (if beq new.name n then some new else if beq old.name n then none else find os n)
unfolding find update_obj IsListing has_name
find-update_obj [] old new n h i j = cc
find-update_obj (o ∷ os) old new n h i j = ground (
  arith,
  find-update_obj os old new n h.1,
  beq_iff o.name n,
  beq_iff old.name n,
  beq_iff new.name n,
  beq_iff o.name old.name,
  beq_iff o.name new.name,
  find-has_name os n,
)
