-- ===== src/Op/Files/Listing/Refinement.antt =====
-- The changes of a cached listing, read as changes of a map from names to objects.
use xiaoya_qwen.Prelude.{
  List, [], ◌∷◌, ◌++◌, Bytes, Bool, true, false, Option, none, some, beq, beq_iff, if◌then◌else◌,
  ◌≡◌, ◌⊎◌, inl, inr, refl, sym, ap, ◌∙◌, arith, Bool-cases,
}
use xiaoya_qwen.Model.Objects.{Listed}
use xiaoya_qwen.Op.Files.Listing.{update_obj, del_obj, has_name, ends_like, add_obj}
use xiaoya_qwen.Op.Files.Listing.Map.{find, IsListing, find-add_obj, find-del_obj, find-update_obj}

-- addCacheObj, delCacheObj and updateCacheObj, with their objects
pub data Edit : Type 0 where
  add del : Listed → Edit
  update : Listed → Listed → Edit

unfoldable pub edit : Edit → List Listed → List Listed
unfolding add_obj del_obj update_obj
edit (add new) os = add_obj os new
edit (del old) os = del_obj os old
edit (update old new) os = update_obj os old new

abbrev pub Folder : Type 0
Folder = Bytes → Option Listed

abbrev pub put : Folder → Bytes → Option Listed → Folder
put m k v n = if beq k n then v else m n

abbrev pub is_some : Option Listed → Bool
is_some none = false
is_some (some o) = true

-- What a change means for the map. A rename of a name that is not there does nothing.
unfoldable pub meaning : Edit → Folder → Folder
meaning (add new) m = put m new.name (some new)
meaning (del old) m = put m old.name none
meaning (update old new) m =
    if is_some (m old.name) then put (put m old.name none) new.name (some new) else m

-- A rename is to a name that is not taken, or to the same name.
unfoldable pub Allowed : Edit → Folder → Type 0
Allowed (add new) m = Unit
Allowed (del old) m = Unit
Allowed (update old new) m = (new.name ≡ old.name) ⊎ (m new.name ≡ none)

-- The listing has no name twice and holds the objects of the map.
pub record Represents (os : List Listed) (m : Folder) : Type 0 where
  pub listing : IsListing os
  pub agrees : (n : Bytes) → find os n ≡ m n

has_name-find : (os : List Listed) (n : Bytes) → has_name os n ≡ is_some (find os n)
unfolding has_name find
has_name-find [] n = refl
has_name-find (o ∷ os) n = ground (arith, has_name-find os n)

has_name-append :
    (os : List Listed) (new : Listed) (n : Bytes)
    → has_name (os ++ new ∷ []) n ≡ (if beq new.name n then true else has_name os n)
unfolding has_name
has_name-append [] new n = refl
has_name-append (o ∷ os) new n = ground (arith, has_name-append os new n)

has_name-update_obj :
    (os : List Listed) (old new : Listed) (n : Bytes)
    → has_name os n ≡ false
    → beq new.name n ≡ false
    → has_name (update_obj os old new) n ≡ false
unfolding has_name update_obj
has_name-update_obj [] old new n h i = refl
has_name-update_obj (o ∷ os) old new n h i = ground (arith, has_name-update_obj os old new n)

has_name-del_obj :
    (os : List Listed) (old : Listed) (n : Bytes)
    → has_name os n ≡ false
    → has_name (del_obj os old) n ≡ false
unfolding has_name del_obj
has_name-del_obj [] old n h = refl
has_name-del_obj (o ∷ os) old n h = ground (arith, has_name-del_obj os old n)

append-IsListing :
    (os : List Listed) (new : Listed)
    → IsListing os
    → has_name os new.name ≡ false
    → IsListing (os ++ new ∷ [])
unfolding IsListing has_name
append-IsListing [] new h i = (refl, tt)
append-IsListing (o ∷ os) new h i = (
  ground
      (arith, h.0, has_name-append os new o.name, beq_iff o.name new.name, beq_iff new.name o.name),
  append-IsListing os new h.1 (ground arith),
)

del_obj-IsListing : (os : List Listed) (old : Listed) → IsListing os → IsListing (del_obj os old)
unfolding IsListing del_obj
del_obj-IsListing [] old h = tt
del_obj-IsListing (o ∷ os) old h = elim (Bool-cases (beq o.name old.name)) [
  | inl e ↦ rw e h.1
  | inr e ↦ rw e (has_name-del_obj os old o.name h.0, del_obj-IsListing os old h.1)
]

-- The new name does not stand behind the object that it takes the place of.
taken_over :
    (o : Listed) (os : List Listed) (old new : Listed)
    → has_name os o.name ≡ false
    → beq o.name old.name ≡ true
    → (new.name ≡ old.name) ⊎ (has_name (o ∷ os) new.name ≡ false)
    → has_name os new.name ≡ false
unfolding has_name
taken_over o os old new h e (inl same) = rw (same, sym ((beq_iff o.name old.name).0 e)) h
taken_over o os old new h e (inr free) = ground (arith, free)

-- An object that stays has another name than the new one.
passed_by :
    (o : Listed) (os : List Listed) (old new : Listed)
    → beq o.name old.name ≡ false
    → (new.name ≡ old.name) ⊎ (has_name (o ∷ os) new.name ≡ false)
    → (beq new.name o.name ≡ false) × ((new.name ≡ old.name) ⊎ (has_name os new.name ≡ false))
unfolding has_name
passed_by o os old new e (inl same) =
    (ground (arith, same, beq_iff o.name old.name, beq_iff new.name o.name), inl same)
passed_by o os old new e (inr free) =
    (ground (arith, beq_iff new.name o.name, beq_iff o.name new.name), inr (ground (arith, free)))

update_obj-IsListing :
    (os : List Listed) (old new : Listed)
    → IsListing os
    → (new.name ≡ old.name) ⊎ (has_name os new.name ≡ false)
    → IsListing (update_obj os old new)
unfolding IsListing update_obj has_name
update_obj-IsListing [] old new h i = tt
update_obj-IsListing (o ∷ os) old new h i = elim (Bool-cases (beq o.name old.name)) [
  | inl e ↦ rw e (taken_over o os old new h.0 e i, h.1)
  | inr e ↦
      let (different, j) = passed_by o os old new e i in
      rw e
        (has_name-update_obj os old new o.name h.0 different, update_obj-IsListing os old new h.1 j)
]

add_obj-IsListing : (os : List Listed) (new : Listed) → IsListing os → IsListing (add_obj os new)
unfolding add_obj IsListing
add_obj-IsListing os new h = elim (Bool-cases (has_name os new.name)) [
  | inl i ↦ rw i (update_obj-IsListing os new new h (inl refl))
  | inr i ↦ elim (Bool-cases (ends_like os new)) [
    | inl e ↦ rw (i, e) (append-IsListing os new h i)
    | inr e ↦ rw (i, e) (i, h)
  ]
]

-- A rename of a name that is not there changes nothing.
update_obj-absent :
    (os : List Listed) (old new : Listed)
    → has_name os old.name ≡ false
    → update_obj os old new ≡ os
unfolding update_obj has_name
update_obj-absent [] old new h = refl
update_obj-absent (o ∷ os) old new h = ground (arith, update_obj-absent os old new)

-- A rename to the same name.
find-update_same :
    (os : List Listed) (old new : Listed) (n : Bytes)
    → new.name ≡ old.name
    → has_name os old.name ≡ true
    → find (update_obj os old new) n ≡ (if beq new.name n then some new else find os n)
unfolding find update_obj has_name
find-update_same [] old new n s h = cc
find-update_same (o ∷ os) old new n s h = ground (
  arith,
  s,
  find-update_same os old new n s,
  beq_iff o.name n,
  beq_iff new.name n,
  beq_iff old.name n,
  beq_iff o.name old.name,
)

-- A new name of the map is a new name of the listing.
free_name :
    (os : List Listed) (m : Folder) (old new : Listed)
    → Represents os m
    → Allowed (update old new) m
    → (new.name ≡ old.name) ⊎ (has_name os new.name ≡ false)
unfolding Allowed
free_name os m old new r (inl same) = inl same
free_name os m old new r (inr free) =
    inr (has_name-find os new.name ∙ ap is_some (r.agrees new.name ∙ free))

update_obj-meaning :
    (os : List Listed) (m : Folder) (old new : Listed) (n : Bytes)
    → Represents os m
    → (new.name ≡ old.name) ⊎ (has_name os new.name ≡ false)
    → find (update_obj os old new) n ≡ meaning (update old new) m n
unfolding meaning
update_obj-meaning os m old new n r i =
    let here : has_name os old.name ≡ is_some (m old.name) =
      has_name-find os old.name ∙ ap is_some (r.agrees old.name) in
    elim (Bool-cases (has_name os old.name)) [
      | inr h ↦ rw (update_obj-absent os old new h, sym here, h) (r.agrees n)
      | inl h ↦ elim i [
        | inl same ↦
            rw (find-update_same os old new n same h, sym here, h, same, r.agrees n) (ground arith)
        | inr free ↦
            rw (find-update_obj os old new n r.listing h free, sym here, h, r.agrees n) refl
      ]
    ]

-- The changes of a cached listing refine those of a map from names to objects: from a listing
-- without a name twice that holds the objects of a map, addCacheObj, delCacheObj and
-- updateCacheObj, the last to a free name or to the same name, lead to such a listing of the
-- map with the name set, taken out or renamed.
pub edit-Represents :
    (c : Edit) (os : List Listed) (m : Folder)
    → Represents os m
    → Allowed c m
    → Represents (edit c os) (meaning c m)
unfolding edit meaning
edit-Represents (add new) os m r a = record {
  listing = add_obj-IsListing os new r.listing;
  agrees =
      λ n. find-add_obj os new n ∙ ap (λ v. if beq new.name n then some new else v) (r.agrees n);
}
edit-Represents (del old) os m r a = record {
  listing = del_obj-IsListing os old r.listing;
  agrees = λ n.
      find-del_obj os old n r.listing ∙ ap (λ v. if beq old.name n then none else v) (r.agrees n);
}
edit-Represents (update old new) os m r a =
    let i = free_name os m old new r a in
    record {
      listing = update_obj-IsListing os old new r.listing i;
      agrees = λ n. update_obj-meaning os m old new n r i;
    }
