-- ===== src/Op/Files/Shared/Plain.antt =====
-- What is cached, without the arrays: the operations on slices beside those on listings.
use xiaoya_qwen.Prelude.{
  ℕ, zero, suc, List, [], ◌∷◌, ◌++◌, append_assoc, append-nil, Bool, true, false, Option, none,
  some, ltb, length, length-take, length-append, take, drop, ◌≡◌, refl, sym, ap, subst, ◌∙◌, arith,
  Bool-cases, inl, inr,
}
use xiaoya_qwen.Model.Objects.{Listed}
use xiaoya_qwen.Op.Files.Listing.{update_obj, del_obj, has_name, ends_like, add_obj}
use xiaoya_qwen.Op.Files.Shared.{
  Array, Slice, Shared, value, last_of, overwrite, made, update_cached, update_shared, del_cached,
  del_shared, append_end, append_to, debounced, add_cached, add_shared, load_shared, listing,
}
use xiaoya_qwen.Op.Files.Shared.Slices.{
  Fits, length-value, held-prefix, held-Fits, value-overwrite, Fits-overwrite, take-all,
}

-- The cache has a listing: in a slice that ends inside its array.
abbrev pub Caches : Shared → List Listed → Type 0
Caches c objs = (s : Slice) × (c.cached ≡ some s) × Fits c.arrays s × (value c.arrays s ≡ objs)

length-update_obj :
    (os : List Listed) (old new : Listed) → length (update_obj os old new) ≡ length os
unfolding update_obj
length-update_obj [] old new = refl
length-update_obj (o ∷ os) old new = ground (arith, length-update_obj os old new)

-- Objects of the same number in the place of those of a slice.
pub replaced-Caches :
    (c : Shared) (s : Slice) (objs : List Listed)
    → c.cached ≡ some s
    → Fits c.arrays s
    → length objs ≡ length (value c.arrays s)
    → Caches (record c { arrays = overwrite s objs c.arrays }) objs
replaced-Caches c s objs e f l =
    let n = length-value c.arrays s f in
    (
      s,
      e,
      Fits-overwrite c.arrays s objs s.len (omega (arith, l, n)),
      value-overwrite c.arrays s objs s.len (omega (arith, l, n)),
    )

update_cached-Caches :
    (old new : Listed) (c : Shared) (s : Slice)
    → c.cached ≡ some s
    → Fits c.arrays s
    → Caches (update_cached old new (some s) c) (update_obj (value c.arrays s) old new)
unfolding update_cached
update_cached-Caches old new c s e f =
    replaced-Caches c s (update_obj (value c.arrays s) old new) e f
      (length-update_obj (value c.arrays s) old new)

-- An operation on the cached slice, and what it makes of the listing.
of_slice :
    (op : Option Slice → Shared → Shared) (f : List Listed → List Listed) (c : Shared)
    → ((s : Slice)
        → c.cached ≡ some s
        → Fits c.arrays s
        → Caches (op (some s) c) (f (value c.arrays s)))
    → (objs : List Listed) → Caches c objs
    → Caches (op c.cached c) (f objs)
of_slice op f c h objs (s, e, fits, v) =
    subst (λ o. Caches (op o c) (f objs)) (sym e)
      (subst (λ (r : List Listed). Caches (op (some s) c) (f r)) v (h s e fits))

pub update_shared-Caches :
    (old new : Listed) (c : Shared) (objs : List Listed)
    → Caches c objs
    → Caches (update_shared old new c) (update_obj objs old new)
unfolding update_shared
update_shared-Caches old new c =
    of_slice (update_cached old new) (λ objs. update_obj objs old new) c
      (update_cached-Caches old new c)

del_obj-absent :
    (os : List Listed) (old : Listed) → has_name os old.name ≡ false → del_obj os old ≡ os
unfolding has_name del_obj
del_obj-absent [] old h = refl
del_obj-absent (o ∷ os) old h = ground (arith, del_obj-absent os old)

del_cached-Caches :
    (old : Listed) (c : Shared) (s : Slice)
    → c.cached ≡ some s
    → Fits c.arrays s
    → Caches (del_cached old (some s) c) (del_obj (value c.arrays s) old)
unfolding del_cached overwrite
del_cached-Caches old c s e f =
    let objs = value c.arrays s in
    let left = del_obj objs old in
    elim (Bool-cases (has_name objs old.name)) [
      | inl h ↦ rw h (
        record { array = s.array; len = length left },
        refl,
        Fits-overwrite c.arrays s (left ++ last_of objs) (length left)
            (omega (arith, length-append left (last_of objs))),
        held-prefix c.arrays s.array _ left (last_of objs ++ drop s.len (c.arrays s.array).cells)
            (length left) (append_assoc left (last_of objs) _) refl,
      )
      | inr h ↦ rw (h, del_obj-absent objs old h) (s, e, f, refl)
    ]

made-Caches : (objs : List Listed) (spare : ℕ) (c : Shared) → Caches (made objs spare c) objs
unfolding made
made-Caches objs spare c = (
  record { array = c.next; len = length objs },
  refl,
  held-Fits c.arrays c.next _ (length objs) (omega arith),
  held-prefix c.arrays c.next _ objs [] (length objs) (sym (append-nil objs)) refl,
)

append_end-Caches :
    (grow : ℕ → ℕ) (new : Listed) (c : Shared) (s : Slice) (room : ℕ)
    → s.len ≡ length (c.arrays s.array).cells
    → Caches (append_end grow s new room c) ((c.arrays s.array).cells ++ new ∷ [])
unfolding append_end
append_end-Caches grow new c s zero e =
    let objs = (c.arrays s.array).cells ++ new ∷ [] in made-Caches objs (grow (length objs)) c
append_end-Caches grow new c s (suc room) e =
    let objs = (c.arrays s.array).cells ++ new ∷ [] in
    let l : suc s.len ≡ length objs =
      omega (arith, e, length-append (c.arrays s.array).cells (new ∷ [])) in
    (
      record s { len = suc s.len },
      refl,
      held-Fits c.arrays s.array _ (suc s.len) (omega (arith, l)),
      held-prefix c.arrays s.array _ objs [] (suc s.len) (sym (append-nil objs)) l,
    )

append_to-Caches :
    (grow : ℕ → ℕ) (new : Listed) (c : Shared) (s : Slice)
    → Fits c.arrays s
    → Caches (append_to grow s new c) (value c.arrays s ++ new ∷ [])
unfolding append_to value
append_to-Caches grow new c s f =
    let cells = (c.arrays s.array).cells in
    let objs = take s.len cells ++ new ∷ [] in
    let rest = drop (suc s.len) cells in
    let l : suc s.len ≡ length objs =
      omega (arith, f, length-append (take s.len cells) (new ∷ []), length-take s.len cells) in
    let x : Array = record {
      cells = take s.len cells ++ new ∷ rest;
      spare = (c.arrays s.array).spare;
    } in
    let e : x.cells ≡ objs ++ rest = sym (append_assoc (take s.len cells) (new ∷ []) rest) in
    elim (Bool-cases (ltb s.len (length cells))) [
      | inl h ↦ rw h (
        record s { len = suc s.len },
        refl,
        held-Fits c.arrays s.array x (suc s.len)
            (omega (arith, l, ap length e, length-append objs rest)),
        held-prefix c.arrays s.array x objs rest (suc s.len) e l,
      )
      | inr h ↦
          let full : s.len ≡ length cells = ground (arith, f) in
          rw (h, take-all cells s.len (omega (arith, full)))
            (append_end-Caches grow new c s (c.arrays s.array).spare full)
    ]

debounced-Caches :
    (local_sort : Bool) (c : Shared) (objs : List Listed)
    → Caches c objs
    → Caches (debounced local_sort c) objs
unfolding debounced
debounced-Caches true c objs h = h
debounced-Caches false c objs h = h

add_cached-Caches :
    (grow : ℕ → ℕ) (local_sort : Bool) (new : Listed) (c : Shared) (s : Slice)
    → c.cached ≡ some s
    → Fits c.arrays s
    → Caches (add_cached grow local_sort new (some s) c) (add_obj (value c.arrays s) new)
unfolding add_cached add_obj
add_cached-Caches grow local_sort new c s e f =
    let objs = value c.arrays s in
    elim (Bool-cases (has_name objs new.name)) [
      | inl h ↦
          rw h (replaced-Caches c s (update_obj objs new new) e f (length-update_obj objs new new))
      | inr h ↦ elim (Bool-cases (ends_like objs new)) [
        | inl l ↦
            rw (h, l)
              (debounced-Caches local_sort (append_to grow s new c) _
                (append_to-Caches grow new c s f))
        | inr l ↦
            rw (h, l)
              (debounced-Caches local_sort (made (new ∷ objs) (grow (length (new ∷ objs))) c) _
                (made-Caches (new ∷ objs) (grow (length (new ∷ objs))) c))
      ]
    ]

pub del_shared-Caches :
    (old : Listed) (c : Shared) (objs : List Listed)
    → Caches c objs
    → Caches (del_shared old c) (del_obj objs old)
unfolding del_shared
del_shared-Caches old c =
    of_slice (del_cached old) (λ objs. del_obj objs old) c (del_cached-Caches old c)

pub add_shared-Caches :
    (grow : ℕ → ℕ) (local_sort : Bool) (new : Listed) (c : Shared) (objs : List Listed)
    → Caches c objs
    → Caches (add_shared grow local_sort new c) (add_obj objs new)
unfolding add_shared
add_shared-Caches grow local_sort new c =
    of_slice (add_cached grow local_sort new) (λ objs. add_obj objs new) c
      (add_cached-Caches grow local_sort new c)

pub load_shared-Caches :
    (objs : List Listed) (room : ℕ) (c : Shared) → Caches (load_shared objs room c) objs
unfolding load_shared
load_shared-Caches objs room c = made-Caches objs room c

pub listing-Caches : (c : Shared) (objs : List Listed) → Caches c objs → listing c ≡ some objs
unfolding listing
listing-Caches c objs (s, e, f, v) =
    ap (λ (o : Option Slice). elim o [ none ↦ none | some t ↦ some (value c.arrays t) ]) e
    ∙ ap some v
