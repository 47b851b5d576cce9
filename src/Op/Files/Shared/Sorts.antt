-- ===== src/Op/Files/Shared/Sorts.antt =====
-- The debounced sort of addCacheObj beside the map that a cached listing stands for.
use xiaoya_qwen.Prelude.{
  ℕ, ◌==◌, List, Bytes, Bool, false, Option, none, some, length, take, ◌≡◌, refl, sym, ap, subst,
  ◌∙◌, arith, Bool-cases, inl, inr,
}
use xiaoya_qwen.Model.Objects.{Listed, Sorter}
use xiaoya_qwen.Model.Objects.Sorting.{sort_files}
use xiaoya_qwen.Op.Files.Listing.Map.{find, IsListing}
use xiaoya_qwen.Op.Files.Listing.Refinement.{
  Edit, add, del, update, edit, Folder, meaning, Allowed, Represents, edit-Represents,
}
use xiaoya_qwen.Op.Files.Shared.{
  Array, Slice, Shared, value, overwrite, update_cached, update_shared, del_cached, del_shared,
  add_cached, add_shared, clear_shared, sort_pending, sort_shared, listing,
}
use xiaoya_qwen.Op.Files.Shared.Slices.{Fits}
use xiaoya_qwen.Op.Files.Shared.Plain.{
  Caches, update_shared-Caches, del_shared-Caches, add_shared-Caches, load_shared-Caches,
  replaced-Caches, listing-Caches,
}
use xiaoya_qwen.Op.Files.Shared.Counts.{KeepsNames, sort-Represents}
use xiaoya_qwen.Op.Files.Shared.Settled.{
  Change, loads, clears, sorts, edits, Settled, perform, Waits, perform-Settled,
}

-- What a change does to the map, if a listing is cached.
unfoldable pub effect : Change → Option Folder → Option Folder
unfolding find meaning
effect (loads objs room) m = some (find objs)
effect clears m = none
effect sorts m = m
effect (edits ed) none = none
effect (edits ed) (some m) = some (meaning ed m)

-- List loads no name twice, and a rename is to a name that is free or the same.
abbrev pub Permits : Change → Option Folder → Type 0
Permits (loads objs room) m = IsListing objs
Permits clears m = Unit {0}
Permits sorts m = Unit {0}
Permits (edits ed) none = Unit {0}
Permits (edits ed) (some m) = Allowed ed m

-- The cache has a listing that holds the objects of the map, or neither is there.
abbrev Holds : Shared → Option Folder → Type 0
Holds c none = c.cached ≡ none
Holds c (some m) = (objs : List Listed) × Caches c objs × Represents objs m

abbrev pub Shows : Option (List Listed) → Option Folder → Type 0
Shows none none = Unit {0}
Shows (some objs) (some m) = Represents objs m
Shows none (some m) = ⊥
Shows (some objs) none = ⊥

module _ (grow : ℕ → ℕ) (local_sort : Bool) (sorter : Sorter) (order_by order_direction : Bytes)
    (keeps : KeepsNames (sort_files sorter order_by order_direction)) where
  edit-Holds :
      (ed : Edit) (c : Shared) (m : Option Folder)
      → Permits (edits ed) m
      → Holds c m
      → Holds
          (perform grow local_sort sorter order_by order_direction (edits ed) c)
          (effect (edits ed) m)
  unfolding perform effect edit update_shared del_shared add_shared update_cached del_cached
      add_cached
  edit-Holds (add new) c none a e =
      ap (λ (o : Option Slice). (add_cached grow local_sort new o c).cached) e ∙ e
  edit-Holds (del old) c none a e = ap (λ (o : Option Slice). (del_cached old o c).cached) e ∙ e
  edit-Holds (update old new) c none a e =
      ap (λ (o : Option Slice). (update_cached old new o c).cached) e ∙ e
  edit-Holds (add new) c (some m) a (objs, h, r) = (
    edit (add new) objs,
    add_shared-Caches grow local_sort new c objs h,
    edit-Represents (add new) objs m r a,
  )
  edit-Holds (del old) c (some m) a (objs, h, r) =
      (edit (del old) objs, del_shared-Caches old c objs h, edit-Represents (del old) objs m r a)
  edit-Holds (update old new) c (some m) a (objs, h, r) = (
    edit (update old new) objs,
    update_shared-Caches old new c objs h,
    edit-Represents (update old new) objs m r a,
  )

  -- The pending slice is the cached one.
  same_slice-Holds :
      (c : Shared) (m : Folder) (s : Slice) (objs : List Listed)
      → c.cached ≡ some s
      → Fits c.arrays s
      → value c.arrays s ≡ objs
      → Represents objs m
      → Holds (sort_pending sorter order_by order_direction (some s) c) (some m)
  unfolding sort_pending
  same_slice-Holds c m s objs f fits v r =
      let sorted = sort_files sorter order_by order_direction (value c.arrays s) in
      (
        sorted,
        replaced-Caches c s sorted f fits (keeps.lengths (value c.arrays s)),
        sort-Represents sorter order_by order_direction keeps (value c.arrays s) m
            (subst (λ os. Represents os m) (sym v) r),
      )

  -- It lies in another array.
  other_slice-Holds :
      (c : Shared) (m : Folder) (s p : Slice) (objs : List Listed)
      → (s.array == p.array) ≡ false
      → c.cached ≡ some s
      → Fits c.arrays s
      → value c.arrays s ≡ objs
      → Represents objs m
      → Holds (sort_pending sorter order_by order_direction (some p) c) (some m)
  unfolding sort_pending value
  other_slice-Holds c m s p objs n f fits v r =
      let os = sort_files sorter order_by order_direction (value c.arrays p) in
      let stays : overwrite p os c.arrays s.array ≡ c.arrays s.array =
        untouched p s os c.arrays n in
      (
        objs,
        (
          s,
          f,
          omega (arith, fits, ap (λ (a : Array). length a.cells) stays),
          ap (λ (a : Array). take s.len a.cells) stays ∙ v,
        ),
        r,
      )
    where
      untouched :
          (p s : Slice) (os : List Listed) (arrays : ℕ → Array)
          → (s.array == p.array) ≡ false
          → overwrite p os arrays s.array ≡ arrays s.array
      untouched p s os arrays n = rw n refl

  sort_pending-Holds :
      (c : Shared) (m : Option Folder) (p : Option Slice)
      → Settled local_sort c
      → c.pending ≡ p
      → Holds c m
      → Holds (sort_pending sorter order_by order_direction p c) m
  unfolding sort_pending
  sort_pending-Holds c m none w e h = h
  sort_pending-Holds c none (some p) w e h = h
  sort_pending-Holds c (some m) (some p) w e (objs, (s, f, fits, v), r) =
      elim (Bool-cases (s.array == p.array)) [
        | inl a ↦
            let array : p.array ≡ s.array = ground (arith, a) in
            let len = w.same s p f e array in
            let same : s ≡ p = λ i. record { array = sym array i; len = sym len i } in
            subst (λ q. Holds (sort_pending sorter order_by order_direction (some q) c) (some m))
              same (same_slice-Holds c m s objs f fits v r)
        | inr a ↦ other_slice-Holds c m s p objs a f fits v r
      ]

  perform-Holds :
      (change : Change) (c : Shared) (m : Option Folder)
      → Settled local_sort c
      → Permits change m
      → Holds c m
      → Holds (perform grow local_sort sorter order_by order_direction change c) (effect change m)
  unfolding perform effect clear_shared sort_shared
  perform-Holds (loads objs room) c m w a h =
      (objs, load_shared-Caches objs room c, record { listing = a; agrees = λ n. refl })
  perform-Holds clears c m w a h = refl
  perform-Holds sorts c m w a h = sort_pending-Holds c m c.pending w refl h
  perform-Holds (edits ed) c m w a h = edit-Holds ed c m a h

  -- Changes in any order, from an empty cache, where no object is deleted while a sort is asked for.
  pub data Runs : Shared → Option Folder → Type 0 where
    begins : (c : Shared) → c.cached ≡ none → c.pending ≡ none → Runs c none
    goes_on :
        (change : Change) (c : Shared) (m : Option Folder)
        → Runs c m
        → Waits grow local_sort sorter order_by order_direction change c
        → Permits change m
        → Runs (perform grow local_sort sorter order_by order_direction change c) (effect change m)

  Runs-Holds : (c : Shared) (m : Option Folder) → Runs c m → Settled local_sort c × Holds c m
  Runs-Holds c m (begins _ e f) = (
    record {
      cached_made = λ s g. cc (g, e);
      pending_made = λ p g. cc (g, f);
      same = λ s p g h a. cc (g, e);
      unsorted = λ b. f;
    },
    e,
  )
  Runs-Holds _ _ (goes_on change c m r waits a) =
      let (w, h) = Runs-Holds c m r in
      (
        perform-Settled grow local_sort sorter order_by order_direction change c waits w,
        perform-Holds change c m w a h,
      )

  shown : (c : Shared) (m : Option Folder) → Holds c m → Shows (listing c) m
  unfolding listing
  shown c none e = rw e tt
  shown c (some m) (objs, h, r) = subst (λ o. Shows o (some m)) (sym (listing-Caches c objs h)) r

  -- Whatever is loaded, cleared, added, renamed, deleted and sorted under a key of the cache, in any
  -- order, from an empty cache, if no listing that is loaded has a name twice, a rename is to a name
  -- that is free or the same, and nothing is deleted between an addition and the sort that it asks
  -- for: the cached listing, in the arrays that the operations and the sort share, has no name twice
  -- and holds the objects of the map that these changes make, or none is cached. The sort is taken
  -- to keep the length of a listing and how often each name is in it.
  pub run-Shows : (c : Shared) (m : Option Folder) → Runs c m → Shows (listing c) m
  run-Shows c m r = let (w, h) = Runs-Holds c m r in shown c m h
