-- ===== src/Op/Files/Shared.antt =====
-- The arrays behind the listings that internal/op/fs.go caches under one key: updateCacheObj, delCacheObj and addCacheObj
-- write into the array of the cached slice, and so does the sort that addCacheObj hands to the debounce of
-- pkg/utils (NewDebounce), which sorts the slice that it was made with. A slice is a prefix of an array.
pub mod Slices
pub mod Plain
pub mod Counts
pub mod Settled
pub mod Sorts
pub mod Lost
use xiaoya_qwen.Prelude.{
  ℕ, zero, suc, ◌==◌, List, [], ◌∷◌, ◌++◌, Bytes, Bool, true, false, Option, none, some, ltb,
  length, take, drop, if◌then◌else◌,
}
use xiaoya_qwen.Model.Objects.{Listed, Sorter}
use xiaoya_qwen.Model.Objects.Sorting.{sort_files}
use xiaoya_qwen.Op.Files.Listing.{update_obj, del_obj, has_name, ends_like}

-- What has been written to an array, and the room behind it.
pub record Array : Type 0 where
  pub cells : List Listed
  pub spare : ℕ

pub record Slice : Type 0 where
  pub array : ℕ
  pub len : ℕ

-- The cached slice, and the slice that is to be sorted; arrays from `next` on are not made yet.
pub record Shared : Type 0 where
  pub arrays : ℕ → Array
  pub next : ℕ
  pub cached : Option Slice
  pub pending : Option Slice

unfoldable pub value : (ℕ → Array) → Slice → List Listed
value arrays s = take s.len (arrays s.array).cells

unfoldable pub written : (ℕ → Array) → ℕ → Array → ℕ → Array
written arrays a cells b = if b == a then cells else arrays b

-- objs[len(objs)-1], if there is one
unfoldable pub last_of : List Listed → List Listed
last_of [] = []
last_of (o ∷ []) = o ∷ []
last_of (o ∷ p ∷ os) = last_of (p ∷ os)

-- The cells of a slice are written over.
unfoldable pub overwrite : Slice → List Listed → (ℕ → Array) → ℕ → Array
unfolding written
overwrite s objs arrays =
    let a = arrays s.array in
    written arrays s.array (record { cells = objs ++ drop s.len a.cells; spare = a.spare })

-- A new array with some objects.
unfoldable pub made : List Listed → ℕ → Shared → Shared
unfolding written
made objs spare c = record c {
  arrays = written c.arrays c.next (record { cells = objs; spare = spare });
  next = suc c.next;
  cached = some (record { array = c.next; len = length objs });
}

unfoldable pub update_cached : Listed → Listed → Option Slice → Shared → Shared
unfolding overwrite value
update_cached old new none c = c
update_cached old new (some s) c = record c {
  arrays = overwrite s (update_obj (value c.arrays s) old new) c.arrays;
}

-- updateCacheObj
unfoldable pub update_shared : Listed → Listed → Shared → Shared
unfolding update_cached
update_shared old new c = update_cached old new c.cached c

-- append(objs[:i], objs[i+1:]...), which leaves the last cell as it is
unfoldable pub del_cached : Listed → Option Slice → Shared → Shared
unfolding overwrite value last_of
del_cached old none c = c
del_cached old (some s) c =
    let objs = value c.arrays s in
    if has_name objs old.name
    then record c {
      arrays = overwrite s (del_obj objs old ++ last_of objs) c.arrays;
      cached = some (record { array = s.array; len = length (del_obj objs old) });
    }
    else c

-- delCacheObj
unfoldable pub del_shared : Listed → Shared → Shared
unfolding del_cached
del_shared old c = del_cached old c.cached c

-- the sort is asked for if the storage sorts its listings
unfoldable pub debounced : Bool → Shared → Shared
debounced local_sort c = if local_sort then record c { pending = c.cached } else c

module _ (grow : ℕ → ℕ) where
  -- append(objs, new) of a slice that ends where its array does; `grow` is the room that a new array of a length gets
  unfoldable pub append_end : Slice → Listed → ℕ → Shared → Shared
  unfolding written made
  append_end s new zero c =
      let objs = (c.arrays s.array).cells ++ new ∷ [] in made objs (grow (length objs)) c
  append_end s new (suc room) c = record c {
    arrays =
        written c.arrays s.array
          (record { cells = (c.arrays s.array).cells ++ new ∷ []; spare = room });
    cached = some (record s { len = suc s.len });
  }

  -- append(objs, new)
  unfoldable pub append_to : Slice → Listed → Shared → Shared
  unfolding append_end written
  append_to s new c =
      let a = c.arrays s.array in
      if ltb s.len (length a.cells)
      then record c {
        arrays = written c.arrays s.array (record {
          cells = take s.len a.cells ++ new ∷ drop (suc s.len) a.cells;
          spare = a.spare;
        });
        cached = some (record s { len = suc s.len });
      }
      else append_end s new a.spare c

  unfoldable pub add_cached : Bool → Listed → Option Slice → Shared → Shared
  unfolding overwrite value append_to made debounced
  add_cached local_sort new none c = c
  add_cached local_sort new (some s) c =
      let objs = value c.arrays s in
      if has_name objs new.name
      then record c { arrays = overwrite s (update_obj objs new new) c.arrays }
      else if ends_like objs new
      then debounced local_sort (append_to s new c)
      else debounced local_sort (made (new ∷ objs) (grow (length (new ∷ objs))) c)

  -- addCacheObj
  unfoldable pub add_shared : Bool → Listed → Shared → Shared
  unfolding add_cached
  add_shared local_sort new c = add_cached local_sort new c.cached c

-- List puts a slice of its own into the cache, with the room that the driver left in it; ClearCache deletes it.
unfoldable pub load_shared : List Listed → ℕ → Shared → Shared
unfolding made
load_shared objs room c = made objs room c

unfoldable pub clear_shared : Shared → Shared
clear_shared c = record c { cached = none }

module _ (sorter : Sorter) (order_by order_direction : Bytes) where
  unfoldable pub sort_pending : Option Slice → Shared → Shared
  unfolding overwrite value sort_files
  sort_pending none c = c
  sort_pending (some s) c = record c {
    arrays = overwrite s (sort_files sorter order_by order_direction (value c.arrays s)) c.arrays;
    pending = none;
  }

  -- The function of the debounce, a minute after the last call of addCacheObj that asked for it.
  unfoldable pub sort_shared : Shared → Shared
  unfolding sort_pending
  sort_shared c = sort_pending c.pending c

-- What a Get of the cache answers.
unfoldable pub listing : Shared → Option (List Listed)
unfolding value
listing c = elim c.cached [ none ↦ none | some s ↦ some (value c.arrays s) ]
