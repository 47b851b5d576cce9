-- ===== src/Op/Files/Shared/Settled.antt =====
-- Which slice the debounced sort of addCacheObj has, among the other changes of a cached listing.
use xiaoya_qwen.Prelude.{
  ℕ, zero, suc, ◌<◌, List, ◌∷◌, Bytes, Bool, false, Option, none, some, ltb, length, ◌≡◌, refl, sym,
  ap, ◌∙◌, arith, Bool-cases, inl, inr,
}
use xiaoya_qwen.Model.Objects.{Listed, Sorter}
use xiaoya_qwen.Op.Files.Listing.{has_name, ends_like}
use xiaoya_qwen.Op.Files.Listing.Refinement.{Edit, add, del, update}
use xiaoya_qwen.Op.Files.Shared.{
  Array, Slice, Shared, value, made, update_cached, update_shared, del_cached, del_shared,
  append_end, append_to, debounced, add_cached, add_shared, load_shared, clear_shared, sort_pending,
  sort_shared,
}

-- What is done to the listing under a key: List puts one into the cache, the operations change it or ClearCache deletes
-- it, and the sort runs.
pub data Change : Type 0 where
  loads : List Listed → ℕ → Change
  clears sorts : Change
  edits : Edit → Change

-- The order in which the slices are made, and that the slice to be sorted is the cached one, if they share an array.
pub record Settled (local_sort : Bool) (c : Shared) : Type 0 where
  pub cached_made : (s : Slice) → c.cached ≡ some s → s.array < c.next
  pub pending_made : (p : Slice) → c.pending ≡ some p → p.array < c.next
  pub same :
      (s p : Slice) → c.cached ≡ some s → c.pending ≡ some p → p.array ≡ s.array → p.len ≡ s.len
  pub unsorted : local_sort ≡ false → c.pending ≡ none

abbrev array_of : Option Slice → ℕ
array_of none = 0
array_of (some s) = s.array

abbrev len_of : Option Slice → ℕ
len_of none = 0
len_of (some s) = s.len

module _ (grow : ℕ → ℕ) (local_sort : Bool) where
  made-Settled :
      (objs : List Listed) (spare : ℕ) (c : Shared)
      → Settled local_sort c
      → Settled local_sort (made objs spare c)
  unfolding made
  made-Settled objs spare c w = record {
    cached_made = λ s e. let n : c.next ≡ s.array = ap array_of e in omega (arith, n);
    pending_made = λ p e. omega (arith, w.pending_made p e);
    same = λ s p e f a.
        let n : c.next ≡ s.array = ap array_of e in
        absurd (omega (arith, n, a, w.pending_made p f));
    unsorted = w.unsorted;
  }

  -- The slice that is asked to be sorted is the cached one.
  debounced-Settled :
      (c : Shared)
      → ((s : Slice) → c.cached ≡ some s → s.array < c.next)
      → (local_sort ≡ false → c.pending ≡ none)
      → Settled local_sort (debounced local_sort c)
  unfolding debounced
  debounced-Settled c m u = elim (Bool-cases local_sort) [
    | inl b ↦ rw b (record {
      cached_made = m;
      pending_made = m;
      same = λ s p e f a. ap len_of (sym f ∙ e);
      unsorted = λ x. cc;
    })
    | inr b ↦ rw b (record {
      cached_made = m;
      pending_made = λ p e. cc (e, u b);
      same = λ s p e f a. cc (f, u b);
      unsorted = λ x. u b;
    })
  ]

  arrays-Settled :
      (arrays : ℕ → Array) (c : Shared)
      → Settled local_sort c
      → Settled local_sort (record c { arrays = arrays })
  arrays-Settled arrays c w = record {
    cached_made = w.cached_made;
    pending_made = w.pending_made;
    same = w.same;
    unsorted = w.unsorted;
  }

  update_cached-Settled :
      (old new : Listed) (o : Option Slice) (c : Shared)
      → Settled local_sort c
      → Settled local_sort (update_cached old new o c)
  unfolding update_cached
  update_cached-Settled old new none c w = w
  update_cached-Settled old new (some s) c w = arrays-Settled _ c w

  del_cached-Settled :
      (old : Listed) (o : Option Slice) (c : Shared)
      → c.cached ≡ o
      → c.pending ≡ none
      → Settled local_sort c
      → Settled local_sort (del_cached old o c)
  unfolding del_cached
  del_cached-Settled old none c e n w = w
  del_cached-Settled old (some s) c e n w =
      elim (Bool-cases (has_name (value c.arrays s) old.name)) [
        | inl h ↦ rw h (record {
          cached_made = λ t f.
              let a : s.array ≡ t.array = ap array_of f in omega (arith, a, w.cached_made s e);
          pending_made = λ p f. cc (f, n);
          same = λ t p f g a. cc (g, n);
          unsorted = w.unsorted;
        })
        | inr h ↦ rw h w
      ]

  -- The cached slice lies in an array that is made, and the pending one stays.
  abbrev Appends : Shared → Shared → Type 0
  Appends c c' = ((t : Slice) → c'.cached ≡ some t → t.array < c'.next) × (c'.pending ≡ c.pending)

  append_end-Appends :
      (new : Listed) (s : Slice) (room : ℕ) (c : Shared)
      → s.array < c.next
      → Appends c (append_end grow s new room c)
  unfolding append_end made
  append_end-Appends new s zero c m =
      (λ t e. let a : c.next ≡ t.array = ap array_of e in omega (arith, a), refl)
  append_end-Appends new s (suc room) c m =
      (λ t e. let a : s.array ≡ t.array = ap array_of e in omega (arith, a, m), refl)

  append_to-Appends :
      (new : Listed) (s : Slice) (c : Shared)
      → s.array < c.next
      → Appends c (append_to grow s new c)
  unfolding append_to
  append_to-Appends new s c m = elim (Bool-cases (ltb s.len (length (c.arrays s.array).cells))) [
    | inl h ↦ rw h (λ t e. let a : s.array ≡ t.array = ap array_of e in omega (arith, a, m), refl)
    | inr h ↦ rw h (append_end-Appends new s (c.arrays s.array).spare c m)
  ]

  add_cached-Settled :
      (new : Listed) (o : Option Slice) (c : Shared)
      → c.cached ≡ o
      → Settled local_sort c
      → Settled local_sort (add_cached grow local_sort new o c)
  unfolding add_cached
  add_cached-Settled new none c e w = w
  add_cached-Settled new (some s) c e w =
      let objs = value c.arrays s in
      elim (Bool-cases (has_name objs new.name)) [
        | inl h ↦ rw h (arrays-Settled _ c w)
        | inr h ↦ elim (Bool-cases (ends_like objs new)) [
          | inl l ↦
              let (m, p) = append_to-Appends new s c (w.cached_made s e) in
              rw (h, l) (debounced-Settled (append_to grow s new c) m (λ b. p ∙ w.unsorted b))
          | inr l ↦
              let w' = made-Settled (new ∷ objs) (grow (length (new ∷ objs))) c w in
              rw (h, l)
                (debounced-Settled (made (new ∷ objs) (grow (length (new ∷ objs))) c) w'.cached_made
                  w'.unsorted)
        ]
      ]

  module _ (sorter : Sorter) (order_by order_direction : Bytes) where
    unfoldable pub perform : Change → Shared → Shared
    unfolding load_shared clear_shared update_shared del_shared add_shared sort_shared
    perform (loads objs room) c = load_shared objs room c
    perform clears c = clear_shared c
    perform sorts c = sort_shared sorter order_by order_direction c
    perform (edits (add new)) c = add_shared grow local_sort new c
    perform (edits (del old)) c = del_shared old c
    perform (edits (update old new)) c = update_shared old new c

    -- No object is deleted while a sort is asked for.
    abbrev pub Waits : Change → Shared → Type 0
    Waits (loads objs room) c = Unit {0}
    Waits clears c = Unit {0}
    Waits sorts c = Unit {0}
    Waits (edits (add new)) c = Unit {0}
    Waits (edits (del old)) c = c.pending ≡ none
    Waits (edits (update old new)) c = Unit {0}

    sort_pending-Settled :
        (p : Option Slice) (c : Shared)
        → Settled local_sort c
        → Settled local_sort (sort_pending sorter order_by order_direction p c)
    unfolding sort_pending
    sort_pending-Settled none c w = w
    sort_pending-Settled (some p) c w = record {
      cached_made = w.cached_made;
      pending_made = λ p' e. cc;
      same = λ s p' e f a. cc;
      unsorted = λ b. refl;
    }

    pub perform-Settled :
        (change : Change) (c : Shared)
        → Waits change c
        → Settled local_sort c
        → Settled local_sort (perform change c)
    unfolding perform load_shared clear_shared
    perform-Settled (loads objs room) c h w = made-Settled objs room c w
    perform-Settled clears c h w = record {
      cached_made = λ s e. cc;
      pending_made = w.pending_made;
      same = λ s p e f a. cc;
      unsorted = w.unsorted;
    }
    perform-Settled sorts c h w = unfold sort_shared in sort_pending-Settled c.pending c w
    perform-Settled (edits (add new)) c h w =
        unfold add_shared in add_cached-Settled new c.cached c refl w
    perform-Settled (edits (del old)) c h w =
        unfold del_shared in del_cached-Settled old c.cached c refl h w
    perform-Settled (edits (update old new)) c h w =
        unfold update_shared in update_cached-Settled old new c.cached c w
