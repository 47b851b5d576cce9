-- ===== src/Op/Storages/LongestMatch.antt =====
-- getStoragesByPath and the mount paths that contain a path.
use mathlib.Core.List.{foldl, reverse, reverse_aux}
use xiaoya_qwen.Prelude.{
  ℕ, ◌≤◌, ◌<◌, [], ◌∷◌, ◌++◌, true, false, Bytes, ◌≡◌, refl, sym, subst, In, In-one, In-reverse_aux,
  reverse-In, In-cons, In-append, In-append_left, In-append_right, arith, inl, inr, Bool-cases,
  lt_trichotomy, ◌⊎◌, ◌↔◌,
}
use xiaoya_qwen.Utils.Path.{is_sub_path}
use xiaoya_qwen.Utils.Balance.{get_actual_mount_path}
use xiaoya_qwen.Go.Sort.{In-sort_by}
use xiaoya_qwen.Model.Storage.{Driver}
use xiaoya_qwen.Op.Storages.{
  Entry, StoragesMap, Longest, slash_count, consider, by_mount_path, get_storages_by_path,
}

-- The mount path of an entry without its balance suffix, and how deep it is.
abbrev pub actual : Entry → Bytes
actual e = get_actual_mount_path e.0

abbrev pub depth : Entry → ℕ
depth e = slash_count (actual e)

module _ (path : Bytes) where
  abbrev pub Matches : Entry → Type 0
  Matches e = is_sub_path (actual e) path ≡ true

  -- What the loop has established once it has seen the entries `seen`.
  record IsLongest (seen : StoragesMap) (l : Longest) : Type 0 where
    bound : (e : Entry) → In e seen → Matches e → depth e ≤ l.cur_slash_count
    sound :
        (d : Driver)
        → In d l.storages
        → (e : Entry) × In e seen × (e.1 ≡ d) × Matches e × (depth e ≡ l.cur_slash_count)
    complete : (e : Entry) → In e seen → Matches e → depth e ≡ l.cur_slash_count → In e.1 l.storages
    attained :
        (l.cur_slash_count ≡ 0)
        ⊎ ((e : Entry) × In e seen × Matches e × (depth e ≡ l.cur_slash_count))

  module _ (l : Longest) (e : Entry) where
    consider-skip : is_sub_path (actual e) path ≡ false → consider path l e ≡ l
    unfolding consider
    consider-skip h = rw h

    consider-deeper :
        Matches e
        → l.cur_slash_count < depth e
        → consider path l e ≡ record { storages = e.1 ∷ []; cur_slash_count = depth e }
    unfolding consider
    consider-deeper h k = ground arith

    consider-equal :
        Matches e
        → depth e ≡ l.cur_slash_count
        → consider path l e ≡ record l { storages = l.storages ++ e.1 ∷ [] }
    unfolding consider
    consider-equal h k = ground arith

    consider-shallower : Matches e → depth e < l.cur_slash_count → consider path l e ≡ l
    unfolding consider
    consider-shallower h k = ground arith

  module _ (seen : StoragesMap) (l : Longest) (e : Entry) (v : IsLongest seen l) where
    still_attained :
        (l.cur_slash_count ≡ 0)
          ⊎ ((x : Entry) × In x seen × Matches x × (depth x ≡ l.cur_slash_count))
        → (l.cur_slash_count ≡ 0)
          ⊎ ((x : Entry) × In x (e ∷ seen) × Matches x × (depth x ≡ l.cur_slash_count))
    still_attained (inl z) = inl z
    still_attained (inr (x, i, m, k)) = inr (x, inr i, m, k)

    -- An entry that does not match, or not so deep, leaves the loop's variables as they are.
    kept : (Matches e → depth e < l.cur_slash_count) → IsLongest (e ∷ seen) l
    kept out = record {
      bound =
          In-cons (λ x. Matches x → depth x ≤ l.cur_slash_count) e seen (λ m. omega (arith, out m))
            v.bound;
      sound = λ d i. let (x, p, q, m, k) = v.sound d i in (x, inr p, q, m, k);
      complete =
          In-cons (λ x. Matches x → depth x ≡ l.cur_slash_count → In x.1 l.storages) e seen
            (λ m k. absurd (omega (arith, out m))) v.complete;
      attained = still_attained v.attained;
    }

    deeper :
        Matches e
        → l.cur_slash_count < depth e
        → IsLongest (e ∷ seen) (record { storages = e.1 ∷ []; cur_slash_count = depth e })
    deeper m h = record {
      bound =
          In-cons (λ x. Matches x → depth x ≤ depth e) e seen (λ _. omega arith)
            (λ x i n. omega (arith, v.bound x i n));
      sound = λ d i. (e, inl refl, sym (In-one d e.1 i), m, refl);
      attained = inr (e, inl refl, m, refl);
      complete =
          In-cons (λ x. Matches x → depth x ≡ depth e → In x.1 (e.1 ∷ [])) e seen (λ _ _. inl refl)
            (λ x i n k. absurd (omega (arith, v.bound x i n)));
    }

    equal :
        Matches e
        → depth e ≡ l.cur_slash_count
        → IsLongest (e ∷ seen) (record l { storages = l.storages ++ e.1 ∷ [] })
    equal m h = record {
      bound =
          In-cons (λ x. Matches x → depth x ≤ l.cur_slash_count) e seen (λ _. omega arith) v.bound;
      sound = λ d i. elim (In-append d l.storages (e.1 ∷ []) i) [
        | inl j ↦ let (x, p, q, n, k) = v.sound d j in (x, inr p, q, n, k)
        | inr j ↦ (e, inl refl, sym (In-one d e.1 j), m, h)
      ];
      complete =
          In-cons (λ x. Matches x → depth x ≡ l.cur_slash_count → In x.1 (l.storages ++ e.1 ∷ [])) e
            seen (λ _ _. In-append_right e.1 l.storages (e.1 ∷ []) (inl refl))
            (λ x i n k. In-append_left x.1 l.storages (e.1 ∷ []) (v.complete x i n k));
      attained = still_attained v.attained;
    }

    consider-IsLongest : IsLongest (e ∷ seen) (consider path l e)
    consider-IsLongest = elim (Bool-cases (is_sub_path (actual e) path)) [
      | inr h ↦ rw (consider-skip l e h) (kept (λ m. cc))
      | inl m ↦ elim (lt_trichotomy l.cur_slash_count (depth e)) [
        | inl h ↦ rw (consider-deeper l e m h) (deeper m h)
        | inr (inl h) ↦ rw (consider-equal l e m (sym h)) (equal m (sym h))
        | inr (inr h) ↦ rw (consider-shallower l e m h) (kept (λ _. h))
      ]
    ]

  loop-IsLongest :
      (m seen : StoragesMap) (l : Longest)
      → IsLongest seen l
      → IsLongest (reverse_aux m seen) (foldl (consider path) l m)
  loop-IsLongest [] seen l v = v
  loop-IsLongest (e ∷ m) seen l v =
      loop-IsLongest m (e ∷ seen) (consider path l e) (consider-IsLongest seen l e v)

  start-IsLongest : IsLongest [] (record { storages = []; cur_slash_count = 0 })
  start-IsLongest = record {
    bound = λ e i. elim i [ ];
    sound = λ d i. elim i [ ];
    complete = λ e i. elim i [ ];
    attained = inl refl;
  }

abbrev start : Longest
start = record { storages = []; cur_slash_count = 0 }

-- What is found is deep enough to be complete for the deepest entries.
deepest :
    (path : Bytes) (m : StoragesMap) (l : Longest) (e : Entry)
    → IsLongest path (reverse m) l
    → In e m
    → Matches path e
    → ((x : Entry) → In x m → Matches path x → depth x ≤ depth e)
    → In e.1 l.storages
deepest path m l e v i h top =
    let j = In-reverse_aux e m [] (inl i) in
    v.complete e j h (omega (arith, v.bound e j h, reached v.attained))
  where
    reached :
        (l.cur_slash_count ≡ 0)
          ⊎ ((x : Entry) × In x (reverse m) × Matches path x × (depth x ≡ l.cur_slash_count))
        → l.cur_slash_count ≤ depth e
    reached (inl z) = omega arith
    reached (inr (x, k, n, q)) = omega (arith, top x (reverse-In x m k) n)

-- getStoragesByPath returns exactly the storages whose mount path, without its balance suffix,
-- contains the path and is the deepest of those that do, whatever the order of the map.
pub get_storages_by_path_iff :
    (m : StoragesMap) (path : Bytes) (d : Driver)
    → In d (get_storages_by_path m path) ↔ (
        (e : Entry) × In e m
        × (e.1 ≡ d)
        × Matches path e
        × ((x : Entry) → In x m → Matches path x → depth x ≤ depth e))
unfolding get_storages_by_path
get_storages_by_path_iff m path d =
    let l = foldl (consider path) start m in
    let v = loop-IsLongest path m [] start (start-IsLongest path) in
    (
      λ i.
          let (e, j, q, h, k) = v.sound d ((In-sort_by by_mount_path d l.storages).0 i) in
          (
            e,
            reverse-In e m j,
            q,
            h,
            λ x a n. omega (arith, v.bound x (In-reverse_aux x m [] (inl a)) n),
          ),
      λ (e, i, q, h, top).
          (In-sort_by by_mount_path d l.storages).1
            (subst (λ y. In y l.storages) q (deepest path m l e v i h top)),
    )
