-- ===== src/Op/Storages/Resolve.antt =====
-- GetStorageAndActualPath in terms of names.
use xiaoya_qwen.Prelude.{
  List, [], ◌∷◌, ◌++◌, true, Bytes, ◌≡◌, refl, sym, ap, ◌∙◌, Option, none, some, In, All, Lacks,
  arith, ◌≤◌, beq, inl, ap₂, get_elem?-In, beq_iff,
}
use xiaoya_qwen.Go.Strings.{trim_prefix, split, replace_all}
use xiaoya_qwen.Go.Strings.Laws.{trim_prefix-append}
use xiaoya_qwen.Go.Path.{
  slash, absolute, spelled, AllNames, spelled-append, elements-spelled, elements-slash, IsName,
  elements, resolve, step,
}
use xiaoya_qwen.Utils.Path.{fix_and_clean_path, is_sub_path}
use xiaoya_qwen.Utils.Path.Clean.{
  names, names-AllNames, names-Lacks, names-elements, spelled-Lacks, fix_and_clean_path-absolute,
  names-fix, fix_and_clean_path_idem,
}
use xiaoya_qwen.Utils.Path.SubPath.{is_sub_path_iff}
use xiaoya_qwen.Utils.Balance.{get_actual_mount_path}
use xiaoya_qwen.Model.Storage.{Driver}
use xiaoya_qwen.Op.Storages.{
  StoragesMap, BalanceMap, Entry, found, get_storages_by_path, get_balanced_storage,
  get_storage_and_actual_path, balance, slash_count, actual_path,
}
use xiaoya_qwen.Op.Storages.LongestMatch.{Matches, actual, depth, get_storages_by_path_iff}

-- A mount path as the program keeps it: clean, also without its balance suffix.
abbrev pub IsMount : Bytes → Type 0
IsMount p = fix_and_clean_path p ≡ p

-- Each storage is kept under its own mount path.
abbrev pub IsKeyed : StoragesMap → Type 0
IsKeyed m = (e : Entry) → In e m → (e.0 ≡ e.1.storage.mount_path) × IsMount (actual e)

plain : (ps : List Bytes) → All (Lacks b'\\') ps → Lacks b'\\' (spelled ps)
plain ps l = spelled-Lacks b'\\' ps (omega arith) l

trim-root :
    (t : List Bytes) → AllNames t → All (Lacks b'\\') t → names (trim_prefix (absolute t) slash) ≡ t
trim-root [] ht l =
    rw (trim_prefix-append slash [])
      (unfold names replace_all elements split resolve step beq in refl)
trim-root (y ∷ t) ht l =
    rw
      (
        trim_prefix-append slash (y ++ spelled t),
        names-elements (y ++ spelled t) (plain (y ∷ t) l).1,
      )
      (sym (elements-slash (y ++ spelled t)) ∙ elements-spelled (y ∷ t) ht)

trim-names :
    (xs t : List Bytes)
    → AllNames t
    → All (Lacks b'\\') t
    → names (trim_prefix (absolute (xs ++ t)) (absolute xs)) ≡ t
trim-names [] t ht l = trim-root t ht l
trim-names (x ∷ xs) t ht l =
    rw
      (
        spelled-append (x ∷ xs) t,
        trim_prefix-append (spelled (x ∷ xs)) (spelled t),
        names-elements (spelled t) (plain t l),
      )
      (elements-spelled t ht)

split-All : (P : Bytes → Type 0) (xs t : List Bytes) → All P (xs ++ t) → All P t
split-All P [] t h = h
split-All P (x ∷ xs) t h = split-All P xs t h.1

balance-In : (ds : List Driver) (b : BalanceMap) {d : Driver} → (balance ds b).0 ≡ some d → In d ds
unfolding balance
balance-In [] b h = cc
balance-In (d ∷ []) b h = inl (cc)
balance-In (d ∷ e ∷ ds) b h = get_elem?-In (d ∷ e ∷ ds) _ h

-- The path below a mount path that contains it.
below :
    (mount path : Bytes)
    → IsMount mount
    → is_sub_path mount path ≡ true
    → names path
      ≡ names mount ++ names (fix_and_clean_path (trim_prefix (fix_and_clean_path path) mount))
below mount path c h =
    let (t, e) = (is_sub_path_iff mount path).0 h in
    let q : names (fix_and_clean_path (trim_prefix (fix_and_clean_path path) mount)) ≡ t =
      names-fix (trim_prefix (fix_and_clean_path path) mount)
      ∙ ap₂ (λ a b. names (trim_prefix a b)) (fix_and_clean_path-absolute path ∙ ap absolute e)
          (sym c ∙ fix_and_clean_path-absolute mount)
      ∙ trim-names (names mount) t
          (split-All IsName (names mount) t (rw e at (names-AllNames path)))
          (split-All (Lacks b'\\') (names mount) t (rw e at (names-Lacks path))) in
    e ∙ ap (λ r. names mount ++ r) (sym q)

chosen :
    (m : StoragesMap) (path : Bytes) (b : BalanceMap) {d : Driver}
    → (get_balanced_storage m path b).0 ≡ some d
    → In d (get_storages_by_path m (fix_and_clean_path path))
unfolding get_balanced_storage
chosen m path b h = balance-In (get_storages_by_path m (fix_and_clean_path path)) b h

actual_path-found :
    (raw_path : Bytes) (o : Option Driver) {d : Driver} {a : Bytes}
    → actual_path raw_path o ≡ found d a
    → (o ≡ some d)
      × (a ≡ fix_and_clean_path (trim_prefix raw_path (get_actual_mount_path d.storage.mount_path)))
unfolding actual_path
actual_path-found raw_path none h = ground (arith, beq_iff raw_path slash)
actual_path-found raw_path (some e) h = ground arith

is_sub_path-fix : (p q : Bytes) → is_sub_path p (fix_and_clean_path q) ≡ is_sub_path p q
unfolding is_sub_path
is_sub_path-fix p q = rw (fix_and_clean_path_idem q)

is_sub_path-fix_twice :
    (p q : Bytes) → is_sub_path p (fix_and_clean_path (fix_and_clean_path q)) ≡ is_sub_path p q
is_sub_path-fix_twice p q = is_sub_path-fix p (fix_and_clean_path q) ∙ is_sub_path-fix p q

-- With clean mount paths, the names of the mount path and the names of the path that the storage is
-- asked for are together the names of the request, and no deeper mount path contains the request.
pub get_storage_and_actual_path-names :
    (m : StoragesMap) (raw_path : Bytes) (b : BalanceMap) (d : Driver) (a : Bytes)
    → IsKeyed m
    → (get_storage_and_actual_path m raw_path b).0 ≡ found d a
    → (names raw_path ≡ names (get_actual_mount_path d.storage.mount_path) ++ names a)
      × ((x : Entry)
          → In x m
          → Matches raw_path x
          → depth x ≤ slash_count (get_actual_mount_path d.storage.mount_path))
unfolding get_storage_and_actual_path
get_storage_and_actual_path-names m raw_path b d a keyed h =
    let (o, q) = actual_path-found (fix_and_clean_path raw_path) _ h in
    let (e, i, same, hit, top) =
      (get_storages_by_path_iff m _ d).0 (chosen m (fix_and_clean_path raw_path) b o) in
    let mount : get_actual_mount_path d.storage.mount_path ≡ actual e =
      ap get_actual_mount_path
        (sym ((keyed e i).0 ∙ ap (λ (x : Driver). x.storage.mount_path) same)) in
    (
      below (get_actual_mount_path d.storage.mount_path) raw_path (rw mount ((keyed e i).1))
            (rw mount (sym (is_sub_path-fix_twice (actual e) raw_path) ∙ hit))
          ∙ ap (λ r. names (get_actual_mount_path d.storage.mount_path) ++ names r) (sym q),
      λ x j n. rw (ap slash_count mount) (top x j (is_sub_path-fix_twice (actual x) raw_path ∙ n)),
    )
