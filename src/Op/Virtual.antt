-- ===== src/Op/Virtual.antt =====
-- GetStorageVirtualFilesByPath of internal/op/storage.go: the folders that mount paths make below a path. The
-- values of storagesMap are a list.
use xiaoya_qwen.Prelude.{
  ℕ, List, [], ◌∷◌, ◌++◌, append-nil, Bytes, Bool, true, false, not, ◌||◌, Option, none, some, leb,
  ◌==◌, if◌then◌else◌, length, drop, ◌≡◌, ◌≢◌, refl, sym, ap, ◌∙◌, subst, arith, In, inl, inr,
  All-In, In-append, In-append_right, Lacks, Bool-cases, List-cases,
}
use xiaoya_qwen.Prelude.Int.{pos, int_lt, int_eq}
use xiaoya_qwen.Go.Strings.{trim_prefix, has_prefix}
use xiaoya_qwen.Go.Strings.Laws.{trim_prefix-append}
use xiaoya_qwen.Go.Sort.{str_lt, sort_by, In-sort_by}
use xiaoya_qwen.Go.Path.{slash, absolute, spelled, spelled-append, AllNames, IsName}
use xiaoya_qwen.Utils.Path.{fix_and_clean_path, is_sub_path}
use xiaoya_qwen.Utils.Path.Clean.{
  names, names-fix, fix_and_clean_path_idem, names-AllNames, fix_and_clean_path-absolute,
}
use xiaoya_qwen.Utils.Path.SubPath.{is_sub_path_iff}
use xiaoya_qwen.Utils.Balance.{get_actual_mount_path}
use xiaoya_qwen.Model.Storage.{Driver}
use xiaoya_qwen.Model.Objects.{Obj, has}

unfoldable pub by_order : Driver → Driver → Bool
unfolding str_lt
by_order a b =
    if int_eq a.storage.order b.storage.order
    then str_lt a.storage.mount_path b.storage.mount_path
    else int_lt a.storage.order b.storage.order

-- strings.SplitN(s, "/", 2)[0]
unfoldable pub before_slash : Bytes → Bytes
before_slash [] = []
before_slash (c ∷ s) = let rest = before_slash s in if c == b'/' then [] else c ∷ rest

-- the name that a mount path makes below `prefix`, if it is not left out
unfoldable pub virtual_name : Bytes → Bytes → Option Bytes
virtual_name prefix mount_path =
    if leb (length mount_path) (length prefix) || not (is_sub_path prefix mount_path)
    then none
    else some (before_slash (trim_prefix (drop (length prefix) mount_path) slash))

abbrev pub folder : Bytes → ℕ → Obj
folder name modified = record {
  size = pos 0;
  name = name;
  mod_time = modified;
  is_dir = true;
  id = [];
  path = [];
}

unfoldable pub add_name : Option Bytes → ℕ → List Bytes → List Obj → List Bytes × List Obj
unfolding has
add_name none modified set files = (set, files)
add_name (some name) modified set files =
    if has set name then (set, files) else (set ++ name ∷ [], files ++ folder name modified ∷ [])

unfoldable pub virtual_loop : Bytes → List Driver → List Bytes → List Obj → List Obj
unfolding virtual_name add_name
virtual_loop prefix [] set files = files
virtual_loop prefix (v ∷ vs) set files =
    let name = virtual_name prefix (get_actual_mount_path v.storage.mount_path) in
    let next = add_name name v.storage.modified set files in virtual_loop prefix vs next.0 next.1

unfoldable pub get_storage_virtual_files_by_path : List Driver → Bytes → List Obj
unfolding virtual_loop by_order
get_storage_virtual_files_by_path storages prefix =
    virtual_loop (fix_and_clean_path prefix) (sort_by by_order storages) [] []

before_slash-name : (n r : Bytes) → Lacks b'/' n → before_slash (n ++ b'/' ∷ r) ≡ n
unfolding before_slash
before_slash-name [] r h = refl
before_slash-name (c ∷ n) r h = ground (arith, before_slash-name n r h.1)

before_slash-Lacks : (n : Bytes) → Lacks b'/' n → before_slash n ≡ n
unfolding before_slash
before_slash-Lacks [] h = refl
before_slash-Lacks (c ∷ n) h = ground (arith, before_slash-Lacks n h.1)

before_slash-spelled :
    (n : Bytes) (t : List Bytes) → Lacks b'/' n → before_slash (n ++ spelled t) ≡ n
before_slash-spelled n [] h = ap before_slash (append-nil n) ∙ before_slash-Lacks n h
before_slash-spelled n (x ∷ t) h = before_slash-name n _ h

drop-spelled : (p r : Bytes) → drop (length p) (p ++ r) ≡ r
drop-spelled [] r = refl
drop-spelled (c ∷ p) r = drop-spelled p r

trim-name : (n r : Bytes) → n ≢ [] → Lacks b'/' n → trim_prefix (n ++ r) slash ≡ n ++ r
unfolding trim_prefix has_prefix
trim-name [] r ne h = absurd (ne refl)
trim-name (c ∷ n) r ne h = ground (arith, h.0)

-- What is cut off a mount path below the prefix is the name below it.
first_name :
    (qs : List Bytes) (n : Bytes) (t : List Bytes)
    → IsName n
    → before_slash (trim_prefix (drop (length (absolute qs)) (absolute (qs ++ n ∷ t))) slash) ≡ n
first_name [] n t h =
    rw (trim-name n (spelled t) h.not_empty h.no_slash) (before_slash-spelled n t h.no_slash)
first_name (q ∷ qs) n t h =
    rw
      (
        spelled-append (q ∷ qs) (n ∷ t),
        drop-spelled (spelled (q ∷ qs)) (spelled (n ∷ t)),
        trim_prefix-append slash (n ++ spelled t),
      )
      (before_slash-spelled n t h.no_slash)

virtual_name-some :
    (prefix mount_path n : Bytes)
    → virtual_name prefix mount_path ≡ some n
    → (leb (length mount_path) (length prefix) ≡ false)
      × (is_sub_path prefix mount_path ≡ true)
      × (before_slash (trim_prefix (drop (length prefix) mount_path) slash) ≡ n)
unfolding virtual_name
virtual_name-some prefix mount_path n e = (ground arith, ground arith, ground arith)

same_length : (p q : Bytes) → p ≡ q → leb (length p) (length q) ≢ false
same_length p q e h = let l : length p ≡ length q = ap length e in ground arith

spelled_names : (p : Bytes) → fix_and_clean_path p ≡ p → p ≡ absolute (names p)
spelled_names p h = sym h ∙ fix_and_clean_path-absolute p

-- The name of a mount path below the prefix is the one after the names of the prefix.
next_name :
    (prefix mount_path y : Bytes) (ys : List Bytes)
    → fix_and_clean_path prefix ≡ prefix
    → fix_and_clean_path mount_path ≡ mount_path
    → names mount_path ≡ names prefix ++ y ∷ ys
    → before_slash (trim_prefix (drop (length prefix) mount_path) slash) ≡ y
next_name prefix mount_path y ys hp hm q =
    let m : mount_path ≡ absolute (names prefix ++ y ∷ ys) =
      spelled_names mount_path hm ∙ ap absolute q in
    let name : IsName y =
      All-In IsName (names prefix ++ y ∷ ys) y (subst AllNames q (names-AllNames mount_path))
        (In-append_right y (names prefix) (y ∷ ys) (inl refl)) in
    ap (λ r. before_slash (trim_prefix (drop (length r) mount_path) slash))
      (spelled_names prefix hp)
    ∙ ap (λ r. before_slash (trim_prefix (drop (length (absolute (names prefix))) r) slash)) m
    ∙ first_name (names prefix) y ys name

-- A mount path that is not left out lies below the prefix, and its name is the one after the prefix.
virtual_name-names :
    (prefix mount_path n : Bytes)
    → fix_and_clean_path prefix ≡ prefix
    → fix_and_clean_path mount_path ≡ mount_path
    → virtual_name prefix mount_path ≡ some n
    → (t : List Bytes) × (names mount_path ≡ names prefix ++ n ∷ t)
virtual_name-names prefix mount_path n hp hm e =
    let (longer, sub, cut) = virtual_name-some prefix mount_path n e in
    let (t, q) = (is_sub_path_iff prefix mount_path).0 sub in
    elim (List-cases t) [
      | inl z ↦ absurd (
          same_length mount_path prefix
            (spelled_names mount_path hm
              ∙ ap absolute (q ∙ ap (λ r. names prefix ++ r) z ∙ append-nil (names prefix))
              ∙ sym (spelled_names prefix hp))
            longer)
      | inr (y, ys, z) ↦
          let q' : names mount_path ≡ names prefix ++ y ∷ ys = q ∙ ap (λ r. names prefix ++ r) z in
          let same : y ≡ n = sym (next_name prefix mount_path y ys hp hm q') ∙ cut in
          (ys, q' ∙ ap (λ r. names prefix ++ r ∷ ys) same)
    ]

-- A storage gives a folder its name: the name comes next below `prefix` on its mount path.
abbrev pub IsNamed : Bytes → List Driver → Bytes → Type 0
IsNamed prefix storages n =
    (v : Driver) × In v storages
    × ((t : List Bytes) × (names (get_actual_mount_path v.storage.mount_path)
          ≡ names prefix ++ n ∷ t))

module _ (prefix : Bytes) (hp : fix_and_clean_path prefix ≡ prefix) (all : List Driver) where
  IsClean : Driver → Type 0
  IsClean v =
      fix_and_clean_path (get_actual_mount_path v.storage.mount_path)
      ≡ get_actual_mount_path v.storage.mount_path

  added :
      (v : Driver) (o : Option Bytes) (set : List Bytes) (files : List Obj) (f : Obj)
      → In v all
      → IsClean v
      → virtual_name prefix (get_actual_mount_path v.storage.mount_path) ≡ o
      → ((g : Obj) → In g files → IsNamed prefix all g.name)
      → In f (add_name o v.storage.modified set files).1
      → IsNamed prefix all f.name
  unfolding add_name IsClean
  added v none set files f i c e h j = h f j
  added v (some n) set files f i c e h j = elim (Bool-cases (has set n)) [
    | inl old ↦ h f (rw old at j)
    | inr new ↦ elim (In-append f files (folder n v.storage.modified ∷ []) (rw new at j)) [
      | inl k ↦ h f k
      | inr (inl q) ↦
          let named =
            virtual_name-names prefix (get_actual_mount_path v.storage.mount_path) n hp c e in
          subst (IsNamed prefix all) (ap (λ x. x.name) (sym q)) (v, i, named)
      | inr (inr k) ↦ elim k [ ]
    ]
  ]

  looped :
      (vs : List Driver) (set : List Bytes) (files : List Obj) (f : Obj)
      → ((v : Driver) → In v vs → In v all)
      → ((v : Driver) → In v all → IsClean v)
      → ((g : Obj) → In g files → IsNamed prefix all g.name)
      → In f (virtual_loop prefix vs set files)
      → IsNamed prefix all f.name
  unfolding virtual_loop
  looped [] set files f sub c h j = h f j
  looped (v ∷ vs) set files f sub c h j =
      looped vs _ _ f (λ w i. sub w (inr i)) c
        (λ g i. added v _ set files g (sub v (inl refl)) (c v (sub v (inl refl))) refl h i) j

-- With clean mount paths, each folder that GetStorageVirtualFilesByPath returns has the name that comes next,
-- below the path that is asked for, on the mount path of some storage.
pub get_storage_virtual_files_by_path-IsNamed :
    (storages : List Driver) (prefix : Bytes) (f : Obj)
    → ((v : Driver)
        → In v storages
        → fix_and_clean_path (get_actual_mount_path v.storage.mount_path)
          ≡ get_actual_mount_path v.storage.mount_path)
    → In f (get_storage_virtual_files_by_path storages prefix)
    → IsNamed prefix storages f.name
unfolding get_storage_virtual_files_by_path IsClean
get_storage_virtual_files_by_path-IsNamed storages prefix f c i =
    let (v, j, (t, q)) =
      looped (fix_and_clean_path prefix) (fix_and_clean_path_idem prefix) storages
        (sort_by by_order storages) [] [] f (λ w k. (In-sort_by by_order w storages).0 k) c
        (λ g k. elim k [ ]) i in
    (v, j, (t, q ∙ ap (λ r. r ++ f.name ∷ t) (names-fix prefix)))
