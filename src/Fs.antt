-- ===== src/Fs.antt =====
-- internal/fs: list.go, get.go and link.go. They find the storage of a path and pass the call on to internal/op, whose
-- operations on the objects of a storage stand in an interface.
pub mod Hides
pub mod Copy
pub mod Changes
use xiaoya_qwen.Prelude.{
  ℕ, List, [], ◌∷◌, Bytes, Bool, true, false, not, Option, none, some, beq, codes, if◌then◌else◌,
  map,
}
use xiaoya_qwen.Prelude.Int.{pos}
use xiaoya_qwen.Go.Path.{slash, dir, base}
use xiaoya_qwen.Utils.Path.{fix_and_clean_path}
use xiaoya_qwen.Model.Storage.{Driver}
use xiaoya_qwen.Model.User.{User}
use xiaoya_qwen.Model.Meta.{Meta}
use xiaoya_qwen.Model.Objects.{Obj, ObjMerge, new_obj_merge, init_hide_reg, merge}
use xiaoya_qwen.Op.Files.Monad.{Answer, ok, err, FsError}
use xiaoya_qwen.Op.Storages.{
  StoragesMap, BalanceMap, Found, found, no_storage, not_found, get_storage_and_actual_path,
}
use xiaoya_qwen.Op.Virtual.{get_storage_virtual_files_by_path}
use xiaoya_qwen.Server.Check.{whether_hide}

-- op.List, op.Get and op.Link, on the state of the storages; an object is what the methods of the returned one return.
pub record Storages : Type 1 where
  pub State : Type 0
  pub Link : Type 0
  pub list : Driver → Bytes → Bool → State → Answer (List Obj) × State
  pub get : Driver → Bytes → State → Answer Obj × State
  pub link : Driver → Bytes → Bytes → State → Answer (Link × Obj) × State

-- A value, an error of the storage, that there is no storage, or a panic of a regular expression of Hide.
pub data FsResult (A : Type 0) : Type 0 where
  done : A → FsResult A
  failed : FsError → FsResult A
  no_mount : FsResult A
  hide_panics : FsResult A

-- What storagesMap.Values returns.
abbrev pub values : StoragesMap → List Driver
values m = map (λ e. e.1) m

module _ (o : Storages) (compile : Bytes → Option (Bytes → Bool)) where
  open o use {State}

  unfoldable pub merged : Option ObjMerge → List Obj → List Obj → FsResult (List Obj)
  merged none objs virtual_files = hide_panics
  merged (some om) objs virtual_files = done (merge om objs virtual_files).0

  -- the expressions of the meta, if it hides
  unfoldable pub hiding : Bool → Option Meta → Option ObjMerge
  hiding true (some meta) = init_hide_reg compile new_obj_merge meta.hide
  hiding true none = some new_obj_merge
  hiding false meta = some new_obj_merge

  -- an error of the storage is kept back if there are virtual files
  unfoldable pub listed : Answer (List Obj) → List Obj → Option ObjMerge → FsResult (List Obj)
  unfolding merged
  listed (ok objs) virtual_files om = merged om objs virtual_files
  listed (err x) [] om = failed x
  listed (err x) (v ∷ vs) om = merged om [] (v ∷ vs)

  unfoldable pub virtual_only : List Obj → Option ObjMerge → FsResult (List Obj)
  unfolding merged
  virtual_only [] om = no_mount
  virtual_only (v ∷ vs) om = merged om [] (v ∷ vs)

  unfoldable pub list_found :
      Found → List Obj → Option ObjMerge → Bool → State → FsResult (List Obj) × State
  unfolding listed virtual_only
  list_found (found d p) virtual_files om refresh s =
      let (answer, s') = o.list d p refresh s in (listed answer virtual_files om, s')
  list_found no_storage virtual_files om refresh s = (virtual_only virtual_files om, s)
  list_found (not_found p) virtual_files om refresh s = (virtual_only virtual_files om, s)

  -- list; the balance of the storages goes on with every call
  unfoldable pub list :
      StoragesMap
      → User
      → Option Meta
      → Bytes
      → Bool
      → BalanceMap
      → State
      → FsResult (List Obj) × State × BalanceMap
  unfolding list_found hiding get_storage_and_actual_path get_storage_virtual_files_by_path
      whether_hide
  list m user meta path refresh b s =
      let virtual_files = get_storage_virtual_files_by_path (values m) path in
      let (place, b') = get_storage_and_actual_path m path b in
      let (r, s') =
        list_found place virtual_files (hiding (whether_hide user meta path) meta) refresh s in
      (r, s', b')

  unfoldable pub find_named : List Obj → Bytes → Option Obj
  find_named [] name = none
  find_named (f ∷ fs) name =
      let rest = find_named fs name in if beq f.name name then some f else rest

  -- the root, if no storage is mounted there; 0 stands for Go's zero time
  abbrev pub root : Obj
  root = record {
    size = pos 0;
    name = codes "root";
    mod_time = 0;
    is_dir = true;
    id = [];
    path = [];
  }

  abbrev pub answer : {A : Type 0} → Answer A → FsResult A
  answer (ok a) = done a
  answer (err x) = failed x

  unfoldable pub get_found : Found → Bytes → State → FsResult Obj × State
  get_found (found d p) path s = let (a, s') = o.get d p s in (answer a, s')
  get_found no_storage path s = ((if beq path slash then done root else no_mount), s)
  get_found (not_found p) path s = ((if beq path slash then done root else no_mount), s)

  unfoldable pub get_virtual :
      Option Obj → StoragesMap → Bytes → BalanceMap → State → FsResult Obj × State × BalanceMap
  unfolding get_found get_storage_and_actual_path
  get_virtual (some f) m path b s = (done f, s, b)
  get_virtual none m path b s =
      let (place, b') = get_storage_and_actual_path m path b in
      let (r, s') = get_found place path s in (r, s', b')

  -- a path below the root may be a virtual file
  unfoldable pub get : StoragesMap → Bytes → BalanceMap → State → FsResult Obj × State × BalanceMap
  unfolding get_virtual find_named get_storage_virtual_files_by_path dir base fix_and_clean_path
  get m path b s =
      let path = fix_and_clean_path path in
      let virtual_file =
        if beq path slash
        then none
        else find_named (get_storage_virtual_files_by_path (values m) (dir path)) (base path) in
      get_virtual virtual_file m path b s

  unfoldable pub link_found : Found → Bytes → State → FsResult (o.Link × Obj) × State
  link_found (found d p) ip s = let (a, s') = o.link d p ip s in (answer a, s')
  link_found no_storage ip s = (no_mount, s)
  link_found (not_found p) ip s = (no_mount, s)

  unfoldable pub link :
      StoragesMap
      → Bytes
      → Bytes
      → BalanceMap
      → State
      → FsResult (o.Link × Obj) × State × BalanceMap
  unfolding link_found get_storage_and_actual_path
  link m path ip b s =
      let (place, b') = get_storage_and_actual_path m path b in
      let (r, s') = link_found place ip s in (r, s', b')
