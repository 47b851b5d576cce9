-- ===== src/Fs/Copy.antt =====
-- internal/fs/copy.go: copies inside one storage, and between two as tasks that submit further tasks. What internal/op
-- answers is a parameter. A driver is told from another by its mount path, the key of the map of storages.
pub mod Schedule
pub mod Plans
pub mod Mirrors
use xiaoya_qwen.Prelude.{
  ℕ, suc, List, [], ◌∷◌, ◌++◌, Bytes, Bool, true, false, Option, none, some, beq, if◌then◌else◌,
}
use xiaoya_qwen.Go.Path.{join_paths}
use xiaoya_qwen.Model.Storage.{Driver}
use xiaoya_qwen.Model.Objects.{Obj}
use xiaoya_qwen.Op.Storages.{
  StoragesMap, BalanceMap, Found, found, no_storage, not_found, get_storage_and_actual_path,
}

-- What a task does, on paths of the source and of the target: copyBetween2Storages or copyFileBetween2Storages.
pub data Job : Type 0 where
  between : Bytes → Bytes → Job
  file : Bytes → Bytes → Job

-- A call of op.Put, for a file of the source and a directory of the target.
pub record Put : Type 0 where
  pub obj : Obj
  pub source : Bytes
  pub directory : Bytes

-- op.Get and op.List of the source, its links as streams, and op.Put of the target; `none` and `false` are errors.
pub record Answers : Type 0 where
  pub get : Bytes → Option Obj
  pub list : Bytes → Option (List Obj)
  pub stream : Obj → Bytes → Bool
  pub put : Put → Bool

-- What a task comes to: the tasks that it submits, the calls of op.Put, which may fail, and whether it ends without an error.
pub record Ran : Type 0 where
  pub submitted : List Job
  pub puts : List Put
  pub ended : Bool

abbrev pub error : Ran
error = record { submitted = []; puts = []; ended = false }

-- The loop over the objects; `canceled` says whether the context is canceled at the object of a number.
unfoldable pub submit_each : (ℕ → Bool) → Bytes → Bytes → ℕ → List Obj → List Job
submit_each canceled src dst i [] = []
submit_each canceled src dst i (o ∷ os) =
    let rest = submit_each canceled src dst (suc i) os in
    if canceled i then [] else between (join_paths src o.name) dst ∷ rest

unfoldable pub listed : (ℕ → Bool) → Bytes → Bytes → Option (List Obj) → Ran
unfolding submit_each
listed canceled src dst none = error
listed canceled src dst (some objs) = record {
  submitted = submit_each canceled src dst 0 objs;
  puts = [];
  ended = true;
}

unfoldable pub copy_got : Answers → (ℕ → Bool) → Bytes → Bytes → Option Obj → Ran
unfolding listed
copy_got a canceled src dst none = error
copy_got a canceled src dst (some o) =
    if o.is_dir
    then listed canceled src (join_paths dst o.name) (a.list src)
    else record { submitted = file src dst ∷ []; puts = []; ended = true }

-- copyBetween2Storages
unfoldable pub copy_between_2_storages : Answers → (ℕ → Bool) → Bytes → Bytes → Ran
unfolding copy_got
copy_between_2_storages a canceled src dst = copy_got a canceled src dst (a.get src)

unfoldable pub copy_file_got : Answers → Bytes → Bytes → Option Obj → Ran
copy_file_got a src dst none = error
copy_file_got a src dst (some o) =
    let p : Put = record { obj = o; source = src; directory = dst } in
    if a.stream o src then record { submitted = []; puts = p ∷ []; ended = a.put p } else error

-- copyFileBetween2Storages
unfoldable pub copy_file_between_2_storages : Answers → Bytes → Bytes → Ran
unfolding copy_file_got
copy_file_between_2_storages a src dst = copy_file_got a src dst (a.get src)

unfoldable pub run_job : Answers → (ℕ → Bool) → Job → Ran
unfolding copy_between_2_storages copy_file_between_2_storages
run_job a canceled (between src dst) = copy_between_2_storages a canceled src dst
run_job a canceled (file src dst) = copy_file_between_2_storages a src dst

-- What _copy comes to: an error of the lookup of the source or of the target, op.Copy in one storage, or a task.
pub data Copied : Type 0 where
  no_source : Copied
  no_target : Copied
  in_storage : Driver → Bytes → Bytes → Bool → Copied
  queued : Driver → Driver → Job → Copied

unfoldable pub to_found : Driver → Bytes → Bool → Found → Copied
to_found s src lazy_cache (found d dst) =
    if beq s.storage.mount_path d.storage.mount_path
    then in_storage s src dst lazy_cache
    else queued s d (between src dst)
to_found s src lazy_cache no_storage = no_target
to_found s src lazy_cache (not_found p) = no_target

unfoldable pub from_found : StoragesMap → Bytes → Bool → Found × BalanceMap → Copied × BalanceMap
unfolding to_found
from_found m dst lazy_cache (found s src, b) =
    let (place, b') = get_storage_and_actual_path m dst b in (to_found s src lazy_cache place, b')
from_found m dst lazy_cache (no_storage, b) = (no_source, b)
from_found m dst lazy_cache (not_found p, b) = (no_source, b)

-- _copy
unfoldable pub copy : StoragesMap → Bytes → Bytes → Bool → BalanceMap → Copied × BalanceMap
unfolding from_found get_storage_and_actual_path
copy m src_obj_path dst_dir_path lazy_cache b =
    from_found m dst_dir_path lazy_cache (get_storage_and_actual_path m src_obj_path b)
