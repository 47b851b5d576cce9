-- ===== src/Fs/Changes.antt =====
-- internal/fs/other.go and internal/fs/put.go, and ClearCache of internal/fs/util.go: they find the storages of the paths
-- and pass the call on to internal/op, whose operations stand in an interface.
pub mod Uploads
use xiaoya_qwen.Prelude.{Bytes, Bool, true, false, not, Option, none, some, beq, if◌then◌else◌}
use xiaoya_qwen.Model.Storage.{Driver}
use xiaoya_qwen.Op.Storages.{
  StoragesMap, BalanceMap, Found, found, no_storage, not_found, get_storage_and_actual_path,
}

-- The operations of internal/op, on the state of the storages; an error is `false`. `File` is a FileStream.
pub record Changes : Type 1 where
  pub State : Type 0
  pub File : Type 0
  pub Args : Type 0
  pub make_dir : Driver → Bytes → Bool → State → Bool × State
  pub move : Driver → Bytes → Bytes → Bool → State → Bool × State
  pub rename : Driver → Bytes → Bytes → Bool → State → Bool × State
  pub remove : Driver → Bytes → State → Bool × State
  pub put : Driver → Bytes → File → Bool → State → Bool × State
  pub other : Driver → Bytes → Args → State → Bool × State
  pub clear_cache : Driver → Bytes → State → State
  -- the file has to be stored before an upload as a task, and the stored file, if that succeeds
  pub need_store : File → Bool
  pub create_temp_file : File → Option File

-- done, an error of the storage, no storage, MoveBetweenTwoStorages, UploadNotSupported, or no temporary file
pub data Changed : Type 0 where
  done failed no_mount between_two_storages no_upload no_temp_file : Changed

-- What putAsTask leaves: an error, or the task of an upload.
pub data UploadTask (File : Type 0) : Type 0 where
  upload : Driver → Bytes → File → UploadTask File
  refused : Changed → UploadTask File

abbrev pub ended : Bool → Changed
ended true = done
ended false = failed

module _ (o : Changes) where
  open o use {State, File, Args}

  -- what is done at the storage and the path that are found
  unfoldable pub at_found :
      Found → (Driver → Bytes → State → Bool × State) → State → Changed × State
  at_found (found d p) call s = let (ok, s') = call d p s in (ended ok, s')
  at_found no_storage call s = (no_mount, s)
  at_found (not_found p) call s = (no_mount, s)

  unfoldable pub at_path :
      StoragesMap
      → Bytes
      → (Driver → Bytes → State → Bool × State)
      → BalanceMap
      → State
      → Changed × State × BalanceMap
  unfolding at_found get_storage_and_actual_path
  at_path m path call b s =
      let (place, b') = get_storage_and_actual_path m path b in
      let (r, s') = at_found place call s in (r, s', b')

  unfoldable pub make_dir :
      StoragesMap → Bytes → Bool → BalanceMap → State → Changed × State × BalanceMap
  unfolding at_path
  make_dir m path lazy_cache b s = at_path m path (λ d p. o.make_dir d p lazy_cache) b s

  unfoldable pub rename :
      StoragesMap → Bytes → Bytes → Bool → BalanceMap → State → Changed × State × BalanceMap
  unfolding at_path
  rename m src_path dst_name lazy_cache b s =
      at_path m src_path (λ d p. o.rename d p dst_name lazy_cache) b s

  unfoldable pub remove : StoragesMap → Bytes → BalanceMap → State → Changed × State × BalanceMap
  unfolding at_path
  remove m path b s = at_path m path (λ d p. o.remove d p) b s

  unfoldable pub other :
      StoragesMap → Bytes → Args → BalanceMap → State → Changed × State × BalanceMap
  unfolding at_path
  other m path args b s = at_path m path (λ d p. o.other d p args) b s

  unfoldable pub move_to : Driver → Bytes → Bool → Found → State → Changed × State
  move_to d src lazy_cache (found d' dst) s =
      if not (beq d.storage.mount_path d'.storage.mount_path)
      then (between_two_storages, s)
      else let (ok, s') = o.move d src dst lazy_cache s in (ended ok, s')
  move_to d src lazy_cache no_storage s = (no_mount, s)
  move_to d src lazy_cache (not_found p) s = (no_mount, s)

  unfoldable pub move_from :
      StoragesMap → Bytes → Bool → Found × BalanceMap → State → Changed × State × BalanceMap
  unfolding move_to get_storage_and_actual_path
  move_from m dst_dir_path lazy_cache (found d src, b) s =
      let (place, b') = get_storage_and_actual_path m dst_dir_path b in
      let (r, s') = move_to d src lazy_cache place s in (r, s', b')
  move_from m dst_dir_path lazy_cache (no_storage, b) s = (no_mount, s, b)
  move_from m dst_dir_path lazy_cache (not_found p, b) s = (no_mount, s, b)

  -- move; the storages are told apart by their mount paths
  unfoldable pub move :
      StoragesMap → Bytes → Bytes → Bool → BalanceMap → State → Changed × State × BalanceMap
  unfolding move_from get_storage_and_actual_path
  move m src_path dst_dir_path lazy_cache b s =
      move_from m dst_dir_path lazy_cache (get_storage_and_actual_path m src_path b) s

  unfoldable pub put_found : Found → File → Bool → State → Changed × State
  put_found (found d p) file lazy_cache s =
      if d.config.no_upload
      then (no_upload, s)
      else let (ok, s') = o.put d p file lazy_cache s in (ended ok, s')
  put_found no_storage file lazy_cache s = (no_mount, s)
  put_found (not_found p) file lazy_cache s = (no_mount, s)

  unfoldable pub put_directly :
      StoragesMap → Bytes → File → Bool → BalanceMap → State → Changed × State × BalanceMap
  unfolding put_found get_storage_and_actual_path
  put_directly m dst_dir_path file lazy_cache b s =
      let (place, b') = get_storage_and_actual_path m dst_dir_path b in
      let (r, s') = put_found place file lazy_cache s in (r, s', b')

  unfoldable pub stored : Driver → Bytes → Option File → UploadTask File
  stored d p none = refused no_temp_file
  stored d p (some file) = upload d p file

  unfoldable pub task_found : Found → File → UploadTask File
  unfolding stored
  task_found (found d p) file =
      if d.config.no_upload
      then refused no_upload
      else if o.need_store file
      then stored d p (o.create_temp_file file)
      else upload d p file
  task_found no_storage file = refused no_mount
  task_found (not_found p) file = refused no_mount

  unfoldable pub put_as_task :
      StoragesMap → Bytes → File → BalanceMap → UploadTask File × BalanceMap
  unfolding task_found get_storage_and_actual_path
  put_as_task m dst_dir_path file b =
      let (place, b') = get_storage_and_actual_path m dst_dir_path b in (task_found place file, b')

  -- the function of that task
  unfoldable pub run_upload : UploadTask File → State → Changed × State
  run_upload (upload d p file) s = let (ok, s') = o.put d p file true s in (ended ok, s')
  run_upload (refused r) s = (r, s)

  unfoldable pub clear_found : Found → State → State
  clear_found (found d p) s = o.clear_cache d p s
  clear_found no_storage s = s
  clear_found (not_found p) s = s

  unfoldable pub clear_cache : StoragesMap → Bytes → BalanceMap → State → State × BalanceMap
  unfolding clear_found get_storage_and_actual_path
  clear_cache m path b s =
      let (place, b') = get_storage_and_actual_path m path b in (clear_found place s, b')
