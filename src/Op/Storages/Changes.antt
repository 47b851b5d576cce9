-- ===== src/Op/Storages/Changes.antt =====
-- How storages change: EnableStorage, DisableStorage, UpdateStorage and DeleteStorageById of
-- internal/op/storage.go. A driver is a pointer, and here a value: the two agree as long as a driver stands under one path.
-- Only UpdateStorage can leave it under two, when the mount path of the old record is not clean, and this is written out.
use xiaoya_qwen.Prelude.{ℕ, Bytes, true, false, not, Option, none, some, beq, if◌then◌else◌}
use xiaoya_qwen.Utils.Path.{fix_and_clean_path}
use xiaoya_qwen.Model.Storage.{Storage, Config, Driver}
use xiaoya_qwen.Op.Storages.{StoragesMap}
use xiaoya_qwen.Op.Storages.Lifecycle.{
  StorageDb, Drivers, Step, fail, db_error, not_disabled, already_disabled, no_storage, drop_error,
  driver_changed, load_storage, init_storage, delete, get_storage_by_mount_path, load_driver,
  store_driver,
}

-- The driver at `place`, if there is one still, is the pointer that has been started again and stored at `path`.
unfoldable pub same_driver : Bytes → Bytes → StoragesMap → StoragesMap
unfolding load_driver store_driver
same_driver place path m = if beq place path then m else elim (load_driver place m) [
  | none ↦ m
  | some old ↦ elim (load_driver path m) [ none ↦ m | some driver ↦ store_driver place driver m ]
]

module _ (d : StorageDb) (v : Drivers) where
  unfoldable pub enable_found : Option Storage → Step d v
  unfolding load_storage
  enable_found none s = fail d v db_error s
  enable_found (some storage) s =
      let storage1 : Storage = record storage { disabled = false } in
      let (failed, t) = d.update s.table storage1 in
      if not storage.disabled
      then fail d v not_disabled s
      else if failed
      then fail d v db_error (record s { table = t })
      else load_storage d v storage1 (record s { table = t })

  unfoldable pub enable_storage : ℕ → Step d v
  unfolding enable_found
  enable_storage id s = enable_found (d.get_by_id s.table id) s

  -- Drop of a driver, and what follows it if it does not fail
  unfoldable pub dropped : Option Bytes × v.World → Step d v → Step d v
  dropped (none, w) next s = next (record s { world = w })
  dropped (some error, w) next s = fail d v drop_error (record s { world = w })

  unfoldable pub drop_found : Option Driver → Step d v → Step d v
  unfolding dropped
  drop_found none next s = fail d v no_storage s
  drop_found (some driver) next s = dropped (v.drop driver s.world) next s

  -- DisableStorage behind Drop
  unfoldable pub disabled : Storage → Step d v
  unfolding delete
  disabled storage s =
      let (failed, t) = d.update s.table (record storage { disabled = true }) in
      if failed
      then fail d v db_error (record s { table = t })
      else (none, record s { storages = delete storage.mount_path s.storages; table = t })

  unfoldable pub disable_found : Option Storage → Step d v
  unfolding drop_found disabled get_storage_by_mount_path
  disable_found none s = fail d v db_error s
  disable_found (some storage) s =
      if storage.disabled
      then fail d v already_disabled s
      else drop_found (get_storage_by_mount_path storage.mount_path s.storages) (disabled storage) s

  unfoldable pub disable_storage : ℕ → Step d v
  unfolding disable_found
  disable_storage id s = disable_found (d.get_by_id s.table id) s

  -- initStorage of a driver that was found at `place`
  unfoldable pub restarted : Bytes → Storage → Config → Step d v
  unfolding init_storage same_driver
  restarted place storage config s =
      let (error, t) = init_storage d v storage config s in
      (error, record t { storages = same_driver place storage.mount_path t.storages })

  -- the driver that UpdateStorage starts again is the one of the old mount path
  unfoldable pub restart : Option Driver → Bytes → Storage → Step d v
  unfolding drop_found restarted
  restart none place storage = fail d v no_storage
  restart (some driver) place storage =
      drop_found (some driver) (restarted place storage driver.config)

  -- UpdateStorage behind the update of the database
  unfoldable pub updated : Storage → Storage → Step d v
  unfolding restart delete get_storage_by_mount_path fix_and_clean_path
  updated old storage s =
      if storage.disabled
      then (none, s)
      else let driver = get_storage_by_mount_path old.mount_path s.storages in
        restart driver (fix_and_clean_path old.mount_path) storage (
          if beq old.mount_path storage.mount_path
          then s
          else record s { storages = delete old.mount_path s.storages })

  unfoldable pub update_found : ℕ → Storage → Option Storage → Step d v
  unfolding updated
  update_found now storage none s = fail d v db_error s
  update_found now storage (some old) s =
      let storage1 : Storage = record storage {
        modified = now;
        mount_path = fix_and_clean_path storage.mount_path;
      } in
      let (failed, t) = d.update s.table storage1 in
      if not (beq old.driver storage.driver)
      then fail d v driver_changed s
      else if failed
      then fail d v db_error (record s { table = t })
      else updated old storage1 (record s { table = t })

  unfoldable pub update_storage : ℕ → Storage → Step d v
  unfolding update_found
  update_storage now storage s = update_found now storage (d.get_by_id s.table storage.id) s

  unfoldable pub delete_record : ℕ → Step d v
  delete_record id s =
      let (failed, t) = d.delete_by_id s.table id in
      ((if failed then some db_error else none), record s { table = t })

  -- DeleteStorageById behind Drop
  unfoldable pub forgotten : Storage → ℕ → Step d v
  unfolding delete_record delete
  forgotten storage id s =
      delete_record id (record s { storages = delete storage.mount_path s.storages })

  unfoldable pub delete_found : ℕ → Option Storage → Step d v
  unfolding drop_found forgotten get_storage_by_mount_path
  delete_found id none s = fail d v db_error s
  delete_found id (some storage) s =
      if storage.disabled
      then delete_record id s
      else drop_found (get_storage_by_mount_path storage.mount_path s.storages)
          (forgotten storage id) s

  unfoldable pub delete_storage_by_id : ℕ → Step d v
  unfolding delete_found
  delete_storage_by_id id s = delete_found id (d.get_by_id s.table id) s
