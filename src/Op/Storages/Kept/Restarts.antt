-- ===== src/Op/Storages/Kept/Restarts.antt =====
-- Updates of storages.
use xiaoya_qwen.Prelude.{
  ℕ, Bytes, Bool, true, false, Option, none, some, beq, beq_iff, if◌then◌else◌, Bool-cases, ◌⊎◌,
  inl, inr, ◌≡◌, arith,
}
use xiaoya_qwen.Utils.Path.{fix_and_clean_path}
use xiaoya_qwen.Utils.Path.Clean.{fix_and_clean_path_idem}
use xiaoya_qwen.Model.Storage.{Storage, Config, Driver}
use xiaoya_qwen.Op.Storages.Lifecycle.{
  StorageDb, Drivers, Running, Outcome, started, save_driver_storage, init_ended, init_storage,
  load_driver, delete,
}
use xiaoya_qwen.Op.Storages.Changes.{
  dropped, drop_found, same_driver, restarted, restart, updated, update_found,
}
use xiaoya_qwen.Op.Storages.Kept.{
  IsKept, delete-IsKept, load_driver-store_driver, load_driver-delete_same,
}
use xiaoya_qwen.Op.Storages.Kept.Inits.{Keeps, saved-mount_path, init_storage-Keeps}

beq-flip : (a b : Bytes) → beq a b ≡ false → beq b a ≡ false
beq-flip a b h = ground (arith, beq_iff a b, beq_iff b a)

module _ (d : StorageDb) (v : Drivers) where
  -- No driver is left at the place where one was found, unless it is the place of the new one.
  IsFree : Bytes → Storage → Running d v → Type 0
  IsFree place storage s =
      (beq place storage.mount_path ≡ true) ⊎ (load_driver place s.storages ≡ none)

  init_ended-free :
      (place : Bytes) (driver : Driver) (o : Option Bytes × v.World) (s : Running d v)
      → beq driver.storage.mount_path place ≡ false
      → load_driver place s.storages ≡ none
      → load_driver place (init_ended d v driver o s).1.storages ≡ none
  unfolding init_ended save_driver_storage
  init_ended-free place driver (outcome, w) s differs free =
      rw (load_driver-store_driver place, saved-mount_path d v _ (v.marshal _ w) s.table, differs)
        free

  init_storage-free :
      (place : Bytes) (storage : Storage) (config : Config) (s : Running d v)
      → beq storage.mount_path place ≡ false
      → load_driver place s.storages ≡ none
      → load_driver place (init_storage d v storage config s).1.storages ≡ none
  unfolding init_storage
  init_storage-free place storage config s differs free =
      let driver : Driver = record { config = config; storage = storage } in
      init_ended-free place driver (started d v driver (v.unmarshal driver s.world)) s differs free

  restarted-Keeps :
      (place : Bytes) (storage : Storage) (config : Config)
      → fix_and_clean_path storage.mount_path ≡ storage.mount_path
      → (s : Running d v) → IsFree place storage s
      → IsKept s.storages
      → IsKept (restarted d v place storage config s).1.storages
  unfolding IsFree Keeps restarted same_driver
  restarted-Keeps place storage config c s (inl same) h =
      rw same (init_storage-Keeps d v storage config c s h)
  restarted-Keeps place storage config c s (inr free) h =
      elim (Bool-cases (beq place storage.mount_path)) [
        | inl same ↦ rw same (init_storage-Keeps d v storage config c s h)
        | inr differs ↦
            rw (differs, init_storage-free place storage config s (beq-flip place _ differs) free)
              (init_storage-Keeps d v storage config c s h)
      ]

  dropped-Keeps :
      (place : Bytes) (storage : Storage) (config : Config) (o : Option Bytes × v.World)
      → fix_and_clean_path storage.mount_path ≡ storage.mount_path
      → (s : Running d v) → IsFree place storage s
      → IsKept s.storages
      → IsKept (dropped d v o (restarted d v place storage config) s).1.storages
  unfolding dropped IsFree
  dropped-Keeps place storage config (none, w) c s free h =
      restarted-Keeps place storage config c (record s { world = w }) free h
  dropped-Keeps place storage config (some error, w) c s free h = h

  restart-Keeps :
      (driver : Option Driver) (place : Bytes) (storage : Storage)
      → fix_and_clean_path storage.mount_path ≡ storage.mount_path
      → (s : Running d v) → IsFree place storage s
      → IsKept s.storages
      → IsKept (restart d v driver place storage s).1.storages
  unfolding restart drop_found
  restart-Keeps none place storage c s free h = h
  restart-Keeps (some driver) place storage c s free h =
      dropped-Keeps place storage driver.config (v.drop driver s.world) c s free h

  if-IsKept :
      (b : Bool) (x y : Outcome d v)
      → IsKept x.1.storages
      → IsKept y.1.storages
      → IsKept (if b then x else y).1.storages
  if-IsKept true x y h i = h
  if-IsKept false x y h i = i

  updated-Keeps :
      (old storage : Storage)
      → fix_and_clean_path old.mount_path ≡ old.mount_path
      → fix_and_clean_path storage.mount_path ≡ storage.mount_path
      → (s : Running d v) → IsKept s.storages
      → IsKept (updated d v old storage s).1.storages
  unfolding updated IsFree
  updated-Keeps old storage o c s h =
      if-IsKept storage.disabled _ _ h (elim (Bool-cases (beq old.mount_path storage.mount_path)) [
        | inl same ↦ rw (same, o) (restart-Keeps _ old.mount_path storage c s (inl same) h)
        | inr differs ↦
            rw (differs, o)
              (restart-Keeps _ old.mount_path storage c
                (record s { storages = delete old.mount_path s.storages })
                (inr (load_driver-delete_same old.mount_path s.storages h))
                (delete-IsKept old.mount_path s.storages h))
      ])

  -- The mount path of a row, if there is one, is clean.
  unfoldable pub IsCleanRow : Option Storage → Type 0
  IsCleanRow none = Unit
  IsCleanRow (some old) = fix_and_clean_path old.mount_path ≡ old.mount_path

  pub update_found-Keeps :
      (now : ℕ) (storage : Storage) (row : Option Storage)
      → IsCleanRow row
      → (s : Running d v) → IsKept s.storages
      → IsKept (update_found d v now storage row s).1.storages
  unfolding update_found IsCleanRow
  update_found-Keeps now storage none clean s h = h
  update_found-Keeps now storage (some old) clean s h =
      elim (Bool-cases (beq old.driver storage.driver)) [
        | inr other ↦ rw other h
        | inl same ↦
            let storage1 : Storage = record storage {
              modified = now;
              mount_path = fix_and_clean_path storage.mount_path;
            } in
            elim (Bool-cases (d.update s.table storage1).0) [
              | inl failed ↦ rw (same, failed) h
              | inr well ↦
                  rw (same, well)
                    (updated-Keeps old storage1 clean (fix_and_clean_path_idem storage.mount_path)
                      (record s { table = (d.update s.table storage1).1 }) h)
            ]
      ]
