-- ===== src/Op/Storages/Kept/Inits.antt =====
-- Creation and loading of storages, and what they share with updates.
use xiaoya_qwen.Prelude.{ℕ, Bytes, Bool, true, false, Option, none, some, ◌≡◌, refl}
use xiaoya_qwen.Utils.Path.{fix_and_clean_path}
use xiaoya_qwen.Utils.Path.Clean.{fix_and_clean_path_idem}
use xiaoya_qwen.Model.Storage.{Storage, Config, Driver}
use xiaoya_qwen.Op.Storages.Lifecycle.{
  StorageDb, Drivers, Running, Outcome, started, saved, save_driver_storage, init_ended,
  init_storage, created, create_with, create_storage, load_with, load_storage,
}
use xiaoya_qwen.Op.Storages.Kept.{IsKept, store_driver-IsKept}

module _ (d : StorageDb) (v : Drivers) where
  -- A step that keeps the map in order.
  unfoldable pub Keeps : (Running d v → Outcome d v) → Type 0
  Keeps f = (s : Running d v) → IsKept s.storages → IsKept (f s).1.storages

  pub saved-mount_path :
      (driver : Driver) (text : Option Bytes) (t : d.Table)
      → (saved d v driver text t).0.storage.mount_path ≡ driver.storage.mount_path
  unfolding saved
  saved-mount_path driver none t = refl
  saved-mount_path driver (some text) t = refl

  init_ended-Keeps :
      (driver : Driver) (o : Option Bytes × v.World)
      → fix_and_clean_path driver.storage.mount_path ≡ driver.storage.mount_path
      → Keeps (init_ended d v driver o)
  unfolding Keeps init_ended save_driver_storage
  init_ended-Keeps driver (outcome, w) c s h =
      store_driver-IsKept _ _ s.storages refl (rw (saved-mount_path _ (v.marshal _ w) s.table) c) h

  pub init_storage-Keeps :
      (storage : Storage) (config : Config)
      → fix_and_clean_path storage.mount_path ≡ storage.mount_path
      → Keeps (init_storage d v storage config)
  unfolding Keeps init_storage
  init_storage-Keeps storage config c s h =
      let driver : Driver = record { config = config; storage = storage } in
      init_ended-Keeps driver (started d v driver (v.unmarshal driver s.world)) c s h

  created-Keeps :
      (config : Config) (storage : Storage) (row : ℕ × Bool × d.Table)
      → fix_and_clean_path storage.mount_path ≡ storage.mount_path
      → Keeps (λ s. (created d v config storage row s).1)
  unfolding Keeps created
  created-Keeps config storage (id, true, t) c s h = h
  created-Keeps config storage (id, false, t) c s h = init_storage-Keeps _ config c _ h

  create_with-Keeps :
      (config : Option Config) (storage : Storage)
      → fix_and_clean_path storage.mount_path ≡ storage.mount_path
      → Keeps (λ s. (create_with d v config storage s).1)
  unfolding Keeps create_with
  create_with-Keeps none storage c s h = h
  create_with-Keeps (some config) storage c s h = created-Keeps config storage _ c s h

  pub create_storage-Keeps :
      (now : ℕ) (storage : Storage) → Keeps (λ s. (create_storage d v now storage s).1)
  unfolding Keeps create_storage
  create_storage-Keeps now storage s h =
      create_with-Keeps _ _ (fix_and_clean_path_idem storage.mount_path) s h

  load_with-Keeps :
      (config : Option Config) (storage : Storage)
      → fix_and_clean_path storage.mount_path ≡ storage.mount_path
      → Keeps (load_with d v config storage)
  unfolding Keeps load_with
  load_with-Keeps none storage c s h = h
  load_with-Keeps (some config) storage c s h = init_storage-Keeps storage config c s h

  pub load_storage-Keeps : (storage : Storage) → Keeps (load_storage d v storage)
  unfolding Keeps load_storage
  load_storage-Keeps storage s h =
      load_with-Keeps _ _ (fix_and_clean_path_idem storage.mount_path) s h
