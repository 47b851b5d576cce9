-- ===== src/Op/Storages/Kept/Mounted.antt =====
-- What is found under a mount path after a storage was loaded, and after it was disabled or deleted.
use xiaoya_qwen.Prelude.{
  ℕ, Bytes, Bool, true, false, Option, none, some, beq_iff, if◌then◌else◌, Bool-cases, inl, inr,
  ◌⊎◌, ◌≡◌, refl, subst, ap, ◌∙◌,
}
use xiaoya_qwen.Utils.Path.{fix_and_clean_path}
use xiaoya_qwen.Model.Storage.{Storage, Config, Driver}
use xiaoya_qwen.Op.Storages.{StoragesMap}
use xiaoya_qwen.Op.Storages.Lifecycle.{
  load_driver, work, delete, is_some, has_storage, get_storage_by_mount_path, StorageDb, Drivers,
  Running, Outcome, get_driver_new, started, saved, save_driver_storage, init_ended, init_storage,
  load_with, load_storage, status_of, init_error_of,
}
use xiaoya_qwen.Op.Storages.Changes.{
  dropped, drop_found, disabled, disable_found, disable_storage, delete_record, forgotten,
  delete_found, delete_storage_by_id,
}
use xiaoya_qwen.Op.Storages.Kept.{IsKept, load_driver-store_driver, load_driver-delete_same}
use xiaoya_qwen.Op.Storages.Kept.Steps.{Command, perform, disable, remove}

-- Under a mount path, as the requests spell it, stands a driver with a status.
pub record IsMounted (m : StoragesMap) (mount_path status : Bytes) (config : Config) : Type 0 where
  pub driver : Driver
  pub found : get_storage_by_mount_path mount_path m ≡ some driver
  pub has_status : driver.storage.status ≡ status
  pub has_config : driver.config ≡ config

module _ (d : StorageDb) (v : Drivers) where
  saved-fields :
      (driver : Driver) (text : Option Bytes) (t : d.Table)
      → ((saved d v driver text t).0.storage.mount_path ≡ driver.storage.mount_path)
        × ((saved d v driver text t).0.storage.status ≡ driver.storage.status)
        × ((saved d v driver text t).0.config ≡ driver.config)
  unfolding saved
  saved-fields driver none t = (refl, refl, refl)
  saved-fields driver (some text) t = (refl, refl, refl)

  init_ended-IsMounted :
      (driver : Driver) (o : Option Bytes × v.World) (s : Running d v) (path : Bytes)
      → driver.storage.mount_path ≡ fix_and_clean_path path
      → IsMounted (init_ended d v driver o s).1.storages path (status_of o.0) driver.config
  unfolding init_ended save_driver_storage get_storage_by_mount_path
  init_ended-IsMounted driver (outcome, w) s path e =
      let started : Driver = record driver {
        storage = record driver.storage { status = status_of outcome };
      } in
      let last = (saved d v started (v.marshal started w) s.table).0 in
      let (same_path, same_status, same_config) =
        saved-fields started (v.marshal started w) s.table in
      record {
        driver = last;
        found =
            load_driver-store_driver (fix_and_clean_path path) last.storage.mount_path last
              s.storages
            ∙ ap (λ b. if b then some last else load_driver (fix_and_clean_path path) s.storages)
                ((beq_iff _ _).1 (same_path ∙ e));
        has_status = same_status;
        has_config = same_config;
      }

  outcome_of : (o : Option Bytes × v.World) → init_error_of o.0 ≡ none → status_of o.0 ≡ work
  unfolding init_error_of status_of
  outcome_of (none, w) h = refl
  outcome_of (some error, w) h = cc

  load_with-IsMounted :
      (found : Option Config) (storage : Storage) (s : Running d v) (path : Bytes)
      → storage.mount_path ≡ fix_and_clean_path path
      → (load_with d v found storage s).0 ≡ none
      → (config : Config) × (found ≡ some config)
        × IsMounted (load_with d v found storage s).1.storages path work config
  unfolding load_with init_storage init_ended status_of
  load_with-IsMounted none storage s path e h = cc
  load_with-IsMounted (some config) storage s path e h =
      let driver : Driver = record { config = config; storage = storage } in
      let o = started d v driver (v.unmarshal driver s.world) in
      let after = (init_ended d v driver o s).1.storages in
      (
        config,
        refl,
        subst (λ t. IsMounted after path t config) (outcome_of o h)
            (init_ended-IsMounted driver o s path e),
      )

  -- If LoadStorage returns no error, the driver's name is registered, and a lookup of the mount
  -- path, however it is spelled, finds a driver of that name's configuration whose status is
  -- "work".
  pub load_storage-IsMounted :
      (storage : Storage) (s : Running d v)
      → (load_storage d v storage s).0 ≡ none
      → (config : Config) × (get_driver_new v.registry storage.driver ≡ some config)
        × IsMounted (load_storage d v storage s).1.storages storage.mount_path work config
  unfolding load_storage
  load_storage-IsMounted storage s h = load_with-IsMounted _ _ s storage.mount_path refl h

  -- Nothing is found under a mount path.
  abbrev pub IsGone : Bytes → Outcome d v → Type 0
  IsGone path o = has_storage path o.1.storages ≡ false

  delete-IsGone :
      (path : Bytes) (m : StoragesMap)
      → fix_and_clean_path path ≡ path
      → IsKept m
      → has_storage path (delete path m) ≡ false
  unfolding has_storage is_some
  delete-IsGone path m c h = rw (c, load_driver-delete_same path m h) refl

  dropped-IsGone :
      (path : Bytes) (o : Option Bytes × v.World) (next : Running d v → Outcome d v)
      (s : Running d v)
      → ((t : Running d v) → IsKept t.storages → (next t).0 ≡ none → IsGone path (next t))
      → IsKept s.storages
      → (dropped d v o next s).0 ≡ none
      → IsGone path (dropped d v o next s)
  unfolding dropped
  dropped-IsGone path (none, w) next s n h q = n _ h q
  dropped-IsGone path (some error, w) next s n h q = cc

  drop_found-IsGone :
      (path : Bytes) (driver : Option Driver) (next : Running d v → Outcome d v) (s : Running d v)
      → ((t : Running d v) → IsKept t.storages → (next t).0 ≡ none → IsGone path (next t))
      → IsKept s.storages
      → (drop_found d v driver next s).0 ≡ none
      → IsGone path (drop_found d v driver next s)
  unfolding drop_found
  drop_found-IsGone path none next s n h q = cc
  drop_found-IsGone path (some driver) next s n h q =
      dropped-IsGone path (v.drop driver s.world) next s n h q

  disabled-IsGone :
      (storage : Storage) (t : Running d v)
      → fix_and_clean_path storage.mount_path ≡ storage.mount_path
      → IsKept t.storages
      → (disabled d v storage t).0 ≡ none
      → IsGone storage.mount_path (disabled d v storage t)
  unfolding disabled
  disabled-IsGone storage t c h q =
      elim (Bool-cases (d.update t.table (record storage { disabled = true })).0) [
        | inl f ↦ cc
        | inr f ↦ rw f (delete-IsGone storage.mount_path t.storages c h)
      ]

  skip-IsGone :
      (path : Bytes) (b : Bool) (x y : Outcome d v)
      → b ≡ false
      → (y.0 ≡ none → IsGone path y)
      → (if b then x else y).0 ≡ none
      → IsGone path (if b then x else y)
  skip-IsGone path true x y e k q = cc
  skip-IsGone path false x y e k q = k q

  disable_found-IsGone :
      (storage : Storage) (s : Running d v)
      → IsKept s.storages
      → storage.disabled ≡ false
      → fix_and_clean_path storage.mount_path ≡ storage.mount_path
      → (disable_found d v (some storage) s).0 ≡ none
      → IsGone storage.mount_path (disable_found d v (some storage) s)
  unfolding disable_found
  disable_found-IsGone storage s h on clean q =
      skip-IsGone storage.mount_path storage.disabled _ _ on
        (drop_found-IsGone storage.mount_path _ (disabled d v storage) s
          (λ t k r. disabled-IsGone storage t clean k r) h)
        q

  delete_found-IsGone :
      (id : ℕ) (storage : Storage) (s : Running d v)
      → IsKept s.storages
      → storage.disabled ≡ false
      → fix_and_clean_path storage.mount_path ≡ storage.mount_path
      → (delete_found d v id (some storage) s).0 ≡ none
      → IsGone storage.mount_path (delete_found d v id (some storage) s)
  unfolding delete_found
  delete_found-IsGone id storage s h on clean q =
      skip-IsGone storage.mount_path storage.disabled _ _ on
        (drop_found-IsGone storage.mount_path _ (forgotten d v storage id) s
          (λ t k r.
            unfold forgotten delete_record in delete-IsGone storage.mount_path t.storages clean k)
          h)
        q

  -- If the map is in order, the table has an enabled storage with a clean mount path under the
  -- id, and DisableStorage or DeleteStorageById of the id returns no error, then no storage is
  -- mounted at that path.
  pub perform-IsGone :
      (c : Command d v) (id : ℕ) (storage : Storage) (s : Running d v)
      → (c ≡ disable id) ⊎ (c ≡ remove id)
      → IsKept s.storages
      → d.get_by_id s.table id ≡ some storage
      → storage.disabled ≡ false
      → fix_and_clean_path storage.mount_path ≡ storage.mount_path
      → (perform d v c s).0 ≡ none
      → IsGone storage.mount_path (perform d v c s)
  unfolding perform disable_storage disable_found delete_storage_by_id delete_found
  perform-IsGone c id storage s (inl e) h row on clean q =
      rw (e, row) (disable_found-IsGone storage s h on clean (rw (e, row) at q))
  perform-IsGone c id storage s (inr e) h row on clean q =
      rw (e, row) (delete_found-IsGone id storage s h on clean (rw (e, row) at q))
