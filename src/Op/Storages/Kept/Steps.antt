-- ===== src/Op/Storages/Kept/Steps.antt =====
-- The operations on the running storages, in any order.
use xiaoya_qwen.Prelude.{
  ℕ, List, [], ◌∷◌, Bytes, Bool, true, false, not, Option, none, some, if◌then◌else◌,
}
use xiaoya_qwen.Model.Storage.{Storage, Driver}
use xiaoya_qwen.Op.Storages.Lifecycle.{
  StorageDb, Drivers, Running, Outcome, create_storage, load_storage,
}
use xiaoya_qwen.Op.Storages.Changes.{
  enable_found, enable_storage, dropped, drop_found, disabled, disable_found, disable_storage,
  update_storage, delete_record, forgotten, delete_found, delete_storage_by_id,
}
use xiaoya_qwen.Op.Storages.Kept.{IsKept, delete-IsKept}
use xiaoya_qwen.Op.Storages.Kept.Inits.{Keeps, create_storage-Keeps, load_storage-Keeps}
use xiaoya_qwen.Op.Storages.Kept.Restarts.{IsCleanRow, update_found-Keeps}

module _ (d : StorageDb) (v : Drivers) where
  Ends : Outcome d v → Type 0
  Ends o = IsKept o.1.storages

  if-Ends : (b : Bool) (x y : Outcome d v) → Ends x → Ends y → Ends (if b then x else y)
  unfolding Ends
  if-Ends true x y h i = h
  if-Ends false x y h i = i

  enable_found-Keeps : (row : Option Storage) → Keeps d v (enable_found d v row)
  unfolding Keeps Ends enable_found
  enable_found-Keeps none s h = h
  enable_found-Keeps (some storage) s h =
      if-Ends (not storage.disabled) _ _ h (if-Ends _ _ _ h (load_storage-Keeps d v _ _ h))

  dropped-Keeps :
      (o : Option Bytes × v.World) (next : Running d v → Outcome d v)
      → Keeps d v next
      → Keeps d v (dropped d v o next)
  unfolding Keeps dropped
  dropped-Keeps (none, w) next n s h = n _ h
  dropped-Keeps (some error, w) next n s h = h

  drop_found-Keeps :
      (driver : Option Driver) (next : Running d v → Outcome d v)
      → Keeps d v next
      → Keeps d v (drop_found d v driver next)
  unfolding Keeps drop_found
  drop_found-Keeps none next n s h = h
  drop_found-Keeps (some driver) next n s h = dropped-Keeps (v.drop driver s.world) next n s h

  disabled-Keeps : (storage : Storage) → Keeps d v (disabled d v storage)
  unfolding Keeps Ends disabled
  disabled-Keeps storage s h = if-Ends _ _ _ h (delete-IsKept storage.mount_path s.storages h)

  disable_found-Keeps : (row : Option Storage) → Keeps d v (disable_found d v row)
  unfolding Keeps Ends disable_found
  disable_found-Keeps none s h = h
  disable_found-Keeps (some storage) s h =
      if-Ends storage.disabled _ _ h
        (drop_found-Keeps _ (disabled d v storage) (disabled-Keeps storage) s h)

  delete_found-Keeps : (id : ℕ) (row : Option Storage) → Keeps d v (delete_found d v id row)
  unfolding Keeps Ends delete_found delete_record forgotten
  delete_found-Keeps id none s h = h
  delete_found-Keeps id (some storage) s h = if-Ends storage.disabled _ _ h (
      drop_found-Keeps _ (forgotten d v storage id)
        (λ t k. delete-IsKept storage.mount_path t.storages k) s h)

  -- The operations on storages
  pub data Command : Type 0 where
    create : ℕ → Storage → Command
    load : Storage → Command
    enable disable remove : ℕ → Command
    update : ℕ → Storage → Command

  unfoldable pub perform : Command → Running d v → Outcome d v
  unfolding create_storage load_storage enable_storage disable_storage delete_storage_by_id
      update_storage
  perform (create now storage) s = (create_storage d v now storage s).1
  perform (load storage) s = load_storage d v storage s
  perform (enable id) s = enable_storage d v id s
  perform (disable id) s = disable_storage d v id s
  perform (remove id) s = delete_storage_by_id d v id s
  perform (update now storage) s = update_storage d v now storage s

  unfoldable pub run : List Command → Running d v → Running d v
  unfolding perform
  run [] s = s
  run (c ∷ cs) s = run cs (perform c s).1

  -- The row that an update reads has a clean mount path.
  unfoldable pub IsClean : Command → Running d v → Type 0
  unfolding IsCleanRow
  IsClean (update now storage) s = IsCleanRow d v (d.get_by_id s.table storage.id)
  IsClean (create now storage) s = Unit
  IsClean (load storage) s = Unit
  IsClean (enable id) s = Unit
  IsClean (disable id) s = Unit
  IsClean (remove id) s = Unit

  -- So it is for each update of a run.
  unfoldable pub AreClean : List Command → Running d v → Type 0
  unfolding IsClean
  AreClean [] s = Unit
  AreClean (c ∷ cs) s = IsClean c s × AreClean cs (perform c s).1

  perform-IsKept :
      (c : Command) (s : Running d v)
      → IsClean c s
      → IsKept s.storages
      → IsKept (perform c s).1.storages
  unfolding Keeps perform enable_storage disable_storage delete_storage_by_id update_storage IsClean
  perform-IsKept (create now storage) s clean h = create_storage-Keeps d v now storage s h
  perform-IsKept (load storage) s clean h = load_storage-Keeps d v storage s h
  perform-IsKept (enable id) s clean h = enable_found-Keeps _ s h
  perform-IsKept (disable id) s clean h = disable_found-Keeps _ s h
  perform-IsKept (remove id) s clean h = delete_found-Keeps id _ s h
  perform-IsKept (update now storage) s clean h = update_found-Keeps d v now storage _ clean s h

  -- Whatever storages are created, loaded, enabled, disabled, updated and deleted, in any order
  -- and with whatever failures, if the records that the updates read have clean mount paths, then
  -- a map that starts in order stays so: each driver stands under the mount path of its own
  -- storage, the path is clean, and no path stands twice.
  pub run-IsKept :
      (cs : List Command) (s : Running d v)
      → AreClean cs s
      → IsKept s.storages
      → IsKept (run cs s).storages
  unfolding run AreClean
  run-IsKept [] s clean h = h
  run-IsKept (c ∷ cs) s (clean, rest) h =
      run-IsKept cs (perform c s).1 rest (perform-IsKept c s clean h)
