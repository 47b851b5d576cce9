-- ===== src/Op/Storages/Kept.antt =====
-- The map of the running storages, through every change of it.
pub mod Inits
pub mod Restarts
pub mod Steps
pub mod Mounted
use xiaoya_qwen.Prelude.{
  ℕ, List, [], ◌∷◌, Bytes, Bool, true, false, not, Option, none, some, beq, beq_iff, beq_refl,
  if◌then◌else◌, Bool-cases, inl, inr, ◌≡◌, refl, sym, ap, ◌∙◌, arith,
}
use xiaoya_qwen.Utils.Path.{fix_and_clean_path}
use xiaoya_qwen.Utils.Path.Clean.{fix_and_clean_path_idem}
use xiaoya_qwen.Model.Storage.{Storage, Config, Driver}
use xiaoya_qwen.Op.Storages.{StoragesMap}
use xiaoya_qwen.Op.Storages.Lifecycle.{
  load_driver, store_driver, delete, is_some, has_storage, get_storage_by_mount_path, StorageDb,
  Drivers, Running, Outcome, LifeError, get_driver_new, started, saved, save_driver_storage,
  init_ended, init_storage, created, create_with, create_storage, load_with, load_storage,
  status_of, init_error_of,
}
use xiaoya_qwen.Op.Storages.Changes.{
  enable_found, enable_storage, dropped, drop_found, disabled, disable_found, disable_storage,
  restart, updated, update_found, update_storage, delete_record, forgotten, delete_found,
  delete_storage_by_id,
}

-- Each driver stands under the mount path of its own storage, which is clean, and no path stands twice.
unfoldable pub IsKept : StoragesMap → Type 0
IsKept [] = Unit
IsKept ((k, v) ∷ m) =
    (k ≡ v.storage.mount_path) × (fix_and_clean_path k ≡ k) × (load_driver k m ≡ none) × IsKept m

pub load_driver-store_driver :
    (j k : Bytes) (v : Driver) (m : StoragesMap)
    → load_driver j (store_driver k v m) ≡ (if beq k j then some v else load_driver j m)
unfolding load_driver store_driver
load_driver-store_driver j k v [] = refl
load_driver-store_driver j k v ((i, x) ∷ m) =
    ground (arith, load_driver-store_driver j k v m, beq_iff k j, beq_iff i k, beq_iff i j)

load_driver-delete :
    (j k : Bytes) (m : StoragesMap) → load_driver j m ≡ none → load_driver j (delete k m) ≡ none
unfolding load_driver delete
load_driver-delete j k [] h = refl
load_driver-delete j k ((i, x) ∷ m) h = ground (arith, load_driver-delete j k m)

pub store_driver-IsKept :
    (k : Bytes) (v : Driver) (m : StoragesMap)
    → k ≡ v.storage.mount_path
    → fix_and_clean_path k ≡ k
    → IsKept m
    → IsKept (store_driver k v m)
unfolding IsKept store_driver
store_driver-IsKept k v [] e c h = (e, c, unfold load_driver in refl, tt)
store_driver-IsKept k v ((i, x) ∷ m) e c (own, clean, free, h) = elim (Bool-cases (beq i k)) [
  | inl same ↦ rw same (e, c, rw (sym ((beq_iff i k).0 same)) free, h)
  | inr differs ↦ rw differs (
    own,
    clean,
    ground (arith, load_driver-store_driver i k v m, beq_iff i k, beq_iff k i),
    store_driver-IsKept k v m e c h,
  )
]

pub delete-IsKept : (k : Bytes) (m : StoragesMap) → IsKept m → IsKept (delete k m)
unfolding IsKept delete
delete-IsKept k [] h = tt
delete-IsKept k ((i, x) ∷ m) (own, clean, free, h) = elim (Bool-cases (beq i k)) [
  | inl same ↦ rw same h
  | inr differs ↦ rw differs (own, clean, load_driver-delete i k m free, delete-IsKept k m h)
]

-- What is deleted is gone.
pub load_driver-delete_same :
    (k : Bytes) (m : StoragesMap) → IsKept m → load_driver k (delete k m) ≡ none
unfolding IsKept load_driver delete
load_driver-delete_same k [] h = refl
load_driver-delete_same k ((i, x) ∷ m) (own, clean, free, h) =
    ground (arith, load_driver-delete_same k m h, free, beq_iff i k)
