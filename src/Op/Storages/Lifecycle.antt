-- ===== src/Op/Storages/Lifecycle.antt =====
-- How storages start: the map of internal/op/storage.go, CreateStorage, LoadStorage, initStorage and
-- saveDriverStorage, with GetDriverNew of internal/op/driver.go. The hooks that run in goroutines are left out.
use xiaoya_qwen.Prelude.{
  ℕ, List, [], ◌∷◌, Bytes, Bool, true, false, Option, none, some, beq, codes, if◌then◌else◌,
}
use xiaoya_qwen.Utils.Path.{fix_and_clean_path}
use xiaoya_qwen.Model.Storage.{Storage, Config, Driver}
use xiaoya_qwen.Op.Storages.{StoragesMap}

unfoldable pub load_driver : Bytes → StoragesMap → Option Driver
load_driver k [] = none
load_driver k ((j, v) ∷ m) = let rest = load_driver k m in if beq j k then some v else rest

unfoldable pub store_driver : Bytes → Driver → StoragesMap → StoragesMap
store_driver k v [] = (k, v) ∷ []
store_driver k v ((j, x) ∷ m) =
    let rest = store_driver k v m in if beq j k then (k, v) ∷ m else (j, x) ∷ rest

unfoldable pub delete : Bytes → StoragesMap → StoragesMap
delete k [] = []
delete k ((j, x) ∷ m) = let rest = delete k m in if beq j k then m else (j, x) ∷ rest

unfoldable pub is_some : Option Driver → Bool
is_some none = false
is_some (some d) = true

unfoldable pub has_storage : Bytes → StoragesMap → Bool
unfolding load_driver is_some
has_storage mount_path m = is_some (load_driver (fix_and_clean_path mount_path) m)

unfoldable pub get_storage_by_mount_path : Bytes → StoragesMap → Option Driver
unfolding load_driver
get_storage_by_mount_path mount_path m = load_driver (fix_and_clean_path mount_path) m

-- The errors of this file, by the step that failed.
pub data LifeError : Type 0 where
  no_driver db_error init_error not_disabled already_disabled no_storage drop_error driver_changed :
      LifeError

-- The database. An operation on it says whether it failed.
pub record StorageDb : Type 1 where
  pub Table : Type 0
  -- the number that the record gets, or that it had if it is not created
  pub create : Table → Storage → ℕ × Bool × Table
  pub update : Table → Storage → Bool × Table
  pub delete_by_id : Table → ℕ → Bool × Table
  pub get_by_id : Table → ℕ → Option Storage

-- The drivers, with the state of their services; an error is its text. `unmarshal` and `marshal` are the
-- JSON form of a driver's Addition.
pub record Drivers : Type 1 where
  pub World : Type 0
  pub registry : List (Bytes × Config)
  pub unmarshal : Driver → World → Option Bytes × World
  pub init : Driver → World → Option Bytes × World
  pub drop : Driver → World → Option Bytes × World
  pub marshal : Driver → World → Option Bytes

-- GetDriverNew
unfoldable pub get_driver_new : List (Bytes × Config) → Bytes → Option Config
get_driver_new [] name = none
get_driver_new ((n, c) ∷ m) name =
    let rest = get_driver_new m name in if beq n name then some c else rest

abbrev pub work : Bytes
work = codes "work"

-- The status after the start of a driver.
unfoldable pub status_of : Option Bytes → Bytes
status_of none = work
status_of (some error) = error

unfoldable pub init_error_of : Option Bytes → Option LifeError
init_error_of none = none
init_error_of (some error) = some init_error

module _ (d : StorageDb) (v : Drivers) where
  pub record Running : Type 0 where
    pub storages : StoragesMap
    pub table : d.Table
    pub world : v.World

  abbrev pub Outcome : Type 0
  Outcome = Option LifeError × Running

  abbrev pub Step : Type 0
  Step = Running → Outcome

  abbrev pub fail : LifeError → Step
  fail error s = (some error, s)

  -- Init behind Unmarshal
  unfoldable pub started : Driver → Option Bytes × v.World → Option Bytes × v.World
  started driver (some error, w) = (some error, w)
  started driver (none, w) = v.init driver w

  unfoldable pub saved : Driver → Option Bytes → d.Table → Driver × d.Table
  saved driver none t = (driver, t)
  saved driver (some text) t =
      let driver : Driver = record driver { storage = record driver.storage { addition = text } } in
      (driver, (d.update t driver.storage).1)

  -- saveDriverStorage; MustSaveDriverStorage logs its errors
  unfoldable pub save_driver_storage : Driver → v.World → d.Table → Driver × d.Table
  unfolding saved
  save_driver_storage driver w t = saved driver (v.marshal driver w) t

  -- the end of initStorage, with the outcome of the start
  unfoldable pub init_ended : Driver → Option Bytes × v.World → Step
  unfolding save_driver_storage status_of init_error_of store_driver
  init_ended driver (outcome, w) s =
      let driver : Driver = record driver {
        storage = record driver.storage { status = status_of outcome };
      } in
      let (driver, t) = save_driver_storage driver w s.table in
      (
        init_error_of outcome,
        record {
          storages = store_driver driver.storage.mount_path driver s.storages;
          table = t;
          world = w;
        },
      )

  unfoldable pub init_storage : Storage → Config → Step
  unfolding init_ended started
  init_storage storage config s =
      let driver : Driver = record { config = config; storage = storage } in
      init_ended driver (started driver (v.unmarshal driver s.world)) s

  -- CreateStorage behind the check of the driver; it returns the number of the record
  unfoldable pub created : Config → Storage → ℕ × Bool × d.Table → Running → ℕ × Outcome
  unfolding init_storage
  created config storage (id, true, t) s = (id, (some db_error, record s { table = t }))
  created config storage (id, false, t) s =
      (id, init_storage (record storage { id = id }) config (record s { table = t }))

  unfoldable pub create_with : Option Config → Storage → Running → ℕ × Outcome
  unfolding created
  create_with none storage s = (0, (some no_driver, s))
  create_with (some config) storage s = created config storage (d.create s.table storage) s

  unfoldable pub create_storage : ℕ → Storage → Running → ℕ × Outcome
  unfolding create_with get_driver_new
  create_storage now storage s =
      let storage : Storage = record storage {
        modified = now;
        mount_path = fix_and_clean_path storage.mount_path;
      } in
      create_with (get_driver_new v.registry storage.driver) storage s

  unfoldable pub load_with : Option Config → Storage → Step
  unfolding init_storage
  load_with none storage = fail no_driver
  load_with (some config) storage = init_storage storage config

  unfoldable pub load_storage : Storage → Step
  unfolding load_with get_driver_new
  load_storage storage =
      let storage : Storage = record storage {
        mount_path = fix_and_clean_path storage.mount_path;
      } in
      load_with (get_driver_new v.registry storage.driver) storage
