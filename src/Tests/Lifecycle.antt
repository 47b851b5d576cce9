-- ===== src/Tests/Lifecycle.antt =====
-- The life cycle of one storage over a database of one row.
use xiaoya_qwen.Prelude.{
  ℕ, List, [], ◌∷◌, ◌≢◌, true, false, Option, none, some, ◌≡◌, refl, codes, beq, ◌==◌,
  if◌then◌else◌, inl,
}
use xiaoya_qwen.Utils.Path.{fix_and_clean_path}
use xiaoya_qwen.Model.Storage.{Storage, Config, Driver}
use xiaoya_qwen.Op.Storages.Lifecycle.{
  load_driver, store_driver, delete, is_some, has_storage, get_storage_by_mount_path, StorageDb,
  Drivers, Running, get_driver_new, started, saved, save_driver_storage, init_ended, init_storage,
  load_with, load_storage, created, create_with, create_storage, status_of, init_error_of, work,
}
use xiaoya_qwen.Op.Storages.Changes.{
  same_driver, restarted, restart, dropped, drop_found, disabled, disable_found, disable_storage,
  updated, update_found, update_storage,
}
use xiaoya_qwen.Op.Storages.Kept.{IsKept}
use xiaoya_qwen.Op.Storages.Kept.Steps.{
  Command, create, load, disable, update, perform, run, run-IsKept, IsClean, AreClean,
}
use xiaoya_qwen.Op.Storages.Kept.Restarts.{IsCleanRow}
use xiaoya_qwen.Op.Storages.Kept.Mounted.{IsMounted, load_storage-IsMounted, IsGone, perform-IsGone}
use xiaoya_qwen.Tests.Mounts.{mounted}

abbrev by_id : Option Storage → ℕ → Option Storage
by_id none i = none
by_id (some s) i = if s.id == i then some s else none

abbrev one_row : StorageDb
one_row = record {
  Table = Option Storage;
  create = λ t s. (1, false, some (record s { id = 1 }));
  update = λ t s. (false, some s);
  delete_by_id = λ t i. (false, none);
  get_by_id = by_id;
}

abbrev local : Driver
local = mounted (codes "/a")

abbrev idle : Drivers
idle = record {
  World = Unit {0};
  registry = (codes "Local", local.config) ∷ [];
  unmarshal = λ v w. (none, w);
  init = λ v w. (none, w);
  drop = λ v w. (none, w);
  marshal = λ v w. none;
}

abbrev stopped : Running one_row idle
stopped = record { storages = []; table = none; world = tt }

stopped-IsKept : IsKept stopped.storages
unfolding IsKept
stopped-IsKept = tt

abbrev moved_row : Storage
moved_row = record local.storage { id = 1; mount_path = codes "/b/" }

abbrev commands : List (Command one_row idle)
commands = create 5 local.storage ∷ update 6 moved_row ∷ disable 1 ∷ load local.storage ∷ []

opened : Unit {0}
unfolding load_driver store_driver delete is_some has_storage get_storage_by_mount_path
    get_driver_new started saved save_driver_storage init_ended init_storage load_with load_storage
    status_of init_error_of dropped drop_found disabled disable_found disable_storage updated
    update_found update_storage perform create_with create_storage created same_driver restarted
    restart IsClean IsCleanRow AreClean fix_and_clean_path beq IsKept
opened = tt

commands-AreClean : AreClean one_row idle commands stopped
unfolding opened
commands-AreClean = (tt, (refl, (tt, (tt, tt))))

run-IsKept_example : IsKept (run one_row idle commands stopped).storages
run-IsKept_example = run-IsKept one_row idle commands stopped commands-AreClean stopped-IsKept

-- The driver of the row at "/a/" stands at "/a" also after it has moved to "/b".
abbrev unclean : Running one_row idle
unclean = record {
  storages = (codes "/a", local) ∷ [];
  table = some (record local.storage { id = 1; mount_path = codes "/a/" });
  world = tt;
}

still_there :
    load_driver (codes "/a") (perform one_row idle (update 6 moved_row) unclean).1.storages
    ≡ load_driver (codes "/b") (perform one_row idle (update 6 moved_row) unclean).1.storages
unfolding opened
still_there = refl

still_there_moved :
    (load_driver (codes "/a") (perform one_row idle (update 6 moved_row) unclean).1.storages) ≢ none
unfolding opened
still_there_moved h = cc

loaded : (load_storage one_row idle local.storage stopped).0 ≡ none
unfolding opened
loaded = refl

load_storage-IsMounted_example :
    (config : Config) × (get_driver_new idle.registry local.storage.driver ≡ some config)
    × IsMounted
        (load_storage one_row idle local.storage stopped).1.storages
        local.storage.mount_path
        work
        config
load_storage-IsMounted_example = load_storage-IsMounted one_row idle local.storage stopped loaded

abbrev started_state : Running one_row idle
started_state = record {
  storages = (codes "/a", local) ∷ [];
  table = some local.storage;
  world = tt;
}

started_state-IsKept : IsKept started_state.storages
unfolding opened
started_state-IsKept = (refl, refl, refl, tt)

one_row_found : one_row.get_by_id started_state.table 1 ≡ some local.storage
one_row_found = refl

clean_mount : fix_and_clean_path local.storage.mount_path ≡ local.storage.mount_path
unfolding opened
clean_mount = refl

disabled_well : (perform one_row idle (disable 1) started_state).0 ≡ none
unfolding opened
disabled_well = refl

perform-IsGone_example :
    IsGone one_row idle (codes "/a") (perform one_row idle (disable 1) started_state)
perform-IsGone_example =
    perform-IsGone one_row idle (disable 1) 1 local.storage started_state (inl refl)
      started_state-IsKept one_row_found refl clean_mount disabled_well

-- An update that disables a storage leaves its driver in the map.
still_mounted :
    has_storage
      (codes "/a")
      (update_storage one_row idle 9
        (record local.storage { disabled = true })
        started_state).1.storages
    ≡ true
unfolding opened
still_mounted = refl
