-- ===== src/Op/Files/Env.antt =====
-- What the operations of internal/op/fs.go work with: the storage, its driver, the caches, and the sorting of the
-- standard library. The drivers (internal/driver/driver.go) talk to remote services: a driver is a set of
-- operations on a state of the service. An operation that a driver does not implement is `none`. Where the
-- code tells an interface that returns the new object (MkdirResult) from one that does not (Mkdir), the
-- latter is an operation that returns no object.
use xiaoya_qwen.Prelude.{List, Bytes, Bool, Option}
use xiaoya_qwen.Model.Objects.{Obj, Listed, Sorter}
use xiaoya_qwen.Model.Storage.{Driver}
use xiaoya_qwen.Op.Cache.{Cache}
use xiaoya_qwen.Op.Files.Monad.{Answer}

-- driver.IRootId, driver.IRootPath, driver.GetRooter, or none of them
pub data RootKind : Type 0 where
  root_id root_path : Bytes → RootKind
  rooter not_rooted : RootKind

pub record Remote : Type 1 where
  pub World : Type 0
  pub Upload : Type 0
  -- model.Link, and whether its Expiration is set
  pub Link : Type 0
  pub expires : Link → Bool
  pub upload_name : Upload → Bytes
  -- whether the listed objects implement model.SetPath
  pub sets_path : Bool
  pub root_kind : RootKind
  -- `none` is a nil object
  pub get_root : World → Answer (Option Obj) × World
  pub list : Obj → World → Answer (List Obj) × World
  pub link : Obj → Bytes → World → Answer Link × World
  pub get : Option (Bytes → World → Answer Obj × World)
  pub make_dir : Option (Obj → Bytes → World → Answer (Option Obj) × World)
  pub move : Option (Obj → Obj → World → Answer (Option Obj) × World)
  pub rename : Option (Obj → Bytes → World → Answer (Option Obj) × World)
  pub copy : Option (Obj → Obj → World → Answer (Option Obj) × World)
  pub remove : Option (Obj → World → Answer (Unit {0}) × World)
  pub put : Option (Obj → Upload → Option Obj → World → Answer (Option Obj) × World)

-- `map_name` is utils.MappingName.
pub record Env : Type 1 where
  pub remote : Remote
  pub lists : Cache (List Listed)
  pub links : Cache remote.Link
  pub sorter : Sorter
  pub map_name : Bytes → Bytes
  pub storage : Driver

pub record Fs (e : Env) : Type 0 where
  pub world : e.remote.World
  pub list_cache : e.lists.Store
  pub link_cache : e.links.Store
