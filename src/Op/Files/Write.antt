-- ===== src/Op/Files/Write.antt =====
-- MakeDir, Move, Rename, Copy and Remove of internal/op/fs.go. `lazy` is lazyCache: the caller will clear the cache.
pub mod Returns
pub mod Moves
use xiaoya_qwen.Prelude.{
  ℕ, zero, suc, List, [], ◌∷◌, Bytes, Bool, true, false, not, Option, none, some, if◌then◌else◌,
  length,
}
use xiaoya_qwen.Go.Path.{dir, split_path}
use xiaoya_qwen.Utils.Path.{fix_and_clean_path}
use xiaoya_qwen.Model.Objects.{Obj, Listed}
use xiaoya_qwen.Op.Files.Monad.{
  M, pure, fail, attempt, ◌>>=◌, ◌>>◌, Answer, ok, err, FsError, storage_not_init, object_not_found,
  not_implement, file_exists,
}
use xiaoya_qwen.Op.Files.Env.{Env, Fs}
use xiaoya_qwen.Op.Files.Listing.{update_cache_obj, del_cache_obj, add_cache_obj, clear_cache}
use xiaoya_qwen.Op.Files.Read.{Op, call, wrap_obj_name, is_not_init, get, get_unwrap}

-- errs.IsObjectNotFound
unfoldable pub is_object_not_found : FsError → Bool
is_object_not_found object_not_found = true
is_object_not_found _ = false

module _ (e : Env) where
  open e use {remote}

  -- A step that only changes the state.
  abbrev pub modify : (Fs e → Fs e) → Op e (Unit {0})
  modify f s = some (ok tt, f s)

  -- What follows a call that put an object into a directory: the driver returned the object or none.
  unfoldable pub added : Bytes → Bool → Option Obj → Fs e → Fs e
  added path lazy (some o) s = add_cache_obj e path (wrap_obj_name e o) s
  added path lazy none s = if lazy then s else clear_cache e path s

  unfoldable pub make_dir_in :
      Option (Obj → Bytes → remote.World → Answer (Option Obj) × remote.World)
      → Bytes
      → Bytes
      → Bool
      → Obj
      → Op e (Unit {0})
  unfolding added
  make_dir_in none parent_path dir_name lazy parent = fail not_implement
  make_dir_in (some make) parent_path dir_name lazy parent = do
    new ← call e (make parent dir_name)
    modify (added parent_path lazy new)

  -- The parent directory, then the directory in it; `up` makes the parent.
  unfoldable pub make_dir_under : (Bytes → Op e (Unit {0})) → Bytes × Bytes → Bool → Op e (Unit {0})
  unfolding make_dir_in
  make_dir_under up (parent_path, dir_name) lazy = do
    up parent_path
    parent ← get_unwrap e parent_path
    make_dir_in remote.make_dir parent_path dir_name lazy parent

  -- MakeDir behind its check for the directory
  unfoldable pub make_dir_checked :
      (Bytes → Op e (Unit {0})) → Bytes → Bool → Answer Obj → Op e (Unit {0})
  unfolding make_dir_under is_object_not_found
  make_dir_checked up path lazy (ok f) = if f.is_dir then pure tt else fail file_exists
  make_dir_checked up path lazy (err x) =
      if is_object_not_found x then make_dir_under up (split_path path) lazy else fail x

  -- MakeDir; each round of the recursion goes to the parent directory
  unfoldable pub make_dir_loop : ℕ → Bytes → Bool → Op e (Unit {0})
  unfolding make_dir_checked is_not_init
  make_dir_loop zero path lazy = λ s. none
  make_dir_loop (suc fuel) path lazy =
      if is_not_init e
      then fail storage_not_init
      else let path = fix_and_clean_path path in
        do
          f ← attempt (get_unwrap e path)
          make_dir_checked (λ p. make_dir_loop fuel p false) path lazy f

  unfoldable pub make_dir : Bytes → Bool → Op e (Unit {0})
  make_dir path lazy = make_dir_loop (suc (length (fix_and_clean_path path))) path lazy

  unfoldable pub move_with :
      Option (Obj → Obj → remote.World → Answer (Option Obj) × remote.World)
      → Bytes
      → Listed
      → Bytes
      → Bool
      → Obj
      → Op e (Unit {0})
  unfolding added
  move_with none src_dir_path src_raw dst_dir_path lazy dst_dir = fail not_implement
  move_with (some f) src_dir_path src_raw dst_dir_path lazy dst_dir = do
    new ← call e (f src_raw.obj dst_dir)
    modify (del_cache_obj e src_dir_path src_raw)
    modify (added dst_dir_path lazy new)

  unfoldable pub move : Bytes → Bytes → Bool → Op e (Unit {0})
  unfolding move_with is_not_init
  move src_path dst_dir_path lazy = if is_not_init e then fail storage_not_init else do
    let src_path = fix_and_clean_path src_path
    let dst_dir_path = fix_and_clean_path dst_dir_path
    src_raw ← get e src_path
    dst_dir ← get_unwrap e dst_dir_path
    move_with remote.move (dir src_path) src_raw dst_dir_path lazy dst_dir

  -- What follows a rename: the driver returned the new object or none.
  unfoldable pub renamed : Bytes → Listed → Bool → Option Obj → Fs e → Fs e
  renamed path old lazy (some o) s = update_cache_obj e path old (wrap_obj_name e o) s
  renamed path old lazy none s = if lazy then s else clear_cache e path s

  unfoldable pub rename_with :
      Option (Obj → Bytes → remote.World → Answer (Option Obj) × remote.World)
      → Bytes
      → Listed
      → Bytes
      → Bool
      → Op e (Unit {0})
  unfolding renamed
  rename_with none src_dir_path src_raw dst_name lazy = fail not_implement
  rename_with (some f) src_dir_path src_raw dst_name lazy = do
    new ← call e (f src_raw.obj dst_name)
    modify (renamed src_dir_path src_raw lazy new)

  unfoldable pub rename : Bytes → Bytes → Bool → Op e (Unit {0})
  unfolding rename_with is_not_init
  rename src_path dst_name lazy = if is_not_init e then fail storage_not_init else do
    let src_path = fix_and_clean_path src_path
    src_raw ← get e src_path
    rename_with remote.rename (dir src_path) src_raw dst_name lazy

  unfoldable pub copy_with :
      Option (Obj → Obj → remote.World → Answer (Option Obj) × remote.World)
      → Bytes
      → Bool
      → Obj
      → Obj
      → Op e (Unit {0})
  unfolding added
  copy_with none dst_dir_path lazy src dst_dir = fail not_implement
  copy_with (some f) dst_dir_path lazy src dst_dir = do
    new ← call e (f src dst_dir)
    modify (added dst_dir_path lazy new)

  unfoldable pub copy : Bytes → Bytes → Bool → Op e (Unit {0})
  unfolding copy_with is_not_init
  copy src_path dst_dir_path lazy = if is_not_init e then fail storage_not_init else do
    let src_path = fix_and_clean_path src_path
    let dst_dir_path = fix_and_clean_path dst_dir_path
    src ← get_unwrap e src_path
    dst_dir ← get_unwrap e dst_dir_path
    copy_with remote.copy dst_dir_path lazy src dst_dir

  unfoldable pub remove_with :
      Option (Obj → remote.World → Answer (Unit {0}) × remote.World)
      → Bytes
      → Listed
      → Op e (Unit {0})
  remove_with none dir_path raw = fail not_implement
  remove_with (some f) dir_path raw = do call e (f raw.obj); modify (del_cache_obj e dir_path raw)

  -- Remove, with what Get answered
  unfoldable pub remove_found : Bytes → Answer Listed → Op e (Unit {0})
  unfolding remove_with is_object_not_found
  remove_found path (ok raw) = remove_with remote.remove (dir path) raw
  remove_found path (err x) = if is_object_not_found x then pure tt else fail x

  unfoldable pub remove : Bytes → Op e (Unit {0})
  unfolding remove_found is_not_init
  remove path =
      if is_not_init e
      then fail storage_not_init
      else do let path = fix_and_clean_path path; raw ← attempt (get e path); remove_found path raw
