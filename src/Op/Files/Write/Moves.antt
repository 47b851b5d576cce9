-- ===== src/Op/Files/Write/Moves.antt =====
-- The straight-line operations Move, Rename, Copy and Remove.
use xiaoya_qwen.Prelude.{Bytes, Bool, Option, none, some, refl}
use xiaoya_qwen.Go.Path.{dir}
use xiaoya_qwen.Utils.Path.{fix_and_clean_path}
use xiaoya_qwen.Model.Objects.{Obj, Listed}
use xiaoya_qwen.Op.Files.Monad.{Answer, ok, err, attempt, storage_not_init, not_implement}
use xiaoya_qwen.Op.Files.Monad.Returns.{
  Total, Total-pure, Total-fail, Total-attempt, Total-bind, Total-if,
}
use xiaoya_qwen.Op.Files.Env.{Env}
use xiaoya_qwen.Op.Files.Read.{call, is_not_init, get, get_unwrap}
use xiaoya_qwen.Op.Files.Read.Returns.{Total-call, get-Total, get_unwrap-Total}
use xiaoya_qwen.Op.Files.Write.{
  is_object_not_found, move_with, move, rename_with, rename, copy_with, copy, remove_with,
  remove_found, remove,
}

module _ (e : Env) where
  open e use {remote}

  move_with-Total :
      (f : Option (Obj → Obj → remote.World → Answer (Option Obj) × remote.World)) (from : Bytes)
      (raw : Listed) (to : Bytes) (lazy : Bool) (to_dir : Obj)
      → Total (move_with e f from raw to lazy to_dir)
  unfolding move_with
  move_with-Total none from raw to lazy to_dir = Total-fail not_implement
  move_with-Total (some f) from raw to lazy to_dir =
      Total-bind (call e (f raw.obj to_dir)) _ (Total-call e (f raw.obj to_dir))
        (λ new s. ((_, _), refl))

  pub move-Total : (from to : Bytes) (lazy : Bool) → Total (move e from to lazy)
  unfolding move
  move-Total from to lazy = Total-if (is_not_init e) _ _ (Total-fail storage_not_init) (
      Total-bind (get e (fix_and_clean_path from)) _ (get-Total e _) (λ raw.
        Total-bind (get_unwrap e (fix_and_clean_path to)) _ (get_unwrap-Total e _)
          (λ to_dir. move_with-Total remote.move _ raw _ lazy to_dir)))

  rename_with-Total :
      (f : Option (Obj → Bytes → remote.World → Answer (Option Obj) × remote.World)) (from : Bytes)
      (raw : Listed) (name : Bytes) (lazy : Bool)
      → Total (rename_with e f from raw name lazy)
  unfolding rename_with
  rename_with-Total none from raw name lazy = Total-fail not_implement
  rename_with-Total (some f) from raw name lazy =
      Total-bind (call e (f raw.obj name)) _ (Total-call e (f raw.obj name))
        (λ new s. ((_, _), refl))

  pub rename-Total : (from name : Bytes) (lazy : Bool) → Total (rename e from name lazy)
  unfolding rename
  rename-Total from name lazy = Total-if (is_not_init e) _ _ (Total-fail storage_not_init) (
      Total-bind (get e (fix_and_clean_path from)) _ (get-Total e _)
        (λ raw. rename_with-Total remote.rename _ raw name lazy))

  copy_with-Total :
      (f : Option (Obj → Obj → remote.World → Answer (Option Obj) × remote.World)) (to : Bytes)
      (lazy : Bool) (from to_dir : Obj)
      → Total (copy_with e f to lazy from to_dir)
  unfolding copy_with
  copy_with-Total none to lazy from to_dir = Total-fail not_implement
  copy_with-Total (some f) to lazy from to_dir =
      Total-bind (call e (f from to_dir)) _ (Total-call e (f from to_dir)) (λ new s. ((_, _), refl))

  pub copy-Total : (from to : Bytes) (lazy : Bool) → Total (copy e from to lazy)
  unfolding copy
  copy-Total from to lazy = Total-if (is_not_init e) _ _ (Total-fail storage_not_init) (
      Total-bind (get_unwrap e (fix_and_clean_path from)) _ (get_unwrap-Total e _) (λ src.
        Total-bind (get_unwrap e (fix_and_clean_path to)) _ (get_unwrap-Total e _)
          (λ to_dir. copy_with-Total remote.copy _ lazy src to_dir)))

  remove_with-Total :
      (f : Option (Obj → remote.World → Answer (Unit {0}) × remote.World)) (path : Bytes)
      (raw : Listed)
      → Total (remove_with e f path raw)
  unfolding remove_with
  remove_with-Total none path raw = Total-fail not_implement
  remove_with-Total (some f) path raw =
      Total-bind (call e (f raw.obj)) _ (Total-call e (f raw.obj)) (λ u s. ((_, _), refl))

  remove_found-Total : (path : Bytes) (found : Answer Listed) → Total (remove_found e path found)
  unfolding remove_found
  remove_found-Total path (ok raw) = remove_with-Total remote.remove (dir path) raw
  remove_found-Total path (err x) =
      Total-if (is_object_not_found x) _ _ (Total-pure tt) (Total-fail x)

  pub remove-Total : (path : Bytes) → Total (remove e path)
  unfolding remove
  remove-Total path = Total-if (is_not_init e) _ _ (Total-fail storage_not_init) (
      Total-bind (attempt (get e (fix_and_clean_path path))) _ (Total-attempt _ (get-Total e _))
        (remove_found-Total (fix_and_clean_path path)))
