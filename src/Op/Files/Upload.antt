-- ===== src/Op/Files/Upload.antt =====
-- Put of internal/op/fs.go. The temporary file of the upload on the server's own disk is left out.
pub mod Returns
use xiaoya_qwen.Prelude.{
  List, [], ◌∷◌, ◌++◌, Bytes, Bool, true, false, not, ◌&&◌, Option, none, some, codes,
  if◌then◌else◌,
}
use xiaoya_qwen.Prelude.Int.{ℤ, pos, int_lt, int_eq}
use xiaoya_qwen.Go.Path.{join_paths}
use xiaoya_qwen.Utils.Path.{fix_and_clean_path}
use xiaoya_qwen.Model.Objects.{Obj, Listed}
use xiaoya_qwen.Op.Files.Monad.{
  M, pure, fail, attempt, ◌>>=◌, ◌>>◌, Answer, ok, err, FsError, storage_not_init, not_implement,
}
use xiaoya_qwen.Op.Files.Env.{Env, Fs}
use xiaoya_qwen.Op.Files.Read.{Op, call, is_not_init, get_unwrap}
use xiaoya_qwen.Op.Files.Write.{modify, added, make_dir, rename, remove}

abbrev pub suffix : Bytes
suffix = codes ".alist_to_delete"

module _ (e : Env) where
  open e use {storage, remote}

  -- the file that is in the way, and the object that the upload takes the place of
  unfoldable pub clear_way : Bytes → Bytes → Answer Obj → Op e (Option Obj)
  clear_way dst_path temp_name (err x) = pure none
  clear_way dst_path temp_name (ok fi) =
      if int_eq fi.size (pos 0)
      then (do remove e dst_path; pure none)
      else if storage.config.no_overwrite_upload
      then (do rename e dst_path temp_name false; pure none)
      else pure (some fi)

  unfoldable pub was_renamed : Answer Obj → Bool
  was_renamed (err x) = false
  was_renamed (ok fi) = storage.config.no_overwrite_upload && int_lt (pos 0) fi.size

  -- the end of Put, with the answer to the upload
  unfoldable pub tidy : Bool → Bytes → Bytes → Answer (Unit {0}) → Op e (Unit {0})
  tidy false temp_path name (ok u) = pure tt
  tidy false temp_path name (err x) = fail x
  tidy true temp_path name (ok u) = remove e temp_path
  tidy true temp_path name (err x) = do recovered ← attempt (rename e temp_path name false); fail x

  unfoldable pub put_with :
      Option (Obj → remote.Upload → Option Obj → remote.World → Answer (Option Obj) × remote.World)
      → Bytes
      → Bool
      → remote.Upload
      → Option Obj
      → (Answer (Unit {0}) → Op e (Unit {0}))
      → Obj
      → Op e (Unit {0})
  unfolding added
  put_with none dst_dir_path lazy file old end parent = fail not_implement
  put_with (some f) dst_dir_path lazy file old end parent = do
    done ← attempt (do new ← call e (f parent file old); modify e (added e dst_dir_path lazy new))
    end done

  unfoldable pub put : Bytes → remote.Upload → Bool → Op e (Unit {0})
  unfolding clear_way was_renamed tidy put_with is_not_init
  put dst_dir_path file lazy = if is_not_init e then fail storage_not_init else do
    let dst_dir_path = fix_and_clean_path dst_dir_path
    let name = remote.upload_name file
    let dst_path = join_paths dst_dir_path name
    let temp_name = name ++ suffix
    let temp_path = join_paths dst_dir_path temp_name
    fi ← attempt (get_unwrap e dst_path)
    old ← clear_way dst_path temp_name fi
    make_dir e dst_dir_path false
    parent ← get_unwrap e dst_dir_path
    put_with remote.put dst_dir_path lazy file old (tidy (was_renamed fi) temp_path name) parent
