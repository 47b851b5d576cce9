-- ===== src/Op/Files/Upload/Returns.antt =====
-- The branches of Put.
use xiaoya_qwen.Prelude.{Bytes, Bool, true, false, Option, none, some, refl}
use xiaoya_qwen.Prelude.Int.{pos, int_eq}
use xiaoya_qwen.Model.Objects.{Obj}
use xiaoya_qwen.Op.Files.Monad.{Answer, ok, err, attempt, ◌>>=◌, storage_not_init, not_implement}
use xiaoya_qwen.Op.Files.Monad.Returns.{
  Total, Total-pure, Total-fail, Total-attempt, Total-bind, Total-if,
}
use xiaoya_qwen.Op.Files.Env.{Env}
use xiaoya_qwen.Op.Files.Read.{Op, call, is_not_init, get, get_unwrap, list, link}
use xiaoya_qwen.Op.Files.Read.Returns.{
  Total-call, get-Total, get_unwrap-Total, list-Total, link-Total,
}
use xiaoya_qwen.Op.Files.Write.{modify, added, make_dir, move, rename, copy, remove}
use xiaoya_qwen.Op.Files.Write.Returns.{HasRoot, make_dir-Total}
use xiaoya_qwen.Op.Files.Write.Moves.{move-Total, rename-Total, copy-Total, remove-Total}
use xiaoya_qwen.Op.Files.Upload.{clear_way, tidy, put_with, put}

module _ (e : Env) where
  open e use {remote, storage}

  clear_way-Total :
      (dst_path temp_name : Bytes) (fi : Answer Obj) → Total (clear_way e dst_path temp_name fi)
  unfolding clear_way
  clear_way-Total dst_path temp_name (err x) = Total-pure none
  clear_way-Total dst_path temp_name (ok fi) =
      Total-if (int_eq fi.size (pos 0)) _ _
        (Total-bind (remove e dst_path) _ (remove-Total e dst_path) (λ u. Total-pure none))
        (Total-if storage.config.no_overwrite_upload _ _
          (Total-bind (rename e dst_path temp_name false) _
            (rename-Total e dst_path temp_name false) (λ u. Total-pure none))
          (Total-pure (some fi)))

  tidy-Total :
      (b : Bool) (temp_path name : Bytes) (done : Answer (Unit {0}))
      → Total (tidy e b temp_path name done)
  unfolding tidy
  tidy-Total false temp_path name (ok u) = Total-pure tt
  tidy-Total false temp_path name (err x) = Total-fail x
  tidy-Total true temp_path name (ok u) = remove-Total e temp_path
  tidy-Total true temp_path name (err x) =
      Total-bind (attempt (rename e temp_path name false)) _
        (Total-attempt _ (rename-Total e temp_path name false)) (λ r. Total-fail x)

  put_with-Total :
      (f : Option
        (Obj → remote.Upload → Option Obj → remote.World → Answer (Option Obj) × remote.World))
      (dst_dir_path : Bytes) (lazy : Bool) (file : remote.Upload) (old : Option Obj)
      (end : Answer (Unit {0}) → Op e (Unit {0})) (parent : Obj)
      → ((done : Answer (Unit {0})) → Total (end done))
      → Total (put_with e f dst_dir_path lazy file old end parent)
  unfolding put_with
  put_with-Total none dst_dir_path lazy file old end parent t = Total-fail not_implement
  put_with-Total (some f) dst_dir_path lazy file old end parent t =
      Total-bind
        (attempt (call e (f parent file old) >>= λ new. modify e (added e dst_dir_path lazy new))) _
        (Total-attempt _ (
          Total-bind (call e (f parent file old)) _ (Total-call e (f parent file old))
            (λ new s. ((_, _), refl))))
        t

  put-Total :
      HasRoot e
      → (dst_dir_path : Bytes) (file : remote.Upload) (lazy : Bool)
      → Total (put e dst_dir_path file lazy)
  unfolding put
  put-Total h dst_dir_path file lazy = Total-if (is_not_init e) _ _ (Total-fail storage_not_init) (
      Total-bind (attempt (get_unwrap e _)) _ (Total-attempt _ (get_unwrap-Total e _)) (λ fi.
        Total-bind (clear_way e _ _ fi) _ (clear_way-Total _ _ fi) (λ old.
          Total-bind (make_dir e _ false) _ (make_dir-Total e h _ false) (λ u.
            Total-bind (get_unwrap e _) _ (get_unwrap-Total e _) (λ parent.
              put_with-Total remote.put _ lazy file old _ parent
                (λ done. tidy-Total _ _ _ done))))))

  -- Get, List, Link, MakeDir, Move, Rename, Copy, Remove and Put return from every state, if
  -- GetRoot of the driver does not answer that there is no such object: the fuel of Get and of
  -- MakeDir, the length of the path and one more, is enough.
  pub operations-Total :
      HasRoot e
      → ((path : Bytes) → Total (get e path))
        × ((path : Bytes) (refresh : Bool) → Total (list e path refresh))
        × ((path ip : Bytes) → Total (link e path ip))
        × ((path : Bytes) (lazy : Bool) → Total (make_dir e path lazy))
        × ((from to : Bytes) (lazy : Bool) → Total (move e from to lazy))
        × ((from name : Bytes) (lazy : Bool) → Total (rename e from name lazy))
        × ((from to : Bytes) (lazy : Bool) → Total (copy e from to lazy))
        × ((path : Bytes) → Total (remove e path))
        × ((path : Bytes) (file : remote.Upload) (lazy : Bool) → Total (put e path file lazy))
  operations-Total h = (
    get-Total e,
    list-Total e,
    link-Total e,
    make_dir-Total e h,
    move-Total e,
    rename-Total e,
    copy-Total e,
    remove-Total e,
    put-Total h,
  )
