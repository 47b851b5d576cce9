-- ===== src/Server/Upload.antt =====
-- Uploads: FsUp of server/middlewares/fsup.go in front of FsStream and FsForm of server/handles/fsup.go. What
-- internal/fs answers, the headers of the request and the parsing of numbers are parameters; a File-Path that does
-- not unescape is `none`.
pub mod Permitted
use xiaoya_qwen.Prelude.{
  List, [], ◌∷◌, Bytes, Bool, true, false, ◌||◌, not, Option, none, some, ℕ, if◌then◌else◌,
}
use xiaoya_qwen.Prelude.Int.{ℤ}
use xiaoya_qwen.Go.Path.{dir, split_path}
use xiaoya_qwen.Model.User.{User, can_write, join_path}
use xiaoya_qwen.Model.Meta.{Meta}
use xiaoya_qwen.Model.Storage.{Driver}
use xiaoya_qwen.Server.Check.{Regexp, can_access, meta_can_write}
use xiaoya_qwen.Server.Manage.{NearestMeta, nearest, meta_error}

-- The middleware lets the next handler run, or it aborts with a code, as ErrorResp does, or it panics.
pub data Guarded : Type 0 where
  goes_on : Guarded
  aborts : ℕ → Guarded
  panics : Guarded

-- PutAsTask or PutDirectly: directory, name, size
pub record Put : Type 0 where
  pub as_task : Bool
  pub directory : Bytes
  pub name : Bytes
  pub size : ℤ

-- The puts that a handler makes, and the code of its response; 200 is success.
pub record Done : Type 0 where
  pub puts : List Put
  pub code : ℕ

pub record UploadReq : Type 0 where
  pub file_path : Option Bytes
  pub password : Bytes
  pub as_task : Bool
  -- Content-Length as a number
  pub length : Option ℤ
  -- the size of the file of a form, and whether it opens
  pub form_file : Option (ℤ × Bool)

unfoldable pub permitted : Option Bool → Bool → Guarded
permitted none can = panics
permitted (some false) can = aborts 403
permitted (some true) can = if can then goes_on else aborts 403

unfoldable pub up_checked : Regexp → User → Bytes → Bytes → NearestMeta → Guarded
unfolding permitted
up_checked regexp user password path meta_error = aborts 500
up_checked regexp user password path (nearest meta) =
    permitted (can_access regexp user meta path password)
      (can_write user || meta_can_write meta (dir path))

unfoldable pub up_joined : Regexp → (Bytes → NearestMeta) → User → Bytes → Option Bytes → Guarded
unfolding up_checked
up_joined regexp metas user password none = aborts 403
up_joined regexp metas user password (some path) =
    up_checked regexp user password path (metas (dir path))

unfoldable pub up_path : Regexp → (Bytes → NearestMeta) → User → Bytes → Option Bytes → Guarded
unfolding up_joined
up_path regexp metas user password none = aborts 400
up_path regexp metas user password (some path) =
    up_joined regexp metas user password (join_path user path)

-- FsUp
unfoldable pub fs_up : Regexp → (Bytes → NearestMeta) → User → UploadReq → Guarded
unfolding up_path
fs_up regexp metas user req = up_path regexp metas user req.password req.file_path

abbrev pub fail : ℕ → Done
fail code = record { puts = []; code = code }

module _ (answers : Put → Bool) where
  unfoldable pub put : Bool → Bytes → ℤ → Done
  put as_task path size =
      let (directory, name) = split_path path in
      let p : Put = record { as_task = as_task; directory = directory; name = name; size = size } in
      record { puts = p ∷ []; code = if answers p then 200 else 500 }

  unfoldable pub stream_sized : Bool → Bytes → Option ℤ → Done
  unfolding put
  stream_sized as_task path none = fail 400
  stream_sized as_task path (some size) = put as_task path size

  unfoldable pub stream_joined : UploadReq → Option Bytes → Done
  unfolding stream_sized
  stream_joined req none = fail 403
  stream_joined req (some path) = stream_sized req.as_task path req.length

  unfoldable pub stream_path : User → UploadReq → Option Bytes → Done
  unfolding stream_joined
  stream_path user req none = fail 400
  stream_path user req (some path) = stream_joined req (join_path user path)

  -- FsStream
  unfoldable pub fs_stream : User → UploadReq → Done
  unfolding stream_path
  fs_stream user req = stream_path user req req.file_path

  unfoldable pub form_opened : Bool → Bytes → Option (ℤ × Bool) → Done
  unfolding put
  form_opened as_task path none = fail 500
  form_opened as_task path (some (size, opens)) = if opens then put as_task path size else fail 500

  unfoldable pub form_stored : UploadReq → Bytes → Option Driver → Done
  unfolding form_opened
  form_stored req path none = fail 400
  form_stored req path (some storage) =
      if storage.config.no_upload then fail 405 else form_opened req.as_task path req.form_file

  unfoldable pub form_joined : (Bytes → Option Driver) → UploadReq → Option Bytes → Done
  unfolding form_stored
  form_joined get_storage req none = fail 403
  form_joined get_storage req (some path) = form_stored req path (get_storage path)

  unfoldable pub form_path : (Bytes → Option Driver) → User → UploadReq → Option Bytes → Done
  unfolding form_joined
  form_path get_storage user req none = fail 400
  form_path get_storage user req (some path) = form_joined get_storage req (join_path user path)

  -- FsForm
  unfoldable pub fs_form : (Bytes → Option Driver) → User → UploadReq → Done
  unfolding form_path
  fs_form get_storage user req = form_path get_storage user req req.file_path

-- What a handler behind the middleware puts.
unfoldable pub puts_behind : Guarded → Done → List Put
puts_behind goes_on done = done.puts
puts_behind (aborts code) done = []
puts_behind panics done = []
