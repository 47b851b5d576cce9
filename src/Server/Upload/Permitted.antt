-- ===== src/Server/Upload/Permitted.antt =====
-- What may be uploaded, and where it is put.
use xiaoya_qwen.Prelude.{
  ◌++◌, Bytes, Bool, true, false, ◌||◌, Option, none, some, ℕ, suc, In, Option-cases, ◌⊎◌,
  take-append-drop, ◌≡◌, refl, ap, arith, Bool-cases, inl, inr,
}
use xiaoya_qwen.Prelude.Int.{ℤ}
use xiaoya_qwen.Go.Strings.{last_index}
use xiaoya_qwen.Go.Path.{dir, split_path, slash}
use xiaoya_qwen.Utils.Path.{is_sub_path}
use xiaoya_qwen.Utils.Path.JoinBase.{join_base_path-is_sub_path}
use xiaoya_qwen.Model.User.{User, can_write, join_path}
use xiaoya_qwen.Model.Meta.{Meta}
use xiaoya_qwen.Model.Storage.{Driver}
use xiaoya_qwen.Server.Check.{Regexp, can_access, meta_can_write}
use xiaoya_qwen.Server.Manage.{NearestMeta, nearest, meta_error}
use xiaoya_qwen.Server.Upload.{
  Put, Done, UploadReq, permitted, up_checked, up_joined, up_path, fs_up, fail, put, stream_sized,
  stream_joined, stream_path, fs_stream, form_opened, form_stored, form_joined, form_path, fs_form,
  puts_behind,
}

split_path-append : (p : Bytes) → (split_path p).0 ++ (split_path p).1 ≡ p
unfolding split_path
split_path-append p = elim (Option-cases (last_index p slash)) [
  | inl e ↦ ground arith
  | inr (i, e) ↦ ground (arith, take-append-drop (suc i) p)
]

-- A put of a path below the user's base path, which the user may see, in a directory where the
-- user may write or the nearest meta lets everybody write.
abbrev pub Permits : Regexp → (Bytes → NearestMeta) → User → UploadReq → Put → Type 0
Permits regexp metas user req p =
    (path : Bytes) × (meta : Option Meta) × (p.directory ++ p.name ≡ path)
    × (is_sub_path user.base_path path ≡ true)
    × (metas (dir path) ≡ nearest meta)
    × (can_access regexp user meta path req.password ≡ some true)
    × ((can_write user || meta_can_write meta (dir path)) ≡ true)

-- The puts of a handler are at a path.
abbrev At : Bytes → Done → Type 0
At path d = (p : Put) → In p d.puts → p.directory ++ p.name ≡ path

none-At : (path : Bytes) (code : ℕ) → At path (fail code)
none-At path code p i = elim i [ ]

module _ (answers : Put → Bool) where
  put-At : (as_task : Bool) (path : Bytes) (size : ℤ) → At path (put answers as_task path size)
  unfolding put
  put-At as_task path size p (inl e) =
      rw (ap (λ (x : Put). x.directory) e, ap (λ (x : Put). x.name) e) (split_path-append path)
  put-At as_task path size p (inr i) = elim i [ ]

  stream_sized-At :
      (as_task : Bool) (path : Bytes) (size : Option ℤ)
      → At path (stream_sized answers as_task path size)
  unfolding stream_sized
  stream_sized-At as_task path none p i = elim i [ ]
  stream_sized-At as_task path (some size) p i = put-At as_task path size p i

  form_opened-At :
      (as_task : Bool) (path : Bytes) (file : Option (ℤ × Bool))
      → At path (form_opened answers as_task path file)
  unfolding form_opened
  form_opened-At as_task path none p i = elim i [ ]
  form_opened-At as_task path (some (size, true)) p i = put-At as_task path size p i
  form_opened-At as_task path (some (size, false)) p i = elim i [ ]

  form_stored-At :
      (req : UploadReq) (path : Bytes) (storage : Option Driver)
      → At path (form_stored answers req path storage)
  unfolding form_stored
  form_stored-At req path none = none-At path 400
  form_stored-At req path (some storage) = elim (Bool-cases storage.config.no_upload) [
    | inl b ↦ rw b (none-At path 405)
    | inr b ↦ rw b (form_opened-At req.as_task path req.form_file)
  ]

module _ (regexp : Regexp) (metas : Bytes → NearestMeta) (user : User) (req : UploadReq)
    (p : Put) where
  permitted-goes_on :
      (access : Option Bool) (can : Bool) (d : Done)
      → In p (puts_behind (permitted access can) d)
      → (access ≡ some true) × (can ≡ true) × In p d.puts
  unfolding permitted puts_behind
  permitted-goes_on none can d i = elim i [ ]
  permitted-goes_on (some false) can d i = elim i [ ]
  permitted-goes_on (some true) true d i = (refl, refl, i)
  permitted-goes_on (some true) false d i = elim i [ ]

  up_checked-Permits :
      (raw path : Bytes) (found : NearestMeta) (d : Done)
      → join_path user raw ≡ some path
      → metas (dir path) ≡ found
      → At path d
      → In p (puts_behind (up_checked regexp user req.password path found) d)
      → Permits regexp metas user req p
  unfolding up_checked puts_behind join_path
  up_checked-Permits raw path meta_error d j m at i = elim i [ ]
  up_checked-Permits raw path (nearest meta) d j m at i =
      let (access, can, k) =
        permitted-goes_on (can_access regexp user meta path req.password)
          (can_write user || meta_can_write meta (dir path)) d i in
      (path, meta, at p k, (join_base_path-is_sub_path user.base_path raw path j).0, m, access, can)

  -- A handler of the joined path.
  up_joined-Permits :
      (raw : Bytes) (joined : Option Bytes) (handler : Option Bytes → Done)
      → join_path user raw ≡ joined
      → ((path : Bytes) → At path (handler (some path)))
      → In p (puts_behind (up_joined regexp metas user req.password joined) (handler joined))
      → Permits regexp metas user req p
  unfolding up_joined puts_behind
  up_joined-Permits raw none handler j at i = elim i [ ]
  up_joined-Permits raw (some path) handler j at i =
      up_checked-Permits raw path (metas (dir path)) (handler (some path)) j refl (at path) i

  stream_path-Permits :
      (answers : Put → Bool) (file_path : Option Bytes)
      → In p (
          puts_behind
            (up_path regexp metas user req.password file_path)
            (stream_path answers user req file_path))
      → Permits regexp metas user req p
  unfolding up_path puts_behind stream_path stream_joined
  stream_path-Permits answers none i = elim i [ ]
  stream_path-Permits answers (some raw) i =
      up_joined-Permits raw (join_path user raw) (stream_joined answers req) refl
        (λ path. stream_sized-At answers req.as_task path req.length) i

  form_path-Permits :
      (answers : Put → Bool) (get_storage : Bytes → Option Driver) (file_path : Option Bytes)
      → In p (
          puts_behind
            (up_path regexp metas user req.password file_path)
            (form_path answers get_storage user req file_path))
      → Permits regexp metas user req p
  unfolding up_path puts_behind form_path form_joined
  form_path-Permits answers get_storage none i = elim i [ ]
  form_path-Permits answers get_storage (some raw) i =
      up_joined-Permits raw (join_path user raw) (form_joined answers get_storage req) refl
        (λ path. form_stored-At answers req path (get_storage path)) i

  -- Whatever FsStream and FsForm put behind FsUp lies below the user's base path, the user may
  -- see it with the password of the request, by the nearest meta of its directory, whose lookup
  -- succeeded, and the user may write or that meta lets everybody write in that directory.
  pub uploads-Permits :
      (answers : Put → Bool) (get_storage : Bytes → Option Driver)
      → In p (puts_behind (fs_up regexp metas user req) (fs_stream answers user req))
        ⊎ In p (puts_behind (fs_up regexp metas user req) (fs_form answers get_storage user req))
      → Permits regexp metas user req p
  unfolding fs_up fs_stream fs_form
  uploads-Permits answers get_storage (inl i) = stream_path-Permits answers req.file_path i
  uploads-Permits answers get_storage (inr i) =
      form_path-Permits answers get_storage req.file_path i
