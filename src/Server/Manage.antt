-- ===== src/Server/Manage.antt =====
-- server/handles/fsmanage.go: the handlers that change files. A request that gin cannot bind is
-- `none`. What internal/fs answers to a call may depend on the calls before it.
pub mod Confined
pub mod Escape
use xiaoya_qwen.Prelude.{
  ℕ, zero, suc, ◌+◌, List, [], ◌∷◌, ◌++◌, Bytes, Bool, true, false, not, Option, none, some, ltb,
  if◌then◌else◌, length,
}
use xiaoya_qwen.Go.Path.{join_paths, dir}
use xiaoya_qwen.Model.User.{User, can_write, can_move, can_copy, can_rename, can_remove, join_path}
use xiaoya_qwen.Model.Meta.{Meta}
use xiaoya_qwen.Server.Check.{meta_can_write}

-- A call of internal/fs; the last field of a move and a copy is lazyCache.
pub data FsCall : Type 0 where
  make_dir : Bytes → FsCall
  move : Bytes → Bytes → Bool → FsCall
  copy : Bytes → Bytes → Bool → FsCall
  rename : Bytes → Bytes → FsCall
  remove : Bytes → FsCall

-- done, the copy was queued as a task, or an error
pub data FsAnswer : Type 0 where
  done : FsAnswer
  queued : FsAnswer
  failed : FsAnswer

abbrev pub Answers : Type 0
Answers = List FsCall → FsCall → FsAnswer

-- The code of the response, and the number of tasks that its message names.
pub data Response : Type 0 where
  error : ℕ → Response
  success : ℕ → Response

-- What a handler does: the calls that it makes, in order, and its response.
pub record Reply : Type 0 where
  pub calls : List FsCall
  pub response : Response

abbrev pub refuse : ℕ → Reply
refuse code = record { calls = []; response = error code }

-- GetNearestMeta: a meta, none (MetaNotFound), or another error
pub data NearestMeta : Type 0 where
  nearest : Option Meta → NearestMeta
  meta_error : NearestMeta

one_call : Answers → FsCall → Reply
one_call answers call = elim (answers [] call) [
  | failed ↦ record { calls = call ∷ []; response = error 500 }
  | _ ↦ record { calls = call ∷ []; response = success 0 }
]

-- The loop over the names: `call` is what the body does with a name and the number of names behind
-- it, `tasks` counts the copies that were queued.
unfoldable pub for_names : Answers → (Bytes → ℕ → FsCall) → List Bytes → List FsCall → ℕ → Reply
for_names answers call [] made tasks = record { calls = made; response = success tasks }
for_names answers call (name ∷ names) made tasks =
    let this = call name (length names) in
    let next = λ (n : ℕ). for_names answers call names (made ++ this ∷ []) n in
    elim (answers made this) [
      | failed ↦ record { calls = made ++ this ∷ []; response = error 500 }
      | done ↦ next tasks
      | queued ↦ next (tasks + 1)
    ]

mkdir_checked : Answers → NearestMeta → Bytes → Reply
mkdir_checked answers meta_error req_path = refuse 500
mkdir_checked answers (nearest meta) req_path =
    if not (meta_can_write meta req_path) then refuse 403 else one_call answers (make_dir req_path)

mkdir_at : Answers → (Bytes → NearestMeta) → User → Option Bytes → Reply
mkdir_at answers metas user none = refuse 403
mkdir_at answers metas user (some req_path) =
    if not (can_write user)
    then mkdir_checked answers (metas (dir req_path)) req_path
    else one_call answers (make_dir req_path)

unfoldable pub fs_mkdir : Answers → (Bytes → NearestMeta) → User → Option Bytes → Reply
unfolding mkdir_at mkdir_checked one_call
fs_mkdir answers metas user none = refuse 400
fs_mkdir answers metas user (some path) = mkdir_at answers metas user (join_path user path)

pub record MoveCopyReq : Type 0 where
  pub src_dir : Bytes
  pub dst_dir : Bytes
  pub names : List Bytes

-- len(req.Names) > i+1: names are left behind this one
abbrev pub lazy_cache : ℕ → Bool
lazy_cache left = ltb 0 left

unfoldable pub transfer :
    Answers → (Bytes → Bytes → Bool → FsCall) → List Bytes → Option Bytes → Option Bytes → Reply
transfer answers call names none dst = refuse 403
transfer answers call names (some src_dir) none = refuse 403
transfer answers call names (some src_dir) (some dst_dir) =
    for_names answers (λ name left. call (join_paths src_dir name) dst_dir (lazy_cache left)) names
      [] 0

is_empty : List Bytes → Bool
is_empty [] = true
is_empty (n ∷ ns) = false

unfoldable pub fs_move : Answers → User → Option MoveCopyReq → Reply
unfolding transfer is_empty
fs_move answers user none = refuse 400
fs_move answers user (some req) =
    if is_empty req.names
    then refuse 400
    else if not (can_move user)
    then refuse 403
    else transfer answers move req.names (join_path user req.src_dir) (join_path user req.dst_dir)

unfoldable pub fs_copy : Answers → User → Option MoveCopyReq → Reply
unfolding transfer is_empty
fs_copy answers user none = refuse 400
fs_copy answers user (some req) =
    if is_empty req.names
    then refuse 400
    else if not (can_copy user)
    then refuse 403
    else transfer answers copy req.names (join_path user req.src_dir) (join_path user req.dst_dir)

pub record RenameReq : Type 0 where
  pub path : Bytes
  pub name : Bytes

rename_at : Answers → Bytes → Option Bytes → Reply
rename_at answers name none = refuse 403
rename_at answers name (some req_path) = one_call answers (rename req_path name)

unfoldable pub fs_rename : Answers → User → Option RenameReq → Reply
unfolding rename_at one_call
fs_rename answers user none = refuse 400
fs_rename answers user (some req) =
    if not (can_rename user)
    then refuse 403
    else rename_at answers req.name (join_path user req.path)

pub record RemoveReq : Type 0 where
  pub dir : Bytes
  pub names : List Bytes

unfoldable pub remove_in : Answers → List Bytes → Option Bytes → Reply
remove_in answers names none = refuse 403
remove_in answers names (some req_dir) =
    for_names answers (λ name left. remove (join_paths req_dir name)) names [] 0

unfoldable pub fs_remove : Answers → User → Option RemoveReq → Reply
unfolding remove_in is_empty
fs_remove answers user none = refuse 400
fs_remove answers user (some req) =
    if is_empty req.names
    then refuse 400
    else if not (can_remove user)
    then refuse 403
    else remove_in answers req.names (join_path user req.dir)
