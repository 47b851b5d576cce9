-- ===== src/Server/Read.antt =====
-- FsList and FsDirs of server/handles/fsread.go, what its handlers share, and Sign of server/common/sign.go. What internal/fs answers,
-- the thumbnails and URLs of objects, and the signatures are parameters; a request that gin cannot bind is `none`.
pub mod Get
pub mod Contents
pub mod Found
pub mod Permitted
pub mod Signed
use xiaoya_qwen.Prelude.{
  ℕ, List, [], ◌∷◌, ◌++◌, Bytes, Bool, true, false, ◌||◌, ◌&&◌, not, Option, none, some, beq, codes,
  if◌then◌else◌, length, map,
}
use xiaoya_qwen.Prelude.Int.{ℤ}
use xiaoya_qwen.Go.Strings.{split, trim_suffix, has_prefix}
use xiaoya_qwen.Go.Path
use xiaoya_qwen.Go.Path.{dir, join_paths}
use xiaoya_qwen.Utils.Path.{encode_path}
use xiaoya_qwen.Utils.FileType.{Extensions, FileType, get_file_type, get_obj_type}
use xiaoya_qwen.Model.User.{User, can_write, is_admin, join_path}
use xiaoya_qwen.Model.Meta.{Meta}
use xiaoya_qwen.Model.Storage.{Driver, must_proxy}
use xiaoya_qwen.Model.Objects.{Obj}
use xiaoya_qwen.Server.Check.{Regexp, can_access, meta_can_write, get_readme, is_encrypt}
use xiaoya_qwen.Server.Manage.{NearestMeta, nearest, meta_error}
use xiaoya_qwen.Server.Page.{PageReq, validate, pagination}

-- What the calls of one request answer; no handler asks internal/fs the same twice.
pub record Reads : Type 0 where
  pub regexp : Regexp
  pub metas : Bytes → NearestMeta
  -- fs.List with the meta of the context
  pub list : Option Meta → Bytes → Bool → Option (List Obj)
  pub get : Bytes → Option Obj
  pub get_storage : Bytes → Option Driver
  -- the URL of fs.Link
  pub link : Bytes → Option Bytes
  pub other : Bytes → Option Bytes
  pub thumb : Obj → Bytes
  pub url : Obj → Option Bytes
  pub sign : Bytes → Bytes
  pub sign_all : Bool
  pub api_url : Bytes
  pub path_escape : Bytes → Bytes
  pub extensions : Extensions

-- What a handler shows, or the code of an error, or a panic.
pub data Shown (A : Type 0) : Type 0 where
  shows : A → Shown A
  refused : ℕ → Shown A
  panics : Shown A

pub record ListReq : Type 0 where
  pub page_req : PageReq
  pub path : Bytes
  pub password : Bytes
  pub refresh : Bool

pub record DirReq : Type 0 where
  pub path : Bytes
  pub password : Bytes
  pub force_root : Bool

pub record ObjResp : Type 0 where
  pub name : Bytes
  pub size : ℤ
  pub is_dir : Bool
  pub modified : ℕ
  pub sign : Bytes
  pub thumb : Bytes
  pub kind : FileType

pub record FsListResp : Type 0 where
  pub content : List ObjResp
  pub total : ℕ
  pub readme : Bytes
  pub write : Bool
  pub provider : Bytes

pub record DirResp : Type 0 where
  pub name : Bytes
  pub modified : ℕ

module _ (e : Reads) where
  unfoldable pub accessed : {A : Type 0} → Option Bool → Shown A → Shown A
  accessed none rest = panics
  accessed (some false) rest = refused 403
  accessed (some true) rest = rest

  unfoldable pub with_meta :
      {A : Type 0} → User → Bytes → Bytes → (Option Meta → Shown A) → NearestMeta → Shown A
  unfolding accessed
  with_meta user req_path password rest meta_error = refused 500
  with_meta user req_path password rest (nearest meta) =
      accessed (can_access e.regexp user meta req_path password) (rest meta)

  -- The lookup of the nearest meta and the check of the access, in front of the rest of a handler.
  unfoldable pub at_path : {A : Type 0} → User → Bytes → Bytes → (Option Meta → Shown A) → Shown A
  unfolding with_meta
  at_path user req_path password rest = with_meta user req_path password rest (e.metas req_path)

  unfoldable pub at_joined :
      {A : Type 0} → User → Bytes → (Bytes → Option Meta → Shown A) → Option Bytes → Shown A
  unfolding at_path
  at_joined user password rest none = refused 403
  at_joined user password rest (some req_path) = at_path user req_path password (rest req_path)

  -- common.Sign
  unfoldable pub sign_obj : Obj → Bytes → Bool → Bytes
  sign_obj o parent encrypt =
      if o.is_dir || (not encrypt && not e.sign_all) then [] else e.sign (join_paths parent o.name)

  unfoldable pub to_obj_resp : Bytes → Bool → Obj → ObjResp
  unfolding sign_obj
  to_obj_resp parent encrypt o = record {
    name = o.name;
    size = o.size;
    is_dir = o.is_dir;
    modified = o.mod_time;
    sign = sign_obj o parent encrypt;
    thumb = e.thumb o;
    kind = get_obj_type e.extensions o.name o.is_dir;
  }

  unfoldable pub to_objs_resp : List Obj → Bytes → Bool → List ObjResp
  unfolding to_obj_resp
  to_objs_resp objs parent encrypt = map (to_obj_resp parent encrypt) objs

  -- the driver's name, or "unknown"
  unfoldable pub provider_of : (Driver → Bytes) → Option Driver → Bytes
  provider_of name none = codes "unknown"
  provider_of name (some d) = name d

  unfoldable pub paged : User → Bytes → Option Meta → Option (ℕ × List Obj) → Shown FsListResp
  unfolding to_objs_resp provider_of
  paged user req_path meta none = panics
  paged user req_path meta (some (total, objs)) = shows (record {
    content = to_objs_resp objs req_path (is_encrypt meta req_path);
    total = total;
    readme = get_readme meta req_path;
    write = can_write user || meta_can_write meta req_path;
    provider = provider_of (λ d. d.storage.driver) (e.get_storage req_path);
  })

  unfoldable pub list_objs :
      User → Bytes → Option Meta → PageReq → Option (List Obj) → Shown FsListResp
  unfolding paged
  list_objs user req_path meta req none = refused 500
  list_objs user req_path meta req (some objs) = paged user req_path meta (pagination objs req)

  unfoldable pub list_at : User → ListReq → Bytes → Option Meta → Shown FsListResp
  unfolding list_objs
  list_at user req req_path meta =
      if (not (can_write user) && not (meta_can_write meta req_path)) && req.refresh
      then refused 403
      else list_objs user req_path meta (validate req.page_req) (e.list meta req_path req.refresh)

  -- FsList
  unfoldable pub fs_list : User → Option ListReq → Shown FsListResp
  unfolding at_joined list_at
  fs_list user none = refused 400
  fs_list user (some req) = at_joined user req.password (list_at user req) (join_path user req.path)

  unfoldable pub filter_dirs : List Obj → List DirResp
  filter_dirs [] = []
  filter_dirs (o ∷ os) =
      let rest = filter_dirs os in
      if o.is_dir then record { name = o.name; modified = o.mod_time } ∷ rest else rest

  unfoldable pub dirs_objs : Option (List Obj) → Shown (List DirResp)
  unfolding filter_dirs
  dirs_objs none = refused 500
  dirs_objs (some objs) = shows (filter_dirs objs)

  unfoldable pub dirs_at : Bytes → Option Meta → Shown (List DirResp)
  unfolding dirs_objs
  dirs_at req_path meta = dirs_objs (e.list meta req_path false)

  -- FsDirs
  unfoldable pub fs_dirs : User → Option DirReq → Shown (List DirResp)
  unfolding at_joined at_path dirs_at
  fs_dirs user none = refused 400
  fs_dirs user (some req) =
      if req.force_root
      then if not (is_admin user)
        then refused 403
        else at_path user req.path req.password (dirs_at req.path)
      else at_joined user req.password dirs_at (join_path user req.path)
