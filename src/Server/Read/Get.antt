-- ===== src/Server/Read/Get.antt =====
-- FsGet and FsOther of server/handles/fsread.go, and Link of server/handles/fsmanage.go, of which only the URL of the link
-- is kept.
use xiaoya_qwen.Prelude.{
  List, [], ◌∷◌, ◌++◌, Bytes, true, false, ◌||◌, not, Option, none, some, beq, codes, if◌then◌else◌,
}
use xiaoya_qwen.Go.Strings.{split, trim_suffix, has_prefix}
use xiaoya_qwen.Go.Path
use xiaoya_qwen.Go.Path.{dir}
use xiaoya_qwen.Utils.Path.{encode_path}
use xiaoya_qwen.Utils.FileType.{get_file_type}
use xiaoya_qwen.Model.User.{User, join_path}
use xiaoya_qwen.Model.Meta.{Meta}
use xiaoya_qwen.Model.Storage.{Driver, must_proxy}
use xiaoya_qwen.Model.Objects.{Obj}
use xiaoya_qwen.Server.Check.{get_readme, is_encrypt}
use xiaoya_qwen.Server.Manage.{NearestMeta, nearest, meta_error}
use xiaoya_qwen.Server.Read.{
  Reads, Shown, shows, refused, ObjResp, at_joined, sign_obj, to_objs_resp, provider_of,
}

pub record FsGetReq : Type 0 where
  pub path : Bytes
  pub password : Bytes

pub record FsGetResp : Type 0 where
  pub obj : ObjResp
  pub raw_url : Bytes
  pub readme : Bytes
  pub provider : Bytes
  pub related : List ObjResp

module _ (e : Reads) where
  unfoldable pub filter_related : List Obj → Obj → List Obj
  filter_related [] obj = []
  filter_related (o ∷ os) obj =
      let rest = filter_related os obj in
      let name_without_ext = trim_suffix obj.name (Path.ext obj.name) in
      if beq o.name obj.name
      then rest
      else if has_prefix o.name name_without_ext
      then o ∷ rest
      else rest

  first_line : List Bytes → Bytes
  first_line [] = []
  first_line (x ∷ xs) = x

  -- the URL under which a proxy serves the file
  unfoldable pub proxy_url : Bytes → Bytes → Bytes
  unfolding first_line
  proxy_url req_path down_proxy_url =
      let place = encode_path e.path_escape req_path true ++ codes "?sign=" ++ e.sign req_path in
      if not (beq down_proxy_url [])
      then first_line (split b'\n' down_proxy_url) ++ place
      else e.api_url ++ codes "/p" ++ place

  unfoldable pub url_or_link : Bytes → Option Bytes → Option Bytes
  url_or_link req_path (some u) = some u
  url_or_link req_path none = e.link req_path

  -- The URL of an object, empty for a directory; `none` is an error.
  unfoldable pub raw_url : Bytes → Obj → Option Driver → Option Bytes
  unfolding proxy_url url_or_link
  raw_url req_path obj none = if not obj.is_dir then none else some []
  raw_url req_path obj (some d) =
      if not obj.is_dir
      then if must_proxy d.config || d.storage.proxy.web_proxy
        then some (proxy_url req_path d.storage.proxy.down_proxy_url)
        else url_or_link req_path (e.url obj)
      else some []

  unfoldable pub related_of : Option (List Obj) → Obj → List Obj
  unfolding filter_related
  related_of none obj = []
  related_of (some objs) obj = filter_related objs obj

  -- an error of the lookup is dropped
  unfoldable pub meta_or_nil : NearestMeta → Option Meta
  meta_or_nil (nearest meta) = meta
  meta_or_nil meta_error = none

  unfoldable pub get_answer : Bytes → Option Meta → Obj → Option Bytes → Shown FsGetResp
  unfolding related_of meta_or_nil sign_obj to_objs_resp provider_of
  get_answer req_path meta obj none = refused 500
  get_answer req_path meta obj (some url) =
      let parent_path = dir req_path in
      let parent_meta = meta_or_nil (e.metas parent_path) in
      shows (record {
        obj = record {
          name = obj.name;
          size = obj.size;
          is_dir = obj.is_dir;
          modified = obj.mod_time;
          sign = sign_obj e obj parent_path (is_encrypt meta req_path);
          thumb = [];
          kind = get_file_type e.extensions obj.name;
        };
        raw_url = url;
        readme = get_readme meta req_path;
        provider = provider_of e (λ d. d.config.name) (e.get_storage req_path);
        related =
            to_objs_resp e (related_of (e.list meta parent_path false) obj) parent_path
              (is_encrypt parent_meta parent_path);
      })

  unfoldable pub get_obj : Bytes → Option Meta → Option Obj → Shown FsGetResp
  unfolding get_answer raw_url
  get_obj req_path meta none = refused 500
  get_obj req_path meta (some obj) =
      get_answer req_path meta obj (raw_url req_path obj (e.get_storage req_path))

  unfoldable pub get_at : Bytes → Option Meta → Shown FsGetResp
  unfolding get_obj
  get_at req_path meta = get_obj req_path meta (e.get req_path)

  -- FsGet
  unfoldable pub fs_get : User → Option FsGetReq → Shown FsGetResp
  unfolding at_joined get_at
  fs_get user none = refused 400
  fs_get user (some req) = at_joined e user req.password get_at (join_path user req.path)

  unfoldable pub answered : Option Bytes → Shown Bytes
  answered none = refused 500
  answered (some r) = shows r

  unfoldable pub other_at : Bytes → Option Meta → Shown Bytes
  unfolding answered
  other_at req_path meta = answered (e.other req_path)

  -- FsOther
  unfoldable pub fs_other : User → Option FsGetReq → Shown Bytes
  unfolding at_joined other_at
  fs_other user none = refused 400
  fs_other user (some req) = at_joined e user req.password other_at (join_path user req.path)

  unfoldable pub link_found : Bytes → Option Driver → Shown Bytes
  unfolding answered
  link_found raw_path none = refused 500
  link_found raw_path (some d) =
      if d.config.only_local
      then shows (
          e.api_url
          ++ codes "/p"
          ++ encode_path e.path_escape raw_path true
          ++ codes "?d&sign="
          ++ e.sign raw_path)
      else answered (e.link raw_path)

  -- Link, which only an admin reaches
  unfoldable pub get_link : Option Bytes → Shown Bytes
  unfolding link_found
  get_link none = refused 400
  get_link (some raw_path) = link_found raw_path (e.get_storage raw_path)
