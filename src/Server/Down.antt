-- ===== src/Server/Down.antt =====
-- Downloads: server/middlewares/down.go, server/handles/down.go, ShouldProxy of server/common/check.go and
-- pkg/utils/url.go. What internal/fs and the storages answer, the settings and the URLs are parameters.
pub mod Needs
pub mod Laws
use xiaoya_qwen.Prelude.{
  ℕ, List, [], ◌∷◌, ◌++◌, Bytes, Bool, true, false, ◌||◌, ◌&&◌, not, Option, none, some, beq, codes,
  if◌then◌else◌,
}
use xiaoya_qwen.Go.Strings.{split, trim_suffix}
use xiaoya_qwen.Go.Path.{base}
use xiaoya_qwen.Utils.Path.{fix_and_clean_path, ext, encode_path}
use xiaoya_qwen.Utils.Slice.{slice_contains}
use xiaoya_qwen.Model.Meta.{Meta}
use xiaoya_qwen.Model.Storage.{Driver, must_proxy, webdav_proxy}
use xiaoya_qwen.Server.Check.{need_sign}
use xiaoya_qwen.Server.Manage.{NearestMeta, nearest, meta_error}

-- What a middleware leaves: the path of the request, the code that it wrote if it wrote one, and whether it called
-- Abort, as every ErrorResp of server/common/common.go does. gin runs the next handler unless it did.
pub record Passed : Type 0 where
  pub path : Bytes
  pub written : Option ℕ
  pub aborted : Bool

-- The middleware behind the lookup of the meta; `verify` says that a signature is right
unfoldable pub check_sign : Bool → (Bytes → Bytes → Bool) → NearestMeta → Bytes → Bytes → Passed
unfolding need_sign
check_sign sign_all verify meta_error path s = record {
  path = path;
  written = some 500;
  aborted = true;
}
check_sign sign_all verify (nearest meta) path s =
    if need_sign sign_all meta path
    then if verify path (trim_suffix s (codes "/"))
      then record { path = path; written = none; aborted = false }
      else record { path = path; written = some 401; aborted = true }
    else record { path = path; written = none; aborted = false }

-- The handler behind the middleware; `none` if it does not run.
unfoldable pub behind : {Q A : Type 0} → (Q → Bytes → A) → Q → Passed → Option A
behind handler q p = if p.aborted then none else some (handler q p.path)

-- Down of server/middlewares; the last arguments are the path and the signature of the request
unfoldable pub down_signed :
    Bool → (Bytes → Bytes → Bool) → (Bytes → NearestMeta) → Bytes → Bytes → Passed
unfolding check_sign
down_signed sign_all verify metas raw s =
    let raw_path = fix_and_clean_path raw in check_sign sign_all verify (metas raw_path) raw_path s

-- conf.SlicesMap at the types of the files that a proxy serves and at those of text files
pub record FileTypes : Type 0 where
  pub proxy_types : List Bytes
  pub text_types : List Bytes

-- shouldProxy of the handlers, and ShouldProxy
unfoldable pub should_proxy : FileTypes → Driver → Bytes → Bool
should_proxy types storage filename =
    if must_proxy storage.config || storage.storage.proxy.web_proxy
    then true
    else if slice_contains beq types.proxy_types (ext filename)
    then true
    else false

unfoldable pub can_proxy : FileTypes → Driver → Bytes → Bool
can_proxy types storage filename =
    if must_proxy storage.config
      || (storage.storage.proxy.web_proxy || webdav_proxy storage.storage.proxy)
    then true
    else if slice_contains beq types.proxy_types (ext filename)
    then true
    else if slice_contains beq types.text_types (ext filename)
    then true
    else false

-- net/url: the query of a text that parses as a URL, and the escape of a path segment
pub record Urls : Type 0 where
  pub raw_query : Bytes → Option Bytes
  pub escape : Bytes → Bytes

-- InjectQuery, with the encoded query
unfoldable pub inject_query : Urls → Bytes → Bytes → Option Bytes
inject_query u raw param = if beq param [] then some raw else elim (u.raw_query raw) [
  | none ↦ none
  | some q ↦ some (raw ++ (if beq q [] then codes "?" else codes "&") ++ param)
]

-- What a request for a file comes to: a redirect, the file through the server (the code is none, or 500 if that
-- fails on the way), or the code of an error.
pub data Served : Type 0 where
  redirect : Bytes → Served
  proxied : Bytes → Option ℕ → Served
  refused : ℕ → Served

pub record Downloads : Type 1 where
  -- model.Link, its URL, and the link with another URL
  pub Link : Type 0
  pub url : Link → Bytes
  pub with_url : Link → Bytes → Link
  pub types : FileTypes
  pub urls : Urls
  -- fs.GetStorage, and fs.Link for the address of the client if there is one. Each call goes on with the balance of the
  -- storages, so that two calls for the same path may find two storages.
  pub State : Type 0
  pub get_storage : Bytes → State → Option Driver × State
  pub link : Bytes → Option Bytes → State → Option Link × State
  pub sign : Bytes → Bytes
  pub forward_direct_link_params : Bool
  -- common.Proxy; it ends without an error
  pub transfer : Link → Bool

-- The query of a request, encoded without the signature, and whether it has a "d".
pub record Query : Type 0 where
  pub client_ip : Bytes
  pub encoded : Bytes
  pub has_d : Bool

first_line : List Bytes → Bytes
first_line [] = []
first_line (x ∷ xs) = x

module _ (e : Downloads) where
  unfoldable pub injected : e.Link → Option Bytes → Option e.Link
  injected l none = none
  injected l (some url) = some (e.with_url l url)

  -- The link with the parameters of the request in its URL, if the setting says so.
  unfoldable pub with_params : Bool → e.Link → Bytes → Option e.Link
  unfolding inject_query injected
  with_params true l param = injected l (inject_query e.urls (e.url l) param)
  with_params false l param = some l

  unfoldable pub send : Option e.Link → Served
  send none = refused 500
  send (some l) = proxied (e.url l) (if e.transfer l then none else some 500)

  unfoldable pub proxy_link : Query → Option e.Link → Served
  unfolding send with_params
  proxy_link q none = refused 500
  proxy_link q (some l) =
      send (with_params (not (beq (e.url l) []) && e.forward_direct_link_params) l q.encoded)

  -- the URL of the proxy of the storage
  unfoldable pub down_proxy : Bytes → Bytes → Bytes
  unfolding first_line
  down_proxy down_proxy_url raw_path =
      (first_line (split b'\n' down_proxy_url) ++ encode_path e.urls.escape raw_path true)
      ++ codes "?sign="
      ++ e.sign raw_path

  unfoldable pub proxy_from : Query → Bytes → Driver → e.State → Served × e.State
  unfolding proxy_link down_proxy
  proxy_from q raw_path storage s =
      let (l, t) = e.link raw_path none s in
      if can_proxy e.types storage (base raw_path)
      then if not (beq storage.storage.proxy.down_proxy_url []) && not q.has_d
        then (redirect (down_proxy storage.storage.proxy.down_proxy_url raw_path), s)
        else (proxy_link q l, t)
      else (refused 403, s)

  unfoldable pub proxy_found : Query → Bytes → Option Driver × e.State → Served × e.State
  unfolding proxy_from
  proxy_found q raw_path (none, s) = (refused 500, s)
  proxy_found q raw_path (some storage, s) = proxy_from q raw_path storage s

  -- Proxy
  unfoldable pub proxy : Query → Bytes → e.State → Served × e.State
  unfolding proxy_found
  proxy q raw_path s = proxy_found q raw_path (e.get_storage raw_path s)

  unfoldable pub redirected : Option e.Link → Served
  redirected none = refused 500
  redirected (some l) = redirect (e.url l)

  unfoldable pub direct : Query → Option e.Link → Served
  unfolding redirected with_params
  direct q none = refused 500
  direct q (some l) = redirected (with_params e.forward_direct_link_params l q.encoded)

  -- Proxy looks the storage up again.
  unfoldable pub down_found : Query → Bytes → Option Driver × e.State → Served × e.State
  unfolding direct proxy
  down_found q raw_path (none, s) = (refused 500, s)
  down_found q raw_path (some storage, s) =
      let (l, t) = e.link raw_path (some q.client_ip) s in
      if should_proxy e.types storage (base raw_path) then proxy q raw_path s else (direct q l, t)

  -- Down of server/handles
  unfoldable pub down : Query → Bytes → e.State → Served × e.State
  unfolding down_found
  down q raw_path s = down_found q raw_path (e.get_storage raw_path s)
