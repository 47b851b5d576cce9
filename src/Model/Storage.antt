-- ===== src/Model/Storage.antt =====
-- internal/model/storage.go and internal/driver/config.go; times are seconds.
use xiaoya_qwen.Prelude.{ℕ, Bytes, Bool, ◌||◌, ◌&&◌, not, beq, codes}
use xiaoya_qwen.Prelude.Int.{ℤ}

pub record Sort : Type 0 where
  pub order_by : Bytes
  pub order_direction : Bytes
  pub extract_folder : Bytes

pub record Proxy : Type 0 where
  pub web_proxy : Bool
  pub webdav_policy : Bytes
  pub down_proxy_url : Bytes

unfoldable pub webdav_302 : Proxy → Bool
webdav_302 p = beq p.webdav_policy (codes "302_redirect")

unfoldable pub webdav_proxy : Proxy → Bool
webdav_proxy p = beq p.webdav_policy (codes "use_proxy_url")

unfoldable pub webdav_native : Proxy → Bool
unfolding webdav_302 webdav_proxy
webdav_native p = not (webdav_302 p) && not (webdav_proxy p)

pub record Storage : Type 0 where
  pub id : ℕ
  pub mount_path : Bytes
  pub order : ℤ
  pub driver : Bytes
  pub cache_expiration : ℤ
  pub status : Bytes
  pub addition : Bytes
  pub remark : Bytes
  pub modified : ℕ
  pub disabled : Bool
  pub sort : Sort
  pub proxy : Proxy

pub record Config : Type 0 where
  pub name : Bytes
  pub local_sort : Bool
  pub only_local : Bool
  pub only_proxy : Bool
  pub no_cache : Bool
  pub no_upload : Bool
  pub need_ms : Bool
  pub default_root : Bytes
  pub check_status : Bool
  pub alert : Bytes
  pub no_overwrite_upload : Bool

unfoldable pub must_proxy : Config → Bool
must_proxy c = c.only_proxy || c.only_local

-- A driver instance as the server sees it: its configuration, and the storage that it serves.
pub record Driver : Type 0 where
  pub config : Config
  pub storage : Storage
