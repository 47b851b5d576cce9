-- ===== src/Tests/Downloads.antt =====
-- Downloads and uploads at concrete storages.
use xiaoya_qwen.Prelude.{
  [], ◌∷◌, Bytes, true, false, none, some, ◌≡◌, ◌↔◌, ◌⊎◌, inl, refl, codes, beq, ℕ, zero, suc,
  Option,
}
use xiaoya_qwen.Prelude.Int.{pos}
use xiaoya_qwen.Go.Path.{join_paths, split_path, base}
use xiaoya_qwen.Go.Strings.{trim_suffix}
use xiaoya_qwen.Utils.Path.{is_relative, join_base_path, fix_and_clean_path, ext}
use xiaoya_qwen.Utils.Slice.{slice_contains}
use xiaoya_qwen.Model.User.{has_bit, is_admin, can_write, join_path}
use xiaoya_qwen.Model.Storage.{Driver, must_proxy, webdav_proxy}
use xiaoya_qwen.Server.Check.{check_password, can_access}
use xiaoya_qwen.Server.Manage.{nearest, meta_error}
use xiaoya_qwen.Server.Down.{
  Query, Downloads, should_proxy, can_proxy, refused, proxy, proxy_found, proxy_from, down_found,
  down, down_signed, behind,
}
use xiaoya_qwen.Server.Down.Laws.{Unsigned, Stays, down_signed_iff, down-Stays}
use xiaoya_qwen.Server.Upload.{Put, UploadReq, fs_up, fs_stream, puts_behind}
use xiaoya_qwen.Server.Upload.Permitted.{Permits, uploads-Permits}
use xiaoya_qwen.Tests.Access.{somebody, locked, literally}
use xiaoya_qwen.Tests.Mounts.{mounted}

-- A local storage at the root, whose links are the paths.
abbrev local : Downloads
local = record {
  Link = Bytes;
  url = λ l. l;
  with_url = λ l u. u;
  types = record { proxy_types = codes "m3u8" ∷ []; text_types = codes "txt" ∷ [] };
  urls = record { raw_query = λ u. some []; escape = λ s. s };
  State = ℕ;
  get_storage = λ p n. (some (mounted (codes "/")), n);
  link = λ p ip n. (some p, n);
  sign = λ p. codes "s";
  forward_direct_link_params = false;
  transfer = λ l. true;
}

abbrev asked : Query
asked = record { client_ip = codes "10.0.0.1"; encoded = []; has_d = false }

abbrev film : Bytes
film = codes "/a/f.mkv"

-- A balance between the mount "/" and one whose storage is served by a proxy.
abbrev proxied_mount : Driver
proxied_mount =
    let d = mounted (codes "/.balance") in
    record d { storage = record d.storage { proxy = record d.storage.proxy { web_proxy = true } } }

abbrev remote_mount : Driver
remote_mount =
    let d = mounted (codes "/") in record d { config = record d.config { only_local = false } }

abbrev turn : ℕ → Option Driver × ℕ
turn zero = (some proxied_mount, 1)
turn (suc n) = (some remote_mount, 0)

abbrev balanced : Downloads
balanced = record local { State = ℕ; get_storage = λ p. turn; link = λ p ip n. (some p, n) }

needs_proxy : should_proxy balanced.types proxied_mount (base film) ≡ true
unfolding should_proxy must_proxy
needs_proxy = refl

down-Stays_example :
    Stays balanced proxied_mount (some remote_mount) film (down balanced asked film 0).0
down-Stays_example = down-Stays balanced proxied_mount film asked 0 1 refl needs_proxy

-- The second lookup finds the mount that is not to be proxied.
down-refuses : (down balanced asked film 0).0 ≡ refused 403
unfolding down down_found proxy proxy_found proxy_from can_proxy should_proxy must_proxy
    webdav_proxy ext slice_contains beq base
down-refuses = refl

-- The signature of a path is the path itself.
down_signed_run :
    (behind (down local) asked (down_signed false beq (λ p. nearest (some locked)) film (codes "x"))
      ≡ none)
unfolding behind down_signed beq fix_and_clean_path trim_suffix
down_signed_run = refl

down_signed_iff_example :
    (behind (down local) asked (down_signed false beq (λ p. nearest (some locked)) film []) ≡ none)
    ↔ ((nearest (some locked) ≡ meta_error)
        ⊎ Unsigned false beq (nearest (some locked)) (fix_and_clean_path film) [])
down_signed_iff_example =
    down_signed_iff (down local) asked false beq (λ p. nearest (some locked)) film []

abbrev stored : UploadReq
stored = record {
  file_path = some (codes "/f");
  password = codes "pw";
  as_task = false;
  length = some (pos 3);
  form_file = none;
}

abbrev whole : Put
whole = record { as_task = false; directory = codes "/home/u/"; name = codes "f"; size = pos 3 }

uploads-Permits_example : Permits literally (λ p. nearest none) (somebody 8) stored whole
unfolding fs_up fs_stream puts_behind join_path can_access can_write split_path join_base_path
    is_relative check_password is_admin has_bit join_paths fix_and_clean_path
uploads-Permits_example =
    uploads-Permits literally (λ p. nearest none) (somebody 8) stored whole (λ p. true) (λ p. none)
      (inl (inl refl))
