-- ===== src/Tests/Reads.antt =====
-- A directory that is read.
use xiaoya_qwen.Prelude.{beq_refl, ap, inl, inr, ◌≢◌, Bool}
use xiaoya_qwen.Prelude.Int.{int_mul, int_sub, int_add}
use xiaoya_qwen.Go.Strings.{trim_suffix}
use xiaoya_qwen.Utils.FileType.{get_obj_type}
use xiaoya_qwen.Utils.Path.{ext}
use xiaoya_qwen.Model.Meta.{Meta}
use xiaoya_qwen.Server.Check.{meta_can_write, is_encrypt, get_readme}
use xiaoya_qwen.Server.Page.{pagination, validate}
use xiaoya_qwen.Server.Read.Signed.{Passes, listed-Passes}
use xiaoya_qwen.Prelude.{[], ◌∷◌, Bytes, true, false, none, some, ◌≡◌, refl, codes, beq}
use xiaoya_qwen.Prelude.Int.{pos}
use xiaoya_qwen.Go.Path.{join_paths, dir}
use xiaoya_qwen.Utils.Path.{
  is_relative, join_base_path, fix_and_clean_path, path_equal, is_sub_path,
  path_add_separator_suffix,
}
use xiaoya_qwen.Model.User.{
  has_bit, is_admin, can_see_hides, can_access_without_password, can_write, join_path,
}
use xiaoya_qwen.Server.Check.{check_password, can_access, is_hiding, is_apply}
use xiaoya_qwen.Server.Manage.{nearest}
use xiaoya_qwen.Server.Read.{
  Reads, DirReq, DirResp, ListReq, ObjResp, FsListResp, shows, fs_dirs, fs_list,
}
use xiaoya_qwen.Utils.FileType.{folder, unknown}
use xiaoya_qwen.Server.Read.Permitted.{asks_dirs, answer, Permits, reads-Permits}
use xiaoya_qwen.Tests.Access.{somebody, locked, literally, letter-IsPlain}
use xiaoya_qwen.Tests.Mounts.{mounted}
use xiaoya_qwen.Tests.Copies.{album, photo}

abbrev library : Reads
library = record {
  regexp = literally;
  metas = λ p. nearest (some locked);
  list = λ meta p refresh. some (album ∷ photo ∷ []);
  get = λ p. some photo;
  get_storage = λ p. some (mounted (codes "/"));
  link = λ p. some p;
  other = λ p. none;
  thumb = λ o. [];
  url = λ o. none;
  sign = λ p. p;
  sign_all = false;
  api_url = codes "h";
  path_escape = λ p. p;
  extensions = record {
    to_lower = λ b. b;
    audio_types = [];
    video_types = codes "mkv" ∷ [];
    image_types = [];
    text_types = codes "txt" ∷ [];
  };
}

abbrev below_home : DirReq
below_home = record { path = codes "/d"; password = codes "pw"; force_root = false }

abbrev folders : DirResp
folders = record { name = codes "a"; modified = 0 }

shown : answer library (somebody 0) (asks_dirs below_home) ≡ shows (folders ∷ [])
unfolding answer fs_dirs join_path can_access can_write join_base_path is_relative check_password
    is_admin has_bit join_paths fix_and_clean_path beq is_hiding can_see_hides is_apply path_equal
    dir is_sub_path path_add_separator_suffix can_access_without_password
shown = refl

reads-Permits_example : Permits library (somebody 0) (asks_dirs below_home) (folders ∷ [])
reads-Permits_example =
    reads-Permits library (somebody 0) (asks_dirs below_home) (folders ∷ []) shown

abbrev listing : ListReq
listing = record {
  page_req = record { page = pos 1; per_page = pos 0 };
  path = codes "/d";
  password = codes "pw";
  refresh = false;
}

abbrev unsigned : ObjResp
unsigned = record {
  name = codes "a";
  size = pos 0;
  is_dir = true;
  modified = 0;
  sign = [];
  thumb = [];
  kind = folder;
}

abbrev signed : ObjResp
signed = record {
  name = codes "f";
  size = pos 7;
  is_dir = false;
  modified = 0;
  sign = codes "/home/u/d/f";
  thumb = [];
  kind = unknown;
}

abbrev first_page : FsListResp
first_page = record {
  content = unsigned ∷ signed ∷ [];
  total = 2;
  readme = [];
  write = false;
  provider = codes "Local";
}

listed : fs_list library (somebody 0) (some listing) ≡ shows first_page
unfolding fs_list join_path can_access can_write join_base_path is_relative check_password is_admin
    has_bit join_paths fix_and_clean_path beq is_hiding can_see_hides is_apply path_equal dir
    is_sub_path path_add_separator_suffix can_access_without_password meta_can_write pagination
    int_mul int_sub validate int_add get_obj_type is_encrypt get_readme ext
listed = refl

under_home : join_path (somebody 0) listing.path ≡ some (codes "/home/u/d")
unfolding join_path join_base_path is_relative fix_and_clean_path join_paths
under_home = refl

not_own : (m : Meta) → some locked ≡ some m → m.path ≢ join_paths (codes "/home/u/d") (codes "f")
unfolding join_paths
not_own m e h = let same : locked ≡ m = cc in cc (ap (λ (x : Meta). x.path) same)

-- The signature of a path is the path, without a slash at its end.
abbrev right : Bytes → Bytes → Bool
right p s = beq s (trim_suffix p (codes "/"))

listed-Passes_example : Passes library (somebody 0) first_page signed right (codes "/home/u/d")
listed-Passes_example =
    listed-Passes library (somebody 0) first_page signed right listing (codes "/home/u/d")
      (some locked) (λ p. beq_refl (trim_suffix p (codes "/"))) listed (inr (inl refl)) refl
      letter-IsPlain under_home refl refl not_own
