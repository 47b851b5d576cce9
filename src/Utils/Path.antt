-- ===== src/Utils/Path.antt =====
-- pkg/utils/path.go
pub mod Clean
pub mod Parent
pub mod SubPath
pub mod JoinBase
use xiaoya_qwen.Prelude.{
  ℕ, List, [], ◌∷◌, ◌++◌, Bool, true, false, ◌||◌, ◌≡◌, refl, Bytes, codes, beq, Option, none, some,
  if◌then◌else◌, map,
}
use xiaoya_qwen.Go.Strings.{has_prefix, has_suffix, contains, replace_all, split, join}
use xiaoya_qwen.Go.Path
use xiaoya_qwen.Go.Path.{slash, dot_dot, clean, join_paths}
use xiaoya_qwen.Utils.Balance.{get_actual_mount_path}

unfoldable pub fix_and_clean_path : Bytes → Bytes
unfolding replace_all has_prefix clean
fix_and_clean_path path =
    let path = replace_all path b'\\' slash in
    clean (if has_prefix path slash then path else slash ++ path)

unfoldable pub path_add_separator_suffix : Bytes → Bytes
unfolding has_suffix
path_add_separator_suffix path = if has_suffix path slash then path else path ++ slash

unfoldable pub path_equal : Bytes → Bytes → Bool
path_equal path1 path2 = beq (fix_and_clean_path path1) (fix_and_clean_path path2)

unfoldable pub is_sub_path : Bytes → Bytes → Bool
is_sub_path path sub_path =
    let path = fix_and_clean_path path in
    let sub_path = fix_and_clean_path sub_path in
    beq path sub_path || has_prefix sub_path (path_add_separator_suffix path)

without_dot : Bytes → Bytes
without_dot [] = []
without_dot (c ∷ s) = if has_prefix (c ∷ s) (b'.' ∷ []) then s else c ∷ s

-- Ext: the extension without its dot
unfoldable pub ext : Bytes → Bytes
unfolding Path.ext without_dot has_prefix
ext path = without_dot (Path.ext path)

-- what EncodePath does to one element if `all` is not set
encode_segment : Bytes → Bytes
unfolding replace_all
encode_segment seg =
    let seg1 = replace_all seg b'%' (codes "%25") in
    let seg2 = replace_all seg1 b'%' (codes "%25") in
    let seg3 = replace_all seg2 b'?' (codes "%3F") in replace_all seg3 b'#' (codes "%23")

-- EncodePath; `path_escape` is url.PathEscape
unfoldable pub encode_path : (Bytes → Bytes) → Bytes → Bool → Bytes
unfolding encode_segment split join
encode_path path_escape path all =
    join (map (λ seg. if all then path_escape seg else encode_segment seg) (split b'/' path)) slash

-- The test of JoinBasePath for a relative path.
unfoldable pub is_relative : Bytes → Bool
unfolding beq has_suffix has_prefix contains
is_relative req_path =
    beq req_path dot_dot
    || has_suffix req_path (codes "/..")
    || has_prefix req_path (codes "../")
    || contains req_path (codes "/../")

-- `none` is errs.RelativePath
unfoldable pub join_base_path : Bytes → Bytes → Option Bytes
join_base_path base_path req_path =
    if is_relative req_path
    then none
    else some (join_paths (fix_and_clean_path base_path) (fix_and_clean_path req_path))

unfoldable pub get_full_path : Bytes → Bytes → Bytes
unfolding get_actual_mount_path join_paths
get_full_path mount_path path = join_paths (get_actual_mount_path mount_path) path

path_runs :
    (fix_and_clean_path (codes "x//\\y/../z") ≡ codes "/x/z")
    × (is_sub_path (codes "/a") (codes "/a/b") ≡ true)
    × (is_sub_path (codes "/a") (codes "/ab") ≡ false)
    × (join_base_path (codes "/home") (codes "..\\..\\x") ≡ some (codes "/home/x"))
    × (ext (codes "/a.b/c.mp4") ≡ codes "mp4")
unfolding fix_and_clean_path is_sub_path join_base_path is_relative join_paths ext
    path_add_separator_suffix
path_runs = (refl, refl, refl, refl, refl)
