-- ===== src/Server/Check.antt =====
-- server/common/check.go, the tests of server/handles/fsread.go and server/middlewares/down.go, and
-- whetherHide of internal/fs/list.go. A missing meta (nil) is `none`.
pub mod Laws
use xiaoya_qwen.Prelude.{
  ℕ, List, [], ◌∷◌, Bytes, Bool, true, false, ◌||◌, ◌&&◌, not, Option, none, some, beq,
  if◌then◌else◌,
}
use xiaoya_qwen.Go.Strings.{split}
use xiaoya_qwen.Go.Path.{dir, base}
use xiaoya_qwen.Utils.Path.{path_equal, is_sub_path}
use xiaoya_qwen.Model.User.{User, can_see_hides, can_access_without_password}
use xiaoya_qwen.Model.Meta.{Meta}

-- The package regexp: an expression that compiles is a test on texts.
abbrev pub Regexp : Type 0
Regexp = Bytes → Option (Bytes → Bool)

-- common.CanWrite
unfoldable pub meta_can_write : Option Meta → Bytes → Bool
meta_can_write none path = false
meta_can_write (some meta) path = if not meta.write then false else meta.w_sub || beq meta.path path

unfoldable pub is_apply : Bytes → Bytes → Bool → Bool
is_apply meta_path req_path apply_sub =
    if path_equal meta_path req_path then true else is_sub_path meta_path req_path && apply_sub

-- The loop over the lines of `Hide`. `none`: MustCompile panics. `some true`: a line matches.
unfoldable pub hide_loop : Regexp → Bytes → List Bytes → Option Bool
hide_loop regexp name [] = some false
hide_loop regexp name (hide ∷ hides) =
    let rest = hide_loop regexp name hides in
    elim (regexp hide) [ none ↦ none | some re ↦ if re name then some true else rest ]

-- The guard of that loop.
unfoldable pub is_hiding : User → Meta → Bytes → Bool
is_hiding user meta req_path =
    not (can_see_hides user)
    && not (beq meta.hide [])
    && is_apply meta.path (dir req_path) meta.h_sub

-- What follows the loop.
unfoldable pub check_password : User → Option Meta → Bytes → Bytes → Bool
check_password user none req_path password = true
check_password user (some meta) req_path password =
    if can_access_without_password user
    then true
    else if beq meta.password []
    then true
    else if not (path_equal meta.path req_path) && not meta.p_sub
    then true
    else beq meta.password password

is_hidden : Regexp → User → Option Meta → Bytes → Option Bool
is_hidden regexp user none req_path = some false
is_hidden regexp user (some meta) req_path =
    if is_hiding user meta req_path
    then hide_loop regexp (base req_path) (split b'\n' meta.hide)
    else some false

-- CanAccess; `none` is a panic
unfoldable pub can_access : Regexp → User → Option Meta → Bytes → Bytes → Option Bool
unfolding is_hidden
can_access regexp user meta req_path password = elim (is_hidden regexp user meta req_path) [
  | none ↦ none
  | some true ↦ some false
  | some false ↦ some (check_password user meta req_path password)
]

-- getReadme
unfoldable pub get_readme : Option Meta → Bytes → Bytes
get_readme none path = []
get_readme (some meta) path = if path_equal meta.path path || meta.r_sub then meta.readme else []

-- isEncrypt
unfoldable pub is_encrypt : Option Meta → Bytes → Bool
is_encrypt none path = false
is_encrypt (some meta) path =
    if beq meta.password []
    then false
    else if not (path_equal meta.path path) && not meta.p_sub
    then false
    else true

-- needSign of the download middleware; the first argument is the setting sign_all
unfoldable pub need_sign : Bool → Option Meta → Bytes → Bool
need_sign true meta path = true
need_sign false none path = false
need_sign false (some meta) path =
    if beq meta.password []
    then false
    else if not meta.p_sub && not (beq path meta.path)
    then false
    else true

-- whetherHide
unfoldable pub whether_hide : User → Option Meta → Bytes → Bool
whether_hide user none path = false
whether_hide user (some meta) path =
    if can_see_hides user
    then false
    else if beq meta.hide []
    then false
    else if not (path_equal meta.path path) && not meta.h_sub
    then false
    else true
