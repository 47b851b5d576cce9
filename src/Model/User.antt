-- ===== src/Model/User.antt =====
-- internal/model/user.go. `permission` is the bit pattern of the int32.
use xiaoya_qwen.Prelude.{
  ℕ, ◌/◌, ◌%◌, ◌^◌, Bytes, Bool, ◌||◌, Option, none, some, beq, ◌==◌, if◌then◌else◌, [], not,
}
use xiaoya_qwen.Prelude.Int.{ℤ, pos, int_eq}
use xiaoya_qwen.Utils.Path.{join_base_path}

pub record User : Type 0 where
  pub id : ℕ
  pub username : Bytes
  pub password : Bytes
  pub base_path : Bytes
  pub role : ℤ
  pub disabled : Bool
  pub permission : ℕ
  pub otp_secret : Bytes
  pub sso_id : Bytes

abbrev pub general : ℤ
general = pos 0

abbrev pub guest : ℤ
guest = pos 1

abbrev pub admin : ℤ
admin = pos 2

unfoldable pub is_guest : User → Bool
is_guest u = int_eq u.role guest

unfoldable pub is_admin : User → Bool
is_admin u = int_eq u.role admin

pub data PasswordError : Type 0 where
  empty_password wrong_password : PasswordError

unfoldable pub validate_password : User → Bytes → Option PasswordError
validate_password u password =
    if beq password []
    then some empty_password
    else if not (beq u.password password)
    then some wrong_password
    else none

-- (u.Permission >> k) & 1 == 1
unfoldable pub has_bit : User → ℕ → Bool
has_bit u k = (u.permission / 2 ^ k) % 2 == 1

unfoldable pub can_see_hides : User → Bool
can_see_hides u = is_admin u || has_bit u 0

unfoldable pub can_access_without_password : User → Bool
can_access_without_password u = is_admin u || has_bit u 1

unfoldable pub can_add_aria2_tasks : User → Bool
can_add_aria2_tasks u = is_admin u || has_bit u 2

unfoldable pub can_write : User → Bool
can_write u = is_admin u || has_bit u 3

unfoldable pub can_rename : User → Bool
can_rename u = is_admin u || has_bit u 4

unfoldable pub can_move : User → Bool
can_move u = is_admin u || has_bit u 5

unfoldable pub can_copy : User → Bool
can_copy u = is_admin u || has_bit u 6

unfoldable pub can_remove : User → Bool
can_remove u = is_admin u || has_bit u 7

unfoldable pub can_webdav_read : User → Bool
can_webdav_read u = is_admin u || has_bit u 8

unfoldable pub can_webdav_manage : User → Bool
can_webdav_manage u = is_admin u || has_bit u 9

unfoldable pub can_add_qbittorrent_tasks : User → Bool
can_add_qbittorrent_tasks u = is_admin u || has_bit u 10

unfoldable pub join_path : User → Bytes → Option Bytes
join_path u req_path = join_base_path u.base_path req_path
