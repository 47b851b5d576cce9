-- ===== src/Model/Setting.antt =====
-- internal/model/setting.go.
use xiaoya_qwen.Prelude.{Bytes, Bool}
use xiaoya_qwen.Prelude.Int.{ℤ, pos, int_eq}

abbrev pub deprecated : ℤ
deprecated = pos 3

-- `kind` is the field Type.
pub record SettingItem : Type 0 where
  pub key : Bytes
  pub value : Bytes
  pub help : Bytes
  pub kind : Bytes
  pub options : Bytes
  pub group : ℤ
  pub flag : ℤ

unfoldable pub is_deprecated : SettingItem → Bool
is_deprecated s = int_eq s.flag deprecated
