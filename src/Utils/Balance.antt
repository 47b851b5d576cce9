-- ===== src/Utils/Balance.antt =====
-- pkg/utils/balance.go
use xiaoya_qwen.Prelude.{Bytes, Bool, codes, none, some, take}
use xiaoya_qwen.Go.Strings.{contains, last_index}

abbrev pub balance : Bytes
balance = codes ".balance"

unfoldable pub is_balance : Bytes → Bool
unfolding contains
is_balance str = contains str balance

-- GetActualMountPath: cut at the last ".balance"
unfoldable pub get_actual_mount_path : Bytes → Bytes
unfolding last_index
get_actual_mount_path mount_path = elim (last_index mount_path balance) [
  | none ↦ mount_path
  | some b_index ↦ take b_index mount_path
]
