-- ===== src/Op/Storages.antt =====
-- The part of internal/op/storage.go that finds storages by path, and internal/op/path.go.
-- `storagesMap` is a list of its entries: its order stands for the order of `Range`, which is
-- arbitrary. `balanceMap` is an association list.
pub mod LongestMatch
pub mod RoundRobin
pub mod Resolve
pub mod Lifecycle
pub mod Changes
pub mod Kept
use mathlib.Core.List.{foldl}
use xiaoya_qwen.Prelude.{
  ℕ, suc, ◌+◌, ◌%◌, List, [], ◌∷◌, ◌++◌, Bool, true, false, Bytes, codes, Option, none, some, beq,
  ltb, ◌==◌, if◌then◌else◌, length, get_elem?,
}
use xiaoya_qwen.Go.Strings.{count, trim_prefix}
use xiaoya_qwen.Go.Sort.{str_lt, sort_by}
use xiaoya_qwen.Go.Path.{slash}
use xiaoya_qwen.Utils.Path.{fix_and_clean_path, is_sub_path, path_add_separator_suffix}
use xiaoya_qwen.Utils.Balance.{get_actual_mount_path}
use xiaoya_qwen.Model.Storage.{Driver}

abbrev pub Entry : Type 0
Entry = Bytes × Driver

abbrev pub StoragesMap : Type 0
StoragesMap = List Entry

-- the loop's variables storages and curSlashCount
pub record Longest : Type 0 where
  pub storages : List Driver
  pub cur_slash_count : ℕ

unfoldable pub slash_count : Bytes → ℕ
slash_count mount_path = count b'/' (path_add_separator_suffix mount_path)

-- the function handed to `Range`
unfoldable pub consider : Bytes → Longest → Entry → Longest
consider path l (key, value) =
    let mount_path = get_actual_mount_path key in
    let n = slash_count mount_path in
    let l1 : Longest =
      if ltb l.cur_slash_count n then record { storages = []; cur_slash_count = n } else l in
    if is_sub_path mount_path path
    then if n == l1.cur_slash_count then record l1 { storages = l1.storages ++ value ∷ [] } else l1
    else l

unfoldable pub by_mount_path : Driver → Driver → Bool
by_mount_path a b = str_lt a.storage.mount_path b.storage.mount_path

unfoldable pub get_storages_by_path : StoragesMap → Bytes → List Driver
get_storages_by_path m path =
    let found = foldl (consider path) (record { storages = []; cur_slash_count = 0 }) m in
    sort_by by_mount_path found.storages

abbrev pub BalanceMap : Type 0
BalanceMap = List (Bytes × ℕ)

-- balanceMap.LoadOrStore(key, 0) followed by a Store
unfoldable pub load_or_zero : Bytes → BalanceMap → ℕ
load_or_zero k [] = 0
load_or_zero k ((j, v) ∷ m) = if beq j k then v else load_or_zero k m

unfoldable pub store : Bytes → ℕ → BalanceMap → BalanceMap
store k v [] = (k, v) ∷ []
store k v ((j, w) ∷ m) = if beq j k then (k, v) ∷ m else (j, w) ∷ store k v m

-- the switch over the number of storages
unfoldable pub balance : List Driver → BalanceMap → Option Driver × BalanceMap
balance [] b = (none, b)
balance (d ∷ []) b = (some d, b)
balance (d ∷ e ∷ ds) b =
    let virtual_path = get_actual_mount_path d.storage.mount_path in
    let i = (load_or_zero virtual_path b + 1) % length (d ∷ e ∷ ds) in
    (get_elem? (d ∷ e ∷ ds) i, store virtual_path i b)

unfoldable pub get_balanced_storage : StoragesMap → Bytes → BalanceMap → Option Driver × BalanceMap
unfolding balance
get_balanced_storage m path b = balance (get_storages_by_path m (fix_and_clean_path path)) b

pub data Found : Type 0 where
  no_storage : Found
  not_found : Bytes → Found
  found : Driver → Bytes → Found

actual_path : Bytes → Option Driver → Found
actual_path raw_path none = if beq raw_path slash then no_storage else not_found raw_path
actual_path raw_path (some d) =
    found d (fix_and_clean_path (trim_prefix raw_path (get_actual_mount_path d.storage.mount_path)))

-- GetStorageAndActualPath: the storage and the path in it, or one of two errors
unfoldable pub get_storage_and_actual_path : StoragesMap → Bytes → BalanceMap → Found × BalanceMap
unfolding actual_path
get_storage_and_actual_path m raw_path b =
    let raw_path = fix_and_clean_path raw_path in
    let (storage, b') = get_balanced_storage m raw_path b in (actual_path raw_path storage, b')
