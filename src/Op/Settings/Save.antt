-- ===== src/Op/Settings/Save.antt =====
-- The operations of internal/op/setting.go that write settings, and HandleSettingItemHook of internal/op/hook.go.
use xiaoya_qwen.Prelude.{
  ℕ, ◌+◌, ◌-◌, List, [], ◌∷◌, ◌++◌, Bytes, Bool, true, false, not, Option, none, some, ◌⊎◌, inl,
  inr, ltb, length, if◌then◌else◌,
}
use xiaoya_qwen.Utils.Slice.{merge_errors}
use xiaoya_qwen.Model.Setting.{SettingItem, is_deprecated}
use xiaoya_qwen.Op.Cache.{Cache}
use xiaoya_qwen.Op.Settings.{
  SettingDb, Itoa, Hooks, Settings, setting_cache_update, get_setting_item_by_key,
}

-- The error of DeleteSettingItemByKey for a setting that is in use, or one of the database or of a hook.
pub data SettingError : Type 0 where
  not_deprecated : SettingError
  error : Bytes → SettingError

module _ (d : SettingDb) (n : Itoa) (h : Hooks) (c : Cache SettingItem)
    (g : Cache (List SettingItem)) where
  abbrev pub State : Type 0
  State = Settings d n h c g

  -- What a hook does to an item: there is none, or it returns an error or no error.
  pub record Hooked : Type 0 where
    pub has_hook : Bool
    pub err : Option Bytes
    pub item : SettingItem
    pub state : State

  unfoldable pub run_hook :
      Option (SettingItem → h.Conf → Option Bytes × SettingItem × h.Conf)
      → SettingItem
      → State
      → Hooked
  run_hook none item s = record { has_hook = false; err = none; item = item; state = s }
  run_hook (some hook) item s =
      let (err, item', conf) = hook item s.conf in
      record { has_hook = true; err = err; item = item'; state = record s { conf = conf } }

  unfoldable pub handle_setting_item_hook : SettingItem → State → Hooked
  unfolding run_hook
  handle_setting_item_hook item s = run_hook (h.hook item.key) item s

  -- The loop variables of SaveSettingItems: the items without a hook and the errors so far.
  pub record Saving : Type 0 where
    pub no_hook_items : List SettingItem
    pub errs : List Bytes
    pub state : State

  unfoldable pub saved_one : d.Table ⊎ Bytes → List SettingItem → List Bytes → State → Saving
  saved_one (inl t) others errs s = record {
    no_hook_items = others;
    errs = errs;
    state = record s { table = t };
  }
  saved_one (inr e) others errs s = record {
    no_hook_items = others;
    errs = errs ++ e ∷ [];
    state = s;
  }

  unfoldable pub after_hook : Option Bytes → Hooked → List SettingItem → List Bytes → Saving
  unfolding saved_one
  after_hook (some e) k others errs = record {
    no_hook_items = others;
    errs = errs ++ e ∷ [];
    state = k.state;
  }
  after_hook none k others errs = saved_one (d.save k.state.table k.item) others errs k.state

  -- the body of the loop
  unfoldable pub save_each : SettingItem → Saving → Saving
  unfolding after_hook
  save_each item v =
      let k = handle_setting_item_hook item v.state in
      if k.has_hook
      then after_hook k.err k v.no_hook_items v.errs
      else record v { no_hook_items = v.no_hook_items ++ item ∷ [] }

  unfoldable pub save_loop : List SettingItem → Saving → Saving
  save_loop [] v = v
  save_loop (item ∷ items) v = save_loop items (save_each item v)

  unfoldable pub saved_all : d.Table ⊎ Bytes → Saving → Saving
  saved_all (inl t) v = record v { state = record v.state { table = t } }
  saved_all (inr e) v = record v { errs = v.errs ++ e ∷ [] }

  unfoldable pub save_rest : List SettingItem → Saving → Saving
  unfolding saved_all
  save_rest [] v = v
  save_rest (i ∷ is) v = saved_all (d.save_all v.state.table (i ∷ is)) v

  -- the caches are emptied unless every write has failed
  unfoldable pub updated : ℕ → Saving → State
  updated count v =
      if ltb (length v.errs) (count - length v.no_hook_items + 1)
      then setting_cache_update d n h c g v.state
      else v.state

  -- SaveSettingItems; the result is the errors of all writes and hooks
  unfoldable pub save_setting_items : List SettingItem → State → Option Bytes × State
  unfolding save_each save_loop save_rest updated merge_errors
  save_setting_items items s =
      let start : Saving = record { no_hook_items = []; errs = []; state = s } in
      let looped = save_loop items start in
      let v = save_rest looped.no_hook_items looped in
      (merge_errors v.errs, updated (length items) v)

  unfoldable pub saved : d.Table ⊎ Bytes → State → Option Bytes × State
  saved (inl t) s = (none, setting_cache_update d n h c g (record s { table = t }))
  saved (inr e) s = (some e, s)

  unfoldable pub save_hooked : Option Bytes → Hooked → Option Bytes × State
  unfolding saved
  save_hooked (some e) k = (some e, k.state)
  save_hooked none k = saved (d.save k.state.table k.item) k.state

  -- SaveSettingItem
  unfoldable pub save_setting_item : SettingItem → State → Option Bytes × State
  unfolding save_hooked handle_setting_item_hook
  save_setting_item item s = let k = handle_setting_item_hook item s in save_hooked k.err k

  unfoldable pub deleted : d.Table ⊎ Bytes → State → Option SettingError × State
  deleted (inl t) s = (none, record s { table = t })
  deleted (inr e) s = (some (error e), s)

  unfoldable pub delete_found : Bytes → (SettingItem ⊎ Bytes) × State → Option SettingError × State
  unfolding deleted
  delete_found key (inr e, s) = (some (error e), s)
  delete_found key (inl old, s) =
      if not (is_deprecated old)
      then (some not_deprecated, s)
      else let s' = setting_cache_update d n h c g s in deleted (d.delete s.table key) s'

  -- DeleteSettingItemByKey
  unfoldable pub delete_setting_item_by_key : Bytes → State → Option SettingError × State
  unfolding delete_found
  delete_setting_item_by_key key s = delete_found key (get_setting_item_by_key d n h c g key s)
