-- ===== src/Op/Settings.antt =====
-- internal/op/setting.go and the hooks of settings of internal/op/hook.go: settings behind two caches, one of items
-- and one of lists. The database (gorm, behind internal/db/settingitem.go), the caches, the hooks that are registered
-- and strconv.Itoa are parameters. singleflight.Do runs its function.
pub mod Save
pub mod Keys
pub mod Coherence
pub mod Writes
pub mod Fresh
use xiaoya_qwen.Prelude.{
  ℕ, List, [], ◌∷◌, ◌++◌, Bytes, Bool, true, false, not, Option, none, some, ◌≡◌, ◌≢◌, ◌≤◌, ◌⊎◌,
  inl, inr, codes, if◌then◌else◌, All, beq,
}
use xiaoya_qwen.Prelude.Int.{ℤ, int_lt}
use xiaoya_qwen.Go.Strings.{join}
use xiaoya_qwen.Go.Sort.{sort_by}
use xiaoya_qwen.Utils.Slice.{must_slice_convert}
use xiaoya_qwen.Model.Setting.{SettingItem}
use xiaoya_qwen.Op.Cache.{Cache}

-- The table of settings, whose primary key is the key. A query returns rows, or an error; a write returns the new
-- table, or an error, and then the table is as before.
pub record SettingDb : Type 1 where
  pub Table : Type 0
  pub by_key : Table → Bytes → SettingItem ⊎ Bytes
  pub all : Table → List SettingItem ⊎ Bytes
  pub public : Table → List SettingItem ⊎ Bytes
  pub by_group : Table → ℤ → List SettingItem ⊎ Bytes
  pub in_groups : Table → List ℤ → List SettingItem ⊎ Bytes
  pub save : Table → SettingItem → Table ⊎ Bytes
  pub save_all : Table → List SettingItem → Table ⊎ Bytes
  pub delete : Table → Bytes → Table ⊎ Bytes
  pub by_key-key : (t : Table) (k : Bytes) (i : SettingItem) → by_key t k ≡ inl i → i.key ≡ k
  -- "in" one value is "=" that value
  pub in_groups-one : (t : Table) (g : ℤ) → in_groups t (g ∷ []) ≡ by_group t g

-- strconv.Itoa writes digits, behind a sign if there is one, and different numbers differently.
pub record Itoa : Type 0 where
  pub itoa : ℤ → Bytes
  pub itoa-injective : (a b : ℤ) → itoa a ≡ itoa b → a ≡ b
  pub itoa-not_empty : (a : ℤ) → itoa a ≢ []
  pub itoa-digits : (a : ℤ) → All (λ c. (c ≡ b'-') ⊎ ((b'0' ≤ c) × (c ≤ b'9'))) (itoa a)

-- settingItemHooks: what a hook returns (no error is `none`), the item as it leaves it, and what it does to the
-- configuration.
pub record Hooks : Type 1 where
  pub Conf : Type 0
  pub hook : Bytes → Option (SettingItem → Conf → Option Bytes × SettingItem × Conf)

module _ (d : SettingDb) (n : Itoa) (h : Hooks) (c : Cache SettingItem)
    (g : Cache (List SettingItem)) where
  open d use {Table}

  pub record Settings : Type 0 where
    pub table : Table
    pub items : c.Store
    pub groups : g.Store
    pub conf : h.Conf

  -- settingCacheUpdate
  unfoldable pub setting_cache_update : Settings → Settings
  setting_cache_update s = record s { items = c.clear s.items; groups = g.clear s.groups }

  unfoldable pub queried_list :
      Bytes → List SettingItem ⊎ Bytes → Settings → (List SettingItem ⊎ Bytes) × Settings
  queried_list key (inl l) s = (inl l, record s { groups = g.set s.groups key l })
  queried_list key (inr e) s = (inr e, s)

  -- a list under its key in the cache, or else from the query
  unfoldable pub cached_list :
      Bytes
      → Option (List SettingItem)
      → List SettingItem ⊎ Bytes
      → Settings
      → (List SettingItem ⊎ Bytes) × Settings
  unfolding queried_list
  cached_list key (some l) query s = (inl l, s)
  cached_list key none query s = queried_list key query s

  abbrev pub all_key : Bytes
  all_key = codes "ALL_SETTING_ITEMS"

  abbrev pub public_key : Bytes
  public_key = codes "ALL_PUBLIC_SETTING_ITEMS"

  unfoldable pub get_setting_items : Settings → (List SettingItem ⊎ Bytes) × Settings
  unfolding cached_list
  get_setting_items s = cached_list all_key (g.get s.groups all_key) (d.all s.table) s

  unfoldable pub get_public_setting_items : Settings → (List SettingItem ⊎ Bytes) × Settings
  unfolding cached_list
  get_public_setting_items s =
      cached_list public_key (g.get s.groups public_key) (d.public s.table) s

  unfoldable pub get_setting_items_by_group : ℤ → Settings → (List SettingItem ⊎ Bytes) × Settings
  unfolding cached_list
  get_setting_items_by_group group s =
      let key = n.itoa group in cached_list key (g.get s.groups key) (d.by_group s.table group) s

  unfoldable pub groups_key : List ℤ → Bytes
  unfolding must_slice_convert
  groups_key groups = join (must_slice_convert groups n.itoa) (codes ",")

  unfoldable pub get_setting_items_in_groups :
      List ℤ → Settings → (List SettingItem ⊎ Bytes) × Settings
  unfolding cached_list
  get_setting_items_in_groups groups s =
      let groups = sort_by int_lt groups in
      let key = groups_key groups in
      cached_list key (g.get s.groups key) (d.in_groups s.table groups) s

  unfoldable pub map_of : (Bytes → Option Bytes) → List SettingItem → Bytes → Option Bytes
  map_of m [] = m
  map_of m (i ∷ is) = map_of (λ k. if beq i.key k then some i.value else m k) is

  -- an error of the query is dropped
  unfoldable pub items_or_nil : List SettingItem ⊎ Bytes → List SettingItem
  items_or_nil (inl l) = l
  items_or_nil (inr e) = []

  unfoldable pub get_public_settings_map : Settings → (Bytes → Option Bytes) × Settings
  unfolding map_of items_or_nil
  get_public_settings_map s =
      let (r, s') = get_public_setting_items s in (map_of (λ k. none) (items_or_nil r), s')

  unfoldable pub get_settings_map : Settings → (Bytes → Option Bytes) × Settings
  unfolding map_of items_or_nil
  get_settings_map s =
      let (r, s') = get_setting_items s in (map_of (λ k. none) (items_or_nil r), s')

  unfoldable pub queried_item :
      Bytes → SettingItem ⊎ Bytes → Settings → (SettingItem ⊎ Bytes) × Settings
  queried_item key (inl i) s = (inl i, record s { items = c.set s.items i.key i })
  queried_item key (inr e) s = (inr e, s)

  unfoldable pub cached_item :
      Bytes → Option SettingItem → Settings → (SettingItem ⊎ Bytes) × Settings
  unfolding queried_item
  cached_item key (some i) s = (inl i, s)
  cached_item key none s = queried_item key (d.by_key s.table key) s

  unfoldable pub get_setting_item_by_key : Bytes → Settings → (SettingItem ⊎ Bytes) × Settings
  unfolding cached_item
  get_setting_item_by_key key s = cached_item key (c.get s.items key) s

  unfoldable pub in_keys :
      (SettingItem ⊎ Bytes) × Settings
      → (Settings → (List SettingItem ⊎ Bytes) × Settings)
      → (List SettingItem ⊎ Bytes) × Settings
  in_keys (inr e, s) rest = (inr e, s)
  in_keys (inl i, s) rest =
      let (r, s') = rest s in elim r [ inl is ↦ (inl (i ∷ is), s') | inr e ↦ (inr e, s') ]

  unfoldable pub get_setting_item_in_keys :
      List Bytes → Settings → (List SettingItem ⊎ Bytes) × Settings
  unfolding in_keys
  get_setting_item_in_keys [] s = (inl [], s)
  get_setting_item_in_keys (key ∷ keys) s =
      in_keys (get_setting_item_by_key key s) (get_setting_item_in_keys keys)
