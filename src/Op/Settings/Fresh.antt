-- ===== src/Op/Settings/Fresh.antt =====
-- The operations on settings, one after another.
use xiaoya_qwen.Prelude.{List, [], ◌∷◌, Bytes, Option, none, some, ◌≡◌, ◌⊎◌, inl, inr, refl}
use xiaoya_qwen.Prelude.Int.{ℤ, int_lt}
use xiaoya_qwen.Go.Sort.{sort_by}
use xiaoya_qwen.Model.Setting.{SettingItem}
use xiaoya_qwen.Op.Cache.{Cache}
use xiaoya_qwen.Op.Settings.{
  SettingDb, Itoa, Hooks, groups_key, queried_list, cached_list, get_setting_items,
  get_public_setting_items, get_setting_items_by_group, get_setting_items_in_groups, queried_item,
  cached_item, get_setting_item_by_key, get_setting_item_in_keys,
}
use xiaoya_qwen.Op.Settings.Keys.{all, public, groups}
use xiaoya_qwen.Op.Settings.Save.{
  State, save_setting_items, save_setting_item, delete_setting_item_by_key,
}
use xiaoya_qwen.Op.Settings.Coherence.{
  Coherent, cached_list-Coherent, by_group-Coherent, cached_item-Coherent, get_in_keys-Coherent,
}
use xiaoya_qwen.Op.Settings.Writes.{
  save_setting_item-Coherent, save_setting_items-Coherent, delete-Coherent,
}

pub data Command : Type 0 where
  get_all : Command
  get_public : Command
  get_group : ℤ → Command
  get_groups : List ℤ → Command
  get_key : Bytes → Command
  get_keys : List Bytes → Command
  save_many : List SettingItem → Command
  save_one : SettingItem → Command
  delete_key : Bytes → Command

module _ (d : SettingDb) (n : Itoa) (h : Hooks) (c : Cache SettingItem)
    (g : Cache (List SettingItem)) where
  unfoldable pub perform : Command → State d n h c g → State d n h c g
  unfolding get_setting_items get_public_setting_items get_setting_items_by_group
      get_setting_items_in_groups get_setting_item_by_key get_setting_item_in_keys
      save_setting_items save_setting_item delete_setting_item_by_key
  perform get_all s = (get_setting_items d n h c g s).1
  perform get_public s = (get_public_setting_items d n h c g s).1
  perform (get_group a) s = (get_setting_items_by_group d n h c g a s).1
  perform (get_groups as') s = (get_setting_items_in_groups d n h c g as' s).1
  perform (get_key k) s = (get_setting_item_by_key d n h c g k s).1
  perform (get_keys ks) s = (get_setting_item_in_keys d n h c g ks s).1
  perform (save_many is) s = (save_setting_items d n h c g is s).1
  perform (save_one i) s = (save_setting_item d n h c g i s).1
  perform (delete_key k) s = (delete_setting_item_by_key d n h c g k s).1

  unfoldable pub run : List Command → State d n h c g → State d n h c g
  run [] s = s
  run (x ∷ xs) s = run xs (perform x s)

  perform-Coherent :
      (x : Command) (s : State d n h c g) → Coherent d n h c g s → Coherent d n h c g (perform x s)
  unfolding perform get_setting_items get_public_setting_items get_setting_items_in_groups
      get_setting_item_by_key
  perform-Coherent get_all s co = cached_list-Coherent d n h c g all _ _ s refl co
  perform-Coherent get_public s co = cached_list-Coherent d n h c g public _ _ s refl co
  perform-Coherent (get_group a) s co = by_group-Coherent d n h c g a s co
  perform-Coherent (get_groups as') s co =
      cached_list-Coherent d n h c g (groups (sort_by int_lt as')) _ _ s refl co
  perform-Coherent (get_key k) s co = cached_item-Coherent d n h c g k (c.get s.items k) s co
  perform-Coherent (get_keys ks) s co = get_in_keys-Coherent d n h c g ks s co
  perform-Coherent (save_many is) s co = save_setting_items-Coherent d n h c g is s co
  perform-Coherent (save_one i) s co = save_setting_item-Coherent d n h c g i s co
  perform-Coherent (delete_key k) s co = delete-Coherent d n h c g k s co

  run-Coherent :
      (xs : List Command) (s : State d n h c g)
      → Coherent d n h c g s
      → Coherent d n h c g (run xs s)
  unfolding run
  run-Coherent [] s co = co
  run-Coherent (x ∷ xs) s co = run-Coherent xs (perform x s) (perform-Coherent x s co)

  -- What a cached item or the query answers is what the table has.
  queried-answer :
      (k : Bytes) (r : SettingItem ⊎ Bytes) (s : State d n h c g)
      → (queried_item d n h c g k r s).0 ≡ r
  unfolding queried_item
  queried-answer k (inl i) s = refl
  queried-answer k (inr e) s = refl

  cached-answer :
      (k : Bytes) (v : Option SettingItem) (s : State d n h c g)
      → Coherent d n h c g s
      → c.get s.items k ≡ v
      → (cached_item d n h c g k v s).0 ≡ d.by_key s.table k
  unfolding cached_item Coherent
  cached-answer k (some i) s co e = rw (co.0 k i e) refl
  cached-answer k none s co e = queried-answer k (d.by_key s.table k) s

  list-queried :
      (k : Bytes) (r : List SettingItem ⊎ Bytes) (s : State d n h c g)
      → (queried_list d n h c g k r s).0 ≡ r
  unfolding queried_list
  list-queried k (inl l) s = refl
  list-queried k (inr e) s = refl

  list-answer :
      (as' : List ℤ) (v : Option (List SettingItem)) (s : State d n h c g)
      → Coherent d n h c g s
      → g.get s.groups (groups_key d n h c g as') ≡ v
      → (cached_list d n h c g (groups_key d n h c g as') v (d.in_groups s.table as') s).0
        ≡ d.in_groups s.table as'
  unfolding cached_list Coherent
  list-answer as' (some l) s co e = rw (co.1 (groups as') l e) refl
  list-answer as' none s co e = list-queried _ (d.in_groups s.table as') s

  -- After any sequence of reads, of writes of one setting or of many, with hooks and errors, and
  -- of deletions, from a state whose caches agree with the table, GetSettingItemByKey answers
  -- what the table has under the key, and GetSettingItemsInGroups what it has in the groups,
  -- sorted.
  pub settings-fresh :
      (xs : List Command) (s : State d n h c g) (k : Bytes) (as' : List ℤ)
      → Coherent d n h c g s
      → ((get_setting_item_by_key d n h c g k (run xs s)).0 ≡ d.by_key (run xs s).table k)
        × ((get_setting_items_in_groups d n h c g as' (run xs s)).0
            ≡ d.in_groups (run xs s).table (sort_by int_lt as'))
  unfolding get_setting_item_by_key get_setting_items_in_groups
  settings-fresh xs s k as' co =
      let co' = run-Coherent xs s co in
      (
        cached-answer k (c.get (run xs s).items k) (run xs s) co' refl,
        list-answer (sort_by int_lt as') _ (run xs s) co' refl,
      )
