-- ===== src/Op/Settings/Coherence.antt =====
-- The cached settings beside the table of settings, through any sequence of operations.
use xiaoya_qwen.Prelude.{
  List, [], ◌∷◌, Bytes, Option, none, some, ◌≡◌, ◌⊎◌, inl, inr, refl, sym, ap, ◌∙◌, beq, beq_iff,
  Bool-cases,
}
use xiaoya_qwen.Prelude.Int.{ℤ}
use xiaoya_qwen.Model.Setting.{SettingItem}
use xiaoya_qwen.Op.Cache.{Cache}
use xiaoya_qwen.Op.Settings.{
  SettingDb, Itoa, Hooks, setting_cache_update, queried_list, cached_list,
  get_setting_items_by_group, queried_item, cached_item, get_setting_item_by_key, in_keys,
  get_setting_item_in_keys,
}
use xiaoya_qwen.Op.Settings.Keys.{Ask, groups, key, answer, key-answer, key-one}
use xiaoya_qwen.Op.Settings.Save.{State}

module _ (d : SettingDb) (n : Itoa) (h : Hooks) (c : Cache SettingItem)
    (g : Cache (List SettingItem)) where
  -- Every cached item is the one of its key in the table, and every cached list is what the
  -- table answers to each query of its key.
  abbrev pub AreItems : d.Table → c.Store → Type 0
  AreItems t m = (k : Bytes) (i : SettingItem) → c.get m k ≡ some i → d.by_key t k ≡ inl i

  abbrev pub AreLists : d.Table → g.Store → Type 0
  AreLists t m =
      (q : Ask) (l : List SettingItem)
      → g.get m (key d n h c g q) ≡ some l
      → answer d n h c g t q ≡ inl l

  unfoldable pub Coherent : State d n h c g → Type 0
  Coherent s = AreItems s.table s.items × AreLists s.table s.groups

  pub emptied-Coherent : (s : State d n h c g) → Coherent (setting_cache_update d n h c g s)
  unfolding Coherent setting_cache_update
  emptied-Coherent s = (
    λ k i e. cc (e, c.get-clear s.items k),
    λ q l e. cc (e, g.get-clear s.groups (key d n h c g q)),
  )

  -- A list that a query has answered goes under the key of the query.
  queried_list-Coherent :
      (q : Ask) (r : List SettingItem ⊎ Bytes) (s : State d n h c g)
      → answer d n h c g s.table q ≡ r
      → Coherent s
      → Coherent (queried_list d n h c g (key d n h c g q) r s).1
  unfolding Coherent queried_list
  queried_list-Coherent q (inr e) s a co = co
  queried_list-Coherent q (inl l) s a (items, lists) = (
    items,
    λ p m f.
        let k = key d n h c g q in
        let k' = key d n h c g p in
        elim (Bool-cases (beq k k')) [
          | inl b ↦
              let same = key-answer d n h c g s.table p q (sym ((beq_iff k k').0 b)) in
              let e : some l ≡ some m = sym (g.get-set s.groups k k' l ∙ rw b refl) ∙ f in
              same ∙ a ∙ (let e' : l ≡ m = cc in ap inl e')
          | inr b ↦ lists p m (sym (g.get-set s.groups k k' l ∙ rw b refl) ∙ f)
        ],
  )

  pub cached_list-Coherent :
      (q : Ask) (v : Option (List SettingItem)) (r : List SettingItem ⊎ Bytes) (s : State d n h c g)
      → answer d n h c g s.table q ≡ r
      → Coherent s
      → Coherent (cached_list d n h c g (key d n h c g q) v r s).1
  unfolding cached_list
  cached_list-Coherent q (some l) r s a co = co
  cached_list-Coherent q none r s a co = queried_list-Coherent q r s a co

  pub by_group-Coherent :
      (a : ℤ) (s : State d n h c g)
      → Coherent s
      → Coherent (get_setting_items_by_group d n h c g a s).1
  unfolding get_setting_items_by_group
  by_group-Coherent a s co =
      rw (← key-one d n h c g a)
        (cached_list-Coherent (groups (a ∷ [])) _ _ s (d.in_groups-one s.table a) co)

  queried_item-Coherent :
      (k : Bytes) (r : SettingItem ⊎ Bytes) (s : State d n h c g)
      → d.by_key s.table k ≡ r
      → Coherent s
      → Coherent (queried_item d n h c g k r s).1
  unfolding Coherent queried_item
  queried_item-Coherent k (inr e) s a co = co
  queried_item-Coherent k (inl i) s a (items, lists) = (
    λ k' j f.
        let own = d.by_key-key s.table k i a in
        elim (Bool-cases (beq i.key k')) [
          | inl b ↦
              let same : k ≡ k' = sym own ∙ (beq_iff i.key k').0 b in
              let e : some i ≡ some j = sym (c.get-set s.items i.key k' i ∙ rw b refl) ∙ f in
              sym (ap (d.by_key s.table) same) ∙ a ∙ (let e' : i ≡ j = cc in ap inl e')
          | inr b ↦ items k' j (sym (c.get-set s.items i.key k' i ∙ rw b refl) ∙ f)
        ],
    lists,
  )

  pub cached_item-Coherent :
      (k : Bytes) (v : Option SettingItem) (s : State d n h c g)
      → Coherent s
      → Coherent (cached_item d n h c g k v s).1
  unfolding cached_item
  cached_item-Coherent k (some i) s co = co
  cached_item-Coherent k none s co = queried_item-Coherent k (d.by_key s.table k) s refl co

  pub in_keys-Coherent :
      (out : (SettingItem ⊎ Bytes) × State d n h c g)
      (rest : State d n h c g → (List SettingItem ⊎ Bytes) × State d n h c g)
      → Coherent out.1
      → ((t : State d n h c g) → Coherent t → Coherent (rest t).1)
      → Coherent (in_keys d n h c g out rest).1
  unfolding in_keys
  in_keys-Coherent (inr e, t) rest co keep = co
  in_keys-Coherent (inl i, t) rest co keep =
      elim (rest t).0
        as (λ r.
          Coherent
            (elim r as (λ _. (List SettingItem ⊎ Bytes) × State d n h c g) [
              | inl is ↦ (inl (i ∷ is), (rest t).1)
              | inr e ↦ (inr e, (rest t).1)
            ]).1) [ inl is ↦ keep t co | inr e ↦ keep t co ]

  pub get_in_keys-Coherent :
      (keys : List Bytes) (s : State d n h c g)
      → Coherent s
      → Coherent (get_setting_item_in_keys d n h c g keys s).1
  unfolding get_setting_item_in_keys get_setting_item_by_key
  get_in_keys-Coherent [] s co = co
  get_in_keys-Coherent (k ∷ keys) s co =
      in_keys-Coherent _ (get_setting_item_in_keys d n h c g keys)
        (cached_item-Coherent k (c.get s.items k) s co) (get_in_keys-Coherent keys)
