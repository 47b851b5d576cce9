-- ===== src/Op/Settings/Writes.antt =====
-- The operations that write settings keep the caches in agreement with the table.
use xiaoya_qwen.Prelude.{
  ℕ, suc, ◌+◌, ◌-◌, ◌≤◌, ◌<◌, List, [], ◌∷◌, ◌++◌, Bytes, Option, none, some, ◌≡◌, ◌⊎◌, inl, inr,
  refl, ap, subst, ltb, length, length-append, Bool-cases, arith,
}
use xiaoya_qwen.Model.Setting.{SettingItem, is_deprecated}
use xiaoya_qwen.Op.Cache.{Cache}
use xiaoya_qwen.Op.Settings.{SettingDb, Itoa, Hooks, setting_cache_update, get_setting_item_by_key}
use xiaoya_qwen.Op.Settings.Save.{
  State, Hooked, handle_setting_item_hook, run_hook, Saving, saved_one, after_hook, save_each,
  save_loop, saved_all, save_rest, updated, save_setting_items, saved, save_hooked,
  save_setting_item, deleted, delete_found, delete_setting_item_by_key,
}
use xiaoya_qwen.Op.Settings.Coherence.{Coherent, emptied-Coherent, cached_item-Coherent}

module _ (d : SettingDb) (n : Itoa) (h : Hooks) (c : Cache SettingItem)
    (g : Cache (List SettingItem)) where
  run_hook-Coherent :
      (o : Option (SettingItem → h.Conf → Option Bytes × SettingItem × h.Conf)) (item : SettingItem)
      (s : State d n h c g)
      → Coherent d n h c g s
      → Coherent d n h c g (run_hook d n h c g o item s).state
  unfolding run_hook Coherent
  run_hook-Coherent none item s co = co
  run_hook-Coherent (some hook) item s co = co

  saved-Coherent :
      (r : d.Table ⊎ Bytes) (s : State d n h c g)
      → Coherent d n h c g s
      → Coherent d n h c g (saved d n h c g r s).1
  unfolding saved
  saved-Coherent (inl t) s co = emptied-Coherent d n h c g (record s { table = t })
  saved-Coherent (inr e) s co = co

  save_hooked-Coherent :
      (e : Option Bytes) (k : Hooked d n h c g)
      → Coherent d n h c g k.state
      → Coherent d n h c g (save_hooked d n h c g e k).1
  unfolding save_hooked
  save_hooked-Coherent (some e) k co = co
  save_hooked-Coherent none k co = saved-Coherent (d.save k.state.table k.item) k.state co

  pub save_setting_item-Coherent :
      (item : SettingItem) (s : State d n h c g)
      → Coherent d n h c g s
      → Coherent d n h c g (save_setting_item d n h c g item s).1
  unfolding save_setting_item handle_setting_item_hook
  save_setting_item-Coherent item s co =
      save_hooked-Coherent _ _ (run_hook-Coherent (h.hook item.key) item s co)

  deleted-Coherent :
      (r : d.Table ⊎ Bytes) (s : State d n h c g)
      → Coherent d n h c g (deleted d n h c g r (setting_cache_update d n h c g s)).1
  unfolding deleted setting_cache_update
  deleted-Coherent (inl t) s =
      unfold setting_cache_update in emptied-Coherent d n h c g (record s { table = t })
  deleted-Coherent (inr e) s = unfold setting_cache_update in emptied-Coherent d n h c g s

  delete_found-Coherent :
      (k : Bytes) (out : (SettingItem ⊎ Bytes) × State d n h c g)
      → Coherent d n h c g out.1
      → Coherent d n h c g (delete_found d n h c g k out).1
  unfolding delete_found
  delete_found-Coherent k (inr e, s) co = co
  delete_found-Coherent k (inl old, s) co = elim (Bool-cases (is_deprecated old)) [
    | inl b ↦ rw b (deleted-Coherent (d.delete s.table k) s)
    | inr b ↦ rw b co
  ]

  pub delete-Coherent :
      (k : Bytes) (s : State d n h c g)
      → Coherent d n h c g s
      → Coherent d n h c g (delete_setting_item_by_key d n h c g k s).1
  unfolding delete_setting_item_by_key get_setting_item_by_key
  delete-Coherent k s co =
      delete_found-Coherent k _ (cached_item-Coherent d n h c g k (c.get s.items k) s co)

  -- After m items: each has gone to the rest, failed, or been written; and if none has been
  -- written, the caches still agree.
  Tracked : ℕ → Saving d n h c g → Type 0
  Tracked m v =
      (length v.errs + length v.no_hook_items ≤ m)
      × (Coherent d n h c g v.state ⊎ (suc (length v.errs + length v.no_hook_items) ≤ m))

  saved_one-Tracked :
      (m : ℕ) (r : d.Table ⊎ Bytes) (others : List SettingItem) (errs : List Bytes)
      (s : State d n h c g)
      → length errs + length others ≤ m
      → Coherent d n h c g s ⊎ (suc (length errs + length others) ≤ m)
      → Tracked (suc m) (saved_one d n h c g r others errs s)
  unfolding Tracked saved_one
  saved_one-Tracked m (inl t) others errs s le w = (omega arith, inr (omega arith))
  saved_one-Tracked m (inr e) others errs s le (inl co) =
      (omega (arith, length-append errs (e ∷ [])), inl co)
  saved_one-Tracked m (inr e) others errs s le (inr w) =
      (omega (arith, length-append errs (e ∷ [])), inr (omega (arith, length-append errs (e ∷ []))))

  after_hook-Tracked :
      (m : ℕ) (x : Option Bytes) (k : Hooked d n h c g) (others : List SettingItem)
      (errs : List Bytes)
      → length errs + length others ≤ m
      → Coherent d n h c g k.state ⊎ (suc (length errs + length others) ≤ m)
      → Tracked (suc m) (after_hook d n h c g x k others errs)
  unfolding Tracked after_hook
  after_hook-Tracked m (some e) k others errs le (inl co) =
      (omega (arith, length-append errs (e ∷ [])), inl co)
  after_hook-Tracked m (some e) k others errs le (inr w) =
      (omega (arith, length-append errs (e ∷ [])), inr (omega (arith, length-append errs (e ∷ []))))
  after_hook-Tracked m none k others errs le w =
      unfold Tracked in saved_one-Tracked m (d.save k.state.table k.item) others errs k.state le w

  -- An item without a hook is put aside.
  added-Tracked :
      (m : ℕ) (item : SettingItem) (v : Saving d n h c g)
      → Tracked m v
      → Tracked (suc m) (record v { no_hook_items = v.no_hook_items ++ item ∷ [] })
  unfolding Tracked
  added-Tracked m item v (le, inl co) =
      (omega (arith, length-append v.no_hook_items (item ∷ [])), inl co)
  added-Tracked m item v (le, inr x) = (
    omega (arith, length-append v.no_hook_items (item ∷ [])),
    inr (omega (arith, length-append v.no_hook_items (item ∷ []))),
  )

  hooked-Tracked :
      (m : ℕ) (item : SettingItem) (v : Saving d n h c g)
      → Tracked m v
      → let k = run_hook d n h c g (h.hook item.key) item v.state in
        Tracked (suc m) (after_hook d n h c g k.err k v.no_hook_items v.errs)
  unfolding Tracked
  hooked-Tracked m item v (le, inl co) =
      let k = run_hook d n h c g (h.hook item.key) item v.state in
      unfold Tracked in
      after_hook-Tracked m k.err k v.no_hook_items v.errs le
        (inl (run_hook-Coherent (h.hook item.key) item v.state co))
  hooked-Tracked m item v (le, inr x) =
      let k = run_hook d n h c g (h.hook item.key) item v.state in
      unfold Tracked in after_hook-Tracked m k.err k v.no_hook_items v.errs le (inr x)

  save_each-Tracked :
      (m : ℕ) (item : SettingItem) (v : Saving d n h c g)
      → Tracked m v
      → Tracked (suc m) (save_each d n h c g item v)
  unfolding save_each handle_setting_item_hook
  save_each-Tracked m item v t =
      elim (Bool-cases (run_hook d n h c g (h.hook item.key) item v.state).has_hook) [
        | inl b ↦ rw b (hooked-Tracked m item v t)
        | inr b ↦ rw b (added-Tracked m item v t)
      ]

  save_loop-Tracked :
      (m : ℕ) (items : List SettingItem) (v : Saving d n h c g)
      → Tracked m v
      → Tracked (length items + m) (save_loop d n h c g items v)
  unfolding save_loop
  save_loop-Tracked m [] v t = subst (λ k. Tracked k v) (omega arith) t
  save_loop-Tracked m (item ∷ items) v t =
      subst (λ k. Tracked k (save_loop d n h c g items (save_each d n h c g item v))) (omega arith)
        (save_loop-Tracked (suc m) items (save_each d n h c g item v)
          (save_each-Tracked m item v t))

  -- The caches are emptied, or they agree without that.
  updated-Coherent :
      (m : ℕ) (v : Saving d n h c g)
      → Coherent d n h c g v.state ⊎ (length v.errs < m - length v.no_hook_items + 1)
      → Coherent d n h c g (updated d n h c g m v)
  unfolding updated
  updated-Coherent m v w =
      elim (Bool-cases (ltb (length v.errs) (m - length v.no_hook_items + 1))) [
        | inl b ↦ rw b (emptied-Coherent d n h c g v.state)
        | inr b ↦ rw b (elim w [ inl co ↦ co | inr x ↦ absurd (ground arith) ])
      ]

  saved_all-Coherent :
      (m : ℕ) (r : d.Table ⊎ Bytes) (v : Saving d n h c g)
      → Tracked m v
      → Coherent d n h c g (updated d n h c g m (saved_all d n h c g r v))
  unfolding saved_all Tracked
  saved_all-Coherent m (inl t) v (le, w) = updated-Coherent m _ (inr (omega arith))
  saved_all-Coherent m (inr e) v (le, inl co) = updated-Coherent m _ (inl co)
  saved_all-Coherent m (inr e) v (le, inr x) =
      updated-Coherent m _ (inr (omega (arith, length-append v.errs (e ∷ []))))

  save_rest-Coherent :
      (m : ℕ) (rest : List SettingItem) (v : Saving d n h c g)
      → v.no_hook_items ≡ rest
      → Tracked m v
      → Coherent d n h c g (updated d n h c g m (save_rest d n h c g rest v))
  unfolding save_rest
  save_rest-Coherent m [] v e t =
      unfold Tracked in updated-Coherent m v (inr (omega (arith, ap length e, t.0)))
  save_rest-Coherent m (i ∷ is) v e t = saved_all-Coherent m _ v t

  pub save_setting_items-Coherent :
      (items : List SettingItem) (s : State d n h c g)
      → Coherent d n h c g s
      → Coherent d n h c g (save_setting_items d n h c g items s).1
  unfolding save_setting_items Tracked
  save_setting_items-Coherent items s co =
      let start : Saving d n h c g = record { no_hook_items = []; errs = []; state = s } in
      let looped = save_loop d n h c g items start in
      let t =
        subst (λ k. Tracked k looped) (omega arith)
          (save_loop-Tracked 0 items start (omega arith, inl co)) in
      save_rest-Coherent (length items) looped.no_hook_items looped refl t
