-- ===== src/Op/Metas/Coherence.antt =====
-- The cache of internal/op/meta.go in front of the table of metas.
use xiaoya_qwen.Prelude.{
  ℕ, Bytes, true, Option, none, some, ◌≡◌, refl, sym, ◌≢◌, beq, beq_iff, beq-ne, ◌∙◌, ap, inl, inr,
  Bool-cases, arith, ◌⊎◌,
}
use xiaoya_qwen.Utils.Path.{fix_and_clean_path}
use xiaoya_qwen.Model.Meta.{Meta}
use xiaoya_qwen.Op.Cache.{Cache}
use xiaoya_qwen.Op.Metas.{
  Query, row, no_row, query_error, MetaDb, MetaResult, ok, meta_not_found, other_error, Metas,
  query_path, cached, get_meta_by_path, written, delete_old, delete_meta_by_id, update_old,
  update_meta, create_meta,
}

-- The row that an entry of the cache stands for.
unfoldable pub entry : Option Meta → Query
entry none = no_row
entry (some m) = row m

-- The answer that a query stands for.
unfoldable pub reading : Query → MetaResult
reading (row m) = ok m
reading no_row = meta_not_found
reading query_error = other_error

module _ (d : MetaDb) (c : Cache (Option Meta)) where
  -- Every entry of the cache is what the table says.
  unfoldable pub Coherent : Metas d c → Type 0
  Coherent s =
      (p : Bytes) (v : Option Meta) → c.get s.cache p ≡ some v → d.by_path s.table p ≡ entry v

  -- What a lookup does: the answer is the table's, the table stays, and so does the agreement.
  pub record IsLookup (s : Metas d c) (path : Bytes) (r : MetaResult × Metas d c) : Type 0 where
    pub answer : r.0 ≡ reading (d.by_path s.table path)
    pub same_table : r.1.table ≡ s.table
    pub coherent : Coherent r.1

  set-Coherent :
      (s : Metas d c) (path : Bytes) (v : Option Meta)
      → Coherent s
      → d.by_path s.table path ≡ entry v
      → Coherent (record s { cache = c.set s.cache path v })
  unfolding Coherent
  set-Coherent s path v h e p w g = elim (Bool-cases (beq path p)) [
    | inl b ↦
        let path_eq = (beq_iff path p).0 b in
        let g' : some v ≡ some w = sym (c.get-set s.cache path p v ∙ rw b refl) ∙ g in
        let vw : v ≡ w = cc in cc
    | inr b ↦ h p w (sym (c.get-set s.cache path p v ∙ rw b refl) ∙ g)
  ]

  query_path-IsLookup :
      (s : Metas d c) (path : Bytes) (q : Query)
      → Coherent s
      → d.by_path s.table path ≡ q
      → IsLookup s path (query_path d c s path q)
  unfolding query_path
  query_path-IsLookup s path (row m) h e = record {
    answer = rw e (unfold reading in refl);
    same_table = refl;
    coherent = set-Coherent s path (some m) h (e ∙ unfold entry in refl);
  }
  query_path-IsLookup s path no_row h e = record {
    answer = rw e (unfold reading in refl);
    same_table = refl;
    coherent = set-Coherent s path none h (e ∙ unfold entry in refl);
  }
  query_path-IsLookup s path query_error h e = record {
    answer = rw e (unfold reading in refl);
    same_table = refl;
    coherent = h;
  }

  cached-IsLookup :
      (s : Metas d c) (path : Bytes) (v : Option (Option Meta))
      → Coherent s
      → c.get s.cache path ≡ v
      → IsLookup s path (cached d c s path v)
  unfolding cached Coherent
  cached-IsLookup s path none h e = query_path-IsLookup s path (d.by_path s.table path) h refl
  cached-IsLookup s path (some none) h e = record {
    answer = rw (h path none e) (unfold reading entry in refl);
    same_table = refl;
    coherent = h;
  }
  cached-IsLookup s path (some (some m)) h e = record {
    answer = rw (h path (some m) e) (unfold reading entry in refl);
    same_table = refl;
    coherent = h;
  }

  pub get_meta_by_path-IsLookup :
      (s : Metas d c) (path : Bytes)
      → Coherent s
      → IsLookup s (fix_and_clean_path path) (get_meta_by_path d c s path)
  unfolding get_meta_by_path
  get_meta_by_path-IsLookup s path h = cached-IsLookup s (fix_and_clean_path path) _ h refl

  -- After a write that touches no row but those at `k`, a cache without `k` still agrees.
  del-Coherent :
      (s : Metas d c) (k : Bytes) (t : d.Table)
      → Coherent s
      → ((p : Bytes) (v : Option Meta)
          → c.get s.cache p ≡ some v
          → p ≢ k
          → d.by_path t p ≡ d.by_path s.table p)
      → Coherent (record { table = t; cache = c.del s.cache k })
  unfolding Coherent
  del-Coherent s k t h same p v g = elim (Bool-cases (beq k p)) [
    | inl b ↦ let n : none ≡ some v = sym (c.get-del s.cache k p ∙ rw b refl) ∙ g in cc
    | inr b ↦
        let g' : c.get s.cache p ≡ some v = sym (c.get-del s.cache k p ∙ rw b refl) ∙ g in
        same p v g' (λ e. beq-ne k p b (sym e)) ∙ h p v g'
  ]

  written-Coherent :
      (s : Metas d c) (k : Bytes) (t : Option d.Table)
      → Coherent s
      → ((t' : d.Table) (p : Bytes) (v : Option Meta)
          → t ≡ some t'
          → c.get s.cache p ≡ some v
          → p ≢ k
          → d.by_path t' p ≡ d.by_path s.table p)
      → Coherent (written d c (record s { cache = c.del s.cache k }) t).1
  unfolding written
  written-Coherent s k none h same = del-Coherent s k s.table h (λ p v g n. refl)
  written-Coherent s k (some t) h same = del-Coherent s k t h (λ p v g n. same t p v refl g n)

  delete_old-Coherent :
      (s : Metas d c) (id : ℕ) (q : Query)
      → Coherent s
      → d.by_id s.table id ≡ q
      → Coherent (delete_old d c s id q).1
  unfolding delete_old
  delete_old-Coherent s id (row old) h e =
      written-Coherent s old.path (d.delete s.table id) h
        (λ t p v w g n. d.by_path-delete_other s.table t old id p w e n)
  delete_old-Coherent s id no_row h e = h
  delete_old-Coherent s id query_error h e = h

  update_old-Coherent :
      (s : Metas d c) (u : Meta) (q : Query)
      → Coherent s
      → d.by_id s.table u.id ≡ q
      → ((old : Meta) → q ≡ row old → (u.path ≡ old.path) ⊎ (c.get s.cache u.path ≡ none))
      → Coherent (update_old d c s u q).1
  unfolding update_old
  update_old-Coherent s u (row old) h e new =
      written-Coherent s old.path (d.save s.table u) h (λ t p v w g n.
        d.by_path-save_other s.table t u old p w e
          (elim (new old refl) [
            | inl same ↦ λ x. n (x ∙ same)
            | inr miss ↦ λ x. let a : some v ≡ none = sym g ∙ ap (c.get s.cache) x ∙ miss in cc
          ])
          n)
  update_old-Coherent s u no_row h e new = h
  update_old-Coherent s u query_error h e new = h

  -- Deleting a meta by its id keeps the cache and the table in agreement, also when it fails.
  pub delete_meta_by_id-Coherent :
      (s : Metas d c) (id : ℕ) → Coherent s → Coherent (delete_meta_by_id d c s id).1
  unfolding delete_meta_by_id
  delete_meta_by_id-Coherent s id h = delete_old-Coherent s id (d.by_id s.table id) h refl

  -- So does creating a meta.
  pub create_meta-Coherent :
      (s : Metas d c) (u : Meta) → Coherent s → Coherent (create_meta d c s u).1
  unfolding create_meta
  create_meta-Coherent s u h =
      let u' : Meta = record u { path = fix_and_clean_path u.path } in
      written-Coherent s u'.path (d.create s.table u') h
        (λ t p v w g n. d.by_path-create_other s.table t u' p w n)

  -- So does updating a meta, if its path stays or nothing is cached at its new path.
  pub update_meta-Coherent :
      (s : Metas d c) (u : Meta)
      → Coherent s
      → ((old : Meta)
          → d.by_id s.table u.id ≡ row old
          → (fix_and_clean_path u.path ≡ old.path)
            ⊎ (c.get s.cache (fix_and_clean_path u.path) ≡ none))
      → Coherent (update_meta d c s u).1
  unfolding update_meta
  update_meta-Coherent s u h new =
      update_old-Coherent s (record u { path = fix_and_clean_path u.path }) (d.by_id s.table u.id) h
        refl new

  -- What an update that finds the old row and saves the new one leaves.
  update_meta-saved :
      (s : Metas d c) (u old : Meta) (t : d.Table)
      → d.by_id s.table u.id ≡ row old
      → d.save s.table (record u { path = fix_and_clean_path u.path }) ≡ some t
      → update_meta d c s u ≡ (true, record { table = t; cache = c.del s.cache old.path })
  unfolding update_meta update_old written
  update_meta-saved s u old t found saved = rw (found, update_old, saved) refl

  kept-del :
      (s : Metas d c) (k p : Bytes) (v : Option Meta)
      → p ≢ k
      → c.get s.cache p ≡ some v
      → c.get (c.del s.cache k) p ≡ some v
  kept-del s k p v ne g = c.get-del s.cache k p ∙ ground (arith, beq_iff k p)

  get_meta_by_path-miss :
      (s : Metas d c) (path : Bytes)
      → c.get s.cache (fix_and_clean_path path) ≡ some none
      → (get_meta_by_path d c s path).0 ≡ meta_not_found
  unfolding get_meta_by_path cached
  get_meta_by_path-miss s path g = rw (g, cached) refl

  -- If the absence of a meta at the new path is cached, an update that moves a meta there succeeds and
  -- the table has the meta at that path, but a lookup of the path still answers that there is none.
  pub update_meta-stale :
      (s : Metas d c) (u old : Meta) (t : d.Table)
      → d.by_id s.table u.id ≡ row old
      → fix_and_clean_path u.path ≢ old.path
      → c.get s.cache (fix_and_clean_path u.path) ≡ some none
      → d.save s.table (record u { path = fix_and_clean_path u.path }) ≡ some t
      → (update_meta d c s u).0 ≡ true
        × (d.by_path (update_meta d c s u).1.table (fix_and_clean_path u.path)
            ≡ row (record u { path = fix_and_clean_path u.path }))
        × ((get_meta_by_path d c (update_meta d c s u).1 u.path).0 ≡ meta_not_found)
  update_meta-stale s u old t found ne miss saved = rw (update_meta-saved s u old t found saved) (
    refl,
    d.by_path-save s.table t (record u { path = fix_and_clean_path u.path }) saved,
    get_meta_by_path-miss _ u.path (kept-del s old.path _ none ne miss),
  )
