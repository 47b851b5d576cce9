-- ===== src/Op/Metas.antt =====
-- internal/op/meta.go: metas by path, with the cache in front of the database. The database (gorm,
-- behind internal/db/meta.go) and the cache are parameters. singleflight.Do runs its function.
pub mod Coherence
pub mod Fresh
pub mod Nearest
use xiaoya_qwen.Prelude.{
  ℕ, zero, suc, Bytes, Bool, true, false, Option, none, some, ◌≡◌, ◌≢◌, beq, if◌then◌else◌, length,
}
use xiaoya_qwen.Go.Path.{slash, dir}
use xiaoya_qwen.Utils.Path.{fix_and_clean_path}
use xiaoya_qwen.Model.Meta.{Meta}
use xiaoya_qwen.Op.Cache.{Cache}

-- What a query returns: a row, gorm.ErrRecordNotFound, or another error.
pub data Query : Type 0 where
  row : Meta → Query
  no_row : Query
  query_error : Query

-- The table of metas. A write returns the new table, or `none` if it fails.
pub record MetaDb : Type 1 where
  pub Table : Type 0
  pub by_path : Table → Bytes → Query
  pub by_id : Table → ℕ → Query
  pub save : Table → Meta → Option Table
  pub create : Table → Meta → Option Table
  pub delete : Table → ℕ → Option Table
  pub by_path-save : (t t' : Table) (m : Meta) → save t m ≡ some t' → by_path t' m.path ≡ row m
  pub by_path-save_other :
      (t t' : Table) (m old : Meta) (p : Bytes)
      → save t m ≡ some t'
      → by_id t m.id ≡ row old
      → p ≢ m.path
      → p ≢ old.path
      → by_path t' p ≡ by_path t p
  pub by_path-create_other :
      (t t' : Table) (m : Meta) (p : Bytes)
      → create t m ≡ some t'
      → p ≢ m.path
      → by_path t' p ≡ by_path t p
  pub by_path-delete_other :
      (t t' : Table) (old : Meta) (id : ℕ) (p : Bytes)
      → delete t id ≡ some t'
      → by_id t id ≡ row old
      → p ≢ old.path
      → by_path t' p ≡ by_path t p

-- A meta, errs.MetaNotFound, or another error.
pub data MetaResult : Type 0 where
  ok : Meta → MetaResult
  meta_not_found : MetaResult
  other_error : MetaResult

module _ (d : MetaDb) (c : Cache (Option Meta)) where
  open d use {Table, by_path, by_id, save, create, delete}
  open c use {Store, get, set, del}

  pub record Metas : Type 0 where
    pub table : Table
    pub cache : Store

  -- what a miss in the cache does
  query_path : Metas → Bytes → Query → MetaResult × Metas
  query_path s path (row m) = (ok m, record s { cache = set s.cache path (some m) })
  query_path s path no_row = (meta_not_found, record s { cache = set s.cache path none })
  query_path s path query_error = (other_error, s)

  cached : Metas → Bytes → Option (Option Meta) → MetaResult × Metas
  unfolding query_path
  cached s path (some (some m)) = (ok m, s)
  cached s path (some none) = (meta_not_found, s)
  cached s path none = query_path s path (by_path s.table path)

  unfoldable pub get_meta_by_path : Metas → Bytes → MetaResult × Metas
  unfolding cached
  get_meta_by_path s path = let path = fix_and_clean_path path in cached s path (get s.cache path)

  -- what getNearestMeta does with the answer for a path; `up` is what it returns for the directory
  unfoldable pub nearest_round :
      Bytes → MetaResult × Metas → Option (MetaResult × Metas) → Option (MetaResult × Metas)
  nearest_round path (ok m, s) up = some (ok m, s)
  nearest_round path (other_error, s) up = some (other_error, s)
  nearest_round path (meta_not_found, s) up =
      if beq path slash then some (meta_not_found, s) else up

  -- getNearestMeta; `none` is out of fuel
  unfoldable pub nearest_loop : ℕ → Metas → Bytes → Option (MetaResult × Metas)
  unfolding nearest_round
  nearest_loop zero s path = none
  nearest_loop (suc fuel) s path =
      let found = get_meta_by_path s path in
      nearest_round path found (nearest_loop fuel found.1 (dir path))

  -- each round drops a name, and a path has fewer names than bytes
  unfoldable pub get_nearest_meta : Metas → Bytes → Option (MetaResult × Metas)
  get_nearest_meta s path =
      let path = fix_and_clean_path path in nearest_loop (suc (length path)) s path

  written : Metas → Option Table → Bool × Metas
  written s none = (false, s)
  written s (some t) = (true, record s { table = t })

  delete_old : Metas → ℕ → Query → Bool × Metas
  unfolding written
  delete_old s id (row old) =
      written (record s { cache = del s.cache old.path }) (delete s.table id)
  delete_old s id no_row = (false, s)
  delete_old s id query_error = (false, s)

  -- DeleteMetaById; the Boolean says that there was no error
  unfoldable pub delete_meta_by_id : Metas → ℕ → Bool × Metas
  unfolding delete_old
  delete_meta_by_id s id = delete_old s id (by_id s.table id)

  update_old : Metas → Meta → Query → Bool × Metas
  unfolding written
  update_old s u (row old) = written (record s { cache = del s.cache old.path }) (save s.table u)
  update_old s u no_row = (false, s)
  update_old s u query_error = (false, s)

  unfoldable pub update_meta : Metas → Meta → Bool × Metas
  unfolding update_old
  update_meta s u =
      let u : Meta = record u { path = fix_and_clean_path u.path } in
      update_old s u (by_id s.table u.id)

  unfoldable pub create_meta : Metas → Meta → Bool × Metas
  unfolding written
  create_meta s u =
      let u : Meta = record u { path = fix_and_clean_path u.path } in
      written (record s { cache = del s.cache u.path }) (create s.table u)
