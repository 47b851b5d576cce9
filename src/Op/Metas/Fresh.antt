-- ===== src/Op/Metas/Fresh.antt =====
-- The operations on metas, one after another.
use xiaoya_qwen.Prelude.{ℕ, Bytes, Option, none, ◌≡◌, ◌⊎◌}
use xiaoya_qwen.Utils.Path.{fix_and_clean_path}
use xiaoya_qwen.Model.Meta.{Meta}
use xiaoya_qwen.Op.Cache.{Cache}
use xiaoya_qwen.Op.Metas.{
  MetaDb, row, Metas, get_meta_by_path, delete_meta_by_id, create_meta, update_meta,
}
use xiaoya_qwen.Op.Metas.Coherence.{
  Coherent, reading, get_meta_by_path-IsLookup, delete_meta_by_id-Coherent, create_meta-Coherent,
  update_meta-Coherent,
}

module _ (d : MetaDb) (c : Cache (Option Meta)) where
  -- Any sequence of the operations; a meta is moved only to a path at which nothing is cached.
  pub data Reaches : Metas d c → Metas d c → Type 0 where
    stays : (s : Metas d c) → Reaches s s
    lookup_then :
        (path : Bytes) (s s' : Metas d c)
        → Reaches (get_meta_by_path d c s path).1 s'
        → Reaches s s'
    delete_then :
        (id : ℕ) (s s' : Metas d c) → Reaches (delete_meta_by_id d c s id).1 s' → Reaches s s'
    create_then : (u : Meta) (s s' : Metas d c) → Reaches (create_meta d c s u).1 s' → Reaches s s'
    update_then :
        (u : Meta) (s s' : Metas d c)
        → ((old : Meta)
            → d.by_id s.table u.id ≡ row old
            → (fix_and_clean_path u.path ≡ old.path)
              ⊎ (c.get s.cache (fix_and_clean_path u.path) ≡ none))
        → Reaches (update_meta d c s u).1 s'
        → Reaches s s'

  Reaches-Coherent : (s s' : Metas d c) → Reaches s s' → Coherent d c s → Coherent d c s'
  Reaches-Coherent s s' (stays t) h = h
  Reaches-Coherent s s' (lookup_then path t t' r) h =
      Reaches-Coherent _ t' r (get_meta_by_path-IsLookup d c t path h).coherent
  Reaches-Coherent s s' (delete_then id t t' r) h =
      Reaches-Coherent _ t' r (delete_meta_by_id-Coherent d c t id h)
  Reaches-Coherent s s' (create_then u t t' r) h =
      Reaches-Coherent _ t' r (create_meta-Coherent d c t u h)
  Reaches-Coherent s s' (update_then u t t' moved r) h =
      Reaches-Coherent _ t' r (update_meta-Coherent d c t u h moved)

  -- After any sequence of lookups, creations, deletions and updates of metas, failed ones
  -- included, from a state whose cache agrees with the table, where an update keeps the path of
  -- its meta or moves it to one at which nothing is cached, the cache agrees again, and
  -- GetMetaByPath answers what the table has at the cleaned path.
  pub get_meta_by_path-fresh :
      (s s' : Metas d c) (path : Bytes)
      → Coherent d c s
      → Reaches s s'
      → Coherent d c s'
        × ((get_meta_by_path d c s' path).0
            ≡ reading (d.by_path s'.table (fix_and_clean_path path)))
  get_meta_by_path-fresh s s' path h r =
      let k = Reaches-Coherent s s' r h in (k, (get_meta_by_path-IsLookup d c s' path k).answer)
