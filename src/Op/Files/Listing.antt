-- ===== src/Op/Files/Listing.antt =====
-- The cached listings of internal/op/fs.go: Key, updateCacheObj, delCacheObj, addCacheObj and ClearCache. The
-- sort that addCacheObj starts a minute later is left out.
pub mod Map
pub mod Refinement
use xiaoya_qwen.Prelude.{
  ℕ, List, [], ◌∷◌, ◌++◌, Bytes, Bool, true, false, ◌&&◌, not, Option, none, some, beq,
  if◌then◌else◌,
}
use xiaoya_qwen.Go.Path.{join_paths}
use xiaoya_qwen.Utils.Path.{fix_and_clean_path}
use xiaoya_qwen.Model.Objects.{Listed}
use xiaoya_qwen.Model.Storage.{Driver}
use xiaoya_qwen.Op.Files.Env.{Env, Fs}

unfoldable pub key : Driver → Bytes → Bytes
key storage path = join_paths storage.storage.mount_path (fix_and_clean_path path)

-- The loop of updateCacheObj.
unfoldable pub update_obj : List Listed → Listed → Listed → List Listed
update_obj [] old new = []
update_obj (o ∷ os) old new =
    let rest = update_obj os old new in if beq o.name old.name then new ∷ os else o ∷ rest

-- The loop of delCacheObj.
unfoldable pub del_obj : List Listed → Listed → List Listed
del_obj [] old = []
del_obj (o ∷ os) old = let rest = del_obj os old in if beq o.name old.name then os else o ∷ rest

unfoldable pub has_name : List Listed → Bytes → Bool
has_name [] n = false
has_name (o ∷ os) n = let rest = has_name os n in if beq o.name n then true else rest

unfoldable pub same_kind : Bool → Bool → Bool
same_kind true b = b
same_kind false b = not b

-- len(objs) > 0 && objs[len(objs)-1].IsDir() == newObj.IsDir()
unfoldable pub ends_like : List Listed → Listed → Bool
unfolding same_kind
ends_like [] new = false
ends_like (o ∷ []) new = same_kind o.obj.is_dir new.obj.is_dir
ends_like (o ∷ p ∷ os) new = ends_like (p ∷ os) new

-- The new listing of addCacheObj.
unfoldable pub add_obj : List Listed → Listed → List Listed
unfolding has_name ends_like
add_obj objs new =
    if has_name objs new.name
    then update_obj objs new new
    else if ends_like objs new
    then objs ++ new ∷ []
    else new ∷ objs

module _ (e : Env) where
  -- A change of the listing that is cached under a key, if one is.
  unfoldable pub change : (List Listed → List Listed) → Bytes → Option (List Listed) → Fs e → Fs e
  change f k none s = s
  change f k (some objs) s = record s { list_cache = e.lists.set s.list_cache k (f objs) }

  unfoldable pub update_cache_obj : Bytes → Listed → Listed → Fs e → Fs e
  unfolding change
  update_cache_obj path old new s =
      change (λ objs. update_obj objs old new) (key e.storage path)
        (e.lists.get s.list_cache (key e.storage path)) s

  unfoldable pub del_cache_obj : Bytes → Listed → Fs e → Fs e
  unfolding change
  del_cache_obj path old s =
      change (λ objs. del_obj objs old) (key e.storage path)
        (e.lists.get s.list_cache (key e.storage path)) s

  unfoldable pub add_cache_obj : Bytes → Listed → Fs e → Fs e
  unfolding change
  add_cache_obj path new s =
      change (λ objs. add_obj objs new) (key e.storage path)
        (e.lists.get s.list_cache (key e.storage path)) s

  unfoldable pub clear_cache : Bytes → Fs e → Fs e
  clear_cache path s = record s { list_cache = e.lists.del s.list_cache (key e.storage path) }
