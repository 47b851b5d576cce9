-- ===== src/Tests/Metas.antt =====
-- Metas over a table and a cache that are association lists.
use xiaoya_qwen.Prelude.{
  ℕ, List, [], ◌∷◌, Bytes, true, false, Option, none, some, ◌≡◌, ◌≢◌, refl, sym, ◌∙◌, beq, beq_iff,
  beq-ne, beq_refl, ◌==◌, if◌then◌else◌, codes, arith, inr,
}
use xiaoya_qwen.Utils.Path.{fix_and_clean_path}
use xiaoya_qwen.Utils.Path.Clean.{names}
use xiaoya_qwen.Model.Meta.{Meta}
use xiaoya_qwen.Op.Cache.{Cache}
use xiaoya_qwen.Op.Metas.{
  Query, row, no_row, MetaDb, MetaResult, meta_not_found, Metas, get_meta_by_path, get_nearest_meta,
  update_meta, delete_meta_by_id,
}
use xiaoya_qwen.Op.Metas.Coherence.{Coherent, reading, update_meta-stale}
use xiaoya_qwen.Op.Metas.Fresh.{Reaches, stays, delete_then, update_then, get_meta_by_path-fresh}
use xiaoya_qwen.Op.Metas.Nearest.{IsNearest, get_nearest_meta-IsNearest}

module _ {V : Type 0} where
  unfoldable pub find : List (Bytes × Option V) → Bytes → Option V
  find [] k = none
  find ((j, v) ∷ s) k = if beq j k then v else find s k

  pub find-put :
      (s : List (Bytes × Option V)) (k j : Bytes) (v : Option V)
      → find ((k, v) ∷ s) j ≡ (if beq k j then v else find s j)
  unfolding find
  find-put s k j v = refl

  pub find-nil : (k : Bytes) → find [] k ≡ none
  unfolding find
  find-nil k = refl

-- A cache is the list of its writes, the last one first; a deleted entry is written as `none`.
abbrev pub memory : {V : Type 0} → Cache V
memory {V} = record {
  Store = List (Bytes × Option V);
  get = find;
  set = λ s k v. (k, some v) ∷ s;
  del = λ s k. (k, none) ∷ s;
  get-set = λ s k j v. find-put s k j (some v);
  get-del = λ s k j. find-put s k j none;
  clear = λ s. [];
  get-clear = λ s k. find-nil k;
}

-- A table with one row at most, which refuses to create a second one or to save a row that is not there.
abbrev one_row : Option Meta → Bytes → Query
one_row none p = no_row
one_row (some m) p = if beq m.path p then row m else no_row

abbrev one_id : Option Meta → ℕ → Query
one_id none i = no_row
one_id (some m) i = if m.id == i then row m else no_row

abbrev save_one : Option Meta → Meta → Option (Option Meta)
save_one none u = none
save_one (some m) u = if m.id == u.id then some (some u) else none

abbrev create_one : Option Meta → Meta → Option (Option Meta)
create_one none u = some (some u)
create_one (some m) u = none

abbrev delete_one : Option Meta → ℕ → Option (Option Meta)
delete_one none i = some none
delete_one (some m) i = if m.id == i then some none else some (some m)

saved : (t t' : Option Meta) (m : Meta) → save_one t m ≡ some t' → one_row t' m.path ≡ row m
saved none t' m h = cc
saved (some o) none m h = ground arith
saved (some o) (some q) m h = let e : q ≡ m = ground arith in rw e (ground (arith, beq_refl m.path))

saved_other :
    (t t' : Option Meta) (m old : Meta) (p : Bytes)
    → save_one t m ≡ some t'
    → one_id t m.id ≡ row old
    → p ≢ m.path
    → p ≢ old.path
    → one_row t' p ≡ one_row t p
saved_other none t' m old p h i n k = cc
saved_other (some o) none m old p h i n k = ground arith
saved_other (some o) (some q) m old p h i n k =
    let e : q ≡ m = ground arith in
    let f : o ≡ old = ground arith in
    rw (e, f) (ground (arith, beq_iff m.path p, beq_iff old.path p))

created_other :
    (t t' : Option Meta) (m : Meta) (p : Bytes)
    → create_one t m ≡ some t'
    → p ≢ m.path
    → one_row t' p ≡ one_row t p
created_other none none m p h n = refl
created_other none (some q) m p h n =
    let e : m ≡ q = cc in rw (← e) (ground (arith, beq_iff m.path p))
created_other (some o) t' m p h n = cc

deleted_other :
    (t t' : Option Meta) (old : Meta) (id : ℕ) (p : Bytes)
    → delete_one t id ≡ some t'
    → one_id t id ≡ row old
    → p ≢ old.path
    → one_row t' p ≡ one_row t p
deleted_other none t' old id p h i n = cc
deleted_other (some o) (some q) old id p h i n = ground arith
deleted_other (some o) none old id p h i n =
    let f : o ≡ old = ground arith in rw f (ground (arith, beq_iff old.path p))

abbrev single : MetaDb
single = record {
  Table = Option Meta;
  by_path = one_row;
  by_id = one_id;
  save = save_one;
  create = create_one;
  delete = delete_one;
  by_path-save = saved;
  by_path-save_other = saved_other;
  by_path-create_other = created_other;
  by_path-delete_other = deleted_other;
}

abbrev secret_at : Bytes → Meta
secret_at p = record {
  id = 1;
  path = p;
  password = codes "pw";
  p_sub = true;
  write = false;
  w_sub = false;
  hide = [];
  h_sub = false;
  readme = [];
  r_sub = false;
}

abbrev fresh : Metas single memory
fresh = record { table = some (secret_at (codes "/a")); cache = [] }

fresh-Coherent : Coherent single memory fresh
unfolding Coherent find
fresh-Coherent p v h = cc

get_nearest_meta-IsNearest_example :
    (r : MetaResult × Metas single memory) × (get_nearest_meta single memory fresh
        (codes "/a/b/../c")
      ≡ some r)
    × IsNearest single memory fresh (names (codes "/a/b/../c")) r
get_nearest_meta-IsNearest_example =
    get_nearest_meta-IsNearest single memory fresh (codes "/a/b/../c") fresh-Coherent

not_cached : (p : Bytes) → find fresh.cache p ≡ none
unfolding find
not_cached p = refl

-- A meta is moved and then deleted.
abbrev moved : Metas single memory
moved = (update_meta single memory fresh (secret_at (codes "/b"))).1

abbrev ended : Metas single memory
ended = (delete_meta_by_id single memory moved 1).1

session_Reaches : Reaches single memory fresh ended
session_Reaches =
    update_then (secret_at (codes "/b")) fresh ended
      (λ old h. inr (not_cached (fix_and_clean_path (codes "/b"))))
      (delete_then 1 moved ended (stays ended))

get_meta_by_path-fresh_example :
    Coherent single memory ended
    × ((get_meta_by_path single memory ended (codes "/b")).0
        ≡ reading (one_row ended.table (fix_and_clean_path (codes "/b"))))
get_meta_by_path-fresh_example =
    get_meta_by_path-fresh single memory fresh ended (codes "/b") fresh-Coherent session_Reaches

-- A lookup of "/b" has found nothing there.
abbrev looked_up : Metas single memory
looked_up = record { table = some (secret_at (codes "/a")); cache = (codes "/b", some none) ∷ [] }

b_is_clean : fix_and_clean_path (codes "/b") ≡ codes "/b"
unfolding fix_and_clean_path beq
b_is_clean = refl

b_is_cached : find looked_up.cache (fix_and_clean_path (codes "/b")) ≡ some none
unfolding find
b_is_cached = rw b_is_clean (unfold beq in refl)

a_is_not_b : fix_and_clean_path (codes "/b") ≢ codes "/a"
a_is_not_b e = beq-ne (codes "/b") (codes "/a") (unfold beq in refl) (sym b_is_clean ∙ e)

update_meta-stale_example :
    ((update_meta single memory looked_up (secret_at (codes "/b"))).0 ≡ true)
    × (one_row
          (update_meta single memory looked_up (secret_at (codes "/b"))).1.table
          (fix_and_clean_path (codes "/b"))
        ≡ row (record (secret_at (codes "/b")) { path = fix_and_clean_path (codes "/b") }))
    × ((get_meta_by_path single memory
          (update_meta single memory looked_up (secret_at (codes "/b"))).1
          (codes "/b")).0
        ≡ meta_not_found)
update_meta-stale_example =
    update_meta-stale single memory looked_up (secret_at (codes "/b")) (secret_at (codes "/a"))
      (some (secret_at (fix_and_clean_path (codes "/b")))) refl a_is_not_b b_is_cached refl
