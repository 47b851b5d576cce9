-- ===== src/Tests/Settings.antt =====
-- Settings over a table that is a list of rows, the last one written first.
use xiaoya_qwen.Prelude.{
  ℕ, zero, suc, ◌≤◌, List, [], ◌∷◌, Bytes, Bool, false, ◌||◌, none, some, ◌≡◌, ◌≢◌, ◌⊎◌, inl, inr,
  refl, ap, codes, beq, beq_iff, if◌then◌else◌, All, Bool-cases, arith,
}
use xiaoya_qwen.Prelude.Int.{ℤ, pos, negsuc, int_eq, int_lt}
use xiaoya_qwen.Go.Sort.{sort_by}
use xiaoya_qwen.Model.Setting.{SettingItem}
use xiaoya_qwen.Op.Settings.{
  SettingDb, Itoa, Hooks, Settings, setting_cache_update, get_setting_item_by_key,
  get_setting_items_in_groups,
}
use xiaoya_qwen.Op.Settings.Coherence.{Coherent}
use xiaoya_qwen.Op.Settings.Fresh.{
  Command, get_key, save_many, get_groups, run, perform, settings-fresh,
}
use xiaoya_qwen.Tests.Metas
use xiaoya_qwen.Tests.Metas.{memory}

abbrev Rows : Type 0
Rows = List SettingItem

find_row : Rows → Bytes → SettingItem ⊎ Bytes
find_row [] k = inr (codes "record not found")
find_row (i ∷ is) k = let rest = find_row is k in if beq i.key k then inl i else rest

find_row-key : (t : Rows) (k : Bytes) (i : SettingItem) → find_row t k ≡ inl i → i.key ≡ k
unfolding find_row
find_row-key [] k i e = cc
find_row-key (j ∷ is) k i e = elim (Bool-cases (beq j.key k)) [
  | inl b ↦
      (let f = rw b at e in
        let same : j ≡ i = cc in cc ((beq_iff j.key k).0 b, ap (λ (x : SettingItem). x.key) same))
  | inr b ↦ find_row-key is k i (rw b at e)
]

has_group : List ℤ → ℤ → Bool
has_group [] g = false
has_group (a ∷ as') g = int_eq a g || has_group as' g

rows_in : Rows → List ℤ → Rows
rows_in [] gs = []
rows_in (i ∷ is) gs = let rest = rows_in is gs in if has_group gs i.group then i ∷ rest else rest

-- A rows' table, whose writes succeed; a deleted key is written without a value.
abbrev rows : SettingDb
rows = record {
  Table = Rows;
  by_key = find_row;
  all = inl;
  public = inl;
  by_group = λ t g. inl (rows_in t (g ∷ []));
  in_groups = λ t gs. inl (rows_in t gs);
  save = λ t i. inl (i ∷ t);
  save_all = λ t is. inr (codes "locked");
  delete = λ t k. inl [];
  by_key-key = find_row-key;
  in_groups-one = λ t g. refl;
}

ones : ℕ → Bytes
ones zero = b'1' ∷ []
ones (suc n) = b'1' ∷ ones n

ones-injective : (a b : ℕ) → ones a ≡ ones b → a ≡ b
unfolding ones
ones-injective zero zero e = refl
ones-injective zero (suc zero) e = cc
ones-injective zero (suc (suc b)) e = cc
ones-injective (suc zero) zero e = cc
ones-injective (suc (suc a)) zero e = cc
ones-injective (suc a) (suc b) e = ap suc (ones-injective a b (cc))

ones-digits : (a : ℕ) → All (λ c. (c ≡ b'-') ⊎ ((b'0' ≤ c) × (c ≤ b'9'))) (ones a)
unfolding ones
ones-digits zero = (inr (omega arith, omega arith), tt)
ones-digits (suc a) = (inr (omega arith, omega arith), ones-digits a)

unary : ℤ → Bytes
unary (pos n) = ones n
unary (negsuc n) = b'-' ∷ ones n

unary-injective : (a b : ℤ) → unary a ≡ unary b → a ≡ b
unfolding unary ones
unary-injective (pos a) (pos b) e = ap pos (ones-injective a b e)
unary-injective (pos zero) (negsuc b) e = cc
unary-injective (pos (suc a)) (negsuc b) e = cc
unary-injective (negsuc a) (pos zero) e = cc
unary-injective (negsuc a) (pos (suc b)) e = cc
unary-injective (negsuc a) (negsuc b) e = ap negsuc (ones-injective a b (cc))

unary-not_empty : (a : ℤ) → unary a ≢ []
unfolding unary ones
unary-not_empty (pos zero) e = cc
unary-not_empty (pos (suc a)) e = cc
unary-not_empty (negsuc a) e = cc

unary-digits : (a : ℤ) → All (λ c. (c ≡ b'-') ⊎ ((b'0' ≤ c) × (c ≤ b'9'))) (unary a)
unfolding unary
unary-digits (pos n) = ones-digits n
unary-digits (negsuc n) = (inl refl, ones-digits n)

abbrev strokes : Itoa
strokes = record {
  itoa = unary;
  itoa-injective = unary-injective;
  itoa-not_empty = unary-not_empty;
  itoa-digits = unary-digits;
}

-- One setting has a hook, which keeps its value in the configuration.
abbrev one_hook : Hooks
one_hook = record {
  Conf = Bytes;
  hook = λ k. if beq k (codes "types") then some (λ i conf. (none, i, i.value)) else none;
}

abbrev item : Bytes → SettingItem
item k = record {
  key = k;
  value = codes "v";
  help = [];
  kind = [];
  options = [];
  group = pos 1;
  flag = pos 3;
}

abbrev empty : Settings rows strokes one_hook memory memory
empty = record { table = item (codes "old") ∷ []; items = []; groups = []; conf = [] }

empty-Coherent : Coherent rows strokes one_hook memory memory empty
unfolding Coherent Metas.find
empty-Coherent = (λ k i e. cc, λ q l e. cc)

-- A setting with a hook is written, and the write of the others fails: the caches are emptied.
abbrev session : List Command
session =
    get_key (codes "types")
    ∷ get_groups (pos 1 ∷ pos 0 ∷ [])
    ∷ save_many (item (codes "types") ∷ item (codes "other") ∷ [])
    ∷ []

settings-fresh_example :
    ((get_setting_item_by_key rows strokes one_hook memory memory
        (codes "types")
        (run rows strokes one_hook memory memory session empty)).0
      ≡ find_row (run rows strokes one_hook memory memory session empty).table (codes "types"))
    × ((get_setting_items_in_groups rows strokes one_hook memory memory
          (pos 1 ∷ [])
          (run rows strokes one_hook memory memory session empty)).0
        ≡ inl (
            rows_in
              (run rows strokes one_hook memory memory session empty).table
              (sort_by int_lt (pos 1 ∷ []))))
settings-fresh_example =
    settings-fresh rows strokes one_hook memory memory session empty (codes "types") (pos 1 ∷ [])
      empty-Coherent

session-run :
    ((get_setting_item_by_key rows strokes one_hook memory memory
        (codes "types")
        (run rows strokes one_hook memory memory session empty)).0
      ≡ inl (item (codes "types")))
unfolding run perform setting_cache_update get_setting_item_by_key find_row rows_in has_group unary
    ones Metas.find beq sort_by
session-run = refl
