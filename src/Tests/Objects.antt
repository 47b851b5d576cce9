-- ===== src/Tests/Objects.antt =====
-- Two listings that share a name.
use xiaoya_qwen.Prelude.{List, [], ◌∷◌, Bytes, Bool, false, codes, beq, ◌≡◌, refl}
use xiaoya_qwen.Prelude.Int.{pos}
use xiaoya_qwen.Model.Objects.{Obj, has, add, hidden, click_obj, insert_objs, merge}
use xiaoya_qwen.Model.Objects.Merge.{names_of}

abbrev pub file : Bytes → Obj
file n = record { size = pos 1; name = n; mod_time = 0; is_dir = false; id = []; path = [] }

abbrev hide_x : List (Bytes → Bool)
hide_x = beq (codes "x") ∷ []

abbrev stored : List Obj
stored = file (codes "a") ∷ file (codes "x") ∷ []

abbrev mounted_there : List Obj
mounted_there = file (codes "a") ∷ file (codes "b") ∷ []

merged :
    names_of (merge (record { regs = hide_x; set = [] }) stored mounted_there).0
    ≡ codes "a" ∷ codes "b" ∷ []
unfolding merge insert_objs click_obj hidden add has beq
merged = refl
