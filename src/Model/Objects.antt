-- ===== src/Model/Objects.antt =====
-- internal/model/obj.go: the objects of a listing, and ObjMerge. An object of the interface Obj is what its
-- methods return.
pub mod Merge
pub mod Sorting
use xiaoya_qwen.Prelude.{
  In, ◌↔◌, ℕ, List, [], ◌∷◌, ◌++◌, Bytes, Bool, true, false, Option, none, some, beq, if◌then◌else◌,
}
use xiaoya_qwen.Prelude.Int.{ℤ}
use xiaoya_qwen.Go.Strings.{split}

pub record Obj : Type 0 where
  pub size : ℤ
  pub name : Bytes
  pub mod_time : ℕ
  pub is_dir : Bool
  pub id : Bytes
  pub path : Bytes

-- An ObjWrapName: an object with the name that it is shown under.
pub record Listed : Type 0 where
  pub obj : Obj
  pub name : Bytes

-- sort.Slice and sort.SliceStable, and natural.Less. A sort keeps the elements.
pub record Sorter : Type 0 where
  pub slice : (Listed → Listed → Bool) → List Listed → List Listed
  pub slice_stable : (Listed → Listed → Bool) → List Listed → List Listed
  pub less : Bytes → Bytes → Bool
  pub slice-In :
      (lt : Listed → Listed → Bool) (os : List Listed) (o : Listed) → In o (slice lt os) ↔ In o os
  pub slice_stable-In :
      (lt : Listed → Listed → Bool) (os : List Listed) (o : Listed)
      → In o (slice_stable lt os) ↔ In o os

-- A compiled regular expression is a test on texts.
pub record ObjMerge : Type 0 where
  pub regs : List (Bytes → Bool)
  pub set : List Bytes

abbrev pub new_obj_merge : ObjMerge
new_obj_merge = record { regs = []; set = [] }

unfoldable pub has : List Bytes → Bytes → Bool
has [] n = false
has (x ∷ xs) n = let rest = has xs n in if beq x n then true else rest

-- set.Add: whether the name is new, and the set with it
unfoldable pub add : List Bytes → Bytes → Bool × List Bytes
unfolding has
add set n = if has set n then (false, set) else (true, set ++ n ∷ [])

unfoldable pub hidden : List (Bytes → Bool) → Bytes → Bool
hidden [] name = false
hidden (reg ∷ regs) name = let rest = hidden regs name in if reg name then true else rest

-- clickObj
unfoldable pub click_obj : ObjMerge → Obj → Bool × ObjMerge
unfolding hidden add
click_obj om obj =
    if hidden om.regs obj.name
    then (false, om)
    else ((add om.set obj.name).0, record om { set = (add om.set obj.name).1 })

unfoldable pub insert_objs : ObjMerge → List Obj → List Obj → List Obj × ObjMerge
insert_objs om objs [] = (objs, om)
insert_objs om objs (obj ∷ objs_) =
    let clicked = click_obj om obj in
    insert_objs clicked.1 (if clicked.0 then objs ++ obj ∷ [] else objs) objs_

unfoldable pub merge : ObjMerge → List Obj → List Obj → List Obj × ObjMerge
merge om objs objs_ = let first = insert_objs om [] objs in insert_objs first.1 first.0 objs_

compile_all : (Bytes → Option (Bytes → Bool)) → List Bytes → Option (List (Bytes → Bool))
compile_all compile [] = some []
compile_all compile (r ∷ rs) =
    let rest = compile_all compile rs in
    elim (compile r) [
      | none ↦ none
      | some reg ↦ elim rest [ none ↦ none | some regs ↦ some (reg ∷ regs) ]
    ]

-- InitHideReg; `none`: MustCompile panics
unfoldable pub init_hide_reg : (Bytes → Option (Bytes → Bool)) → ObjMerge → Bytes → Option ObjMerge
unfolding compile_all
init_hide_reg compile om hides = elim (compile_all compile (split b'\n' hides)) [
  | none ↦ none
  | some regs ↦ some (record om { regs = regs })
]

unfoldable pub reset : ObjMerge → ObjMerge
reset om = record om { set = [] }
