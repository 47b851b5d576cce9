-- ===== src/Model/Objects/Sorting.antt =====
-- internal/model/obj.go: SortFiles and ExtractFolder.
use xiaoya_qwen.Prelude.{
  List, [], Bytes, Bool, false, not, ◌||◌, beq, ltb, codes, if◌then◌else◌, ◌↔◌, In, Bool-cases, inl,
  inr,
}
use xiaoya_qwen.Prelude.Int.{int_lt}
use xiaoya_qwen.Model.Objects.{Listed, Sorter}

module _ (sorter : Sorter) where
  -- the function handed to sort.Slice
  unfoldable pub file_less : Bytes → Bytes → Listed → Listed → Bool
  file_less order_by order_direction a b =
      let desc = beq order_direction (codes "desc") in
      if beq order_by (codes "name")
      then if desc then not (sorter.less a.name b.name) else sorter.less a.name b.name
      else if beq order_by (codes "size")
      then if desc then not (int_lt a.obj.size b.obj.size) else not (int_lt b.obj.size a.obj.size)
      else if beq order_by (codes "modified")
      then if desc then ltb b.obj.mod_time a.obj.mod_time else ltb a.obj.mod_time b.obj.mod_time
      else false

  unfoldable pub sort_files : Bytes → Bytes → List Listed → List Listed
  sort_files order_by order_direction objs =
      if beq order_by [] then objs else sorter.slice (file_less order_by order_direction) objs

  -- the function handed to sort.SliceStable
  unfoldable pub folder_less : Bool → Listed → Listed → Bool
  folder_less front a b =
      if a.obj.is_dir || b.obj.is_dir
      then if not a.obj.is_dir then not front else if not b.obj.is_dir then front else false
      else false

  unfoldable pub extract_folder : Bytes → List Listed → List Listed
  extract_folder folder objs =
      if beq folder []
      then objs
      else sorter.slice_stable (folder_less (beq folder (codes "front"))) objs

  pub sort_files-In :
      (order_by order_direction : Bytes) (objs : List Listed) (o : Listed)
      → In o (sort_files order_by order_direction objs) ↔ In o objs
  unfolding sort_files
  sort_files-In order_by order_direction objs o = elim (Bool-cases (beq order_by [])) [
    | inl e ↦ rw e ((λ i. i, λ i. i))
    | inr e ↦ rw e (sorter.slice-In (file_less order_by order_direction) objs o)
  ]

  pub extract_folder-In :
      (folder : Bytes) (objs : List Listed) (o : Listed)
      → In o (extract_folder folder objs) ↔ In o objs
  unfolding extract_folder
  extract_folder-In folder objs o = elim (Bool-cases (beq folder [])) [
    | inl e ↦ rw e ((λ i. i, λ i. i))
    | inr e ↦ rw e (sorter.slice_stable-In (folder_less (beq folder (codes "front"))) objs o)
  ]
