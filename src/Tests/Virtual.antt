-- ===== src/Tests/Virtual.antt =====
-- The folders that three mounts make at the root.
use xiaoya_qwen.Prelude.{List, [], ◌∷◌, codes, ◌≡◌, refl, In, In-cons, inl}
use xiaoya_qwen.Utils.Path.{fix_and_clean_path, is_sub_path, path_add_separator_suffix}
use xiaoya_qwen.Utils.Balance.{get_actual_mount_path}
use xiaoya_qwen.Go.Sort.{str_lt, sort_by}
use xiaoya_qwen.Go.Strings.{trim_prefix}
use xiaoya_qwen.Model.Storage.{Driver}
use xiaoya_qwen.Model.Objects.{has}
use xiaoya_qwen.Model.Objects.Merge.{names_of}
use xiaoya_qwen.Op.Virtual.{
  get_storage_virtual_files_by_path, virtual_loop, virtual_name, add_name, before_slash, by_order,
  folder, IsNamed, get_storage_virtual_files_by_path-IsNamed,
}
use xiaoya_qwen.Tests.Mounts.{mounted}

abbrev drivers : List Driver
drivers = mounted (codes "/a/b") ∷ mounted (codes "/a/c") ∷ mounted (codes "/d") ∷ []

opened : Unit {0}
unfolding get_storage_virtual_files_by_path virtual_loop virtual_name add_name before_slash by_order
    has sort_by str_lt fix_and_clean_path is_sub_path path_add_separator_suffix
    get_actual_mount_path trim_prefix
opened = tt

folders :
    names_of (get_storage_virtual_files_by_path drivers (codes "/")) ≡ codes "a" ∷ codes "d" ∷ []
unfolding opened
folders = refl

first_folder : In (folder (codes "a") 0) (get_storage_virtual_files_by_path drivers (codes "/"))
unfolding opened
first_folder = inl refl

abbrev IsClean : Driver → Type 0
IsClean v =
    fix_and_clean_path (get_actual_mount_path v.storage.mount_path)
    ≡ get_actual_mount_path v.storage.mount_path

drivers-IsClean : (v : Driver) → In v drivers → IsClean v
unfolding opened
drivers-IsClean =
    In-cons IsClean (mounted (codes "/a/b")) (mounted (codes "/a/c") ∷ mounted (codes "/d") ∷ [])
      refl
      (In-cons IsClean (mounted (codes "/a/c")) (mounted (codes "/d") ∷ []) refl
        (In-cons IsClean (mounted (codes "/d")) [] refl (λ v i. elim i [ ])))

get_storage_virtual_files_by_path-IsNamed_example : IsNamed (codes "/") drivers (codes "a")
get_storage_virtual_files_by_path-IsNamed_example =
    get_storage_virtual_files_by_path-IsNamed drivers (codes "/") (folder (codes "a") 0)
      drivers-IsClean first_folder
