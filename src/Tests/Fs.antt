-- ===== src/Tests/Fs.antt =====
-- A folder of a storage, beside a storage that is mounted in it.
use xiaoya_qwen.Prelude.{
  [], ◌∷◌, Bytes, Bool, true, false, Option, some, ◌≡◌, ◌≢◌, ◌⊎◌, refl, codes, beq,
}
use xiaoya_qwen.Prelude.Int.{pos}
use xiaoya_qwen.Go.Strings.{count, trim_prefix}
use xiaoya_qwen.Go.Sort.{sort_by, str_lt}
use xiaoya_qwen.Utils.Path.{fix_and_clean_path, is_sub_path, path_add_separator_suffix, path_equal}
use xiaoya_qwen.Utils.Balance.{get_actual_mount_path}
use xiaoya_qwen.Model.User.{can_see_hides, is_admin, has_bit}
use xiaoya_qwen.Model.Objects.{init_hide_reg, merge, insert_objs, click_obj, hidden, add, has}
use xiaoya_qwen.Op.Storages.{
  get_balanced_storage, get_storages_by_path, consider, slash_count, by_mount_path, balance,
  get_storage_and_actual_path,
}
use xiaoya_qwen.Op.Virtual.{virtual_loop, virtual_name, add_name, before_slash, by_order}
use xiaoya_qwen.Model.User.{User}
use xiaoya_qwen.Model.Meta.{Meta}
use xiaoya_qwen.Model.Objects.{Obj}
use xiaoya_qwen.Op.Files.Monad.{ok}
use xiaoya_qwen.Op.Storages.{StoragesMap}
use xiaoya_qwen.Op.Virtual.{folder, get_storage_virtual_files_by_path}
use xiaoya_qwen.Server.Check.{whether_hide}
use xiaoya_qwen.Fs.{Storages, done, values, hiding, list, list_found, listed, merged}
use xiaoya_qwen.Fs.Hides.{Shows, answers_at, stored_at, list-Shows}
use xiaoya_qwen.Tests.Mounts.{mounted}

abbrev named : Bytes → Obj
named n = record { size = pos 1; name = n; mod_time = 0; is_dir = false; id = n; path = [] }

abbrev storages : Storages
storages = record {
  State = Unit {0};
  Link = Unit {0};
  list = λ d p refresh s. (ok (named (codes "x") ∷ named (codes "y") ∷ []), s);
  get = λ d p s. (ok (named (codes "x")), s);
  link = λ d p ip s. (ok (tt, named (codes "x")), s);
}

abbrev exactly : Bytes → Option (Bytes → Bool)
exactly r = some (λ n. beq n r)

abbrev two_mounts : StoragesMap
two_mounts = (codes "/a", mounted (codes "/a")) ∷ (codes "/a/d", mounted (codes "/a/d")) ∷ []

abbrev visitor : User
visitor = record {
  id = 3;
  username = codes "v";
  password = [];
  base_path = codes "/";
  role = pos 0;
  disabled = false;
  permission = 0;
  otp_secret = [];
  sso_id = [];
}

abbrev hides_x : Meta
hides_x = record {
  id = 1;
  path = codes "/a";
  password = [];
  p_sub = false;
  write = false;
  w_sub = false;
  hide = codes "x";
  h_sub = true;
  readme = [];
  r_sub = false;
}

listed_a :
    (list storages exactly two_mounts visitor (some hides_x) (codes "/a") false [] tt).0
    ≡ done (named (codes "y") ∷ folder (codes "d") 0 ∷ [])
unfolding list beq get_balanced_storage get_storages_by_path sort_by consider is_sub_path
    fix_and_clean_path get_actual_mount_path path_add_separator_suffix slash_count count
    can_see_hides is_admin has_bit path_equal init_hide_reg merge insert_objs click_obj hidden add
    has str_lt by_mount_path balance trim_prefix virtual_loop virtual_name add_name before_slash
    by_order get_storage_and_actual_path get_storage_virtual_files_by_path whether_hide hiding
    list_found listed merged
listed_a = refl

list-Shows_example :
    ((answers_at storages exactly
          (get_storage_and_actual_path two_mounts (codes "/a") []).0
          false
          tt
        ≡ true)
      ⊎ (get_storage_virtual_files_by_path (values two_mounts) (codes "/a") ≢ []))
    × Shows storages exactly
        (hiding storages exactly (whether_hide visitor (some hides_x) (codes "/a")) (some hides_x))
        (stored_at storages exactly
          (get_storage_and_actual_path two_mounts (codes "/a") []).0
          false
          tt)
        (get_storage_virtual_files_by_path (values two_mounts) (codes "/a"))
        (named (codes "y") ∷ folder (codes "d") 0 ∷ [])
list-Shows_example =
    list-Shows storages exactly two_mounts visitor (some hides_x) (codes "/a") false [] tt
      (named (codes "y") ∷ folder (codes "d") 0 ∷ []) listed_a
