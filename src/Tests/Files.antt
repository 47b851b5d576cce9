-- ===== src/Tests/Files.antt =====
-- The operations of internal/op/fs.go on a driver whose service has one folder.
use xiaoya_qwen.Prelude.{
  ℕ, suc, List, [], ◌∷◌, Bytes, Bool, true, false, none, some, ◌≡◌, refl, codes, beq,
}
use xiaoya_qwen.Prelude.Int.{pos}
use xiaoya_qwen.Model.Objects.{Obj, Listed, Sorter}
use xiaoya_qwen.Model.Objects.Sorting.{sort_files, extract_folder}
use xiaoya_qwen.Go.Path.{join_paths}
use xiaoya_qwen.Utils.Path.{fix_and_clean_path, path_equal}
use xiaoya_qwen.Go.Sort.{str_lt}
use xiaoya_qwen.Op.Files.Monad.{ok}
use xiaoya_qwen.Op.Files.Monad.Returns.{Returns}
use xiaoya_qwen.Op.Files.Env.{Env, Fs, Remote, root_path}
use xiaoya_qwen.Op.Files.Listing.{key, update_obj}
use xiaoya_qwen.Op.Files.Listing.Refinement.{Edit, update, edit}
use xiaoya_qwen.Op.Files.Read.{
  is_not_init, set_path, arrange, keep, list_dir, list_cached, list_with, root_found, root_of,
  find_file, get_listed, get_answered, get_direct, get_loop, get, get_unwrap, list,
}
use xiaoya_qwen.Op.Files.Read.Again.{list-again}
use xiaoya_qwen.Op.Files.Write.Returns.{HasRoot}
use xiaoya_qwen.Op.Files.Upload.{put}
use xiaoya_qwen.Op.Files.Upload.Returns.{operations-Total}
use xiaoya_qwen.Tests.Metas
use xiaoya_qwen.Tests.Metas.{memory}
use xiaoya_qwen.Tests.Mounts.{mounted}

abbrev object : Bytes → Bool → Obj
object n d = record { size = pos 1; name = n; mod_time = 0; is_dir = d; id = n; path = [] }

abbrev named : Bytes → Listed
named n = record { obj = object n false; name = n }

-- The number of calls is the state of the service. Every folder holds a folder "d" and a file "f".
abbrev service : Remote
service = record {
  World = ℕ;
  Upload = Bytes;
  Link = Bytes;
  expires = λ l. true;
  upload_name = λ u. u;
  sets_path = false;
  root_kind = root_path (codes "/");
  get_root = λ w. (ok none, w);
  list = λ dir w. (ok (object (codes "d") true ∷ object (codes "f") false ∷ []), suc w);
  link = λ file ip w. (ok (codes "u"), suc w);
  get = none;
  make_dir = some (λ parent n w. (ok none, suc w));
  move = none;
  rename = none;
  copy = none;
  remove = some (λ o w. (ok tt, suc w));
  put = some (λ parent file old w. (ok none, suc w));
}

abbrev as_listed : Sorter
as_listed = record {
  slice = λ lt os. os;
  slice_stable = λ lt os. os;
  less = str_lt;
  slice-In = λ lt os o. (λ h. h, λ h. h);
  slice_stable-In = λ lt os o. (λ h. h, λ h. h);
}

abbrev cloud : Env
cloud = record {
  remote = service;
  lists = memory;
  links = memory;
  sorter = as_listed;
  map_name = λ n. n;
  storage = record (mounted (codes "/m")) {
    config = record (mounted (codes "/m")).config { no_cache = false };
  };
}

abbrev fresh : Fs cloud
fresh = record { world = 0; list_cache = []; link_cache = [] }

cloud-HasRoot : HasRoot cloud
unfolding HasRoot
cloud-HasRoot w e = cc

put-Returns : Returns (put cloud (codes "/a") (codes "x") false fresh)
put-Returns = (operations-Total cloud cloud-HasRoot).8 (codes "/a") (codes "x") false fresh

operations-Total_example : Returns (get cloud (codes "/d/f") fresh)
operations-Total_example = (operations-Total cloud cloud-HasRoot).0 (codes "/d/f") fresh

opened : Unit {0}
unfolding is_not_init set_path arrange keep list_dir list_cached list_with root_found root_of
    find_file get_listed get_answered get_direct get_loop get get_unwrap list sort_files
    extract_folder key fix_and_clean_path path_equal join_paths Metas.find
opened = tt

abbrev files : List Listed
files = record { obj = object (codes "d") true; name = codes "d" } ∷ named (codes "f") ∷ []

abbrev after_list : Fs cloud
after_list = record { world = 1; list_cache = (codes "/m", some files) ∷ []; link_cache = [] }

listed : list cloud (codes "/") false fresh ≡ some (ok files, after_list)
unfolding opened
listed = refl

list-again_example : list cloud (codes "/") false after_list ≡ some (ok files, after_list)
list-again_example =
    list-again cloud (codes "/") false (record { obj = object (codes "d") true; name = codes "d" })
      (named (codes "f") ∷ []) fresh after_list refl listed

abbrev two_files : List Listed
two_files = named (codes "a") ∷ named (codes "b") ∷ []

abbrev renaming : Edit
renaming = update (named (codes "a")) (named (codes "c"))

renamed_run : edit renaming two_files ≡ named (codes "c") ∷ named (codes "b") ∷ []
unfolding edit update_obj beq
renamed_run = refl
