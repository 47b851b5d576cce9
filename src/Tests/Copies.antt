-- ===== src/Tests/Copies.antt =====
-- A folder with one file, copied to another storage, and uploads.
use xiaoya_qwen.Prelude.{ℕ, ◌+◌, ◌==◌, ◌⊎◌}
use xiaoya_qwen.Op.Storages.{StoragesMap}
use xiaoya_qwen.Fs.Changes.{Changes, put_directly}
use xiaoya_qwen.Fs.Changes.Uploads.{kept, run_task, put_as_task-put_directly}
use xiaoya_qwen.Tests.Mounts.{mounted}
use mathlib.Core.List.{Perm}
use xiaoya_qwen.Prelude.{
  ◌≤◌, List, [], ◌∷◌, true, false, some, none, ◌≡◌, ◌↔◌, refl, codes, beq, if◌then◌else◌,
}
use xiaoya_qwen.Prelude.Int.{pos}
use xiaoya_qwen.Go.Path.{join_paths}
use xiaoya_qwen.Model.Objects.{Obj}
use xiaoya_qwen.Fs.Copy.{Job, between, file, Put, Answers, run_job}
use xiaoya_qwen.Fs.Copy.Schedule.{
  Tree, leaf, folder, empty, and, Holds, mirror, size, Runs, begins, runs_one,
}
use xiaoya_qwen.Fs.Copy.Mirrors.{copies-mirror}

abbrev pub album : Obj
album = record { size = pos 0; name = codes "a"; mod_time = 0; is_dir = true; id = []; path = [] }

abbrev pub photo : Obj
photo = record { size = pos 7; name = codes "f"; mod_time = 0; is_dir = false; id = []; path = [] }

abbrev shelf : Tree
shelf = folder album (and (leaf photo) empty)

abbrev disk : Answers
disk = record {
  get = λ p. if beq p (codes "/a") then some album else some photo;
  list = λ p. some (photo ∷ []);
  stream = λ o p. true;
  put = λ p. true;
}

abbrev no_job : List Job
no_job = []

abbrev put_photo : Put
put_photo = record { obj = photo; source = codes "/a/f"; directory = codes "/b/a" }

shelf-Holds : Holds disk (codes "/a") shelf
unfolding Holds join_paths beq
shelf-Holds = (refl, refl, refl, ((refl, refl, refl), tt))

one_run :
    Runs disk
      (between (codes "/a") (codes "/b") ∷ [])
      []
      1
      (between (codes "/a/f") (codes "/b/a") ∷ [])
unfolding run_job join_paths beq
one_run = runs_one [] [] (between (codes "/a") (codes "/b")) [] 0 begins

two_run :
    Runs disk
      (between (codes "/a") (codes "/b") ∷ [])
      []
      2
      (file (codes "/a/f") (codes "/b/a") ∷ [])
unfolding run_job join_paths beq
two_run = runs_one [] [] (between (codes "/a/f") (codes "/b/a")) [] 1 one_run

three_run : Runs disk (between (codes "/a") (codes "/b") ∷ []) (put_photo ∷ []) 3 []
unfolding run_job join_paths beq
three_run = runs_one [] [] (file (codes "/a/f") (codes "/b/a")) [] 2 two_run

copies-mirror_example :
    (3 ≤ size shelf)
    × ((no_job ≡ []) ↔ (3 ≡ size shelf))
    × (no_job ≡ [] → Perm (put_photo ∷ []) (mirror (codes "/a") (codes "/b") shelf))
copies-mirror_example =
    copies-mirror disk (codes "/a") (codes "/b") shelf (put_photo ∷ []) 3 [] shelf-Holds three_run

-- Storages whose state counts the uploads, where an odd file has to be stored and is then one more.
abbrev uploading : Changes
uploading = record {
  State = ℕ;
  File = ℕ;
  Args = ℕ;
  make_dir = λ d p l s. (true, s);
  move = λ d p q l s. (true, s);
  rename = λ d p n l s. (true, s);
  remove = λ d p s. (true, s);
  put = λ d p file l s. (true, s + file);
  other = λ d p args s. (true, s);
  clear_cache = λ d p s. s;
  need_store = λ file. file == 3;
  create_temp_file = λ file. some (file + 1);
}

abbrev root_only : StoragesMap
root_only = (codes "/", mounted (codes "/")) ∷ []

put_as_task-put_directly_example :
    ((f : ℕ) × (kept uploading 3 ≡ some f)
      × (run_task uploading root_only (codes "/a") 3 [] 5
          ≡ put_directly uploading root_only (codes "/a") f true [] 5))
    ⊎ ((kept uploading 3 ≡ none) × ((run_task uploading root_only (codes "/a") 3 [] 5).1 ≡ 5))
put_as_task-put_directly_example = put_as_task-put_directly uploading root_only (codes "/a") 3 [] 5
