-- ===== src/Fs/Copy/Schedule.antt =====
-- The tasks of a copy between two storages, in any order.

use xiaoya_qwen.Prelude.{ℕ, suc, ◌+◌, List, [], ◌∷◌, ◌++◌, Bytes, Bool, true, false, some, ◌≡◌}
use xiaoya_qwen.Go.Path.{join_paths}
use xiaoya_qwen.Model.Objects.{Obj}
use xiaoya_qwen.Fs.Copy.{Job, Put, Answers, run_job}

-- What is at a path of the source.
mutual
  pub data Tree : Type 0 where
    leaf : Obj → Tree
    folder : Obj → Trees → Tree

  pub data Trees : Type 0 where
    empty : Trees
    and : Tree → Trees → Trees

unfoldable pub obj_of : Tree → Obj
obj_of (leaf o) = o
obj_of (folder o ts) = o

unfoldable pub objs_of : Trees → List Obj
unfolding obj_of
objs_of empty = []
objs_of (and t ts) = obj_of t ∷ objs_of ts

unfoldable mutual
  -- The source answers at a path, and below it, as a tree says, and every file has a stream.
  unfolding obj_of objs_of

  pub Holds : Answers → Bytes → Tree → Type 0
  Holds a src (leaf o) = (a.get src ≡ some o) × (o.is_dir ≡ false) × (a.stream o src ≡ true)
  Holds a src (folder o ts) =
      (a.get src ≡ some o) × (o.is_dir ≡ true) × (a.list src ≡ some (objs_of ts)) × HoldAll a src ts

  pub HoldAll : Answers → Bytes → Trees → Type 0
  HoldAll a src empty = Unit {0}
  HoldAll a src (and t ts) = Holds a (join_paths src (obj_of t).name) t × HoldAll a src ts

unfoldable mutual
  unfolding obj_of

  -- The files of a tree, each with the directory that mirrors its place.
  pub mirror : Bytes → Bytes → Tree → List Put
  mirror src dst (leaf o) = record { obj = o; source = src; directory = dst } ∷ []
  mirror src dst (folder o ts) = mirror_all src (join_paths dst o.name) ts

  pub mirror_all : Bytes → Bytes → Trees → List Put
  mirror_all src dst empty = []
  mirror_all src dst (and t ts) =
      mirror (join_paths src (obj_of t).name) dst t ++ mirror_all src dst ts

unfoldable mutual
  -- The tasks that the copy of a tree takes.
  pub size : Tree → ℕ
  size (leaf o) = 2
  size (folder o ts) = suc (size_all ts)

  pub size_all : Trees → ℕ
  size_all empty = 0
  size_all (and t ts) = size t + size_all ts

-- No context is canceled.
abbrev pub never : ℕ → Bool
never i = false

-- What some tasks have put, how many of them and of those that they submitted have run, in any order, and the tasks
-- that are left.
pub data Runs (a : Answers) (start : List Job) : List Put → ℕ → List Job → Type 0 where
  begins : Runs a start [] 0 start
  runs_one :
      (xs ys : List Job) (j : Job) (ps : List Put) (n : ℕ)
      → Runs a start ps n (xs ++ j ∷ ys)
      → Runs a start
          (ps ++ (run_job a never j).puts)
          (suc n)
          ((xs ++ ys) ++ (run_job a never j).submitted)
