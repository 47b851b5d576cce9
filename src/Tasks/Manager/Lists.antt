-- ===== src/Tasks/Manager/Lists.antt =====
-- The functions of pkg/task/manager.go that show tasks. The lists are in the order of the map.
use mathlib.Core.List.{Perm, perm_middle}
use mathlib.Core.List.Perm
use xiaoya_qwen.Prelude.{ℕ, List, [], ◌∷◌, ◌++◌, refl, if◌then◌else◌}
use xiaoya_qwen.Tasks.Task.{
  State, pending, running, succeeded, canceling, canceled, errored, Task, state_eq,
}
use xiaoya_qwen.Tasks.Manager.{Key, Manager, contains}

module _ (k : Key) where
  open k use {K}

  unfoldable values : List (K × ℕ) → (ℕ → Task K) → List (Task K)
  values [] heap = []
  values ((j, a) ∷ ts) heap = heap a ∷ values ts heap

  unfoldable get_all : Manager k → List (Task K)
  unfolding values
  get_all m = values m.tasks m.heap

  unfoldable filter_states : List State → List (Task K) → List (Task K)
  unfolding contains
  filter_states states [] = []
  filter_states states (t ∷ ts) =
      let rest = filter_states states ts in if contains k states t.state then t ∷ rest else rest

  unfoldable get_by_states : List State → Manager k → List (Task K)
  unfolding filter_states get_all
  get_by_states states m = filter_states states (get_all m)

  unfoldable list_undone : Manager k → List (Task K)
  unfolding get_by_states
  list_undone = get_by_states (pending ∷ running ∷ canceling ∷ [])

  unfoldable list_done : Manager k → List (Task K)
  unfolding get_by_states
  list_done = get_by_states (succeeded ∷ canceled ∷ errored ∷ [])

  later :
      (t : Task K) (us ds all : List (Task K)) → Perm (us ++ ds) all → Perm (us ++ t ∷ ds) (t ∷ all)
  later t us ds all p = Perm.trans (perm_middle us ds) (Perm.cons' refl p)

  -- A task is among the undone ones, or among the done ones, by its state.
  split_states :
      (s : State) (t : Task K) (us ds all : List (Task K))
      → Perm (us ++ ds) all
      → Perm
          ((if contains k (pending ∷ running ∷ canceling ∷ []) s then t ∷ us else us)
            ++ (if contains k (succeeded ∷ canceled ∷ errored ∷ []) s then t ∷ ds else ds))
          (t ∷ all)
  unfolding contains state_eq
  split_states pending t us ds all p = Perm.cons' refl p
  split_states running t us ds all p = Perm.cons' refl p
  split_states canceling t us ds all p = Perm.cons' refl p
  split_states succeeded t us ds all p = later t us ds all p
  split_states canceled t us ds all p = later t us ds all p
  split_states errored t us ds all p = later t us ds all p

  filters-Perm :
      (ts : List (Task K))
      → Perm
          (filter_states (pending ∷ running ∷ canceling ∷ []) ts
            ++ filter_states (succeeded ∷ canceled ∷ errored ∷ []) ts)
          ts
  unfolding filter_states
  filters-Perm [] = Perm.refl []
  filters-Perm (t ∷ ts) = split_states t.state t _ _ ts (filters-Perm ts)

  -- ListUndone and ListDone show together, up to the order, what GetAll shows.
  list_undone-list_done : (m : Manager k) → Perm (list_undone m ++ list_done m) (get_all m)
  unfolding list_undone list_done
  list_undone-list_done m = filters-Perm (get_all m)
