-- ===== src/Tasks/Manager.antt =====
-- pkg/task/manager.go. Tasks are shared: the map of the manager and the goroutines hold addresses of one
-- heap. The channel of workers is the number of tokens in it. Each operation of the manager is one step.
pub mod Workers
pub mod Progress
pub mod Stuck
pub mod Running
pub mod Lists
use xiaoya_qwen.Prelude.{
  ℕ, suc, ◌<◌, Bytes, ◌+◌, List, [], ◌∷◌, ◌++◌, Bool, true, false, not, Option, none, some, ◌≡◌,
  ◌==◌, ◌↔◌, if◌then◌else◌,
}
use xiaoya_qwen.Tasks.Task.{
  State, state_eq, pending, running, succeeded, canceling, canceled, errored, Outcome, Callback,
  Task, start, finish, done, cancel, with_cancel_ctx, set_progress, set_status,
}

-- The type parameter K: keys with a test of equality.
pub record Key : Type 1 where
  pub K : Type 0
  pub eq : K → K → Bool
  pub eq_iff : (a b : K) → (eq a b ≡ true) ↔ (a ≡ b)

-- Where a goroutine of `do` stands: before the select, in run, or before it gives the worker back.
pub data Phase : Type 0 where
  waiting working returning : Phase

pub record Thread : Type 0 where
  pub address : ℕ
  pub phase : Phase

pub data ManagerError : Type 0 where
  task_not_found task_running : ManagerError

module _ (k : Key) where
  open k use {K, eq}

  pub record Manager : Type 0 where
    pub cur_id : K
    pub update_id : Option (K → K)
    pub max_worker : ℕ
    pub workers : ℕ
    pub tasks : List (K × ℕ)
    pub heap : ℕ → Task K
    pub next : ℕ
    pub threads : List Thread

  unfoldable pub put : (ℕ → Task K) → ℕ → Task K → ℕ → Task K
  put heap a t b = if a == b then t else heap b

  unfoldable pub load : List (K × ℕ) → K → Option ℕ
  load [] tid = none
  load ((j, a) ∷ ts) tid = if eq j tid then some a else load ts tid

  unfoldable pub delete : List (K × ℕ) → K → List (K × ℕ)
  delete [] tid = []
  delete ((j, a) ∷ ts) tid = let rest = delete ts tid in if eq j tid then rest else (j, a) ∷ rest

  -- do, for the task at an address
  unfoldable pub spawn : ℕ → Manager → Manager
  spawn a m = record m { threads = record { address = a; phase = waiting } ∷ m.threads }

  next_id : Option (K → K) → K → K
  next_id none cur = cur
  next_id (some f) cur = f cur

  task_id : Option (K → K) → K → K → K
  task_id none cur own = own
  task_id (some f) cur own = f cur

  -- Submit, of a task that is not in the heap yet
  unfoldable pub submit : Task K → Manager → K × Manager
  unfolding next_id task_id spawn
  submit t m =
      let id : K = task_id m.update_id m.cur_id t.id in
      (
        id,
        spawn m.next (record m {
          cur_id = next_id m.update_id m.cur_id;
          tasks = (id, m.next) ∷ delete m.tasks id;
          heap = put m.heap m.next (record t { id = id });
          next = m.next + 1;
        }),
      )

  unfoldable pub get : Manager → K → Option (Task K)
  get m tid = elim (load m.tasks tid) [ none ↦ none | some a ↦ some (m.heap a) ]

  -- the operations on what `load` returned
  retry_at : Option ℕ → Manager → Option ManagerError × Manager
  retry_at none m = (some task_not_found, m)
  retry_at (some a) m = (none, spawn a m)

  unfoldable pub retry : K → Manager → Option ManagerError × Manager
  unfolding retry_at
  retry tid m = retry_at (load m.tasks tid) m

  cancel_at : Option ℕ → Manager → Option ManagerError × Manager
  cancel_at none m = (some task_not_found, m)
  cancel_at (some a) m = (none, record m { heap = put m.heap a (cancel (m.heap a)) })

  unfoldable pub cancel_task : K → Manager → Option ManagerError × Manager
  unfolding cancel_at
  cancel_task tid m = cancel_at (load m.tasks tid) m

  remove_at : K → Option ℕ → Manager → Option ManagerError × Manager
  remove_at tid none m = (some task_not_found, m)
  remove_at tid (some a) m =
      if not (done (m.heap a))
      then (some task_running, m)
      else (none, record m { tasks = delete m.tasks tid })

  unfoldable pub remove : K → Manager → Option ManagerError × Manager
  unfolding remove_at
  remove tid m = remove_at tid (load m.tasks tid) m

  unfoldable pub remove_all : Manager → Manager
  remove_all m = record m { tasks = [] }

  contains : List State → State → Bool
  contains [] s = false
  contains (x ∷ xs) s = let rest = contains xs s in if state_eq x s then true else rest

  remove_each : List State → List (K × ℕ) → Manager → Manager
  unfolding contains
  remove_each states [] m = m
  remove_each states ((j, a) ∷ ts) m =
      remove_each states ts
        (if contains states (m.heap a).state then (remove (m.heap a).id m).1 else m)

  unfoldable pub remove_by_states : List State → Manager → Manager
  unfolding remove_each
  remove_by_states states m = remove_each states m.tasks m

  unfoldable pub clear_done : Manager → Manager
  clear_done = remove_by_states (succeeded ∷ canceled ∷ errored ∷ [])

  -- `zero_id` is the zero value of K, at the address of no task there is a blank one
  unfoldable pub new_manager : ℕ → Option (K → K) → K → Manager
  new_manager max_worker update_id zero_id = record {
    cur_id = zero_id;
    update_id = update_id;
    max_worker = max_worker;
    workers = max_worker;
    tasks = [];
    heap = λ a. record {
      id = zero_id;
      name = [];
      state = pending;
      status = [];
      progress = 0;
      has_error = false;
      ctx_canceled = false;
    };
    next = 0;
    threads = [];
  }

  -- One step: an operation of the manager, or a goroutine that goes on.
  pub data Step : Manager → Manager → Type 0 where
    submits : (m : Manager) (t : Task K) → Step m (submit (with_cancel_ctx t) m).1
    retries : (m : Manager) (tid : K) → Step m (retry tid m).1
    cancels : (m : Manager) (tid : K) → Step m (cancel_task tid m).1
    removes : (m : Manager) (tid : K) → Step m (remove tid m).1
    removes_states : (m : Manager) (states : List State) → Step m (remove_by_states states m)
    removes_all : (m : Manager) → Step m (remove_all m)
    -- case <-tm.workerC
    takes :
        (m : Manager) (xs ys : List Thread) (a n : ℕ)
        → m.threads ≡ xs ++ record { address = a; phase = waiting } ∷ ys
        → m.workers ≡ suc n
        → Step m (record m {
          workers = n;
          heap = put m.heap a (start (m.heap a));
          threads = xs ++ record { address = a; phase = working } ∷ ys;
        })
    -- case <-task.Ctx.Done()
    quits :
        (m : Manager) (xs ys : List Thread) (a : ℕ)
        → m.threads ≡ xs ++ record { address = a; phase = waiting } ∷ ys
        → (m.heap a).ctx_canceled ≡ true
        → Step m (record m { threads = xs ++ ys })
    finishes :
        (m : Manager) (xs ys : List Thread) (a : ℕ) (o : Outcome) (after : Callback)
        → m.threads ≡ xs ++ record { address = a; phase = working } ∷ ys
        → Step m (record m {
          heap = put m.heap a (finish o after (m.heap a));
          threads = xs ++ record { address = a; phase = returning } ∷ ys;
        })
    -- what the function reports while it runs
    reports :
        (m : Manager) (xs ys : List Thread) (a percentage : ℕ) (status : Bytes)
        → m.threads ≡ xs ++ record { address = a; phase = working } ∷ ys
        → Step m (record m {
          heap = put m.heap a (set_progress percentage (set_status status (m.heap a)));
        })
    -- tm.workerC <- struct{}{}
    gives_back :
        (m : Manager) (xs ys : List Thread) (a : ℕ)
        → m.threads ≡ xs ++ record { address = a; phase = returning } ∷ ys
        → m.workers < m.max_worker
        → Step m (record m { workers = m.workers + 1; threads = xs ++ ys })

  -- What a manager comes to in steps.
  pub data Reaches (m : Manager) : Manager → Type 0 where
    stays : Reaches m m
    goes_on : (m' m'' : Manager) → Reaches m m' → Step m' m'' → Reaches m m''
