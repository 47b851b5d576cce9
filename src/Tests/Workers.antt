-- ===== src/Tests/Workers.antt =====
-- A manager of two workers, its keys natural numbers.
use xiaoya_qwen.Prelude.{
  In, ℕ, ◌+◌, ◌<◌, [], ◌∷◌, true, false, some, ◌≡◌, refl, ◌==◌, ◌↔◌, arith, codes, ◌≢◌, ◌⊎◌,
}
use xiaoya_qwen.Tasks.Task.{
  running, pending, errored, Task, returns_error, called, start, finish, with_cancel_ctx,
}
use xiaoya_qwen.Tasks.Manager.{
  Key, Manager, working, returning, new_manager, submit, spawn, put, load, delete, remove,
  cancel_task, task_running, submits, takes, finishes, Reaches, stays, goes_on,
}
use xiaoya_qwen.Tasks.Manager.Workers.{held}
use xiaoya_qwen.Tasks.Manager.Progress.{Runs, new_manager-drains}
use xiaoya_qwen.Tasks.Manager.Running.{runner, new_manager-running}
use xiaoya_qwen.Tasks.Manager.Stuck.{IsStuck, cancel_task-IsStuck}

same_number : (a b : ℕ) → ((a == b) ≡ true) ↔ (a ≡ b)
same_number a b = ((λ h. ground arith), λ h. ground arith)

abbrev numbers : Key
numbers = record { K = ℕ; eq = λ a b. a == b; eq_iff = same_number }

abbrev job : Task ℕ
job = record {
  id = 0;
  name = codes "copy";
  state = pending;
  status = [];
  progress = 0;
  has_error = false;
  ctx_canceled = false;
}

abbrev made : Manager numbers
made = new_manager numbers 2 (some (λ n. n + 1)) 0

-- A task is submitted, gets a worker, fails, and its goroutine gives the worker back.
abbrev submitted : Manager numbers
submitted = (submit numbers (with_cancel_ctx job) made).1

abbrev taken : Manager numbers
taken = record submitted {
  workers = 1;
  heap = put numbers submitted.heap 0 (start (submitted.heap 0));
  threads = record { address = 0; phase = working } ∷ [];
}

abbrev failed : Manager numbers
failed = record taken {
  heap = put numbers taken.heap 0 (finish returns_error called (taken.heap 0));
  threads = record { address = 0; phase = returning } ∷ [];
}

abbrev ended : Manager numbers
ended = record failed { workers = failed.workers + 1; threads = [] }

-- What these managers compute with.
opened : Unit {0}
unfolding new_manager submit spawn put load start finish with_cancel_ctx delete
opened = tt

failed-Reaches : Reaches numbers made failed
unfolding opened
failed-Reaches =
    goes_on taken failed
      (goes_on submitted taken (goes_on made submitted stays (submits made job))
        (takes submitted [] [] 0 1 refl refl))
      (finishes taken [] [] 0 returns_error called refl)

ended_entry : load numbers ended.tasks 1 ≡ some 0
unfolding opened
ended_entry = refl

ended_errored : (ended.heap 0).state ≡ errored
unfolding opened
ended_errored = refl

ended_allocated : 0 < ended.next
unfolding opened
ended_allocated = omega arith

cancel_task-IsStuck_example :
    IsStuck numbers 0 (cancel_task numbers 1 ended).1
    × ((remove numbers 1 (cancel_task numbers 1 ended).1).0 ≡ some task_running)
cancel_task-IsStuck_example =
    cancel_task-IsStuck numbers 0 ended 1 ended_entry ended_errored tt ended_allocated

abbrev asked : Manager numbers
asked = (cancel_task numbers 1 ended).1

taken-Reaches : Reaches numbers made taken
unfolding opened
taken-Reaches =
    goes_on submitted taken (goes_on made submitted stays (submits made job))
      (takes submitted [] [] 0 1 refl refl)

new_manager-running_example :
    (taken.workers + held taken.threads ≡ 2)
    × (((taken.heap 0).state ≢ running) ⊎ In (runner 0) taken.threads)
new_manager-running_example =
    new_manager-running numbers 2 (some (λ n. n + 1)) 0 taken 0 taken-Reaches

new_manager-drains_example :
    (m' : Manager numbers) × Runs numbers (λ a. returns_error) (λ a. called) taken m'
    × (m'.threads ≡ [])
    × (m'.workers ≡ 2)
new_manager-drains_example =
    new_manager-drains numbers (λ a. returns_error) (λ a. called) 2 (some (λ n. n + 1)) 0 taken
      taken-Reaches (omega arith)
