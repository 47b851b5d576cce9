-- ===== src/Tasks/Task.antt =====
-- pkg/task/task.go. Of the context, whether it is canceled; of an error, whether there is one.
use xiaoya_qwen.Prelude.{ℕ, Bool, true, false, ◌||◌, if◌then◌else◌, Bytes}

pub data State : Type 0 where
  pending running succeeded canceling canceled errored : State

unfoldable pub state_eq : State → State → Bool
state_eq pending pending = true
state_eq running running = true
state_eq succeeded succeeded = true
state_eq canceling canceling = true
state_eq canceled canceled = true
state_eq errored errored = true
state_eq _ _ = false

-- What the task's function does in the end, and then its callback (a task without one: `called`).
pub data Outcome : Type 0 where
  returns_nil returns_error panics : Outcome

pub data Callback : Type 0 where
  called callback_panics : Callback

pub record Task (K : Type 0) : Type 0 where
  pub id : K
  pub name : Bytes
  pub state : State
  pub status : Bytes
  pub progress : ℕ
  pub has_error : Bool
  pub ctx_canceled : Bool

module _ {K : Type 0} where
  unfoldable pub set_status : Bytes → Task K → Task K
  set_status status t = record t { status = status }

  unfoldable pub set_progress : ℕ → Task K → Task K
  set_progress percentage t = record t { progress = percentage }

  -- run, until the function is called
  unfoldable pub start : Task K → Task K
  start t = record t { state = running }

  after_callback : Task K → Callback → Task K
  after_callback t called = t
  after_callback t callback_panics = record t { state = errored; has_error = true }

  -- run, from the return of the function on
  unfoldable pub finish : Outcome → Callback → Task K → Task K
  unfolding after_callback set_progress
  finish panics after t = record t { state = errored; has_error = true }
  finish returns_error after t = record t {
    state = if t.ctx_canceled then canceled else errored;
    has_error = true;
  }
  finish returns_nil after t =
      if t.ctx_canceled
      then record t { state = canceled; has_error = false }
      else after_callback (set_progress 100 (record t { state = succeeded; has_error = false }))
          after

  unfoldable pub done : Task K → Bool
  done t = state_eq t.state succeeded || state_eq t.state canceled || state_eq t.state errored

  -- Cancel, of a task that has a cancel function
  unfoldable pub cancel : Task K → Task K
  cancel t =
      if state_eq t.state succeeded || state_eq t.state canceled
      then t
      else record t { state = canceling; ctx_canceled = true }

  unfoldable pub with_cancel_ctx : Task K → Task K
  with_cancel_ctx t = record t { state = pending; ctx_canceled = false }
