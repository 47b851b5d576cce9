-- ===== src/Tasks/Manager/Running.antt =====
-- The goroutines that run a task.
use xiaoya_qwen.Prelude.{
  ℕ, ◌+◌, Bytes, List, [], ◌∷◌, ◌++◌, Option, none, some, ◌≡◌, ◌≢◌, refl, sym, ap, ◌∙◌, subst,
  arith, ◌==◌, ◌⊎◌, inl, inr, Bool-cases, In, ◌||◌,
}
use xiaoya_qwen.Tasks.Task.{
  State, pending, errored, running, canceling, succeeded, canceled, Task, Outcome, returns_nil,
  returns_error, panics, Callback, called, callback_panics, cancel, start, finish, state_eq,
  with_cancel_ctx, set_progress, set_status,
}
use xiaoya_qwen.Tasks.Manager.{
  Key, Phase, waiting, working, returning, Thread, Manager, put, submit, spawn, retry, retry_at,
  cancel_task, cancel_at, remove, remove_all, remove_by_states, load, new_manager, Step, submits,
  retries, cancels, removes, removes_states, removes_all, takes, quits, finishes, reports,
  gives_back, Reaches, stays, goes_on,
}
use xiaoya_qwen.Tasks.Manager.Workers.{
  Same, remove-Same, remove_by_states-Same, held, new_manager-workers,
}

-- A member stays when another one is replaced or dropped.
In-replace :
    {A : Type 0} (t u v : A) (xs ys : List A) → t ≢ u → In t (xs ++ u ∷ ys) → In t (xs ++ v ∷ ys)
In-replace t u v [] ys n (inl e) = absurd (n e)
In-replace t u v [] ys n (inr i) = inr i
In-replace t u v (x ∷ xs) ys n (inl e) = inl e
In-replace t u v (x ∷ xs) ys n (inr i) = inr (In-replace t u v xs ys n i)

In-without : {A : Type 0} (t u : A) (xs ys : List A) → t ≢ u → In t (xs ++ u ∷ ys) → In t (xs ++ ys)
In-without t u [] ys n (inl e) = absurd (n e)
In-without t u [] ys n (inr i) = i
In-without t u (x ∷ xs) ys n (inl e) = inl e
In-without t u (x ∷ xs) ys n (inr i) = inr (In-without t u xs ys n i)

In-middle : {A : Type 0} (t : A) (xs ys : List A) → In t (xs ++ t ∷ ys)
In-middle t [] ys = inl refl
In-middle t (x ∷ xs) ys = inr (In-middle t xs ys)

-- The goroutine that runs the task at an address.
abbrev pub runner : ℕ → Thread
runner a = record { address = a; phase = working }

other_phase : (a b : ℕ) (p : Phase) → working ≢ p → runner a ≢ record { address = b; phase = p }
other_phase a b p n e = n (ap (λ x. x.phase) e)

module _ (k : Key) where
  unfoldable pub IsWorked : Manager k → Type 0
  IsWorked m = (a : ℕ) → (m.heap a).state ≡ running → In (runner a) m.threads

  put-cases :
      (heap : ℕ → Task k.K) (b : ℕ) (t : Task k.K) (a : ℕ)
      → ((b ≡ a) × (put k heap b t a ≡ t)) ⊎ ((b ≢ a) × (put k heap b t a ≡ heap a))
  unfolding put
  put-cases heap b t a = elim (Bool-cases (b == a)) [
    | inl e ↦ inl (ground arith, ground arith)
    | inr e ↦ inr ((λ q. ground arith), ground arith)
  ]

  -- After a write of a task that is not running, a task that is running is another one, as before.
  put-running :
      (heap : ℕ → Task k.K) (b : ℕ) (t : Task k.K) (a : ℕ)
      → t.state ≢ running
      → (put k heap b t a).state ≡ running
      → (b ≢ a) × ((heap a).state ≡ running)
  put-running heap b t a n h = elim (put-cases heap b t a) [
    | inl (e, p) ↦ absurd (n (ap (λ x. x.state) (sym p) ∙ h))
    | inr (q, p) ↦ (q, ap (λ x. x.state) (sym p) ∙ h)
  ]

  cancel-running : (t : Task k.K) → (cancel t).state ≡ running → t.state ≡ running
  unfolding cancel
  cancel-running t h = elim (Bool-cases (state_eq t.state succeeded || state_eq t.state canceled)) [
    | inl e ↦ rw e at h
    | inr e ↦ let q : canceling ≡ running = rw e at h in cc
  ]

  finish-running :
      (o : Outcome) (after : Callback) (t : Task k.K) → (finish o after t).state ≢ running
  unfolding finish set_progress
  finish-running panics after t h = cc
  finish-running returns_error after t h = ground arith
  finish-running returns_nil called t h = ground arith
  finish-running returns_nil callback_panics t h = ground arith

  Same-IsWorked : (m m' : Manager k) → Same k m m' → IsWorked m → IsWorked m'
  unfolding IsWorked
  Same-IsWorked m m' s w a h = rw s.threads (w a (rw s.heap at h))

  cancel_at-IsWorked : (m : Manager k) (o : Option ℕ) → IsWorked m → IsWorked (cancel_at k o m).1
  unfolding IsWorked cancel_at
  cancel_at-IsWorked m none w a h = w a h
  cancel_at-IsWorked m (some b) w a h = elim (put-cases m.heap b (cancel (m.heap b)) a) [
    | inl (e, p) ↦ w a (
        ap (λ x. (m.heap x).state) (sym e)
        ∙ cancel-running (m.heap b) (ap (λ x. x.state) (sym p) ∙ h))
    | inr (n, p) ↦ w a (ap (λ x. x.state) (sym p) ∙ h)
  ]

  retry_at-IsWorked : (m : Manager k) (o : Option ℕ) → IsWorked m → IsWorked (retry_at k o m).1
  unfolding IsWorked retry_at spawn
  retry_at-IsWorked m none w a h = w a h
  retry_at-IsWorked m (some b) w a h = inr (w a h)

  submit-IsWorked :
      (m : Manager k) (t : Task k.K) → t.state ≢ running → IsWorked m → IsWorked (submit k t m).1
  unfolding IsWorked submit spawn
  submit-IsWorked m t n w a h = inr (w a (put-running m.heap m.next _ a n h).1)

  fresh : (t : Task k.K) → (with_cancel_ctx t).state ≢ running
  unfolding with_cancel_ctx
  fresh t e = cc

  reported : (n : ℕ) (s : Bytes) (t : Task k.K) → (set_progress n (set_status s t)).state ≡ t.state
  unfolding set_progress set_status
  reported n s t = refl

  Step-IsWorked : (m m' : Manager k) → Step k m m' → IsWorked m → IsWorked m'
  unfolding IsWorked submit spawn retry cancel_task remove_all
  Step-IsWorked m _ (submits _ t) w a h = submit-IsWorked m (with_cancel_ctx t) (fresh t) w a h
  Step-IsWorked m _ (retries _ tid) w a h = retry_at-IsWorked m (load k m.tasks tid) w a h
  Step-IsWorked m _ (cancels _ tid) w a h = cancel_at-IsWorked m (load k m.tasks tid) w a h
  Step-IsWorked m _ (removes _ tid) w a h =
      Same-IsWorked m (remove k tid m).1 (remove-Same k m tid) w a h
  Step-IsWorked m _ (removes_states _ states) w a h =
      Same-IsWorked m (remove_by_states k states m) (remove_by_states-Same k m states) w a h
  Step-IsWorked m _ (removes_all _) w a h = w a h
  Step-IsWorked m _ (takes _ xs ys b n t q) w a h = elim (put-cases m.heap b (start (m.heap b)) a) [
    | inl (e, p) ↦ rw e (In-middle (runner a) xs ys)
    | inr (n, p) ↦
        In-replace (runner a) _ (runner b) xs ys (other_phase a b waiting (λ c. cc))
          (subst (In (runner a)) t (w a (ap (λ x. x.state) (sym p) ∙ h)))
  ]
  Step-IsWorked m _ (quits _ xs ys b t c) w a h =
      In-without (runner a) _ xs ys (other_phase a b waiting (λ c. cc))
        (subst (In (runner a)) t (w a h))
  Step-IsWorked m _ (finishes _ xs ys b o after t) w a h =
      let (n, r) =
        put-running m.heap b (finish o after (m.heap b)) a (finish-running o after (m.heap b)) h in
      In-replace (runner a) _ _ xs ys (λ q. n (sym (ap (λ x. x.address) q)))
        (subst (In (runner a)) t (w a r))
  Step-IsWorked m _ (reports _ xs ys b n s t) w a h =
      elim (put-cases m.heap b (set_progress n (set_status s (m.heap b))) a) [
        | inl (e, p) ↦ w a (
            ap (λ x. (m.heap x).state) (sym e)
            ∙ sym (reported n s (m.heap b))
            ∙ ap (λ x. x.state) (sym p)
            ∙ h)
        | inr (n, p) ↦ w a (ap (λ x. x.state) (sym p) ∙ h)
      ]
  Step-IsWorked m _ (gives_back _ xs ys b t l) w a h =
      In-without (runner a) _ xs ys (other_phase a b returning (λ c. cc))
        (subst (In (runner a)) t (w a h))

  Reaches-IsWorked : (m m' : Manager k) → Reaches k m m' → IsWorked m → IsWorked m'
  Reaches-IsWorked m _ stays w = w
  Reaches-IsWorked m m'' (goes_on m' _ r s) w = Step-IsWorked m' m'' s (Reaches-IsWorked m m' r w)

  running-or : (s : State) → (s ≢ running) ⊎ (s ≡ running)
  running-or pending = inl (λ e. cc)
  running-or running = inr refl
  running-or succeeded = inl (λ e. cc)
  running-or canceling = inl (λ e. cc)
  running-or canceled = inl (λ e. cc)
  running-or errored = inl (λ e. cc)

  -- However a manager that was made with n workers goes on, the workers in its channel and those
  -- that goroutines hold are n together, and a task is not shown as running unless a goroutine is
  -- running it.
  pub new_manager-running :
      (n : ℕ) (update_id : Option (k.K → k.K)) (zero_id : k.K) (m : Manager k) (a : ℕ)
      → Reaches k (new_manager k n update_id zero_id) m
      → (m.workers + held m.threads ≡ n) × (((m.heap a).state ≢ running) ⊎ In (runner a) m.threads)
  unfolding new_manager IsWorked
  new_manager-running n update_id zero_id m a r = (
    new_manager-workers k n update_id zero_id m r,
    elim (running-or (m.heap a).state) [
      | inl still ↦ inl still
      | inr runs ↦ inr (Reaches-IsWorked (new_manager k n update_id zero_id) m r (λ b h. cc) a runs)
    ],
  )
