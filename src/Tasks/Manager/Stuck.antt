-- ===== src/Tasks/Manager/Stuck.antt =====
-- Tasks of pkg/task that are canceling while no goroutine has them.
use xiaoya_qwen.Prelude.{
  ℕ, ◌<◌, List, [], ◌∷◌, ◌++◌, false, Option, none, some, ◌≡◌, ◌≢◌, refl, sym, ap, ◌∙◌, subst,
  arith, ◌==◌, ◌⊎◌, inl, inr, Bool-cases, All, All-append,
}
use xiaoya_qwen.Tasks.Task.{canceling, errored, Task, done, cancel, start, finish, state_eq}
use xiaoya_qwen.Tasks.Manager.{
  Key, Phase, waiting, working, returning, Thread, Manager, task_running, put, submit, spawn, retry,
  retry_at, cancel_task, cancel_at, remove, remove_at, remove_all, remove_by_states, load, Step,
  submits, retries, cancels, removes, removes_states, removes_all, takes, quits, finishes, reports,
  gives_back,
}
use xiaoya_qwen.Tasks.Manager.Workers.{Same, remove-Same, remove_by_states-Same}

-- No goroutine has the task at an address.
abbrev pub Idle : ℕ → List Thread → Type 0
Idle a = All (λ t. t.address ≢ a)

Idle-split : (a : ℕ) (xs ys : List Thread) → Idle a (xs ++ ys) → Idle a xs × Idle a ys
Idle-split a [] ys h = (tt, h)
Idle-split a (x ∷ xs) ys h = let (p, q) = Idle-split a xs ys h.1 in ((h.0, p), q)

-- Another phase of one goroutine.
Idle-phase :
    (a b : ℕ) (p q : Phase) (xs ys : List Thread)
    → Idle a (xs ++ record { address = b; phase = p } ∷ ys)
    → Idle a (xs ++ record { address = b; phase = q } ∷ ys)
Idle-phase a b p q xs ys h =
    let (hx, hy) = Idle-split a xs (record { address = b; phase = p } ∷ ys) h in
    All-append (λ t. t.address ≢ a) xs (record { address = b; phase = q } ∷ ys) hx (hy.0, hy.1)

-- One goroutine less.
Idle-without :
    (a : ℕ) (t : Thread) (xs ys : List Thread) → Idle a (xs ++ t ∷ ys) → Idle a (xs ++ ys)
Idle-without a t xs ys h =
    let (hx, hy) = Idle-split a xs (t ∷ ys) h in All-append (λ t. t.address ≢ a) xs ys hx hy.1

Idle-at : (a : ℕ) (t : Thread) (xs ys : List Thread) → Idle a (xs ++ t ∷ ys) → t.address ≢ a
Idle-at a t xs ys h = (Idle-split a xs (t ∷ ys) h).1.0

module _ (k : Key) where
  -- Canceling, and no goroutine to end it.
  pub record IsStuck (a : ℕ) (m : Manager k) : Type 0 where
    pub state : (m.heap a).state ≡ canceling
    pub idle : Idle a m.threads
    pub allocated : a < m.next

  put-other :
      (heap : ℕ → Task k.K) (b : ℕ) (t : Task k.K) (a : ℕ) → b ≢ a → put k heap b t a ≡ heap a
  unfolding put
  put-other heap b t a n = ground arith

  put-same : (heap : ℕ → Task k.K) (a : ℕ) (t : Task k.K) → put k heap a t a ≡ t
  unfolding put
  put-same heap a t = ground arith

  -- What happens at another address does not touch the state.
  other :
      (heap : ℕ → Task k.K) (b : ℕ) (t : Task k.K) (a : ℕ)
      → b ≢ a
      → (heap a).state ≡ canceling
      → (put k heap b t a).state ≡ canceling
  other heap b t a n s = ap (λ x. x.state) (put-other heap b t a n) ∙ s

  cancel-canceling : (t : Task k.K) → t.state ≡ canceling → (cancel t).state ≡ canceling
  unfolding cancel state_eq
  cancel-canceling t s = rw s refl

  Same-IsStuck : (a : ℕ) (m m' : Manager k) → Same k m m' → IsStuck a m → IsStuck a m'
  Same-IsStuck a m m' s h = record {
    state = rw s.heap h.state;
    idle = rw s.threads h.idle;
    allocated = rw s.next h.allocated;
  }

  cancel_at-IsStuck :
      (a : ℕ) (m : Manager k) (o : Option ℕ) → IsStuck a m → IsStuck a (cancel_at k o m).1
  unfolding cancel_at
  cancel_at-IsStuck a m none h = h
  cancel_at-IsStuck a m (some b) h = elim (Bool-cases (b == a)) [
    | inl e ↦
        let same : b ≡ a = ground arith in
        rw same (record {
          state =
              ap (λ x. x.state) (put-same m.heap a (cancel (m.heap a)))
              ∙ cancel-canceling (m.heap a) h.state;
          idle = h.idle;
          allocated = h.allocated;
        })
    | inr e ↦ record {
      state = other m.heap b (cancel (m.heap b)) a (ground arith) h.state;
      idle = h.idle;
      allocated = h.allocated;
    }
  ]

  retry_at-IsStuck :
      (a : ℕ) (m : Manager k) (o : Option ℕ)
      → IsStuck a m
      → IsStuck a (retry_at k o m).1 ⊎ (o ≡ some a)
  unfolding retry_at spawn
  retry_at-IsStuck a m none h = inl h
  retry_at-IsStuck a m (some b) h = elim (Bool-cases (b == a)) [
    | inl e ↦ inr (ap some (ground arith))
    | inr e ↦
        inl (record { state = h.state; idle = ((ground arith), h.idle); allocated = h.allocated })
  ]

  -- A step leaves a stuck task stuck, unless it is a retry of that task.
  pub Step-IsStuck :
      (a : ℕ) (m m' : Manager k)
      → Step k m m'
      → IsStuck a m
      → IsStuck a m' ⊎ ((tid : k.K) × (load k m.tasks tid ≡ some a) × (m' ≡ (retry k tid m).1))
  unfolding submit spawn cancel_task remove_all
  Step-IsStuck a m _ (submits _ t) h = inl (record {
    state = other m.heap m.next _ a (λ e. omega (arith, h.allocated)) h.state;
    idle = ((λ e. omega (arith, h.allocated)), h.idle);
    allocated = omega (arith, h.allocated);
  })
  Step-IsStuck a m _ (retries _ tid) h = elim (retry_at-IsStuck a m (load k m.tasks tid) h) [
    | inl s ↦ inl (unfold retry in s)
    | inr e ↦ inr (tid, e, refl)
  ]
  Step-IsStuck a m _ (cancels _ tid) h = inl (cancel_at-IsStuck a m (load k m.tasks tid) h)
  Step-IsStuck a m _ (removes _ tid) h =
      inl (Same-IsStuck a m (remove k tid m).1 (remove-Same k m tid) h)
  Step-IsStuck a m _ (removes_states _ states) h =
      inl (Same-IsStuck a m (remove_by_states k states m) (remove_by_states-Same k m states) h)
  Step-IsStuck a m _ (removes_all _) h =
      inl (record { state = h.state; idle = h.idle; allocated = h.allocated })
  Step-IsStuck a m _ (takes _ xs ys b n t w) h =
      let i = subst (Idle a) t h.idle in
      inl (record {
        state = other m.heap b (start (m.heap b)) a (Idle-at a _ xs ys i) h.state;
        idle = Idle-phase a b waiting working xs ys i;
        allocated = h.allocated;
      })
  Step-IsStuck a m _ (quits _ xs ys b t c) h = inl (record {
    state = h.state;
    idle = Idle-without a _ xs ys (subst (Idle a) t h.idle);
    allocated = h.allocated;
  })
  Step-IsStuck a m _ (finishes _ xs ys b o after t) h =
      let i = subst (Idle a) t h.idle in
      inl (record {
        state = other m.heap b (finish o after (m.heap b)) a (Idle-at a _ xs ys i) h.state;
        idle = Idle-phase a b working returning xs ys i;
        allocated = h.allocated;
      })
  Step-IsStuck a m _ (reports _ xs ys b n s t) h = inl (record {
    state = other m.heap b _ a (Idle-at a _ xs ys (subst (Idle a) t h.idle)) h.state;
    idle = h.idle;
    allocated = h.allocated;
  })
  Step-IsStuck a m _ (gives_back _ xs ys b t l) h = inl (record {
    state = h.state;
    idle = Idle-without a _ xs ys (subst (Idle a) t h.idle);
    allocated = h.allocated;
  })

  not_done : (t : Task k.K) → t.state ≡ canceling → done t ≡ false
  unfolding done state_eq
  not_done t s = rw s refl

  -- The manager refuses to remove a stuck task: it takes it for running.
  remove-IsStuck :
      (a : ℕ) (m : Manager k) (tid : k.K)
      → load k m.tasks tid ≡ some a
      → IsStuck a m
      → (remove k tid m).0 ≡ some task_running
  unfolding remove remove_at
  remove-IsStuck a m tid e h = rw (e, remove_at, not_done (m.heap a) h.state) refl

  cancel-errored : (t : Task k.K) → t.state ≡ errored → (cancel t).state ≡ canceling
  unfolding cancel state_eq
  cancel-errored t s = rw s refl

  cancel_at-errored :
      (a : ℕ) (m : Manager k)
      → (m.heap a).state ≡ errored
      → Idle a m.threads
      → a < m.next
      → IsStuck a (cancel_at k (some a) m).1
  unfolding cancel_at
  cancel_at-errored a m s i n = record {
    state = ap (λ x. x.state) (put-same m.heap a (cancel (m.heap a))) ∙ cancel-errored (m.heap a) s;
    idle = i;
    allocated = n;
  }

  cancel_at-tasks : (m : Manager k) (o : Option ℕ) → (cancel_at k o m).1.tasks ≡ m.tasks
  unfolding cancel_at
  cancel_at-tasks m none = refl
  cancel_at-tasks m (some a) = refl

  -- Canceling a task that has ended with an error, when no goroutine has it any more, makes it stuck,
  -- and the manager then refuses to remove it.
  pub cancel_task-IsStuck :
      (a : ℕ) (m : Manager k) (tid : k.K)
      → load k m.tasks tid ≡ some a
      → (m.heap a).state ≡ errored
      → Idle a m.threads
      → a < m.next
      → IsStuck a (cancel_task k tid m).1
        × ((remove k tid (cancel_task k tid m).1).0 ≡ some task_running)
  unfolding cancel_task
  cancel_task-IsStuck a m tid e s i n =
      let stuck : IsStuck a (cancel_at k (load k m.tasks tid) m).1 =
        subst (λ o. IsStuck a (cancel_at k o m).1) (sym e) (cancel_at-errored a m s i n) in
      let kept : load k (cancel_at k (load k m.tasks tid) m).1.tasks tid ≡ some a =
        ap (λ ts. load k ts tid) (cancel_at-tasks m (load k m.tasks tid)) ∙ e in
      (stuck, remove-IsStuck a (cancel_at k (load k m.tasks tid) m).1 tid kept stuck)
