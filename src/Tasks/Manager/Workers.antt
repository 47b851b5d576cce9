-- ===== src/Tasks/Manager/Workers.antt =====
-- The workers of a manager: those in the channel and those that goroutines hold.
use xiaoya_qwen.Prelude.{
  ℕ, ◌+◌, ◌<◌, List, [], ◌∷◌, ◌++◌, Option, none, some, ◌≡◌, refl, ap, ◌∙◌, arith, inl, inr,
  Bool-cases,
}
use xiaoya_qwen.Tasks.Task.{State, done}
use xiaoya_qwen.Tasks.Manager.{
  Key, Phase, waiting, working, returning, Thread, Manager, submit, spawn, retry, retry_at,
  cancel_task, cancel_at, remove, remove_at, remove_each, contains, remove_by_states, load,
  new_manager, Step, submits, retries, cancels, removes, removes_states, removes_all, remove_all,
  takes, quits, finishes, reports, gives_back, Reaches, stays, goes_on,
}

-- The workers that a goroutine holds.
abbrev pub holds : Phase → ℕ
holds waiting = 0
holds working = 1
holds returning = 1

abbrev pub held : List Thread → ℕ
held [] = 0
held (t ∷ ts) = holds t.phase + held ts

pub held-append : (xs ys : List Thread) → held (xs ++ ys) ≡ held xs + held ys
held-append [] ys = omega arith
held-append (x ∷ xs) ys = omega (arith, held-append xs ys)

pub held-at :
    (xs ys : List Thread) (a : ℕ) (p : Phase)
    → held (xs ++ record { address = a; phase = p } ∷ ys) ≡ holds p + held (xs ++ ys)
held-at xs ys a p =
    omega (arith, held-append xs (record { address = a; phase = p } ∷ ys), held-append xs ys)

module _ (k : Key) where
  -- What removals leave as it is.
  pub record Same (m m' : Manager k) : Type 0 where
    pub max_worker : m'.max_worker ≡ m.max_worker
    pub workers : m'.workers ≡ m.workers
    pub threads : m'.threads ≡ m.threads
    pub heap : m'.heap ≡ m.heap
    pub next : m'.next ≡ m.next

  same : (m : Manager k) → Same m m
  same m = record { max_worker = refl; workers = refl; threads = refl; heap = refl; next = refl }

  Same-trans : (m m' m'' : Manager k) → Same m m' → Same m' m'' → Same m m''
  Same-trans m m' m'' p q = record {
    max_worker = q.max_worker ∙ p.max_worker;
    workers = q.workers ∙ p.workers;
    threads = q.threads ∙ p.threads;
    heap = q.heap ∙ p.heap;
    next = q.next ∙ p.next;
  }

  remove_at-Same : (m : Manager k) (tid : k.K) (o : Option ℕ) → Same m (remove_at k tid o m).1
  unfolding remove_at
  remove_at-Same m tid none = same m
  remove_at-Same m tid (some a) = elim (Bool-cases (done (m.heap a))) [
    | inl d ↦
        rw d
          (record { max_worker = refl; workers = refl; threads = refl; heap = refl; next = refl })
    | inr d ↦ rw d (same m)
  ]

  pub remove-Same : (m : Manager k) (tid : k.K) → Same m (remove k tid m).1
  unfolding remove
  remove-Same m tid = remove_at-Same m tid (load k m.tasks tid)

  remove_each-Same :
      (states : List State) (ts : List (k.K × ℕ)) (m : Manager k)
      → Same m (remove_each k states ts m)
  unfolding remove_each
  remove_each-Same states [] m = same m
  remove_each-Same states ((j, a) ∷ ts) m = elim (Bool-cases (contains k states (m.heap a).state)) [
    | inl e ↦ rw e (
        Same-trans m (remove k (m.heap a).id m).1 _ (remove-Same m (m.heap a).id)
          (remove_each-Same states ts (remove k (m.heap a).id m).1))
    | inr e ↦ rw e (remove_each-Same states ts m)
  ]

  pub remove_by_states-Same :
      (m : Manager k) (states : List State) → Same m (remove_by_states k states m)
  unfolding remove_by_states
  remove_by_states-Same m states = remove_each-Same states m.tasks m

  unfoldable pub Balanced : Manager k → Type 0
  Balanced m = m.workers + held m.threads ≡ m.max_worker

  Same-Balanced : (m m' : Manager k) → Same m m' → Balanced m → Balanced m'
  unfolding Balanced
  Same-Balanced m m' s b = rw (s.workers, s.threads, s.max_worker) b

  retry_at-Balanced : (m : Manager k) (o : Option ℕ) → Balanced m → Balanced (retry_at k o m).1
  unfolding Balanced retry_at spawn
  retry_at-Balanced m none b = b
  retry_at-Balanced m (some a) b = omega (arith, b)

  cancel_at-Balanced : (m : Manager k) (o : Option ℕ) → Balanced m → Balanced (cancel_at k o m).1
  unfolding Balanced cancel_at
  cancel_at-Balanced m none b = b
  cancel_at-Balanced m (some a) b = b

  pub Step-Balanced : (m m' : Manager k) → Step k m m' → Balanced m → Balanced m'
  unfolding Balanced submit spawn retry cancel_task remove_all
  Step-Balanced m _ (submits _ t) b = omega (arith, b)
  Step-Balanced m _ (retries _ tid) b = retry_at-Balanced m (load k m.tasks tid) b
  Step-Balanced m _ (cancels _ tid) b = cancel_at-Balanced m (load k m.tasks tid) b
  Step-Balanced m _ (removes _ tid) b = Same-Balanced m (remove k tid m).1 (remove-Same m tid) b
  Step-Balanced m _ (removes_states _ states) b =
      Same-Balanced m (remove_by_states k states m) (remove_by_states-Same m states) b
  Step-Balanced m _ (removes_all _) b = b
  Step-Balanced m _ (takes _ xs ys a n t w) b =
      omega (arith, ap held t, held-at xs ys a waiting, held-at xs ys a working)
  Step-Balanced m _ (quits _ xs ys a t c) b = omega (arith, ap held t, held-at xs ys a waiting)
  Step-Balanced m _ (finishes _ xs ys a o after t) b =
      omega (arith, ap held t, held-at xs ys a working, held-at xs ys a returning)
  Step-Balanced m _ (reports _ xs ys a n s t) b = b
  Step-Balanced m _ (gives_back _ xs ys a t l) b =
      omega (arith, ap held t, held-at xs ys a returning)

  Step-max : (m m' : Manager k) → Step k m m' → m'.max_worker ≡ m.max_worker
  unfolding submit spawn retry cancel_task remove_all
  Step-max m _ (submits _ t) = refl
  Step-max m _ (retries _ tid) = retried (load k m.tasks tid)
    where
      retried : (o : Option ℕ) → (retry_at k o m).1.max_worker ≡ m.max_worker
      retried none = refl
      retried (some a) = refl
  Step-max m _ (cancels _ tid) = asked (load k m.tasks tid)
    where
      asked : (o : Option ℕ) → (cancel_at k o m).1.max_worker ≡ m.max_worker
      asked none = refl
      asked (some a) = refl
  Step-max m _ (removes _ tid) = (remove-Same m tid).max_worker
  Step-max m _ (removes_states _ states) = (remove_by_states-Same m states).max_worker
  Step-max m _ (removes_all _) = refl
  Step-max m _ (takes _ xs ys a n t w) = refl
  Step-max m _ (quits _ xs ys a t c) = refl
  Step-max m _ (finishes _ xs ys a o after t) = refl
  Step-max m _ (reports _ xs ys a n s t) = refl
  Step-max m _ (gives_back _ xs ys a t l) = refl

  pub Reaches-Balanced :
      (m m' : Manager k)
      → Reaches k m m'
      → Balanced m
      → Balanced m' × (m'.max_worker ≡ m.max_worker)
  Reaches-Balanced m _ stays b = (b, refl)
  Reaches-Balanced m m'' (goes_on m' _ r s) b =
      let (b', e) = Reaches-Balanced m m' r b in (Step-Balanced m' m'' s b', Step-max m' m'' s ∙ e)

  -- However a manager that was made with `n` workers goes on: the workers in the channel and those that
  -- goroutines hold are `n` together, so no more than `n` tasks run at a time.
  pub new_manager-workers :
      (n : ℕ) (update_id : Option (k.K → k.K)) (zero_id : k.K) (m : Manager k)
      → Reaches k (new_manager k n update_id zero_id) m
      → m.workers + held m.threads ≡ n
  unfolding new_manager Balanced
  new_manager-workers n update_id zero_id m r =
      let (b, e) = Reaches-Balanced (new_manager k n update_id zero_id) m r (omega arith) in b ∙ e

  -- A goroutine that gives its worker back never waits: the channel has room for it.
  pub gives_back-room :
      (n : ℕ) (update_id : Option (k.K → k.K)) (zero_id : k.K) (m : Manager k) (xs ys : List Thread)
      (a : ℕ)
      → Reaches k (new_manager k n update_id zero_id) m
      → m.threads ≡ xs ++ record { address = a; phase = returning } ∷ ys
      → m.workers < m.max_worker
  unfolding new_manager Balanced
  gives_back-room n update_id zero_id m xs ys a r t =
      let (b, e) = Reaches-Balanced (new_manager k n update_id zero_id) m r (omega arith) in
      omega (arith, ap held t, held-at xs ys a returning, b)
