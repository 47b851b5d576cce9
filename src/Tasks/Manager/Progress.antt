-- ===== src/Tasks/Manager/Progress.antt =====
-- The goroutines of a manager, when nobody asks it for anything more.
use xiaoya_qwen.Prelude.{
  ℕ, zero, suc, ◌+◌, ◌<◌, ◌≤◌, List, [], ◌∷◌, ◌++◌, Option, ◌≡◌, refl, ap, ◌∙◌, ◌⊎◌, inl, inr,
  length, length-append, arith,
}
use xiaoya_qwen.Tasks.Task.{Outcome, Callback, start, finish}
use xiaoya_qwen.Tasks.Manager.{
  Key, Phase, waiting, working, returning, Thread, Manager, put, new_manager, Step, takes, finishes,
  gives_back, Reaches,
}
use xiaoya_qwen.Tasks.Manager.Workers.{held, held-at, Balanced, Step-Balanced, Reaches-Balanced}

abbrev thread : ℕ → Phase → Thread
thread a p = record { address = a; phase = p }

-- A goroutine that holds a worker, if there is one.
abbrev Held : List Thread → Type 0
Held ts =
    (xs : List Thread) × (ys : List Thread) × (a : ℕ) × ((ts ≡ xs ++ thread a working ∷ ys)
      ⊎ (ts ≡ xs ++ thread a returning ∷ ys))

holder_at :
    (a : ℕ) (p : Phase) (ts : List Thread)
    → (held ts ≡ 0) ⊎ Held ts
    → (held (thread a p ∷ ts) ≡ 0) ⊎ Held (thread a p ∷ ts)
holder_at a working ts h = inr ([], ts, a, inl refl)
holder_at a returning ts h = inr ([], ts, a, inr refl)
holder_at a waiting ts (inl h) = inl (omega (arith, h))
holder_at a waiting ts (inr (xs, ys, b, inl e)) =
    inr (thread a waiting ∷ xs, ys, b, inl (ap (λ r. thread a waiting ∷ r) e))
holder_at a waiting ts (inr (xs, ys, b, inr e)) =
    inr (thread a waiting ∷ xs, ys, b, inr (ap (λ r. thread a waiting ∷ r) e))

holder : (ts : List Thread) → (held ts ≡ 0) ⊎ Held ts
holder [] = inl refl
holder (t ∷ ts) = holder_at t.address t.phase ts (holder ts)

module _ (k : Key) (outcome : ℕ → Outcome) (after : ℕ → Callback) where
  -- A step of a goroutine that gets a worker, whose function returns, or that gives its worker back.
  pub data Own : Manager k → Manager k → Type 0 where
    takes_own :
        (m : Manager k) (xs ys : List Thread) (a n : ℕ)
        → m.threads ≡ xs ++ thread a waiting ∷ ys
        → m.workers ≡ suc n
        → Own m (record m {
          workers = n;
          heap = put k m.heap a (start (m.heap a));
          threads = xs ++ thread a working ∷ ys;
        })
    finishes_own :
        (m : Manager k) (xs ys : List Thread) (a : ℕ)
        → m.threads ≡ xs ++ thread a working ∷ ys
        → Own m (record m {
          heap = put k m.heap a (finish (outcome a) (after a) (m.heap a));
          threads = xs ++ thread a returning ∷ ys;
        })
    gives_own :
        (m : Manager k) (xs ys : List Thread) (a : ℕ)
        → m.threads ≡ xs ++ thread a returning ∷ ys
        → m.workers < m.max_worker
        → Own m (record m { workers = m.workers + 1; threads = xs ++ ys })

  Own-Step : (m m' : Manager k) → Own m m' → Step k m m'
  Own-Step m _ (takes_own _ xs ys a n t w) = takes m xs ys a n t w
  Own-Step m _ (finishes_own _ xs ys a t) = finishes m xs ys a (outcome a) (after a) t
  Own-Step m _ (gives_own _ xs ys a t l) = gives_back m xs ys a t l

  pub data Runs : Manager k → Manager k → Type 0 where
    rests : (m : Manager k) → Runs m m
    runs_on : (m m' m'' : Manager k) → Own m m' → Runs m' m'' → Runs m m''

  Runs-trans : (m m' m'' : Manager k) → Runs m m' → Runs m' m'' → Runs m m''
  Runs-trans m _ n (rests _) r = r
  Runs-trans m m' n (runs_on _ l _ s q) r = runs_on m l n s (Runs-trans l m' n q r)

  -- A later state with certain goroutines, in which the workers are all there.
  record Later (m : Manager k) (ts : List Thread) : Type 0 where
    later : Manager k
    reaches : Runs m later
    threads : later.threads ≡ ts
    balanced : Balanced k later
    same_max : later.max_worker ≡ m.max_worker

  after_step :
      (m m' : Manager k) (ts : List Thread)
      → Own m m'
      → m'.max_worker ≡ m.max_worker
      → Later m' ts
      → Later m ts
  after_step m m' ts s e l = record {
    later = l.later;
    reaches = runs_on m m' l.later s l.reaches;
    threads = l.threads;
    balanced = l.balanced;
    same_max = l.same_max ∙ e;
  }

  give_back :
      (m : Manager k) (xs ys : List Thread) (a : ℕ)
      → m.threads ≡ xs ++ thread a returning ∷ ys
      → Balanced k m
      → Later m (xs ++ ys)
  unfolding Balanced
  give_back m xs ys a t b =
      let m' : Manager k = record m { workers = m.workers + 1; threads = xs ++ ys } in
      let s : Own m m' =
        gives_own m xs ys a t (omega (arith, ap held t, held-at xs ys a returning, b)) in
      record {
        later = m';
        reaches = runs_on m m' m' s (rests m');
        threads = refl;
        balanced = Step-Balanced k m m' (Own-Step m m' s) b;
        same_max = refl;
      }

  finish_working :
      (m : Manager k) (xs ys : List Thread) (a : ℕ)
      → m.threads ≡ xs ++ thread a working ∷ ys
      → Balanced k m
      → Later m (xs ++ ys)
  finish_working m xs ys a t b =
      let m' : Manager k = record m {
        heap = put k m.heap a (finish (outcome a) (after a) (m.heap a));
        threads = xs ++ thread a returning ∷ ys;
      } in
      let s : Own m m' = finishes_own m xs ys a t in
      after_step m m' (xs ++ ys) s refl
        (give_back m' xs ys a refl (Step-Balanced k m m' (Own-Step m m' s) b))

  take_worker :
      (m : Manager k) (xs ys : List Thread) (a n : ℕ)
      → m.threads ≡ xs ++ thread a waiting ∷ ys
      → m.workers ≡ suc n
      → Balanced k m
      → Later m (xs ++ ys)
  take_worker m xs ys a n t w b =
      let m' : Manager k = record m {
        workers = n;
        heap = put k m.heap a (start (m.heap a));
        threads = xs ++ thread a working ∷ ys;
      } in
      let s : Own m m' = takes_own m xs ys a n t w in
      after_step m m' (xs ++ ys) s refl
        (finish_working m' xs ys a refl (Step-Balanced k m m' (Own-Step m m' s) b))

  -- One goroutine less.
  Retired : Manager k → Type 0
  Retired m = (ts : List Thread) × (suc (length ts) ≡ length m.threads) × Later m ts

  retired :
      (m : Manager k) (xs ys : List Thread) (t : Thread)
      → m.threads ≡ xs ++ t ∷ ys
      → Later m (xs ++ ys)
      → Retired m
  unfolding Retired
  retired m xs ys t e l =
      (xs ++ ys, omega (arith, ap length e, length-append xs ys, length-append xs (t ∷ ys)), l)

  retire_idle :
      (m : Manager k) (a : ℕ) (p : Phase) (ts : List Thread) (w : ℕ)
      → m.threads ≡ thread a p ∷ ts
      → held (thread a p ∷ ts) ≡ 0
      → m.workers ≡ w
      → 0 < m.max_worker
      → Balanced k m
      → Retired m
  unfolding Balanced
  retire_idle m a waiting ts zero e h w l b = let f : 1 ≤ 0 = omega (arith, ap held e) in elim f [ ]
  retire_idle m a waiting ts (suc n) e h w l b =
      retired m [] ts (thread a waiting) e (take_worker m [] ts a n e w b)
  retire_idle m a working ts w e h q l b = let f : 1 ≤ 0 = omega arith in elim f [ ]
  retire_idle m a returning ts w e h q l b = let f : 1 ≤ 0 = omega arith in elim f [ ]

  retire :
      (m : Manager k) (t : Thread) (ts : List Thread)
      → m.threads ≡ t ∷ ts
      → 0 < m.max_worker
      → Balanced k m
      → Retired m
  retire m t ts e l b = elim (holder (t ∷ ts)) [
    | inl h ↦ retire_idle m t.address t.phase ts m.workers e h refl l b
    | inr (xs, ys, a, inl f) ↦
        retired m xs ys (thread a working) (e ∙ f) (finish_working m xs ys a (e ∙ f) b)
    | inr (xs, ys, a, inr f) ↦
        retired m xs ys (thread a returning) (e ∙ f) (give_back m xs ys a (e ∙ f) b)
  ]

  drain :
      (n : ℕ) (m : Manager k) (ts : List Thread)
      → m.threads ≡ ts
      → length ts ≡ n
      → 0 < m.max_worker
      → Balanced k m
      → Later m []
  unfolding Retired
  drain n m [] e len l b = record {
    later = m;
    reaches = rests m;
    threads = e;
    balanced = b;
    same_max = refl;
  }
  drain zero m (t ∷ ts) e len l b = let f : 1 ≤ 0 = omega arith in elim f [ ]
  drain (suc n) m (t ∷ ts) e len l b =
      let (rest, shorter, next) = retire m t ts e l b in
      let last =
        drain n next.later rest next.threads (omega (arith, ap length e))
          (omega (arith, next.same_max)) next.balanced in
      record {
        later = last.later;
        reaches = Runs-trans m next.later last.later next.reaches last.reaches;
        threads = last.threads;
        balanced = last.balanced;
        same_max = last.same_max ∙ next.same_max;
      }

  -- Whatever the functions of the tasks and their callbacks come to: from every state that a manager with one worker or
  -- more comes to, its goroutines can go on, each getting a worker, running its task and giving the worker back, until
  -- no goroutine is left and all the workers are in the channel.
  pub new_manager-drains :
      (n : ℕ) (update_id : Option (k.K → k.K)) (zero_id : k.K) (m : Manager k)
      → Reaches k (new_manager k n update_id zero_id) m
      → 0 < n
      → (m' : Manager k) × Runs m m' × (m'.threads ≡ []) × (m'.workers ≡ n)
  unfolding new_manager Balanced
  new_manager-drains n update_id zero_id m r l =
      let (b, e) = Reaches-Balanced k (new_manager k n update_id zero_id) m r (omega arith) in
      let last = drain (length m.threads) m m.threads refl refl (omega (arith, e)) b in
      (
        last.later,
        last.reaches,
        last.threads,
        omega (arith, last.balanced, ap held last.threads, last.same_max, e),
      )
