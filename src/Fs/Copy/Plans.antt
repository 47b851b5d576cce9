-- ===== src/Fs/Copy/Plans.antt =====
-- What the tasks of a copy lead to, with all the tasks that they submit.
use xiaoya_qwen.Prelude.{
  ℕ, suc, ◌+◌, List, [], ◌∷◌, ◌++◌, append_assoc, Bytes, true, false, some, ◌≡◌, refl, sym, ap, ◌∙◌,
  subst, arith,
}
use xiaoya_qwen.Go.Path.{join_paths}
use xiaoya_qwen.Model.Objects.{Obj}
use xiaoya_qwen.Fs.Copy.{
  Job, between, file, Put, Answers, Ran, submit_each, listed, copy_got, copy_between_2_storages,
  copy_file_got, copy_file_between_2_storages, run_job,
}
use xiaoya_qwen.Fs.Copy.Schedule.{
  Tree, leaf, folder, Trees, empty, and, obj_of, objs_of, Holds, HoldAll, mirror, mirror_all, size,
  size_all, never,
}

module _ (a : Answers) where
  -- The files that a task leads to, with all the tasks that it submits, and how many tasks these are.
  abbrev pub JobPlan : Job → List Put → ℕ → Type 0
  JobPlan (between src dst) ps n =
      (t : Tree) × Holds a src t × (ps ≡ mirror src dst t) × (n ≡ size t)
  JobPlan (file src dst) ps n =
      (o : Obj) × (a.get src ≡ some o)
      × (a.stream o src ≡ true)
      × (ps ≡ record { obj = o; source = src; directory = dst } ∷ [])
      × (n ≡ 1)

  abbrev pub Planned : List Job → List Put → ℕ → Type 0
  Planned [] ps n = (ps ≡ []) × (n ≡ 0)
  Planned (j ∷ js) ps n =
      (p : List Put) × (q : List Put) × (k : ℕ) × (l : ℕ) × JobPlan j p k
      × Planned js q l
      × (ps ≡ p ++ q)
      × (n ≡ k + l)

  pub Planned-append :
      (xs ys : List Job) (p q : List Put) (k l : ℕ)
      → Planned xs p k
      → Planned ys q l
      → Planned (xs ++ ys) (p ++ q) (k + l)
  Planned-append [] ys p q k l (e, f) h =
      let same : p ++ q ≡ q = ap (λ (r : List Put). r ++ q) e in
      subst (λ r. Planned ys r (k + l)) (sym same)
        (subst (λ m. Planned ys q m) (omega (arith, f)) h)
  Planned-append (x ∷ xs) ys p q k l (p', q', k', l', j, h', e, f) h = (
    p',
    q' ++ q,
    k',
    l' + l,
    j,
    Planned-append xs ys q' q l' l h' h,
    ap (λ (r : List Put). r ++ q) e ∙ append_assoc p' q' q,
    omega (arith, f),
  )

  pub Planned-split :
      (xs ys : List Job) (ps : List Put) (n : ℕ)
      → Planned (xs ++ ys) ps n
      → (p : List Put) × (q : List Put) × (k : ℕ) × (l : ℕ) × Planned xs p k
        × Planned ys q l
        × (ps ≡ p ++ q)
        × (n ≡ k + l)
  Planned-split [] ys ps n h = ([], ps, 0, n, (refl, refl), h, refl, omega arith)
  Planned-split (x ∷ xs) ys ps n (p, q, k, l, j, h, e, f) =
      let (p', q', k', l', hx, hy, e', f') = Planned-split xs ys q l h in
      (
        p ++ p',
        q',
        k + k',
        l',
        (p, p', k, k', j, hx, refl, refl),
        hy,
        e ∙ ap (λ (r : List Put). p ++ r) e' ∙ sym (append_assoc p p' q'),
        omega (arith, f, f'),
      )

  -- The tasks for the objects of a folder.
  submit_each-Planned :
      (src dst : Bytes) (i : ℕ) (ts : Trees)
      → HoldAll a src ts
      → Planned (submit_each never src dst i (objs_of ts)) (mirror_all src dst ts) (size_all ts)
  unfolding submit_each objs_of HoldAll mirror_all size_all
  submit_each-Planned src dst i empty h = (refl, refl)
  submit_each-Planned src dst i (and t ts) (h, hs) = (
    mirror (join_paths src (obj_of t).name) dst t,
    mirror_all src dst ts,
    size t,
    size_all ts,
    (t, h, refl, refl),
    submit_each-Planned src dst (suc i) ts hs,
    refl,
    refl,
  )

  -- What a task with a plan comes to.
  abbrev pub Goes : Ran → List Put → ℕ → Type 0
  Goes r ps n =
      (q : List Put) × (k : ℕ) × Planned r.submitted q k × (ps ≡ r.puts ++ q) × (n ≡ suc k)

  leaf-ran :
      (src dst : Bytes) (o : Obj)
      → a.get src ≡ some o
      → o.is_dir ≡ false
      → copy_between_2_storages a never src dst
        ≡ record { submitted = file src dst ∷ []; puts = []; ended = true }
  unfolding copy_between_2_storages copy_got
  leaf-ran src dst o got dir = rw (got, dir) refl

  folder-ran :
      (src dst : Bytes) (o : Obj) (os : List Obj)
      → a.get src ≡ some o
      → o.is_dir ≡ true
      → a.list src ≡ some os
      → copy_between_2_storages a never src dst ≡ record {
        submitted = submit_each never src (join_paths dst o.name) 0 os;
        puts = [];
        ended = true;
      }
  unfolding copy_between_2_storages copy_got listed
  folder-ran src dst o os got dir list = rw (got, dir, list) refl

  between-Goes :
      (src dst : Bytes) (t : Tree)
      → Holds a src t
      → Goes (copy_between_2_storages a never src dst) (mirror src dst t) (size t)
  unfolding Holds mirror size
  between-Goes src dst (leaf o) (got, dir, stream) = rw (leaf-ran src dst o got dir) (
    record { obj = o; source = src; directory = dst } ∷ [],
    1,
    (
      record { obj = o; source = src; directory = dst } ∷ [],
      [],
      1,
      0,
      (o, got, stream, refl, refl),
      (refl, refl),
      refl,
      refl,
    ),
    refl,
    refl,
  )
  between-Goes src dst (folder o ts) (got, dir, list, hs) =
      rw (folder-ran src dst o (objs_of ts) got dir list) (
        mirror_all src (join_paths dst o.name) ts,
        size_all ts,
        submit_each-Planned src (join_paths dst o.name) 0 ts hs,
        refl,
        refl,
      )

  pub run_job-Goes :
      (j : Job) (ps : List Put) (n : ℕ) → JobPlan j ps n → Goes (run_job a never j) ps n
  unfolding run_job copy_file_between_2_storages copy_file_got
  run_job-Goes (between src dst) ps n (t, h, e, f) =
      let (q, k, p, e', f') = between-Goes src dst t h in (q, k, p, e ∙ e', f ∙ f')
  run_job-Goes (file src dst) ps n (o, got, stream, e, f) =
      rw (got, stream) ([], 0, (refl, refl), e, f)
