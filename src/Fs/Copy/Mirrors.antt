-- ===== src/Fs/Copy/Mirrors.antt =====
-- Whatever order the tasks of a copy run in, they mirror the tree of the source in the target.
use mathlib.Core.List.{Perm, perm_append_comm}
use mathlib.Core.List.Perm
use xiaoya_qwen.Prelude.{
  ℕ, suc, ◌+◌, ◌≤◌, ◌<◌, List, [], ◌∷◌, ◌++◌, append_assoc, append-nil, Bytes, ◌≡◌, ◌↔◌, refl, sym,
  ap, ◌∙◌, subst, arith,
}
use xiaoya_qwen.Fs.Copy.{Job, between, file, Put, Answers, run_job}
use xiaoya_qwen.Fs.Copy.Schedule.{
  Tree, leaf, folder, Holds, mirror, size, never, Runs, begins, runs_one,
}
use xiaoya_qwen.Fs.Copy.Plans.{JobPlan, Planned, Planned-append, Planned-split, run_job-Goes}

module _ (a : Answers) where
  -- Files, tasks and what is left to run, in a plan.
  abbrev Left : List Put → List Put → ℕ → ℕ → List Job → Type 0
  Left all ps total n left =
      (q : List Put) × (k : ℕ) × Planned a left q k × Perm (ps ++ q) all × (total ≡ n + k)

  -- The files of one task move to the front of those that are planned around it.
  moved : (b x y q : List Put) → Perm (b ++ ((x ++ y) ++ q)) (x ++ ((b ++ q) ++ y))
  moved b x y q =
      subst (λ z. Perm (b ++ z) (x ++ ((b ++ q) ++ y))) (sym (append_assoc x y q))
        (Perm.trans (Perm.append_left b (Perm.append_left x (perm_append_comm y q))) (
          subst (λ z. Perm z (x ++ ((b ++ q) ++ y))) (append_assoc b x (q ++ y))
            (Perm.trans (Perm.append_right (q ++ y) (perm_append_comm b x)) (
              subst (λ z. Perm z (x ++ ((b ++ q) ++ y))) (sym (append_assoc x b (q ++ y)))
                (subst (λ z. Perm (x ++ (b ++ (q ++ y))) (x ++ z)) (sym (append_assoc b q y))
                  (Perm.refl (x ++ (b ++ (q ++ y)))))))))

  step-Left :
      (all ps : List Put) (total n : ℕ) (xs ys : List Job) (j : Job)
      → Left all ps total n (xs ++ j ∷ ys)
      → Left all
          (ps ++ (run_job a never j).puts)
          total
          (suc n)
          ((xs ++ ys) ++ (run_job a never j).submitted)
  step-Left all ps total n xs ys j (q, k, h, perm, e) =
      let r = run_job a never j in
      let (x, _, kx, _, hx, (z, y, kj, ky, hj, hy, ez, fz), ex, fx) =
        Planned-split a xs (j ∷ ys) q k h in
      let (s, ks, hs, es, fs) = run_job-Goes a j z kj hj in
      let whole : q ≡ x ++ ((r.puts ++ s) ++ y) =
        ex ∙ ap (λ (w : List Put). x ++ w) (ez ∙ ap (λ (w : List Put). w ++ y) es) in
      (
        (x ++ y) ++ s,
        (kx + ky) + ks,
        Planned-append a (xs ++ ys) r.submitted (x ++ y) s (kx + ky) ks
            (Planned-append a xs ys x y kx ky hx hy) hs,
        subst (λ w. Perm w all) (sym (append_assoc ps r.puts ((x ++ y) ++ s)))
            (Perm.trans (Perm.append_left ps (moved r.puts x y s))
              (subst (λ w. Perm (ps ++ w) all) whole perm)),
        omega (arith, e, fx, fz, fs),
      )

  Runs-Left :
      (start left : List Job) (all ps : List Put) (total n : ℕ)
      → Planned a start all total
      → Runs a start ps n left
      → Left all ps total n left
  Runs-Left start left all ps total n p begins = (all, total, p, Perm.refl all, omega arith)
  Runs-Left start left all ps total n p (runs_one xs ys j ps' n' r) =
      step-Left all ps' total n' xs ys j (Runs-Left start (xs ++ j ∷ ys) all ps' total n' p r)

  -- Every task has a part in the count.
  size_positive : (t : Tree) → 0 < size t
  unfolding size
  size_positive (leaf o) = omega arith
  size_positive (folder o ts) = omega arith

  job_positive : (j : Job) (ps : List Put) (n : ℕ) → JobPlan a j ps n → 0 < n
  job_positive (between src dst) ps n (t, h, e, f) = omega (arith, f, size_positive t)
  job_positive (file src dst) ps n (o, got, stream, e, f) = omega (arith, f)

  nothing_left :
      (left : List Job) (q : List Put) (k : ℕ) → Planned a left q k → (left ≡ []) ↔ (k ≡ 0)
  nothing_left [] q k (e, f) = ((λ h. f), (λ h. refl))
  nothing_left (j ∷ js) q k (p, q', k', l, h, hs, e, f) =
      ((λ h'. cc), (λ z. absurd (omega (arith, f, job_positive j p k' h))))

  none_left : (q : List Put) (k : ℕ) (left : List Job) → left ≡ [] → Planned a left q k → q ≡ []
  none_left q k [] e h = h.0
  none_left q k (j ∷ js) e h = cc

  -- If the source answers below a path as a tree says, every file has a stream, and nothing is
  -- canceled, then the task that copies the path to a directory of another storage and those that
  -- it leads to, run in any order, are as many as the tree has folders and twice its files: no
  -- more run, and nothing is left exactly when so many have run. Then the files that have been
  -- put are, up to their order, those of the tree, each with the directory that mirrors its place.
  pub copies-mirror :
      (src dst : Bytes) (t : Tree) (ps : List Put) (n : ℕ) (left : List Job)
      → Holds a src t
      → Runs a (between src dst ∷ []) ps n left
      → (n ≤ size t) × ((left ≡ []) ↔ (n ≡ size t)) × (left ≡ [] → Perm ps (mirror src dst t))
  copies-mirror src dst t ps n left h r =
      let start : Planned a (between src dst ∷ []) (mirror src dst t) (size t) = (
        mirror src dst t,
        [],
        size t,
        0,
        (t, h, refl, refl),
        (refl, refl),
        sym (append-nil (mirror src dst t)),
        omega arith,
      ) in
      let (q, k, p, perm, e) =
        Runs-Left (between src dst ∷ []) left (mirror src dst t) ps (size t) n start r in
      let (to, from) = nothing_left left q k p in
      (
        omega (arith, e),
        ((λ z. omega (arith, e, to z)), (λ z. from (omega (arith, e, z)))),
        λ z.
            subst (λ w. Perm w (mirror src dst t)) (append-nil ps)
              (subst (λ w. Perm (ps ++ w) (mirror src dst t)) (none_left q k left z p) perm),
      )
