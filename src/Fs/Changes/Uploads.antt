-- ===== src/Fs/Changes/Uploads.antt =====
-- An upload as a task beside a direct one.
use xiaoya_qwen.Prelude.{
  Bytes, true, false, Option, none, some, ◌≡◌, refl, ap, ◌∙◌, Bool-cases, inl, inr, Option-cases,
  ◌⊎◌, if◌then◌else◌, arith,
}
use xiaoya_qwen.Op.Storages.{
  StoragesMap, BalanceMap, Found, found, no_storage, not_found, get_storage_and_actual_path,
}
use xiaoya_qwen.Fs.Changes.{
  Changes, Changed, put_found, put_directly, stored, task_found, put_as_task, run_upload,
}

module _ (o : Changes) where
  open o use {State, File}

  -- The file that a task puts: the one of the request, or a copy of it on the disk.
  abbrev pub kept : File → Option File
  kept file = if o.need_store file then o.create_temp_file file else some file

  made : (file : File) → o.need_store file ≡ true → o.create_temp_file file ≡ kept file
  made file n = rw n refl

  not_made : (file : File) → o.need_store file ≡ false → some file ≡ kept file
  not_made file n = rw n refl

  task_found-put_found :
      (place : Found) (file f : File) (s : State)
      → kept file ≡ some f
      → run_upload o (task_found o place file) s ≡ put_found o place f true s
  unfolding task_found run_upload put_found stored
  task_found-put_found (found d p) file f s k = elim (Bool-cases d.config.no_upload) [
    | inl never ↦ rw never refl
    | inr can ↦ elim (Bool-cases (o.need_store file)) [
      | inl n ↦ rw (can, n, made file n ∙ k) refl
      | inr n ↦ let same : file ≡ f = cc (not_made file n, k) in rw (can, n, same) refl
    ]
  ]
  task_found-put_found no_storage file f s k = refl
  task_found-put_found (not_found p) file f s k = refl

  task_found-unkept :
      (place : Found) (file : File) (s : State)
      → kept file ≡ none
      → (run_upload o (task_found o place file) s).1 ≡ s
  unfolding task_found run_upload stored
  task_found-unkept (found d p) file s k = elim (Bool-cases d.config.no_upload) [
    | inl never ↦ rw never refl
    | inr can ↦ elim (Bool-cases (o.need_store file)) [
      | inl n ↦ rw (can, n, made file n ∙ k) refl
      | inr n ↦ absurd (ground (arith, not_made file n ∙ k))
    ]
  ]
  task_found-unkept no_storage file s k = refl
  task_found-unkept (not_found p) file s k = refl

  -- The task of an upload, once it has run.
  abbrev pub run_task :
      StoragesMap → Bytes → File → BalanceMap → State → Changed × State × BalanceMap
  run_task m dst file b s =
      let (t, b') = put_as_task o m dst file b in let (r, s') = run_upload o t s in (r, s', b')

  -- Whatever the storages, putAsTask, with the function of its task, comes to what putDirectly
  -- comes to with a lazy cache, the same error or the same operation of the storage, for the file
  -- that the task keeps: a copy on the disk, if the file has to be stored, and else the file
  -- itself. Where no copy can be made, nothing is uploaded.
  pub put_as_task-put_directly :
      (m : StoragesMap) (dst : Bytes) (file : File) (b : BalanceMap) (s : State)
      → ((f : File) × (kept file ≡ some f)
          × (run_task m dst file b s ≡ put_directly o m dst f true b s))
        ⊎ ((kept file ≡ none) × ((run_task m dst file b s).1 ≡ s))
  unfolding put_as_task put_directly
  put_as_task-put_directly m dst file b s =
      let (place, b') = get_storage_and_actual_path m dst b in
      elim (Option-cases (kept file)) [
        | inl k ↦ inr (k, task_found-unkept place file s k)
        | inr (f, k) ↦ inl (
          f,
          k,
          ap (λ (x : Changed × State). (x.0, x.1, b')) (task_found-put_found place file f s k),
        )
      ]
