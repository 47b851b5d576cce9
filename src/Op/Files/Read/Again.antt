-- ===== src/Op/Files/Read/Again.antt =====
-- List and its cache.
use xiaoya_qwen.Prelude.{
  List, [], ◌∷◌, Bytes, Bool, true, false, not, beq_refl, if◌then◌else◌, Bool-cases, inl, inr, ◌⊎◌,
  Option, none, some, ◌≡◌, refl, sym, ap, ◌∙◌,
}
use xiaoya_qwen.Utils.Path.{fix_and_clean_path}
use xiaoya_qwen.Model.Objects.{Obj, Listed}
use xiaoya_qwen.Op.Files.Monad.{M, fail, Answer, ok, err, next, not_folder}
use xiaoya_qwen.Op.Files.Env.{Env, Fs}
use xiaoya_qwen.Op.Files.Listing.{key}
use xiaoya_qwen.Op.Files.Read.{
  is_not_init, arrange, keep, list_dir, list_cached, list_with, get_unwrap, list,
}

if_false : {X : Type 0} (b : Bool) (x y : X) → b ≡ false → (if b then x else y) ≡ y
if_false true x y h = cc
if_false false x y h = refl

chosen : {S X : Type 0} (b : Bool) (m n : M S X) (s : S) → b ≡ false → (if b then m else n) s ≡ n s
chosen true m n s h = cc
chosen false m n s h = refl

passed : {S X : Type 0} (b : Bool) (m n : M S X) (s : S) → b ≡ true → (if b then m else n) s ≡ m s
passed true m n s h = refl
passed false m n s h = cc

module _ (e : Env) where
  open e use {remote, storage, lists}

  -- What is cached for a directory.
  abbrev pub cached : Bytes → Fs e → Option (List Listed)
  cached path s = lists.get s.list_cache (key storage path)

  keep-cached :
      (path : Bytes) (o : Listed) (os : List Listed) (s : Fs e)
      → cached path (keep e (key storage path) (o ∷ os) s) ≡ some (o ∷ os)
  unfolding keep
  keep-cached path o os s =
      lists.get-set s.list_cache (key storage path) (key storage path) (o ∷ os)
      ∙ ap (λ b. if b then some (o ∷ os) else cached path s) (beq_refl (key storage path))

  kept :
      (path : Bytes) (files : List Listed) (o : Listed) (os : List Listed) (s s' : Fs e)
      → ◌≡◌ {A = Option (Answer (List Listed) × Fs e)}
          (some (ok files, keep e (key storage path) files s))
          (some (ok (o ∷ os), s'))
      → cached path s' ≡ some (o ∷ os)
  kept path [] o os s s' q = cc
  kept path (f ∷ fs) o os s s' q =
      let after : keep e (key storage path) (f ∷ fs) s ≡ s' = cc in
      let same : f ∷ fs ≡ o ∷ os = cc in
      ap (cached path) (sym after) ∙ keep-cached path f fs s ∙ ap some same

  listed :
      (path : Bytes) (dir : Obj) (found : Answer (List Obj)) (o : Listed) (os : List Listed)
      (s s' : Fs e)
      → storage.config.no_cache ≡ false
      → next (some (found, s)) (λ objs s. some (
        ok (arrange e dir objs),
        if storage.config.no_cache then s else keep e (key storage path) (arrange e dir objs) s,
      ))
        ≡ some (ok (o ∷ os), s')
      → cached path s' ≡ some (o ∷ os)
  listed path dir (err x) o os s s' n q = cc
  listed path dir (ok objs) o os s s' n q = kept path (arrange e dir objs) o os s s' (
      ap (λ t. some (ok (arrange e dir objs), t)) (sym (if_false storage.config.no_cache s _ n))
      ∙ q)

  list_dir-cached :
      (path : Bytes) (dir : Obj) (o : Listed) (os : List Listed) (s s' : Fs e)
      → storage.config.no_cache ≡ false
      → list_dir e path dir s ≡ some (ok (o ∷ os), s')
      → cached path s' ≡ some (o ∷ os)
  unfolding list_dir
  list_dir-cached path dir o os s s' n q = elim (Bool-cases dir.is_dir) [
    | inl d ↦
        listed path dir (remote.list dir s.world).0 o os _ s' n
          (sym (chosen (not dir.is_dir) (fail not_folder) _ s (ap not d)) ∙ q)
    | inr d ↦ cc (sym (passed (not dir.is_dir) (fail not_folder) _ s (ap not d)) ∙ q)
  ]

  list_cached-cached :
      (path : Bytes) (found : Option (List Listed)) (o : Listed) (os : List Listed) (s s' : Fs e)
      → storage.config.no_cache ≡ false
      → (found ≡ none) ⊎ (found ≡ cached path s)
      → list_cached e (get_unwrap e) path found s ≡ some (ok (o ∷ os), s')
      → cached path s' ≡ some (o ∷ os)
  unfolding list_cached
  list_cached-cached path (some files) o os s s' n (inl c) q = cc
  list_cached-cached path (some files) o os s s' n (inr c) q =
      let after : s ≡ s' = cc in
      let same : files ≡ o ∷ os = cc in ap (cached path) (sym after) ∙ sym c ∙ ap some same
  list_cached-cached path none o os s s' n c q = from_dir (get_unwrap e path s) q
    where
      from_dir :
          (got : Option (Answer Obj × Fs e))
          → next got (list_dir e path) ≡ some (ok (o ∷ os), s')
          → cached path s' ≡ some (o ∷ os)
      from_dir none r = cc
      from_dir (some (err x, t)) r = cc
      from_dir (some (ok dir, t)) r = list_dir-cached path dir o os t s' n r

  refresh-cases :
      (refresh : Bool) (found : Option (List Listed))
      → ((if refresh then none else found) ≡ none) ⊎ ((if refresh then none else found) ≡ found)
  refresh-cases true found = inl refl
  refresh-cases false found = inr refl

  -- If a storage caches its listings and List, with or without a refresh, gives a listing that
  -- is not empty, then a List of the same path that follows gives the same listing, and the
  -- state stays as it is.
  pub list-again :
      (path : Bytes) (refresh : Bool) (o : Listed) (os : List Listed) (s s' : Fs e)
      → storage.config.no_cache ≡ false
      → list e path refresh s ≡ some (ok (o ∷ os), s')
      → list e path false s' ≡ some (ok (o ∷ os), s')
  unfolding list list_with list_cached
  list-again path refresh o os s s' n q = elim (Bool-cases (is_not_init e)) [
    | inl i ↦ cc (rw i at q)
    | inr i ↦
        rw
          (
            i,
            list_cached-cached (fix_and_clean_path path) _ o os s s' n (refresh-cases refresh _)
                (rw i at q),
          )
          refl
  ]
