-- ===== src/Utils/Path/Parent.antt =====
-- Rooted paths and their last names.
use xiaoya_qwen.Prelude.{
  suc, sym, subst, false, ◌≤◌, ◌⊎◌, inl, inr, List, [], ◌∷◌, ◌++◌, ◌≡◌, ◌≢◌, beq, refl, ap, ◌∙◌,
  Bytes, All, All-append, All-In, In-append_right, Lacks, length, length-append, arith,
}
use xiaoya_qwen.Go.Strings.{split}
use xiaoya_qwen.Go.Path.{
  slash, resolve, step, absolute, spelled, spelled-snoc, elements, elements-absolute,
  elements-append_slash, AllNames, IsName, split_path, split_path-append,
}
use xiaoya_qwen.Utils.Path.Clean.{
  names, names-elements, spelled-Lacks, names-fix, names-absolute, names-AllNames, names-Lacks,
  fix_and_clean_path-absolute, path_equal_iff,
}
use xiaoya_qwen.Utils.Path.{fix_and_clean_path, path_equal}

pub snoc-cases :
    (ps : List Bytes) → (ps ≡ []) ⊎ ((qs : List Bytes) × (n : Bytes) × (ps ≡ qs ++ n ∷ []))
snoc-cases [] = inl refl
snoc-cases (p ∷ ps) = elim (snoc-cases ps) [
  | inl e ↦ inr ([], p, ap (λ r. p ∷ r) e)
  | inr (qs, n, e) ↦ inr (p ∷ qs, n, ap (λ r. p ∷ r) e)
]

pub All-front {κ} : (P : Bytes → Type κ) (qs rs : List Bytes) → All P (qs ++ rs) → All P qs
All-front P [] rs h = tt
All-front P (q ∷ qs) rs h = (h.0, All-front P qs rs h.1)

length-spelled : (ps : List Bytes) → length ps ≤ length (spelled ps)
length-spelled [] = omega arith
length-spelled (p ∷ ps) = omega (arith, length-append p (spelled ps), length-spelled ps)

pub length-absolute : (ps : List Bytes) → length ps ≤ length (absolute ps)
length-absolute [] = omega arith
length-absolute (p ∷ ps) = length-spelled (p ∷ ps)

elements-behind : (ps : List Bytes) → AllNames ps → elements (spelled ps ++ slash) ≡ ps
elements-behind [] h = unfold elements split resolve step beq in refl
elements-behind (p ∷ ps) h = elements-append_slash (spelled (p ∷ ps)) ∙ elements-absolute (p ∷ ps) h

last-IsName : (qs : List Bytes) (n : Bytes) → AllNames (qs ++ n ∷ []) → IsName n
last-IsName qs n h = All-In IsName (qs ++ n ∷ []) n h (In-append_right n qs (n ∷ []) (inl refl))

-- path.Split of a rooted path: the names before the last one, and the last one.
pub split_path-absolute :
    (qs : List Bytes) (n : Bytes)
    → AllNames (qs ++ n ∷ [])
    → split_path (absolute (qs ++ n ∷ [])) ≡ (spelled qs ++ slash, n)
split_path-absolute qs n h =
    rw (spelled-snoc qs n) (split_path-append (spelled qs) n (last-IsName qs n h).no_slash)

pub names-split_path :
    (qs : List Bytes) (n : Bytes)
    → AllNames (qs ++ n ∷ [])
    → All (Lacks b'\\') (qs ++ n ∷ [])
    → names (split_path (absolute (qs ++ n ∷ []))).0 ≡ qs
names-split_path qs n h l = rw (split_path-absolute qs n h) (
    names-elements (spelled qs ++ slash) (
      All-append (λ x. x ≢ b'\\') (spelled qs) slash
        (spelled-Lacks b'\\' qs (omega arith) (All-front (Lacks b'\\') qs (n ∷ []) l))
        (omega arith, tt))
    ∙ elements-behind qs (All-front IsName qs (n ∷ []) h))

-- The directory above a path that is not the root has one name less.
pub parent_names :
    (path : Bytes)
    → path_equal (fix_and_clean_path path) slash ≡ false
    → suc (length (names (split_path (fix_and_clean_path path)).0)) ≡ length (names path)
parent_names path h = elim (snoc-cases (names path)) [
  | inl e ↦ cc (
    h,
    (path_equal_iff (fix_and_clean_path path) slash).1
        (names-fix path ∙ e ∙ sym (names-absolute [] tt tt)),
  )
  | inr (qs, n, e) ↦
      rw
        (
          fix_and_clean_path-absolute path,
          e,
          names-split_path qs n (subst AllNames e (names-AllNames path))
              (subst (All (Lacks b'\\')) e (names-Lacks path)),
        )
        (omega (arith, length-append qs (n ∷ [])))
]
