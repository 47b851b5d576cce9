-- ===== src/Utils/Path/SubPath.antt =====
-- IsSubPath in terms of the names of the two paths.
use mathlib.Core.List.{reverse, reverse-append, reverse-reverse}
use xiaoya_qwen.Prelude.{
  List, [], ◌∷◌, ◌++◌, true, ◌||◌, ◌≡◌, refl, Bytes, beq, ◌∙◌, sym, ap, Bool-cases, inl, inr, ◌↔◌,
  beq_iff, ◌≢◌, append_assoc, append-nil, beq_refl, ||_cases, ||_right, List-cases,
}
use xiaoya_qwen.Go.Strings.{has_prefix, has_suffix, split}
use xiaoya_qwen.Go.Strings.Laws.{has_prefix→append, has_prefix-append, split-append}
use xiaoya_qwen.Go.Path.{
  slash, absolute, spelled, AllNames, split-spelled, absolute-no_end_slash, spelled-append, IsName,
  Begins, absolute-injective, Begins-refl,
}
use xiaoya_qwen.Utils.Path.{path_add_separator_suffix, is_sub_path}
use xiaoya_qwen.Utils.Path.Clean.{names, names-AllNames, fix_and_clean_path-absolute}

has_suffix→append : (s : Bytes) → has_suffix s slash ≡ true → (r : Bytes) × (s ≡ r ++ slash)
unfolding has_suffix
has_suffix→append s h =
    let (r, e) = has_prefix→append (reverse s) slash h in
    (reverse r, sym (reverse-reverse s) ∙ ap reverse e ∙ reverse-append slash r)

-- A cleaned path other than the root gets a slash, and the root has one already.
pub add_separator-absolute :
    (p : Bytes) (ps : List Bytes)
    → AllNames (p ∷ ps)
    → path_add_separator_suffix (absolute (p ∷ ps)) ≡ absolute (p ∷ ps) ++ slash
unfolding path_add_separator_suffix
add_separator-absolute p ps h = elim (Bool-cases (has_suffix (absolute (p ∷ ps)) slash)) [
  | inl e ↦
      let (r, q) = has_suffix→append (absolute (p ∷ ps)) e in
      absurd (absolute-no_end_slash p ps r h q)
  | inr e ↦ rw e refl
]

add_separator-root : path_add_separator_suffix (absolute []) ≡ slash
unfolding path_add_separator_suffix has_suffix has_prefix
add_separator-root = refl

names_tail : (xs ys zs : List Bytes) → [] ∷ ys ≡ ([] ∷ xs) ++ zs → ys ≡ xs ++ zs
names_tail xs ys zs e = cc

no_root : (x s r : Bytes) → IsName x → slash ≢ ((b'/' ∷ (x ++ s)) ++ slash) ++ r
no_root [] s r h e = h.not_empty refl
no_root (c ∷ x) s r h e = cc

-- The prefix test, both ways.
prefix-Begins :
    (xs ys : List Bytes)
    → AllNames xs
    → AllNames ys
    → has_prefix (absolute ys) (path_add_separator_suffix (absolute xs)) ≡ true
    → Begins xs ys
prefix-Begins [] ys hx hy h = (ys, refl)
prefix-Begins (x ∷ xs) [] hx hy h =
    let (r, e) =
      has_prefix→append (absolute []) (absolute (x ∷ xs) ++ slash)
        (rw (add_separator-absolute x xs hx) at h) in
    absurd (no_root x (spelled xs) r hx.0 e)
prefix-Begins (x ∷ xs) (y ∷ ys) hx hy h =
    let (r, e) =
      has_prefix→append (absolute (y ∷ ys)) (absolute (x ∷ xs) ++ slash)
        (rw (add_separator-absolute x xs hx) at h) in
    let q : split b'/' (absolute (y ∷ ys)) ≡ split b'/' (absolute (x ∷ xs)) ++ split b'/' r =
      ap (split b'/') (e ∙ append_assoc (absolute (x ∷ xs)) slash r)
      ∙ split-append b'/' (absolute (x ∷ xs)) r in
    (
      split b'/' r,
      names_tail (x ∷ xs) (y ∷ ys) (split b'/' r)
          (rw (split-spelled (y ∷ ys) hy, split-spelled (x ∷ xs) hx) at q),
    )

prefix-extends :
    (xs : List Bytes) (q : Bytes) (qs : List Bytes)
    → AllNames xs
    → has_prefix (absolute (xs ++ q ∷ qs)) (path_add_separator_suffix (absolute xs)) ≡ true
prefix-extends [] q qs h = rw add_separator-root (has_prefix-append slash (q ++ spelled qs))
prefix-extends (x ∷ xs) q qs h =
    rw
      (
        add_separator-absolute x xs h,
        spelled-append (x ∷ xs) (q ∷ qs),
        ← append_assoc (spelled (x ∷ xs)) slash (q ++ spelled qs),
      )
      (has_prefix-append (spelled (x ∷ xs) ++ slash) (q ++ spelled qs))

Begins-prefix :
    (xs ys : List Bytes)
    → AllNames xs
    → Begins xs ys
    → (beq (absolute xs) (absolute ys)
        || has_prefix (absolute ys) (path_add_separator_suffix (absolute xs)))
      ≡ true
Begins-prefix xs ys hx (t, e) = elim (List-cases t) [
  | inl n ↦ rw (e, n, append-nil, beq_refl (absolute xs))
  | inr (q, qs, n) ↦
      ||_right (beq (absolute xs) (absolute ys)) _ (rw (e, n) (prefix-extends xs q qs hx))
]

-- A path is a sub-path of another exactly when its names begin with the other's names.
pub is_sub_path_iff : (p q : Bytes) → (is_sub_path p q ≡ true) ↔ Begins (names p) (names q)
unfolding is_sub_path
is_sub_path_iff p q =
    rw (fix_and_clean_path-absolute p, fix_and_clean_path-absolute q)
      (
        λ h. elim (||_cases _ _ h) [
          | inl e ↦
              rw (absolute-injective _ _ (names-AllNames p) (names-AllNames q) ((beq_iff _ _).0 e))
                (Begins-refl (names q))
          | inr e ↦ prefix-Begins (names p) (names q) (names-AllNames p) (names-AllNames q) e
        ],
        Begins-prefix (names p) (names q) (names-AllNames p),
      )
