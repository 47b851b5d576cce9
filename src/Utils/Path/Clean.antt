-- ===== src/Utils/Path/Clean.antt =====
-- What FixAndCleanPath makes of a path, in terms of the names it goes through.
use xiaoya_qwen.Prelude.{
  ℕ, List, [], ◌∷◌, ◌++◌, true, ◌≡◌, Bytes, if◌then◌else◌, ◌∙◌, sym, ap, Bool-cases, inl, inr, ◌↔◌,
  beq_iff, arith, All, All-append, Lacks, ◌≢◌,
}
use xiaoya_qwen.Go.Strings.{has_prefix, replace_all}
use xiaoya_qwen.Go.Strings.Laws.{has_prefix→append, replace_all-Lacks, replace_all-none}
use xiaoya_qwen.Go.Path.{
  slash, clean, elements-Lacks, absolute, spelled, elements, AllNames, elements-AllNames,
  clean-rooted, elements-slash, elements-absolute, absolute-injective,
}
use xiaoya_qwen.Utils.Path.{fix_and_clean_path, path_equal}

-- The names that a request path goes through from the root, with backslashes read as slashes.
unfoldable pub names : Bytes → List Bytes
names path = elements (replace_all path b'\\' slash)

pub names-AllNames : (path : Bytes) → AllNames (names path)
unfolding names
names-AllNames path = elements-AllNames (replace_all path b'\\' slash)

rooted : (p : Bytes) → clean (if has_prefix p slash then p else slash ++ p) ≡ absolute (elements p)
rooted p = elim (Bool-cases (has_prefix p slash)) [
  | inl h ↦ let (r, e) = has_prefix→append p slash h in rw (h, e, elements-slash r) (clean-rooted r)
  | inr h ↦ rw h (clean-rooted p)
]

-- FixAndCleanPath returns the path that spells the names of its argument from the root.
pub fix_and_clean_path-absolute : (path : Bytes) → fix_and_clean_path path ≡ absolute (names path)
unfolding fix_and_clean_path names
fix_and_clean_path-absolute path = rooted (replace_all path b'\\' slash)

absolute-Lacks : (b : ℕ) (ps : List Bytes) → b'/' ≢ b → All (Lacks b) ps → Lacks b (absolute ps)
absolute-Lacks b [] n h = (n, tt)
absolute-Lacks b (p ∷ []) n h = (n, All-append (λ x. x ≢ b) p [] h.0 tt)
absolute-Lacks b (p ∷ q ∷ ps) n h =
    (n, All-append (λ x. x ≢ b) p _ h.0 (absolute-Lacks b (q ∷ ps) n h.1))

pub names-Lacks : (path : Bytes) → All (Lacks b'\\') (names path)
unfolding names
names-Lacks path =
    elements-Lacks b'\\' (replace_all path b'\\' slash) (omega arith)
      (replace_all-Lacks path b'\\' slash (omega arith))

-- Without a backslash the names of a text are its elements.
pub names-elements : (p : Bytes) → Lacks b'\\' p → names p ≡ elements p
unfolding names
names-elements p h = ap elements (replace_all-none p b'\\' slash h)

pub spelled-Lacks : (b : ℕ) (ps : List Bytes) → b'/' ≢ b → All (Lacks b) ps → Lacks b (spelled ps)
spelled-Lacks b [] n h = tt
spelled-Lacks b (p ∷ ps) n h = (n, All-append (λ x. x ≢ b) p _ h.0 (spelled-Lacks b ps n h.1))

-- The names of a path that is spelled from names without a backslash.
pub names-absolute :
    (ps : List Bytes) → AllNames ps → All (Lacks b'\\') ps → names (absolute ps) ≡ ps
unfolding names
names-absolute ps h l =
    rw (replace_all-none (absolute ps) b'\\' slash (absolute-Lacks b'\\' ps (omega arith) l))
      (elements-absolute ps h)

-- The clean form goes through the same names.
pub names-fix : (path : Bytes) → names (fix_and_clean_path path) ≡ names path
names-fix path =
    rw (fix_and_clean_path-absolute path)
      (names-absolute (names path) (names-AllNames path) (names-Lacks path))

-- Cleaning twice is cleaning once.
pub fix_and_clean_path_idem :
    (path : Bytes) → fix_and_clean_path (fix_and_clean_path path) ≡ fix_and_clean_path path
fix_and_clean_path_idem path =
    fix_and_clean_path-absolute (fix_and_clean_path path)
    ∙ ap absolute (names-fix path)
    ∙ sym (fix_and_clean_path-absolute path)

-- Two paths are equal for the server exactly when they go through the same names.
pub path_equal_iff : (p q : Bytes) → (path_equal p q ≡ true) ↔ (names p ≡ names q)
unfolding path_equal
path_equal_iff p q = (
  λ h.
      absolute-injective (names p) (names q) (names-AllNames p) (names-AllNames q)
        (sym (fix_and_clean_path-absolute p) ∙ (beq_iff _ _).0 h ∙ fix_and_clean_path-absolute q),
  λ e.
      (beq_iff _ _).1
        (fix_and_clean_path-absolute p ∙ ap absolute e ∙ sym (fix_and_clean_path-absolute q)),
)
