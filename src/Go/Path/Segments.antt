-- ===== src/Go/Path/Segments.antt =====
-- The elements of a path, and the rooted path that names spell.
use mathlib.Core.List.{reverse, reverse_aux, reverse_aux-eq, reverse-reverse, reverse-append}
use xiaoya_qwen.Prelude.{
  ℕ, List, [], ◌∷◌, ◌++◌, append_assoc, append-nil, Bool, true, ◌≡◌, refl, ap, sym, ◌≢◌, arith,
  Bytes, All, Lacks, beq, beq_iff, beq-ne, Bool-cases, inl, inr, ◌∙◌,
}
use xiaoya_qwen.Go.Strings.{split, join}
use xiaoya_qwen.Go.Strings.Laws.{split-append_Lacks, split-append, split-Lacks, split-Lacks_other}
use xiaoya_qwen.Go.Path.Defs.{slash, dot, dot_dot, back, step, resolve, clean}

-- An element that `clean` keeps: not empty, not "." or "..", and without a slash.
pub record IsName (s : Bytes) : Type 0 where
  pub not_empty : s ≢ []
  pub not_dot : s ≢ dot
  pub not_dot_dot : s ≢ dot_dot
  pub no_slash : Lacks b'/' s

abbrev pub AllNames : List Bytes → Type 0
AllNames = All IsName

-- Every name behind a slash.
abbrev pub spelled : List Bytes → Bytes
spelled [] = []
spelled (p ∷ ps) = b'/' ∷ (p ++ spelled ps)

-- The rooted path of some names.
abbrev pub absolute : List Bytes → Bytes
absolute [] = slash
absolute (p ∷ ps) = spelled (p ∷ ps)

-- The names that a path, read from the root, goes through.
unfoldable pub elements : Bytes → List Bytes
elements p = reverse (resolve true [] (split b'/' p))

pub split-spelled : (ps : List Bytes) → AllNames ps → split b'/' (spelled ps) ≡ [] ∷ ps
unfolding split
split-spelled [] h = refl
split-spelled (p ∷ ps) h =
    ap (λ r. [] ∷ r)
      (split-append_Lacks b'/' p (spelled ps) h.0.no_slash (split-spelled ps h.1)
        ∙ ap (λ r. r ∷ ps) (append-nil p))

step-name : (r : Bool) (stack : List Bytes) (p : Bytes) → IsName p → step r stack p ≡ p ∷ stack
unfolding step
step-name r stack p h =
    ground
      (arith, beq_iff p [], beq_iff p dot, beq_iff p dot_dot, h.not_empty, h.not_dot, h.not_dot_dot)

pub resolve-names :
    (r : Bool) (stack ps : List Bytes) → AllNames ps → resolve r stack ps ≡ reverse ps ++ stack
unfolding resolve
resolve-names r stack [] h = refl
resolve-names r stack (p ∷ ps) h = rw (step-name r stack p h.0) (
    resolve-names r (p ∷ stack) ps h.1
    ∙ sym (append_assoc (reverse ps) (p ∷ []) stack)
    ∙ ap (λ t. t ++ stack) (sym (reverse_aux-eq ps (p ∷ []))))

pub resolve-append :
    (r : Bool) (stack xs ys : List Bytes)
    → resolve r stack (xs ++ ys) ≡ resolve r (resolve r stack xs) ys
unfolding resolve
resolve-append r stack [] ys = refl
resolve-append r stack (x ∷ xs) ys = resolve-append r (step r stack x) xs ys

back-names : (stack : List Bytes) → AllNames stack → AllNames (back true stack)
unfolding back
back-names [] h = tt
back-names (top ∷ stack) h = ground (arith, beq_iff top dot_dot, h.0.not_dot_dot)

step-AllNames :
    (stack : List Bytes) (seg : Bytes)
    → AllNames stack
    → Lacks b'/' seg
    → AllNames (step true stack seg)
unfolding step
step-AllNames stack seg h l = elim (Bool-cases (beq seg [])) [
  | inl e ↦ rw e h
  | inr e ↦ elim (Bool-cases (beq seg dot)) [
    | inl d ↦ rw (e, d) h
    | inr d ↦ elim (Bool-cases (beq seg dot_dot)) [
      | inl u ↦ rw (e, d, u) (back-names stack h)
      | inr u ↦
          rw (e, d, u)
            (
              record {
                not_empty = beq-ne seg [] e;
                not_dot = beq-ne seg dot d;
                not_dot_dot = beq-ne seg dot_dot u;
                no_slash = l;
              },
              h,
            )
    ]
  ]
]

resolve-AllNames :
    (stack segs : List Bytes)
    → AllNames stack
    → All (Lacks b'/') segs
    → AllNames (resolve true stack segs)
unfolding resolve
resolve-AllNames stack [] h l = h
resolve-AllNames stack (seg ∷ segs) h l =
    resolve-AllNames (step true stack seg) segs (step-AllNames stack seg h l.0) l.1

All-reverse {κ} :
    (P : Bytes → Type κ) (xs ys : List Bytes) → All P xs → All P ys → All P (reverse_aux xs ys)
All-reverse P [] ys hx hy = hy
All-reverse P (x ∷ xs) ys hx hy = All-reverse P xs (x ∷ ys) hx.1 (hx.0, hy)

-- What holds of the elements of a path holds of those of its clean form.
module _ (P : Bytes → Type 0) where
  step-All :
      (stack : List Bytes) (seg : Bytes)
      → P dot_dot
      → All P stack
      → P seg
      → All P (step true stack seg)
  unfolding step back
  step-All [] seg d h l = ground arith
  step-All (top ∷ stack) seg d h l = ground arith

  resolve-All :
      (stack segs : List Bytes)
      → P dot_dot
      → All P stack
      → All P segs
      → All P (resolve true stack segs)
  unfolding resolve
  resolve-All stack [] d h l = h
  resolve-All stack (seg ∷ segs) d h l =
      resolve-All (step true stack seg) segs d (step-All stack seg d h l.0) l.1

pub elements-Lacks : (b : ℕ) (p : Bytes) → Lacks b dot_dot → Lacks b p → All (Lacks b) (elements p)
unfolding elements
elements-Lacks b p d h =
    All-reverse (Lacks b) (resolve true [] (split b'/' p)) []
      (resolve-All (Lacks b) [] (split b'/' p) d tt (split-Lacks_other b'/' b p h)) tt

pub elements-AllNames : (p : Bytes) → AllNames (elements p)
unfolding elements
elements-AllNames p =
    All-reverse IsName (resolve true [] (split b'/' p)) []
      (resolve-AllNames [] (split b'/' p) tt (split-Lacks b'/' p)) tt

resolve-empty : (r : Bool) (stack ps : List Bytes) → resolve r stack ([] ∷ ps) ≡ resolve r stack ps
unfolding resolve step beq
resolve-empty r stack ps = refl

-- A leading slash does not count.
pub elements-slash : (p : Bytes) → elements (b'/' ∷ p) ≡ elements p
unfolding elements split resolve step beq
elements-slash p = refl

pub elements-spelled : (ps : List Bytes) → AllNames ps → elements (spelled ps) ≡ ps
unfolding elements
elements-spelled ps h =
    rw (split-spelled ps h, resolve-empty, resolve-names true [] ps h, append-nil)
      (reverse-reverse ps)

-- Reading a path behind another one adds its names to what the first one leaves.
pub elements-append :
    (p : Bytes) (qs : List Bytes)
    → AllNames qs
    → elements (p ++ b'/' ∷ spelled qs) ≡ elements p ++ qs
unfolding elements
elements-append p qs h = rw (
  split-append b'/' p (spelled qs),
  split-spelled qs h,
  resolve-append,
  resolve-empty,
  resolve-names true (resolve true [] (split b'/' p)) qs h,
  reverse-append,
  reverse-reverse,
)

pub elements-append_slash : (p : Bytes) → elements (p ++ slash) ≡ elements p
unfolding elements split
elements-append_slash p =
    rw (split-append b'/' p [], resolve-append, resolve-empty) (unfold resolve in refl)

pub elements-append_absolute :
    (p : Bytes) (qs : List Bytes)
    → AllNames qs
    → elements (p ++ b'/' ∷ absolute qs) ≡ elements p ++ qs
unfolding elements split
elements-append_absolute p [] h =
    rw (split-append b'/' p slash, resolve-append, resolve-empty, resolve-empty, append-nil)
      (unfold resolve in refl)
elements-append_absolute p (q ∷ qs) h = elements-append p (q ∷ qs) h

join-spelled : (p : Bytes) (ps : List Bytes) → b'/' ∷ join (p ∷ ps) slash ≡ spelled (p ∷ ps)
unfolding join
join-spelled p [] = ap (λ r. b'/' ∷ r) (sym (append-nil p))
join-spelled p (q ∷ ps) = ap (λ r. b'/' ∷ (p ++ r)) (join-spelled q ps)

absolute-join : (ps : List Bytes) → b'/' ∷ join ps slash ≡ absolute ps
unfolding join
absolute-join [] = refl
absolute-join (p ∷ ps) = join-spelled p ps

-- The clean form of a rooted path spells its elements.
pub clean-rooted : (p : Bytes) → clean (b'/' ∷ p) ≡ absolute (elements p)
unfolding clean elements
clean-rooted p = absolute-join (elements p)

pub elements-absolute : (ps : List Bytes) → AllNames ps → elements (absolute ps) ≡ ps
elements-absolute [] h = unfold elements split resolve step beq in refl
elements-absolute (p ∷ ps) h = elements-spelled (p ∷ ps) h

absolute-slash : (ps : List Bytes) → (t : Bytes) × (absolute ps ≡ b'/' ∷ t)
absolute-slash [] = ([], refl)
absolute-slash (p ∷ ps) = (p ++ spelled ps, refl)

-- Names can be read back from their rooted path, so the path is its own clean form.
pub clean-absolute : (ps : List Bytes) → AllNames ps → clean (absolute ps) ≡ absolute ps
clean-absolute ps h =
    let (t, e) = absolute-slash ps in
    rw (e, clean-rooted t, ← elements-slash t, ← e) (ap absolute (elements-absolute ps h))
