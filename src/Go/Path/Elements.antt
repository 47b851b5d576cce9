-- ===== src/Go/Path/Elements.antt =====
-- Rooted paths by their names; the last name, and the path above it.
use mathlib.Core.List.{reverse, reverse-reverse, reverse-append, reverse_aux-eq}
use xiaoya_qwen.Prelude.{
  Bool, true, beq_iff, beq, arith, suc, List, [], ◌∷◌, ◌++◌, append_assoc, append-nil, ◌≡◌, refl,
  ap, sym, ◌≢◌, arith, Bytes, All-In, In-append_right, Lacks, none, some, beq, inl, ◌∙◌, length,
  take, drop,
}
use xiaoya_qwen.Go.Strings.{split, has_prefix, last_index}
use xiaoya_qwen.Go.Strings.Laws.{split-append, split-lone}
use xiaoya_qwen.Go.Path.Defs.{
  slash, clean, dot_dot, back, resolve, step, split_path, dir, join_paths,
}
use xiaoya_qwen.Go.Path.Segments.{
  AllNames, IsName, absolute, split-spelled, spelled, elements, elements-absolute,
  elements-append_slash, resolve-append, resolve-names, clean-rooted, elements-slash,
  elements-append_absolute,
}

-- The first list begins the second one.
abbrev pub Begins : List Bytes → List Bytes → Type 0
Begins xs ys = (t : List Bytes) × (ys ≡ xs ++ t)

pub Begins-refl : (xs : List Bytes) → Begins xs xs
Begins-refl xs = ([], sym (append-nil xs))

pub Begins-trans :
    (xs : List Bytes) {ys zs : List Bytes} → Begins xs ys → Begins ys zs → Begins xs zs
Begins-trans xs (t, p) (u, q) = (t ++ u, q ∙ ap (λ r. r ++ u) p ∙ append_assoc xs t u)

pub absolute-injective :
    (xs ys : List Bytes) → AllNames xs → AllNames ys → absolute xs ≡ absolute ys → xs ≡ ys
absolute-injective xs ys hx hy e =
    sym (elements-absolute xs hx) ∙ ap elements e ∙ elements-absolute ys hy

pub spelled-append : (xs ys : List Bytes) → spelled (xs ++ ys) ≡ spelled xs ++ spelled ys
spelled-append [] ys = refl
spelled-append (x ∷ xs) ys =
    ap (λ r. b'/' ∷ r) (ap (λ r. x ++ r) (spelled-append xs ys) ∙ sym (append_assoc x _ _))

names_end : (ps qs : List Bytes) → AllNames ps → ps ≢ qs ++ [] ∷ []
names_end ps qs h e =
    (All-In IsName (qs ++ [] ∷ []) [] (rw e at h)
        (In-append_right [] qs ([] ∷ []) (inl refl))).not_empty
      refl

tail_end : (ps qs : List Bytes) → AllNames ps → ps ≢ [] → [] ∷ ps ≢ qs ++ [] ∷ []
tail_end ps [] h ne e = ne (cc)
tail_end ps (q ∷ qs) h ne e = names_end ps qs h (cc)

-- A rooted path with a name in it does not end in a slash.
pub absolute-no_end_slash :
    (p : Bytes) (ps : List Bytes) (r : Bytes) → AllNames (p ∷ ps) → absolute (p ∷ ps) ≢ r ++ slash
unfolding split
absolute-no_end_slash p ps r h e =
    tail_end (p ∷ ps) (split b'/' r) h (cc)
      (sym (split-spelled (p ∷ ps) h) ∙ ap (split b'/') e ∙ split-append b'/' r [])

-- One more name behind a path.
pub elements-append_name :
    (p n : Bytes) → IsName n → elements (p ++ b'/' ∷ n) ≡ elements p ++ n ∷ []
unfolding elements
elements-append_name p n h =
    rw
      (
        split-append b'/' p n,
        split-lone b'/' n h.no_slash,
        resolve-append,
        resolve-names true (resolve true [] (split b'/' p)) (n ∷ []) (h, tt),
      )
      (reverse_aux-eq (resolve true [] (split b'/' p)) (n ∷ []))

back-name : (r : Bool) (q : Bytes) (stack : List Bytes) → IsName q → back r (q ∷ stack) ≡ stack
unfolding back
back-name r q stack h = ground (arith, beq_iff q dot_dot, h.not_dot_dot)

-- A ".." behind a path drops its last name.
pub elements-append_up :
    (p q : Bytes) (ps : List Bytes)
    → IsName q
    → elements p ≡ ps ++ q ∷ []
    → elements (p ++ b'/' ∷ dot_dot) ≡ ps
unfolding elements
elements-append_up p q ps h e =
    let stack : resolve true [] (split b'/' p) ≡ q ∷ reverse ps =
      sym (reverse-reverse _) ∙ ap reverse e ∙ reverse-append ps (q ∷ []) in
    rw (split-append b'/' p dot_dot, resolve-append, stack)
      (unfold split resolve step beq in rw (back-name true q (reverse ps) h) (reverse-reverse ps))

-- Joining a rooted path and a text: what `clean` makes of the two.
pub join_paths-rooted :
    (ps : List Bytes) (t : Bytes)
    → join_paths (absolute ps) t ≡ absolute (elements (absolute ps ++ b'/' ∷ t))
unfolding join_paths
join_paths-rooted [] t = clean-rooted (b'/' ∷ t) ∙ ap absolute (sym (elements-slash (b'/' ∷ t)))
join_paths-rooted (p ∷ ps) t =
    clean-rooted ((p ++ spelled ps) ++ b'/' ∷ t)
    ∙ ap absolute (sym (elements-slash ((p ++ spelled ps) ++ b'/' ∷ t)))

pub join_paths-absolute :
    (ps qs : List Bytes)
    → AllNames ps
    → AllNames qs
    → join_paths (absolute ps) (absolute qs) ≡ absolute (ps ++ qs)
join_paths-absolute ps qs hp hq =
    join_paths-rooted ps (absolute qs)
    ∙ ap absolute
        (elements-append_absolute (absolute ps) qs hq ∙ ap (λ r. r ++ qs) (elements-absolute ps hp))

pub join_paths-name :
    (ps : List Bytes) (n : Bytes)
    → AllNames ps
    → IsName n
    → join_paths (absolute ps) n ≡ absolute (ps ++ n ∷ [])
join_paths-name ps n hp hn =
    join_paths-rooted ps n
    ∙ ap absolute
        (elements-append_name (absolute ps) n hn ∙ ap (λ r. r ++ n ∷ []) (elements-absolute ps hp))

last_index-Lacks : (n : Bytes) → Lacks b'/' n → last_index n slash ≡ none
unfolding last_index has_prefix
last_index-Lacks [] h = refl
last_index-Lacks (c ∷ n) h = ground (arith, last_index-Lacks n h.1)

last_index-append :
    (s n : Bytes) → Lacks b'/' n → last_index (s ++ b'/' ∷ n) slash ≡ some (length s)
unfolding last_index has_prefix
last_index-append [] n h = ground (arith, last_index-Lacks n h)
last_index-append (c ∷ s) n h = ground (arith, last_index-append s n h)

take-append : (s : Bytes) (n : Bytes) → take (suc (length s)) (s ++ b'/' ∷ n) ≡ s ++ slash
take-append [] n = refl
take-append (c ∷ s) n = ap (λ r. c ∷ r) (take-append s n)

drop-append : (s : Bytes) (n : Bytes) → drop (suc (length s)) (s ++ b'/' ∷ n) ≡ n
drop-append [] n = refl
drop-append (c ∷ s) n = drop-append s n

-- path.Split cuts at the last slash.
pub split_path-append : (s n : Bytes) → Lacks b'/' n → split_path (s ++ b'/' ∷ n) ≡ (s ++ slash, n)
unfolding split_path
split_path-append s n h =
    rw (last_index-append s n h, split_path) (λ i. (take-append s n i, drop-append s n i))

pub spelled-snoc : (ps : List Bytes) (n : Bytes) → absolute (ps ++ n ∷ []) ≡ spelled ps ++ b'/' ∷ n
spelled-snoc [] n = ap (λ r. b'/' ∷ r) (append-nil n)
spelled-snoc (p ∷ ps) n =
    spelled-append (p ∷ ps) (n ∷ []) ∙ ap (λ r. spelled (p ∷ ps) ++ b'/' ∷ r) (append-nil n)

spelled-clean : (ps : List Bytes) → AllNames ps → clean (spelled ps ++ slash) ≡ absolute ps
spelled-clean [] h = clean-rooted [] ∙ unfold elements split resolve step beq in refl
spelled-clean (p ∷ ps) h =
    clean-rooted ((p ++ spelled ps) ++ slash)
    ∙ ap absolute (
        sym (elements-slash ((p ++ spelled ps) ++ slash))
        ∙ elements-append_slash (spelled (p ∷ ps))
        ∙ elements-absolute (p ∷ ps) h)

-- The directory of a rooted path drops the last name.
pub dir-absolute :
    (ps : List Bytes) (n : Bytes)
    → AllNames ps
    → IsName n
    → dir (absolute (ps ++ n ∷ [])) ≡ absolute ps
unfolding dir
dir-absolute ps n h hn =
    rw (spelled-snoc ps n, split_path-append (spelled ps) n hn.no_slash) (spelled-clean ps h)
