-- ===== src/Go/Path/Defs.antt =====
-- The package path (stdpath in the sources), over lists of bytes.
use mathlib.Core.List.{reverse}
use xiaoya_qwen.Prelude.{
  suc, List, [], ◌∷◌, ◌++◌, none, some, Bool, true, false, ◌||◌, Bytes, beq, ◌==◌, if◌then◌else◌,
  take, drop, codes, ◌≡◌, refl,
}
use xiaoya_qwen.Go.Strings.{split, join, last_index}

abbrev pub slash : Bytes
slash = b'/' ∷ []

abbrev pub dot : Bytes
dot = b'.' ∷ []

abbrev pub dot_dot : Bytes
dot_dot = b'.' ∷ b'.' ∷ []

-- A ".." leaves the element above it, if there is one that is not itself a "..".
-- At the root it is dropped, and in a relative path it is kept.
unfoldable pub back : Bool → List Bytes → List Bytes
back rooted [] = if rooted then [] else dot_dot ∷ []
back rooted (top ∷ stack) = if beq top dot_dot then dot_dot ∷ top ∷ stack else stack

unfoldable pub step : Bool → List Bytes → Bytes → List Bytes
unfolding back beq
step rooted stack seg =
    if beq seg [] || beq seg dot
    then stack
    else if beq seg dot_dot
    then back rooted stack
    else seg ∷ stack

-- The elements of a path in turn; the elements of the result are stacked, last first.
unfoldable pub resolve : Bool → List Bytes → List Bytes → List Bytes
unfolding step
resolve rooted stack [] = stack
resolve rooted stack (seg ∷ segs) = resolve rooted (step rooted stack seg) segs

-- path.Clean(p)
unfoldable pub clean : Bytes → Bytes
unfolding resolve split join
clean [] = dot
clean (c ∷ s) =
    if c == b'/'
    then b'/' ∷ join (reverse (resolve true [] (split b'/' s))) slash
    else let out = join (reverse (resolve false [] (split b'/' (c ∷ s)))) slash in
      if beq out [] then dot else out

-- path.Join(a, b): empty elements are ignored, and the result is empty if all are
unfoldable pub join_paths : Bytes → Bytes → Bytes
unfolding clean
join_paths [] [] = []
join_paths [] (c ∷ b) = clean (c ∷ b)
join_paths (c ∷ a) b = clean ((c ∷ a) ++ b'/' ∷ b)

-- path.Split(p): cut behind the last slash
unfoldable pub split_path : Bytes → Bytes × Bytes
unfolding last_index
split_path p = elim (last_index p slash) [
  | none ↦ ([], p)
  | some i ↦ (take (suc i) p, drop (suc i) p)
]

-- path.Dir(p)
unfoldable pub dir : Bytes → Bytes
unfolding split_path clean
dir p = clean (split_path p).0

strip_slashes : Bytes → Bytes
strip_slashes [] = []
strip_slashes (c ∷ s) = if c == b'/' then strip_slashes s else c ∷ s

-- path.Base(p)
unfoldable pub base : Bytes → Bytes
unfolding split_path strip_slashes
base [] = dot
base (c ∷ p) =
    let name = (split_path (reverse (strip_slashes (reverse (c ∷ p))))).1 in
    if beq name [] then slash else name

-- The last part that begins with a dot, read from the end of the path.
ext_scan : Bytes → Bytes → Bytes
ext_scan [] out = []
ext_scan (c ∷ s) out =
    let rest = ext_scan s (c ∷ out) in if c == b'/' then [] else if c == b'.' then c ∷ out else rest

-- path.Ext(p)
unfoldable pub ext : Bytes → Bytes
unfolding ext_scan
ext p = ext_scan (reverse p) []

clean_runs :
    (clean (codes "/a//b/./../c/..") ≡ codes "/a")
    × (clean (codes "/../x/") ≡ codes "/x")
    × (clean (codes "../a/../../b") ≡ codes "../../b")
    × (clean (codes "a/..") ≡ codes ".")
unfolding clean
clean_runs = (refl, refl, refl, refl)

parts_run :
    (dir (codes "/a/b") ≡ codes "/a")
    × (dir (codes "/a") ≡ codes "/")
    × (base (codes "/a/b/") ≡ codes "b")
    × (base (codes "/") ≡ codes "/")
    × (join_paths (codes "/a") (codes "/b") ≡ codes "/a/b")
unfolding dir base join_paths
parts_run = (refl, refl, refl, refl, refl)

ext_runs : (ext (codes "/a.b/c.tar.gz") ≡ codes ".gz") × (ext (codes "/a.b/c") ≡ [])
unfolding ext
ext_runs = (refl, refl)
