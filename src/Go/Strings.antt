-- ===== src/Go/Strings.antt =====
-- The package strings, over lists of bytes.
pub mod Laws
use mathlib.Core.List.{reverse}
use xiaoya_qwen.Prelude.{
  ℕ, suc, ◌+◌, ◌-◌, List, [], ◌∷◌, ◌++◌, Option, none, some, Bool, true, false, ◌&&◌, Bytes, ◌==◌,
  if◌then◌else◌, length, take, drop,
}

-- strings.HasPrefix(s, prefix)
unfoldable pub has_prefix : Bytes → Bytes → Bool
has_prefix s [] = true
has_prefix [] (p ∷ ps) = false
has_prefix (c ∷ s) (p ∷ ps) = c == p && has_prefix s ps

-- strings.HasSuffix(s, suffix)
unfoldable pub has_suffix : Bytes → Bytes → Bool
unfolding has_prefix
has_suffix s suffix = has_prefix (reverse s) (reverse suffix)

-- strings.Index(s, sub): the first position, or -1 (none)
unfoldable pub index : Bytes → Bytes → Option ℕ
unfolding has_prefix
index [] sub = if has_prefix [] sub then some 0 else none
index (c ∷ s) sub =
    let rest = index s sub in
    if has_prefix (c ∷ s) sub then some 0 else elim rest [ none ↦ none | some i ↦ some (suc i) ]

-- strings.LastIndex(s, sub)
unfoldable pub last_index : Bytes → Bytes → Option ℕ
unfolding has_prefix
last_index [] sub = if has_prefix [] sub then some 0 else none
last_index (c ∷ s) sub = elim (last_index s sub) [
  | some i ↦ some (suc i)
  | none ↦ if has_prefix (c ∷ s) sub then some 0 else none
]

-- strings.Contains(s, sub)
unfoldable pub contains : Bytes → Bytes → Bool
unfolding index
contains s sub = elim (index s sub) [ none ↦ false | some i ↦ true ]

-- strings.TrimPrefix(s, prefix)
unfoldable pub trim_prefix : Bytes → Bytes → Bytes
unfolding has_prefix
trim_prefix s prefix = if has_prefix s prefix then drop (length prefix) s else s

-- strings.TrimSuffix(s, suffix)
unfoldable pub trim_suffix : Bytes → Bytes → Bytes
unfolding has_suffix
trim_suffix s suffix = if has_suffix s suffix then take (length s - length suffix) s else s

push : ℕ → List Bytes → List Bytes
push c [] = (c ∷ []) ∷ []
push c (p ∷ ps) = (c ∷ p) ∷ ps

-- strings.Split(s, sep) at a separator of one byte
unfoldable pub split : ℕ → Bytes → List Bytes
unfolding push
split sep [] = [] ∷ []
split sep (c ∷ s) = let rest = split sep s in if c == sep then [] ∷ rest else push c rest

-- strings.Join(parts, sep)
unfoldable pub join : List Bytes → Bytes → Bytes
join [] sep = []
join (p ∷ []) sep = p
join (p ∷ q ∷ ps) sep = p ++ (sep ++ join (q ∷ ps) sep)

-- strings.Count(s, sub) of one byte
unfoldable pub count : ℕ → Bytes → ℕ
count b [] = 0
count b (c ∷ s) = (if c == b then 1 else 0) + count b s

-- strings.ReplaceAll(s, old, new) of one byte
unfoldable pub replace_all : Bytes → ℕ → Bytes → Bytes
replace_all [] old new = []
replace_all (c ∷ s) old new = (if c == old then new else c ∷ []) ++ replace_all s old new
