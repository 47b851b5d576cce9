-- ===== src/UrlTree/Lines.antt =====
-- The lines of the text in drivers/url_tree/util.go.
use mathlib.Core.List.{reverse}
use xiaoya_qwen.Prelude.{
  ℕ, zero, suc, ◌%◌, ◌/◌, List, [], ◌∷◌, Bytes, Bool, not, Option, none, some, beq, ◌==◌, codes,
  if◌then◌else◌, take, drop, length, map,
}
use xiaoya_qwen.Prelude.Int.{ℤ, pos}
use xiaoya_qwen.Go.Strings.{has_prefix, has_suffix, index, trim_suffix, split}
use xiaoya_qwen.Go.Path.{base}
use xiaoya_qwen.UrlTree.{Item}

abbrev colon : Bytes
colon = b':' ∷ []

-- the runes of unicode.IsSpace, in UTF-8
abbrev spaces : List Bytes
spaces =
    (9 ∷ [])
    ∷ (10 ∷ [])
    ∷ (11 ∷ [])
    ∷ (12 ∷ [])
    ∷ (13 ∷ [])
    ∷ (32 ∷ [])
    ∷ (194 ∷ 133 ∷ [])
    ∷ (194 ∷ 160 ∷ [])
    ∷ (225 ∷ 154 ∷ 128 ∷ [])
    ∷ (226 ∷ 128 ∷ 128 ∷ [])
    ∷ (226 ∷ 128 ∷ 129 ∷ [])
    ∷ (226 ∷ 128 ∷ 130 ∷ [])
    ∷ (226 ∷ 128 ∷ 131 ∷ [])
    ∷ (226 ∷ 128 ∷ 132 ∷ [])
    ∷ (226 ∷ 128 ∷ 133 ∷ [])
    ∷ (226 ∷ 128 ∷ 134 ∷ [])
    ∷ (226 ∷ 128 ∷ 135 ∷ [])
    ∷ (226 ∷ 128 ∷ 136 ∷ [])
    ∷ (226 ∷ 128 ∷ 137 ∷ [])
    ∷ (226 ∷ 128 ∷ 138 ∷ [])
    ∷ (226 ∷ 128 ∷ 168 ∷ [])
    ∷ (226 ∷ 128 ∷ 169 ∷ [])
    ∷ (226 ∷ 128 ∷ 175 ∷ [])
    ∷ (226 ∷ 129 ∷ 159 ∷ [])
    ∷ (227 ∷ 128 ∷ 128 ∷ [])
    ∷ []

-- The length of the first of some texts that a text begins with, or 0.
unfoldable pub prefix_length : List Bytes → Bytes → ℕ
unfolding has_prefix
prefix_length [] s = 0
prefix_length (p ∷ ps) s =
    let rest = prefix_length ps s in if has_prefix s p then length p else rest

-- Each round drops a byte at least.
unfoldable pub trim_loop : ℕ → List Bytes → Bytes → Bytes
unfolding prefix_length
trim_loop zero ps s = s
trim_loop (suc fuel) ps s =
    let n = prefix_length ps s in
    let rest = trim_loop fuel ps (drop n s) in if n == 0 then s else rest

-- strings.TrimSpace(s)
unfoldable pub trim_space : Bytes → Bytes
unfolding trim_loop
trim_space s =
    let left = trim_loop (length s) spaces s in
    reverse (trim_loop (length left) (map reverse spaces) (reverse left))

-- the loop that counts the indent
unfoldable pub indent : Bytes → ℕ
indent [] = 0
indent (c ∷ s) = let rest = indent s in if not (c == b' ') then 0 else suc rest

unfoldable pub is_folder : Bytes → Bool
unfolding has_suffix has_prefix
is_folder line = has_suffix line colon

-- strconv.ParseInt(s, 10, 64), and getSizeFromUrl
pub record Outside : Type 0 where
  pub parse_int : Bytes → Option ℤ
  pub get_size_from_url : Bytes → Option ℤ

-- What a line says. An indent of an odd number of spaces and a line that is no file are errors.
pub data Line : Type 0 where
  blank bad : Line
  folder : ℕ → Bytes → Line
  file : ℕ → Item → Line

module _ (o : Outside) (head_size : Bool) where
  open o use {parse_int, get_size_from_url}

  -- the name, and the size and the time if they are given
  unfoldable pub with_modified : Bytes → Bytes → ℤ → List Bytes → Option Item
  with_modified url name size [] =
      some (record { url = url; name = name; modified = pos 0; size = size })
  with_modified url name size (part ∷ parts) = elim (parse_int part) [
    | none ↦ none
    | some modified ↦ some (record { url = url; name = name; modified = modified; size = size })
  ]

  -- the request for the size, if the line has none
  unfoldable pub asked_size : Bytes → ℤ
  asked_size url =
      if head_size then elim (get_size_from_url url) [ none ↦ pos 0 | some size ↦ size ] else pos 0

  unfoldable pub without_size : Bytes → Bytes → Item
  unfolding asked_size
  without_size url name = record { url = url; name = name; modified = pos 0; size = asked_size url }

  unfoldable pub with_size : Bytes → Bytes → List Bytes → Option Item
  unfolding with_modified without_size
  with_size url name [] = some (without_size url name)
  with_size url name (part ∷ parts) = elim (parse_int part) [
    | none ↦ none
    | some size ↦ with_modified url name size parts
  ]

  unfoldable pub from_parts : Bytes → List Bytes → Option Item
  unfolding with_size
  from_parts url [] = none
  from_parts url (name ∷ parts) = with_size url name parts

  -- parseFileLine, cut at the URL
  unfoldable pub parse_info : Bytes → Bytes → Option Item
  unfolding from_parts without_size has_suffix has_prefix split base
  parse_info [] url = some (without_size url (base url))
  parse_info (c ∷ info) url =
      let inner = take (length info) (c ∷ info) in
      if not (has_suffix (c ∷ info) colon)
      then none
      else if beq inner []
      then none
      else from_parts url (split b':' inner)

  unfoldable pub parse_at : Option ℕ → Option ℕ → Bytes → Option Item
  unfolding parse_info
  parse_at (some i) j line = parse_info (take i line) (drop i line)
  parse_at none (some j) line = parse_info (take j line) (drop j line)
  parse_at none none line = none

  unfoldable pub parse_file_line : Bytes → Option Item
  unfolding parse_at index
  parse_file_line line =
      parse_at (index line (codes "http://")) (index line (codes "https://")) line

  unfoldable pub file_of : ℕ → Option Item → Line
  file_of level none = bad
  file_of level (some item) = file level item

  -- one line of the loop of BuildTree
  unfoldable pub read_line : Bytes → Line
  unfolding indent trim_space is_folder trim_suffix parse_file_line file_of
  read_line line =
      let level = indent line / 2 in
      let text = trim_space (drop (indent line) line) in
      if not (indent line % 2 == 0)
      then bad
      else if beq text []
      then blank
      else if is_folder text
      then folder level (trim_suffix text colon)
      else file_of level (parse_file_line text)
