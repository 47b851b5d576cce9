-- ===== src/Server/Page.antt =====
-- internal/model/req.go and pagination of server/handles/fsread.go. Go's int has 64 bits.
pub mod Laws
pub mod Members
use xiaoya_qwen.Prelude.{
  ℕ, ◌-◌, ◌^◌, List, [], ◌∷◌, Bytes, Bool, true, false, ◌&&◌, Option, none, some, leb,
  if◌then◌else◌, length, take, drop,
}
use xiaoya_qwen.Prelude.Int.{ℤ, pos, negsuc, int_lt, int_add, int_sub, int_mul}

pub record PageReq : Type 0 where
  pub page : ℤ
  pub per_page : ℤ

abbrev pub max_int : ℤ
max_int = pos (2 ^ 63 - 1)

unfoldable pub validate : PageReq → PageReq
validate p = record {
  page = if int_lt p.page (pos 1) then pos 1 else p.page;
  per_page = if int_lt p.per_page (pos 1) then max_int else p.per_page;
}

module _ {A : Type 0} where
  -- The expression objs[start:end] for an end that is at most the length; `none` is a panic.
  pub slice : List A → ℤ → ℤ → Option (List A)
  slice objs (pos start) (pos end) =
      if leb start end && leb end (length objs)
      then some (take (end - start) (drop start objs))
      else none
  slice objs (pos start) (negsuc n) = none
  slice objs (negsuc n) end = none

  -- The total and the objects of the page; `none` is a panic.
  unfoldable pub pagination : List A → PageReq → Option (ℕ × List A)
  unfolding slice
  pagination objs req =
      let total = length objs in
      let start = int_mul (int_sub req.page (pos 1)) req.per_page in
      let end = int_add start req.per_page in
      let end' = if int_lt (pos total) end then pos total else end in
      let page = slice objs start end' in
      if int_lt (pos total) start
      then some (total, [])
      else elim page [ none ↦ none | some p ↦ some (total, p) ]
