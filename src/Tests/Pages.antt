-- ===== src/Tests/Pages.antt =====
-- Pages of a listing of five.
use xiaoya_qwen.Prelude.{ℕ, ◌+◌, ◌*◌, ◌∷◌, [], List, ◌≡◌, none, some, arith, length}
use xiaoya_qwen.Prelude.Int.{pos}
use xiaoya_qwen.Server.Page.{pagination, validate}
use xiaoya_qwen.Server.Page.Laws.{page_of, pagination-page_of, pagination-panics}

abbrev listing : List ℕ
listing = 10 ∷ 11 ∷ 12 ∷ 13 ∷ 14 ∷ []

pagination-page_of_example :
    pagination listing (record { page = pos (1 + 1); per_page = pos 2 })
    ≡ some (length listing, page_of 1 2 listing)
pagination-page_of_example =
    pagination-page_of listing 1 2 (omega arith) (omega arith) (omega arith)

pagination-panics_example :
    pagination listing (validate (record { page = pos (2 * 0 + 3); per_page = pos 0 })) ≡ none
pagination-panics_example = pagination-panics listing 0 (omega arith)
