-- ===== src/Server/Pagination.antt =====
-- internal/server/pagination.go, with NewPagination of internal/services/types.go. The values of a query
-- are texts, empty where they are missing; `int` has 64 bits.
pub mod Pages
mod Witnesses
use vcdeploy.Prelude.{
  ℕ, zero, suc, ◌+◌, ◌-◌, ◌*◌, ◌/◌, ◌%◌, Bool, true, false, Option, none, some, List, [], ◌∷◌,
  if◌then◌else◌, ltb, leb, Text, ℤ, pos, negsuc, atoi, int_limit, int_values,
}

-- `services.Pagination`
pub record Pagination : Type 0 where
  pub limit : ℕ
  pub offset : ℕ

abbrev pub max_page_size : ℕ
max_page_size = 1000

-- A product of two numbers that are not negative as an `int`, and then not below 0: a product that
-- wraps around to a negative number counts as 0 in `NewPagination`.
unfoldable pub wrapped : ℕ → ℕ
wrapped n = let m = n % int_values in if ltb m int_limit then m else 0

-- `NewPagination`, for an offset that is not negative.
unfoldable pub new_pagination : ℕ → ℕ → Pagination
new_pagination limit offset = record {
  limit = if ltb 1000 limit then 1000 else if ltb 0 limit then limit else 50;
  offset = offset;
}

abbrev pub positive_or : ℕ → Option ℤ → ℕ
positive_or other (some (pos (suc n))) = suc n
positive_or other parsed = other

-- The limit of a request, with a default.
unfoldable pub limit_of : ℕ → Text → ℕ
unfolding atoi
limit_of default_limit limit_str =
    let limit = positive_or default_limit (atoi limit_str) in
    if ltb max_page_size limit then max_page_size else limit

abbrev pub offset_from : Option ℤ → ℕ
offset_from (some (pos n)) = n
offset_from parsed = 0

abbrev pub offset_of_page : ℕ → Option ℤ → ℕ
offset_of_page limit (some (pos (suc k))) = wrapped (k * limit)
offset_of_page limit parsed = 0

-- The offset of a request, given or by the page.
unfoldable pub offset_of : ℕ → Text → Text → ℕ
unfolding atoi wrapped
offset_of limit [] page_str = offset_of_page limit (atoi page_str)
offset_of limit (c ∷ offset_str) page_str = offset_from (atoi (c ∷ offset_str))

-- `parsePaginationWithDefaults`
unfoldable pub parse_pagination : ℕ → Text → Text → Text → Pagination
unfolding limit_of offset_of new_pagination
parse_pagination default_limit limit_str offset_str page_str =
    let limit = limit_of default_limit limit_str in
    new_pagination limit (offset_of limit offset_str page_str)

-- The numbers from one on.
unfoldable pub pages_from : ℕ → ℕ → List ℕ
pages_from start zero = []
pages_from start (suc n) = start ∷ pages_from (start + 1) n

-- `generatePageNumbers`; `current - half` is below 1 exactly if `current` is at most `half`.
unfoldable pub generate_page_numbers : ℕ → ℕ → ℕ → List ℕ
unfolding pages_from
generate_page_numbers current total max_visible =
    let half = max_visible / 2 in
    let start = if leb current half then 1 else current - half in
    let end = if leb current half then max_visible else current + half in
    if leb total max_visible
    then pages_from 1 total
    else if ltb total end
    then pages_from (total - max_visible + 1) max_visible
    else pages_from start (end - start + 1)

-- `CurrentPage` of `NewPaginationInfo`.
unfoldable pub current_page : Pagination → ℕ
current_page p = p.offset / p.limit + 1

-- `TotalPages` of `NewPaginationInfo`.
unfoldable pub total_pages : Pagination → ℕ → ℕ
total_pages p total_count =
    let n = (total_count + p.limit - 1) / p.limit in if ltb 0 n then n else 1
