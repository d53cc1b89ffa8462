-- ===== src/Server/Pagination/Pages.antt =====
-- internal/server/pagination.go: the page numbers that are shown.
use vcdeploy.Prelude.{
  ℕ, ◌+◌, ◌-◌, ◌≤◌, ◌<◌, ◌≡◌, ap, refl, false, List, inl, inr, Bool-cases, arith, if◌then◌else◌,
  ltb, leb, Text,
}
use vcdeploy.Server.Pagination.{
  new_pagination, parse_pagination, max_page_size, pages_from, generate_page_numbers,
}

-- The pages go one by one between two bounds, and the current one is among them.
pub record ShowsPages (current total count : ℕ) (pages : List ℕ) : Type 0 where
  pub first : ℕ
  pub one_by_one : pages ≡ pages_from first count
  pub from_one : 1 ≤ first
  pub to_total : first + count ≤ total + 1
  pub has_current : (first ≤ current) × (current < first + count)

-- With a current page among all pages, five page numbers are shown, or all where there are fewer: they
-- are consecutive, from 1 to the total, and the current page is one of them.
pub generate_page_numbers_lem :
    (current total : ℕ)
    → 1 ≤ current
    → current ≤ total
    → ShowsPages current total
        (if leb total 5 then total else 5)
        (generate_page_numbers current total 5)
unfolding generate_page_numbers
generate_page_numbers_lem current total low high = elim (Bool-cases (leb total 5)) [
  | inl e ↦
      rw (e, generate_page_numbers)
        (record {
          first = 1;
          one_by_one = refl;
          from_one = omega arith;
          to_total = omega arith;
          has_current = (low, omega (arith, high));
        })
  | inr e ↦ elim (Bool-cases (leb current 2)) [
    | inl c ↦
        let small : ltb total 5 ≡ false = ground arith in
        rw (e, c, generate_page_numbers)
          (rw small (record {
            first = 1;
            one_by_one = refl;
            from_one = omega arith;
            to_total = ground arith;
            has_current = (low, ground arith);
          }))
    | inr c ↦ elim (Bool-cases (ltb total (current + 2))) [
      | inl t ↦
          rw (e, c, t, generate_page_numbers)
            (record {
              first = total - 5 + 1;
              one_by_one = refl;
              from_one = omega arith;
              to_total = ground arith;
              has_current = (ground arith, ground arith);
            })
      | inr t ↦
          let big : 3 ≤ current = ground arith in
          let five : current + 2 - (current - 2) + 1 ≡ 5 = omega (arith, big) in
          rw (e, c, t, generate_page_numbers)
            (record {
              first = current - 2;
              one_by_one = ap (λ n. pages_from (current - 2) n) five;
              from_one = omega (arith, big);
              to_total = ground arith;
              has_current = (omega arith, omega (arith, big));
            })
    ]
  ]
]

-- A parsed limit is between 1 and 1000, whatever the query and the default are.
pub parse_pagination-limit :
    (default_limit : ℕ) (limit_str offset_str page_str : Text)
    → (1 ≤ (parse_pagination default_limit limit_str offset_str page_str).limit)
      × ((parse_pagination default_limit limit_str offset_str page_str).limit ≤ max_page_size)
unfolding parse_pagination new_pagination
parse_pagination-limit default_limit limit_str offset_str page_str = (ground arith, ground arith)
