-- ===== src/Server/Pagination/Witnesses.antt =====
-- Runs of the pagination, and the theorems at concrete inputs.
use vcdeploy.Prelude.{◌≡◌, refl, codes, [], arith}
use vcdeploy.Server.Pagination.{parse_pagination, generate_page_numbers, current_page}
use vcdeploy.Server.Pagination.Pages.{ShowsPages, generate_page_numbers_lem}

third_page : parse_pagination 50 (codes "20") [] (codes "3") ≡ record { limit = 20; offset = 40 }
unfolding parse_pagination
third_page = refl

-- A page whose offset does not fit an `int` is another page.
wrapped_page : current_page (parse_pagination 50 (codes "16") [] (codes "1152921504606846978")) ≡ 2
unfolding parse_pagination current_page
wrapped_page = refl

generate_page_numbers_lem_example : ShowsPages 9 10 5 (generate_page_numbers 9 10 5)
generate_page_numbers_lem_example = generate_page_numbers_lem 9 10 (omega arith) (omega arith)
