-- ===== src/Security/SafePath/Witnesses.antt =====
-- Runs of the path functions, and the theorems at concrete inputs.
use vcdeploy.Prelude.{◌≡◌, ◌≢◌, ◌↔◌, refl, true, false, none, [], ◌∷◌, arith, All, codes, contains}
use vcdeploy.Security.SafePath.{
  ok, err, path_traversal, dot_dot, is_abs, parts_of, clean, safe_join, is_within_base,
  validate_relative_path, sanitize_path, drop_all_dots,
}
use vcdeploy.Security.SafePath.Parts.{IsNotDots}
use vcdeploy.Security.SafePath.Joins.{
  Inside, GoesDown, safe_join-Inside, validate_relative_path_iff,
}
use vcdeploy.Security.SafePath.Sanitized.{drop_all_dots_enough}

cleaned : clean (codes "/a/./b//../c/") ≡ codes "/a/c"
unfolding clean
cleaned = refl

cleaned_relative : clean (codes "../a/../../b") ≡ codes "../../b"
unfolding clean
cleaned_relative = refl

join_inside : safe_join (codes "/srv/app") (codes "x/../y") ≡ ok (codes "/srv/app/y")
unfolding safe_join
join_inside = refl

join_outside : safe_join (codes "/srv/app") (codes "../app2") ≡ err path_traversal
unfolding safe_join
join_outside = refl

-- The root and the working directory refuse every path in them.
join_root : safe_join (codes "/") (codes "etc") ≡ err path_traversal
unfolding safe_join
join_root = refl

join_working_directory : safe_join (codes ".") (codes "etc") ≡ err path_traversal
unfolding safe_join
join_working_directory = refl

nothing_within_root : is_within_base (codes "/srv") (codes "/") (codes "/etc") ≡ false
unfolding is_within_base
nothing_within_root = refl

-- Null bytes are taken out after the loop over `..`, and what is left goes upwards.
sanitized_upwards : sanitize_path (46 ∷ 0 ∷ 46 ∷ codes "/etc") ≡ codes "../etc"
unfolding sanitize_path
sanitized_upwards = refl

rooted : is_abs (codes "/srv/app") ≡ true
unfolding is_abs
rooted = refl

safe_join-Inside_example :
    Inside (clean (codes "/srv/app")) (codes "/srv/app/y") × GoesDown (codes "/srv/app/y")
safe_join-Inside_example =
    safe_join-Inside (codes "/srv/app") (codes "x/../y") (codes "/srv/app/y") rooted join_inside

validate_relative_path_iff_example : (validate_relative_path (codes "a/../b") ≡ none) ↔ (
    (codes "a/../b" ≢ [])
    × (is_abs (codes "a/../b") ≡ false)
    × All IsNotDots (parts_of (codes "a/../b")))
validate_relative_path_iff_example = validate_relative_path_iff (codes "a/../b")

drop_all_dots_enough_example : contains (drop_all_dots 5 (codes "a....")) dot_dot ≡ false
drop_all_dots_enough_example = drop_all_dots_enough 5 (codes "a....") (omega arith)
