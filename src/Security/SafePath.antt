-- ===== src/Security/SafePath.antt =====
-- internal/security/safepath.go, with Clean, Join, IsAbs and Abs of package path/filepath on Unix. A
-- path is the list of its bytes.
pub mod Parts
pub mod Slashes
pub mod Joins
pub mod Sanitized
mod Witnesses
use vcdeploy.Prelude.{
  ℕ, zero, suc, Bool, true, false, not, ◌&&◌, ◌||◌, Option, none, some, List, [], ◌∷◌, ◌++◌,
  if◌then◌else◌, ◌==◌, Text, codes, text_eq, has_prefix, contains, split_on, keep_if, length,
}

pub data PathError : Type 0 where
  path_traversal absolute_path empty_path : PathError

pub data Joined : Type 0 where
  ok : Text → Joined
  err : PathError → Joined

abbrev pub dot_dot : Text
dot_dot = b'.' ∷ b'.' ∷ []

-- `filepath.IsAbs`
unfoldable pub is_abs : Text → Bool
is_abs [] = false
is_abs (c ∷ s) = c == b'/'

-- A `..` goes back by one part; at the root it stays, and where a relative path has nothing to go back
-- by it is kept. The last part comes first.
unfoldable pub back : Bool → List Text → List Text
unfolding text_eq
back rooted [] = if rooted then [] else dot_dot ∷ []
back rooted (o ∷ out) = if text_eq o dot_dot then dot_dot ∷ o ∷ out else out

-- The parts of a cleaned path, the last one first.
unfoldable pub clean_parts : Bool → List Text → List Text → List Text
unfolding text_eq back
clean_parts rooted out [] = out
clean_parts rooted out (p ∷ ps) =
    clean_parts rooted
      (if text_eq p [] || text_eq p (b'.' ∷ [])
        then out
        else if text_eq p dot_dot
        then back rooted out
        else p ∷ out)
      ps

-- The parts with slashes between them, from the parts with the last one first, before a text.
unfoldable pub join_onto : List Text → Text → Text
join_onto [] s = s
join_onto (p ∷ []) s = p ++ s
join_onto (p ∷ q ∷ out) s = join_onto (q ∷ out) (b'/' ∷ (p ++ s))

unfoldable pub render : Bool → List Text → Text
unfolding join_onto
render true out = b'/' ∷ join_onto out []
render false [] = b'.' ∷ []
render false (p ∷ out) = join_onto (p ∷ out) []

abbrev pub parts_of : Text → List Text
parts_of path = clean_parts (is_abs path) [] (split_on b'/' path)

-- `filepath.Clean`
unfoldable pub clean : Text → Text
unfolding is_abs clean_parts split_on render
clean [] = b'.' ∷ []
clean (c ∷ s) = render (is_abs (c ∷ s)) (parts_of (c ∷ s))

-- `filepath.Join` of two paths that are not empty.
abbrev pub join : Text → Text → Text
join a b = clean (a ++ (b'/' ∷ b))

abbrev pub is_inside : Text → Text → Bool
is_inside base path = has_prefix (path ++ codes "/") (base ++ codes "/") || text_eq path base

-- `SafeJoin`
unfoldable pub safe_join : Text → Text → Joined
unfolding text_eq is_abs clean has_prefix
safe_join base relative_path =
    let clean_base = clean base in
    let clean_joined = clean (join clean_base relative_path) in
    if text_eq base [] || text_eq relative_path []
    then err empty_path
    else if is_abs relative_path
    then err absolute_path
    else if not (is_inside clean_base clean_joined)
    then err path_traversal
    else ok clean_joined

-- `filepath.Abs` in a working directory.
unfoldable pub absolute : Text → Text → Text
unfolding is_abs clean
absolute cwd path = if is_abs path then clean path else join cwd path

-- `IsWithinBase`, where the working directory is known.
unfoldable pub is_within_base : Text → Text → Text → Bool
unfolding text_eq clean absolute has_prefix
is_within_base cwd base path =
    if text_eq base [] || text_eq path []
    then false
    else is_inside (absolute cwd (clean base)) (absolute cwd (clean path))

-- `ValidateRelativePath`: the error, or none.
unfoldable pub validate_relative_path : Text → Option PathError
unfolding text_eq is_abs clean has_prefix
validate_relative_path path =
    let cleaned = clean path in
    if text_eq path []
    then some empty_path
    else if is_abs path
    then some absolute_path
    else if has_prefix cleaned (dot_dot ++ codes "/") || text_eq cleaned dot_dot
    then some path_traversal
    else none

-- `strings.ReplaceAll(s, "..", "")`
unfoldable pub drop_dots : Text → Text
drop_dots [] = []
drop_dots (c ∷ []) = c ∷ []
drop_dots (c ∷ d ∷ s) =
    let without = drop_dots s in
    let onward = drop_dots (d ∷ s) in if c == b'.' && d == b'.' then without else c ∷ onward

-- The loop of `SanitizePath`; each round shortens the text.
unfoldable pub drop_all_dots : ℕ → Text → Text
unfolding contains drop_dots
drop_all_dots zero s = s
drop_all_dots (suc fuel) s =
    let rest = drop_all_dots fuel (drop_dots s) in if contains s dot_dot then rest else s

-- `SanitizePath`
unfoldable pub sanitize_path : Text → Text
unfolding clean drop_all_dots keep_if
sanitize_path path =
    let cleaned = clean path in
    clean (keep_if (λ c. not (c == 0)) (drop_all_dots (length cleaned) cleaned))
