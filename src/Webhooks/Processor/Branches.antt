-- ===== src/Webhooks/Processor/Branches.antt =====
-- internal/webhooks/processor.go: which branches `shouldDeployBranch` lets through.
use vcdeploy.Prelude.{
  ◌≡◌, ◌↔◌, ◌⊎◌, inl, inr, true, false, List, [], ◌∷◌, ◌++◌, arith, Bool-cases, Text, codes,
  text_eq_iff, has_prefix_iff, has_suffix, has_suffix_sound, has_suffix-append, trim_suffix,
  trim_suffix-append, any, Any,
}
use vcdeploy.Webhooks.Processor.{branch_matches, should_deploy_branch}

-- A pattern stands for the branch that it spells, or, if it ends in a star, for the branches that
-- begin with what stands before the star.
pub data Matches (branch : Text) : Text → Type 0 where
  exact : {p : Text} → p ≡ branch → has_suffix p (codes "*") ≡ false → Matches branch p
  wildcard :
      {p : Text} (stem rest : Text)
      → p ≡ stem ++ codes "*"
      → branch ≡ stem ++ rest
      → Matches branch p

branch_matches_sound : (branch p : Text) → branch_matches branch p ≡ true → Matches branch p
unfolding branch_matches
branch_matches_sound branch p h = elim (Bool-cases (has_suffix p (codes "*"))) [
  | inl e ↦
      let (rest, split) = (has_prefix_iff branch (trim_suffix p (codes "*"))).0 (ground arith) in
      wildcard (trim_suffix p (codes "*")) rest (has_suffix_sound p (codes "*") e) split
  | inr e ↦ exact ((text_eq_iff p branch).0 (ground arith)) e
]

branch_matches_complete : (branch p : Text) → Matches branch p → branch_matches branch p ≡ true
unfolding branch_matches
branch_matches_complete branch p (exact e plain) = ground (arith, text_eq_iff p branch)
branch_matches_complete branch p (wildcard stem rest e split) =
    rw (e, has_suffix-append stem (codes "*"), trim_suffix-append stem (codes "*"))
      ((has_prefix_iff branch stem).1 (rest, split))

any_iff :
    (branch : Text) (ps : List Text)
    → (any (branch_matches branch) ps ≡ true) ↔ Any (Matches branch) ps
unfolding any
any_iff branch [] = (λ h. absurd (ground arith), λ h. absurd h)
any_iff branch (p ∷ ps) = (
  λ h. elim (Bool-cases (branch_matches branch p)) [
    | inl e ↦ inl (branch_matches_sound branch p e)
    | inr e ↦ inr ((any_iff branch ps).0 (ground arith))
  ],
  λ h. elim h [
    | inl m ↦ ground (arith, branch_matches_complete branch p m)
    | inr r ↦ ground (arith, (any_iff branch ps).1 r)
  ],
)

-- The branches that may deploy: those that a configured pattern stands for; with no pattern, the
-- default branch and `master`.
abbrev pub IsAllowed : Text → List Text → Text → Type 0
IsAllowed default [] branch = (branch ≡ default) ⊎ (branch ≡ codes "master")
IsAllowed default (p ∷ ps) branch = Any (Matches branch) (p ∷ ps)

-- `shouldDeployBranch` says yes exactly for the branches that are allowed: with patterns, those
-- that one of the patterns stands for; with none, the default branch and `master`.
pub should_deploy_branch_iff :
    (default branch : Text) (ps : List Text)
    → (should_deploy_branch default branch ps ≡ true) ↔ IsAllowed default ps branch
unfolding should_deploy_branch
should_deploy_branch_iff default branch [] = (
  λ h. ground (arith, text_eq_iff branch default, text_eq_iff branch (codes "master")),
  λ h. ground (arith, text_eq_iff branch default, text_eq_iff branch (codes "master")),
)
should_deploy_branch_iff default branch (p ∷ ps) = any_iff branch (p ∷ ps)
