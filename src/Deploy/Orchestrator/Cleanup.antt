-- ===== src/Deploy/Orchestrator/Cleanup.antt =====
-- internal/deploy/orchestrator.go: `CleanupOldDeployments`.
use vcdeploy.Prelude.{
  ℕ, ◌+◌, String, ◌≡◌, refl, true, false, none, some, List, [], ◌∷◌, arith, eq_iff, if◌then◌else◌,
  Table, lookup, delete, lookup-delete, listed, listed-keys_where, keys_where-absent, KeysDiffer,
  delete-absent, length, ◌<◌, ◌↔◌, Bool-cases, inl, inr,
}
use vcdeploy.Deploy.Orchestrator.{
  is_stale, stale_ids, delete_all, cleanup_old_deployments, get_deployment,
}
use vcdeploy.Deploy.Orchestrator.Types.{Deployment, Orchestrator, is_finished}
use vcdeploy.Deploy.Orchestrator.Keys.{HasKeysOnce}

lookup-delete_all :
    (ids : List String) (k : String) (m : Table Deployment)
    → lookup k (delete_all ids m) ≡ (if listed k ids then none else lookup k m)
unfolding delete_all listed
lookup-delete_all [] k m = refl
lookup-delete_all (id ∷ ids) k m =
    ground (arith, lookup-delete_all ids k (delete id m), lookup-delete id k m)

-- Finished, with a time of completion before the cutoff.
abbrev pub IsOld : ℕ → Deployment → Type 0
IsOld cutoff d =
    (is_finished d.status ≡ true) × ((t : ℕ) × (d.completed_at ≡ some t) × (t < cutoff))

is_stale_iff : (cutoff : ℕ) (d : Deployment) → (is_stale cutoff d ≡ true) ↔ IsOld cutoff d
unfolding is_stale
is_stale_iff cutoff d = (λ h. ground arith, λ h. ground (arith, h))

-- What stands after the collected keys are deleted.
survivors : ℕ → Table Deployment → Table Deployment
survivors cutoff [] = []
survivors cutoff ((id, d) ∷ m) =
    let rest = survivors cutoff m in if is_stale cutoff d then rest else (id, d) ∷ rest

delete_all-skip :
    (ids : List String) (k : String) (d : Deployment) (m : Table Deployment)
    → listed k ids ≡ false
    → delete_all ids ((k, d) ∷ m) ≡ (k, d) ∷ delete_all ids m
unfolding delete_all listed delete
delete_all-skip [] k d m h = refl
delete_all-skip (id ∷ ids) k d m h =
    ground (arith, delete_all-skip ids k d (delete id m), eq_iff k id, eq_iff id k)

delete_all-stale :
    (cutoff : ℕ) (m : Table Deployment)
    → KeysDiffer m
    → delete_all (stale_ids cutoff m) m ≡ survivors cutoff m
unfolding delete_all stale_ids survivors delete
delete_all-stale cutoff [] h = refl
delete_all-stale cutoff ((k, d) ∷ m) h = ground (
  arith,
  delete_all-stale cutoff m h.1,
  delete-absent k m h.0,
  delete_all-skip (stale_ids cutoff m) k d m,
  keys_where-absent (is_stale cutoff) k m h.0,
  eq_iff k k,
)

length-survivors :
    (cutoff : ℕ) (m : Table Deployment)
    → length (survivors cutoff m) + length (stale_ids cutoff m) ≡ length m
unfolding survivors stale_ids
length-survivors cutoff [] = refl
length-survivors cutoff ((k, d) ∷ m) = ground (arith, length-survivors cutoff m)

-- Where the map holds a key once, the cleanup removes exactly the deployments that are completed,
-- failed or cancelled and were completed before the cutoff: any other is found as before, and
-- nothing else is found. The number that it returns is the number of those removed.
pub cleanup_exact :
    (cutoff : ℕ) (o : Orchestrator)
    → HasKeysOnce o
    → let (o', n) = cleanup_old_deployments cutoff o in
      ((id : String) (d : Deployment)
        → (get_deployment id o' ≡ some d) ↔ ((get_deployment id o ≡ some d) × (¬ IsOld cutoff d)))
      × (length o'.deployments + n ≡ length o.deployments)
unfolding cleanup_old_deployments get_deployment
cleanup_exact cutoff o h =
    let ids = stale_ids cutoff o.deployments in
    let m = o.deployments in
    (
      λ id d. (
        λ f. (
          ground (arith, lookup-delete_all ids id m, listed-keys_where (is_stale cutoff) id m h),
          λ old. ground (
            arith,
            lookup-delete_all ids id m,
            listed-keys_where (is_stale cutoff) id m h,
            (is_stale_iff cutoff d).1 old,
          ),
        ),
        λ f. elim (Bool-cases (is_stale cutoff d)) [
          | inl e ↦ absurd (f.1 ((is_stale_iff cutoff d).0 e))
          | inr e ↦
              ground
                (arith, lookup-delete_all ids id m, listed-keys_where (is_stale cutoff) id m h, f.0)
        ],
      ),
      ground (arith, delete_all-stale cutoff m h, length-survivors cutoff m),
    )
