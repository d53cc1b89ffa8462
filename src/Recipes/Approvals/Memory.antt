-- ===== src/Recipes/Approvals/Memory.antt =====
-- internal/storage/memory_recipes.go: the approvals in MemoryStore. The fresh identifier and the time
-- of a call are arguments; `time.Time{}` is 0. Maps hold copies, which nothing else changes.
use vcdeploy.Prelude.{
  ℕ, String, ◌≡◌, refl, ap, Option, none, some, List, [], ◌∷◌, ◌++◌, ◌⊎◌, arith, inl, inr,
  Bool-cases, if◌then◌else◌, str_eq, eq_iff, ◌==◌, any, Table, lookup, insert, delete,
  lookup-insert, lookup-delete,
}
use vcdeploy.Recipes.Approvals.{RecipeComponent, RawCommandApproval, ApprovalStore}
use vcdeploy.Recipes.Approvals.Cycle.{IsStore}

-- What goes to the queue of the writer.
pub data ApprovalWrite : Type 0 where
  write_insert : RawCommandApproval → ApprovalWrite
  write_delete : String → ApprovalWrite

-- The maps of the store that approvals use, and the operations that are queued.
pub record ApprovalMaps : Type 0 where
  pub components : Table RecipeComponent
  pub raw_approvals : Table RawCommandApproval
  pub raw_approvals_by_component : Table (List RawCommandApproval)
  pub core_writes : List ApprovalWrite

abbrev pub not_found : String
not_found = "not found"

-- A missing key of `rawApprovalsByComponent` gives no elements.
abbrev pub approvals_of : Option (List RawCommandApproval) → List RawCommandApproval
approvals_of none = []
approvals_of (some approvals) = approvals

unfoldable pub last_approval : List RawCommandApproval → Option RawCommandApproval
last_approval [] = none
last_approval (a ∷ []) = some a
last_approval (a ∷ b ∷ approvals) = last_approval (b ∷ approvals)

-- The approval as `CreateRawApproval` completes it.
abbrev pub completed_approval : String → ℕ → RawCommandApproval → RawCommandApproval
completed_approval new_id now a = record a {
  id = if str_eq a.id "" then new_id else a.id;
  approved_at = if a.approved_at == 0 then now else a.approved_at;
}

-- `CreateRawApproval`
unfoldable pub create_raw_approval :
    String → ℕ → RawCommandApproval → ApprovalMaps → ApprovalMaps × Option String
unfolding lookup insert any
create_raw_approval new_id now a s =
    let approvals = approvals_of (lookup a.component_id s.raw_approvals_by_component) in
    let stored = completed_approval new_id now a in
    if any (λ existing. str_eq existing.component_id a.component_id) approvals
    then (s, some "already has an approval")
    else (
      record s {
        raw_approvals = insert stored.id stored s.raw_approvals;
        raw_approvals_by_component =
            insert a.component_id (approvals ++ stored ∷ []) s.raw_approvals_by_component;
        core_writes = s.core_writes ++ write_insert stored ∷ [];
      },
      none,
    )

-- `GetRawApproval`: the latest one.
unfoldable pub get_raw_approval : String → ApprovalMaps → Option RawCommandApproval × Option String
unfolding lookup last_approval
get_raw_approval component_id s =
    elim (last_approval (approvals_of (lookup component_id s.raw_approvals_by_component))) [
      | none ↦ (none, some not_found)
      | some a ↦ (some a, none)
    ]

-- The loop of `DeleteRawApproval`.
unfoldable pub drop_approvals : List RawCommandApproval → ApprovalMaps → ApprovalMaps
unfolding delete
drop_approvals [] s = s
drop_approvals (a ∷ approvals) s = drop_approvals approvals (record s {
  raw_approvals = delete a.id s.raw_approvals;
  core_writes = s.core_writes ++ write_delete a.id ∷ [];
})

-- `DeleteRawApproval`
unfoldable pub delete_raw_approval : String → ApprovalMaps → ApprovalMaps × Option String
unfolding lookup drop_approvals delete
delete_raw_approval component_id s =
    elim (approvals_of (lookup component_id s.raw_approvals_by_component)) [
      | [] ↦ (s, some not_found)
      | a ∷ approvals ↦
          let s' = drop_approvals (a ∷ approvals) s in
          (
            record s' {
              raw_approvals_by_component = delete component_id s'.raw_approvals_by_component;
            },
            none,
          )
    ]

last_approval-append :
    (old : List RawCommandApproval) (a : RawCommandApproval)
    → last_approval (old ++ a ∷ []) ≡ some a
unfolding last_approval
last_approval-append [] a = refl
last_approval-append (b ∷ []) a = refl
last_approval-append (b ∷ c ∷ old) a = last_approval-append (c ∷ old) a

drop_approvals-others :
    (old : List RawCommandApproval) (s : ApprovalMaps)
    → ((drop_approvals old s).raw_approvals_by_component ≡ s.raw_approvals_by_component)
      × ((drop_approvals old s).components ≡ s.components)
unfolding drop_approvals
drop_approvals-others [] s = (refl, refl)
drop_approvals-others (a ∷ old) s = drop_approvals-others old _

create_raw_approval-taken :
    (new_id : String) (now : ℕ) (a : RawCommandApproval) (s : ApprovalMaps)
    → (create_raw_approval new_id now a s).1 ≡ none
    → get_raw_approval a.component_id (create_raw_approval new_id now a s).0
      ≡ (some (completed_approval new_id now a), none)
unfolding create_raw_approval get_raw_approval
create_raw_approval-taken new_id now a s taken =
    let old = approvals_of (lookup a.component_id s.raw_approvals_by_component) in
    let stored = completed_approval new_id now a in
    elim (Bool-cases (any (λ existing. str_eq existing.component_id a.component_id) old)) [
      | inl e ↦ absurd (ground arith)
      | inr e ↦
          let found : lookup a.component_id
                (insert a.component_id (old ++ stored ∷ []) s.raw_approvals_by_component)
              ≡ some (old ++ stored ∷ []) =
            ground (
              arith,
              lookup-insert a.component_id a.component_id (old ++ stored ∷ [])
                  s.raw_approvals_by_component,
              eq_iff a.component_id a.component_id,
            ) in
          rw (e, create_raw_approval)
            (rw (found, get_raw_approval)
              (rw (last_approval-append old stored, get_raw_approval) refl))
    ]

approvals-cases :
    (old : List RawCommandApproval)
    → (old ≡ []) ⊎ ((a : RawCommandApproval) × (rest : List RawCommandApproval) × (old ≡ a ∷ rest))
approvals-cases [] = inl refl
approvals-cases (a ∷ rest) = inr (a, rest, refl)

delete_raw_approval-components :
    (id : String) (s : ApprovalMaps) → (delete_raw_approval id s).0.components ≡ s.components
unfolding delete_raw_approval
delete_raw_approval-components id s =
    elim (approvals-cases (approvals_of (lookup id s.raw_approvals_by_component))) [
      | inl e ↦ rw (e, delete_raw_approval) refl
      | inr (a, rest, e) ↦ rw (e, delete_raw_approval) (drop_approvals-others (a ∷ rest) s).1
    ]

delete_raw_approval-gone :
    (id : String) (s : ApprovalMaps)
    → (delete_raw_approval id s).1 ≡ none
    → (get_raw_approval id (delete_raw_approval id s).0).0 ≡ none
unfolding delete_raw_approval get_raw_approval
delete_raw_approval-gone id s taken =
    elim (approvals-cases (approvals_of (lookup id s.raw_approvals_by_component))) [
      | inl e ↦
          let refused : (delete_raw_approval id s).1 ≡ some not_found =
            rw (e, delete_raw_approval) refl in
          absurd (ground arith)
      | inr (a, rest, e) ↦
          let by_component = (drop_approvals (a ∷ rest) s).raw_approvals_by_component in
          let gone : lookup id (delete id by_component) ≡ none =
            ground (arith, lookup-delete id id by_component, eq_iff id id) in
          rw (e, delete_raw_approval) (rw (gone, get_raw_approval) refl)
    ]

-- `GetRecipeComponentByID`
abbrev pub component_in : String → Table RecipeComponent → Option RecipeComponent × Option String
component_in id components = elim (lookup id components) [
  | none ↦ (none, some not_found)
  | some c ↦ (some c, none)
]

-- MemoryStore as the store of approvals; the listing of components plays no part.
module _ (new_id : String) (now : ℕ)
    (list_components : String → ApprovalMaps → List RecipeComponent × Option String) where
  abbrev pub memory_store : ApprovalStore
  memory_store = record {
    State = ApprovalMaps;
    get_recipe_component_by_id = λ id s. component_in id s.components;
    list_recipe_components = list_components;
    get_raw_approval = get_raw_approval;
    create_raw_approval = create_raw_approval new_id now;
    delete_raw_approval = delete_raw_approval;
  }

  -- MemoryStore keeps the promises that approvals rely on.
  pub memory_store-IsStore : IsStore memory_store
  unfolding create_raw_approval get_raw_approval delete_raw_approval
  memory_store-IsStore = record {
    get-create = λ a s taken.
        (completed_approval new_id now a, create_raw_approval-taken new_id now a s taken, refl);
    get-delete = delete_raw_approval-gone;
    component-create = λ a id s. ground arith;
    component-delete = λ a id s. ap (component_in id) (delete_raw_approval-components a s);
  }
