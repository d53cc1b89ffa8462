-- ===== src/Recipes/Approvals.antt =====
-- internal/services/recipes/raw_approval.go: an administrator's approval of components that run raw
-- commands. The store is an argument. A method of it that answers with a value and an error gives
-- both here; `none` is nil.
pub mod Cycle
pub mod Memory
mod Witnesses
use Prim.Native.String.{◌++◌ as ◌<>◌}
use vcdeploy.Prelude.{
  ℕ, String, Bool, true, false, not, Option, none, some, List, [], ◌∷◌, ◌++◌, if◌then◌else◌,
}

-- `RecipeComponent`, the fields that approvals read.
pub record RecipeComponent : Type 0 where
  pub id : String
  pub namespace : String
  pub slug : String
  pub is_raw : Bool

-- `RawCommandApproval`
pub record RawCommandApproval : Type 0 where
  pub id : String
  pub component_id : String
  pub approved_by : String
  pub approved_at : ℕ
  pub approval_note : String

-- The methods of `storage.Store` that approvals call, over the state of the store.
pub record ApprovalStore : Type 1 where
  pub State : Type 0
  pub get_recipe_component_by_id : String → State → Option RecipeComponent × Option String
  pub list_recipe_components : String → State → List RecipeComponent × Option String
  pub get_raw_approval : String → State → Option RawCommandApproval × Option String
  pub create_raw_approval : RawCommandApproval → State → State × Option String
  pub delete_raw_approval : String → State → State × Option String

-- What the audit log is told: the action, the component and the details.
pub record AuditEntry : Type 0 where
  pub action : String
  pub resource_id : String
  pub details : String

pub data ApprovalError : Type 0 where
  lookup_failed : String → ApprovalError
  component_not_found : ApprovalError
  not_raw : ApprovalError
  already_approved : ApprovalError
  creating_failed : String → ApprovalError
  no_approval : ApprovalError
  deleting_failed : String → ApprovalError

-- A value or an error.
pub data Answer (A : Type 0) : Type 0 where
  answer : A → Answer A
  failure : ApprovalError → Answer A

-- `ApprovalStatus`, with the fields of the approval together.
pub record ApprovalStatus : Type 0 where
  pub component_id : String
  pub is_raw : Bool
  pub is_approved : Bool
  pub approval : Option (String × ℕ × String)

module _ (store : ApprovalStore) where
  -- `RawApprovalService` with its store: `has_audit` says that `auditService` is not nil.
  pub record RawApprovalService : Type 0 where
    pub state : store.State
    pub has_audit : Bool
    pub audit : List AuditEntry

  -- The component of a call, as every method looks it up.
  unfoldable pub component_of : String → RawApprovalService → Answer RecipeComponent
  component_of component_id s =
      let (component, err) = store.get_recipe_component_by_id component_id s.state in
      elim err [
        | some e ↦ failure (lookup_failed e)
        | none ↦ elim component [ none ↦ failure component_not_found | some c ↦ answer c ]
      ]

  -- The approval of a component; an error of the store counts as none.
  unfoldable pub known_approval : String → RawApprovalService → Option RawCommandApproval
  known_approval component_id s =
      let (approval, err) = store.get_raw_approval component_id s.state in
      elim err [ some e ↦ none | none ↦ approval ]

  -- `RequiresApproval`
  unfoldable pub requires_approval : String → RawApprovalService → Answer Bool
  unfolding component_of known_approval
  requires_approval component_id s = elim (component_of component_id s) [
    | failure e ↦ failure e
    | answer c ↦
        if not c.is_raw
        then answer false
        else elim (known_approval component_id s) [ none ↦ answer true | some a ↦ answer false ]
  ]

  unfoldable pub log_entry : AuditEntry → RawApprovalService → RawApprovalService
  log_entry entry s = if s.has_audit then record s { audit = s.audit ++ entry ∷ [] } else s

  unfoldable pub create_approval :
      RecipeComponent
      → String
      → String
      → String
      → ℕ
      → RawApprovalService
      → RawApprovalService × Option ApprovalError
  unfolding log_entry
  create_approval c component_id admin_user_id note now s =
      let (state', err) =
        store.create_raw_approval
          (record {
            id = "";
            component_id = component_id;
            approved_by = admin_user_id;
            approved_at = now;
            approval_note = note;
          })
          s.state in
      let s' = record s { state = state' } in
      let entry : AuditEntry = record {
        action = "raw_component_approved";
        resource_id = component_id;
        details =
            "user_id="
            <> (admin_user_id
                <> (", component=" <> (c.namespace <> (":" <> (c.slug <> (", note=" <> note))))));
      } in
      elim err [ some e ↦ (s', some (creating_failed e)) | none ↦ (log_entry entry s', none) ]

  -- `Approve`: its look for an approval drops the error of the store.
  unfoldable pub approve :
      String → String → String → ℕ → RawApprovalService → RawApprovalService × Option ApprovalError
  unfolding component_of create_approval
  approve component_id admin_user_id note now s = elim (component_of component_id s) [
    | failure e ↦ (s, some e)
    | answer c ↦
        if not c.is_raw
        then (s, some not_raw)
        else elim (store.get_raw_approval component_id s.state).0 [
          | some a ↦ (s, some already_approved)
          | none ↦ create_approval c component_id admin_user_id note now s
        ]
  ]

  unfoldable pub delete_approval :
      RecipeComponent
      → String
      → String
      → RawApprovalService
      → RawApprovalService × Option ApprovalError
  unfolding log_entry
  delete_approval c component_id admin_user_id s =
      let (state', err) = store.delete_raw_approval component_id s.state in
      let s' = record s { state = state' } in
      let entry : AuditEntry = record {
        action = "raw_component_revoked";
        resource_id = component_id;
        details =
            "user_id=" <> (admin_user_id <> (", component=" <> (c.namespace <> (":" <> c.slug))));
      } in
      elim err [ some e ↦ (s', some (deleting_failed e)) | none ↦ (log_entry entry s', none) ]

  -- `RevokeApproval`
  unfoldable pub revoke_approval :
      String → String → RawApprovalService → RawApprovalService × Option ApprovalError
  unfolding component_of known_approval delete_approval
  revoke_approval component_id admin_user_id s = elim (component_of component_id s) [
    | failure e ↦ (s, some e)
    | answer c ↦ if not c.is_raw then (s, some not_raw) else elim (known_approval component_id s) [
      | none ↦ (s, some no_approval)
      | some a ↦ delete_approval c component_id admin_user_id s
    ]
  ]

  -- `GetApprovalStatus`
  unfoldable pub get_approval_status : String → RawApprovalService → Answer ApprovalStatus
  unfolding component_of known_approval
  get_approval_status component_id s = elim (component_of component_id s) [
    | failure e ↦ failure e
    | answer c ↦
        let status : ApprovalStatus = record {
          component_id = component_id;
          is_raw = c.is_raw;
          is_approved = false;
          approval = none;
        } in
        if not c.is_raw then answer status else elim (known_approval component_id s) [
          | none ↦ answer status
          | some a ↦ answer (record status {
            is_approved = true;
            approval = some (a.approved_by, a.approved_at, a.approval_note);
          })
        ]
  ]

  -- The loop of `ListPendingApprovals`; it drops the errors of the store.
  unfoldable pub pending : RawApprovalService → List RecipeComponent → List RecipeComponent
  pending s [] = []
  pending s (c ∷ cs) =
      let rest = pending s cs in
      if not c.is_raw
      then rest
      else elim (store.get_raw_approval c.id s.state).0 [ none ↦ c ∷ rest | some a ↦ rest ]

  -- `ListPendingApprovals`
  unfoldable pub list_pending_approvals : RawApprovalService → Answer (List RecipeComponent)
  unfolding pending
  list_pending_approvals s =
      let (seed, seed_err) = store.list_recipe_components "seed" s.state in
      let (user, user_err) = store.list_recipe_components "user" s.state in
      elim seed_err [
        | some e ↦ failure (lookup_failed e)
        | none ↦ elim user_err [
          | some e ↦ failure (lookup_failed e)
          | none ↦ answer (pending s (seed ++ user))
        ]
      ]
