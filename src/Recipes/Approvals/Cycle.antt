-- ===== src/Recipes/Approvals/Cycle.antt =====
-- internal/services/recipes/raw_approval.go: approving, revoking, and what the queries say of it.
use vcdeploy.Prelude.{ℕ, String, ◌≡◌, ap, Bool, true, false, not, ◌&&◌, none, some, arith}
use vcdeploy.Recipes.Approvals.{
  RawCommandApproval, ApprovalStore, already_approved, Answer, answer, failure, ApprovalStatus,
  RawApprovalService, component_of, known_approval, requires_approval, log_entry, create_approval,
  approve, delete_approval, revoke_approval, get_approval_status,
}

-- What a store promises: once it has taken an approval, it answers with one for the component, whose
-- identifier and time it may have set; one that it has deleted is gone, with an error or without one;
-- and neither changes what it says of components.
pub record IsStore (store : ApprovalStore) : Type 0 where
  pub get-create :
      (a : RawCommandApproval) (s : store.State)
      → (store.create_raw_approval a s).1 ≡ none
      → (stored : RawCommandApproval) × (store.get_raw_approval a.component_id
            (store.create_raw_approval a s).0
          ≡ (some stored, none))
        × (stored.component_id ≡ a.component_id)
  pub get-delete :
      (id : String) (s : store.State)
      → (store.delete_raw_approval id s).1 ≡ none
      → (store.get_raw_approval id (store.delete_raw_approval id s).0).0 ≡ none
  pub component-create :
      (a : RawCommandApproval) (id : String) (s : store.State)
      → store.get_recipe_component_by_id id (store.create_raw_approval a s).0
        ≡ store.get_recipe_component_by_id id s
  pub component-delete :
      (a id : String) (s : store.State)
      → store.get_recipe_component_by_id id (store.delete_raw_approval a s).0
        ≡ store.get_recipe_component_by_id id s

module _ (store : ApprovalStore) where
  -- What `RequiresApproval` makes of a status.
  abbrev pub required : Answer ApprovalStatus → Answer Bool
  required (failure e) = failure e
  required (answer status) = answer (status.is_raw && not status.is_approved)

  -- The two queries agree, errors included: a component requires approval exactly if its status
  -- says that it is raw and not approved.
  pub requires_approval-get_approval_status :
      (id : String) (s : RawApprovalService store)
      → requires_approval store id s ≡ required (get_approval_status store id s)
  unfolding requires_approval get_approval_status
  requires_approval-get_approval_status id s = ground arith

  -- `CreateRawApproval` is given this.
  abbrev new_approval : String → String → String → ℕ → RawCommandApproval
  new_approval id admin note now = record {
    id = "";
    component_id = id;
    approved_by = admin;
    approved_at = now;
    approval_note = note;
  }

  -- A component for which Approve succeeds needed approval before and does not need it after, and
  -- a second Approve is refused and changes nothing; the store keeps its promises.
  pub approve-settles :
      (id admin note again : String) (now later : ℕ) (s : RawApprovalService store)
      → IsStore store
      → (approve store id admin note now s).1 ≡ none
      → let s' = (approve store id admin note now s).0 in
        (requires_approval store id s ≡ answer true)
        × (requires_approval store id s' ≡ answer false)
        × (approve store id admin again later s' ≡ (s', some already_approved))
  unfolding approve create_approval log_entry requires_approval known_approval component_of
  approve-settles id admin note again now later s laws done =
      let a = new_approval id admin note now in
      let taken : (store.create_raw_approval a s.state).1 ≡ none = ground arith in
      let (stored, known, named) = laws.get-create a s.state taken in
      let value = ap (λ x. x.0) known in
      let no_error = ap (λ x. x.1) known in
      let same = laws.component-create a id s.state in
      let component = ap (λ x. x.0) same in
      let component_error = ap (λ x. x.1) same in (ground arith, ground arith, ground arith)

  -- A component for which RevokeApproval succeeds needed no approval before, being approved, and
  -- needs it after; the store keeps its promises.
  pub revoke_approval-settles :
      (id admin : String) (s : RawApprovalService store)
      → IsStore store
      → (revoke_approval store id admin s).1 ≡ none
      → (requires_approval store id s ≡ answer false)
        × (requires_approval store id (revoke_approval store id admin s).0 ≡ answer true)
  unfolding revoke_approval delete_approval log_entry requires_approval known_approval component_of
  revoke_approval-settles id admin s laws done =
      let taken : (store.delete_raw_approval id s.state).1 ≡ none = ground arith in
      let gone = laws.get-delete id s.state taken in
      let same = laws.component-delete id id s.state in
      let component = ap (λ x. x.0) same in
      let component_error = ap (λ x. x.1) same in (ground arith, ground arith)
