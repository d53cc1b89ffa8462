-- ===== src/Recipes/Approvals/Witnesses.antt =====
-- Approvals in a store in memory, and the theorems at concrete inputs.
use vcdeploy.Prelude.{◌≡◌, refl, true, false, none, some, [], ◌∷◌, lookup}
use vcdeploy.Recipes.Approvals.{
  ApprovalStore, already_approved, answer, RawApprovalService, requires_approval, approve,
}
use vcdeploy.Recipes.Approvals.Cycle.{approve-settles}
use vcdeploy.Recipes.Approvals.Memory.{
  create_raw_approval, get_raw_approval, memory_store, memory_store-IsStore,
}

abbrev memory : ApprovalStore
memory = memory_store "a1" 5 (λ namespace s. ([], none))

abbrev service : RawApprovalService memory
service = record {
  state = record {
    components = ("c1", record { id = "c1"; namespace = "user"; slug = "c1"; is_raw = true }) ∷ [];
    raw_approvals = [];
    raw_approvals_by_component = [];
    core_writes = [];
  };
  has_audit = true;
  audit = [];
}

approved_once : (approve memory "c1" "admin" "checked" 5 service).1 ≡ none
unfolding approve lookup create_raw_approval get_raw_approval
approved_once = refl

abbrev approved : RawApprovalService memory
approved = (approve memory "c1" "admin" "checked" 5 service).0

approve-settles_example :
    (requires_approval memory "c1" service ≡ answer true)
    × (requires_approval memory "c1" approved ≡ answer false)
    × (approve memory "c1" "admin" "again" 6 approved ≡ (approved, some already_approved))
approve-settles_example =
    approve-settles memory "c1" "admin" "checked" "again" 5 6 service
      (memory_store-IsStore "a1" 5 (λ namespace s. ([], none))) approved_once
