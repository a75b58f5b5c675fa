-- ===== src/Persistence/Validation.antt =====
-- Which records `validate_state` lets through (core/src/persistence.rs).
use lyraos_desktop_updater.Prelude.{
  nat_eq, option_eq, is_some, is_some_and, is_some_and-eq_false, text_list_eq, Text, text_eq, ok,
  ◌≡◌, ◌≢◌, ◌↔◌, true, false, not, none, some, arith,
}
use lyraos_desktop_updater.Recovery.{RollbackGoal, goal_valid}
use lyraos_desktop_updater.Domain.{
  OperationKind, update_within_release, release_upgrade, package_migration, OperationStateRecord,
  state_schema_version,
}
use lyraos_desktop_updater.Persistence.{
  is_sha256, may_have_goal, may_have_open_goal, requires_snapshot, goal_misplaced,
  operation_shape_is_valid, validate_state,
}

-- The shape that belongs to each kind of operation.
abbrev pub IsShaped : OperationKind → OperationStateRecord → Type 0
IsShaped update_within_release r = (r.target ≡ none) × (r.manifest_sha256 ≡ none)
IsShaped release_upgrade r = (is_some r.target ≡ true) × (is_some r.manifest_sha256 ≡ true)
IsShaped package_migration r = (r.target ≡ some r.source) × (is_some r.manifest_sha256 ≡ true)

-- The shape depends on the identities and the manifest only.
pub IsShaped-kept :
    (op : OperationKind) (r s : OperationStateRecord)
    → s.target ≡ r.target
    → s.manifest_sha256 ≡ r.manifest_sha256
    → s.source ≡ r.source
    → IsShaped op r
    → IsShaped op s
IsShaped-kept op r s t m o h = ground arith

pub record HasValidGoal (r : OperationStateRecord) (goal : RollbackGoal) : Type 0 where
  pub placed : may_have_goal r.state ≡ true
  pub bound : goal_valid goal r.snapshot_number ≡ true
  pub closed : may_have_open_goal r.state ≡ false → is_some goal.boot_snapshot ≡ true

pub record IsWellFormed (r : OperationStateRecord) : Type 0 where
  pub schema : r.schema_version ≡ state_schema_version
  pub plan_hash : is_sha256 r.plan_sha256 ≡ true
  pub manifest_hash : (hash : Text) → r.manifest_sha256 ≡ some hash → is_sha256 hash ≡ true
  pub snapshot_not_zero : r.snapshot_number ≢ some 0
  pub snapshot_recorded : requires_snapshot r.state ≡ true → is_some r.snapshot_number ≡ true
  pub shape : IsShaped r.operation r
  pub goal : (g : RollbackGoal) → r.recovery ≡ some g → HasValidGoal r g

goal_lem :
    (r : OperationStateRecord) (g : RollbackGoal) → (goal_misplaced r g ≡ false) ↔ HasValidGoal r g
unfolding goal_misplaced
goal_lem r g = (λ h. ground arith, λ h. ground arith)

shape_lem :
    (r : OperationStateRecord) → (operation_shape_is_valid r ≡ true) ↔ IsShaped r.operation r
unfolding operation_shape_is_valid
shape_lem r = (λ h. ground arith, λ h. ground arith)

-- A record passes `validate_state` exactly when it is well formed.
pub validate_state-IsWellFormed :
    (r : OperationStateRecord) → (validate_state r ≡ ok tt) ↔ IsWellFormed r
unfolding validate_state
validate_state-IsWellFormed r = (
  λ h. record {
    schema = ground arith;
    plan_hash = ground arith;
    manifest_hash = λ hash e. ground arith;
    snapshot_not_zero = ground arith;
    snapshot_recorded = ground arith;
    shape = (shape_lem r).0 (ground arith);
    goal = λ g e. (goal_lem r g).0 (ground arith);
  },
  λ w.
      let shaped : operation_shape_is_valid r ≡ true = (shape_lem r).1 w.shape in
      let placed : is_some_and r.recovery (goal_misplaced r) ≡ false =
        is_some_and-eq_false r.recovery _ (λ g e. (goal_lem r g).1 (w.goal g e)) in
      let hashed : is_some_and r.manifest_sha256 (λ hash. not (is_sha256 hash)) ≡ false =
        is_some_and-eq_false r.manifest_sha256 _
          (λ hash e. ground (arith, w.manifest_hash hash e)) in
      rw placed (rw hashed (ground arith)),
)
