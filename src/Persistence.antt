-- ===== src/Persistence.antt =====
-- core/src/persistence.rs: the checks on a stored operation record.
pub mod Validation
pub mod Store
use lyraos_desktop_updater.Prelude.{
  if◌then◌else◌, Eq, ◌==◌, ◌!=◌, nat_eq, option_dec, option_eq, is_some, is_none, is_some_and, all,
  all_at, contains, text_list_eq, bytes, byte_len, Text, text_eq, is_ascii_upper, is_ascii_hexdigit,
  Result, ◌>>=◌, ◌>>◌, fail_if, ℕ, Bool, true, false, not, ◌&&◌, ◌||◌, some, List, [], ◌∷◌, arith,
  ℕ_discrete,
}
use lyraos_desktop_updater.Recovery.{RollbackGoal, goal_valid}
use lyraos_desktop_updater.Domain.{
  OperationKind, update_within_release, release_upgrade, package_migration, OperationState,
  applying, ready_to_reboot, applying_offline, awaiting_reboot, verifying_boot, failed,
  needs_recovery, completed, OperationStateRecord, state_schema_version, release_eq,
  ReleaseIdentity-discrete,
}

-- The payloads of `Io` and `Json` are dropped.
pub data PersistenceError : Type 0 where
  invalid_operation_id unsafe_path io json unsupported_schema invalid_state : PersistenceError

abbrev pub is_lower_hex : ℕ → Bool
is_lower_hex c = is_ascii_hexdigit c && not (is_ascii_upper c)

unfoldable pub is_sha256 : Text → Bool
unfolding byte_len
is_sha256 value = byte_len value == 64 && all is_lower_hex (bytes value)

abbrev dash_positions : List ℕ
dash_positions = 8 ∷ 13 ∷ 18 ∷ 23 ∷ []

abbrev operation_id_byte : ℕ → ℕ → Bool
operation_id_byte i c = if contains dash_positions i then c == b'-' else is_lower_hex c

unfoldable pub validate_operation_id : Text → Result PersistenceError (Unit {0})
unfolding byte_len ℕ_discrete
validate_operation_id value =
    fail_if (not (byte_len value == 36 && all_at 0 operation_id_byte (bytes value)))
      invalid_operation_id

-- States that may carry a rollback goal.
abbrev pub may_have_goal : OperationState → Bool
may_have_goal needs_recovery = true
may_have_goal failed = true
may_have_goal awaiting_reboot = true
may_have_goal verifying_boot = true
may_have_goal completed = true
may_have_goal _ = false

-- States in which the rollback's boot subvolume may still be open.
abbrev pub may_have_open_goal : OperationState → Bool
may_have_open_goal needs_recovery = true
may_have_open_goal failed = true
may_have_open_goal _ = false

-- States that are stored only with a snapshot's number.
abbrev pub requires_snapshot : OperationState → Bool
requires_snapshot applying = true
requires_snapshot ready_to_reboot = true
requires_snapshot applying_offline = true
requires_snapshot awaiting_reboot = true
requires_snapshot verifying_boot = true
requires_snapshot needs_recovery = true
requires_snapshot completed = true
requires_snapshot _ = false

unfoldable pub goal_misplaced : OperationStateRecord → RollbackGoal → Bool
goal_misplaced r goal =
    not (may_have_goal r.state)
    || not (goal_valid goal r.snapshot_number)
    || not (may_have_open_goal r.state) && is_none goal.boot_snapshot

unfoldable pub operation_shape_is_valid : OperationStateRecord → Bool
unfolding ReleaseIdentity-discrete
operation_shape_is_valid r = elim r.operation [
  | update_within_release ↦ is_none r.target && is_none r.manifest_sha256
  | release_upgrade ↦ is_some r.target && is_some r.manifest_sha256
  | package_migration ↦ r.target == some r.source && is_some r.manifest_sha256
]

unfoldable pub validate_state : OperationStateRecord → Result PersistenceError (Unit {0})
unfolding ℕ_discrete
validate_state r = do
  fail_if (is_some_and r.recovery (goal_misplaced r)) invalid_state
  fail_if (r.schema_version != state_schema_version) unsupported_schema
  fail_if
      (not (is_sha256 r.plan_sha256)
        || is_some_and r.manifest_sha256 (λ hash. not (is_sha256 hash))
        || r.snapshot_number == some 0
        || requires_snapshot r.state && is_none r.snapshot_number)
      invalid_state
  fail_if (not (operation_shape_is_valid r)) invalid_state
