-- ===== src/Domain.antt =====
-- core/src/lib.rs: the operation record, its kinds and states, and the transition function.
pub mod Transitions
use lyraos_desktop_updater.Prelude.{
  Eq, ◌==◌, ◌!=◌, nat_eq, option_dec, option_eq, saturating_add, is_none, Text-discrete,
  text_list_eq, Text, codes, text_eq, Result, ◌>>=◌, ◌>>◌, fail_if, ok, ℕ, Bool, true, false, not,
  ◌&&◌, Option, arith, ℕ_discrete,
}
use lyraos_desktop_updater.Recovery.{RollbackGoal}

abbrev pub state_schema_version : ℕ
state_schema_version = 1

pub data OperationKind : Type 0 where
  update_within_release release_upgrade package_migration : OperationKind

unfoldable pub OperationKind-discrete : Discrete OperationKind
OperationKind-discrete = hlevel

instance abbrev pub kind_eq : Eq OperationKind
kind_eq = record { dec = OperationKind-discrete }

abbrev pub is_signed_offline : OperationKind → Bool
is_signed_offline update_within_release = false
is_signed_offline _ = true

pub data OperationState : Type 0 where
  idle checking available preflight planned awaiting_confirmation : OperationState
  downloading snapshotting applying ready_to_reboot applying_offline : OperationState
  awaiting_reboot verifying_boot blocked failed needs_recovery completed : OperationState

unfoldable pub OperationState-discrete : Discrete OperationState
OperationState-discrete = hlevel

instance abbrev pub state_eq : Eq OperationState
state_eq = record { dec = OperationState-discrete }

abbrev pub is_terminal : OperationState → Bool
is_terminal failed = true
is_terminal needs_recovery = true
is_terminal completed = true
is_terminal _ = false

abbrev pub is_cancelable : OperationState → Bool
is_cancelable idle = true
is_cancelable checking = true
is_cancelable available = true
is_cancelable preflight = true
is_cancelable planned = true
is_cancelable awaiting_confirmation = true
is_cancelable downloading = true
is_cancelable blocked = true
is_cancelable _ = false

abbrev pub permits_system_write : OperationState → Bool
permits_system_write snapshotting = true
permits_system_write applying = true
permits_system_write ready_to_reboot = true
permits_system_write applying_offline = true
permits_system_write _ = false

pub record ReleaseIdentity : Type 0 where
  pub version : Text
  pub edition : Text
  pub architecture : Text
  pub build_id : Text

unfoldable pub ReleaseIdentity-discrete : Discrete ReleaseIdentity
unfolding Text-discrete
ReleaseIdentity-discrete = hlevel Text-discrete

instance abbrev pub release_eq : Eq ReleaseIdentity
release_eq = record { dec = ReleaseIdentity-discrete }

unfoldable pub is_supported_desktop : ReleaseIdentity → Bool
unfolding Text-discrete
is_supported_desktop r = r.edition == codes "desktop" && r.architecture == codes "x86_64"

pub data BootVerification : Type 0 where
  pending passed failed : BootVerification

-- The fields `created_at` and `updated_at` are carried as texts.
pub record OperationStateRecord : Type 0 where
  pub schema_version : ℕ
  pub operation_id : Text
  pub sequence : ℕ
  pub operation : OperationKind
  pub state : OperationState
  pub source : ReleaseIdentity
  pub target : Option ReleaseIdentity
  pub plan_sha256 : Text
  pub manifest_sha256 : Option Text
  pub snapshot_number : Option ℕ
  pub recovery : Option RollbackGoal
  pub last_completed_step : Option Text
  pub error_code : Option Text
  pub boot_verification : Option BootVerification
  pub created_at : Text
  pub updated_at : Text

pub data TransitionError : Type 0 where
  unsupported_schema invalid_transition snapshot_not_recorded : TransitionError

-- The arms of the final `match` of `valid_transition`.
abbrev normal_step : OperationKind → OperationState → OperationState → Bool
normal_step op idle checking = true
normal_step op checking available = true
normal_step op available preflight = true
normal_step op preflight planned = true
normal_step op planned awaiting_confirmation = true
normal_step op awaiting_confirmation downloading = true
normal_step op downloading snapshotting = true
normal_step op applying awaiting_reboot = true
normal_step op applying completed = true
normal_step op awaiting_reboot verifying_boot = true
normal_step op verifying_boot completed = true
normal_step op blocked preflight = true
normal_step op blocked idle = true
normal_step op snapshotting applying = op == update_within_release
normal_step op snapshotting ready_to_reboot = is_signed_offline op
normal_step op ready_to_reboot applying_offline = is_signed_offline op
normal_step op applying_offline awaiting_reboot = is_signed_offline op
normal_step _ _ _ = false

abbrev may_block : OperationState → Bool
may_block checking = true
may_block preflight = true
may_block downloading = true
may_block _ = false

abbrev may_fail : OperationState → Bool
may_fail completed = false
may_fail needs_recovery = false
may_fail _ = true

abbrev may_need_recovery : OperationState → Bool
may_need_recovery snapshotting = true
may_need_recovery applying = true
may_need_recovery applying_offline = true
may_need_recovery verifying_boot = true
may_need_recovery _ = false

-- The early returns on `next`, then the table.
unfoldable pub valid_transition : OperationKind → OperationState → OperationState → Bool
unfolding OperationKind-discrete
valid_transition op current blocked = may_block current
valid_transition op current failed = may_fail current
valid_transition op current needs_recovery = may_need_recovery current
valid_transition op current next = normal_step op current next

abbrev pub needs_snapshot : OperationState → Bool
needs_snapshot applying = true
needs_snapshot ready_to_reboot = true
needs_snapshot applying_offline = true
needs_snapshot _ = false

unfoldable pub transition_to :
    OperationStateRecord → OperationState → Result TransitionError OperationStateRecord
unfolding ℕ_discrete
transition_to r next = do
  fail_if (r.schema_version != state_schema_version) unsupported_schema
  fail_if (needs_snapshot next && is_none r.snapshot_number) snapshot_not_recorded
  fail_if (not (valid_transition r.operation r.state next)) invalid_transition
  ok (record r { state = next; sequence = saturating_add r.sequence 1 })
