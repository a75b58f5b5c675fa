-- ===== src/Service.antt =====
-- protocol/src/lib.rs and service/src/main.rs: the requests and their answers, and what the service
-- keeps.
pub mod Files
pub mod Reports
pub mod Start
pub mod Handle
pub mod Ownership
pub mod Foreign
pub mod Cancelled
pub mod Revalidation
pub mod Confirmed
pub mod Authority
pub mod Approved
use lyraos_desktop_updater.Prelude.{
  Eq, ◌==◌, nat_eq, option_eq, Text-discrete, text_list_eq, Text, text_eq, ℕ, Bool, true, false,
  Option, List, ℕ_discrete,
}
use lyraos_desktop_updater.Domain.{OperationState}
use lyraos_desktop_updater.Facts.{
  PackageChange, HostFacts, SolverResult, PreflightReport, PreflightIssue,
}
use lyraos_desktop_updater.Preflight.Plan.{UpgradePlan}
use lyraos_desktop_updater.Release.{ReleaseManifest}
use lyraos_desktop_updater.Events.{OperationEvent}

abbrev pub supported_version : ℕ
supported_version = 3

pub record PlannedUpdate : Type 0 where
  pub facts : HostFacts
  pub solver : SolverResult
  pub preflight : PreflightReport
  pub plan : UpgradePlan
  pub plan_sha256 : Text
  pub manifest : Option ReleaseManifest

unfoldable pub PlannedUpdate-discrete : Discrete PlannedUpdate
unfolding Text-discrete ℕ_discrete
PlannedUpdate-discrete = hlevel (ℕ_discrete, Text-discrete)

instance abbrev pub planned_eq : Eq PlannedUpdate
planned_eq = record { dec = PlannedUpdate-discrete }

unfoldable pub ReleaseManifest-discrete : Discrete ReleaseManifest
unfolding Text-discrete ℕ_discrete
ReleaseManifest-discrete = hlevel (ℕ_discrete, Text-discrete)

instance abbrev pub manifest_eq : Eq ReleaseManifest
manifest_eq = record { dec = ReleaseManifest-discrete }

unfoldable pub UpgradePlan-discrete : Discrete UpgradePlan
unfolding Text-discrete ℕ_discrete
UpgradePlan-discrete = hlevel (ℕ_discrete, Text-discrete)

instance abbrev pub plan_eq : Eq UpgradePlan
plan_eq = record { dec = UpgradePlan-discrete }

unfoldable pub changes-discrete : Discrete (List PackageChange)
unfolding Text-discrete ℕ_discrete
changes-discrete = hlevel (ℕ_discrete, Text-discrete)

instance abbrev pub changes_eq : Eq (List PackageChange)
changes_eq = record { dec = changes-discrete }

pub data RecoveryAction : Type 0 where
  show_diagnostics rollback keep_current : RecoveryAction

-- Each request starts with the version of the protocol and the request's name.
pub data Request : Type 0 where
  check_release read_trust_state read_recovery_readiness inspect plan_update : ℕ → Text → Request
  plan_release_upgrade : ℕ → Text → (manifest_sha256 : Text) → Request
  start :
      ℕ
      → Text
      → (operation_id : Text) → (plan_sha256 : Text) → (confirmed : Bool)
      → (planned : PlannedUpdate) → Request
  status : ℕ → Text → (operation_id : Text) → (after_sequence : Option ℕ) → Request
  cancel : ℕ → Text → (operation_id : Text) → Request
  acknowledge_recovery :
      ℕ → Text → (operation_id : Text) → (recovery_action : RecoveryAction) → Request

abbrev pub protocol_version : Request → ℕ
protocol_version (check_release v id) = v
protocol_version (read_trust_state v id) = v
protocol_version (read_recovery_readiness v id) = v
protocol_version (inspect v id) = v
protocol_version (plan_update v id) = v
protocol_version (plan_release_upgrade v id hash) = v
protocol_version (start v id operation hash confirmed planned) = v
protocol_version (status v id operation after) = v
protocol_version (cancel v id operation) = v
protocol_version (acknowledge_recovery v id operation action) = v

abbrev pub request_id : Request → Text
request_id (check_release v id) = id
request_id (read_trust_state v id) = id
request_id (read_recovery_readiness v id) = id
request_id (inspect v id) = id
request_id (plan_update v id) = id
request_id (plan_release_upgrade v id hash) = id
request_id (start v id operation hash confirmed planned) = id
request_id (status v id operation after) = id
request_id (cancel v id operation) = id
request_id (acknowledge_recovery v id operation action) = id

unfoldable pub is_supported : Request → Bool
unfolding ℕ_discrete
is_supported request = protocol_version request == supported_version

abbrev pub needs_authorization : Request → Bool
needs_authorization (start v id operation hash confirmed planned) = true
needs_authorization (cancel v id operation) = true
needs_authorization (acknowledge_recovery v id operation rollback) = true
needs_authorization (acknowledge_recovery v id operation keep_current) = true
needs_authorization _ = false

-- The inventory in the answer to a request for the status is left out.
pub data Response : Type 0 where
  preflight_blocked : Text → (blockers : List PreflightIssue) → Response
  release_offer :
      Text → (manifest_sha256 : Text) → (manifest : ReleaseManifest) → (cached : Bool) → Response
  trust_state : Text → (last_manifest_sequence : Option ℕ) → Response
  recovery_readiness : Text → (snapper_root_configured : Bool) → Response
  rejected : Text → (error_code : Text) → Response
  accepted : Text → (operation_id : Option Text) → Response
  inspection : Text → (facts : HostFacts) → (preflight : PreflightReport) → Response
  plan :
      Text
      → (operation_id : Text) → (plan_sha256 : Text) → (plan : UpgradePlan)
      → (preflight : PreflightReport) → (planned : PlannedUpdate) → Response
  status_of :
      Text
      → (operation_id : Text) → (sequence : ℕ) → (state : OperationState)
      → (snapshot_number : Option ℕ) → (recovered : Bool) → (error_code : Option Text)
      → (events : List OperationEvent) → Response
