-- ===== src/Service/Start.antt =====
-- service/src/main.rs: `Service::start`, up to the thread that it starts.
use lyraos_desktop_updater.Prelude.{
  if◌then◌else◌, ◌==◌, ◌!=◌, nat_eq, option_eq, is_some, is_some_and, Text-discrete, text_list_eq,
  Text, codes, text_eq, Result, ◌>>=◌, err, ok, Bool, true, false, not, ◌&&◌, ◌||◌, Option, none,
  some, List, ◌∷◌,
}
use lyraos_desktop_updater.Domain.{
  awaiting_confirmation, is_signed_offline, ReleaseIdentity-discrete, OperationKind-discrete,
  OperationState-discrete, OperationKind, OperationStateRecord, BootVerification,
  update_within_release, state_eq, kind_eq, release_eq,
}
use lyraos_desktop_updater.Events.{restore}
use lyraos_desktop_updater.Release.{operation, ReleaseManifest}
use lyraos_desktop_updater.Persistence.{PersistenceError}
use lyraos_desktop_updater.Persistence.Store.{Stored, load_state, save_state}
use lyraos_desktop_updater.Service.{
  rejected, accepted, OperationEvent, PlannedUpdate, Response, planned_eq, manifest_eq, plan_eq,
  changes_eq, changes-discrete, PlannedUpdate-discrete, ReleaseManifest-discrete,
  UpgradePlan-discrete,
}
use lyraos_desktop_updater.Service.Files.{
  set, exists, OwnerFile, save_operation_owner, owns, with_files, with_place, Service, PendingPlan,
}
use lyraos_desktop_updater.Service.Reports.{ServiceHost}

-- An answer, or the service goes on.
abbrev pub Turn : Type 0
Turn = Result (Service × Response) Service

abbrev pub refuse : Bool → Text → Text → Service → Turn
refuse true id error s = err (s, rejected id error)
refuse false id error s = ok s

abbrev pub require {ℓ} :
    {A : Type ℓ} → Option A → Text → Text → Service → Result (Service × Response) A
require none id error s = err (s, rejected id error)
require (some a) id error s = ok a

abbrev pub valid_operation_shape : OperationKind → Bool → Bool → Bool → Bool → Bool
valid_operation_shape update_within_release has_manifest matches has_target has_hash =
    not has_manifest && not has_target && not has_hash
valid_operation_shape _ has_manifest matches has_target has_hash =
    has_manifest && matches && has_target && has_hash

abbrev matches_manifest : PlannedUpdate → Bool
matches_manifest p =
    is_some_and p.manifest (λ m. p.plan.target == some m.target && p.plan.operation == operation m)

abbrev agrees : Bool → Bool → Bool
agrees true b = b
agrees false b = not b

-- The submitted plan agrees with its hash and with itself.
unfoldable pub is_consistent : ServiceHost → Text → PlannedUpdate → Bool
unfolding Text-discrete ReleaseIdentity-discrete OperationKind-discrete changes-discrete
is_consistent host hash p =
    p.plan_sha256 == hash
    && host.plan_hash p.plan == some hash
    && valid_operation_shape p.plan.operation (is_some p.manifest) (matches_manifest p)
        (is_some p.plan.target) (is_some p.plan.manifest_sha256)
    && p.facts.release == p.plan.source
    && p.solver.changes == p.plan.package_changes
    && agrees (p.solver.reboot_required || is_signed_offline p.plan.operation)
        p.plan.reboot_required

abbrev pub signed_plan :
    ServiceHost
    → PlannedUpdate
    → Text
    → Service
    → Result Text ReleaseManifest
    → Result (Service × Response) PlannedUpdate
signed_plan host p id s (err error) = err (s, rejected id error)
signed_plan host p id s (ok m) = do
  s ← refuse (p.manifest != some m) id (codes "MANIFEST_CHANGED") s
  require (host.release_plan m) id (codes "PLAN_CHANGED") s

abbrev pub plan_again :
    ServiceHost
    → PlannedUpdate
    → Text
    → Service
    → OperationKind
    → Result (Service × Response) PlannedUpdate
plan_again host p id s update_within_release = require host.update_plan id (codes "PLAN_CHANGED") s
plan_again host p id s _ = signed_plan host p id s host.manifest

-- The plan that the service computes itself.
unfoldable pub authoritative :
    ServiceHost → PlannedUpdate → Text → Service → Result (Service × Response) PlannedUpdate
unfolding ReleaseManifest-discrete
authoritative host p id s = plan_again host p id s p.plan.operation

abbrev pub initial_record :
    ServiceHost → Text → Text → PlannedUpdate → PlannedUpdate → OperationStateRecord
initial_record host operation_id hash submitted own = record {
  schema_version = 1;
  operation_id = operation_id;
  sequence = 1;
  operation = own.plan.operation;
  state = awaiting_confirmation;
  source = submitted.facts.release;
  target = own.plan.target;
  plan_sha256 = hash;
  manifest_sha256 = own.plan.manifest_sha256;
  snapshot_number = none;
  recovery = none;
  last_completed_step = some (codes "planned");
  error_code = none;
  boot_verification = some BootVerification.pending;
  created_at = host.now;
  updated_at = host.now;
}

-- How a store of the record ends for the service.
abbrev pub stored_for : Text → Text → Service → Stored → Turn
stored_for id operation_id s (err (_, place)) =
    err (with_place operation_id place s, rejected id (codes "STATE_WRITE_FAILED"))
stored_for id operation_id s (ok place) = ok (with_place operation_id place s)

abbrev pub with_pending : Text → PendingPlan → Service → Service
with_pending operation_id pending s =
    with_files operation_id (record (s.store operation_id) { pending = some pending }) s

abbrev pub with_owner : Text → OwnerFile → Service → Service
with_owner operation_id owner s =
    with_files operation_id (record (s.store operation_id) { owner = owner }) s

-- The three files of a new operation.
unfoldable pub create_operation :
    ServiceHost → Text → Text → OperationStateRecord → PendingPlan → Service → Turn
create_operation host id operation_id r pending s = do
  s ← stored_for id operation_id s (save_state host.store host.codec (s.store operation_id).place r)
  s ← refuse (not host.saves_pending) id (codes "STATE_WRITE_FAILED") s
  let s = with_pending operation_id pending s
  owner ←
      require
        (save_operation_owner host.saves_owner operation_id s.caller_uid
          (s.store operation_id).owner)
        id (codes "STATE_WRITE_FAILED") s
  let s = with_owner operation_id owner s
  ok (record s { plans = set operation_id (some pending) s.plans })

-- An operation that is not the caller's must be new; it is planned again before it is written.
unfoldable pub register : ServiceHost → Text → Text → Text → PlannedUpdate → Service → Turn
unfolding Text-discrete UpgradePlan-discrete
register host id operation_id hash submitted s = do
  s ← refuse (exists (s.store operation_id)) id (codes "OPERATION_NOT_FOUND") s
  own ← authoritative host submitted id s
  s ←
      refuse (not (own.plan_sha256 == hash && own.plan == submitted.plan)) id (codes "PLAN_CHANGED")
        s
  create_operation host id operation_id (initial_record host operation_id hash submitted own)
      (record { planned = submitted; manifest = own.manifest }) s

abbrev pub or_else {ℓ} : {A : Type ℓ} → Option A → Option A → Option A
or_else none b = b
or_else (some a) b = some a

abbrev pub loaded :
    Text
    → Service
    → Result PersistenceError OperationStateRecord
    → Result (Service × Response) OperationStateRecord
loaded id s (err _) = err (s, rejected id (codes "STATE_READ_FAILED"))
loaded id s (ok r) = ok r

abbrev pub complete_history : Option (List OperationEvent × Bool) → Option (List OperationEvent)
complete_history (some (events, false)) = some events
complete_history _ = none

-- The stored operation is the submitted one, awaits its confirmation, and its history is whole: the
-- thread is started.
unfoldable pub launch : ServiceHost → Text → Text → Text → PlannedUpdate → Service → Turn
unfolding Text-discrete PlannedUpdate-discrete ReleaseManifest-discrete OperationState-discrete
launch host id operation_id hash submitted s = do
  planned ←
      require (or_else (s.plans operation_id) (s.store operation_id).pending) id
        (codes "PLAN_NOT_AVAILABLE") s
  s ←
      refuse
        (planned.planned.plan_sha256 != hash
          || planned.planned != submitted
          || planned.manifest != submitted.manifest)
        id (codes "PLAN_HASH_MISMATCH") s
  r ← loaded id s (load_state host.codec (s.store operation_id).place operation_id)
  s ← refuse (r.state != awaiting_confirmation) id (codes "INVALID_STATE") s
  s ← refuse (s.store operation_id).write_failure id (codes "EVENT_LOG_WRITE_FAILED") s
  events ←
      require (complete_history (s.store operation_id).history) id (codes "EVENT_LOG_READ_FAILED") s
  ok (record s {
    events = set operation_id (restore events) s.events;
    workers = operation_id ∷ s.workers;
  })

abbrev pub accepted_as : Text → Text → Turn → Service × Response
accepted_as id operation_id (err answer) = answer
accepted_as id operation_id (ok s) = (s, accepted id (some operation_id))

-- The service with the thread, or the answer that refuses it.
unfoldable pub start_thread :
    ServiceHost → Service → Text → Text → Text → Bool → PlannedUpdate → Turn
start_thread host s id operation_id hash confirmed submitted = do
  s ← refuse (not confirmed) id (codes "CONFIRMATION_REQUIRED") s
  s ← refuse (not (is_consistent host hash submitted)) id (codes "PLAN_HASH_MISMATCH") s
  s ← if owns s operation_id then ok s else register host id operation_id hash submitted s
  launch host id operation_id hash submitted s

unfoldable pub start :
    ServiceHost → Service → Text → Text → Text → Bool → PlannedUpdate → Service × Response
start host s id operation_id hash confirmed submitted =
    accepted_as id operation_id (start_thread host s id operation_id hash confirmed submitted)
