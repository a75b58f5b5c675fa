-- ===== src/Service/Reports.antt =====
-- service/src/main.rs: `Service::status` and `Service::trust_state`, and what the system answers.
use lyraos_desktop_updater.Prelude.{
  ltb, if◌then◌else◌, ◌==◌, nat_eq, option_eq, is_some, keep, text_list_eq, Text, codes, text_eq,
  Result, err, ok, sort_by, ℕ, Bool, true, false, not, ◌&&◌, ◌||◌, Option, none, some, List, [],
  ◌∷◌, ◌++◌, ℕ_discrete,
}
use Prim.Native.Nat.{compare}
use lyraos_desktop_updater.Persistence.{PersistenceError}
use lyraos_desktop_updater.Domain.{
  state_eq, completed, BootVerification, OperationState-discrete, OperationStateRecord,
}
use lyraos_desktop_updater.Preflight.Plan.{UpgradePlan}
use lyraos_desktop_updater.Release.{ReleaseManifest}
use lyraos_desktop_updater.Events.{warning, after, OperationEvent, EventLog}
use lyraos_desktop_updater.Persistence.Store.{StoreHost, Codec, load_state}
use lyraos_desktop_updater.Rollback.{RollbackHost}
use lyraos_desktop_updater.Service.{
  status_of, supported_version, rejected, read_trust_state, PlannedUpdate, Request, Response,
}
use lyraos_desktop_updater.Service.Files.{owns, Service, OperationFiles}

-- What the calls answer that leave the service as it is: the clock, the query broker, the trusted
-- sequence, the signed manifest, the two planners, the hash of a plan, and the answers to requests that
-- only read the host. Then how the writes end: of the record, of the pending plan and of the owner,
-- and those of a rollback.
pub record ServiceHost : Type 0 where
  pub now : Text
  pub query : Request → Result Text Response
  pub last_sequence : Option (Option ℕ)
  pub manifest : Result Text ReleaseManifest
  pub update_plan : Option PlannedUpdate
  pub release_plan : ReleaseManifest → Option PlannedUpdate
  pub plan_hash : UpgradePlan → Option Text
  pub host_answer : Request → Response
  pub readiness : Text → Response
  pub codec : Codec
  pub store : StoreHost
  pub saves_pending : Bool
  pub saves_owner : Bool
  pub rollback : RollbackHost

-- `query_client::request(…).unwrap_or_else(|error| rejected(request_id, &error))`
abbrev pub answered : Text → Result Text Response → Response
answered id (ok response) = response
answered id (err error) = rejected id error

abbrev trusted : Text → Option (Option ℕ) → Response
trusted id none = rejected id (codes "MANIFEST_SEQUENCE_INVALID")
trusted id (some sequence) = Response.trust_state id sequence

unfoldable pub trust_state : ServiceHost → Service → Text → Response
trust_state host s id =
    if s.read_only
    then answered id (host.query (read_trust_state supported_version id))
    else trusted id host.last_sequence

-- `dedup_by_key`, behind an event of a sequence.
abbrev dedup_after : ℕ → List OperationEvent → List OperationEvent
dedup_after n [] = []
dedup_after n (event ∷ events) =
    let rest = dedup_after event.sequence events in
    let same = dedup_after n events in if event.sequence == n then same else event ∷ rest

abbrev dedup_sequences : List OperationEvent → List OperationEvent
dedup_sequences [] = []
dedup_sequences (event ∷ events) = event ∷ dedup_after event.sequence events

abbrev by_sequence : List OperationEvent → List OperationEvent
by_sequence events = sort_by (λ a b. compare a.sequence b.sequence) events

-- The events of an answer and the error of the history, if there is one.
abbrev pub Seen : Type 0
Seen = List OperationEvent × Option Text

abbrev read_failed : Text
read_failed = codes "EVENT_LOG_READ_FAILED"

abbrev write_failed : Text
write_failed = codes "EVENT_LOG_WRITE_FAILED"

abbrev stored_events : ℕ → Option (List OperationEvent × Bool) → Seen
stored_events after none = ([], some read_failed)
stored_events after (some (events, incomplete)) = (
  keep (λ event. event.sequence == 0 || ltb after event.sequence) events,
  if incomplete then some read_failed else none,
)

abbrev marked_failure : Bool → Seen → Seen
marked_failure failed (events, error) = (events, if failed then some write_failed else error)

abbrev merged : ℕ → Option EventLog → Seen → Seen
merged since none seen = seen
merged since (some log) (events, none) = (events, none)
merged since (some log) (events, some error) =
    (dedup_sequences (by_sequence (events ++ after since log)), some error)

abbrev log_failed : Option EventLog → Bool
log_failed none = false
log_failed (some log) = log.persistence_failed

-- The stored events are read; the log in memory is asked only if they cannot be relied on.
unfoldable pub seen_events : ℕ → OperationFiles → Option EventLog → Seen
unfolding ℕ_discrete sort_by after
seen_events since files log = merged since log (
    marked_failure (log_failed log)
      (marked_failure files.write_failure (stored_events since files.history)))

-- A diagnostic that is no event of the log.
abbrev diagnostic : Text → OperationStateRecord → Text → OperationEvent
diagnostic operation_id r error = record {
  operation_id = operation_id;
  sequence = 0;
  occurred_at = r.updated_at;
  state = r.state;
  level = warning;
  message_id = codes "error_" ++ error;
  fields = [];
  technical = none;
}

abbrev with_diagnostic : Text → OperationStateRecord → Seen → List OperationEvent
with_diagnostic operation_id r (events, none) = events
with_diagnostic operation_id r (events, some error) = events ++ diagnostic operation_id r error ∷ []

abbrev or_else : Option Text → Option Text → Option Text
or_else none b = b
or_else (some a) b = some a

abbrev is_passed : Option BootVerification → Bool
is_passed (some BootVerification.passed) = true
is_passed _ = false

unfoldable pub report : Text → Text → OperationStateRecord → Seen → Response
unfolding OperationState-discrete
report id operation_id r seen =
    status_of id operation_id r.sequence r.state r.snapshot_number
      (r.state == completed && is_some r.recovery && is_passed r.boot_verification)
      (or_else r.error_code seen.1) (with_diagnostic operation_id r seen)

abbrev reported :
    Service → Text → Text → ℕ → Result PersistenceError OperationStateRecord → Response
reported s id operation_id since (err _) = rejected id (codes "OPERATION_NOT_FOUND")
reported s id operation_id since (ok r) =
    report id operation_id r (seen_events since (s.store operation_id) (s.events operation_id))

unfoldable pub status : ServiceHost → Service → Text → Text → ℕ → Response
status host s id operation_id since =
    if s.read_only
    then answered id (host.query (Request.status supported_version id operation_id (some since)))
    else if not (owns s operation_id)
    then rejected id (codes "OPERATION_NOT_FOUND")
    else reported s id operation_id since
        (load_state host.codec (s.store operation_id).place operation_id)
