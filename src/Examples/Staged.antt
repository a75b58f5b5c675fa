-- ===== src/Examples/Staged.antt =====
-- Runs of the staging of a signed operation (service/src/executor.rs).
use lyraos_desktop_updater.Prelude.{
  nat_eq, option_eq, ==_refl, any, Text-discrete, text_list_eq, utf8, bytes, byte_len,
  is_whitespace, trim, trim_start, starts_with, Text, codes, text_eq, Result, err, ok, ◌≡◌, refl,
  ◌⊎◌, true, false, none, some, List, [], ◌∷◌, arith, ℕ_discrete,
}
use lyraos_desktop_updater.Domain.{OperationStateRecord, awaiting_confirmation, ready_to_reboot}
use lyraos_desktop_updater.Persistence.Validation.{IsWellFormed}
use lyraos_desktop_updater.Service.{manifest_eq, PlannedUpdate}
use lyraos_desktop_updater.Executor.Update.{lock_step}
use lyraos_desktop_updater.Persistence.{PersistenceError}
use lyraos_desktop_updater.Executor.Reports.{AsksRecovery}
use lyraos_desktop_updater.Executor.{
  written, unwritten, Effect, stored, notified, Session, Run, record_failure, persist_failed, save,
  save_state, persist, move, parse_snapshot_number,
}
use lyraos_desktop_updater.Executor.Staging.{
  revalidate_staged_solver, StageHost, check_inputs, write_inputs, fetch_packages, snapshot_system,
  stage_system_update, make_ready, stage_release_upgrade, no_marker, link_to,
}
use lyraos_desktop_updater.Executor.Staging.Guard.{
  IsCovered, is_link, stage_release_upgrade-IsCovered, stage_release_upgrade-needs_recovery,
}
use lyraos_desktop_updater.Executor.Staging.Completion.{
  stage_release_upgrade-ok, stage_release_upgrade-IsApproved,
}
use lyraos_desktop_updater.Service.Approved.{IsApproved}
use lyraos_desktop_updater.Preflight.Plan.{assemble_plan}
use lyraos_desktop_updater.Manifest.Version.{parse_u64, parse_digits, split}
use lyraos_desktop_updater.Persistence.{
  is_sha256, operation_shape_is_valid, validate_state, validate_operation_id,
}
use lyraos_desktop_updater.Release.{operation}
use lyraos_desktop_updater.Service.{ReleaseManifest-discrete}
use lyraos_desktop_updater.Domain.{
  OperationKind-discrete, ReleaseIdentity-discrete, valid_transition, transition_to,
}
use lyraos_desktop_updater.Examples.{hash, upgrade_at}
use lyraos_desktop_updater.Examples.Signed.{route}
use lyraos_desktop_updater.Examples.Serving.{submitted}
use lyraos_desktop_updater.Examples.Approving.{
  confirmed_plan, hashes, facts, proposal, checked, accepted,
}

abbrev confirmed : PlannedUpdate
confirmed = record submitted { plan = confirmed_plan; manifest = some route }

abbrev calm : StageHost
calm = record {
  lock = none;
  hashes = hashes;
  verified = some route;
  inventory_saved = true;
  document_written = true;
  signature_written = true;
  directories_made = true;
  key_fetched = λ r. true;
  repository_written = λ r. true;
  manifest_written = true;
  plan_written = true;
  stored_downloading = written;
  arguments_valid = true;
  refreshed = true;
  cancelled_after_refresh = false;
  plan_arguments = true;
  dry_run_done = true;
  dry_run_found = ok (facts, proposal);
  cancelled_after_dry_run = false;
  download_arguments = true;
  downloaded = true;
  download_found = ok (facts, proposal);
  cancelled_after_download = false;
  payloads_verified = true;
  time_valid = true;
  stored_snapshotting = written;
  snapshot_created = true;
  snapshot_stdout = codes "7";
  stored_snapshot = written;
  marker = no_marker;
  marker_linked = true;
  root_synced = true;
  stored_ready = written;
}

-- The same host, where the last record cannot be stored.
abbrev unwritable : StageHost
unwritable = record calm { stored_ready = unwritten }

abbrev session : Session
session = record { state = upgrade_at awaiting_confirmation none; trace = [] }

-- The session that a run leaves.
abbrev left_by : Run → Session
left_by (ok s) = s
left_by (err (e, s)) = s

abbrev run_of : StageHost → Run
run_of w = stage_release_upgrade w confirmed route session

inputs : check_inputs calm confirmed route session ≡ ok session
unfolding check_inputs operation assemble_plan OperationKind-discrete ReleaseIdentity-discrete
    Text-discrete ReleaseManifest-discrete ℕ_discrete
inputs = let e = ==_refl route in ground (arith, checked, e)

held_inputs : check_inputs unwritable confirmed route session ≡ ok session
unfolding check_inputs operation assemble_plan OperationKind-discrete ReleaseIdentity-discrete
    Text-discrete ReleaseManifest-discrete ℕ_discrete
held_inputs = let e = ==_refl route in ground (arith, checked, e)

revalidated :
    (s : Session)
    → lock_step (revalidate_staged_solver hashes (ok (facts, proposal)) route confirmed hash) s
      ≡ ok s
unfolding revalidate_staged_solver
revalidated s = rw accepted refl

stages : run_of calm ≡ ok (left_by (run_of calm))
unfolding stage_release_upgrade write_inputs fetch_packages snapshot_system make_ready
    stage_system_update parse_snapshot_number save_state save persist move transition_to
    valid_transition OperationKind-discrete ReleaseIdentity-discrete ReleaseManifest-discrete
    validate_state validate_operation_id is_sha256 operation_shape_is_valid Text-discrete ℕ_discrete
    byte_len bytes utf8 trim trim_start is_whitespace split parse_u64 parse_digits starts_with
    operation
stages = rw (inputs, revalidated, revalidated) refl

stops : run_of unwritable ≡ err (persist_failed, left_by (run_of unwritable))
unfolding stage_release_upgrade write_inputs fetch_packages snapshot_system make_ready
    stage_system_update parse_snapshot_number save_state save persist move transition_to
    valid_transition OperationKind-discrete ReleaseIdentity-discrete ReleaseManifest-discrete
    validate_state validate_operation_id is_sha256 operation_shape_is_valid Text-discrete ℕ_discrete
    byte_len bytes utf8 trim trim_start is_whitespace split parse_u64 parse_digits starts_with
    operation
stops = rw (held_inputs, revalidated, revalidated) refl

has_linked : any is_link (left_by (run_of unwritable)).trace ≡ true
unfolding stage_release_upgrade write_inputs fetch_packages snapshot_system make_ready
    stage_system_update parse_snapshot_number save_state save persist move transition_to
    valid_transition OperationKind-discrete ReleaseIdentity-discrete ReleaseManifest-discrete
    validate_state validate_operation_id is_sha256 operation_shape_is_valid Text-discrete ℕ_discrete
    byte_len bytes utf8 trim trim_start is_whitespace split parse_u64 parse_digits starts_with
    operation
has_linked = rw (held_inputs, revalidated, revalidated) refl

stage_release_upgrade-IsCovered_example : IsCovered (left_by (run_of unwritable))
stage_release_upgrade-IsCovered_example =
    stage_release_upgrade-IsCovered unwritable confirmed route session refl

-- The record that the service can load after the failure.
abbrev kept : Result PersistenceError OperationStateRecord
kept = ok (left_by (run_of unwritable)).state

abbrev later : Text
later = codes "2026-01-02T00:00:00Z"

stage_release_upgrade-needs_recovery_example :
    AsksRecovery kept persist_failed
      (left_by (run_of unwritable)).state
      (record_failure kept persist_failed later (left_by (run_of unwritable)).state)
stage_release_upgrade-needs_recovery_example =
    stage_release_upgrade-needs_recovery unwritable confirmed route session
      (left_by (run_of unwritable)) persist_failed kept later refl stops has_linked

stage_release_upgrade-ok_example :
    IsWellFormed (left_by (run_of calm)).state
    × ((left_by (run_of calm)).state.state ≡ ready_to_reboot)
    × ((rest : List Effect) × ((left_by (run_of calm)).trace
          ≡ notified (left_by (run_of calm)).state.state
            ∷ stored (left_by (run_of calm)).state
            ∷ rest))
    × ((calm.marker ≡ no_marker) ⊎ (calm.marker ≡ link_to (some true)))
stage_release_upgrade-ok_example =
    stage_release_upgrade-ok calm confirmed route session (left_by (run_of calm)) stages

stage_release_upgrade-IsApproved_example : IsApproved hashes route confirmed.plan hash
stage_release_upgrade-IsApproved_example =
    stage_release_upgrade-IsApproved calm confirmed route session (left_by (run_of calm)) stages
