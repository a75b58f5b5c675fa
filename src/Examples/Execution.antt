-- ===== src/Examples/Execution.antt =====
-- Runs of `execute_update` of service/src/executor.rs on one host.
use lyraos_desktop_updater.Prelude.{
  nat_eq, option_eq, any, Text-discrete, text_list_eq, utf8, bytes, byte_len, is_whitespace, trim,
  trim_start, starts_with, Text, codes, text_eq, Result, err, ok, ◌≡◌, refl, true, false, none,
  some, List, [], ◌∷◌, ℕ_discrete,
}
use lyraos_desktop_updater.Domain.{
  OperationStateRecord, awaiting_confirmation, snapshotting, OperationKind-discrete,
  valid_transition, transition_to,
}
use lyraos_desktop_updater.Persistence.{
  is_sha256, operation_shape_is_valid, validate_state, validate_operation_id,
}
use lyraos_desktop_updater.Persistence.Validation.{IsWellFormed, validate_state-IsWellFormed}
use lyraos_desktop_updater.Manifest.Version.{parse_u64, parse_digits, split}
use lyraos_desktop_updater.Persistence.{PersistenceError}
use lyraos_desktop_updater.Executor.Reports.{AsksRecovery}
use lyraos_desktop_updater.Executor.{
  written, is_cancelled, failed_record, snapshot_failed, Effect, stored, notified, Session, Run,
  trace_of, apply_failed, record_failure, save_state, save, persist, move, parse_snapshot_number,
}
use lyraos_desktop_updater.Executor.Update.{
  FreshPlan, UpdateHost, prepare, fetch, take_snapshot, classify_apply_exit, apply_update,
  is_boot_package, touches_boot, reboot_required, rebuild_boot, conclude, execute_update,
}
use lyraos_desktop_updater.Executor.Update.Guard.{is_apply, is_guarded, execute_update-is_guarded}
use lyraos_desktop_updater.Executor.Update.Completion.{
  IsFinal, execute_update-ok, record_failure-IsWellFormed,
}
use lyraos_desktop_updater.Executor.Update.Failure.{execute_update-needs_recovery}
use lyraos_desktop_updater.Examples.{hash, update_at}
use lyraos_desktop_updater.Examples.Machine.{snapshotting_accepted}

abbrev calm : UpdateHost
calm = record {
  lock = none;
  plan_written = true;
  inventory_saved = true;
  stored_downloading = written;
  refreshed = true;
  cancelled_after_refresh = false;
  fresh = some (record { plan_sha256 = hash; changes = []; reboot_required = false });
  downloaded = true;
  cancelled_after_download = false;
  planned_again = true;
  current_sha256 = some hash;
  stored_snapshotting = written;
  snapshot_created = true;
  snapshot_stdout = codes "42";
  stored_snapshot = written;
  stored_applying = written;
  apply_code = some 0;
  initramfs_regenerated = true;
  grub_configured = true;
  inventory_captured_after = true;
  inventory_saved_after = true;
  inventory_kept = true;
  stored_result = written;
}

-- The same host, where the transaction fails with the exit code 4.
abbrev failing : UpdateHost
failing = record calm { apply_code = some 4 }

abbrev confirmed_session : Session
confirmed_session = record { state = update_at awaiting_confirmation none; trace = [] }

abbrev run_of : UpdateHost → Run
run_of w = execute_update w hash confirmed_session

-- The session that a run leaves.
abbrev left_by : Run → Session
left_by (ok s) = s
left_by (err (e, s)) = s

calm_ends_well : run_of calm ≡ ok (left_by (run_of calm))
unfolding execute_update prepare fetch take_snapshot apply_update conclude rebuild_boot touches_boot
    is_boot_package reboot_required classify_apply_exit parse_snapshot_number save_state save
    persist move transition_to valid_transition OperationKind-discrete validate_state
    validate_operation_id is_sha256 operation_shape_is_valid Text-discrete ℕ_discrete byte_len bytes
    utf8 trim trim_start is_whitespace split parse_u64 parse_digits starts_with
calm_ends_well = refl

failing_stops : run_of failing ≡ err (apply_failed, left_by (run_of failing))
unfolding execute_update prepare fetch take_snapshot apply_update conclude rebuild_boot touches_boot
    is_boot_package reboot_required classify_apply_exit parse_snapshot_number save_state save
    persist move transition_to valid_transition OperationKind-discrete validate_state
    validate_operation_id is_sha256 operation_shape_is_valid Text-discrete ℕ_discrete byte_len bytes
    utf8 trim trim_start is_whitespace split parse_u64 parse_digits starts_with
failing_stops = refl

failing_has_applied : any is_apply (left_by (run_of failing)).trace ≡ true
unfolding execute_update prepare fetch take_snapshot apply_update conclude rebuild_boot touches_boot
    is_boot_package reboot_required classify_apply_exit parse_snapshot_number save_state save
    persist move transition_to valid_transition OperationKind-discrete validate_state
    validate_operation_id is_sha256 operation_shape_is_valid Text-discrete ℕ_discrete byte_len bytes
    utf8 trim trim_start is_whitespace split parse_u64 parse_digits starts_with
failing_has_applied = refl

execute_update-is_guarded_example :
    is_guarded (trace_of (execute_update failing hash confirmed_session)) ≡ true
execute_update-is_guarded_example = execute_update-is_guarded failing hash confirmed_session refl

execute_update-ok_example :
    (fresh : FreshPlan) × (calm.fresh ≡ some fresh)
    × (fresh.plan_sha256 ≡ hash)
    × IsWellFormed (left_by (run_of calm)).state
    × IsFinal calm fresh (left_by (run_of calm)).state.state
    × ((rest : List Effect) × ((left_by (run_of calm)).trace
          ≡ notified (left_by (run_of calm)).state.state
            ∷ stored (left_by (run_of calm)).state
            ∷ rest))
execute_update-ok_example = execute_update-ok calm hash confirmed_session calm_ends_well

-- What the service loads after the failure is the record that was stored last.
abbrev kept : Result PersistenceError OperationStateRecord
kept = ok (left_by (run_of failing)).state

abbrev later : Text
later = codes "2026-01-02T00:00:00Z"

execute_update-needs_recovery_example :
    AsksRecovery kept apply_failed
      (left_by (run_of failing)).state
      (record_failure kept apply_failed later (left_by (run_of failing)).state)
execute_update-needs_recovery_example =
    execute_update-needs_recovery failing hash confirmed_session kept later refl failing_stops
      failing_has_applied

abbrev begun : OperationStateRecord
begun = update_at snapshotting none

reported :
    record_failure (ok begun) snapshot_failed later begun
    ≡ some (failed_record snapshot_failed later begun)
unfolding record_failure is_cancelled
reported = refl

record_failure-IsWellFormed_example : IsWellFormed (failed_record snapshot_failed later begun)
record_failure-IsWellFormed_example =
    record_failure-IsWellFormed (ok begun) snapshot_failed later begun
      (failed_record snapshot_failed later begun) refl
      ((validate_state-IsWellFormed begun).0 snapshotting_accepted) reported
