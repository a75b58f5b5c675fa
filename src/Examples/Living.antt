-- ===== src/Examples/Living.antt =====
-- The life of one update's record: its transaction fails, and its snapshot is restored.
use lyraos_desktop_updater.Prelude.{
  nat_eq, option_eq, text_list_eq, text_eq, ok, ℕ, ◌≡◌, refl, true, Option, none, some, arith,
}
use lyraos_desktop_updater.Domain.{
  OperationState, downloading, snapshotting, applying, needs_recovery, verifying_boot,
  OperationStateRecord, transition_to, valid_transition, OperationKind-discrete,
}
use lyraos_desktop_updater.Executor.{
  apply_failed, failed_record, record_failure, is_cancelled, failure_state,
}
use lyraos_desktop_updater.Recovery.{RollbackGoal}
use lyraos_desktop_updater.Rollback.{with_intent, with_boot}
use lyraos_desktop_updater.Service.Start.{initial_record}
use lyraos_desktop_updater.Verifier.Boot.{no_fault, complete, finalize_verification}
use lyraos_desktop_updater.Lifecycle.{
  Step, move, record_snapshot, fail_execution, intend, schedule, verify, Reach, here, extend,
}
use lyraos_desktop_updater.Lifecycle.Invariant.{IsSound, IsSameOperation, initial_record-IsSound}
use lyraos_desktop_updater.Examples.{hash, operation_id}
use lyraos_desktop_updater.Examples.Serving.{host, submitted}
use lyraos_desktop_updater.Examples.Restoring.{subvolume, now}

abbrev start : OperationStateRecord
start = initial_record host operation_id hash submitted submitted

abbrev at : OperationState → ℕ → Option ℕ → OperationStateRecord
at state sequence snapshot = record start {
  state = state;
  sequence = sequence;
  snapshot_number = snapshot;
}

abbrev failed : OperationStateRecord
failed = failed_record apply_failed now (at applying 4 (some 12))

abbrev goal : RollbackGoal
goal = record { source_snapshot_number = 12; source_snapshot = subvolume 12; boot_snapshot = none }

abbrev intended : OperationStateRecord
intended = with_intent 12 (subvolume 12) now failed

abbrev scheduled : OperationStateRecord
scheduled = with_boot goal (subvolume 13) intended

abbrev verifying : OperationStateRecord
verifying = record scheduled { state = verifying_boot; sequence = 8 }

applied : Reach start (at applying 4 (some 12))
applied =
    extend
      (extend (extend (extend here (move downloading first)) (move snapshotting second))
        (record_snapshot 12 (omega arith) refl refl))
      (move applying third)
  where
    first : transition_to start downloading ≡ ok (at downloading 2 none)
    first = unfold transition_to valid_transition OperationKind-discrete in refl

    second : transition_to (at downloading 2 none) snapshotting ≡ ok (at snapshotting 3 none)
    second = unfold transition_to valid_transition OperationKind-discrete in refl

    third : transition_to (at snapshotting 3 (some 12)) applying ≡ ok (at applying 4 (some 12))
    third = unfold transition_to valid_transition OperationKind-discrete in refl

fails : Step (at applying 4 (some 12)) failed
fails =
    fail_execution (ok (at applying 4 (some 12))) apply_failed now
      (unfold record_failure is_cancelled in refl)

restored : Reach (at applying 4 (some 12)) (complete verifying)
restored =
    extend
      (extend
        (extend (extend (extend here fails) (intend 12 (subvolume 12) now needed refl refl))
          (schedule goal (subvolume 13) needed refl refl))
        (move verifying_boot boots))
      verified
  where
    needed : failed.state ≡ needs_recovery
    needed = unfold failure_state in refl

    verified : Step verifying (complete verifying)
    verified = verify no_fault none (some none) true refl (unfold finalize_verification in refl)

    boots : transition_to scheduled verifying_boot ≡ ok verifying
    boots = unfold transition_to valid_transition OperationKind-discrete in refl

initial_record-IsSound_example :
    IsSound (complete verifying) × IsSameOperation (at applying 4 (some 12)) (complete verifying)
initial_record-IsSound_example =
    initial_record-IsSound host operation_id hash submitted submitted applied restored
