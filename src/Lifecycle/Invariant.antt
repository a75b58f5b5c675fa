-- ===== src/Lifecycle/Invariant.antt =====
-- What holds of an operation's record all its life.
use lyraos_desktop_updater.Prelude.{
  nat_eq, option_eq, u64_max, is_some, text_list_eq, Text, text_eq, ok, ◌≤◌, ◌≡◌, ◌≢◌, Bool, true,
  false, arith,
}
use lyraos_desktop_updater.Domain.{
  OperationKind, update_within_release, OperationState, applying, ready_to_reboot, applying_offline,
  awaiting_reboot, verifying_boot, completed, is_signed_offline, OperationStateRecord,
  valid_transition, transition_to, needs_snapshot,
}
use lyraos_desktop_updater.Domain.Transitions.{transition_to-ok}
use lyraos_desktop_updater.Executor.{record_failure, failure_state}
use lyraos_desktop_updater.Service.{PlannedUpdate}
use lyraos_desktop_updater.Service.Reports.{ServiceHost}
use lyraos_desktop_updater.Service.Start.{initial_record}
use lyraos_desktop_updater.Verifier.Pending.{interrupt, interrupted_state}
use lyraos_desktop_updater.Verifier.Boot.{finalize_verification, complete, fail_with}
use lyraos_desktop_updater.Lifecycle.{
  Step, move, record_snapshot, fail_execution, cancel, decline, intend, schedule, fail_rollback,
  fail_offline, cut_off, verify, Reach, here, extend, mark_recovery,
}

-- The states behind a recorded snapshot.
abbrev pub has_passed_snapshot : OperationState → Bool
has_passed_snapshot applying = true
has_passed_snapshot ready_to_reboot = true
has_passed_snapshot applying_offline = true
has_passed_snapshot awaiting_reboot = true
has_passed_snapshot verifying_boot = true
has_passed_snapshot completed = true
has_passed_snapshot _ = false

abbrev pub is_offline_phase : OperationState → Bool
is_offline_phase ready_to_reboot = true
is_offline_phase applying_offline = true
is_offline_phase _ = false

-- What holds of a record between two steps.
pub record IsSound (r : OperationStateRecord) : Type 0 where
  pub snapshot_recorded : has_passed_snapshot r.state ≡ true → is_some r.snapshot_number ≡ true
  pub goal_bound : is_some r.recovery ≡ true → is_some r.snapshot_number ≡ true
  pub online_only : r.operation ≡ update_within_release → is_offline_phase r.state ≡ false
  pub sequence_bounded : r.sequence ≤ u64_max
  pub offline_only : is_signed_offline r.operation ≡ true → r.state ≢ applying

-- What a step leaves as it is, the snapshot that it never drops, and the direction of the sequence.
pub record IsSameOperation (r r' : OperationStateRecord) : Type 0 where
  pub same_id : r'.operation_id ≡ r.operation_id
  pub same_kind : r'.operation ≡ r.operation
  pub same_source : r'.source ≡ r.source
  pub same_target : r'.target ≡ r.target
  pub same_plan : r'.plan_sha256 ≡ r.plan_sha256
  pub same_manifest : r'.manifest_sha256 ≡ r.manifest_sha256
  pub snapshot_kept : is_some r.snapshot_number ≡ true → is_some r'.snapshot_number ≡ true
  pub sequence_grows : r.sequence ≤ r'.sequence

move-snapshot :
    (op : OperationKind) (current next : OperationState)
    → valid_transition op current next ≡ true
    → has_passed_snapshot next ≡ true
    → needs_snapshot next ≡ false
    → has_passed_snapshot current ≡ true
unfolding valid_transition
move-snapshot op current next v p n = ground arith

move-online :
    (next current : OperationState)
    → valid_transition update_within_release current next ≡ true
    → is_offline_phase next ≡ false
unfolding valid_transition
move-online next current v = ground arith

move-offline :
    (op : OperationKind) (current : OperationState)
    → is_signed_offline op ≡ true
    → valid_transition op current applying ≡ false
unfolding valid_transition
move-offline op current s = ground arith

transition_to-IsSound :
    (r : OperationStateRecord) (next : OperationState) {r' : OperationStateRecord}
    → transition_to r next ≡ ok r'
    → IsSound r
    → IsSound r'
transition_to-IsSound r next h sound = ground (
  arith,
  transition_to-ok r next h,
  move-snapshot r.operation r.state next,
  move-online next r.state,
  move-offline r.operation r.state,
)

Step-IsSound : {r r' : OperationStateRecord} → Step r r' → IsSound r → IsSound r'
unfolding record_failure failure_state interrupt interrupted_state mark_recovery
    finalize_verification complete fail_with
Step-IsSound {r} (move next h) sound = transition_to-IsSound r next h sound
Step-IsSound (record_snapshot n pos at e) sound = ground arith
Step-IsSound (fail_execution found error now e) sound = ground arith
Step-IsSound (cancel now c e) sound = ground arith
Step-IsSound (decline now at e) sound = ground arith
Step-IsSound (intend n source now at has e) sound = ground arith
Step-IsSound (schedule goal boot at has e) sound = ground arith
Step-IsSound (fail_rollback error has e) sound = ground arith
Step-IsSound (fail_offline e) sound = ground arith
Step-IsSound (cut_off e) sound = ground arith
Step-IsSound (verify fault n file passed at e) sound = ground arith

Step-IsSameOperation : {r r' : OperationStateRecord} → IsSound r → Step r r' → IsSameOperation r r'
unfolding record_failure failure_state interrupt interrupted_state mark_recovery
    finalize_verification complete fail_with
Step-IsSameOperation {r} sound (move next h) = ground (arith, transition_to-ok r next h)
Step-IsSameOperation sound (record_snapshot n pos at e) = ground arith
Step-IsSameOperation sound (fail_execution found error now e) = ground arith
Step-IsSameOperation sound (cancel now c e) = ground arith
Step-IsSameOperation sound (decline now at e) = ground arith
Step-IsSameOperation sound (intend n source now at has e) = ground arith
Step-IsSameOperation sound (schedule goal boot at has e) = ground arith
Step-IsSameOperation sound (fail_rollback error has e) = ground arith
Step-IsSameOperation sound (fail_offline e) = ground arith
Step-IsSameOperation sound (cut_off e) = ground arith
Step-IsSameOperation sound (verify fault n file passed at e) = ground arith

Reach-IsSound : {r r' : OperationStateRecord} → IsSound r → Reach r r' → IsSound r'
Reach-IsSound s here = s
Reach-IsSound s (extend path step) = Step-IsSound step (Reach-IsSound s path)

Reach-IsSameOperation :
    {r r' : OperationStateRecord} → IsSound r → Reach r r' → IsSameOperation r r'
Reach-IsSameOperation sound here = ground arith
Reach-IsSameOperation sound (extend path step) =
    ground (
      arith,
      Reach-IsSameOperation sound path,
      Step-IsSameOperation (Reach-IsSound sound path) step,
    )

-- Whatever follows the record that an operation starts with, in every later record: a state behind the
-- snapshot, or a goal for a rollback, has a recorded snapshot, an update is not in the offline phase, a
-- signed offline operation is not in `Applying`, and the sequence is within u64. Between two such
-- records the operation stays the same, a recorded snapshot is kept, and the sequence never falls.
pub initial_record-IsSound :
    (host : ServiceHost) (operation_id hash : Text) (submitted own : PlannedUpdate)
    {r r' : OperationStateRecord}
    → Reach (initial_record host operation_id hash submitted own) r
    → Reach r r'
    → IsSound r' × IsSameOperation r r'
initial_record-IsSound host operation_id hash submitted own path later =
    let sound = Reach-IsSound (ground arith) path in
    (Reach-IsSound sound later, Reach-IsSameOperation sound later)
