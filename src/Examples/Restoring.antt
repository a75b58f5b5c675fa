-- ===== src/Examples/Restoring.antt =====
-- Runs of `schedule_rollback` of service/src/recovery.rs on one host.
use lyraos_desktop_updater.Prelude.{
  leb, if◌then◌else◌, nat_eq, option_eq, is_some, any, Text-discrete, text_list_eq, utf8, bytes,
  byte_len, is_whitespace, trim, trim_start, Text, codes, text_eq, err, ok, ℕ, ◌≡◌, refl, ◌⊎◌, true,
  none, some, [], ℕ_discrete,
}
use lyraos_desktop_updater.Recovery.{
  SubvolumeIdentity, valid_uuid, identity_valid, boot_valid, goal_valid,
}
use lyraos_desktop_updater.Domain.{
  needs_recovery, awaiting_reboot, OperationState-discrete, ReleaseIdentity-discrete,
}
use lyraos_desktop_updater.Persistence.{
  is_sha256, operation_shape_is_valid, validate_state, validate_operation_id, goal_misplaced,
}
use lyraos_desktop_updater.Persistence.Validation.{IsWellFormed}
use lyraos_desktop_updater.Manifest.Version.{parse_u64, parse_digits}
use lyraos_desktop_updater.Executor.{written, unwritten, unsynchronized, save_state}
use lyraos_desktop_updater.Rollback.{
  RollbackHost, RollbackSession, Schedule, schedule_rollback, store_intent, check_rollback,
  check_persistent, finish_rollback, check_boot, save,
}
use lyraos_desktop_updater.Rollback.Intent.{
  effects_of, is_prepared, is_rollback, latest, ends_in_recovery, schedule_rollback-is_prepared,
  schedule_rollback-ends_in_recovery, schedule_rollback-ok,
}
use lyraos_desktop_updater.Examples.{installed, update_at}

abbrev source_uuid : Text
source_uuid = codes "aaaaaaaa-bbbb-cccc-dddd-eeeeeeeeeeee"

-- The snapshot 12 is the source, and 13 its clone.
abbrev pub subvolume : ℕ → SubvolumeIdentity
subvolume n =
    if leb n 12 then record { id = 300; uuid = source_uuid; parent_uuid = none } else record {
      id = 301;
      uuid = codes "11111111-bbbb-cccc-dddd-eeeeeeeeeeee";
      parent_uuid = some source_uuid;
    }

abbrev pub ready : RollbackHost
ready = record {
  lock_taken = true;
  loaded = ok (update_at needs_recovery (some 12));
  release_at = λ n. some installed;
  recovery_format = some (codes "1\n");
  state_subvolume = ok 260;
  root_subvolume = ok 256;
  inspect = λ n. ok (subvolume n);
  stored_intent = written;
  rollback_output = some (true, some (codes "13\n"));
  default_subvolume = ok 301;
  stored_goal = written;
  stored_failure = written;
}

-- The same host, where the new root does not become the default.
abbrev unselected : RollbackHost
unselected = record ready { default_subvolume = ok 256 }

abbrev start : RollbackSession
start = record { state = update_at needs_recovery (some 12); trace = [] }

abbrev pub now : Text
now = codes "2026-01-02T00:00:00Z"

abbrev left_by : Schedule → RollbackSession
left_by (ok s) = s
left_by (err (e, s)) = s

ready_schedules :
    schedule_rollback ready now start ≡ ok (left_by (schedule_rollback ready now start))
unfolding schedule_rollback store_intent check_rollback check_persistent finish_rollback check_boot
    save save_state validate_state validate_operation_id goal_misplaced goal_valid boot_valid
    identity_valid valid_uuid is_sha256 operation_shape_is_valid OperationState-discrete
    ReleaseIdentity-discrete Text-discrete ℕ_discrete byte_len bytes utf8 trim trim_start
    is_whitespace parse_u64 parse_digits
ready_schedules = refl

unselected_fails :
    schedule_rollback unselected now start
    ≡ err (codes "ROLLBACK_RESULT_INVALID", left_by (schedule_rollback unselected now start))
unfolding schedule_rollback store_intent check_rollback check_persistent finish_rollback check_boot
    save save_state validate_state validate_operation_id goal_misplaced goal_valid boot_valid
    identity_valid valid_uuid is_sha256 operation_shape_is_valid OperationState-discrete
    ReleaseIdentity-discrete Text-discrete ℕ_discrete byte_len bytes utf8 trim trim_start
    is_whitespace parse_u64 parse_digits
unselected_fails = refl

unselected_has_rolled_back :
    any is_rollback (left_by (schedule_rollback unselected now start)).trace ≡ true
unfolding schedule_rollback store_intent check_rollback check_persistent finish_rollback check_boot
    save save_state validate_state validate_operation_id goal_misplaced goal_valid boot_valid
    identity_valid valid_uuid is_sha256 operation_shape_is_valid OperationState-discrete
    ReleaseIdentity-discrete Text-discrete ℕ_discrete byte_len bytes utf8 trim trim_start
    is_whitespace parse_u64 parse_digits
unselected_has_rolled_back = refl

schedule_rollback-is_prepared_example :
    is_prepared (effects_of (schedule_rollback unselected now start)) ≡ true
schedule_rollback-is_prepared_example = schedule_rollback-is_prepared unselected now start refl

schedule_rollback-ends_in_recovery_example :
    (ends_in_recovery (left_by (schedule_rollback unselected now start)).trace ≡ true)
    ⊎ ((unselected.stored_goal ≡ unsynchronized) × (unselected.stored_failure ≡ unwritten))
schedule_rollback-ends_in_recovery_example =
    schedule_rollback-ends_in_recovery unselected now start refl unselected_fails
      unselected_has_rolled_back

schedule_rollback-ok_example :
    (latest (left_by (schedule_rollback ready now start)).trace
      ≡ some (left_by (schedule_rollback ready now start)).state)
    × IsWellFormed (left_by (schedule_rollback ready now start)).state
    × ((left_by (schedule_rollback ready now start)).state.state ≡ awaiting_reboot)
    × (is_some (left_by (schedule_rollback ready now start)).state.recovery ≡ true)
schedule_rollback-ok_example = schedule_rollback-ok ready now start ready_schedules
