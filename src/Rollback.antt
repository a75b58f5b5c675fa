-- ===== src/Rollback.antt =====
-- service/src/recovery.rs: `schedule_rollback`. What the host answers is one record; a session is the
-- operation's record with the records that have reached its
-- file and the rollbacks so far, the newest first. Errors are the texts
-- of the source.
pub mod Intent
use lyraos_desktop_updater.Prelude.{
  ltb, leb, if◌then◌else◌, Eq, ◌==◌, ◌!=◌, nat_eq, some_ne_none, some_inj, option_dec, option_eq,
  u64_max, saturating_add, is_some, is_none, is_some_and, is_none_or, Bool-cases, Option-cases,
  ==_iff, ==_refl, is_some_and-eq_false, and_left, and_right, is_none-eq, length, is_empty, first,
  any, all, all_at, keep, take, replicate, any-Memᴰ, any-elim, all-Memᴰ, all_intro, length-append,
  Memᴰ-append_left, Memᴰ-append_right, Memᴰ-append_cases, is_empty-append, is_empty-any,
  any-is_empty, any-append, is_empty-keep, length-keep_iff, contains, contains-Memᴰ, Memᴰ-contains,
  unique, IsDistinct, length-unique-le, IsDistinct-iff, pigeonhole, length-map, all-snoc,
  all_weaken, Text-discrete, text_list_eq, utf8, bytes, byte_len, is_whitespace, is_control, trim,
  trim_start, starts_with, split_once, Text, codes, text_eq, is_ascii_digit, is_ascii_upper,
  is_ascii_lower, is_ascii_alphanumeric, is_ascii_hexdigit, Result, fail_if, ok_or, map_err, is_ok,
  ◌>>=◌, ◌>>◌, >>=-eq-ok, err, ok, compare_text, compare_option, insert_sorted, sort_by, dedup,
  sort_texts, IsLawful, then_by, is_gt, compare_text-IsLawful, compare-IsLawful, then_by-IsLawful,
  key-IsLawful, pair-IsLawful, compare_option-IsLawful, reverse-IsLawful, IsSorted, IsStrict,
  any-sort_by, any-dedup, sort_by-IsSorted, dedup-sort_by-IsStrict, sort_by-perm, perm-sort_by-eq,
  first-sort_by, ℕ, zero, suc, ◌+◌, ◌-◌, ◌*◌, ◌/◌, ◌%◌, ◌^◌, ◌≤◌, ◌<◌, max, min, ◌≡◌, refl, sym, ap,
  ◌∙◌, subst, ◌≢◌, ◌↔◌, ◌⊎◌, inl, inr, Bool, true, false, not, ◌&&◌, ◌||◌, Option, none, some, List,
  [], ◌∷◌, ◌++◌, map, Memᴰ, arith, ℕ_discrete,
}
use lyraos_desktop_updater.Recovery.{RollbackGoal, SubvolumeIdentity}
use lyraos_desktop_updater.Domain.{
  OperationState, needs_recovery, awaiting_reboot, OperationStateRecord, BootVerification,
  ReleaseIdentity, release_eq, state_eq, ReleaseIdentity-discrete, OperationState-discrete,
}
use lyraos_desktop_updater.Persistence.{PersistenceError}
use lyraos_desktop_updater.Manifest.Version.{parse_u64}
use lyraos_desktop_updater.Executor.{save_state, StoreEnd, written, unwritten, unsynchronized}

-- A record that was stored, or that has replaced the stored one although its store failed, and a
-- rollback of the system.
pub data RollbackEffect : Type 0 where
  stored : OperationStateRecord → RollbackEffect
  replaced : OperationStateRecord → RollbackEffect
  rolled_back : RollbackEffect

pub record RollbackSession : Type 0 where
  pub state : OperationStateRecord
  pub trace : List RollbackEffect

abbrev pub Schedule : Type 0
Schedule = Result (Text × RollbackSession) RollbackSession

-- What the host answers: the lock, `load_state`, the release of a snapshot, its recovery format, the
-- subvolumes of the state and of the root, the identity of a snapshot, the output of the rollback
-- (none if it does not start, else its success and its text if that is one), the default subvolume,
-- and the ends of the three writes.
pub record RollbackHost : Type 0 where
  pub lock_taken : Bool
  pub loaded : Result PersistenceError OperationStateRecord
  pub release_at : ℕ → Option ReleaseIdentity
  pub recovery_format : Option Text
  pub state_subvolume : Result Text ℕ
  pub root_subvolume : Result Text ℕ
  pub inspect : ℕ → Result Text SubvolumeIdentity
  pub stored_intent : StoreEnd
  pub rollback_output : Option (Bool × Option Text)
  pub default_subvolume : Result Text ℕ
  pub stored_goal : StoreEnd
  pub stored_failure : StoreEnd

abbrev pub stop_if : Bool → Text → RollbackSession → Schedule
stop_if true error s = err (error, s)
stop_if false error s = ok s

-- The operator `?` on a call that has its own error.
abbrev pub attempt {ℓ} :
    {A : Type ℓ} → Result Text A → RollbackSession → Result (Text × RollbackSession) A
attempt (ok a) s = ok a
attempt (err e) s = err (e, s)

abbrev pub require {ℓ} :
    {A : Type ℓ} → Option A → Text → RollbackSession → Result (Text × RollbackSession) A
require (some a) error s = ok a
require none error s = err (error, s)

abbrev kept : StoreEnd → Result PersistenceError (Unit {0}) → RollbackSession → Schedule
kept end (err _) s = err (codes "STATE_WRITE_FAILED", s)
kept written (ok _) s = ok (record s { trace = stored s.state ∷ s.trace })
kept unwritten (ok _) s = err (codes "STATE_WRITE_FAILED", s)
kept unsynchronized (ok _) s =
    err (codes "STATE_WRITE_FAILED", record s { trace = replaced s.state ∷ s.trace })

-- `save_state(state_root, state).map_err(|_| "STATE_WRITE_FAILED")?`: its checks, and the write.
unfoldable pub save : StoreEnd → RollbackSession → Schedule
save end s = kept end (save_state s.state true) s

abbrev loaded_record : Result PersistenceError OperationStateRecord → Option OperationStateRecord
loaded_record (ok r) = some r
loaded_record (err _) = none

abbrev pub with_intent : ℕ → SubvolumeIdentity → Text → OperationStateRecord → OperationStateRecord
with_intent number source now r = record r {
  recovery =
      some (record {
        source_snapshot_number = number;
        source_snapshot = source;
        boot_snapshot = none;
      });
  sequence = saturating_add r.sequence 1;
  updated_at = now;
  last_completed_step = some (codes "rollback-preparing");
  boot_verification = some BootVerification.pending;
}

-- The checks of `schedule_rollback`, up to the store of the intent; with the snapshot's number.
unfoldable pub check_rollback :
    RollbackHost → OperationStateRecord → RollbackSession → Result (Text × RollbackSession) ℕ
unfolding ReleaseIdentity-discrete OperationState-discrete Text-discrete
check_rollback w r s = do
  s ← stop_if (r.state != needs_recovery) (codes "RECOVERY_NOT_REQUIRED") s
  s ←
      stop_if (is_some_and r.recovery (λ goal. is_none goal.boot_snapshot))
        (codes "ROLLBACK_INTENT_INCOMPLETE") s
  number ← require r.snapshot_number (codes "SNAPSHOT_NOT_AVAILABLE") s
  release ← require (w.release_at number) (codes "SNAPSHOT_IDENTITY_INVALID") s
  s ← stop_if (release != r.source) (codes "SNAPSHOT_IDENTITY_MISMATCH") s
  s ← stop_if (w.recovery_format != some (codes "1\n")) (codes "SNAPSHOT_RECOVERY_UNSUPPORTED") s
  ok number

-- The state must not lie on the subvolume that the rollback replaces.
unfoldable pub check_persistent : RollbackHost → RollbackSession → Schedule
unfolding ℕ_discrete
check_persistent w s = do
  state_id ← attempt w.state_subvolume s
  root_id ← attempt w.root_subvolume s
  stop_if (state_id == root_id) (codes "RECOVERY_STATE_NOT_PERSISTENT") s

unfoldable pub store_intent : RollbackHost → Text → RollbackSession → Schedule
store_intent w now s = do
  s ← stop_if (not w.lock_taken) (codes "TRANSACTION_BUSY") s
  r ← require (loaded_record w.loaded) (codes "STATE_READ_FAILED") s
  let s = record s { state = r }
  number ← check_rollback w r s
  s ← check_persistent w s
  source ← attempt (w.inspect number) s
  let s = record s { state = with_intent number source now r }
  save w.stored_intent s

-- `parse().ok().filter(|n| *n > 0)` on the trimmed output.
abbrev pub printed_number : Option Text → Option ℕ
printed_number none = none
printed_number (some text) = elim (parse_u64 (trim text)) [
  | none ↦ none
  | some n ↦ if ltb 0 n then some n else none
]

abbrev run_rollback :
    Option (Bool × Option Text)
    → RollbackSession
    → Result (Text × RollbackSession) (Option Text × RollbackSession)
run_rollback none s = err (codes "ROLLBACK_FAILED", s)
run_rollback (some (false, text)) s =
    err (codes "ROLLBACK_FAILED", record s { trace = rolled_back ∷ s.trace })
run_rollback (some (true, text)) s = ok (text, record s { trace = rolled_back ∷ s.trace })

abbrev pub with_boot :
    RollbackGoal → SubvolumeIdentity → OperationStateRecord → OperationStateRecord
with_boot goal boot r = record r {
  recovery = some (record {
    source_snapshot_number = goal.source_snapshot_number;
    source_snapshot = goal.source_snapshot;
    boot_snapshot = some boot;
  });
  state = awaiting_reboot;
  sequence = saturating_add r.sequence 1;
  error_code = none;
  last_completed_step = some (codes "rollback-scheduled");
}

-- The checks on the new root: it is a clone of the source, the default, and of the source's release.
unfoldable pub check_boot :
    RollbackHost → ℕ → RollbackGoal → SubvolumeIdentity → RollbackSession → Schedule
unfolding ReleaseIdentity-discrete Text-discrete ℕ_discrete
check_boot w boot_number goal boot s = do
  s ←
      stop_if (boot.parent_uuid != some goal.source_snapshot.uuid) (codes "ROLLBACK_RESULT_INVALID")
        s
  selected ← attempt w.default_subvolume s
  s ← stop_if (selected != boot.id) (codes "ROLLBACK_RESULT_INVALID") s
  release ← require (w.release_at boot_number) (codes "SNAPSHOT_IDENTITY_INVALID") s
  stop_if (release != s.state.source) (codes "ROLLBACK_RESULT_INVALID") s

unfoldable pub finish_rollback : RollbackHost → RollbackSession → Schedule
unfolding trim
finish_rollback w s = do
  (text, s) ← run_rollback w.rollback_output s
  boot_number ← require (printed_number text) (codes "ROLLBACK_RESULT_INVALID") s
  boot ← attempt (w.inspect boot_number) s
  goal ← require s.state.recovery (codes "ROLLBACK_INTENT_INCOMPLETE") s
  s ← check_boot w boot_number goal boot s
  save w.stored_goal (record s { state = with_boot goal boot s.state })

abbrev pub with_failure : Text → OperationStateRecord → OperationStateRecord
with_failure error r = record r {
  state = needs_recovery;
  error_code = some error;
  sequence = saturating_add r.sequence 1;
}

-- What follows a failed `finish_rollback`: its error is stored and returned.
abbrev pub failed_as : Text → Schedule → Schedule
failed_as error (ok s) = err (error, s)
failed_as error (err e) = err e

abbrev pub settle : RollbackHost → Schedule → Schedule
settle w (ok s) = ok s
settle w (err (error, s)) =
    failed_as error (save w.stored_failure (record s { state = with_failure error s.state }))

unfoldable pub schedule_rollback : RollbackHost → Text → RollbackSession → Schedule
schedule_rollback w now s = do s ← store_intent w now s; settle w (finish_rollback w s)
