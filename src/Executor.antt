-- ===== src/Executor.antt =====
-- service/src/executor.rs: the errors of an execution, and what its steps do to a session. A session
-- is the operation's record with the effects so far, the newest first. The payloads of errors are
-- dropped.
pub mod Reports
pub mod Update
pub mod Staging
use mathlib.Core.List.{reverse}
use lyraos_desktop_updater.Prelude.{
  ltb, leb, if◌then◌else◌, Eq, ◌==◌, ◌!=◌, nat_eq, some_ne_none, some_inj, option_dec, option_eq,
  u64_max, saturating_add, is_some, is_none, is_some_and, is_none_or, Bool-cases, Option-cases,
  ==_iff, ==_refl, is_some_and-eq_false, and_left, and_right, is_none-eq, length, is_empty, first,
  any, all, all_at, keep, take, replicate, any-Memᴰ, any-elim, all-Memᴰ, all_intro, length-append,
  Memᴰ-append_left, Memᴰ-append_right, Memᴰ-append_cases, is_empty-append, is_empty-any,
  any-is_empty, any-append, is_empty-keep, length-keep_iff, contains, contains-Memᴰ, Memᴰ-contains,
  unique, IsDistinct, length-unique-le, IsDistinct-iff, pigeonhole, length-map, all-snoc,
  all_weaken, Text-discrete, text_list_eq, utf8, bytes, byte_len, is_whitespace, is_control, trim,
  trim_start, starts_with, split_once, Text, codes, text_eq, is_ascii_digit, is_ascii_upper,
  is_ascii_lower, is_ascii_alphanumeric, is_ascii_hexdigit, Result, fail_if, ok_or, map_err, is_ok,
  ◌>>=◌, ◌>>◌, >>=-eq-ok, err, ok, compare_text, compare_option, insert_sorted, sort_by, dedup,
  sort_texts, IsLawful, then_by, is_gt, compare_text-IsLawful, compare-IsLawful, then_by-IsLawful,
  key-IsLawful, pair-IsLawful, compare_option-IsLawful, reverse-IsLawful, IsSorted, IsStrict,
  any-sort_by, any-dedup, sort_by-IsSorted, dedup-sort_by-IsStrict, sort_by-perm, perm-sort_by-eq,
  first-sort_by, ℕ, zero, suc, ◌+◌, ◌-◌, ◌*◌, ◌/◌, ◌%◌, ◌^◌, ◌≤◌, ◌<◌, max, min, ◌≡◌, refl, sym, ap,
  ◌∙◌, subst, ◌≢◌, ◌↔◌, ◌⊎◌, inl, inr, Bool, true, false, not, ◌&&◌, ◌||◌, Option, none, some, List,
  [], ◌∷◌, ◌++◌, map, Memᴰ, arith, ℕ_discrete,
}
use lyraos_desktop_updater.Domain.{
  TransitionError, OperationState, blocked, needs_recovery, failed, OperationStateRecord,
  transition_to,
}
use lyraos_desktop_updater.Persistence.{PersistenceError, io, validate_operation_id, validate_state}
use lyraos_desktop_updater.Manifest.Version.{parse_u64, split}

pub data ExecutionError : Type 0 where
  plan_changed refresh_failed replan_failed download_failed snapshot_failed : ExecutionError
  invalid_snapshot persist_failed apply_failed package_manager_restart : ExecutionError
  initramfs_failed grub_failed transition_failed stage_failed : ExecutionError
  system_update_exists busy cancelled repository_key_failed inventory_failed : ExecutionError

-- `ExecutionError::code`
unfoldable pub error_code : ExecutionError → Text
error_code plan_changed = codes "PLAN_CHANGED"
error_code refresh_failed = codes "METADATA_REFRESH_FAILED"
error_code replan_failed = codes "PLAN_REVALIDATION_FAILED"
error_code download_failed = codes "DOWNLOAD_FAILED"
error_code snapshot_failed = codes "SNAPSHOT_FAILED"
error_code invalid_snapshot = codes "SNAPSHOT_FAILED"
error_code persist_failed = codes "STATE_WRITE_FAILED"
error_code apply_failed = codes "ZYPPER_APPLY_FAILED"
error_code package_manager_restart = codes "ZYPPER_RESTART_REQUIRED"
error_code initramfs_failed = codes "INITRAMFS_FAILED"
error_code grub_failed = codes "BOOTLOADER_FAILED"
error_code transition_failed = codes "INVALID_STATE_TRANSITION"
error_code stage_failed = codes "OFFLINE_STAGE_FAILED"
error_code system_update_exists = codes "SYSTEM_UPDATE_BUSY"
error_code busy = codes "TRANSACTION_BUSY"
error_code cancelled = codes "CANCELLED"
error_code repository_key_failed = codes "REPOSITORY_KEY_FAILED"
error_code inventory_failed = codes "PACKAGE_PRESERVATION_FAILED"

abbrev pub is_blocking : ExecutionError → Bool
is_blocking plan_changed = true
is_blocking refresh_failed = true
is_blocking replan_failed = true
is_blocking download_failed = true
is_blocking busy = true
is_blocking repository_key_failed = true
is_blocking _ = false

unfoldable pub failure_state : ExecutionError → Bool → OperationState
failure_state error has_snapshot =
    if is_blocking error && not has_snapshot
    then blocked
    else if has_snapshot
    then needs_recovery
    else failed

-- Whether the record that the service loads after a failure was cancelled by its owner.
unfoldable pub is_cancelled : Result PersistenceError OperationStateRecord → Bool
unfolding Text-discrete
is_cancelled (err _) = false
is_cancelled (ok saved) = saved.error_code == some (codes "CANCELLED")

abbrev pub failed_record : ExecutionError → Text → OperationStateRecord → OperationStateRecord
failed_record error now r = record r {
  state = failure_state error (is_some r.snapshot_number);
  error_code = some (error_code error);
  sequence = saturating_add r.sequence 1;
  updated_at = now;
}

-- What the service's thread stores after an execution that failed (service/src/main.rs): nothing, if
-- the record that it then loads was cancelled.
unfoldable pub record_failure :
    Result PersistenceError OperationStateRecord
    → ExecutionError
    → Text
    → OperationStateRecord
    → Option OperationStateRecord
record_failure found error now r =
    if is_cancelled found then none else some (failed_record error now r)

pub data Program : Type 0 where
  refresh download create_snapshot apply regenerate_initramfs configure_grub dry_run : Program

-- A record that `save_state` has stored, or that has replaced the stored one although its store failed,
-- a state that the observer was told, a command that ran, and the link /system-update to the operation.
pub data Effect : Type 0 where
  stored : OperationStateRecord → Effect
  replaced : OperationStateRecord → Effect
  notified : OperationState → Effect
  ran : Program → Effect
  linked : Effect

pub record Session : Type 0 where
  pub state : OperationStateRecord
  pub trace : List Effect

-- The session in which an execution stopped, with its error.
abbrev pub Run : Type 0
Run = Result (ExecutionError × Session) Session

abbrev pub trace_of : Run → List Effect
trace_of (ok s) = s.trace
trace_of (err (e, s)) = s.trace

abbrev pub with_effect : Effect → Session → Session
with_effect e s = record s { trace = e ∷ s.trace }

-- `if test { return Err(error); }`
abbrev pub stop_if : Bool → ExecutionError → Session → Run
stop_if true error s = err (error, s)
stop_if false error s = ok s

-- A command: it runs, and its failure is the error.
abbrev pub command : Program → Bool → ExecutionError → Session → Run
command program successful error s = stop_if (not successful) error (with_effect (ran program) s)

-- `save_state` of core/src/persistence.rs: its checks, and whether the write succeeds.
unfoldable pub save_state : OperationStateRecord → Bool → Result PersistenceError (Unit {0})
save_state r writable = do
  validate_operation_id r.operation_id
  validate_state r
  fail_if (not writable) io

-- How the write of a record ends: it succeeds, it fails before the new file has the record's name, or
-- only the directory is not synchronised, behind the rename.
pub data StoreEnd : Type 0 where
  written unwritten unsynchronized : StoreEnd

abbrev saved : StoreEnd → Result PersistenceError (Unit {0}) → Session → Run
saved end (err _) s = err (persist_failed, s)
saved written (ok _) s = ok (with_effect (stored s.state) s)
saved unwritten (ok _) s = err (persist_failed, s)
saved unsynchronized (ok _) s = err (persist_failed, with_effect (replaced s.state) s)

unfoldable pub save : StoreEnd → Session → Run
save end s = saved end (save_state s.state true) s

-- `persist`: the observer is told of a state that is stored.
unfoldable pub persist : StoreEnd → Session → Run
persist end s = do t ← save end s; ok (with_effect (notified t.state.state) t)

abbrev moved : Session → Result TransitionError OperationStateRecord → Run
moved s (ok r) = ok (record s { state = r })
moved s (err _) = err (transition_failed, s)

-- `state.transition_to(next).map_err(ExecutionError::Transition)?`
unfoldable pub move : OperationState → Session → Run
move next s = moved s (transition_to s.state next)

-- The first text that reads as a number, of those in the list.
abbrev pub first_number : List Text → Option ℕ
first_number [] = none
first_number (l ∷ ls) = elim (parse_u64 (trim l)) [ some n ↦ some n | none ↦ first_number ls ]

abbrev positive : Option ℕ → Option ℕ
positive none = none
positive (some n) = if ltb 0 n then some n else none

-- `parse_snapshot_number`: the number on the last line that holds one, if it is above 0. A carriage
-- return at a line's end is white space, which `trim` takes away.
unfoldable pub parse_snapshot_number : Text → Option ℕ
unfolding trim
parse_snapshot_number stdout = positive (first_number (reverse (split stdout 10)))
