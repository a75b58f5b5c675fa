-- ===== src/Lifecycle.antt =====
-- The life of an operation's record: what the service, its executor, the offline worker and the
-- verifier make of it, one after the other, from the record that service/src/main.rs starts with.
pub mod Invariant
use lyraos_desktop_updater.Prelude.{
  ltb, leb, if◌then◌else◌, Eq, ◌==◌, ◌!=◌, nat_eq, some_ne_none, some_inj, option_dec, option_eq,
  u64_max, saturating_add, is_some, is_none, is_some_and, is_none_or, Bool-cases, Option-cases,
  ==_iff, ==_refl, is_some_and-eq_false, and_left, and_right, is_none-eq, length, is_empty, first,
  any, all, all_at, keep, take, replicate, any-Memᴰ, any-elim, all-Memᴰ, all_intro, length-append,
  Memᴰ-append_left, Memᴰ-append_right, Memᴰ-append_cases, is_empty-append, is_empty-any,
  any-is_empty, any-append, is_empty-keep, length-keep_iff, contains, contains-Memᴰ, Memᴰ-contains,
  unique, IsDistinct, length-unique-le, IsDistinct-iff, pigeonhole, length-map, all-snoc,
  all_weaken, Text-discrete, text_list_eq, utf8, bytes, byte_len, is_whitespace, is_control, trim,
  trim_start, starts_with, split_once, Text, codes, text_eq, is_ascii_digit, is_ascii_upper,
  is_ascii_lower, is_ascii_alphanumeric, is_ascii_hexdigit, Result, fail_if, ok_or, map_err, is_ok,
  ◌>>=◌, ◌>>◌, >>=-eq-ok, err, ok, compare_text, compare_option, insert_sorted, sort_by, dedup,
  sort_texts, IsLawful, then_by, is_gt, compare_text-IsLawful, compare-IsLawful, then_by-IsLawful,
  key-IsLawful, pair-IsLawful, compare_option-IsLawful, reverse-IsLawful, IsSorted, IsStrict,
  any-sort_by, any-dedup, sort_by-IsSorted, dedup-sort_by-IsStrict, sort_by-perm, perm-sort_by-eq,
  first-sort_by, ℕ, zero, suc, ◌+◌, ◌-◌, ◌*◌, ◌/◌, ◌%◌, ◌^◌, ◌≤◌, ◌<◌, max, min, ◌≡◌, refl, sym, ap,
  ◌∙◌, subst, ◌≢◌, ◌↔◌, ◌⊎◌, inl, inr, Bool, true, false, not, ◌&&◌, ◌||◌, Option, none, some, List,
  [], ◌∷◌, ◌++◌, map, Memᴰ, arith, ℕ_discrete,
}
use lyraos_desktop_updater.Recovery.{SubvolumeIdentity, RollbackGoal}
use lyraos_desktop_updater.Domain.{
  OperationState, snapshotting, needs_recovery, verifying_boot, is_cancelable, OperationStateRecord,
  transition_to,
}
use lyraos_desktop_updater.Persistence.{PersistenceError}
use lyraos_desktop_updater.Executor.{ExecutionError, record_failure}
use lyraos_desktop_updater.Rollback.{with_intent, with_boot, with_failure}
use lyraos_desktop_updater.Service.Handle.{given_up}
use lyraos_desktop_updater.Verifier.Pending.{interrupt}
use lyraos_desktop_updater.Verifier.Boot.{WriteFault, SequenceFile, finalize_verification}

-- `mark_recovery` of offline/src/main.rs: the record of an offline run that failed.
unfoldable pub mark_recovery : OperationStateRecord → OperationStateRecord
mark_recovery r = record r {
  state = needs_recovery;
  error_code = some (codes "OFFLINE_APPLY_FAILED");
  sequence = saturating_add r.sequence 1;
}

-- One change of the record: a transition, the number of the snapshot, the failure of an execution, the
-- owner's cancel and refusal of a recovery, the three records of a rollback, the failure of the offline
-- worker, an interrupted operation, and the outcome of the checks after a boot.
pub data Step (r r' : OperationStateRecord) : Type 0 where
  move : (next : OperationState) → transition_to r next ≡ ok r' → Step r r'
  record_snapshot :
      (number : ℕ)
      → 0 < number
      → r.state ≡ snapshotting
      → r' ≡ record r { snapshot_number = some number }
      → Step r r'
  fail_execution :
      (found : Result PersistenceError OperationStateRecord)
      → (error : ExecutionError) → (now : Text) → record_failure found error now r ≡ some r'
      → Step r r'
  cancel :
      (now : Text)
      → is_cancelable r.state ≡ true
      → r' ≡ given_up (codes "CANCELLED") now r
      → Step r r'
  decline :
      (now : Text)
      → r.state ≡ needs_recovery
      → r' ≡ given_up (codes "RECOVERY_DECLINED") now r
      → Step r r'
  intend :
      (number : ℕ)
      → (source : SubvolumeIdentity) → (now : Text) → r.state ≡ needs_recovery
      → r.snapshot_number ≡ some number
      → r' ≡ with_intent number source now r
      → Step r r'
  schedule :
      (goal : RollbackGoal)
      → (boot : SubvolumeIdentity) → r.state ≡ needs_recovery
      → r.recovery ≡ some goal
      → r' ≡ with_boot goal boot r
      → Step r r'
  fail_rollback : (error : Text) → is_some r.recovery ≡ true → r' ≡ with_failure error r → Step r r'
  fail_offline : r' ≡ mark_recovery r → Step r r'
  cut_off : interrupt r ≡ some r' → Step r r'
  verify :
      (fault : WriteFault)
      → (manifest_sequence : Option ℕ) → (sequence_file : SequenceFile) → (passed : Bool)
      → r.state ≡ verifying_boot
      → r' ≡ (finalize_verification fault manifest_sequence r sequence_file passed).0
      → Step r r'

pub data Reach (r : OperationStateRecord) : OperationStateRecord → Type 0 where
  here : Reach r r
  extend : {s t : OperationStateRecord} → Reach r s → Step s t → Reach r t
