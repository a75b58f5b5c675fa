-- ===== src/Verifier/Boot.antt =====
-- verifier/src/main.rs: the outcome of the checks after a boot. Reading the operation's manifest and
-- the stored sequence, and the success of each write, are arguments.
pub mod Outcome
use lyraos_desktop_updater.Prelude.{
  ltb, if◌then◌else◌, Eq, ◌==◌, ◌!=◌, nat_eq, option_dec, option_eq, saturating_add, is_some,
  is_none, is_some_and, text_list_eq, starts_with, Text, codes, text_eq, Result, fail_if, err, ℕ,
  ◌+◌, Bool, true, false, ◌&&◌, ◌||◌, Option, none, some, arith, ℕ_discrete,
}
use lyraos_desktop_updater.Domain.{
  OperationState, needs_recovery, completed, OperationStateRecord, BootVerification,
  is_signed_offline, ReleaseIdentity, release_eq, ReleaseIdentity-discrete,
}

pub data CheckFailure : Type 0 where
  worker discovery identity filesystem rpm_database dependencies boot_target : CheckFailure
  failed_units grub rollback inventory timeout : CheckFailure

-- The exit code of the worker, or 128 and the signal that ended it.
abbrev pub status_code : Option ℕ → Option ℕ → Option ℕ
status_code (some code) signal = some code
status_code none (some signal) = some (128 + signal)
status_code none none = none

-- `CheckFailure::from_status`, of the code and the signal of the exit status.
unfoldable pub from_status : Option ℕ → Option ℕ → Option CheckFailure
unfolding ℕ_discrete
from_status code signal = elim (status_code code signal) [
  | none ↦ some worker
  | some status ↦
      if status == 0
      then none
      else if status == 10
      then some discovery
      else if status == 11
      then some identity
      else if status == 12
      then some filesystem
      else if status == 13
      then some rpm_database
      else if status == 14
      then some dependencies
      else if status == 15
      then some boot_target
      else if status == 16
      then some failed_units
      else if status == 17
      then some grub
      else if status == 20
      then some rollback
      else if status == 21
      then some inventory
      else if status == 124 || status == 137
      then some timeout
      else some worker
]

-- The file of the last sequence: its content, or that it cannot be read.
abbrev pub SequenceFile : Type 0
SequenceFile = Option (Option ℕ)

-- `write_sequence`: the file after the call, and whether the call succeeded. A write that fails may
-- have replaced the file already, since the directory is synchronised after the rename.
pub data WriteFault : Type 0 where
  no_fault before_rename after_rename : WriteFault

abbrev write_with : WriteFault → ℕ → SequenceFile → SequenceFile × Bool
write_with no_fault sequence file = (some (some sequence), true)
write_with before_rename sequence file = (file, false)
write_with after_rename sequence file = (some (some sequence), false)

unfoldable pub write_sequence : WriteFault → ℕ → SequenceFile → SequenceFile × Bool
write_sequence fault sequence none = (none, false)
write_sequence fault sequence (some none) = write_with fault sequence (some none)
write_sequence fault sequence (some (some previous)) =
    if ltb sequence previous
    then (some (some previous), false)
    else write_with fault sequence (some (some previous))

-- `read_manifest_sequence(dir).ok_or(()).and_then(write_sequence)`
unfoldable pub persist_sequence : WriteFault → Option ℕ → SequenceFile → SequenceFile × Bool
persist_sequence fault none file = (file, false)
persist_sequence fault (some sequence) file = write_sequence fault sequence file

unfoldable pub complete : OperationStateRecord → OperationStateRecord
complete r = record r {
  sequence = saturating_add r.sequence 1;
  state = completed;
  boot_verification = some BootVerification.passed;
  last_completed_step =
      some
        (if is_some r.recovery then codes "rollback-verified" else codes "post-boot-verification");
  error_code = none;
}

unfoldable pub fail_with : Text → OperationStateRecord → OperationStateRecord
fail_with code r = record r {
  sequence = saturating_add r.sequence 1;
  state = needs_recovery;
  boot_verification = some BootVerification.failed;
  error_code = some code;
}

-- The write of the sequence decides between the two.
abbrev pub finish : OperationStateRecord → SequenceFile × Bool → OperationStateRecord × SequenceFile
finish r (file, true) = (complete r, file)
finish r (file, false) = (fail_with (codes "MANIFEST_SEQUENCE_PERSIST_FAILED") r, file)

-- The record and the sequence's file after the checks.
unfoldable pub finalize_verification :
    WriteFault
    → Option ℕ
    → OperationStateRecord
    → SequenceFile
    → Bool
    → OperationStateRecord × SequenceFile
finalize_verification fault manifest_sequence r file false =
    (fail_with (codes "POST_BOOT_VERIFICATION_FAILED") r, file)
finalize_verification fault manifest_sequence r file true =
    if is_none r.recovery && is_signed_offline r.operation
    then finish r (persist_sequence fault manifest_sequence file)
    else (complete r, file)

-- Whether the booted release is the one that the operation leads to.
unfoldable pub verify_release :
    OperationStateRecord → ReleaseIdentity → Result CheckFailure (Unit {0})
unfolding ReleaseIdentity-discrete starts_with
verify_release r actual =
    if is_some r.recovery
    then fail_if (actual != r.source) identity
    else if is_some_and r.last_completed_step (λ step. starts_with step (codes "rollback-"))
    then err rollback
    else fail_if (is_some_and r.target (λ target. actual != target)) identity
