-- ===== src/Executor/Reports.antt =====
-- What the service's thread makes of an execution that failed (service/src/main.rs).
use lyraos_desktop_updater.Prelude.{
  nat_eq, option_eq, is_some, ==_iff, text_list_eq, Text, codes, text_eq, Result, err, ok, ◌≡◌, ◌↔◌,
  true, Option, none, some, arith,
}
use lyraos_desktop_updater.Domain.{needs_recovery, OperationStateRecord}
use lyraos_desktop_updater.Persistence.{PersistenceError}
use lyraos_desktop_updater.Executor.{
  ExecutionError, error_code, failure_state, is_cancelled, record_failure,
}

-- The stored record can be read and was cancelled by its owner.
abbrev pub IsCancelled : Result PersistenceError OperationStateRecord → Type 0
IsCancelled (ok saved) = saved.error_code ≡ some (codes "CANCELLED")
IsCancelled (err e) = ⊥

-- The record is left to its owner's cancel, or it asks for a recovery, with the cause of the failure
-- and the snapshot that was taken.
abbrev pub AsksRecovery :
    Result PersistenceError OperationStateRecord
    → ExecutionError
    → OperationStateRecord
    → Option OperationStateRecord
    → Type 0
AsksRecovery found e r none = IsCancelled found
AsksRecovery found e r (some q) =
    (¬ IsCancelled found)
    × (q.state ≡ needs_recovery)
    × (q.error_code ≡ some (error_code e))
    × (q.snapshot_number ≡ r.snapshot_number)
    × (is_some q.snapshot_number ≡ true)

is_cancelled-IsCancelled :
    (found : Result PersistenceError OperationStateRecord)
    → (is_cancelled found ≡ true) ↔ IsCancelled found
unfolding is_cancelled
is_cancelled-IsCancelled (ok saved) = ==_iff saved.error_code (some (codes "CANCELLED"))
is_cancelled-IsCancelled (err e) = (λ h. ground arith, λ h. absurd h)

pub record_failure-AsksRecovery :
    (found : Result PersistenceError OperationStateRecord) (e : ExecutionError) (now : Text)
    (r : OperationStateRecord)
    → is_some r.snapshot_number ≡ true
    → AsksRecovery found e r (record_failure found e now r)
unfolding record_failure failure_state
record_failure-AsksRecovery found e now r h = let c = is_cancelled-IsCancelled found in ground arith
