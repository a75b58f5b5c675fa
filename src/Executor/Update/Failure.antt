-- ===== src/Executor/Update/Failure.antt =====
-- The failures of `execute_update` after which the system is said to be untouched
-- (service/src/executor.rs).
use lyraos_desktop_updater.Prelude.{
  nat_eq, option_eq, is_some, any, text_list_eq, Text, text_eq, Result, ◌>>=◌, err, ok, ◌≡◌, subst,
  Bool, true, not, ◌||◌, [], arith,
}
use lyraos_desktop_updater.Domain.{OperationStateRecord, transition_to}
use lyraos_desktop_updater.Persistence.{PersistenceError}
use lyraos_desktop_updater.Executor.Reports.{AsksRecovery, record_failure-AsksRecovery}
use lyraos_desktop_updater.Executor.{
  Session, Run, trace_of, ExecutionError, save, persist, move, record_failure,
}
use lyraos_desktop_updater.Executor.Update.{
  UpdateHost, prepare, fetch, take_snapshot, apply_update, rebuild_boot, conclude, execute_update,
}
use lyraos_desktop_updater.Executor.Update.Guard.{
  is_apply, IsUnapplied, prepare-IsUnapplied, fetch-IsUnapplied, take_snapshot-IsUnapplied,
}

abbrev session_of : Run → Session
session_of (ok s) = s
session_of (err (e, s)) = s

-- The transaction has not run, or the record has the snapshot's number.
abbrev is_covered : Session → Bool
is_covered s = not (any is_apply s.trace) || is_some s.state.snapshot_number

abbrev IsCovered : Session → Type 0
IsCovered s = is_covered s ≡ true

apply_update-IsCovered :
    (w : UpdateHost) (s : Session) → IsUnapplied s.trace → IsCovered (session_of (apply_update w s))
unfolding apply_update move persist save transition_to
apply_update-IsCovered w s h = ground arith

conclude-IsCovered :
    (w : UpdateHost) (s : Session) → IsCovered s → IsCovered (session_of (conclude w s))
unfolding conclude rebuild_boot move persist save transition_to
conclude-IsCovered w s h = ground arith

>>=-IsCovered :
    (m : Run) (f : Session → Run)
    → IsUnapplied (trace_of m)
    → ((s : Session) → IsUnapplied s.trace → IsCovered (session_of (f s)))
    → IsCovered (session_of (m >>= f))
>>=-IsCovered (ok s) f p q = q s p
>>=-IsCovered (err (e, s)) f p q = ground arith

finish-IsCovered :
    (w : UpdateHost) (m : Run)
    → IsCovered (session_of m)
    → IsCovered (session_of (m >>= conclude w))
finish-IsCovered w (ok s) p = conclude-IsCovered w s p
finish-IsCovered w (err (e, s)) p = p

execute_update-IsCovered :
    (w : UpdateHost) (confirmed : Text) (s : Session)
    → s.trace ≡ []
    → IsCovered (session_of (execute_update w confirmed s))
unfolding execute_update
execute_update-IsCovered w confirmed s clean =
    >>=-IsCovered (prepare w s) _ (prepare-IsUnapplied w s (rw clean)) (λ s p.
      >>=-IsCovered (fetch w confirmed s) _ (fetch-IsUnapplied w confirmed s p) (λ s p.
        >>=-IsCovered (take_snapshot w s) _ (take_snapshot-IsUnapplied w s p)
          (λ s p. finish-IsCovered w (apply_update w s) (apply_update-IsCovered w s p))))

-- If an execution that starts from a session without effects fails after its transaction has run, the
-- record that the service's thread then stores is in `NeedsRecovery`, with the cause of the failure
-- and the snapshot; it stores none exactly when the record that it loads was cancelled.
pub execute_update-needs_recovery :
    (w : UpdateHost) (confirmed : Text) (s : Session) {e : ExecutionError} {s' : Session}
    (found : Result PersistenceError OperationStateRecord) (now : Text)
    → s.trace ≡ []
    → execute_update w confirmed s ≡ err (e, s')
    → any is_apply s'.trace ≡ true
    → AsksRecovery found e s'.state (record_failure found e now s'.state)
execute_update-needs_recovery w confirmed s {e} {s'} found now clean h applied =
    let covered =
      subst (λ m. IsCovered (session_of m)) h (execute_update-IsCovered w confirmed s clean) in
    record_failure-AsksRecovery found e now s'.state (ground arith)
