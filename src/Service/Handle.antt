-- ===== src/Service/Handle.antt =====
-- service/src/main.rs: `Service::cancel`, `acknowledge_recovery` and `handle`, and `query_response`.
use lyraos_desktop_updater.Prelude.{
  if◌then◌else◌, ◌!=◌, nat_eq, option_eq, saturating_add, text_list_eq, Text, codes, text_eq,
  Result, ◌>>=◌, err, ok, ℕ, not, ◌&&◌, Option, none, some, List, [], ◌∷◌, ◌++◌,
}
use lyraos_desktop_updater.Domain.{
  failed, is_cancelable, needs_recovery, OperationStateRecord, state_eq, OperationState-discrete,
}
use lyraos_desktop_updater.Persistence.{PersistenceError}
use lyraos_desktop_updater.Persistence.Store.{Place, Codec, file, load_state, save_state}
use lyraos_desktop_updater.Rollback.{
  replaced, RollbackEffect, Schedule, schedule_rollback, stored, rolled_back,
}
use lyraos_desktop_updater.Service.{
  Request, Response, RecoveryAction, show_diagnostics, rollback, keep_current, rejected,
  needs_authorization, is_supported, request_id, supported_version,
}
use lyraos_desktop_updater.Service.Files.{owns, with_place, Service}
use lyraos_desktop_updater.Service.Reports.{ServiceHost, trust_state, status, answered}
use lyraos_desktop_updater.Service.Start.{Turn, refuse, stored_for, start}

abbrev pub found :
    Text
    → Service
    → Result PersistenceError OperationStateRecord
    → Result (Service × Response) OperationStateRecord
found id s (err _) = err (s, rejected id (codes "OPERATION_NOT_FOUND"))
found id s (ok r) = ok r

-- The caller's operation, as it is stored.
unfoldable pub own_record :
    ServiceHost → Service → Text → Text → Result (Service × Response) OperationStateRecord
own_record host s id operation_id = do
  s ← refuse (not (owns s operation_id)) id (codes "OPERATION_NOT_FOUND") s
  found id s (load_state host.codec (s.store operation_id).place operation_id)

-- The record of an operation that its owner gives up.
abbrev pub given_up : Text → Text → OperationStateRecord → OperationStateRecord
given_up error now r = record r {
  state = failed;
  error_code = some error;
  sequence = saturating_add r.sequence 1;
  updated_at = now;
}

-- The record is stored and the status is the answer.
abbrev pub status_after : ServiceHost → Text → Text → Turn → Service × Response
status_after host id operation_id (err answer) = answer
status_after host id operation_id (ok s) = (s, status host s id operation_id 0)

unfoldable pub give_up : ServiceHost → Service → Text → Text → Text → OperationStateRecord → Turn
give_up host s id operation_id error r =
    stored_for id operation_id s
      (save_state host.store host.codec (s.store operation_id).place (given_up error host.now r))

unfoldable pub cancel : ServiceHost → Service → Text → Text → Service × Response
cancel host s id operation_id = status_after host id operation_id (do
  r ← own_record host s id operation_id
  s ← refuse (not (is_cancelable r.state)) id (codes "NOT_CANCELABLE") s
  give_up host s id operation_id (codes "CANCELLED") r)

abbrev pub printed_over : Option (List ℕ) → Place → Place
printed_over none place = place
printed_over (some content) place = record place { state_file = file (content ++ 10 ∷ []) }

-- The record's file after the stores of a rollback, the last one first.
abbrev pub replayed : Codec → List RollbackEffect → Place → Place
replayed codec [] place = place
replayed codec (stored r ∷ trace) place = printed_over (codec.print r) place
replayed codec (replaced r ∷ trace) place = printed_over (codec.print r) place
replayed codec (rolled_back ∷ trace) place = replayed codec trace place

abbrev pub after_rollback : ServiceHost → Text → Text → Service → Schedule → Turn
after_rollback host id operation_id s (err (error, t)) = err (
  with_place operation_id (replayed host.codec t.trace (s.store operation_id).place) s,
  rejected id error,
)
after_rollback host id operation_id s (ok t) =
    ok (with_place operation_id (replayed host.codec t.trace (s.store operation_id).place) s)

-- What `schedule_rollback` finds under the lock is what stands in the store.
abbrev pub roll_back : ServiceHost → Service → Text → Text → OperationStateRecord → Turn
roll_back host s id operation_id r = after_rollback host id operation_id s (
    schedule_rollback
      (record (host.rollback) {
        loaded = load_state host.codec (s.store operation_id).place operation_id;
      })
      host.now (record { state = r; trace = [] }))

abbrev pub act : ServiceHost → Service → Text → Text → OperationStateRecord → RecoveryAction → Turn
act host s id operation_id r show_diagnostics = ok s
act host s id operation_id r keep_current =
    give_up host s id operation_id (codes "RECOVERY_DECLINED") r
act host s id operation_id r rollback = roll_back host s id operation_id r

unfoldable pub recover : ServiceHost → Service → Text → Text → RecoveryAction → Turn
unfolding OperationState-discrete
recover host s id operation_id action = do
  r ← own_record host s id operation_id
  s ← refuse (r.state != needs_recovery) id (codes "RECOVERY_NOT_REQUIRED") s
  act host s id operation_id r action

unfoldable pub acknowledge_recovery :
    ServiceHost → Service → Text → Text → RecoveryAction → Service × Response
acknowledge_recovery host s id operation_id show_diagnostics = (s, status host s id operation_id 0)
acknowledge_recovery host s id operation_id action =
    status_after host id operation_id (recover host s id operation_id action)

abbrev or_zero : Option ℕ → ℕ
or_zero none = 0
or_zero (some n) = n

abbrev pub dispatch : ServiceHost → Service → Request → Service × Response
dispatch host s (Request.read_trust_state v id) = (s, trust_state host s id)
dispatch host s (Request.read_recovery_readiness v id) =
    (s, answered id (host.query (Request.read_recovery_readiness supported_version id)))
dispatch host s (Request.start v id operation hash confirmed planned) =
    start host s id operation hash confirmed planned
dispatch host s (Request.status v id operation since) =
    (s, status host s id operation (or_zero since))
dispatch host s (Request.cancel v id operation) = cancel host s id operation
dispatch host s (Request.acknowledge_recovery v id operation action) =
    acknowledge_recovery host s id operation action
dispatch host s request = (s, host.host_answer request)

-- Requests to check, inspect and plan only read the host.
unfoldable pub handle : ServiceHost → Service → Request → Service × Response
unfolding is_supported
handle host s request =
    if not (is_supported request)
    then (s, rejected (request_id request) (codes "UNSUPPORTED_PROTOCOL"))
    else if s.read_only && needs_authorization request
    then (s, rejected (request_id request) (codes "AUTHORIZATION_REQUIRED"))
    else dispatch host s request

abbrev queried : ServiceHost → Service → Request → Response
queried host s (Request.status v id operation since) = status host s id operation (or_zero since)
queried host s (Request.read_trust_state v id) = trust_state host s id
queried host s (Request.read_recovery_readiness v id) = host.readiness id
queried host s request = rejected (request_id request) (codes "READ_ONLY_REQUEST_REQUIRED")

unfoldable pub query_response : ServiceHost → Service → Request → Response
unfolding is_supported
query_response host s request =
    if not (is_supported request)
    then rejected (request_id request) (codes "UNSUPPORTED_PROTOCOL")
    else queried host s request
