-- ===== src/Service/Foreign.antt =====
-- No request changes an operation that is another user's (service/src/main.rs).
use lyraos_desktop_updater.Prelude.{
  if◌then◌else◌, ◌==◌, ◌!=◌, nat_eq, option_eq, Bool-cases, ==_iff, text_list_eq, Text, codes,
  text_eq, Result, ◌>>=◌, err, ok, ◌≡◌, refl, subst, inl, inr, Bool, true, false, not, ◌&&◌, [],
}
use lyraos_desktop_updater.Persistence.{PersistenceError}
use lyraos_desktop_updater.Service.Handle.{
  act, given_up, handle, cancel, acknowledge_recovery, recover, dispatch, own_record, give_up,
  status_after, after_rollback, found,
}
use lyraos_desktop_updater.Rollback.{Schedule, schedule_rollback}
use lyraos_desktop_updater.Domain.{needs_recovery, is_cancelable, state_eq, OperationStateRecord}
use lyraos_desktop_updater.Persistence.Store.{load_state, save_state}
use lyraos_desktop_updater.Service.{
  Request, Response, RecoveryAction, show_diagnostics, rollback, keep_current, needs_authorization,
  is_supported, PlannedUpdate,
}
use lyraos_desktop_updater.Service.Files.{owns, exists, Service}
use lyraos_desktop_updater.Service.Reports.{ServiceHost}
use lyraos_desktop_updater.Service.Start.{
  start_thread, Turn, refuse, start, register, is_consistent,
}
use lyraos_desktop_updater.Service.Ownership.{
  with_files-Same, launch-Same, accepted-Same, register-Same, stored_for-Same, Same, SameTurn,
  SameStep, refuse_at, turn_then,
}

-- An operation that exists and is not the caller's.
abbrev IsForeign : Service → Text → Type 0
IsForeign s key = (exists (s.store key) ≡ true) × (owns s key ≡ false)

module _ (key : Text) (s : Service) (foreign : IsForeign s key) where
  register-foreign :
      (host : ServiceHost) (id operation_id hash : Text) (submitted : PlannedUpdate)
      → SameTurn key s (register host id operation_id hash submitted s)
  unfolding register
  register-foreign host id operation_id hash submitted = elim (Bool-cases (key == operation_id)) [
    | inr n ↦ register-Same key s host id operation_id hash submitted s n refl
    | inl e ↦
        let there : exists (s.store operation_id) ≡ true =
          subst (λ k. exists (s.store k) ≡ true) ((==_iff key operation_id).0 e) foreign.0 in
        rw there refl
  ]

  owned_or_registered :
      (host : ServiceHost) (id operation_id hash : Text) (submitted : PlannedUpdate) (b : Bool)
      → SameTurn key s (if b then ok s else register host id operation_id hash submitted s)
  owned_or_registered host id operation_id hash submitted true = refl
  owned_or_registered host id operation_id hash submitted false =
      register-foreign host id operation_id hash submitted

  start-foreign :
      (host : ServiceHost) (id operation_id hash : Text) (confirmed : Bool)
      (submitted : PlannedUpdate)
      → Same key s (start host s id operation_id hash confirmed submitted).0
  unfolding start start_thread
  start-foreign host id operation_id hash confirmed submitted =
      accepted-Same key s id operation_id _ (
        refuse_at key s (not confirmed) id (codes "CONFIRMATION_REQUIRED") s _ refl (
          refuse_at key s (not (is_consistent host hash submitted)) id (codes "PLAN_HASH_MISMATCH")
            s _ refl
            (turn_then key s
              (if owns s operation_id then ok s else register host id operation_id hash submitted s)
              _ (owned_or_registered host id operation_id hash submitted (owns s operation_id))
              (λ t h. launch-Same key s host id operation_id hash submitted t h))))

  found-Same :
      (id : Text) (o : Result PersistenceError OperationStateRecord) → SameStep key s (found id s o)
  found-Same id (err _) = refl
  found-Same id (ok r) = tt

  found_then :
      (id : Text) (o : Result PersistenceError OperationStateRecord)
      (f : OperationStateRecord → Turn)
      → ((r : OperationStateRecord) → SameTurn key s (f r))
      → SameTurn key s (found id s o >>= f)
  found_then id (err _) f k = refl
  found_then id (ok r) f k = k r

  checked_then :
      (id : Text) (b : Bool) (o : Service → Result PersistenceError OperationStateRecord)
      (f : OperationStateRecord → Turn)
      → ((r : OperationStateRecord) → SameTurn key s (f r))
      → SameTurn key s
          (refuse b id (codes "OPERATION_NOT_FOUND") s >>= (λ t. found id t (o t)) >>= f)
  checked_then id true o f k = refl
  checked_then id false o f k = found_then id (o s) f k

  -- What is done with the caller's own operation.
  own_record_then :
      (host : ServiceHost) (id operation_id : Text) (f : OperationStateRecord → Turn)
      → ((key == operation_id) ≡ false → (r : OperationStateRecord) → SameTurn key s (f r))
      → SameTurn key s (own_record host s id operation_id >>= f)
  unfolding own_record
  own_record_then host id operation_id f k = elim (Bool-cases (key == operation_id)) [
    | inr n ↦
        checked_then id (not (owns s operation_id))
          (λ t. load_state host.codec (t.store operation_id).place operation_id) f (k n)
    | inl e ↦
        let other : owns s operation_id ≡ false =
          subst (λ k. owns s k ≡ false) ((==_iff key operation_id).0 e) foreign.1 in
        rw other refl
  ]

  give_up-Same :
      (host : ServiceHost) (id operation_id error : Text) (r : OperationStateRecord)
      → (key == operation_id) ≡ false
      → SameTurn key s (give_up host s id operation_id error r)
  unfolding give_up
  give_up-Same host id operation_id error r n =
      stored_for-Same key s id operation_id s
        (save_state host.store host.codec (s.store operation_id).place (given_up error host.now r))
        n refl

  roll_back-Same :
      (host : ServiceHost) (id operation_id : Text) (o : Schedule)
      → (key == operation_id) ≡ false
      → SameTurn key s (after_rollback host id operation_id s o)
  roll_back-Same host id operation_id (err (error, t)) n =
      with_files-Same key s operation_id _ s n refl
  roll_back-Same host id operation_id (ok t) n = with_files-Same key s operation_id _ s n refl

  status_after-Same :
      (host : ServiceHost) (id operation_id : Text) (o : Turn)
      → SameTurn key s o
      → Same key s (status_after host id operation_id o).0
  status_after-Same host id operation_id (err (t, _)) h = h
  status_after-Same host id operation_id (ok t) h = h

  cancel-foreign :
      (host : ServiceHost) (id operation_id : Text) → Same key s (cancel host s id operation_id).0
  unfolding cancel
  cancel-foreign host id operation_id = status_after-Same host id operation_id _ (
      own_record_then host id operation_id _ (λ n r.
        refuse_at key s (not (is_cancelable r.state)) id (codes "NOT_CANCELABLE") s _ refl
          (give_up-Same host id operation_id (codes "CANCELLED") r n)))

  acted-Same :
      (host : ServiceHost) (id operation_id : Text) (r : OperationStateRecord)
      (action : RecoveryAction)
      → (key == operation_id) ≡ false
      → SameTurn key s (act host s id operation_id r action)
  acted-Same host id operation_id r show_diagnostics n = refl
  acted-Same host id operation_id r keep_current n =
      give_up-Same host id operation_id (codes "RECOVERY_DECLINED") r n
  acted-Same host id operation_id r rollback n =
      roll_back-Same host id operation_id
        (schedule_rollback
          (record (host.rollback) {
            loaded = load_state host.codec (s.store operation_id).place operation_id;
          })
          host.now (record { state = r; trace = [] }))
        n

  recover-foreign :
      (host : ServiceHost) (id operation_id : Text) (action : RecoveryAction)
      → SameTurn key s (recover host s id operation_id action)
  unfolding recover
  recover-foreign host id operation_id action = own_record_then host id operation_id _ (λ n r.
      refuse_at key s (r.state != needs_recovery) id (codes "RECOVERY_NOT_REQUIRED") s _ refl
        (acted-Same host id operation_id r action n))

  acknowledge-foreign :
      (host : ServiceHost) (id operation_id : Text) (action : RecoveryAction)
      → Same key s (acknowledge_recovery host s id operation_id action).0
  unfolding acknowledge_recovery
  acknowledge-foreign host id operation_id show_diagnostics = refl
  acknowledge-foreign host id operation_id keep_current =
      status_after-Same host id operation_id (recover host s id operation_id keep_current)
        (recover-foreign host id operation_id keep_current)
  acknowledge-foreign host id operation_id rollback =
      status_after-Same host id operation_id (recover host s id operation_id rollback)
        (recover-foreign host id operation_id rollback)

  dispatch-foreign :
      (host : ServiceHost) (request : Request) → Same key s (dispatch host s request).0
  dispatch-foreign host (Request.check_release v id) = refl
  dispatch-foreign host (Request.read_trust_state v id) = refl
  dispatch-foreign host (Request.read_recovery_readiness v id) = refl
  dispatch-foreign host (Request.inspect v id) = refl
  dispatch-foreign host (Request.plan_update v id) = refl
  dispatch-foreign host (Request.plan_release_upgrade v id hash) = refl
  dispatch-foreign host (Request.start v id o hash confirmed planned) =
      start-foreign host id o hash confirmed planned
  dispatch-foreign host (Request.status v id o since) = refl
  dispatch-foreign host (Request.cancel v id o) = cancel-foreign host id o
  dispatch-foreign host (Request.acknowledge_recovery v id o action) =
      acknowledge-foreign host id o action

gated :
    (key : Text) (s : Service) (a b : Bool) (answer : Response) (other : Response)
    (rest : Service × Response)
    → Same key s rest.0
    → Same key s (if a then (s, answer) else if b then (s, other) else rest).0
gated key s true b answer other rest h = refl
gated key s false true answer other rest h = refl
gated key s false false answer other rest h = h

-- Whatever the request and the host's answers, an operation that exists and is not the caller's keeps
-- its files: its record, its owner, its plan and its events.
pub handle-foreign :
    (host : ServiceHost) (s : Service) (request : Request) (key : Text)
    → exists (s.store key) ≡ true
    → owns s key ≡ false
    → (handle host s request).0.store key ≡ s.store key
unfolding handle
handle-foreign host s request key there other =
    gated key s (not (is_supported request)) (s.read_only && needs_authorization request) _ _
      (dispatch host s request) (dispatch-foreign key s (there, other) host request)
