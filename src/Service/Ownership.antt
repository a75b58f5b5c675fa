-- ===== src/Service/Ownership.antt =====
-- The steps of a start leave the files of every other operation as they are (service/src/main.rs).
use lyraos_desktop_updater.Prelude.{
  ◌==◌, ◌!=◌, nat_eq, option_eq, text_list_eq, Text, codes, text_eq, Result, ◌>>=◌, err, ok, ◌≡◌,
  Bool, true, false, not, ◌&&◌, ◌||◌, Option, none, some,
}
use lyraos_desktop_updater.Release.{ReleaseManifest}
use lyraos_desktop_updater.Persistence.{PersistenceError}
use lyraos_desktop_updater.Domain.{
  update_within_release, release_upgrade, package_migration, OperationKind, awaiting_confirmation,
  state_eq, OperationStateRecord,
}
use lyraos_desktop_updater.Persistence.Store.{load_state, save_state, Stored}
use lyraos_desktop_updater.Service.{PlannedUpdate, planned_eq, manifest_eq, plan_eq, Response}
use lyraos_desktop_updater.Service.Files.{
  exists, save_operation_owner, Service, OperationFiles, PendingPlan, with_files,
}
use lyraos_desktop_updater.Service.Reports.{ServiceHost}
use lyraos_desktop_updater.Service.Start.{
  complete_history, initial_record, loaded, or_else, signed_plan, authoritative, accepted_as,
  launch, register, plan_again, Turn, refuse, require, stored_for, create_operation, with_pending,
}

-- The files of one operation are as before.
module _ (key : Text) (s : Service) where
  abbrev pub Same : Service → Type 0
  Same t = t.store key ≡ s.store key

  abbrev pub SameStep {ℓ} : {A : Type ℓ} → Result (Service × Response) A → Type 0
  SameStep (err (t, _)) = Same t
  SameStep (ok _) = Unit

  abbrev pub SameTurn : Turn → Type 0
  SameTurn (err (t, _)) = Same t
  SameTurn (ok t) = Same t

  pub step_then {ℓ} :
      {A : Type ℓ} (o : Result (Service × Response) A) (f : A → Turn)
      → SameStep o
      → ((a : A) → SameTurn (f a))
      → SameTurn (o >>= f)
  step_then (err _) f h k = h
  step_then (ok a) f h k = k a

  pub turn_then :
      (o : Turn) (f : Service → Turn)
      → SameTurn o
      → ((t : Service) → Same t → SameTurn (f t))
      → SameTurn (o >>= f)
  turn_then (err _) f h k = h
  turn_then (ok t) f h k = k t h

  turn_step {ℓ} :
      {A : Type ℓ} (o : Turn) (f : Service → Result (Service × Response) A)
      → SameTurn o
      → ((t : Service) → Same t → SameStep (f t))
      → SameStep (o >>= f)
  turn_step (err _) f h k = h
  turn_step (ok t) f h k = k t h

  refuse-Same :
      (test : Bool) (id error : Text) (t : Service) → Same t → SameTurn (refuse test id error t)
  refuse-Same true id error t h = h
  refuse-Same false id error t h = h

  require-Same {ℓ} :
      {A : Type ℓ} (o : Option A) (id error : Text) (t : Service)
      → Same t
      → SameStep (require o id error t)
  require-Same none id error t h = h
  require-Same (some a) id error t h = tt

  pub refuse_then :
      (test : Bool) (id error : Text) (t : Service) (f : Service → Turn)
      → Same t
      → ((u : Service) → Same u → SameTurn (f u))
      → SameTurn (refuse test id error t >>= f)
  refuse_then true id error t f h k = h
  refuse_then false id error t f h k = k t h

  require_then {ℓ} :
      {A : Type ℓ} (o : Option A) (id error : Text) (t : Service) (f : A → Turn)
      → Same t
      → ((a : A) → SameTurn (f a))
      → SameTurn (require o id error t >>= f)
  require_then none id error t f h k = h
  require_then (some a) id error t f h k = k a

  -- A write of another operation's files.
  pub with_files-Same :
      (operation_id : Text) (files : OperationFiles) (t : Service)
      → (key == operation_id) ≡ false
      → Same t
      → Same (with_files operation_id files t)
  with_files-Same operation_id files t n h = rw n h

  pub stored_for-Same :
      (id operation_id : Text) (t : Service) (o : Stored)
      → (key == operation_id) ≡ false
      → Same t
      → SameTurn (stored_for id operation_id t o)
  stored_for-Same id operation_id t (err (_, place)) n h = with_files-Same operation_id _ t n h
  stored_for-Same id operation_id t (ok place) n h = with_files-Same operation_id _ t n h

  create_operation-Same :
      (host : ServiceHost) (id operation_id : Text) (r : OperationStateRecord)
      (pending : PendingPlan) (t : Service)
      → (key == operation_id) ≡ false
      → Same t
      → SameTurn (create_operation host id operation_id r pending t)
  unfolding create_operation
  create_operation-Same host id operation_id r pending t n h =
      turn_then
        (stored_for id operation_id t
          (save_state host.store host.codec (t.store operation_id).place r))
        _
        (stored_for-Same id operation_id t
          (save_state host.store host.codec (t.store operation_id).place r) n h)
        (λ t h. refuse_then (not host.saves_pending) id (codes "STATE_WRITE_FAILED") t _ h (λ t h.
          let u = with_pending operation_id pending t in
          let k : Same u =
            with_files-Same operation_id (record (t.store operation_id) { pending = some pending })
              t n h in
          require_then
            (save_operation_owner host.saves_owner operation_id u.caller_uid
              (u.store operation_id).owner)
            id (codes "STATE_WRITE_FAILED") u _ k
            (λ owner.
              with_files-Same operation_id (record (u.store operation_id) { owner = owner }) u n
                k)))

  signed_plan-Same :
      (host : ServiceHost) (p : PlannedUpdate) (id : Text) (t : Service)
      (m : Result Text ReleaseManifest)
      → Same t
      → SameStep (signed_plan host p id t m)
  signed_plan-Same host p id t (err error) h = h
  signed_plan-Same host p id t (ok m) h =
      turn_step (refuse (p.manifest != some m) id (codes "MANIFEST_CHANGED") t) _
        (refuse-Same (p.manifest != some m) id (codes "MANIFEST_CHANGED") t h)
        (λ t h. require-Same (host.release_plan m) id (codes "PLAN_CHANGED") t h)

  plan_again-Same :
      (host : ServiceHost) (p : PlannedUpdate) (id : Text) (t : Service) (kind : OperationKind)
      → Same t
      → SameStep (plan_again host p id t kind)
  plan_again-Same host p id t update_within_release h =
      require-Same host.update_plan id (codes "PLAN_CHANGED") t h
  plan_again-Same host p id t release_upgrade h = signed_plan-Same host p id t host.manifest h
  plan_again-Same host p id t package_migration h = signed_plan-Same host p id t host.manifest h

  -- A new operation is not this one.
  pub register-Same :
      (host : ServiceHost) (id operation_id hash : Text) (submitted : PlannedUpdate) (t : Service)
      → (key == operation_id) ≡ false
      → Same t
      → SameTurn (register host id operation_id hash submitted t)
  unfolding register authoritative
  register-Same host id operation_id hash submitted t n h =
      refuse_then (exists (t.store operation_id)) id (codes "OPERATION_NOT_FOUND") t _ h (λ t h.
        step_then (plan_again host submitted id t submitted.plan.operation) _
          (plan_again-Same host submitted id t submitted.plan.operation h)
          (λ own.
            refuse_then (not (own.plan_sha256 == hash && own.plan == submitted.plan)) id
              (codes "PLAN_CHANGED") t _ h
              (λ t h.
                create_operation-Same host id operation_id
                  (initial_record host operation_id hash submitted own)
                  (record { planned = submitted; manifest = own.manifest }) t n h)))

  loaded-Same :
      (id : Text) (t : Service) (o : Result PersistenceError OperationStateRecord)
      → Same t
      → SameStep (loaded id t o)
  loaded-Same id t (err _) h = h
  loaded-Same id t (ok r) h = tt

  pub launch-Same :
      (host : ServiceHost) (id operation_id hash : Text) (submitted : PlannedUpdate) (t : Service)
      → Same t
      → SameTurn (launch host id operation_id hash submitted t)
  unfolding launch
  launch-Same host id operation_id hash submitted t h =
      require_then (or_else (t.plans operation_id) (t.store operation_id).pending) id
        (codes "PLAN_NOT_AVAILABLE") t _ h
        (λ planned.
          refuse_then
            (planned.planned.plan_sha256 != hash
              || planned.planned != submitted
              || planned.manifest != submitted.manifest)
            id (codes "PLAN_HASH_MISMATCH") t _ h
            (λ t h.
              step_then
                (loaded id t (load_state host.codec (t.store operation_id).place operation_id)) _
                (loaded-Same id t (load_state host.codec (t.store operation_id).place operation_id)
                  h)
                (λ r.
                  refuse_then (r.state != awaiting_confirmation) id (codes "INVALID_STATE") t _ h
                    (λ t h.
                      refuse_then (t.store operation_id).write_failure id
                        (codes "EVENT_LOG_WRITE_FAILED") t _ h
                        (λ t h.
                          require_then (complete_history (t.store operation_id).history) id
                            (codes "EVENT_LOG_READ_FAILED") t _ h (λ events. h))))))

  pub accepted-Same :
      (id operation_id : Text) (o : Turn) → SameTurn o → Same (accepted_as id operation_id o).0
  accepted-Same id operation_id (err (t, _)) h = h
  accepted-Same id operation_id (ok t) h = h

  pub refuse_at :
      (test : Bool) (id error : Text) (t : Service) (f : Service → Turn)
      → Same t
      → SameTurn (f t)
      → SameTurn (refuse test id error t >>= f)
  refuse_at true id error t f h k = h
  refuse_at false id error t f h k = k
