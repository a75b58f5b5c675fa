-- ===== src/Service/Confirmed.antt =====
-- What a started thread has behind it (service/src/main.rs).
use lyraos_desktop_updater.Prelude.{
  if◌then◌else◌, Eq, ◌==◌, ◌!=◌, nat_eq, option_eq, is_some_and, ==_iff, text_list_eq, Text, codes,
  text_eq, Result, ◌>>=◌, >>=-eq-ok, err, ok, ◌≡◌, refl, sym, ap, ◌∙◌, subst, ◌⊎◌, inl, inr, Bool,
  true, false, not, ◌&&◌, ◌||◌, Option, none, some, List, ◌∷◌, arith,
}
use lyraos_desktop_updater.Domain.{OperationStateRecord, awaiting_confirmation, state_eq}
use lyraos_desktop_updater.Persistence.{PersistenceError}
use lyraos_desktop_updater.Persistence.Store.{Place, Stored, load_state, save_state}
use lyraos_desktop_updater.Service.{PlannedUpdate, planned_eq, manifest_eq, plan_eq}
use lyraos_desktop_updater.Service.Files.{
  save_operation_owner, with_place, Service, PendingPlan, owns, exists,
}
use lyraos_desktop_updater.Service.Reports.{ServiceHost}
use lyraos_desktop_updater.Service.Start.{
  complete_history, initial_record, with_pending, or_else, Turn, refuse, require, stored_for,
  start_thread, register, launch, create_operation, loaded, is_consistent, authoritative,
}

refuse-ok :
    (test : Bool) (id error : Text) (s t : Service)
    → refuse test id error s ≡ ok t
    → (test ≡ false) × (t ≡ s)
refuse-ok true id error s t h = cc
refuse-ok false id error s t h = (refl, cc)

refused-ok :
    (test : Bool) (id error : Text) (s t : Service) (f : Service → Turn)
    → (refuse test id error s >>= f) ≡ ok t
    → (test ≡ false) × (f s ≡ ok t)
refused-ok true id error s t f h = cc
refused-ok false id error s t f h = (refl, h)

required-ok {ℓ} :
    {A : Type ℓ} (o : Option A) (id error : Text) (s t : Service) (f : A → Turn)
    → (require o id error s >>= f) ≡ ok t
    → (a : A) × (o ≡ some a) × (f a ≡ ok t)
required-ok none id error s t f h = cc
required-ok (some a) id error s t f h = (a, refl, h)

loaded-ok :
    (id : Text) (s t : Service) (o : Result PersistenceError OperationStateRecord)
    (f : OperationStateRecord → Turn)
    → (loaded id s o >>= f) ≡ ok t
    → (r : OperationStateRecord) × (o ≡ ok r) × (f r ≡ ok t)
loaded-ok id s t (err _) f h = cc
loaded-ok id s t (ok r) f h = (r, refl, h)

stored-ok :
    (id operation_id : Text) (s t : Service) (o : Stored) (f : Service → Turn)
    → (stored_for id operation_id s o >>= f) ≡ ok t
    → (place : Place) × (f (with_place operation_id place s) ≡ ok t)
stored-ok id operation_id s t (err _) f h = cc
stored-ok id operation_id s t (ok place) f h = (place, h)

abbrev workers_of : Service → List Text
workers_of s = s.workers

ok_inj : (s t : Service) → Path Turn (ok t) (ok s) → t ≡ s
ok_inj s t h = cc

create_operation-workers :
    (host : ServiceHost) (id operation_id : Text) (r : OperationStateRecord) (pending : PendingPlan)
    (s t : Service)
    → create_operation host id operation_id r pending s ≡ ok t
    → t.workers ≡ s.workers
unfolding create_operation
create_operation-workers host id operation_id r pending s t h =
    let (place, g) =
      stored-ok id operation_id s t
        (save_state host.store host.codec (s.store operation_id).place r) _ h in
    let u = with_place operation_id place s in
    let (_, k) = refused-ok (not host.saves_pending) id (codes "STATE_WRITE_FAILED") u t _ g in
    let v = with_pending operation_id pending u in
    let (owner, _, e) =
      required-ok
        (save_operation_owner host.saves_owner operation_id v.caller_uid
          (v.store operation_id).owner)
        id (codes "STATE_WRITE_FAILED") v t _ k in
    ap workers_of (ok_inj _ t (sym e))

-- The plan that the service computed itself.
register-workers :
    (host : ServiceHost) (id operation_id hash : Text) (submitted : PlannedUpdate) (s t : Service)
    → register host id operation_id hash submitted s ≡ ok t
    → (exists (s.store operation_id) ≡ false) × (t.workers ≡ s.workers)
unfolding register
register-workers host id operation_id hash submitted s t h =
    let (new, g) =
      refused-ok (exists (s.store operation_id)) id (codes "OPERATION_NOT_FOUND") s t _ h in
    let (own, _, k) = >>=-eq-ok (authoritative host submitted id s) _ g in
    let (_, l) =
      refused-ok (not (own.plan_sha256 == hash && own.plan == submitted.plan)) id
        (codes "PLAN_CHANGED") s t _ k in
    (
      new,
      create_operation-workers host id operation_id
          (initial_record host operation_id hash submitted own)
          (record { planned = submitted; manifest = own.manifest }) s t l,
    )

registered-workers :
    (host : ServiceHost) (id operation_id hash : Text) (submitted : PlannedUpdate) (s t : Service)
    (b : Bool)
    → (if b then ok s else register host id operation_id hash submitted s) ≡ ok t
    → ((b ≡ true) ⊎ (exists (s.store operation_id) ≡ false)) × (t.workers ≡ s.workers)
registered-workers host id operation_id hash submitted s t true h =
    (inl refl, ap workers_of (ok_inj s t (sym h)))
registered-workers host id operation_id hash submitted s t false h =
    let (new, same) = register-workers host id operation_id hash submitted s t h in (inr new, same)

not_other {ℓ} : {A : Type ℓ} ⦃e : Eq A⦄ (a b : A) → (a != b) ≡ false → (a == b) ≡ true
not_other a b h = ground arith

all_equal {ℓ κ μ} :
    {A : Type ℓ} {B : Type κ} {C : Type μ} ⦃e : Eq A⦄ ⦃f : Eq B⦄ ⦃g : Eq C⦄ (a x : A) (b y : B)
    (c z : C)
    → (a != x || b != y || c != z) ≡ false
    → (b == y && c == z) ≡ true
all_equal a x b y c z h = ground arith

-- The thread, and the stored plan, record and history behind it.
abbrev pub IsLaunched : ServiceHost → Text → PlannedUpdate → List Text → Service → Type 0
IsLaunched host operation_id submitted workers t =
    (t.workers ≡ operation_id ∷ workers)
    × (is_some_and (or_else (t.plans operation_id) (t.store operation_id).pending)
          (λ p. p.planned == submitted && p.manifest == submitted.manifest)
        ≡ true)
    × ((t.store operation_id).write_failure ≡ false)
    × ((r : OperationStateRecord) × (load_state host.codec (t.store operation_id).place operation_id
          ≡ ok r)
        × (r.state ≡ awaiting_confirmation))

launch-IsLaunched :
    (host : ServiceHost) (id operation_id hash : Text) (submitted : PlannedUpdate) (s t : Service)
    → launch host id operation_id hash submitted s ≡ ok t
    → IsLaunched host operation_id submitted s.workers t
unfolding launch
launch-IsLaunched host id operation_id hash submitted s t h =
    let (planned, e, h1) =
      required-ok (or_else (s.plans operation_id) (s.store operation_id).pending) id
        (codes "PLAN_NOT_AVAILABLE") s t _ h in
    let (same, h2) =
      refused-ok
        (planned.planned.plan_sha256 != hash
          || planned.planned != submitted
          || planned.manifest != submitted.manifest)
        id (codes "PLAN_HASH_MISMATCH") s t _ h1 in
    let (r, load, h3) =
      loaded-ok id s t (load_state host.codec (s.store operation_id).place operation_id) _ h2 in
    let (awaits, h4) =
      refused-ok (r.state != awaiting_confirmation) id (codes "INVALID_STATE") s t _ h3 in
    let (whole, h5) =
      refused-ok (s.store operation_id).write_failure id (codes "EVENT_LOG_WRITE_FAILED") s t _
        h4 in
    let (events, _, h6) =
      required-ok (complete_history (s.store operation_id).history) id
        (codes "EVENT_LOG_READ_FAILED") s t _ h5 in
    subst (IsLaunched host operation_id submitted s.workers) (sym (ok_inj _ t (sym h6))) (
      refl,
      ap (λ o. is_some_and o (λ p. p.planned == submitted && p.manifest == submitted.manifest)) e
          ∙ all_equal planned.planned.plan_sha256 hash planned.planned submitted planned.manifest
              submitted.manifest same,
      whole,
      (
        r,
        load,
        (==_iff r.state awaiting_confirmation).0 (not_other r.state awaiting_confirmation awaits),
      ),
    )

-- A thread is started only for a confirmed request with a consistent plan, for an operation that is
-- the caller's or new; it is one thread, for this operation, whose stored plan is the submitted one,
-- whose stored record awaits its confirmation, and whose events could be written so far.
pub start_thread-IsLaunched :
    (host : ServiceHost) (s t : Service) (id operation_id hash : Text) (confirmed : Bool)
    (submitted : PlannedUpdate)
    → start_thread host s id operation_id hash confirmed submitted ≡ ok t
    → (confirmed ≡ true)
      × (is_consistent host hash submitted ≡ true)
      × ((owns s operation_id ≡ true) ⊎ (exists (s.store operation_id) ≡ false))
      × IsLaunched host operation_id submitted s.workers t
unfolding start_thread
start_thread-IsLaunched host s t id operation_id hash confirmed submitted h =
    let (c, h1) = refused-ok (not confirmed) id (codes "CONFIRMATION_REQUIRED") s t _ h in
    let (k, h2) =
      refused-ok (not (is_consistent host hash submitted)) id (codes "PLAN_HASH_MISMATCH") s t _
        h1 in
    let (u, e, h3) =
      >>=-eq-ok
        (if owns s operation_id then ok s else register host id operation_id hash submitted s) _
        h2 in
    let (whose, same) =
      registered-workers host id operation_id hash submitted s u (owns s operation_id) e in
    (
      ground arith,
      ground arith,
      whose,
      subst (λ w. IsLaunched host operation_id submitted w t) same
          (launch-IsLaunched host id operation_id hash submitted u t h3),
    )
