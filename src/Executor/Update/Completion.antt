-- ===== src/Executor/Update/Completion.antt =====
-- What an execution that ends well leaves, and what is stored of one that fails
-- (service/src/executor.rs and service/src/main.rs).
use lyraos_desktop_updater.Prelude.{
  nat_eq, some_ne_none, option_eq, is_some, is_none, Bool-cases, Option-cases, text_list_eq, Text,
  text_eq, Result, >>=-eq-ok, ok, ◌≡◌, refl, sym, ap, ◌∙◌, subst, ◌⊎◌, inl, inr, Bool, true, not,
  none, some, List, ◌∷◌, arith,
}
use lyraos_desktop_updater.Domain.{awaiting_reboot, completed, OperationState, OperationStateRecord}
use lyraos_desktop_updater.Domain.Transitions.{transition_to-Outcome}
use lyraos_desktop_updater.Persistence.{PersistenceError, validate_state, requires_snapshot}
use lyraos_desktop_updater.Persistence.Validation.{
  IsShaped-kept, IsWellFormed, validate_state-IsWellFormed,
}
use lyraos_desktop_updater.Executor.Update.Reboot.{NeedsReboot, reboot_required-NeedsReboot}
use lyraos_desktop_updater.Executor.{
  StoreEnd, command, refresh, refresh_failed, cancelled, replan_failed, plan_changed, failed_record,
  Effect, stored, notified, Session, ExecutionError, save_state, save, persist, move, failure_state,
  record_failure, stop_if, inventory_failed, stage_failed,
}
use lyraos_desktop_updater.Executor.Update.{
  FreshPlan, plan_differs, UpdateHost, prepare, fetch, take_snapshot, apply_update, rebuild_boot,
  conclude, execute_update, final_state, reboot_required,
}

save_state-validate_state :
    (r : OperationStateRecord) → save_state r true ≡ ok tt → validate_state r ≡ ok tt
unfolding save_state
save_state-validate_state r h = ground arith

pub persist-ok :
    (end : StoreEnd) (s : Session) {s' : Session}
    → persist end s ≡ ok s'
    → (validate_state s'.state ≡ ok tt)
      × (s'.state ≡ s.state)
      × (s'.trace ≡ notified s'.state.state ∷ stored s'.state ∷ s.trace)
unfolding persist save
persist-ok end s h = ground (arith, save_state-validate_state s.state)

pub move-ok :
    (next : OperationState) (s : Session) {s' : Session}
    → move next s ≡ ok s'
    → s'.state.state ≡ next
unfolding move
move-ok next s h = ground (arith, transition_to-Outcome s.state next)

failure_state-requires_snapshot :
    (error : ExecutionError) (has_snapshot : Bool)
    → requires_snapshot (failure_state error has_snapshot) ≡ true
    → has_snapshot ≡ true
unfolding failure_state
failure_state-requires_snapshot error has_snapshot h = ground arith

failed_record-IsWellFormed :
    (error : ExecutionError) (now : Text) (r : OperationStateRecord)
    → r.recovery ≡ none
    → IsWellFormed r
    → IsWellFormed (failed_record error now r)
failed_record-IsWellFormed error now r clear w = record {
  schema = w.schema;
  plan_hash = w.plan_hash;
  manifest_hash = w.manifest_hash;
  snapshot_not_zero = w.snapshot_not_zero;
  snapshot_recorded = failure_state-requires_snapshot error (is_some r.snapshot_number);
  shape = IsShaped-kept r.operation r (failed_record error now r) refl refl refl w.shape;
  goal = λ g has. absurd (some_ne_none (sym has ∙ clear));
}

-- The last step of the execution: the record is moved to its final state and stored.
conclude-ok :
    (w : UpdateHost) (s : Session) {s' : Session}
    → conclude w s ≡ ok s'
    → (t : Session) × (persist w.stored_result t ≡ ok s')
      × (t.state.state ≡ final_state (reboot_required w))
unfolding conclude
conclude-ok w s h =
    let (s, _, h) = >>=-eq-ok (rebuild_boot w s) _ h in
    let (s, _, h) = >>=-eq-ok (stop_if (not w.inventory_captured_after) inventory_failed s) _ h in
    let (s, _, h) = >>=-eq-ok (stop_if (not w.inventory_saved_after) stage_failed s) _ h in
    let (s, _, h) = >>=-eq-ok (stop_if (not w.inventory_kept) inventory_failed s) _ h in
    let (t, moved, h) = >>=-eq-ok (move (final_state (reboot_required w)) s) _ h in
    (t, h, move-ok (final_state (reboot_required w)) s moved)

fetch-ok :
    (w : UpdateHost) (confirmed : Text) (s : Session) {s' : Session}
    → fetch w confirmed s ≡ ok s'
    → (fresh : FreshPlan) × (w.fresh ≡ some fresh) × (fresh.plan_sha256 ≡ confirmed)
unfolding fetch
fetch-ok w confirmed s h =
    let (s, _, h) = >>=-eq-ok (command refresh w.refreshed refresh_failed s) _ h in
    let (s, _, h) = >>=-eq-ok (stop_if w.cancelled_after_refresh cancelled s) _ h in
    let (s, planned, h) = >>=-eq-ok (stop_if (is_none w.fresh) replan_failed s) _ h in
    let (s, same, h) = >>=-eq-ok (stop_if (plan_differs w.fresh confirmed) plan_changed s) _ h in
    elim (Option-cases w.fresh) [
      | inl gone ↦ ground arith
      | inr (fresh, found) ↦ (fresh, found, ground arith)
    ]

-- The final state, as the host asks for a reboot or not.
abbrev pub IsFinal : UpdateHost → FreshPlan → OperationState → Type 0
IsFinal w fresh state =
    ((state ≡ awaiting_reboot) × NeedsReboot w fresh)
    ⊎ ((state ≡ completed) × (¬ NeedsReboot w fresh))

final_state-IsFinal :
    (w : UpdateHost) (fresh : FreshPlan) (state : OperationState)
    → w.fresh ≡ some fresh
    → state ≡ final_state (reboot_required w)
    → IsFinal w fresh state
final_state-IsFinal w fresh state found h =
    let reboot = reboot_required-NeedsReboot w fresh found in
    elim (Bool-cases (reboot_required w)) [
      | inl asked ↦ inl (h ∙ ap final_state asked, reboot.0 asked)
      | inr calm ↦ inr (h ∙ ap final_state calm, λ n. let asked = reboot.1 n in ground arith)
    ]

-- An execution that ends well had the confirmed plan from the host, and leaves a well-formed record.
-- The record is in `AwaitingReboot` if the plan asks for a reboot, the transaction ended with the exit
-- code 102, or a package of the kernel or of the boot changes, and in `Completed` if none of these
-- holds. The last effects are the store of this record and its report to the observer.
pub execute_update-ok :
    (w : UpdateHost) (confirmed : Text) (s : Session) {s' : Session}
    → execute_update w confirmed s ≡ ok s'
    → (fresh : FreshPlan) × (w.fresh ≡ some fresh)
      × (fresh.plan_sha256 ≡ confirmed)
      × IsWellFormed s'.state
      × IsFinal w fresh s'.state.state
      × ((rest : List Effect) × (s'.trace ≡ notified s'.state.state ∷ stored s'.state ∷ rest))
unfolding execute_update
execute_update-ok w confirmed s h =
    let (s, _, h) = >>=-eq-ok (prepare w s) _ h in
    let (t, fetched, h) = >>=-eq-ok (fetch w confirmed s) _ h in
    let (fresh, found, hash) = fetch-ok w confirmed s fetched in
    let (s, _, h) = >>=-eq-ok (take_snapshot w t) _ h in
    let (s, _, h) = >>=-eq-ok (apply_update w s) _ h in
    let (t, stored_result, final) = conclude-ok w s h in
    let (valid, same, trace) = persist-ok w.stored_result t stored_result in
    (
      fresh,
      found,
      hash,
      (validate_state-IsWellFormed _).0 valid,
      final_state-IsFinal w fresh _ found (ap (λ r. r.state) same ∙ final),
      (t.trace, trace),
    )

-- The record that the service's thread stores after an execution that failed is well formed, at
-- whatever step it failed, if the record was and no rollback was on its way.
pub record_failure-IsWellFormed :
    (found : Result PersistenceError OperationStateRecord) (error : ExecutionError) (now : Text)
    (r q : OperationStateRecord)
    → r.recovery ≡ none
    → IsWellFormed r
    → record_failure found error now r ≡ some q
    → IsWellFormed q
unfolding record_failure
record_failure-IsWellFormed found error now r q clear w h =
    let same : failed_record error now r ≡ q = ground arith in
    subst IsWellFormed same (failed_record-IsWellFormed error now r clear w)
