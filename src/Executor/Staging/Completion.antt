-- ===== src/Executor/Staging/Completion.antt =====
-- What a staging that ends well leaves (service/src/executor.rs).
use lyraos_desktop_updater.Prelude.{
  nat_eq, some_ne_none, option_eq, text_list_eq, text_eq, Result, >>=-eq-ok, err, ok, ◌≡◌, refl, ap,
  ◌∙◌, ◌⊎◌, true, Option, none, some, List, ◌∷◌, arith,
}
use lyraos_desktop_updater.Domain.{ready_to_reboot}
use lyraos_desktop_updater.Release.{ReleaseManifest}
use lyraos_desktop_updater.Persistence.Validation.{IsWellFormed, validate_state-IsWellFormed}
use lyraos_desktop_updater.Service.{PlannedUpdate}
use lyraos_desktop_updater.Service.Revalidation.{PlannerError, check_confirmed_release_plan}
use lyraos_desktop_updater.Service.Approved.{IsApproved, check_confirmed_release_plan-IsApproved}
use lyraos_desktop_updater.Executor.Update.{lock_step}
use lyraos_desktop_updater.Executor.{ExecutionError, Effect, stored, notified, Session, move}
use lyraos_desktop_updater.Executor.Update.Completion.{move-ok, persist-ok}
use lyraos_desktop_updater.Executor.Staging.{
  refusal, link_to, no_marker, StageHost, Marker, check_inputs, write_inputs, fetch_packages,
  snapshot_system, link_marker, stage_system_update, make_ready, stage_release_upgrade,
}

-- A link is made where nothing stands, and a link that is there is the operation's.
abbrev IsLinkable : Marker → Type 0
IsLinkable entry = (entry ≡ no_marker) ⊎ (entry ≡ link_to (some true))

link_marker-ok :
    (w : StageHost) (entry : Marker) (s t : Session)
    → link_marker w entry s ≡ ok t
    → IsLinkable entry
link_marker-ok w entry s t h = ground arith

-- A staging that ends well leaves a well-formed record in ReadyToReboot; its last effects are the
-- store of this record and its report to the observer, and /system-update was free or linked to the
-- operation.
pub stage_release_upgrade-ok :
    (w : StageHost) (confirmed : PlannedUpdate) (m : ReleaseManifest) (s t : Session)
    → stage_release_upgrade w confirmed m s ≡ ok t
    → IsWellFormed t.state
      × (t.state.state ≡ ready_to_reboot)
      × ((rest : List Effect) × (t.trace ≡ notified t.state.state ∷ stored t.state ∷ rest))
      × ((w.marker ≡ no_marker) ⊎ (w.marker ≡ link_to (some true)))
unfolding stage_release_upgrade make_ready stage_system_update
stage_release_upgrade-ok w confirmed m s t h =
    let (s, _, h) = >>=-eq-ok (check_inputs w confirmed m s) _ h in
    let (s, _, h) = >>=-eq-ok (write_inputs w m s) _ h in
    let (s, _, h) = >>=-eq-ok (fetch_packages w confirmed m s) _ h in
    let (s, _, h) = >>=-eq-ok (snapshot_system w s) _ h in
    let (u, link, h) = >>=-eq-ok (link_marker w w.marker s) _ h in
    let (v, moved, h) = >>=-eq-ok (move ready_to_reboot u) _ h in
    let (valid, same, trace) = persist-ok w.stored_ready v h in
    (
      (validate_state-IsWellFormed _).0 valid,
      ap (λ r. r.state) same ∙ move-ok ready_to_reboot u moved,
      (v.trace, trace),
      link_marker-ok w w.marker s u link,
    )

refusal-none : (r : Result PlannerError (Unit {0})) → refusal r ≡ none → r ≡ ok tt
refusal-none (ok tt) h = refl
refusal-none (err e) h = absurd (some_ne_none h)

lock_step-ok :
    (failure : Option ExecutionError) (s t : Session)
    → lock_step failure s ≡ ok t
    → (failure ≡ none) × (s ≡ t)
lock_step-ok failure s t h = ground arith

check_inputs-checked :
    (w : StageHost) (confirmed : PlannedUpdate) (m : ReleaseManifest) (s t : Session)
    → check_inputs w confirmed m s ≡ ok t
    → check_confirmed_release_plan w.hashes m confirmed.plan s.state.plan_sha256 ≡ ok tt
unfolding check_inputs
check_inputs-checked w confirmed m s t h = refusal-none _ (ground arith)

-- A staging that ends well was of the manifest's own plan: the confirmed plan has the manifest's
-- operation, source, target and hash, and the hash that the record stores; its changes are exactly
-- the pending entries, if the manifest is of a migration, and each is authorized by the manifest's
-- vendor rules.
pub stage_release_upgrade-IsApproved :
    (w : StageHost) (confirmed : PlannedUpdate) (m : ReleaseManifest) (s t : Session)
    → stage_release_upgrade w confirmed m s ≡ ok t
    → IsApproved w.hashes m confirmed.plan s.state.plan_sha256
unfolding stage_release_upgrade
stage_release_upgrade-IsApproved w confirmed m s t h =
    let (u, inputs, _) = >>=-eq-ok (check_inputs w confirmed m s) _ h in
    check_confirmed_release_plan-IsApproved w.hashes m confirmed.plan s.state.plan_sha256
      (check_inputs-checked w confirmed m s u inputs)
