-- ===== src/Executor/Staging/Guard.antt =====
-- The link /system-update is made behind a stored snapshot (service/src/executor.rs).
use lyraos_desktop_updater.Prelude.{
  nat_eq, option_eq, is_some, any, text_list_eq, Text, text_eq, Result, ◌>>=◌, err, ok, ◌≡◌, refl,
  subst, Bool, true, false, not, ◌&&◌, ◌||◌, List, [], ◌∷◌, arith,
}
use lyraos_desktop_updater.Release.{ReleaseManifest, RepositoryTransition}
use lyraos_desktop_updater.Service.{PlannedUpdate}
use lyraos_desktop_updater.Domain.{OperationStateRecord, transition_to}
use lyraos_desktop_updater.Persistence.{PersistenceError}
use lyraos_desktop_updater.Executor.Reports.{AsksRecovery, record_failure-AsksRecovery}
use lyraos_desktop_updater.Executor.{
  record_failure, ExecutionError, Effect, stored, linked, Session, Run, save, persist, move,
}
use lyraos_desktop_updater.Executor.Staging.{
  stage_system_update, stage_release_upgrade, write_inputs, make_ready, snapshot_system, StageHost,
  check_inputs, write_repositories, fetch_packages,
}

abbrev pub is_link : Effect → Bool
is_link linked = true
is_link _ = false

-- The store of a record that has the snapshot's number.
abbrev pub is_snapshot_store : Effect → Bool
is_snapshot_store (stored r) = is_some r.snapshot_number
is_snapshot_store _ = false

abbrev pub session_of : Run → Session
session_of (ok s) = s
session_of (err (e, s)) = s

-- Nothing is linked.
abbrev IsUnlinked : Session → Type 0
IsUnlinked s = any is_link s.trace ≡ false

-- Before each link, such a record was stored.
abbrev pub is_guarded : List Effect → Bool
is_guarded [] = true
is_guarded (e ∷ es) = (not (is_link e) || any is_snapshot_store es) && is_guarded es

guarded_without : (es : List Effect) → any is_link es ≡ false → is_guarded es ≡ true
guarded_without [] h = refl
guarded_without (e ∷ es) h = ground (arith, guarded_without es)

-- Each link is behind the store of a snapshot's number, and the record keeps the number once
-- something is linked.
abbrev pub IsCovered : Session → Type 0
IsCovered s =
    (is_guarded s.trace && (not (any is_link s.trace) || is_some s.state.snapshot_number)) ≡ true

check_inputs-IsUnlinked :
    (w : StageHost) (confirmed : PlannedUpdate) (m : ReleaseManifest) (s : Session)
    → IsUnlinked s
    → IsUnlinked (session_of (check_inputs w confirmed m s))
unfolding check_inputs
check_inputs-IsUnlinked w confirmed m s h = ground arith

write_repositories-IsUnlinked :
    (w : StageHost) (repositories : List RepositoryTransition) (s : Session)
    → IsUnlinked s
    → IsUnlinked (session_of (write_repositories w repositories s))
write_repositories-IsUnlinked w [] s h = h
write_repositories-IsUnlinked w (repository ∷ repositories) s h =
    ground (arith, write_repositories-IsUnlinked w repositories s h)

>>=-IsUnlinked :
    (m : Run) (f : Session → Run)
    → IsUnlinked (session_of m)
    → ((s : Session) → IsUnlinked s → IsUnlinked (session_of (f s)))
    → IsUnlinked (session_of (m >>= f))
>>=-IsUnlinked (ok s) f p q = q s p
>>=-IsUnlinked (err (e, s)) f p q = p

fetch_packages-IsUnlinked :
    (w : StageHost) (confirmed : PlannedUpdate) (m : ReleaseManifest) (s : Session)
    → IsUnlinked s
    → IsUnlinked (session_of (fetch_packages w confirmed m s))
unfolding fetch_packages move persist save
fetch_packages-IsUnlinked w confirmed m s h = ground arith

-- A snapshot that is taken is stored with its number.
abbrev IsTaken : Run → Type 0
IsTaken (ok s) =
    (any is_link s.trace ≡ false)
    × (any is_snapshot_store s.trace && is_some s.state.snapshot_number) ≡ true
IsTaken (err (e, s)) = IsUnlinked s

snapshot_system-IsTaken :
    (w : StageHost) (s : Session) → IsUnlinked s → IsTaken (snapshot_system w s)
unfolding snapshot_system move persist save
snapshot_system-IsTaken w s h = ground arith

make_ready-IsCovered :
    (w : StageHost) (s : Session)
    → IsUnlinked s
    → (any is_snapshot_store s.trace && is_some s.state.snapshot_number) ≡ true
    → IsCovered (session_of (make_ready w s))
unfolding make_ready stage_system_update move persist save transition_to
make_ready-IsCovered w s u h = let g = guarded_without s.trace u in ground arith

>>=-IsCovered :
    (m : Run) (f : Session → Run)
    → IsUnlinked (session_of m)
    → ((s : Session) → IsUnlinked s → IsCovered (session_of (f s)))
    → IsCovered (session_of (m >>= f))
>>=-IsCovered (ok s) f p q = q s p
>>=-IsCovered (err (e, s)) f p q = let g = guarded_without s.trace p in ground arith

taken-IsCovered :
    (w : StageHost) (m : Run) → IsTaken m → IsCovered (session_of (m >>= make_ready w))
taken-IsCovered w (ok s) p = make_ready-IsCovered w s p.0 p.1
taken-IsCovered w (err (e, s)) p = let g = guarded_without s.trace p in ground arith

write_inputs-IsUnlinked :
    (w : StageHost) (m : ReleaseManifest) (s : Session)
    → IsUnlinked s
    → IsUnlinked (session_of (write_inputs w m s))
unfolding write_inputs
write_inputs-IsUnlinked w m s h = ground (arith, write_repositories-IsUnlinked w m.repositories s h)

-- From a session without effects, whatever the host answers, and wherever the staging of a signed
-- operation stops, /system-update is linked only behind a successful store of a record with the
-- snapshot's number, and the record that is left then has the number.
pub stage_release_upgrade-IsCovered :
    (w : StageHost) (confirmed : PlannedUpdate) (m : ReleaseManifest) (s : Session)
    → s.trace ≡ []
    → IsCovered (session_of (stage_release_upgrade w confirmed m s))
unfolding stage_release_upgrade
stage_release_upgrade-IsCovered w confirmed m s clean =
    >>=-IsCovered (check_inputs w confirmed m s) _
      (check_inputs-IsUnlinked w confirmed m s (rw clean refl))
      (λ s p. >>=-IsCovered (write_inputs w m s) _ (write_inputs-IsUnlinked w m s p) (λ s p.
        >>=-IsCovered (fetch_packages w confirmed m s) _
          (fetch_packages-IsUnlinked w confirmed m s p)
          (λ s p. taken-IsCovered w (snapshot_system w s) (snapshot_system-IsTaken w s p))))

-- If a staging that starts from a session without effects fails after it has linked /system-update,
-- the record that the service's thread then stores is in `NeedsRecovery`, with the cause of the
-- failure and the snapshot; it stores none exactly when the record that it loads was cancelled.
pub stage_release_upgrade-needs_recovery :
    (w : StageHost) (confirmed : PlannedUpdate) (m : ReleaseManifest) (s s' : Session)
    (e : ExecutionError) (found : Result PersistenceError OperationStateRecord) (now : Text)
    → s.trace ≡ []
    → stage_release_upgrade w confirmed m s ≡ err (e, s')
    → any is_link s'.trace ≡ true
    → AsksRecovery found e s'.state (record_failure found e now s'.state)
stage_release_upgrade-needs_recovery w confirmed m s s' e found now clean h link =
    let covered =
      subst (λ r. IsCovered (session_of r)) h
        (stage_release_upgrade-IsCovered w confirmed m s clean) in
    record_failure-AsksRecovery found e now s'.state (ground arith)
