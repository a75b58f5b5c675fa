-- ===== src/Executor/Update/Guard.antt =====
-- What holds of the effects of `execute_update`, whether it ends well or not
-- (service/src/executor.rs).
use lyraos_desktop_updater.Prelude.{
  nat_eq, option_eq, is_some, any, text_list_eq, Text, text_eq, Result, ◌>>=◌, err, ok, ◌≡◌, refl,
  Bool, true, false, not, ◌&&◌, ◌||◌, List, [], ◌∷◌, arith,
}
use lyraos_desktop_updater.Domain.{
  OperationState, applying, OperationStateRecord, transition_to, TransitionError,
}
use lyraos_desktop_updater.Executor.{
  StoreEnd, Effect, stored, ran, apply, Session, Run, trace_of, save, persist, move,
}
use lyraos_desktop_updater.Executor.Update.{
  UpdateHost, prepare, fetch, take_snapshot, apply_update, rebuild_boot, conclude, execute_update,
}

abbrev pub is_apply : Effect → Bool
is_apply (ran apply) = true
is_apply _ = false

abbrev is_applying : OperationState → Bool
is_applying applying = true
is_applying _ = false

-- The store of a record in `Applying` that has the snapshot's number.
abbrev pub is_applying_store : Effect → Bool
is_applying_store (stored r) = is_applying r.state && is_some r.snapshot_number
is_applying_store _ = false

-- Before each run of the transaction, such a record was stored.
abbrev pub is_guarded : List Effect → Bool
is_guarded [] = true
is_guarded (e ∷ es) = (not (is_apply e) || any is_applying_store es) && is_guarded es

guarded_without : (es : List Effect) → any is_apply es ≡ false → is_guarded es ≡ true
guarded_without [] h = refl
guarded_without (e ∷ es) h = ground (arith, guarded_without es)

abbrev pub IsUnapplied : List Effect → Type 0
IsUnapplied es = any is_apply es ≡ false

abbrev IsGuarded : List Effect → Type 0
IsGuarded es = is_guarded es ≡ true

move-trace : (next : OperationState) (s : Session) → trace_of (move next s) ≡ s.trace
unfolding move
move-trace next s = ground arith

save-IsUnapplied :
    (end : StoreEnd) (s : Session) → IsUnapplied s.trace → IsUnapplied (trace_of (save end s))
unfolding save
save-IsUnapplied end s h = ground arith

persist-IsUnapplied :
    (end : StoreEnd) (s : Session) → IsUnapplied s.trace → IsUnapplied (trace_of (persist end s))
unfolding persist save
persist-IsUnapplied end s h = ground arith

pub prepare-IsUnapplied :
    (w : UpdateHost) (s : Session) → IsUnapplied s.trace → IsUnapplied (trace_of (prepare w s))
unfolding prepare move persist save
prepare-IsUnapplied w s h = ground arith

pub fetch-IsUnapplied :
    (w : UpdateHost) (confirmed : Text) (s : Session)
    → IsUnapplied s.trace
    → IsUnapplied (trace_of (fetch w confirmed s))
unfolding fetch
fetch-IsUnapplied w confirmed s h = ground arith

pub take_snapshot-IsUnapplied :
    (w : UpdateHost) (s : Session)
    → IsUnapplied s.trace
    → IsUnapplied (trace_of (take_snapshot w s))
unfolding take_snapshot move persist save
take_snapshot-IsUnapplied w s h = ground arith

-- A transition to `Applying` that is made leads to a record that its store guards.
abbrev IsReadyToApply : Result TransitionError OperationStateRecord → Type 0
IsReadyToApply (ok r) = is_applying_store (stored r) ≡ true
IsReadyToApply (err _) = Unit

transition_to-IsReadyToApply :
    (r : OperationStateRecord) → IsReadyToApply (transition_to r applying)
unfolding transition_to
transition_to-IsReadyToApply r = ground arith

-- The transaction runs at the end of this part at most, behind the store of its record.
apply_update-IsGuarded :
    (w : UpdateHost) (s : Session) → IsUnapplied s.trace → IsGuarded (trace_of (apply_update w s))
unfolding apply_update move persist save
apply_update-IsGuarded w s h =
    ground (arith, guarded_without s.trace h, transition_to-IsReadyToApply s.state)

conclude-IsGuarded :
    (w : UpdateHost) (s : Session) → IsGuarded s.trace → IsGuarded (trace_of (conclude w s))
unfolding conclude rebuild_boot move persist save
conclude-IsGuarded w s h = ground arith

-- A first part without the transaction, and a rest that is guarded behind it.
>>=-IsGuarded :
    (m : Run) (f : Session → Run)
    → IsUnapplied (trace_of m)
    → ((s : Session) → IsUnapplied s.trace → IsGuarded (trace_of (f s)))
    → IsGuarded (trace_of (m >>= f))
>>=-IsGuarded (ok s) f p q = q s p
>>=-IsGuarded (err (e, s)) f p q = guarded_without s.trace p

finish-IsGuarded :
    (w : UpdateHost) (m : Run) → IsGuarded (trace_of m) → IsGuarded (trace_of (m >>= conclude w))
finish-IsGuarded w (ok s) p = conclude-IsGuarded w s p
finish-IsGuarded w (err (e, s)) p = p

-- From a session without effects, whatever the host answers, and wherever the execution stops, the
-- transaction has run only behind a successful store of a record in `Applying` with a snapshot's
-- number.
pub execute_update-is_guarded :
    (w : UpdateHost) (confirmed : Text) (s : Session)
    → s.trace ≡ []
    → is_guarded (trace_of (execute_update w confirmed s)) ≡ true
unfolding execute_update
execute_update-is_guarded w confirmed s clean =
    >>=-IsGuarded (prepare w s) _ (prepare-IsUnapplied w s (rw clean)) (λ s p.
      >>=-IsGuarded (fetch w confirmed s) _ (fetch-IsUnapplied w confirmed s p) (λ s p.
        >>=-IsGuarded (take_snapshot w s) _ (take_snapshot-IsUnapplied w s p)
          (λ s p. finish-IsGuarded w (apply_update w s) (apply_update-IsGuarded w s p))))
