-- ===== src/Rollback/Intent.antt =====
-- The order of the writes that schedule a rollback (service/src/recovery.rs).
use lyraos_desktop_updater.Prelude.{
  nat_eq, option_eq, is_some, is_none, is_some_and, any, text_list_eq, Text, text_eq, ◌>>=◌,
  >>=-eq-ok, err, ok, ◌≡◌, ap, subst, ◌⊎◌, inl, inr, Bool, true, false, not, ◌&&◌, ◌||◌, Option,
  none, some, List, [], ◌∷◌, arith,
}
use lyraos_desktop_updater.Recovery.{RollbackGoal}
use lyraos_desktop_updater.Domain.{
  OperationState, needs_recovery, awaiting_reboot, OperationStateRecord,
}
use lyraos_desktop_updater.Persistence.{
  validate_state, validate_operation_id, goal_misplaced, operation_shape_is_valid,
}
use lyraos_desktop_updater.Persistence.Validation.{IsWellFormed, validate_state-IsWellFormed}
use lyraos_desktop_updater.Executor.{StoreEnd, unwritten, unsynchronized, save_state}
use lyraos_desktop_updater.Rollback.{
  replaced, with_failure, RollbackEffect, stored, rolled_back, RollbackSession, Schedule,
  RollbackHost, save, store_intent, check_rollback, check_persistent, check_boot, finish_rollback,
  settle, failed_as, schedule_rollback,
}

abbrev pub effects_of : Schedule → List RollbackEffect
effects_of (ok s) = s.trace
effects_of (err (e, s)) = s.trace

abbrev pub is_rollback : RollbackEffect → Bool
is_rollback rolled_back = true
is_rollback _ = false

abbrev is_open : OperationState → Option RollbackGoal → Bool
is_open needs_recovery (some goal) = is_none goal.boot_snapshot
is_open _ _ = false

-- The store of a record in `NeedsRecovery` with a goal that has no boot snapshot yet.
abbrev pub is_intent : RollbackEffect → Bool
is_intent (stored r) = is_open r.state r.recovery
is_intent _ = false

-- Before each rollback, such a record was stored.
abbrev pub is_prepared : List RollbackEffect → Bool
is_prepared [] = true
is_prepared (e ∷ es) = (not (is_rollback e) || any is_intent es) && is_prepared es

-- The record that has reached the file last.
abbrev pub latest : List RollbackEffect → Option OperationStateRecord
latest [] = none
latest (stored r ∷ es) = some r
latest (replaced r ∷ es) = some r
latest (rolled_back ∷ es) = latest es

-- The part up to the intent runs no rollback, and ends with the store of the intent, if any.
abbrev IntentOutcome : List RollbackEffect → Schedule → Type 0
IntentOutcome before (ok s) =
    (s.trace ≡ stored s.state ∷ before) × (is_open s.state.state s.state.recovery ≡ true)
IntentOutcome before (err (e, s)) = (s.trace ≡ before) ⊎ (s.trace ≡ replaced s.state ∷ before)

store_intent-IntentOutcome :
    (w : RollbackHost) (now : Text) (s : RollbackSession)
    → IntentOutcome s.trace (store_intent w now s)
unfolding store_intent check_rollback check_persistent save
store_intent-IntentOutcome w now s = ground arith

abbrev is_unsynchronized : StoreEnd → Bool
is_unsynchronized unsynchronized = true
is_unsynchronized _ = false

abbrev is_unwritten : StoreEnd → Bool
is_unwritten unwritten = true
is_unwritten _ = false

-- A record whose rollback is scheduled.
abbrev IsScheduled : OperationStateRecord → Type 0
IsScheduled r =
    (validate_state r ≡ ok tt)
    × (validate_operation_id r.operation_id ≡ ok tt)
    × (r.state ≡ awaiting_reboot)
    × (is_some r.recovery ≡ true)

-- The rollback itself comes next, if any, and behind it the store of its goal.
abbrev FinishOutcome : RollbackHost → RollbackSession → Schedule → Type 0
FinishOutcome w s (ok t) = (t.trace ≡ stored t.state ∷ rolled_back ∷ s.trace) × IsScheduled t.state
FinishOutcome w s (err (e, t)) =
    (t.trace ≡ s.trace)
    ⊎ (t.trace ≡ rolled_back ∷ s.trace)
    ⊎ ((t.trace ≡ replaced t.state ∷ rolled_back ∷ s.trace)
        × IsScheduled t.state
        × (is_unsynchronized w.stored_goal ≡ true))

finish_rollback-FinishOutcome :
    (w : RollbackHost) (s : RollbackSession) → FinishOutcome w s (finish_rollback w s)
unfolding finish_rollback check_boot save save_state
finish_rollback-FinishOutcome w s = ground arith

-- What a failed rollback stores leaves the operation in `NeedsRecovery`, and adds no rollback.
abbrev SettleOutcome : List RollbackEffect → Schedule → Type 0
SettleOutcome before (ok s) = ⊥
SettleOutcome before (err (e, s)) =
    (s.trace ≡ before)
    ⊎ (((s.trace ≡ stored s.state ∷ before) ⊎ (s.trace ≡ replaced s.state ∷ before))
        × (s.state.state ≡ needs_recovery))

settle-SettleOutcome :
    (w : RollbackHost) (error : Text) (s : RollbackSession)
    → SettleOutcome s.trace (settle w (err (error, s)))
unfolding save
settle-SettleOutcome w error s = ground arith

-- The failure of a rollback that was scheduled can be stored.
with_failure-save_state :
    (error : Text) (r : OperationStateRecord)
    → IsScheduled r
    → save_state (with_failure error r) true ≡ ok tt
unfolding save_state validate_state goal_misplaced operation_shape_is_valid
with_failure-save_state error r h = ground arith

-- It is stored, unless its write fails before the rename.
abbrev SettledOutcome : RollbackHost → List RollbackEffect → Schedule → Type 0
SettledOutcome w before (ok s) = ⊥
SettledOutcome w before (err (e, s)) =
    ((s.trace ≡ before) × (is_unwritten w.stored_failure ≡ true))
    ⊎ (((s.trace ≡ stored s.state ∷ before) ⊎ (s.trace ≡ replaced s.state ∷ before))
        × (s.state.state ≡ needs_recovery))

settle-SettledOutcome :
    (w : RollbackHost) (error : Text) (s : RollbackSession)
    → IsScheduled s.state
    → SettledOutcome w s.trace (settle w (err (error, s)))
unfolding save
settle-SettledOutcome w error s h = let k = with_failure-save_state error s.state h in ground arith

abbrev is_needs_recovery : OperationState → Bool
is_needs_recovery needs_recovery = true
is_needs_recovery _ = false

-- The record that has reached the file last is in `NeedsRecovery`.
abbrev pub ends_in_recovery : List RollbackEffect → Bool
ends_in_recovery es = is_some_and (latest es) (λ r. is_needs_recovery r.state)

-- The write of the goal has replaced the file, its directory was not synchronised, and the record of
-- this failure could not be written either.
abbrev pub is_lost : RollbackHost → Bool
is_lost w = is_unsynchronized w.stored_goal && is_unwritten w.stored_failure

-- The rollbacks are prepared, and after a failure the record stored last is in `NeedsRecovery`.
abbrev IsSafe : RollbackHost → Schedule → Type 0
IsSafe w (ok s) = is_prepared s.trace ≡ true
IsSafe w (err (e, s)) =
    (is_prepared s.trace ≡ true)
    × (not (any is_rollback s.trace) || ends_in_recovery s.trace || is_lost w ≡ true)

abbrev IsIntended : RollbackSession → Type 0
IsIntended s = (s.trace ≡ stored s.state ∷ []) × (is_open s.state.state s.state.recovery ≡ true)

settle-IsSafe :
    (w : RollbackHost) (s : RollbackSession) (m : Schedule)
    → IsIntended s
    → FinishOutcome w s m
    → IsSafe w (settle w m)
settle-IsSafe w s (ok t) i f = ground arith
settle-IsSafe w s (err (e, t)) i (inl f) = ground (arith, settle-SettleOutcome w e t)
settle-IsSafe w s (err (e, t)) i (inr (inl f)) = ground (arith, settle-SettleOutcome w e t)
settle-IsSafe w s (err (e, t)) i (inr (inr f)) = ground (arith, settle-SettledOutcome w e t f.1)

schedule-IsSafe :
    (w : RollbackHost) (now : Text) (s : RollbackSession) (m : Schedule)
    → s.trace ≡ []
    → IntentOutcome s.trace m
    → IsSafe w (m >>= (λ t. settle w (finish_rollback w t)))
schedule-IsSafe w now s (ok t) clean i =
    settle-IsSafe w t (finish_rollback w t) (ground arith) (finish_rollback-FinishOutcome w t)
schedule-IsSafe w now s (err (e, t)) clean i = ground arith

schedule_rollback-IsSafe :
    (w : RollbackHost) (now : Text) (s : RollbackSession)
    → s.trace ≡ []
    → IsSafe w (schedule_rollback w now s)
unfolding schedule_rollback
schedule_rollback-IsSafe w now s clean =
    schedule-IsSafe w now s (store_intent w now s) clean (store_intent-IntentOutcome w now s)

prepared_lem : (w : RollbackHost) (m : Schedule) → IsSafe w m → is_prepared (effects_of m) ≡ true
prepared_lem w (ok s) h = h
prepared_lem w (err (e, s)) h = h.0

failed_as_lem : (e : Text) (m : Schedule) {s : RollbackSession} → failed_as e m ≡ ok s → ⊥
failed_as_lem e (ok t) h = cc
failed_as_lem e (err x) h = cc

settled_ok : (w : RollbackHost) (m : Schedule) {s : RollbackSession} → settle w m ≡ ok s → m ≡ ok s
settled_ok w (ok t) h = h
settled_ok w (err (e, t)) h = absurd (failed_as_lem e _ h)

-- From a session without effects, whatever the host answers, a rollback of the system has run only
-- behind the store of its intent: a record in `NeedsRecovery` with a goal that has no boot snapshot
-- yet.
pub schedule_rollback-is_prepared :
    (w : RollbackHost) (now : Text) (s : RollbackSession)
    → s.trace ≡ []
    → is_prepared (effects_of (schedule_rollback w now s)) ≡ true
schedule_rollback-is_prepared w now s clean =
    let safe = schedule_rollback-IsSafe w now s clean in
    prepared_lem w (schedule_rollback w now s) safe

-- If a schedule that starts from a session without effects fails after the rollback has run, the
-- record that has reached the file last is in `NeedsRecovery`. The only exception is a schedule whose
-- goal replaced the file before its directory failed to synchronise, and whose failure could then not
-- be written.
pub schedule_rollback-ends_in_recovery :
    (w : RollbackHost) (now : Text) (s : RollbackSession) {e : Text} {s' : RollbackSession}
    → s.trace ≡ []
    → schedule_rollback w now s ≡ err (e, s')
    → any is_rollback s'.trace ≡ true
    → (ends_in_recovery s'.trace ≡ true)
      ⊎ ((w.stored_goal ≡ unsynchronized) × (w.stored_failure ≡ unwritten))
schedule_rollback-ends_in_recovery w now s clean h r =
    let safe = subst (IsSafe w) h (schedule_rollback-IsSafe w now s clean) in ground arith

-- A rollback that is scheduled has stored its record last: it is well formed, in `AwaitingReboot`,
-- and has a goal.
pub schedule_rollback-ok :
    (w : RollbackHost) (now : Text) (s : RollbackSession) {s' : RollbackSession}
    → schedule_rollback w now s ≡ ok s'
    → (latest s'.trace ≡ some s'.state)
      × IsWellFormed s'.state
      × (s'.state.state ≡ awaiting_reboot)
      × (is_some s'.state.recovery ≡ true)
unfolding schedule_rollback
schedule_rollback-ok w now s {s'} h =
    let (t, _, rest) = >>=-eq-ok (store_intent w now s) _ h in
    let f =
      subst (FinishOutcome w t) (settled_ok w (finish_rollback w t) rest)
        (finish_rollback-FinishOutcome w t) in
    (ap latest f.0, (validate_state-IsWellFormed s'.state).0 f.1.0, f.1.2, f.1.3)
