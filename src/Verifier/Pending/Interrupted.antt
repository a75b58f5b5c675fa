-- ===== src/Verifier/Pending/Interrupted.antt =====
-- What the boot makes of an operation that it finds interrupted (verifier/src/main.rs and pending.rs).
use lyraos_desktop_updater.Prelude.{
  nat_eq, some_ne_none, option_eq, saturating_add, is_some, Option-cases, text_list_eq, Text, codes,
  text_eq, err, ◌≡◌, refl, sym, ap, ◌∙◌, subst, ◌≢◌, ◌⊎◌, inl, inr, true, Option, none, some, arith,
}
use lyraos_desktop_updater.Domain.{
  OperationState, snapshotting, needs_recovery, OperationStateRecord, is_terminal,
}
use lyraos_desktop_updater.Persistence.{
  may_have_goal, invalid_state, validate_state, requires_snapshot,
}
use lyraos_desktop_updater.Persistence.Validation.{IsWellFormed, IsShaped-kept}
use lyraos_desktop_updater.Verifier.Pending.{
  interrupted, interrupted_state, classify_state, interrupt_as, interrupt,
}

interrupted_lem :
    (marker : Option Text) (path : Text) (r s : OperationStateRecord)
    → classify_state marker path r ≡ interrupted s
    → (s ≡ r) × (is_some (interrupted_state r.state) ≡ true)
unfolding classify_state
interrupted_lem marker path r s h = ground arith

interrupted_state-is_terminal :
    (s next : OperationState) → interrupted_state s ≡ some next → is_terminal next ≡ true
unfolding interrupted_state
interrupted_state-is_terminal s next e = ground arith

abbrev stored_as : OperationStateRecord → OperationState → OperationStateRecord
stored_as r next = record r {
  state = next;
  sequence = saturating_add r.sequence 1;
  error_code = some (codes "OPERATION_INTERRUPTED");
}

-- Every operation that the scan lists as interrupted has a state to be stored: the `expect` of the
-- loop never panics, and the operation ends in a terminal state.
pub interrupt_total :
    (marker : Option Text) (path : Text) (r s : OperationStateRecord)
    → classify_state marker path r ≡ interrupted s
    → (r' : OperationStateRecord) × (interrupt s ≡ some r') × (is_terminal r'.state ≡ true)
unfolding interrupt
interrupt_total marker path r s h =
    let (same, known) = interrupted_lem marker path r s h in
    elim (Option-cases (interrupted_state r.state)) [
      | inl e ↦ absurd (cc)
      | inr (next, e) ↦ rw same (
        stored_as r next,
        ap (λ o. interrupt_as o r) e,
        interrupted_state-is_terminal r.state next e,
      )
    ]

snapshot_kept :
    (r : OperationStateRecord) (s : OperationState)
    → IsWellFormed r
    → interrupted_state r.state ≡ some s
    → (r.state ≢ snapshotting) ⊎ (is_some r.snapshot_number ≡ true)
    → requires_snapshot s ≡ true
    → is_some r.snapshot_number ≡ true
unfolding interrupted_state
snapshot_kept r s w e h q = ground (arith, w.snapshot_recorded)

misplaced :
    (current s : OperationState)
    → interrupted_state current ≡ some s
    → may_have_goal current ≡ true
    → ⊥
unfolding interrupted_state
misplaced current s e h = ground arith

no_goal :
    (r : OperationStateRecord) (s : OperationState)
    → IsWellFormed r
    → interrupted_state r.state ≡ some s
    → r.recovery ≡ none
no_goal r s w e = elim (Option-cases r.recovery) [
  | inl none_set ↦ none_set
  | inr (g, has) ↦ absurd (misplaced r.state s e (w.goal g has).placed)
]

-- The stored record of an interrupted operation is well formed, if the interruption did not fall
-- between `Snapshotting` and the record of the snapshot's number.
pub interrupt-IsWellFormed :
    (r r' : OperationStateRecord)
    → IsWellFormed r
    → interrupt r ≡ some r'
    → (r.state ≢ snapshotting) ⊎ (is_some r.snapshot_number ≡ true)
    → IsWellFormed r'
unfolding interrupt
interrupt-IsWellFormed r r' w e h = elim (Option-cases (interrupted_state r.state)) [
  | inl unknown ↦ absurd (cc)
  | inr (next, known) ↦
      let stored : r' ≡ stored_as r next = cc in
      subst IsWellFormed (sym stored) (record {
        schema = w.schema;
        plan_hash = w.plan_hash;
        manifest_hash = w.manifest_hash;
        snapshot_not_zero = w.snapshot_not_zero;
        snapshot_recorded = snapshot_kept r next w known h;
        shape = IsShaped-kept r.operation r (stored_as r next) refl refl refl w.shape;
        goal = λ g has. absurd (some_ne_none (sym has ∙ no_goal r next w known));
      })
]

refused :
    (r : OperationStateRecord)
    → r.schema_version ≡ 1
    → r.recovery ≡ none
    → r.snapshot_number ≡ none
    → validate_state (stored_as r needs_recovery) ≡ err invalid_state
unfolding validate_state
refused r schema clear n = ground arith

-- An operation that was interrupted in `Snapshotting` before its snapshot's number was recorded cannot
-- be stored by the verifier: `validate_state` refuses the record that it makes of it.
pub interrupt_refused :
    (r : OperationStateRecord)
    → IsWellFormed r
    → r.state ≡ snapshotting
    → r.snapshot_number ≡ none
    → (r' : OperationStateRecord) × (interrupt r ≡ some r')
      × (validate_state r' ≡ err invalid_state)
unfolding interrupt interrupted_state
interrupt_refused r w s n =
    let clear = no_goal r needs_recovery w (rw s) in
    (stored_as r needs_recovery, rw s, refused r (w.schema) clear n)
