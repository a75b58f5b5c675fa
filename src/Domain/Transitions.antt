-- ===== src/Domain/Transitions.antt =====
-- What one call of `transition_to` can do (core/src/lib.rs).
use lyraos_desktop_updater.Prelude.{
  nat_eq, option_eq, saturating_add, is_some, text_list_eq, text_eq, Result, ok, err, ℕ, ◌<◌, ◌≡◌,
  subst, ◌≢◌, ◌⊎◌, true, false, none, arith,
}
use lyraos_desktop_updater.Domain.{
  OperationKind, OperationState, idle, checking, available, preflight, planned,
  awaiting_confirmation, downloading, snapshotting, applying, ready_to_reboot, applying_offline,
  awaiting_reboot, verifying_boot, blocked, failed, needs_recovery, completed, OperationStateRecord,
  valid_transition, transition_to, needs_snapshot, state_schema_version, TransitionError,
  unsupported_schema, invalid_transition, snapshot_not_recorded,
}

-- The place of a state on the way to `Completed`.
abbrev pub rank : OperationState → ℕ
rank idle = 0
rank checking = 1
rank available = 2
rank preflight = 3
rank planned = 4
rank awaiting_confirmation = 5
rank downloading = 6
rank snapshotting = 7
rank applying = 8
rank ready_to_reboot = 8
rank applying_offline = 9
rank awaiting_reboot = 10
rank verifying_boot = 11
rank completed = 12
rank blocked = 0
rank failed = 13
rank needs_recovery = 13

-- Every transition goes forward, but for a block, the ways out of a block, and `Failed` again.
pub rank-lt :
    (op : OperationKind) (current next : OperationState)
    → valid_transition op current next ≡ true
    → (next ≡ blocked)
      ⊎ (current ≡ blocked)
      ⊎ ((current ≡ failed) × (next ≡ failed))
      ⊎ (rank current < rank next)
unfolding valid_transition
rank-lt op current next v = ground arith

abbrev pub AcceptsTransition : OperationStateRecord → OperationState → Type 0
AcceptsTransition r next =
    (r.schema_version ≡ state_schema_version)
    × (needs_snapshot next ≡ true → is_some r.snapshot_number ≡ true)
    × (valid_transition r.operation r.state next ≡ true)

-- What each answer of `transition_to` says of the record and the requested state.
abbrev pub Outcome :
    OperationStateRecord → OperationState → Result TransitionError OperationStateRecord → Type 0
Outcome r next (ok r') =
    AcceptsTransition r next
    × (r' ≡ record r { state = next; sequence = saturating_add r.sequence 1 })
Outcome r next (err unsupported_schema) = r.schema_version ≢ state_schema_version
Outcome r next (err snapshot_not_recorded) =
    (r.schema_version ≡ state_schema_version)
    × (needs_snapshot next ≡ true)
    × (r.snapshot_number ≡ none)
Outcome r next (err invalid_transition) =
    (r.schema_version ≡ state_schema_version)
    × (needs_snapshot next ≡ true → is_some r.snapshot_number ≡ true)
    × (valid_transition r.operation r.state next ≡ false)

-- The answer of `transition_to` says exactly which check decided: on success all three passed and
-- only the state and the sequence changed, and each error names the first check that failed.
pub transition_to-Outcome :
    (r : OperationStateRecord) (next : OperationState) → Outcome r next (transition_to r next)
unfolding transition_to
transition_to-Outcome r next = ground arith

pub transition_to-ok :
    (r : OperationStateRecord) (next : OperationState) {r' : OperationStateRecord}
    → transition_to r next ≡ ok r'
    → AcceptsTransition r next
      × (r' ≡ record r { state = next; sequence = saturating_add r.sequence 1 })
transition_to-ok r next h = subst (Outcome r next) h (transition_to-Outcome r next)

pub ok-transition_to :
    (r : OperationStateRecord) (next : OperationState)
    → AcceptsTransition r next
    → transition_to r next ≡ ok (record r { state = next; sequence = saturating_add r.sequence 1 })
unfolding transition_to
ok-transition_to r next a = ground arith
