-- ===== src/Examples/Machine.antt =====
-- Runs of the state machine of core/src/lib.rs and of the checks of core/src/persistence.rs.
use lyraos_desktop_updater.Prelude.{
  nat_eq, option_eq, text_list_eq, utf8, bytes, byte_len, text_eq, err, ok, ◌≡◌, refl, ◌↔◌, none,
  some, ℕ_discrete,
}
use lyraos_desktop_updater.Domain.{
  downloading, snapshotting, ready_to_reboot, transition_to, snapshot_not_recorded, verifying_boot,
}
use lyraos_desktop_updater.Domain.Transitions.{transition_to-Outcome, Outcome}
use lyraos_desktop_updater.Persistence.{validate_state, is_sha256, operation_shape_is_valid}
use lyraos_desktop_updater.Persistence.Validation.{IsWellFormed, validate_state-IsWellFormed}
use lyraos_desktop_updater.Examples.{update_at, upgrade_at}

refused : transition_to (upgrade_at snapshotting none) ready_to_reboot ≡ err snapshot_not_recorded
unfolding transition_to ℕ_discrete
refused = refl

transition_to-Outcome_example :
    Outcome
      (upgrade_at snapshotting none)
      ready_to_reboot
      (transition_to (upgrade_at snapshotting none) ready_to_reboot)
transition_to-Outcome_example = transition_to-Outcome (upgrade_at snapshotting none) ready_to_reboot

pub accepted : validate_state (upgrade_at verifying_boot (some 12)) ≡ ok tt
unfolding validate_state is_sha256 operation_shape_is_valid byte_len bytes utf8 ℕ_discrete
accepted = refl

pub downloading_accepted : validate_state (update_at downloading none) ≡ ok tt
unfolding validate_state is_sha256 operation_shape_is_valid byte_len bytes utf8 ℕ_discrete
downloading_accepted = refl

pub snapshotting_accepted : validate_state (update_at snapshotting none) ≡ ok tt
unfolding validate_state is_sha256 operation_shape_is_valid byte_len bytes utf8 ℕ_discrete
snapshotting_accepted = refl

validate_state-IsWellFormed_example :
    (validate_state (upgrade_at verifying_boot (some 12)) ≡ ok tt)
    ↔ IsWellFormed (upgrade_at verifying_boot (some 12))
validate_state-IsWellFormed_example =
    validate_state-IsWellFormed (upgrade_at verifying_boot (some 12))
