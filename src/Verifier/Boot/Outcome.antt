-- ===== src/Verifier/Boot/Outcome.antt =====
-- What the verifier stores after a boot, and what it means for the next manifest
-- (verifier/src/main.rs).
use lyraos_desktop_updater.Prelude.{
  nat_eq, option_eq, is_none, Bool-cases, text_list_eq, Text, text_eq, ok, ℕ, ◌≤◌, ◌≡◌, refl, sym,
  subst, ◌≢◌, ◌↔◌, ◌⊎◌, inl, inr, Bool, true, false, ◌&&◌, Option, none, some, arith,
}
use lyraos_desktop_updater.Recovery.{RollbackGoal}
use lyraos_desktop_updater.Domain.{
  verifying_boot, completed, OperationStateRecord, is_signed_offline, ReleaseIdentity,
}
use lyraos_desktop_updater.Persistence.Validation.{IsWellFormed, IsShaped-kept, HasValidGoal}
use lyraos_desktop_updater.Release.{ManifestChannelPolicy, ReleaseManifest}
use lyraos_desktop_updater.Manifest.{Url, validate_manifest_route}
use lyraos_desktop_updater.Manifest.Route.{IsNewer, validate_manifest_route-IsValidRoute}
use lyraos_desktop_updater.Verifier.Boot.{
  SequenceFile, WriteFault, write_sequence, persist_sequence, finish, complete, fail_with,
  finalize_verification, from_status,
}

-- The stored sequence, 0 if there is none.
abbrev pub stored : SequenceFile → ℕ
stored (some (some sequence)) = sequence
stored _ = 0

-- The verifier never lowers the stored sequence, whatever write fails.
pub finalize_verification-stored-le :
    (fault : WriteFault) (manifest_sequence : Option ℕ) (r : OperationStateRecord)
    (file : SequenceFile) (passed : Bool)
    → stored file ≤ stored (finalize_verification fault manifest_sequence r file passed).1
unfolding finalize_verification persist_sequence write_sequence
finalize_verification-stored-le fault manifest_sequence r file passed = ground arith

completed_stores :
    (fault : WriteFault) (sequence : ℕ) (r : OperationStateRecord) (file : SequenceFile)
    (passed : Bool)
    → r.recovery ≡ none
    → is_signed_offline r.operation ≡ true
    → (finalize_verification fault (some sequence) r file passed).0.state ≡ completed
    → (finalize_verification fault (some sequence) r file passed).1 ≡ some (some sequence)
unfolding finalize_verification persist_sequence write_sequence complete fail_with
completed_stores fault sequence r file passed n s h = ground arith

not_newer : (n : ℕ) → IsNewer n (some n) → ⊥
not_newer n h = omega arith

-- Once a signed offline operation is completed, its manifest is not accepted again: against the
-- sequence that the verifier stored, `validate_manifest_route` refuses it on every host and channel.
pub completed_not_replayed :
    (fault : WriteFault) (m : ReleaseManifest) (r : OperationStateRecord) (file : SequenceFile)
    (passed : Bool) (parse_url : Text → Option Url) (installed : ReleaseIdentity) (updater : Text)
    (channel : ManifestChannelPolicy)
    → r.recovery ≡ none
    → is_signed_offline r.operation ≡ true
    → (finalize_verification fault (some m.sequence) r file passed).0.state ≡ completed
    → (last : Option ℕ) × ((finalize_verification fault (some m.sequence) r file passed).1
        ≡ some last)
      × (validate_manifest_route parse_url m installed last updater channel ≢ ok tt)
completed_not_replayed fault m r file passed parse_url installed updater channel n s h = (
  some m.sequence,
  completed_stores fault m.sequence r file passed n s h,
  λ accepted.
      let route =
        (validate_manifest_route-IsValidRoute parse_url m installed _ updater channel).0 accepted in
      absurd (not_newer m.sequence route.newer),
)

-- What completing or failing a verification leaves alone, and where a goal belongs afterwards.
complete-goal :
    (r : OperationStateRecord) (g : RollbackGoal)
    → r.state ≡ verifying_boot
    → HasValidGoal r g
    → HasValidGoal (complete r) g
unfolding complete
complete-goal r g v h = ground (arith, h.bound, h.closed)

fail_with-goal :
    (code : Text) (r : OperationStateRecord) (g : RollbackGoal)
    → HasValidGoal r g
    → HasValidGoal (fail_with code r) g
unfolding fail_with
fail_with-goal code r g h = ground (arith, h.bound)

complete-IsWellFormed :
    (r : OperationStateRecord)
    → r.state ≡ verifying_boot
    → IsWellFormed r
    → IsWellFormed (complete r)
unfolding complete
complete-IsWellFormed r v w = record {
  schema = w.schema;
  plan_hash = w.plan_hash;
  manifest_hash = w.manifest_hash;
  snapshot_not_zero = w.snapshot_not_zero;
  snapshot_recorded = λ _. w.snapshot_recorded (ground arith);
  shape = IsShaped-kept r.operation r (complete r) refl refl refl w.shape;
  goal = λ g e. complete-goal r g v (w.goal g e);
}

fail_with-IsWellFormed :
    (code : Text) (r : OperationStateRecord)
    → r.state ≡ verifying_boot
    → IsWellFormed r
    → IsWellFormed (fail_with code r)
unfolding fail_with
fail_with-IsWellFormed code r v w = record {
  schema = w.schema;
  plan_hash = w.plan_hash;
  manifest_hash = w.manifest_hash;
  snapshot_not_zero = w.snapshot_not_zero;
  snapshot_recorded = λ _. w.snapshot_recorded (ground arith);
  shape = IsShaped-kept r.operation r (fail_with code r) refl refl refl w.shape;
  goal = λ g e. fail_with-goal code r g (w.goal g e);
}

finish_cases :
    (r : OperationStateRecord) (written : SequenceFile × Bool)
    → ((finish r written).0 ≡ complete r)
      ⊎ ((code : Text) × ((finish r written).0 ≡ fail_with code r))
finish_cases r (file, true) = inl refl
finish_cases r (file, false) = inr (_, refl)

-- The record after the checks is the completed one or a failed one.
finalize_verification-cases :
    (fault : WriteFault) (manifest_sequence : Option ℕ) (r : OperationStateRecord)
    (file : SequenceFile) (passed : Bool)
    → ((finalize_verification fault manifest_sequence r file passed).0 ≡ complete r)
      ⊎ ((code : Text) × ((finalize_verification fault manifest_sequence r file passed).0
            ≡ fail_with code r))
unfolding finalize_verification
finalize_verification-cases fault manifest_sequence r file false = inr (_, refl)
finalize_verification-cases fault manifest_sequence r file true =
    elim (Bool-cases (is_none r.recovery && is_signed_offline r.operation)) [
      | inl e ↦ rw e (finish_cases r (persist_sequence fault manifest_sequence file))
      | inr e ↦ rw e (inl refl)
    ]

-- After the checks of a boot the record is well formed again, whatever they and the writes answer.
pub finalize_verification-IsWellFormed :
    (fault : WriteFault) (manifest_sequence : Option ℕ) (r : OperationStateRecord)
    (file : SequenceFile) (passed : Bool)
    → r.state ≡ verifying_boot
    → IsWellFormed r
    → IsWellFormed (finalize_verification fault manifest_sequence r file passed).0
finalize_verification-IsWellFormed fault manifest_sequence r file passed v w =
    elim (finalize_verification-cases fault manifest_sequence r file passed) [
      | inl e ↦ subst IsWellFormed (sym e) (complete-IsWellFormed r v w)
      | inr (code, e) ↦ subst IsWellFormed (sym e) (fail_with-IsWellFormed code r v w)
    ]

-- The worker's checks have passed exactly when it exits with the code 0: a signal, or a missing or an
-- unknown code, is a failure.
pub from_status-none_iff :
    (code signal : Option ℕ) → (from_status code signal ≡ none) ↔ (code ≡ some 0)
unfolding from_status
from_status-none_iff (some c) signal = (λ h. ground arith, λ h. ground arith)
from_status-none_iff none (some s) = (λ h. ground arith, λ h. ground arith)
from_status-none_iff none none = (λ h. ground arith, λ h. ground arith)
