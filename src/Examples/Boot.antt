-- ===== src/Examples/Boot.antt =====
-- Runs of the verifier: verifier/src/pending.rs and verifier/src/main.rs.
use lyraos_desktop_updater.Prelude.{
  nat_eq, option_eq, text_list_eq, Text, codes, text_eq, ok, err, compare_text, is_gt, ℕ, ◌≤◌, ◌≡◌,
  refl, ◌≢◌, true, false, Option, none, some, [], ◌∷◌, Memᴰ,
}
use lyraos_desktop_updater.Domain.{
  downloading, snapshotting, awaiting_reboot, verifying_boot, completed, OperationStateRecord,
}
use lyraos_desktop_updater.Persistence.{invalid_state, validate_state}
use lyraos_desktop_updater.Persistence.Validation.{IsWellFormed, validate_state-IsWellFormed}
use lyraos_desktop_updater.Release.{ManifestChannelPolicy}
use lyraos_desktop_updater.Manifest.{validate_manifest_route}
use lyraos_desktop_updater.Verifier.Pending.{
  DirEntry, PendingScan, pending_operation, listing, interrupt,
}
use lyraos_desktop_updater.Verifier.Pending.Scan.{pending_operation-finds}
use lyraos_desktop_updater.Verifier.Pending.Interrupted.{interrupt_refused}
use lyraos_desktop_updater.Verifier.Boot.{
  no_fault, after_rename, finalize_verification, persist_sequence, write_sequence, complete,
}
use lyraos_desktop_updater.Verifier.Boot.Outcome.{
  stored, finalize_verification-stored-le, completed_not_replayed,
  finalize_verification-IsWellFormed,
}
use lyraos_desktop_updater.Examples.{operation_id, installed, update_at, upgrade_at}
use lyraos_desktop_updater.Examples.Machine.{accepted, snapshotting_accepted}
use lyraos_desktop_updater.Examples.Signed.{parse_any, route}

abbrev entry_of : OperationStateRecord → DirEntry
entry_of r = record {
  file_name = operation_id;
  operation_id = some operation_id;
  path = codes "/var/lib/lyra-upgrade/operations/a";
  is_dir = some true;
  state_is_file = some true;
  loaded = ok r;
}

abbrev waiting : OperationStateRecord
waiting = update_at awaiting_reboot (some 12)

abbrev verifying : OperationStateRecord
verifying = upgrade_at verifying_boot (some 12)

-- The entry that waits stands behind one that cannot be read.
pending_operation-finds_example :
    (scan : PendingScan) × (chosen : Text × OperationStateRecord) × (pending_operation none
        (listing (none ∷ some (entry_of waiting) ∷ []))
      ≡ ok scan)
    × (scan.operation ≡ some chosen)
    × (is_gt (compare_text waiting.updated_at chosen.1.updated_at) ≡ false)
pending_operation-finds_example =
    pending_operation-finds none (none ∷ some (entry_of waiting) ∷ []) waiting
      (Memᴰ.tail (Memᴰ.head refl)) (refl, refl, refl, refl, refl)

abbrev cut_off : OperationStateRecord
cut_off = update_at downloading none

interrupt_refused_example :
    (r' : OperationStateRecord) × (interrupt (update_at snapshotting none) ≡ some r')
    × (validate_state r' ≡ err invalid_state)
interrupt_refused_example =
    interrupt_refused (update_at snapshotting none)
      ((validate_state-IsWellFormed (update_at snapshotting none)).0 snapshotting_accepted) refl
      refl

finalize_verification-stored-le_example :
    stored (some (some 4))
    ≤ stored (finalize_verification after_rename (some 5) verifying (some (some 4)) true).1
finalize_verification-stored-le_example =
    finalize_verification-stored-le after_rename (some 5) verifying (some (some 4)) true

verification_completes :
    (finalize_verification no_fault (some route.sequence) verifying (some (some 4)) true).0.state
    ≡ completed
unfolding finalize_verification persist_sequence write_sequence complete
verification_completes = refl

completed_not_replayed_example :
    (last : Option ℕ) × ((finalize_verification no_fault
        (some route.sequence)
        verifying
        (some (some 4))
        true).1
      ≡ some last)
    × (validate_manifest_route parse_any route installed last
          (codes "0.3.0")
          ManifestChannelPolicy.stable
        ≢ ok tt)
completed_not_replayed_example =
    completed_not_replayed no_fault route verifying (some (some 4)) true parse_any installed
      (codes "0.3.0") ManifestChannelPolicy.stable refl refl verification_completes

finalize_verification-IsWellFormed_example :
    IsWellFormed (finalize_verification after_rename (some 5) verifying (some (some 4)) true).0
finalize_verification-IsWellFormed_example =
    finalize_verification-IsWellFormed after_rename (some 5) verifying (some (some 4)) true refl
      ((validate_state-IsWellFormed verifying).0 accepted)

abbrev no_code : Option ℕ
no_code = none
