-- ===== src/Executor/Update.antt =====
-- service/src/executor.rs: `execute_update`. What the host answers in its steps is one record.
pub mod Guard
pub mod Failure
pub mod Reboot
pub mod Completion
use lyraos_desktop_updater.Prelude.{
  ltb, leb, if◌then◌else◌, Eq, ◌==◌, ◌!=◌, nat_eq, some_ne_none, some_inj, option_dec, option_eq,
  u64_max, saturating_add, is_some, is_none, is_some_and, is_none_or, Bool-cases, Option-cases,
  ==_iff, ==_refl, is_some_and-eq_false, and_left, and_right, is_none-eq, length, is_empty, first,
  any, all, all_at, keep, take, replicate, any-Memᴰ, any-elim, all-Memᴰ, all_intro, length-append,
  Memᴰ-append_left, Memᴰ-append_right, Memᴰ-append_cases, is_empty-append, is_empty-any,
  any-is_empty, any-append, is_empty-keep, length-keep_iff, contains, contains-Memᴰ, Memᴰ-contains,
  unique, IsDistinct, length-unique-le, IsDistinct-iff, pigeonhole, length-map, all-snoc,
  all_weaken, Text-discrete, text_list_eq, utf8, bytes, byte_len, is_whitespace, is_control, trim,
  trim_start, starts_with, split_once, Text, codes, text_eq, is_ascii_digit, is_ascii_upper,
  is_ascii_lower, is_ascii_alphanumeric, is_ascii_hexdigit, Result, fail_if, ok_or, map_err, is_ok,
  ◌>>=◌, ◌>>◌, >>=-eq-ok, err, ok, compare_text, compare_option, insert_sorted, sort_by, dedup,
  sort_texts, IsLawful, then_by, is_gt, compare_text-IsLawful, compare-IsLawful, then_by-IsLawful,
  key-IsLawful, pair-IsLawful, compare_option-IsLawful, reverse-IsLawful, IsSorted, IsStrict,
  any-sort_by, any-dedup, sort_by-IsSorted, dedup-sort_by-IsStrict, sort_by-perm, perm-sort_by-eq,
  first-sort_by, ℕ, zero, suc, ◌+◌, ◌-◌, ◌*◌, ◌/◌, ◌%◌, ◌^◌, ◌≤◌, ◌<◌, max, min, ◌≡◌, refl, sym, ap,
  ◌∙◌, subst, ◌≢◌, ◌↔◌, ◌⊎◌, inl, inr, Bool, true, false, not, ◌&&◌, ◌||◌, Option, none, some, List,
  [], ◌∷◌, ◌++◌, map, Memᴰ, arith, ℕ_discrete,
}
use lyraos_desktop_updater.Domain.{
  downloading, snapshotting, applying, awaiting_reboot, completed, OperationState,
  OperationStateRecord,
}
use lyraos_desktop_updater.Facts.{PackageChange}
use lyraos_desktop_updater.Executor.{
  StoreEnd, ExecutionError, plan_changed, refresh_failed, replan_failed, download_failed,
  snapshot_failed, invalid_snapshot, apply_failed, package_manager_restart, initramfs_failed,
  grub_failed, stage_failed, cancelled, inventory_failed, Program, refresh, download,
  create_snapshot, apply, regenerate_initramfs, configure_grub, ran, Session, Run, with_effect,
  stop_if, command, save, persist, move, parse_snapshot_number,
}

-- The plan that the host computes after the refresh.
pub record FreshPlan : Type 0 where
  pub plan_sha256 : Text
  pub changes : List PackageChange
  pub reboot_required : Bool

-- What each step meets, in the order of the steps. `lock` is the error of the lock, if it is not
-- taken; `plan_written` and the fields of the inventories say whether their calls succeed; `stored_…`
-- how the write of the record ends.
pub record UpdateHost : Type 0 where
  pub lock : Option ExecutionError
  pub plan_written : Bool
  pub inventory_saved : Bool
  pub stored_downloading : StoreEnd
  pub refreshed : Bool
  pub cancelled_after_refresh : Bool
  pub fresh : Option FreshPlan
  pub downloaded : Bool
  pub cancelled_after_download : Bool
  pub planned_again : Bool
  pub current_sha256 : Option Text
  pub stored_snapshotting : StoreEnd
  pub snapshot_created : Bool
  pub snapshot_stdout : Text
  pub stored_snapshot : StoreEnd
  pub stored_applying : StoreEnd
  pub apply_code : Option ℕ
  pub initramfs_regenerated : Bool
  pub grub_configured : Bool
  pub inventory_captured_after : Bool
  pub inventory_saved_after : Bool
  pub inventory_kept : Bool
  pub stored_result : StoreEnd

abbrev pub lock_step : Option ExecutionError → Session → Run
lock_step none s = ok s
lock_step (some error) s = err (error, s)

-- Up to the record of `Downloading`.
unfoldable pub prepare : UpdateHost → Session → Run
prepare w s = do
  s ← lock_step w.lock s
  s ← stop_if (not w.plan_written) stage_failed s
  s ← stop_if (not w.inventory_saved) stage_failed s
  s ← move downloading s
  persist w.stored_downloading s

abbrev pub plan_differs : Option FreshPlan → Text → Bool
plan_differs none confirmed = false
plan_differs (some fresh) confirmed = fresh.plan_sha256 != confirmed

-- The refresh, the download, and the plan that must stay the confirmed one.
unfoldable pub fetch : UpdateHost → Text → Session → Run
unfolding Text-discrete
fetch w confirmed s = do
  s ← command refresh w.refreshed refresh_failed s
  s ← stop_if w.cancelled_after_refresh cancelled s
  s ← stop_if (is_none w.fresh) replan_failed s
  s ← stop_if (plan_differs w.fresh confirmed) plan_changed s
  s ← command download w.downloaded download_failed s
  s ← stop_if w.cancelled_after_download cancelled s
  s ← stop_if (not w.planned_again) replan_failed s
  stop_if (w.current_sha256 != some confirmed) plan_changed s

abbrev pub record_snapshot : Option ℕ → Session → Run
record_snapshot none s = err (invalid_snapshot, s)
record_snapshot (some n) s =
    let r = s.state in ok (record s { state = record r { snapshot_number = some n } })

unfoldable pub take_snapshot : UpdateHost → Session → Run
take_snapshot w s = do
  s ← move snapshotting s
  s ← persist w.stored_snapshotting s
  s ← command create_snapshot w.snapshot_created snapshot_failed s
  s ← record_snapshot (parse_snapshot_number w.snapshot_stdout) s
  save w.stored_snapshot s

-- `classify_apply_exit` with the error that its result leads to.
unfoldable pub classify_apply_exit : Option ℕ → Option ExecutionError
unfolding ℕ_discrete
classify_apply_exit none = some apply_failed
classify_apply_exit (some code) =
    if code == 0 || code == 102
    then none
    else if code == 103
    then some package_manager_restart
    else some apply_failed

unfoldable pub apply_update : UpdateHost → Session → Run
apply_update w s = do
  s ← move applying s
  s ← persist w.stored_applying s
  lock_step (classify_apply_exit w.apply_code) (with_effect (ran apply) s)

unfoldable pub is_boot_package : Text → Bool
unfolding Text-discrete starts_with
is_boot_package name =
    starts_with name (codes "kernel-")
    || contains (codes "dracut" ∷ codes "shim" ∷ codes "grub2" ∷ codes "grub2-x86_64-efi" ∷ []) name

abbrev pub fresh_changes : Option FreshPlan → List PackageChange
fresh_changes none = []
fresh_changes (some fresh) = fresh.changes

unfoldable pub touches_boot : UpdateHost → Bool
touches_boot w = any (λ change. is_boot_package change.name) (fresh_changes w.fresh)

unfoldable pub reboot_required : UpdateHost → Bool
unfolding ℕ_discrete
reboot_required w =
    is_some_and w.fresh (λ fresh. fresh.reboot_required)
    || w.apply_code == some 102
    || touches_boot w

abbrev pub final_state : Bool → OperationState
final_state true = awaiting_reboot
final_state false = completed

unfoldable pub rebuild_boot : UpdateHost → Session → Run
rebuild_boot w s =
    if touches_boot w
    then (do
      s ← command regenerate_initramfs w.initramfs_regenerated initramfs_failed s
      command configure_grub w.grub_configured grub_failed s)
    else ok s

unfoldable pub conclude : UpdateHost → Session → Run
conclude w s = do
  s ← rebuild_boot w s
  s ← stop_if (not w.inventory_captured_after) inventory_failed s
  s ← stop_if (not w.inventory_saved_after) stage_failed s
  s ← stop_if (not w.inventory_kept) inventory_failed s
  s ← move (final_state (reboot_required w)) s
  persist w.stored_result s

-- The whole of `execute_update`; its outcome's `reboot_required` is the function of that name.
unfoldable pub execute_update : UpdateHost → Text → Session → Run
execute_update w confirmed s = do
  s ← prepare w s
  s ← fetch w confirmed s
  s ← take_snapshot w s
  s ← apply_update w s
  conclude w s
