-- ===== src/Executor/Staging.antt =====
-- service/src/executor.rs: `stage_release_upgrade` and `stage_system_update`. What the host answers in
-- their steps is one record.
pub mod Guard
pub mod Completion
use lyraos_desktop_updater.Prelude.{
  ltb, leb, if◌then◌else◌, Eq, ◌==◌, ◌!=◌, nat_eq, some_ne_none, some_inj, option_dec, option_eq,
  u64_max, saturating_add, is_some, is_none, is_some_and, is_none_or, Bool-cases, Option-cases,
  ==_iff, ==_refl, is_some_and-eq_false, and_left, and_right, is_none-eq, length, is_empty, first,
  any, all, all_at, keep, take, replicate, any-Memᴰ, any-elim, all-Memᴰ, all_intro, length-append,
  Memᴰ-append_left, Memᴰ-append_right, Memᴰ-append_cases, is_empty-append, is_empty-any,
  any-is_empty, any-append, is_empty-keep, length-keep_iff, contains, contains-Memᴰ, Memᴰ-contains,
  unique, IsDistinct, length-unique-le, IsDistinct-iff, pigeonhole, length-map, all-snoc,
  all_weaken, Text-discrete, text_list_eq, utf8, bytes, byte_len, is_whitespace, is_control, trim,
  trim_start, starts_with, split_once, Text, codes, text_eq, is_ascii_digit, is_ascii_upper,
  is_ascii_lower, is_ascii_alphanumeric, is_ascii_hexdigit, Result, fail_if, ok_or, map_err, is_ok,
  ◌>>=◌, ◌>>◌, >>=-eq-ok, err, ok, compare_text, compare_option, insert_sorted, sort_by, dedup,
  sort_texts, IsLawful, then_by, is_gt, compare_text-IsLawful, compare-IsLawful, then_by-IsLawful,
  key-IsLawful, pair-IsLawful, compare_option-IsLawful, reverse-IsLawful, IsSorted, IsStrict,
  any-sort_by, any-dedup, sort_by-IsSorted, dedup-sort_by-IsStrict, sort_by-perm, perm-sort_by-eq,
  first-sort_by, ℕ, zero, suc, ◌+◌, ◌-◌, ◌*◌, ◌/◌, ◌%◌, ◌^◌, ◌≤◌, ◌<◌, max, min, ◌≡◌, refl, sym, ap,
  ◌∙◌, subst, ◌≢◌, ◌↔◌, ◌⊎◌, inl, inr, Bool, true, false, not, ◌&&◌, ◌||◌, Option, none, some, List,
  [], ◌∷◌, ◌++◌, map, Memᴰ, arith, ℕ_discrete,
}
use lyraos_desktop_updater.Domain.{
  ReleaseIdentity-discrete, ready_to_reboot, downloading, snapshotting, OperationKind-discrete,
  kind_eq, release_eq,
}
use lyraos_desktop_updater.Release.{ReleaseManifest, RepositoryTransition, operation}
use lyraos_desktop_updater.Facts.{HostFacts, SolverResult}
use lyraos_desktop_updater.Service.Revalidation.{
  PlannerError, Hashes, check_confirmed_release_plan, revalidate_release_plan,
}
use lyraos_desktop_updater.Service.{ReleaseManifest-discrete, PlannedUpdate, manifest_eq}
use lyraos_desktop_updater.Executor.{
  StoreEnd, download, download_failed, dry_run, replan_failed, plan_changed, cancelled,
  refresh_failed, snapshot_failed, create_snapshot, system_update_exists, refresh, stage_failed,
  repository_key_failed, ExecutionError, Session, Run, linked, with_effect, stop_if, command, save,
  persist, move, parse_snapshot_number,
}
use lyraos_desktop_updater.Executor.Update.{lock_step, record_snapshot}

-- What stands at /system-update: a link has its target, if that can be read, as whether it is the
-- operation's directory.
pub data Marker : Type 0 where
  no_marker unreadable_marker other_marker : Marker
  link_to : (own : Option Bool) → Marker

-- What each step meets, in the order of the steps; an `Option` is the error of a step, if it fails.
pub record StageHost : Type 0 where
  pub lock : Option ExecutionError
  pub hashes : Hashes
  pub verified : Option ReleaseManifest
  pub inventory_saved : Bool
  pub document_written : Bool
  pub signature_written : Bool
  pub directories_made : Bool
  pub key_fetched : RepositoryTransition → Bool
  pub repository_written : RepositoryTransition → Bool
  pub manifest_written : Bool
  pub plan_written : Bool
  pub stored_downloading : StoreEnd
  pub arguments_valid : Bool
  pub refreshed : Bool
  pub cancelled_after_refresh : Bool
  pub plan_arguments : Bool
  pub dry_run_done : Bool
  pub dry_run_found : Result PlannerError (HostFacts × SolverResult)
  pub cancelled_after_dry_run : Bool
  pub download_arguments : Bool
  pub downloaded : Bool
  pub download_found : Result PlannerError (HostFacts × SolverResult)
  pub cancelled_after_download : Bool
  pub payloads_verified : Bool
  pub time_valid : Bool
  pub stored_snapshotting : StoreEnd
  pub snapshot_created : Bool
  pub snapshot_stdout : Text
  pub stored_snapshot : StoreEnd
  pub marker : Marker
  pub marker_linked : Bool
  pub root_synced : Bool
  pub stored_ready : StoreEnd

abbrev pub revalidation_error : PlannerError → ExecutionError
revalidation_error PlannerError.plan_changed = plan_changed
revalidation_error _ = replan_failed

-- `result.map_err(revalidation_error)`, as the error of a step.
abbrev pub refusal : Result PlannerError (Unit {0}) → Option ExecutionError
refusal (ok tt) = none
refusal (err e) = some (revalidation_error e)

-- The proposal in the output of a staged command, and the host's facts beside it.
unfoldable pub revalidate_staged_solver :
    Hashes
    → Result PlannerError (HostFacts × SolverResult)
    → ReleaseManifest
    → PlannedUpdate
    → Text
    → Option ExecutionError
revalidate_staged_solver hashes found m confirmed expected_hash = refusal (do
  (facts, solver) ← found
  revalidate_release_plan hashes facts solver m confirmed.plan expected_hash)

abbrev is_other_manifest : Option ReleaseManifest → ReleaseManifest → Bool
is_other_manifest none m = false
is_other_manifest (some verified) m = verified != m

-- The plan and the manifest are those of the operation, and the manifest is verified again.
unfoldable pub check_inputs : StageHost → PlannedUpdate → ReleaseManifest → Session → Run
unfolding OperationKind-discrete ReleaseIdentity-discrete Text-discrete ReleaseManifest-discrete
check_inputs w confirmed m s = do
  s ← lock_step w.lock s
  s ←
      stop_if
        (s.state.operation != operation m
          || confirmed.plan.target != some m.target
          || confirmed.plan.manifest_sha256 != s.state.manifest_sha256)
        plan_changed s
  s ←
      lock_step
        (refusal (check_confirmed_release_plan w.hashes m confirmed.plan s.state.plan_sha256)) s
  s ← stop_if (is_none w.verified) repository_key_failed s
  stop_if (is_other_manifest w.verified m) plan_changed s

-- The loop over the manifest's repositories: the key, then the repository's file.
abbrev pub write_repositories : StageHost → List RepositoryTransition → Session → Run
write_repositories w [] s = ok s
write_repositories w (repository ∷ repositories) s = do
  s ← stop_if (not (w.key_fetched repository)) repository_key_failed s
  s ← stop_if (not (w.repository_written repository)) stage_failed s
  write_repositories w repositories s

unfoldable pub write_inputs : StageHost → ReleaseManifest → Session → Run
write_inputs w m s = do
  s ← stop_if (not w.inventory_saved) stage_failed s
  s ← stop_if (not w.document_written) stage_failed s
  s ← stop_if (not w.signature_written) stage_failed s
  s ← stop_if (not w.directories_made) stage_failed s
  s ← write_repositories w m.repositories s
  s ← stop_if (not w.manifest_written) stage_failed s
  stop_if (not w.plan_written) stage_failed s

-- The refresh, the dry run and the download, each checked against the confirmed plan.
unfoldable pub fetch_packages : StageHost → PlannedUpdate → ReleaseManifest → Session → Run
fetch_packages w confirmed m s = do
  s ← move downloading s
  s ← persist w.stored_downloading s
  s ← stop_if (not w.arguments_valid) stage_failed s
  s ← command refresh w.refreshed refresh_failed s
  s ← stop_if w.cancelled_after_refresh cancelled s
  s ← stop_if (not w.plan_arguments) replan_failed s
  s ← command dry_run w.dry_run_done download_failed s
  s ←
      lock_step (revalidate_staged_solver w.hashes w.dry_run_found m confirmed s.state.plan_sha256)
        s
  s ← stop_if w.cancelled_after_dry_run cancelled s
  s ← stop_if (not w.download_arguments) replan_failed s
  s ← command download w.downloaded download_failed s
  s ←
      lock_step (revalidate_staged_solver w.hashes w.download_found m confirmed s.state.plan_sha256)
        s
  s ← stop_if w.cancelled_after_download cancelled s
  s ← stop_if (not w.payloads_verified) stage_failed s
  stop_if (not w.time_valid) repository_key_failed s

unfoldable pub snapshot_system : StageHost → Session → Run
snapshot_system w s = do
  s ← move snapshotting s
  s ← persist w.stored_snapshotting s
  s ← command create_snapshot w.snapshot_created snapshot_failed s
  s ← record_snapshot (parse_snapshot_number w.snapshot_stdout) s
  save w.stored_snapshot s

abbrev make_link : StageHost → Session → Run
make_link w s =
    if w.marker_linked
    then stop_if (not w.root_synced) stage_failed (with_effect linked s)
    else err (stage_failed, s)

-- `stage_system_update`: a link that is there already is the operation's own.
abbrev pub link_marker : StageHost → Marker → Session → Run
link_marker w no_marker s = make_link w s
link_marker w unreadable_marker s = err (stage_failed, s)
link_marker w other_marker s = err (system_update_exists, s)
link_marker w (link_to none) s = err (stage_failed, s)
link_marker w (link_to (some false)) s = err (system_update_exists, s)
link_marker w (link_to (some true)) s = ok s

unfoldable pub stage_system_update : StageHost → Session → Run
stage_system_update w s = link_marker w w.marker s

unfoldable pub make_ready : StageHost → Session → Run
make_ready w s = do
  s ← stage_system_update w s
  s ← move ready_to_reboot s
  persist w.stored_ready s

unfoldable pub stage_release_upgrade : StageHost → PlannedUpdate → ReleaseManifest → Session → Run
stage_release_upgrade w confirmed m s = do
  s ← check_inputs w confirmed m s
  s ← write_inputs w m s
  s ← fetch_packages w confirmed m s
  s ← snapshot_system w s
  make_ready w s
