-- ===== src/Examples/Serving.antt =====
-- Runs of the service and of its store (service/src/main.rs and core/src/persistence.rs).
use lyraos_desktop_updater.Prelude.{
  Eq, ◌!=◌, nat_eq, option_eq, ==_refl, text_list_eq, trim, codes, text_eq, err, ok, ℕ, zero, suc,
  ◌≡◌, refl, sym, ap, ◌⊎◌, Bool, true, false, Option, none, some, List, [], ◌∷◌, ◌++◌, arith,
  ℕ_discrete,
}
use lyraos_desktop_updater.Preflight.Plan.{UpgradePlan}
use lyraos_desktop_updater.Manifest.Version.{parse_digits, parse_u64}
use lyraos_desktop_updater.Persistence.Store.{read_record}
use lyraos_desktop_updater.Service.Files.{set, exists, owns, operation_owned_by, valid_operation_id}
use lyraos_desktop_updater.Events.{restore}
use lyraos_desktop_updater.Service.{planned_eq, manifest_eq}
use lyraos_desktop_updater.Service.Start.{launch}
use lyraos_desktop_updater.Domain.{
  update_within_release, OperationState, OperationStateRecord, awaiting_confirmation, failed,
}
use lyraos_desktop_updater.Persistence.{
  io, validate_operation_id, validate_state, is_sha256, operation_shape_is_valid,
}
use lyraos_desktop_updater.Persistence.Store.{
  directory_sync_fails, prepare_root, reject_symlink, prepare_parents, ensure_parent_chain,
  ensure_directory, write_and_replace, directory, completes, file, Codec, StoreHost, Place, Entry,
  load_state, save_state,
}
use lyraos_desktop_updater.Persistence.Store.Replacement.{
  IsWritten, save_state-load_state, save_state-err,
}
use lyraos_desktop_updater.Service.{
  recovery_readiness, request_id, rejected, PlannedUpdate, Request,
}
use lyraos_desktop_updater.Service.Files.{operation_owned_by, owned, Service, OperationFiles}
use lyraos_desktop_updater.Service.Reports.{ServiceHost}
use lyraos_desktop_updater.Service.Start.{launch, is_consistent, Turn, start_thread}
use lyraos_desktop_updater.Service.Handle.{handle, cancel}
use lyraos_desktop_updater.Service.Authority.{handle-read_only}
use lyraos_desktop_updater.Service.Foreign.{handle-foreign}
use lyraos_desktop_updater.Service.Confirmed.{IsLaunched, start_thread-IsLaunched}
use lyraos_desktop_updater.Service.Cancelled.{cancelled_record, cancel-load_state}
use lyraos_desktop_updater.Examples.{operation_id, update_at, installed}
use lyraos_desktop_updater.Examples.Host.{healthy, proposal_of}
use lyraos_desktop_updater.Examples.Restoring.{ready, now}

abbrev awaiting : OperationStateRecord
awaiting = update_at awaiting_confirmation none

abbrev cancelled : OperationStateRecord
cancelled = cancelled_record now awaiting

-- One byte tells the two records apart.
abbrev print : OperationState → List ℕ
print failed = 1 ∷ []
print _ = 2 ∷ []

abbrev read : List ℕ → Option OperationStateRecord
read (suc zero ∷ _) = some cancelled
read _ = some awaiting

abbrev or_empty : Option (List ℕ) → List ℕ
or_empty none = []
or_empty (some content) = content

abbrev codec : Codec
codec = record { print = λ r. some (print r.state); read = read }

abbrev own_directory : Entry
own_directory = directory true false

abbrev place : Place
place = record {
  parents = own_directory ∷ [];
  root = own_directory;
  operation_dir = own_directory;
  state_file = file (2 ∷ 10 ∷ []);
}

abbrev writable : StoreHost
writable = record { climbs = false; creates = λ n. true; sets_mode = λ n. true; write = completes }

abbrev cancelled_place : Place
cancelled_place = record place { state_file = file (1 ∷ 10 ∷ []) }

stores : save_state writable codec place cancelled ≡ ok cancelled_place
unfolding save_state validate_operation_id validate_state is_sha256 operation_shape_is_valid
    prepare_root reject_symlink prepare_parents ensure_parent_chain ensure_directory
    write_and_replace
stores = refl

save_state-load_state_example :
    load_state codec cancelled_place cancelled.operation_id ≡ ok cancelled
save_state-load_state_example =
    save_state-load_state writable codec place cancelled_place cancelled stores
      (λ content e. ap (λ o. read (or_empty o ++ 10 ∷ [])) (sym e))

-- The new record is in place, and only its directory is not synchronized.
abbrev unsynchronized : StoreHost
unsynchronized = record writable { write = directory_sync_fails }

fails : save_state unsynchronized codec place cancelled ≡ err (io, cancelled_place)
unfolding save_state validate_operation_id validate_state is_sha256 operation_shape_is_valid
    prepare_root reject_symlink prepare_parents ensure_parent_chain ensure_directory
    write_and_replace
fails = refl

save_state-err_example :
    (cancelled_place.state_file ≡ place.state_file)
    ⊎ ((unsynchronized.write ≡ directory_sync_fails)
        × IsWritten codec cancelled cancelled_place.state_file)
save_state-err_example =
    save_state-err unsynchronized codec place cancelled_place cancelled io fails

abbrev pub small_plan : UpgradePlan
small_plan = record {
  schema_version = 1;
  operation = update_within_release;
  source = installed;
  target = none;
  manifest_sha256 = none;
  required_bytes = 100;
  facts = [];
  repositories = [];
  metadata_valid_repositories = [];
  third_party_repositories = [];
  held_packages = [];
  installed_packages = [];
  orphaned_packages = [];
  package_changes = [];
  reboot_required = false;
}

abbrev pub submitted : PlannedUpdate
submitted = record {
  facts = record healthy { repositories = []; installed_packages = []; storage = none };
  solver = proposal_of [];
  preflight = record {
    required_bytes = 100;
    available_bytes = 1000;
    blockers = [];
    third_party_repositories = [];
    held_packages = [];
    orphaned_packages = [];
  };
  plan = small_plan;
  plan_sha256 = codes "ab";
  manifest = none;
}

abbrev pub host : ServiceHost
host = record {
  now = now;
  query = λ request. err (codes "QUERY_UNAVAILABLE");
  last_sequence = some none;
  manifest = err (codes "RELEASE_NOT_AVAILABLE");
  update_plan = some submitted;
  release_plan = λ m. none;
  plan_hash = λ p. some (codes "ab");
  host_answer = λ request. rejected (request_id request) (codes "DISCOVERY_FAILED");
  readiness = λ id. recovery_readiness id true;
  codec = codec;
  store = writable;
  saves_pending = true;
  saves_owner = true;
  rollback = ready;
}

-- The operation of the user 1000.
abbrev files : OperationFiles
files = record {
  place = place;
  owner = owned (some (codes "1000\n")) 5;
  pending = some (record { planned = submitted; manifest = none });
  history = some ([], false);
  write_failure = false;
}

abbrev service_of : ℕ → Bool → Service
service_of uid read_only = record {
  caller_uid = uid;
  read_only = read_only;
  plans = λ id. none;
  events = λ id. none;
  workers = [];
  store = λ id. files;
}

handle-read_only_example :
    (handle host (service_of 1000 true) (Request.cancel 3 (codes "r1") operation_id)).0
    ≡ service_of 1000 true
handle-read_only_example =
    handle-read_only host (service_of 1000 true) (Request.cancel 3 (codes "r1") operation_id) refl

handle-foreign_example :
    (handle host (service_of 1001 false) (Request.cancel 3 (codes "r1") operation_id)).0.store
      operation_id
    ≡ files
unfolding operation_owned_by ℕ_discrete trim parse_u64 parse_digits valid_operation_id
handle-foreign_example =
    handle-foreign host (service_of 1001 false) (Request.cancel 3 (codes "r1") operation_id)
      operation_id refl refl

owner_cancels : owns (service_of 1000 false) operation_id ≡ true
unfolding operation_owned_by ℕ_discrete trim parse_u64 parse_digits valid_operation_id
owner_cancels = refl

loads : load_state codec place operation_id ≡ ok awaiting
unfolding load_state validate_operation_id reject_symlink read_record validate_state is_sha256
    operation_shape_is_valid
loads = refl

cancel-load_state_example :
    load_state codec
      ((cancel host (service_of 1000 false) (codes "r1") operation_id).0.store operation_id).place
      operation_id
    ≡ ok cancelled
cancel-load_state_example =
    cancel-load_state host (service_of 1000 false) (codes "r1") operation_id awaiting
      cancelled_place owner_cancels loads refl stores
      (λ content e. ap (λ o. read (or_empty o ++ 10 ∷ [])) (sym e))

abbrev started : Service
started = record (service_of 1000 false) {
  events = set operation_id (restore []) (λ id. none);
  workers = operation_id ∷ [];
}

abbrev request_of : Turn
request_of =
    start_thread host (service_of 1000 false) (codes "r2") operation_id (codes "ab") true submitted

consistent : is_consistent host (codes "ab") submitted ≡ true
unfolding is_consistent
consistent = refl

same {ℓ} : {A : Type ℓ} ⦃e : Eq A⦄ (a : A) → (a != a) ≡ false
same a = let e = ==_refl a in ground arith

launches :
    launch host (codes "r2") operation_id (codes "ab") submitted (service_of 1000 false)
    ≡ ok started
unfolding launch
launches = rw (same submitted.plan_sha256, same submitted, same submitted.manifest, loads) refl

starts : request_of ≡ ok started
unfolding start_thread
starts = rw (consistent, owner_cancels, launches) refl

start_thread-IsLaunched_example :
    (true ≡ true)
    × (is_consistent host (codes "ab") submitted ≡ true)
    × ((owns (service_of 1000 false) operation_id ≡ true) ⊎ (exists files ≡ false))
    × IsLaunched host operation_id submitted [] started
start_thread-IsLaunched_example =
    start_thread-IsLaunched host (service_of 1000 false) started (codes "r2") operation_id
      (codes "ab") true submitted starts
