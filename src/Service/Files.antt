-- ===== src/Service/Files.antt =====
-- service/src/main.rs: the files of an operation, its owner, and the service's state.
use lyraos_desktop_updater.Prelude.{
  ltb, if◌then◌else◌, ◌==◌, nat_eq, option_eq, all_at, contains, text_list_eq, bytes, byte_len,
  trim, Text, text_eq, ℕ, zero, suc, ◌+◌, ◌/◌, ◌%◌, ◌^◌, Bool, true, false, not, ◌&&◌, Option, none,
  some, List, [], ◌∷◌, ◌++◌, map, ℕ_discrete,
}
use lyraos_desktop_updater.Release.{ReleaseManifest}
use lyraos_desktop_updater.Manifest.Version.{parse_u64}
use lyraos_desktop_updater.Events.{OperationEvent, EventLog}
use lyraos_desktop_updater.Persistence.{is_lower_hex}
use lyraos_desktop_updater.Persistence.Store.{absent, unreadable, Place}
use lyraos_desktop_updater.Service.{PlannedUpdate}

pub record PendingPlan : Type 0 where
  pub planned : PlannedUpdate
  pub manifest : Option ReleaseManifest

-- The file `owner`: a regular one has its text, if it is one.
pub data OwnerFile : Type 0 where
  missing no_file : OwnerFile
  owned : (text : Option Text) → (size : ℕ) → OwnerFile

-- One operation below the state root: the places of its record, its owner, the pending plan that can be read, the stored events, if they can be read, with the mark
-- of an incomplete history, and whether a failure to write them is marked.
pub record OperationFiles : Type 0 where
  pub place : Place
  pub owner : OwnerFile
  pub pending : Option PendingPlan
  pub history : Option (List OperationEvent × Bool)
  pub write_failure : Bool

-- `events` has the log of an operation that the service has started, `workers` the names of the
-- threads' operations.
pub record Service : Type 0 where
  pub caller_uid : ℕ
  pub read_only : Bool
  pub plans : Text → Option PendingPlan
  pub events : Text → Option EventLog
  pub workers : List Text
  pub store : Text → OperationFiles

abbrev pub set {ℓ} : {A : Type ℓ} → Text → A → (Text → A) → Text → A
set key value map k = if k == key then value else map k

abbrev dash_positions : List ℕ
dash_positions = 8 ∷ 13 ∷ 18 ∷ 23 ∷ []

abbrev operation_id_byte : ℕ → ℕ → Bool
operation_id_byte i c = if contains dash_positions i then c == b'-' else is_lower_hex c

unfoldable pub valid_operation_id : Text → Bool
unfolding byte_len ℕ_discrete
valid_operation_id value = byte_len value == 36 && all_at 0 operation_id_byte (bytes value)

abbrev to_u32 : Option ℕ → Option ℕ
to_u32 none = none
to_u32 (some n) = if ltb n (2 ^ 32) then some n else none

abbrev uid_of : Option Text → Option ℕ
uid_of none = none
uid_of (some text) = to_u32 (parse_u64 (trim text))

abbrev is_uid : OwnerFile → ℕ → Bool
is_uid missing uid = false
is_uid no_file uid = false
is_uid (owned text size) uid = not (ltb 32 size) && uid_of text == some uid

unfoldable pub operation_owned_by : OperationFiles → Text → ℕ → Bool
unfolding trim ℕ_discrete
operation_owned_by files operation_id uid =
    valid_operation_id operation_id && is_uid files.owner uid

abbrev pub owns : Service → Text → Bool
owns s operation_id = operation_owned_by (s.store operation_id) operation_id s.caller_uid

-- The decimal digits of a number, on as many rounds as there may be digits.
abbrev pub decimal_from : ℕ → ℕ → Text → Text
decimal_from zero n out = out
decimal_from (suc k) n out =
    let rest = decimal_from k (n / 10) ((b'0' + n % 10) ∷ out) in
    if ltb n 10 then (b'0' + n) ∷ out else rest

-- `writeln!(file, "{uid}")`: a number of u32 has at most ten digits.
abbrev pub owner_text : ℕ → Text
owner_text uid = decimal_from 10 uid [] ++ 10 ∷ []

-- The file is created; none is a failure before.
unfoldable pub save_operation_owner : Bool → Text → ℕ → OwnerFile → Option OwnerFile
unfolding byte_len
save_operation_owner writable operation_id uid missing =
    if valid_operation_id operation_id && writable
    then some (owned (some (owner_text uid)) (byte_len (owner_text uid)))
    else none
save_operation_owner writable operation_id uid _ = none

-- `symlink_metadata` of the operation's directory succeeds.
abbrev pub exists : OperationFiles → Bool
exists files = elim files.place.operation_dir [ absent ↦ false | unreadable ↦ false | _ ↦ true ]

abbrev pub with_files : Text → OperationFiles → Service → Service
with_files operation_id files s = record s { store = set operation_id files s.store }

abbrev pub with_place : Text → Place → Service → Service
with_place operation_id place s =
    with_files operation_id (record (s.store operation_id) { place = place }) s
