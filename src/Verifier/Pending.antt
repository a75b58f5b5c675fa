-- ===== src/Verifier/Pending.antt =====
-- verifier/src/pending.rs: the scan of the state directory, and the loop of verifier/src/main.rs over
-- the interrupted operations. What the file system answers for one directory entry is an argument.
pub mod Scan
pub mod Interrupted
use Prim.Native.Nat.{compare, Ordering}
use lyraos_desktop_updater.Prelude.{
  ltb, leb, if◌then◌else◌, Eq, ◌==◌, ◌!=◌, nat_eq, option_dec, option_eq, saturating_add, is_some,
  length, first, take, Text-discrete, text_list_eq, Text, codes, text_eq, Result, ok, err, sort_by,
  compare_text, then_by, ℕ, ◌+◌, ◌-◌, ◌/◌, ◌%◌, Bool, true, false, ◌&&◌, ◌||◌, Option, none, some,
  List, [], ◌∷◌, ◌++◌, arith, ℕ_discrete,
}
use lyraos_desktop_updater.Domain.{
  OperationState, downloading, snapshotting, applying, ready_to_reboot, applying_offline,
  awaiting_reboot, verifying_boot, failed, needs_recovery, state_eq, OperationState-discrete,
  OperationStateRecord,
}
use lyraos_desktop_updater.Persistence.{PersistenceError}

abbrev hex_digit : ℕ → ℕ
hex_digit n = if ltb n 10 then b'0' + n else b'a' + (n - 10)

-- `u8::escape_ascii`
unfoldable pub escape_ascii : ℕ → List ℕ
unfolding ℕ_discrete
escape_ascii b =
    if b == 9
    then b'\\' ∷ b't' ∷ []
    else if b == 13
    then b'\\' ∷ b'r' ∷ []
    else if b == 10
    then b'\\' ∷ b'n' ∷ []
    else if b == 39 || b == 34 || b == 92
    then 92 ∷ b ∷ []
    else if leb 0x20 b && leb b 0x7e
    then b ∷ []
    else 92 ∷ b'x' ∷ hex_digit (b / 16) ∷ hex_digit (b % 16) ∷ []

escape_all : List ℕ → List ℕ
escape_all [] = []
escape_all (b ∷ bs) = escape_ascii b ++ escape_all bs

unfoldable pub diagnostic_name : List ℕ → Text
unfolding escape_all escape_ascii
diagnostic_name name =
    escape_all (take 64 name) ++ (if ltb 64 (length name) then codes "..." else [])

-- What the file system says of an entry: the bytes of its name, the name as a text if it is one, its
-- path, whether it is a directory, whether its `state.json` is a regular file, and what `load_state`
-- returns. `none` is an error of the call.
pub record DirEntry : Type 0 where
  pub file_name : List ℕ
  pub operation_id : Option Text
  pub path : Text
  pub is_dir : Option Bool
  pub state_is_file : Option Bool
  pub loaded : Result PersistenceError OperationStateRecord

abbrev pub ReadEntry : Type 0
ReadEntry = Option DirEntry

pub data StateRoot : Type 0 where
  not_found io_error not_a_directory : StateRoot
  listing : List ReadEntry → StateRoot

pub data EntryClass : Type 0 where
  invalid : (name : Text) (reason : Text) → EntryClass
  candidate : Text → OperationStateRecord → EntryClass
  interrupted : OperationStateRecord → EntryClass
  settled : EntryClass

unfoldable pub interrupted_state : OperationState → Option OperationState
interrupted_state downloading = some failed
interrupted_state snapshotting = some needs_recovery
interrupted_state applying = some needs_recovery
interrupted_state applying_offline = some needs_recovery
interrupted_state ready_to_reboot = some needs_recovery
interrupted_state _ = none

abbrev pub awaits_verification : OperationState → Bool
awaits_verification awaiting_reboot = true
awaits_verification verifying_boot = true
awaits_verification _ = false

-- The classification of a loaded record; `marker` is the target of `/system-update`.
unfoldable pub classify_state : Option Text → Text → OperationStateRecord → EntryClass
unfolding OperationState-discrete Text-discrete interrupted_state
classify_state marker path r =
    if awaits_verification r.state
    then candidate path r
    else if r.state != ready_to_reboot && is_some (interrupted_state r.state)
        || r.state == ready_to_reboot && marker != some path
    then interrupted r
    else settled

-- One round of the loop, with its early `continue`s.
unfoldable pub classify : Option Text → ReadEntry → EntryClass
unfolding classify_state diagnostic_name
classify marker none =
    invalid (diagnostic_name (codes "<unreadable-entry>")) (codes "directory-entry-unreadable")
classify marker (some e) =
    let name = diagnostic_name e.file_name in
    elim e.is_dir [
      | none ↦ invalid name (codes "directory-type-unreadable")
      | some false ↦ invalid name (codes "not-an-operation-directory")
      | some true ↦ elim e.operation_id [
        | none ↦ invalid name (codes "non-utf8-operation-id")
        | some _ ↦ elim e.state_is_file [
          | none ↦ invalid name (codes "state-file-unavailable")
          | some false ↦ invalid name (codes "not-a-regular-state-file")
          | some true ↦ elim e.loaded [
            | err _ ↦ invalid name (codes "state-validation-failed")
            | ok r ↦ classify_state marker e.path r
          ]
        ]
      ]
    ]

pub record PendingScan : Type 0 where
  pub operation : Option (Text × OperationStateRecord)
  pub interrupted_records : List OperationStateRecord
  pub invalid_entries : ℕ

unfoldable pub candidates : List EntryClass → List (Text × OperationStateRecord)
candidates [] = []
candidates (candidate path r ∷ cs) = (path, r) ∷ candidates cs
candidates (_ ∷ cs) = candidates cs

unfoldable pub interrupted_of : List EntryClass → List OperationStateRecord
interrupted_of [] = []
interrupted_of (interrupted r ∷ cs) = r ∷ interrupted_of cs
interrupted_of (_ ∷ cs) = interrupted_of cs

-- The calls of `diagnostic`.
unfoldable pub diagnostics : List EntryClass → List (Text × Text)
diagnostics [] = []
diagnostics (invalid name reason ∷ cs) = (name, reason) ∷ diagnostics cs
diagnostics (_ ∷ cs) = diagnostics cs

-- The newest first; of two as new, the one with the smaller identifier.
abbrev pub compare_candidate : Text × OperationStateRecord → Text × OperationStateRecord → Ordering
compare_candidate left right =
    then_by (compare_text right.1.updated_at left.1.updated_at)
      (compare_text left.1.operation_id right.1.operation_id)

unfoldable pub classes : Option Text → List ReadEntry → List EntryClass
unfolding classify
classes marker [] = []
classes marker (e ∷ es) = classify marker e ∷ classes marker es

unfoldable pub scan_entries : Option Text → List ReadEntry → PendingScan
unfolding classes candidates interrupted_of diagnostics sort_by compare_text
scan_entries marker entries =
    let found = classes marker entries in
    record {
      operation = first (sort_by compare_candidate (candidates found));
      interrupted_records = interrupted_of found;
      invalid_entries = length (diagnostics found);
    }

abbrev pub empty_scan : PendingScan
empty_scan = record { operation = none; interrupted_records = []; invalid_entries = 0 }

pub data ScanError : Type 0 where
  io unsafe_root : ScanError

unfoldable pub pending_operation : Option Text → StateRoot → Result ScanError PendingScan
unfolding scan_entries
pending_operation marker not_found = ok empty_scan
pending_operation marker io_error = err io
pending_operation marker not_a_directory = err unsafe_root
pending_operation marker (listing entries) = ok (scan_entries marker entries)

abbrev pub interrupt_as : Option OperationState → OperationStateRecord → Option OperationStateRecord
interrupt_as none r = none
interrupt_as (some s) r = some (record r {
  state = s;
  sequence = saturating_add r.sequence 1;
  error_code = some (codes "OPERATION_INTERRUPTED");
})

-- The record that the verifier stores for an interrupted operation; `none` is the panic of `expect`.
unfoldable pub interrupt : OperationStateRecord → Option OperationStateRecord
interrupt r = interrupt_as (interrupted_state r.state) r
