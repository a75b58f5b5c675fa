-- ===== src/Persistence/Store.antt =====
-- core/src/persistence.rs: save_state and load_state over the paths of one operation.
pub mod Replacement
use lyraos_desktop_updater.Prelude.{
  ltb, leb, if◌then◌else◌, Eq, ◌==◌, ◌!=◌, nat_eq, some_ne_none, some_inj, option_dec, option_eq,
  u64_max, saturating_add, is_some, is_none, is_some_and, is_none_or, Bool-cases, Option-cases,
  ==_iff, ==_refl, is_some_and-eq_false, and_left, and_right, is_none-eq, length, is_empty, first,
  any, all, all_at, keep, take, replicate, any-Memᴰ, any-elim, all-Memᴰ, all_intro, length-append,
  Memᴰ-append_left, Memᴰ-append_right, Memᴰ-append_cases, is_empty-append, is_empty-any,
  any-is_empty, any-append, is_empty-keep, length-keep_iff, contains, contains-Memᴰ, Memᴰ-contains,
  unique, IsDistinct, length-unique-le, IsDistinct-iff, pigeonhole, length-map, all-snoc,
  all_weaken, Text-discrete, text_list_eq, utf8, bytes, byte_len, is_whitespace, is_control, trim,
  trim_start, starts_with, split_once, Text, codes, text_eq, is_ascii_digit, is_ascii_upper,
  is_ascii_lower, is_ascii_alphanumeric, is_ascii_hexdigit, Result, fail_if, ok_or, map_err, is_ok,
  ◌>>=◌, ◌>>◌, >>=-eq-ok, err, ok, compare_text, compare_option, insert_sorted, sort_by, dedup,
  sort_texts, IsLawful, then_by, is_gt, compare_text-IsLawful, compare-IsLawful, then_by-IsLawful,
  key-IsLawful, pair-IsLawful, compare_option-IsLawful, reverse-IsLawful, IsSorted, IsStrict,
  any-sort_by, any-dedup, sort_by-IsSorted, dedup-sort_by-IsStrict, sort_by-perm, perm-sort_by-eq,
  first-sort_by, ℕ, zero, suc, ◌+◌, ◌-◌, ◌*◌, ◌/◌, ◌%◌, ◌^◌, ◌≤◌, ◌<◌, max, min, ◌≡◌, refl, sym, ap,
  ◌∙◌, subst, ◌≢◌, ◌↔◌, ◌⊎◌, inl, inr, Bool, true, false, not, ◌&&◌, ◌||◌, Option, none, some, List,
  [], ◌∷◌, ◌++◌, map, Memᴰ, arith, ℕ_discrete,
}
use lyraos_desktop_updater.Domain.{state_schema_version, OperationStateRecord}
use lyraos_desktop_updater.Persistence.{
  unsupported_schema, validate_state, json, unsafe_path, io, PersistenceError,
  validate_operation_id,
}

-- What stands at a path. A directory belongs to the process or not, and is sticky or not; a file has
-- its bytes. The metadata of an unreadable path cannot be read.
pub data Entry : Type 0 where
  absent unreadable symlink : Entry
  directory : (owned : Bool) → (sticky : Bool) → Entry
  file : List ℕ → Entry

-- The paths that a store of one operation touches: the parents of the root, the nearest one first,
-- the root, the operation's directory and state.json in it.
pub record Place : Type 0 where
  pub parents : List Entry
  pub root : Entry
  pub operation_dir : Entry
  pub state_file : Entry

-- How the write of the file ends: after all steps, or at the step that fails.
pub data WriteEnd : Type 0 where
  completes create_fails body_fails newline_fails sync_fails rename_fails : WriteEnd
  directory_sync_fails : WriteEnd

-- A directory that may have to be made; a parent of the root by the number of those above it.
pub data Made : Type 0 where
  parent : ℕ → Made
  state_root operation_directory : Made

-- The system's answers: whether the root's path has a component `..`, whether a directory is created
-- and its mode set, and how the write ends.
pub record StoreHost : Type 0 where
  pub climbs : Bool
  pub creates : Made → Bool
  pub sets_mode : Made → Bool
  pub write : WriteEnd

-- The codec of the crate serde_json, for records.
pub record Codec : Type 0 where
  pub print : OperationStateRecord → Option (List ℕ)
  pub read : List ℕ → Option OperationStateRecord

unfoldable pub reject_symlink : Entry → Result PersistenceError (Unit {0})
reject_symlink symlink = err unsafe_path
reject_symlink unreadable = err io
reject_symlink _ = ok tt

-- `create_dir` and `set_permissions` for a missing directory.
abbrev make_directory : StoreHost → Made → Result (PersistenceError × Entry) Entry
make_directory host n =
    if not (host.creates n)
    then err (io, absent)
    else if not (host.sets_mode n)
    then err (io, directory true false)
    else ok (directory true false)

unfoldable pub ensure_directory : StoreHost → Made → Entry → Result (PersistenceError × Entry) Entry
ensure_directory host n symlink = err (unsafe_path, symlink)
ensure_directory host n (file content) = err (unsafe_path, file content)
ensure_directory host n unreadable = err (io, unreadable)
ensure_directory host n (directory false sticky) = err (unsafe_path, directory false sticky)
ensure_directory host n (directory true sticky) =
    if host.sets_mode n then ok (directory true false) else err (io, directory true sticky)
ensure_directory host n absent = make_directory host n

abbrev made_below :
    StoreHost
    → Made
    → Result (PersistenceError × List Entry) (List Entry)
    → Result (PersistenceError × List Entry) (List Entry)
made_below host n (err (e, above)) = err (e, absent ∷ above)
made_below host n (ok above) = elim (make_directory host n) [
  | err (e, made) ↦ err (e, made ∷ above)
  | ok made ↦ ok (made ∷ above)
]

-- A missing directory is made once its parent is there.
unfoldable pub ensure_parent_chain :
    StoreHost → List Entry → Result (PersistenceError × List Entry) (List Entry)
ensure_parent_chain host [] = err (unsafe_path, [])
ensure_parent_chain host (symlink ∷ above) = err (unsafe_path, symlink ∷ above)
ensure_parent_chain host (file content ∷ above) = err (unsafe_path, file content ∷ above)
ensure_parent_chain host (unreadable ∷ above) = err (io, unreadable ∷ above)
ensure_parent_chain host (directory owned sticky ∷ above) =
    if not owned && not sticky
    then err (unsafe_path, directory owned sticky ∷ above)
    else ok (directory owned sticky ∷ above)
ensure_parent_chain host (absent ∷ above) =
    made_below host (parent (length above)) (ensure_parent_chain host above)

abbrev pub Stored : Type 0
Stored = Result (PersistenceError × Place) Place

abbrev checked :
    Place → Result PersistenceError (Unit {0}) → Result (PersistenceError × Place) (Unit {0})
checked place result = map_err (λ e. (e, place)) result

abbrev with_parents : Place → Result (PersistenceError × List Entry) (List Entry) → Stored
with_parents place (err (e, parents)) = err (e, record place { parents = parents })
with_parents place (ok parents) = ok (record place { parents = parents })

abbrev with_root : Place → Result (PersistenceError × Entry) Entry → Stored
with_root place (err (e, root)) = err (e, record place { root = root })
with_root place (ok root) = ok (record place { root = root })

abbrev with_operation : Place → Result (PersistenceError × Entry) Entry → Stored
with_operation place (err (e, dir)) = err (e, record place { operation_dir = dir })
with_operation place (ok dir) = ok (record place { operation_dir = dir })

abbrev with_state : Place → Result (PersistenceError × Entry) Entry → Stored
with_state place (err (e, entry)) = err (e, record place { state_file = entry })
with_state place (ok entry) = ok (record place { state_file = entry })

unfoldable pub prepare_parents : StoreHost → Place → Stored
prepare_parents host place =
    if is_empty place.parents
    then ok place
    else with_parents place (ensure_parent_chain host place.parents)

unfoldable pub prepare_root : StoreHost → Place → Stored
prepare_root host place = do
  checked place (fail_if host.climbs unsafe_path)
  checked place (reject_symlink place.root)
  p ← prepare_parents host place
  with_root p (ensure_directory host state_root p.root)

-- `rename` puts the written file in the destination's place, unless that is a directory.
unfoldable pub rename_over : WriteEnd → Entry → List ℕ → Result (PersistenceError × Entry) Entry
rename_over end (directory owned sticky) content = err (io, directory owned sticky)
rename_over directory_sync_fails destination content = err (io, file content)
rename_over end destination content = ok (file content)

abbrev write_bytes : WriteEnd → Entry → Option (List ℕ) → Result (PersistenceError × Entry) Entry
write_bytes end destination none = err (json, destination)
write_bytes create_fails destination (some content) = err (io, destination)
write_bytes body_fails destination (some content) = err (json, destination)
write_bytes newline_fails destination (some content) = err (io, destination)
write_bytes sync_fails destination (some content) = err (io, destination)
write_bytes rename_fails destination (some content) = err (io, destination)
write_bytes end destination (some content) = rename_over end destination (content ++ 10 ∷ [])

abbrev is_create : WriteEnd → Bool
is_create create_fails = true
is_create _ = false

-- The file is written under another name, which is taken away when a step fails.
unfoldable pub write_and_replace :
    Codec → WriteEnd → OperationStateRecord → Entry → Result (PersistenceError × Entry) Entry
unfolding rename_over
write_and_replace codec end r destination =
    if is_create end then err (io, destination) else write_bytes end destination (codec.print r)

unfoldable pub save_state : StoreHost → Codec → Place → OperationStateRecord → Stored
save_state host codec place r = do
  checked place (validate_operation_id r.operation_id)
  checked place (validate_state r)
  p ← prepare_root host place
  q ← with_operation p (ensure_directory host operation_directory p.operation_dir)
  checked q (reject_symlink q.state_file)
  with_state q (write_and_replace codec host.write r q.state_file)

-- Opening and reading a file.
unfoldable pub read_record : Codec → Entry → Result PersistenceError OperationStateRecord
read_record codec (file content) = ok_or (codec.read content) json
read_record codec (directory owned sticky) = err json
read_record codec _ = err io

unfoldable pub load_state : Codec → Place → Text → Result PersistenceError OperationStateRecord
unfolding ℕ_discrete Text-discrete
load_state codec place operation_id = do
  validate_operation_id operation_id
  reject_symlink place.root
  reject_symlink place.operation_dir
  reject_symlink place.state_file
  r ← read_record codec place.state_file
  fail_if (r.schema_version != state_schema_version) unsupported_schema
  fail_if (r.operation_id != operation_id) unsafe_path
  validate_state r
  ok r
