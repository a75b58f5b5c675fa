-- ===== src/Persistence/Store/Replacement.antt =====
-- A store replaces the whole record or none of it, and what it stored is loaded (core/src/persistence.rs).
use lyraos_desktop_updater.Prelude.{
  ◌==◌, ◌!=◌, nat_eq, option_eq, Bool-cases, ==_iff, ==_refl, is_empty, text_list_eq, text_eq,
  Result, fail_if, ◌>>=◌, ◌>>◌, err, ok, ℕ, ◌≡◌, refl, ◌∙◌, subst, ◌⊎◌, inl, inr, true, false,
  Option, none, some, List, [], ◌∷◌, ◌++◌, arith,
}
use lyraos_desktop_updater.Domain.{state_schema_version, OperationStateRecord}
use lyraos_desktop_updater.Persistence.Validation.{validate_state-IsWellFormed}
use lyraos_desktop_updater.Persistence.{
  validate_state, unsafe_path, PersistenceError, validate_operation_id,
}
use lyraos_desktop_updater.Persistence.Store.{
  read_record, operation_directory, load_state, save_state, with_state, with_operation, is_create,
  write_and_replace, rename_over, write_bytes, absent, unreadable, symlink, directory, file,
  create_fails, body_fails, newline_fails, sync_fails, rename_fails, directory_sync_fails,
  completes, WriteEnd, reject_symlink, state_root, file, ensure_parent_chain, directory,
  prepare_root, checked, with_root, ensure_directory, with_parents, make_directory, prepare_parents,
  Place, Stored, StoreHost, Codec, Entry, Made,
}

-- A directory that is there is the process's own.
abbrev IsMade : Result (PersistenceError × Entry) Entry → Type 0
IsMade (err _) = Unit
IsMade (ok entry) = entry ≡ directory true false

make_directory-IsMade : (host : StoreHost) (n : Made) → IsMade (make_directory host n)
make_directory-IsMade host n = ground arith

ensure_directory-IsMade :
    (host : StoreHost) (n : Made) (entry : Entry) → IsMade (ensure_directory host n entry)
unfolding ensure_directory
ensure_directory-IsMade host n absent = make_directory-IsMade host n
ensure_directory-IsMade host n unreadable = tt
ensure_directory-IsMade host n symlink = tt
ensure_directory-IsMade host n (directory false sticky) = tt
ensure_directory-IsMade host n (directory true sticky) = ground arith
ensure_directory-IsMade host n (file content) = tt

-- The record's file is as before.
abbrev Untouched : Place → Stored → Type 0
Untouched place (err (e, p)) = p.state_file ≡ place.state_file
Untouched place (ok p) = (p.state_file ≡ place.state_file) × (p.operation_dir ≡ place.operation_dir)

abbrev HasRoot : Stored → Type 0
HasRoot (err _) = Unit
HasRoot (ok p) = p.root ≡ directory true false

with_parents-Untouched :
    (place : Place) (o : Result (PersistenceError × List Entry) (List Entry))
    → Untouched place (with_parents place o)
with_parents-Untouched place (err _) = refl
with_parents-Untouched place (ok _) = (refl, refl)

prepare_parents-Untouched :
    (host : StoreHost) (place : Place) → Untouched place (prepare_parents host place)
unfolding prepare_parents
prepare_parents-Untouched host place = elim (Bool-cases (is_empty place.parents)) [
  | inl e ↦ rw e (refl, refl)
  | inr e ↦ rw e (with_parents-Untouched place (ensure_parent_chain host place.parents))
]

rooted :
    (place p : Place) (o : Result (PersistenceError × Entry) Entry)
    → (p.state_file ≡ place.state_file) × (p.operation_dir ≡ place.operation_dir)
    → IsMade o
    → Untouched place (with_root p o) × HasRoot (with_root p o)
rooted place p (err _) h m = (h.0, tt)
rooted place p (ok _) h m = (h, m)

with_prepared :
    (host : StoreHost) (place : Place) (o : Stored)
    → Untouched place o
    → Untouched place (o >>= (λ p. with_root p (ensure_directory host state_root p.root)))
      × HasRoot (o >>= (λ p. with_root p (ensure_directory host state_root p.root)))
with_prepared host place (err _) h = (h, tt)
with_prepared host place (ok p) h =
    rooted place p (ensure_directory host state_root p.root) h
      (ensure_directory-IsMade host state_root p.root)

guarded :
    (place : Place) (check : Result PersistenceError (Unit {0})) (rest : Stored)
    → Untouched place rest × HasRoot rest
    → Untouched place (checked place check >> rest) × HasRoot (checked place check >> rest)
guarded place (err _) rest h = (refl, tt)
guarded place (ok _) rest h = h

prepare_root-Untouched :
    (host : StoreHost) (place : Place)
    → Untouched place (prepare_root host place) × HasRoot (prepare_root host place)
unfolding prepare_root
prepare_root-Untouched host place = guarded place (fail_if host.climbs unsafe_path) _ (
    guarded place (reject_symlink place.root) _ (
      with_prepared host place (prepare_parents host place) (prepare_parents-Untouched host place)))

-- The file holds the record's bytes and a line end.
abbrev pub IsWritten : Codec → OperationStateRecord → Entry → Type 0
IsWritten codec r entry =
    (content : List ℕ) × (codec.print r ≡ some content) × (entry ≡ file (content ++ 10 ∷ []))

-- The file is as before, or is written, if only the directory could not be synchronized.
abbrev Replaced :
    Codec
    → WriteEnd
    → OperationStateRecord
    → Entry
    → Result (PersistenceError × Entry) Entry
    → Type 0
Replaced codec end r before (err (e, entry)) =
    (entry ≡ before) ⊎ ((end ≡ directory_sync_fails) × IsWritten codec r entry)
Replaced codec end r before (ok entry) = IsWritten codec r entry

rename_over-Replaced :
    (codec : Codec) (end : WriteEnd) (r : OperationStateRecord) (before : Entry) (content : List ℕ)
    → codec.print r ≡ some content
    → Replaced codec end r before (rename_over end before (content ++ 10 ∷ []))
unfolding rename_over
rename_over-Replaced codec end r (directory owned sticky) content h = inl refl
rename_over-Replaced codec directory_sync_fails r absent content h = inr (refl, (content, h, refl))
rename_over-Replaced codec directory_sync_fails r unreadable content h =
    inr (refl, (content, h, refl))
rename_over-Replaced codec directory_sync_fails r symlink content h = inr (refl, (content, h, refl))
rename_over-Replaced codec directory_sync_fails r (file old) content h =
    inr (refl, (content, h, refl))
rename_over-Replaced codec end r before content h = (content, h, refl)

write_bytes-Replaced :
    (codec : Codec) (end : WriteEnd) (r : OperationStateRecord) (before : Entry)
    (o : Option (List ℕ))
    → codec.print r ≡ o
    → Replaced codec end r before (write_bytes end before o)
write_bytes-Replaced codec end r before none h = inl refl
write_bytes-Replaced codec create_fails r before (some content) h = inl refl
write_bytes-Replaced codec body_fails r before (some content) h = inl refl
write_bytes-Replaced codec newline_fails r before (some content) h = inl refl
write_bytes-Replaced codec sync_fails r before (some content) h = inl refl
write_bytes-Replaced codec rename_fails r before (some content) h = inl refl
write_bytes-Replaced codec completes r before (some content) h =
    rename_over-Replaced codec completes r before content h
write_bytes-Replaced codec directory_sync_fails r before (some content) h =
    rename_over-Replaced codec directory_sync_fails r before content h

write_and_replace-Replaced :
    (codec : Codec) (end : WriteEnd) (r : OperationStateRecord) (before : Entry)
    → Replaced codec end r before (write_and_replace codec end r before)
unfolding write_and_replace
write_and_replace-Replaced codec end r before = elim (Bool-cases (is_create end)) [
  | inl e ↦ rw e (inl refl)
  | inr e ↦ rw e (write_bytes-Replaced codec end r before (codec.print r) refl)
]

-- A store that fails leaves the record's file as it was, or has written it, if only the directory
-- could not be synchronized; one that succeeds has written it below directories of its own.
abbrev Settled : Codec → WriteEnd → OperationStateRecord → Place → Stored → Type 0
Settled codec end r place (err (e, p)) =
    (p.state_file ≡ place.state_file)
    ⊎ ((end ≡ directory_sync_fails) × IsWritten codec r p.state_file)
Settled codec end r place (ok p) =
    (p.root ≡ directory true false)
    × (p.operation_dir ≡ directory true false)
    × IsWritten codec r p.state_file

module _ (codec : Codec) (end : WriteEnd) (r : OperationStateRecord) (place : Place) where
  written :
      (q : Place) (o : Result (PersistenceError × Entry) Entry)
      → q.state_file ≡ place.state_file
      → q.root ≡ directory true false
      → q.operation_dir ≡ directory true false
      → Replaced codec end r q.state_file o
      → Settled codec end r place (with_state q o)
  written q (err (e, entry)) s root dir (inl h) = inl (h ∙ s)
  written q (err (e, entry)) s root dir (inr h) = inr h
  written q (ok entry) s root dir h = (root, dir, h)

  refused :
      (q : Place) (check : Result PersistenceError (Unit {0})) (rest : Stored)
      → q.state_file ≡ place.state_file
      → Settled codec end r place rest
      → Settled codec end r place (checked q check >> rest)
  refused q (err e) rest s h = inl s
  refused q (ok _) rest s h = h

  opened :
      (p : Place) (o : Result (PersistenceError × Entry) Entry)
      → p.state_file ≡ place.state_file
      → p.root ≡ directory true false
      → IsMade o
      → Settled codec end r place (
          with_operation p o >>= (λ q.
            checked q (reject_symlink q.state_file)
            >> with_state q (write_and_replace codec end r q.state_file)))
  opened p (err (e, dir)) s root m = inl s
  opened p (ok dir) s root m =
      let q = record p { operation_dir = dir } in
      refused q (reject_symlink q.state_file) _ s (
        written q (write_and_replace codec end r q.state_file) s root m
          (write_and_replace-Replaced codec end r q.state_file))

  prepared :
      (host : StoreHost) (o : Stored)
      → Untouched place o
      → HasRoot o
      → Settled codec end r place (
          o >>= (λ p.
            with_operation p (ensure_directory host operation_directory p.operation_dir) >>= (λ q.
              checked q (reject_symlink q.state_file)
              >> with_state q (write_and_replace codec end r q.state_file))))
  prepared host (err (e, p)) u root = inl u
  prepared host (ok p) u root =
      opened p (ensure_directory host operation_directory p.operation_dir) u.0 root
        (ensure_directory-IsMade host operation_directory p.operation_dir)

save_state-Settled :
    (host : StoreHost) (codec : Codec) (place : Place) (r : OperationStateRecord)
    → Settled codec host.write r place (save_state host codec place r)
unfolding save_state
save_state-Settled host codec place r =
    refused codec host.write r place place (validate_operation_id r.operation_id) _ refl (
      refused codec host.write r place place (validate_state r) _ refl (
        prepared codec host.write r place host (prepare_root host place)
          (prepare_root-Untouched host place).0 (prepare_root-Untouched host place).1))

-- A store that fails leaves the record's file as it was, unless the file is already replaced and
-- only the directory cannot be synchronized: then the file holds the whole new record.
pub save_state-err :
    (host : StoreHost) (codec : Codec) (place p : Place) (r : OperationStateRecord)
    (e : PersistenceError)
    → save_state host codec place r ≡ err (e, p)
    → (p.state_file ≡ place.state_file)
      ⊎ ((host.write ≡ directory_sync_fails) × IsWritten codec r p.state_file)
save_state-err host codec place p r e h =
    subst (Settled codec host.write r place) h (save_state-Settled host codec place r)

guard-ok :
    (place p : Place) (o : Result PersistenceError (Unit {0})) (rest : Stored)
    → (checked place o >> rest) ≡ ok p
    → (o ≡ ok tt) × (rest ≡ ok p)
guard-ok place p (err e) rest h = cc
guard-ok place p (ok tt) rest h = (refl, h)

valid-save_state :
    (host : StoreHost) (codec : Codec) (place p : Place) (r : OperationStateRecord)
    → save_state host codec place r ≡ ok p
    → (validate_operation_id r.operation_id ≡ ok tt) × (validate_state r ≡ ok tt)
unfolding save_state
valid-save_state host codec place p r h =
    let (i, rest) = guard-ok place p (validate_operation_id r.operation_id) _ h in
    (i, (guard-ok place p (validate_state r) _ rest).0)

load-IsWritten :
    (codec : Codec) (p : Place) (r : OperationStateRecord)
    → validate_operation_id r.operation_id ≡ ok tt
    → validate_state r ≡ ok tt
    → (r.schema_version == state_schema_version) ≡ true
    → p.root ≡ directory true false
    → p.operation_dir ≡ directory true false
    → (content : List ℕ) → p.state_file ≡ file content
    → codec.read content ≡ some r
    → load_state codec p r.operation_id ≡ ok r
unfolding load_state reject_symlink read_record
load-IsWritten codec p r i v n root dir content f h =
    let schema : (r.schema_version != state_schema_version) ≡ false = ground arith in
    let same : (r.operation_id != r.operation_id) ≡ false =
      let e = ==_refl r.operation_id in ground arith in
    simp (i, root, dir, f, h, schema, same, v)

-- A record that is stored is loaded again as it was, if the codec reads back what it prints of it.
pub save_state-load_state :
    (host : StoreHost) (codec : Codec) (place p : Place) (r : OperationStateRecord)
    → save_state host codec place r ≡ ok p
    → ((content : List ℕ) → codec.print r ≡ some content → codec.read (content ++ 10 ∷ []) ≡ some r)
    → load_state codec p r.operation_id ≡ ok r
save_state-load_state host codec place p r h law =
    let (id, valid) = valid-save_state host codec place p r h in
    let (root, dir, (content, printed, entry)) =
      subst (Settled codec host.write r place) h (save_state-Settled host codec place r) in
    load-IsWritten codec p r id valid
      ((==_iff r.schema_version state_schema_version).1
        ((validate_state-IsWellFormed r).0 valid).schema)
      root dir (content ++ 10 ∷ []) entry (law content printed)
