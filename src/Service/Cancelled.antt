-- ===== src/Service/Cancelled.antt =====
-- An operation that its owner cancels (service/src/main.rs).
use lyraos_desktop_updater.Prelude.{
  ltb, if◌then◌else◌, ◌!=◌, nat_eq, option_eq, u64_max, saturating_add, ==_iff, ==_refl,
  text_list_eq, Text, codes, text_eq, Result, fail_if, >>=-eq-ok, ok, ℕ, ◌+◌, ◌≡◌, refl, sym, ap,
  ◌∙◌, subst, true, some, List, [], ◌∷◌, ◌++◌, map, arith,
}
use lyraos_desktop_updater.Domain.{
  failed, state_schema_version, is_cancelable, OperationStateRecord,
}
use lyraos_desktop_updater.Persistence.{validate_state, validate_operation_id, PersistenceError}
use lyraos_desktop_updater.Persistence.Store.{
  read_record, reject_symlink, Codec, Place, load_state, save_state,
}
use lyraos_desktop_updater.Persistence.Store.Replacement.{save_state-load_state}
use lyraos_desktop_updater.Service.Files.{Service, owns, set}
use lyraos_desktop_updater.Service.Reports.{ServiceHost}
use lyraos_desktop_updater.Service.Handle.{cancel, own_record, give_up, given_up}

ok_value :
    (q r : OperationStateRecord)
    → Path (Result PersistenceError OperationStateRecord) (ok q) (ok r)
    → q ≡ r
ok_value q r h = cc

named : (a b : Text) (e : PersistenceError) (u : Unit {0}) → fail_if (a != b) e ≡ ok u → a ≡ b
named a b e u h = (==_iff a b).0 (ground arith)

-- The operation's own record is loaded under its own name.
load_state-name :
    (codec : Codec) (place : Place) (id : Text) (r : OperationStateRecord)
    → load_state codec place id ≡ ok r
    → r.operation_id ≡ id
unfolding load_state
load_state-name codec place id r h =
    let (_, _, h1) = >>=-eq-ok (validate_operation_id id) _ h in
    let (_, _, h2) = >>=-eq-ok (reject_symlink place.root) _ h1 in
    let (_, _, h3) = >>=-eq-ok (reject_symlink place.operation_dir) _ h2 in
    let (_, _, h4) = >>=-eq-ok (reject_symlink place.state_file) _ h3 in
    let (q, _, h5) = >>=-eq-ok (read_record codec place.state_file) _ h4 in
    let (_, _, h6) = >>=-eq-ok (fail_if (q.schema_version != state_schema_version) _) _ h5 in
    let (_, same, h7) = >>=-eq-ok (fail_if (q.operation_id != id) _) _ h6 in
    let (_, _, h8) = >>=-eq-ok (validate_state q) _ h7 in
    ap (λ x. x.operation_id) (sym (ok_value q r h8)) ∙ named q.operation_id id _ _ same

set_same {ℓ} : {A : Type ℓ} (key : Text) (a : A) (map : Text → A) → set key a map key ≡ a
set_same key a map = rw (==_refl key) refl

own_record-ok :
    (host : ServiceHost) (s : Service) (id operation_id : Text) (r : OperationStateRecord)
    → owns s operation_id ≡ true
    → load_state host.codec (s.store operation_id).place operation_id ≡ ok r
    → own_record host s id operation_id ≡ ok r
unfolding own_record
own_record-ok host s id operation_id r own load = rw (own, load) refl

-- The record of an operation that its owner has cancelled.
abbrev pub cancelled_record : Text → OperationStateRecord → OperationStateRecord
cancelled_record now r = record r {
  state = failed;
  error_code = some (codes "CANCELLED");
  sequence = if ltb r.sequence u64_max then r.sequence + 1 else u64_max;
  updated_at = now;
}

given_up-cancelled_record :
    (now : Text) (r : OperationStateRecord)
    → given_up (codes "CANCELLED") now r ≡ cancelled_record now r
given_up-cancelled_record now r =
    let same : saturating_add r.sequence 1
        ≡ (if ltb r.sequence u64_max then r.sequence + 1 else u64_max) =
      ground arith in
    ap
      (λ n. record r {
        state = failed;
        error_code = some (codes "CANCELLED");
        sequence = n;
        updated_at = now;
      })
      same

-- When the caller's operation is in a state that can be cancelled and the cancelled record can be
-- stored, the record that is loaded after the cancel is `Failed` with CANCELLED, one in sequence
-- further unless that is at its bound, of the time of the cancel, and otherwise as it was.
pub cancel-load_state :
    (host : ServiceHost) (s : Service) (id operation_id : Text) (r : OperationStateRecord)
    (place : Place)
    → owns s operation_id ≡ true
    → load_state host.codec (s.store operation_id).place operation_id ≡ ok r
    → is_cancelable r.state ≡ true
    → save_state host.store host.codec (s.store operation_id).place (cancelled_record host.now r)
      ≡ ok place
    → ((content : List ℕ)
        → host.codec.print (cancelled_record host.now r) ≡ some content
        → host.codec.read (content ++ 10 ∷ []) ≡ some (cancelled_record host.now r))
    → load_state host.codec
        ((cancel host s id operation_id).0.store operation_id).place
        operation_id
      ≡ ok (cancelled_record host.now r)
unfolding cancel give_up
cancel-load_state host s id operation_id r place own load can save law =
    let loads =
      save_state-load_state host.store host.codec (s.store operation_id).place place
        (cancelled_record host.now r) save law in
    let name = load_state-name host.codec (s.store operation_id).place operation_id r load in
    rw
      (
        own_record-ok host s id operation_id r own load,
        can,
        given_up-cancelled_record host.now r,
        save,
        set_same operation_id (record (s.store operation_id) { place = place }) s.store,
      )
      (subst (λ n. load_state host.codec place n ≡ ok (cancelled_record host.now r)) name loads)
