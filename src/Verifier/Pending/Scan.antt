-- ===== src/Verifier/Pending/Scan.antt =====
-- What the scan finds (verifier/src/pending.rs).
use lyraos_desktop_updater.Prelude.{
  nat_eq, option_eq, is_some, text_list_eq, Text, text_eq, ok, compare_text, then_by, is_gt,
  compare_text-IsLawful, pair-IsLawful, reverse-IsLawful, first-sort_by, ◌≡◌, refl, subst, true,
  false, Option, none, some, List, [], ◌∷◌, Memᴰ, arith,
}
use lyraos_desktop_updater.Domain.{OperationStateRecord}
use lyraos_desktop_updater.Verifier.Pending.{
  ReadEntry, listing, EntryClass, invalid, candidate, interrupted, settled, awaits_verification,
  classify_state, classify, PendingScan, candidates, classes, scan_entries, pending_operation,
}

-- An entry whose record could be loaded and awaits its verification.
abbrev pub IsWaiting : ReadEntry → OperationStateRecord → Type 0
IsWaiting none r = ⊥
IsWaiting (some e) r =
    (e.is_dir ≡ some true)
    × (is_some e.operation_id ≡ true)
    × (e.state_is_file ≡ some true)
    × (e.loaded ≡ ok r)
    × (awaits_verification r.state ≡ true)

waiting_lem :
    (marker : Option Text) (e : ReadEntry) (r : OperationStateRecord)
    → IsWaiting e r
    → (path : Text) × (classify marker e ≡ candidate path r)
waiting_lem marker none r w = absurd w
waiting_lem marker (some e) r w = (e.path, go)
  where
    go : classify marker (some e) ≡ candidate e.path r
    go = unfold classify classify_state in ground arith

prepend_candidate :
    (c : EntryClass) (cs : List EntryClass) {x : Text × OperationStateRecord}
    → Memᴰ x (candidates cs)
    → Memᴰ x (candidates (c ∷ cs))
unfolding candidates
prepend_candidate (candidate path r) cs m = Memᴰ.tail m
prepend_candidate (invalid name reason) cs m = m
prepend_candidate (interrupted r) cs m = m
prepend_candidate settled cs m = m

Memᴰ-candidates :
    (marker : Option Text) (es : List ReadEntry) {e : ReadEntry} (r : OperationStateRecord)
    → Memᴰ e es
    → IsWaiting e r
    → (path : Text) × Memᴰ (path, r) (candidates (classes marker es))
unfolding classes
Memᴰ-candidates marker [] r m w = elim m [ ]
Memᴰ-candidates marker (d ∷ es) r (Memᴰ.head same) w =
    let (path, e) = waiting_lem marker d r (subst (λ x. IsWaiting x r) same w) in
    (path, rw e (unfold candidates in Memᴰ.head refl))
Memᴰ-candidates marker (d ∷ es) r (Memᴰ.tail m) w =
    let (path, found) = Memᴰ-candidates marker es r m w in
    (path, prepend_candidate (classify marker d) (classes marker es) found)

abbrev candidate_key : Text × OperationStateRecord → Text × Text
candidate_key c = (c.1.updated_at, c.1.operation_id)

not_gt_first :
    (a b c d : Text)
    → is_gt (then_by (compare_text b a) (compare_text c d)) ≡ false
    → is_gt (compare_text b a) ≡ false
not_gt_first a b c d h = ground arith

-- Whatever else the state directory holds, and in whatever order, an operation that awaits its
-- verification is not hidden: the scan then returns an operation, and one that is no older.
pub pending_operation-finds :
    (marker : Option Text) (es : List ReadEntry) {e : ReadEntry} (r : OperationStateRecord)
    → Memᴰ e es
    → IsWaiting e r
    → (scan : PendingScan) × (chosen : Text × OperationStateRecord) × (pending_operation marker
          (listing es)
        ≡ ok scan)
      × (scan.operation ≡ some chosen)
      × (is_gt (compare_text r.updated_at chosen.1.updated_at) ≡ false)
unfolding pending_operation scan_entries
pending_operation-finds marker es r m w =
    let (path, found) = Memᴰ-candidates marker es r m w in
    let o = pair-IsLawful (reverse-IsLawful compare_text-IsLawful) compare_text-IsLawful in
    let (chosen, e, le) = first-sort_by o candidate_key (candidates (classes marker es)) found in
    (
      scan_entries marker es,
      chosen,
      refl,
      e,
      not_gt_first chosen.1.updated_at r.updated_at chosen.1.operation_id r.operation_id le,
    )
