-- ===== src/Events/Pushes.antt =====
-- The log in memory as its two views, and what an event that is added does to them
-- (service/src/event_log.rs).
use mathlib.Core.List.{append_assoc, append-nil}
use lyraos_desktop_updater.Prelude.{
  ltb, leb, nat_eq, option_eq, u64_max, saturating_add, length, all, length-append, all-snoc,
  all_weaken, text_list_eq, byte_len, Text, text_eq, ℕ, suc, ◌+◌, ◌≤◌, ◌<◌, max, ◌≡◌, refl, sym, ap,
  ◌∙◌, subst, true, false, Option, none, some, List, [], ◌∷◌, ◌++◌, arith,
}
use lyraos_desktop_updater.Events.{
  push_line, sanitize_technical_line, trim_technical, with_log, push_technical, stored_line,
  with_line, add_technical, remove_technical, push_normative, exceeds, TechnicalLine,
  OperationEvent, EventLog, EventSource,
}
use lyraos_desktop_updater.Events.Trim.{
  remove_technical-increasing, all-remove_technical, increasing, lines_of, unless_line, IsCounted,
  Rest, technicals, normatives, newest, total,
}
use lyraos_desktop_updater.Events.Bounds.{
  trim_from-keeps, trim_technical-IsTrimmed, IsTrimmed, Answer, Holds,
}
use lyraos_desktop_updater.Sanitize.{SanitizedLine}
use lyraos_desktop_updater.Sanitize.Lines.{sanitize_technical_line-clean}

-- The sequences increase, up to the last one.
abbrev pub IsOrdered : ℕ → List OperationEvent → Type 0
IsOrdered high events =
    (all (λ event. leb event.sequence high) events ≡ true) × (increasing events ≡ true)

-- The counters are those of the events, both limits are kept, and the events are in order.
abbrev pub IsSound : EventLog → Type 0
IsSound log = IsCounted log × (exceeds log ≡ false) × IsOrdered log.last_sequence log.events

pub technicals_snoc :
    (events : List OperationEvent) (event : OperationEvent)
    → technicals (events ++ event ∷ []) ≡ technicals events ++ technicals (event ∷ [])
technicals_snoc [] event = refl
technicals_snoc (e ∷ events) event =
    ap (λ t. lines_of e.technical ++ t) (technicals_snoc events event)
    ∙ sym (append_assoc (lines_of e.technical) (technicals events) (technicals (event ∷ [])))

unless_line-append :
    (t : Option TechnicalLine) (event : OperationEvent) (xs ys : List OperationEvent)
    → unless_line t event (xs ++ ys) ≡ unless_line t event xs ++ ys
unless_line-append none event xs ys = refl
unless_line-append (some line) event xs ys = refl

normatives_snoc :
    (events : List OperationEvent) (event : OperationEvent)
    → normatives (events ++ event ∷ []) ≡ normatives events ++ normatives (event ∷ [])
normatives_snoc [] event = refl
normatives_snoc (e ∷ events) event =
    ap (unless_line e.technical e) (normatives_snoc events event)
    ∙ unless_line-append e.technical e (normatives events) (normatives (event ∷ []))

pub total_snoc :
    (lines : List TechnicalLine) (line : TechnicalLine)
    → total (lines ++ line ∷ []) ≡ total lines + byte_len line.text
unfolding total
total_snoc [] line = omega arith
total_snoc (l ∷ lines) line = let ih = total_snoc lines line in omega arith

increasing_snoc :
    (events : List OperationEvent) (event : OperationEvent)
    → increasing events ≡ true
    → all (λ e. ltb e.sequence event.sequence) events ≡ true
    → increasing (events ++ event ∷ []) ≡ true
increasing_snoc [] event h k = refl
increasing_snoc (e ∷ events) event h k =
    let later = all-snoc (λ l. ltb e.sequence l.sequence) events event in
    let ih = increasing_snoc events event in ground arith

-- An event behind the last one keeps the order.
snoc-IsOrdered :
    (high : ℕ) (events : List OperationEvent) (event : OperationEvent)
    → IsOrdered high events
    → high < event.sequence
    → IsOrdered event.sequence (events ++ event ∷ [])
snoc-IsOrdered high events event (b, i) l = (
  all-snoc (λ e. leb e.sequence event.sequence) events event
      (all_weaken (λ e. leb e.sequence high) (λ e. leb e.sequence event.sequence) events
        (λ e h. ground arith) b)
      (ground arith),
  increasing_snoc events event i (
      all_weaken (λ e. leb e.sequence high) (λ e. ltb e.sequence event.sequence) events
        (λ e h. ground arith) b),
)

both :
    (P Q : List OperationEvent → Type 0) (o : Option (TechnicalLine × List OperationEvent))
    → Rest P o
    → Rest Q o
    → Rest (λ events. P events × Q events) o
both P Q none h k = tt
both P Q (some r) h k = (h, k)

pub remove-IsOrdered :
    (high : ℕ) (events : List OperationEvent)
    → IsOrdered high events
    → Rest (IsOrdered high) (remove_technical events)
remove-IsOrdered high events (b, i) =
    both (λ rest. all (λ e. leb e.sequence high) rest ≡ true) (λ rest. increasing rest ≡ true)
      (remove_technical events) (all-remove_technical (λ e. leb e.sequence high) events b)
      (remove_technical-increasing events i)

-- An event without a line is added behind the others.
pub push_normative-IsSound :
    (event : OperationEvent) (log : EventLog)
    → event.technical ≡ none
    → log.last_sequence < event.sequence
    → IsSound log
    → IsSound (push_normative event log)
      × (technicals (push_normative event log).events ≡ technicals log.events)
      × (normatives (push_normative event log).events ≡ normatives log.events ++ event ∷ [])
unfolding push_normative
push_normative-IsSound event log h l ((cn, cb), e, o) =
    let same =
      technicals_snoc log.events event
      ∙ ap (λ t. technicals log.events ++ (lines_of t ++ [])) h
      ∙ append-nil (technicals log.events) in
    let high : max log.last_sequence event.sequence ≡ event.sequence = omega arith in
    (
      (
        (cn ∙ sym (ap length same), cb ∙ sym (ap total same)),
        e,
        subst (λ n. IsOrdered n (log.events ++ event ∷ [])) (sym high)
            (snoc-IsOrdered log.last_sequence log.events event o l),
      ),
      same,
      normatives_snoc log.events event
          ∙ ap (λ t. normatives log.events ++ unless_line t event []) h,
    )

-- A stored log with a line more, and the line's event.
abbrev pub IsPushed : EventLog → OperationEvent → TechnicalLine → EventLog × OperationEvent → Type 0
IsPushed log event line (pushed, sent) =
    IsSound pushed
    × (technicals pushed.events ≡ newest (technicals log.events ++ line ∷ []))
    × (normatives pushed.events ≡ normatives log.events)
    × (pushed.last_sequence ≡ event.sequence)
    × (sent ≡ record event { technical = some line })

abbrev pub IsDone {ℓ} : {A : Type ℓ} (P : A → Type 0) → Option A → Type 0
IsDone P none = ⊥
IsDone P (some a) = P a

saturating_add-within : (a b : ℕ) → a + b ≤ u64_max → saturating_add a b ≡ a + b
saturating_add-within a b h = ground arith

-- The event with its line behind the others, before the log is trimmed.
add_technical-views :
    (event : OperationEvent) (line : SanitizedLine) (source : EventSource) (log : EventLog)
    → IsSound log
    → byte_len line.text ≤ 4096
    → IsCounted (add_technical (with_line source line event) line log)
      × (technicals (log.events ++ with_line source line event ∷ [])
          ≡ technicals log.events ++ stored_line source line ∷ [])
      × (normatives (log.events ++ with_line source line event ∷ []) ≡ normatives log.events)
unfolding add_technical
add_technical-views event line source log ((cn, cb), e, o) h =
    let kept = stored_line source line in
    let pushed = with_line source line event in
    let views = technicals_snoc log.events pushed in
    let within : (log.technical_lines ≤ 10000) × (log.technical_bytes ≤ 4194304) = ground arith in
    let (n, b) = within in
    (
      (
        saturating_add-within log.technical_lines 1 (omega arith)
            ∙ ap (λ k. k + 1) cn
            ∙ sym (ap length views ∙ length-append (technicals log.events) (kept ∷ [])),
        saturating_add-within log.technical_bytes (byte_len line.text) (omega arith)
            ∙ ap (λ k. k + byte_len line.text) cb
            ∙ sym (ap total views ∙ total_snoc (technicals log.events) kept),
      ),
      views,
      normatives_snoc log.events pushed ∙ append-nil (normatives log.events),
    )

finish-IsPushed :
    (event : OperationEvent) (line : SanitizedLine) (source : EventSource) (log : EventLog)
    (o : Option EventLog)
    → let pushed = with_line source line event in
      IsSound log
      → log.last_sequence < event.sequence
      → byte_len line.text ≤ 4096
      → Answer (IsTrimmed (add_technical pushed line log)) o
      → Holds (IsOrdered event.sequence) o
      → IsDone (IsPushed log event (stored_line source line)) (with_log pushed o)
unfolding add_technical
finish-IsPushed event line source log none s l h a k = a
finish-IsPushed event line source log (some t) s l h (lines, others, counted, within, high, _) k =
    let (c, ls, ns) = add_technical-views event line source log s h in
    let last : t.last_sequence ≡ event.sequence = high ∙ omega arith in
    (
      (counted, within, subst (λ n. IsOrdered n t.events) (sym last) k),
      lines ∙ ap newest ls,
      others ∙ ns,
      last,
      refl,
    )

-- A technical line that follows a sound log is stored behind the others: the log then holds the
-- newest lines that keep to both limits and all of its other events, its counters are right, and
-- its sequences increase up to that of the event.
pub push_technical-IsPushed :
    (event : OperationEvent) (source : EventSource) (raw : Text) (line : SanitizedLine)
    (log : EventLog)
    → IsSound log
    → log.last_sequence < event.sequence
    → sanitize_technical_line raw ≡ some line
    → IsDone (IsPushed log event (stored_line source line)) (push_technical event source raw log)
unfolding push_technical trim_technical add_technical
push_technical-IsPushed event source raw line log s l h =
    let pushed = with_line source line event in
    let added = add_technical pushed line log in
    let bound = (sanitize_technical_line-clean raw line h).0 in
    let (counted, _, _) = add_technical-views event line source log s bound in
    let (_, _, ordered) = s in
    subst
      (λ o. IsDone (IsPushed log event (stored_line source line)) (push_line event source o log))
      (sym h)
      (finish-IsPushed event line source log (trim_technical added) s l bound
        (trim_technical-IsTrimmed added counted)
        (trim_from-keeps (IsOrdered event.sequence) (remove-IsOrdered event.sequence)
          (suc (length added.events)) added
          (snoc-IsOrdered log.last_sequence log.events pushed ordered l)))
