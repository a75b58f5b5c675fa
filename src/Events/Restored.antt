-- ===== src/Events/Restored.antt =====
-- A log that is restored from the stored events (service/src/event_log.rs).
use lyraos_desktop_updater.Prelude.{
  leb, nat_eq, option_eq, length, all, length-append, all-snoc, all_weaken, text_list_eq, byte_len,
  text_eq, ℕ, suc, ◌+◌, ◌%◌, ◌^◌, ◌≤◌, ◌<◌, max, ◌≡◌, refl, sym, ap, ◌∙◌, subst, true, Option, none,
  some, List, [], ◌∷◌, ◌++◌, arith,
}
use lyraos_desktop_updater.Events.{
  default_log, trim_technical, count_line, restore_event, restore_all, restore, TechnicalLine,
  OperationEvent, EventLog,
}
use lyraos_desktop_updater.Events.Trim.{
  increasing, lines_of, IsCounted, technicals, normatives, newest, total,
}
use lyraos_desktop_updater.Events.Bounds.{
  trim_technical-IsTrimmed, IsTrimmed, Answer, Holds, trim_from-keeps,
}
use lyraos_desktop_updater.Events.Pushes.{
  total_snoc, IsSound, IsOrdered, remove-IsOrdered, technicals_snoc,
}
use mathlib.Core.List.{append-nil, append_assoc}

-- The counters wrap around.
abbrev IsWrapped : EventLog → Type 0
IsWrapped log =
    (log.technical_lines ≡ length (technicals log.events) % 2 ^ 64)
    × (log.technical_bytes ≡ total (technicals log.events) % 2 ^ 64)

add_wrapped : (n b : ℕ) → (n % 2 ^ 64 + b) % 2 ^ 64 ≡ (n + b) % 2 ^ 64
add_wrapped n b = omega arith

count_line-IsWrapped :
    (t : Option TechnicalLine) (log : EventLog)
    → IsWrapped log
    → ((count_line t log).technical_lines
        ≡ length (technicals log.events ++ (lines_of t ++ [])) % 2 ^ 64)
      × ((count_line t log).technical_bytes
          ≡ total (technicals log.events ++ (lines_of t ++ [])) % 2 ^ 64)
count_line-IsWrapped none log (n, b) = rw (append-nil (technicals log.events)) (n, b)
count_line-IsWrapped (some line) log (n, b) = (
  ap (λ k. (k + 1) % 2 ^ 64) n
      ∙ add_wrapped (length (technicals log.events)) 1
      ∙ sym (ap (λ k. k % 2 ^ 64) (length-append (technicals log.events) (line ∷ []))),
  ap (λ k. (k + byte_len line.text) % 2 ^ 64) b
      ∙ add_wrapped (total (technicals log.events)) (byte_len line.text)
      ∙ sym (ap (λ k. k % 2 ^ 64) (total_snoc (technicals log.events) line)),
)

restore_event-IsWrapped :
    (log : EventLog) (event : OperationEvent) → IsWrapped log → IsWrapped (restore_event log event)
restore_event-IsWrapped log event w =
    let (n, b) = count_line-IsWrapped event.technical log w in
    let views = technicals_snoc log.events event in
    (n ∙ sym (ap (λ l. length l % 2 ^ 64) views), b ∙ sym (ap (λ l. total l % 2 ^ 64) views))

-- No sequence is above the last one.
abbrev IsBounded : EventLog → Type 0
IsBounded log = all (λ event. leb event.sequence log.last_sequence) log.events ≡ true

restore_event-IsBounded :
    (log : EventLog) (event : OperationEvent) → IsBounded log → IsBounded (restore_event log event)
restore_event-IsBounded log event h =
    let high = (restore_event log event).last_sequence in
    let le : max log.last_sequence event.sequence ≤ high = ground arith in
    all-snoc (λ e. leb e.sequence high) log.events event
      (all_weaken (λ e. leb e.sequence log.last_sequence) (λ e. leb e.sequence high) log.events
        (λ e k. ground arith) h)
      (ground arith)

restore_all-views :
    (log : EventLog) (events : List OperationEvent)
    → IsWrapped log
    → IsBounded log
    → IsWrapped (restore_all log events)
      × IsBounded (restore_all log events)
      × ((restore_all log events).events ≡ log.events ++ events)
restore_all-views log [] w b = (w, b, sym (append-nil log.events))
restore_all-views log (event ∷ events) w b =
    let (w', b', e) =
      restore_all-views (restore_event log event) events (restore_event-IsWrapped log event w)
        (restore_event-IsBounded log event b) in
    (w', b', e ∙ append_assoc log.events (event ∷ []) events)

small : (k : ℕ) → k < 2 ^ 64 → k % 2 ^ 64 ≡ k
small k h = omega arith

restored :
    (events : List OperationEvent) (log : EventLog) (o : Option EventLog)
    → log.events ≡ events
    → Answer (IsTrimmed log) o
    → Holds (IsOrdered log.last_sequence) o
    → Answer
        (λ log.
          IsSound log
          × (technicals log.events ≡ newest (technicals events))
          × (normatives log.events ≡ normatives events))
        o
restored events log none e a k = a
restored events log (some t) e (lines, others, counted, within, high, _) k = (
  (counted, within, subst (λ n. IsOrdered n t.events) (sym high) k),
  lines ∙ ap (λ es. newest (technicals es)) e,
  others ∙ ap normatives e,
)

-- Stored events in order, whose lines' number and sizes a counter holds, are restored: the log has
-- the newest lines that keep to both limits and all other events, its counters are right, and no
-- sequence of its events is above its last one.
pub restore-IsSound :
    (events : List OperationEvent)
    → increasing events ≡ true
    → length (technicals events) < 2 ^ 64
    → total (technicals events) < 2 ^ 64
    → Answer
        (λ log.
          IsSound log
          × (technicals log.events ≡ newest (technicals events))
          × (normatives log.events ≡ normatives events))
        (restore events)
unfolding restore trim_technical total
restore-IsSound events i n b =
    let log = restore_all default_log events in
    let (w, bounded, whole) = restore_all-views default_log events (refl, refl) refl in
    let same = ap technicals whole in
    let counted : IsCounted log = (
      w.0
          ∙ ap (λ l. length l % 2 ^ 64) same
          ∙ small (length (technicals events)) n
          ∙ sym (ap length same),
      w.1
          ∙ ap (λ l. total l % 2 ^ 64) same
          ∙ small (total (technicals events)) b
          ∙ sym (ap total same),
    ) in
    let ordered : IsOrdered log.last_sequence log.events = (bounded, ap increasing whole ∙ i) in
    restored events log (trim_technical log) whole (trim_technical-IsTrimmed log counted) (
      trim_from-keeps (IsOrdered log.last_sequence) (remove-IsOrdered log.last_sequence)
        (suc (length log.events)) log ordered)
