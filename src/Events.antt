-- ===== src/Events.antt =====
-- service/src/event_log.rs and protocol/src/lib.rs: the events of an operation, and their log in memory.
pub mod Pushes
pub mod Restored
pub mod Trim
pub mod Bounds
use lyraos_desktop_updater.Prelude.{
  ltb, leb, if◌then◌else◌, Eq, ◌==◌, ◌!=◌, nat_eq, some_ne_none, some_inj, option_dec, option_eq,
  u64_max, saturating_add, is_some, is_none, is_some_and, is_none_or, Bool-cases, Option-cases,
  ==_iff, ==_refl, is_some_and-eq_false, and_left, and_right, is_none-eq, length, is_empty, first,
  any, all, all_at, keep, take, replicate, any-Memᴰ, any-elim, all-Memᴰ, all_intro, length-append,
  Memᴰ-append_left, Memᴰ-append_right, Memᴰ-append_cases, is_empty-append, is_empty-any,
  any-is_empty, any-append, is_empty-keep, length-keep_iff, contains, contains-Memᴰ, Memᴰ-contains,
  unique, IsDistinct, length-unique-le, IsDistinct-iff, pigeonhole, length-map, all-snoc,
  all_weaken, Text-discrete, text_list_eq, utf8, bytes, byte_len, is_whitespace, is_control, trim,
  trim_start, starts_with, split_once, Text, codes, text_eq, is_ascii_digit, is_ascii_upper,
  is_ascii_lower, is_ascii_alphanumeric, is_ascii_hexdigit, Result, fail_if, ok_or, map_err, is_ok,
  ◌>>=◌, ◌>>◌, >>=-eq-ok, err, ok, compare_text, compare_option, insert_sorted, sort_by, dedup,
  sort_texts, IsLawful, then_by, is_gt, compare_text-IsLawful, compare-IsLawful, then_by-IsLawful,
  key-IsLawful, pair-IsLawful, compare_option-IsLawful, reverse-IsLawful, IsSorted, IsStrict,
  any-sort_by, any-dedup, sort_by-IsSorted, dedup-sort_by-IsStrict, sort_by-perm, perm-sort_by-eq,
  first-sort_by, ℕ, zero, suc, ◌+◌, ◌-◌, ◌*◌, ◌/◌, ◌%◌, ◌^◌, ◌≤◌, ◌<◌, max, min, ◌≡◌, refl, sym, ap,
  ◌∙◌, subst, ◌≢◌, ◌↔◌, ◌⊎◌, inl, inr, Bool, true, false, not, ◌&&◌, ◌||◌, Option, none, some, List,
  [], ◌∷◌, ◌++◌, map, Memᴰ, arith, ℕ_discrete,
}
use lyraos_desktop_updater.Manifest.Version.{parse_u64}
use lyraos_desktop_updater.Domain.{OperationState}
use lyraos_desktop_updater.Sanitize.{SanitizedLine, sanitize_technical_line}

abbrev pub max_technical_lines : ℕ
max_technical_lines = 10000

abbrev pub max_technical_bytes : ℕ
max_technical_bytes = 4194304

pub data EventLevel : Type 0 where
  info warning error : EventLevel

pub data EventSource : Type 0 where
  service zypper_stdout zypper_stderr : EventSource

pub record TechnicalLine : Type 0 where
  pub source : EventSource
  pub text : Text
  pub truncated : Bool

-- `fields` is the map as the list of its entries.
pub record OperationEvent : Type 0 where
  pub operation_id : Text
  pub sequence : ℕ
  pub occurred_at : Text
  pub state : OperationState
  pub level : EventLevel
  pub message_id : Text
  pub fields : List (Text × Text)
  pub technical : Option TechnicalLine

pub record EventLog : Type 0 where
  pub events : List OperationEvent
  pub technical_lines : ℕ
  pub technical_bytes : ℕ
  pub last_sequence : ℕ
  pub persistence_failed : Bool

abbrev pub default_log : EventLog
default_log = record {
  events = [];
  technical_lines = 0;
  technical_bytes = 0;
  last_sequence = 0;
  persistence_failed = false;
}

abbrev pub next_sequence : EventLog → ℕ
next_sequence log = saturating_add log.last_sequence 1

-- `fields.get(key)`
unfoldable pub field : Text → List (Text × Text) → Option Text
unfolding text_list_eq
field key [] = none
field key ((k, v) ∷ entries) = if k == key then some v else field key entries

abbrev or_zero : Option ℕ → ℕ
or_zero none = 0
or_zero (some n) = n

abbrev number_of : Option Text → Option ℕ
number_of none = none
number_of (some value) = parse_u64 value

abbrev pub keep_event :
    OperationEvent
    → Option (TechnicalLine × List OperationEvent)
    → Option (TechnicalLine × List OperationEvent)
keep_event event none = none
keep_event event (some (line, events)) = some (line, event ∷ events)

abbrev pub take_line :
    Option TechnicalLine
    → OperationEvent
    → List OperationEvent
    → Option (TechnicalLine × List OperationEvent)
    → Option (TechnicalLine × List OperationEvent)
take_line (some line) event events later = some (line, events)
take_line none event events later = keep_event event later

-- The sequence up to which a marker of dropped lines stands.
abbrev pub high_sequence : OperationEvent → ℕ
high_sequence event = or_zero (number_of (field (codes "high_sequence") event.fields))

-- The first technical line, and the events without its event.
abbrev pub remove_technical : List OperationEvent → Option (TechnicalLine × List OperationEvent)
remove_technical [] = none
remove_technical (event ∷ events) = take_line event.technical event events (remove_technical events)

abbrev pub exceeds : EventLog → Bool
exceeds log =
    ltb max_technical_lines log.technical_lines || ltb max_technical_bytes log.technical_bytes

-- One round of `trim_technical`, before the next one.
abbrev pub trim_round :
    EventLog
    → Option (TechnicalLine × List OperationEvent)
    → (EventLog → Option EventLog)
    → Option EventLog
trim_round log none next = some (record log { technical_lines = 0; technical_bytes = 0 })
trim_round log (some (line, events)) next = next (record log {
  events = events;
  technical_lines = log.technical_lines - 1;
  technical_bytes = log.technical_bytes - byte_len line.text;
})

-- The loop of `trim_technical` on fuel; none is a loop that has used it up.
unfoldable pub trim_from : ℕ → EventLog → Option EventLog
unfolding byte_len
trim_from zero log = none
trim_from (suc n) log =
    let rest = trim_round log (remove_technical log.events) (λ next. trim_from n next) in
    if exceeds log then rest else some log

-- Each round but the last one removes an event.
unfoldable pub trim_technical : EventLog → Option EventLog
trim_technical log = trim_from (suc (length log.events)) log

abbrev pub count_line : Option TechnicalLine → EventLog → EventLog
count_line none log = log
count_line (some line) log = record log {
  technical_lines = (log.technical_lines + 1) % 2 ^ 64;
  technical_bytes = (log.technical_bytes + byte_len line.text) % 2 ^ 64;
}

-- One round of the loop of `restore`.
abbrev pub restore_event : EventLog → OperationEvent → EventLog
restore_event log event =
    let high = max log.last_sequence event.sequence in
    let marked = if event.sequence == 0 then max high (high_sequence event) else high in
    let counted = count_line event.technical log in
    record counted { events = log.events ++ event ∷ []; last_sequence = marked }

abbrev pub restore_all : EventLog → List OperationEvent → EventLog
restore_all log [] = log
restore_all log (event ∷ events) = restore_all (restore_event log event) events

unfoldable pub restore : List OperationEvent → Option EventLog
restore events = trim_technical (restore_all default_log events)

unfoldable pub push_normative : OperationEvent → EventLog → EventLog
push_normative event log = record log {
  events = log.events ++ event ∷ [];
  last_sequence = max log.last_sequence event.sequence;
}

abbrev pub stored_line : EventSource → SanitizedLine → TechnicalLine
stored_line source line = record { source = source; text = line.text; truncated = line.truncated }

abbrev pub with_line : EventSource → SanitizedLine → OperationEvent → OperationEvent
with_line source line event = record event { technical = some (stored_line source line) }

-- The log before it is trimmed.
unfoldable pub add_technical : OperationEvent → SanitizedLine → EventLog → EventLog
unfolding byte_len
add_technical event line log = record log {
  events = log.events ++ event ∷ [];
  technical_lines = saturating_add log.technical_lines 1;
  technical_bytes = saturating_add log.technical_bytes (byte_len line.text);
  last_sequence = max log.last_sequence event.sequence;
}

abbrev pub with_log : OperationEvent → Option EventLog → Option (EventLog × OperationEvent)
with_log event none = none
with_log event (some log) = some (log, event)

-- None is a panic of the cleaning.
abbrev pub push_line :
    OperationEvent
    → EventSource
    → Option SanitizedLine
    → EventLog
    → Option (EventLog × OperationEvent)
push_line event source none log = none
push_line event source (some line) log =
    let pushed = with_line source line event in
    with_log pushed (trim_technical (add_technical pushed line log))

unfoldable pub push_technical :
    OperationEvent → EventSource → Text → EventLog → Option (EventLog × OperationEvent)
push_technical event source raw log = push_line event source (sanitize_technical_line raw) log

unfoldable pub after : ℕ → EventLog → List OperationEvent
after sequence log = keep (λ event. ltb sequence event.sequence) log.events

-- `technical_event`
abbrev pub technical_event : Text → ℕ → Text → OperationState → OperationEvent
technical_event operation_id sequence occurred_at state = record {
  operation_id = operation_id;
  sequence = sequence;
  occurred_at = occurred_at;
  state = state;
  level = info;
  message_id = codes "technical-line";
  fields = [];
  technical = none;
}
