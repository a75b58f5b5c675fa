-- ===== src/Events/Trim.antt =====
-- What `trim_technical` keeps of a log (service/src/event_log.rs).
use lyraos_desktop_updater.Prelude.{
  ltb, if◌then◌else◌, nat_eq, option_eq, and_left, and_right, length, all, text_list_eq, byte_len,
  text_eq, ℕ, suc, ◌+◌, ◌≡◌, refl, sym, ap, ◌∙◌, Bool, true, ◌&&◌, ◌||◌, Option, none, some, List,
  [], ◌∷◌, ◌++◌, arith,
}
use lyraos_desktop_updater.Events.{
  take_line, max_technical_bytes, keep_event, max_technical_lines, TechnicalLine, OperationEvent,
  EventLog, remove_technical,
}

abbrev pub lines_of : Option TechnicalLine → List TechnicalLine
lines_of none = []
lines_of (some line) = line ∷ []

-- The technical lines of a list of events.
abbrev pub technicals : List OperationEvent → List TechnicalLine
technicals [] = []
technicals (event ∷ events) = lines_of event.technical ++ technicals events

abbrev pub unless_line :
    Option TechnicalLine → OperationEvent → List OperationEvent → List OperationEvent
unless_line none event events = event ∷ events
unless_line (some line) event events = events

-- The other events.
abbrev pub normatives : List OperationEvent → List OperationEvent
normatives [] = []
normatives (event ∷ events) = unless_line event.technical event (normatives events)

unfoldable pub total : List TechnicalLine → ℕ
unfolding byte_len
total [] = 0
total (line ∷ lines) = byte_len line.text + total lines

abbrev pub too_many : List TechnicalLine → Bool
too_many lines = ltb max_technical_lines (length lines) || ltb max_technical_bytes (total lines)

-- The longest end of a list of lines that keeps to both limits.
abbrev pub newest : List TechnicalLine → List TechnicalLine
newest [] = []
newest (line ∷ lines) =
    let rest = newest lines in if too_many (line ∷ lines) then rest else line ∷ lines

-- The sequences increase.
abbrev pub increasing : List OperationEvent → Bool
increasing [] = true
increasing (event ∷ events) =
    all (λ later. ltb event.sequence later.sequence) events && increasing events

-- The counters are those of the events.
abbrev pub IsCounted : EventLog → Type 0
IsCounted log =
    (log.technical_lines ≡ length (technicals log.events))
    × (log.technical_bytes ≡ total (technicals log.events))

-- A technical event is taken away, if there is one.
abbrev pub Removed : List OperationEvent → Option (TechnicalLine × List OperationEvent) → Type 0
Removed events none = technicals events ≡ []
Removed events (some (line, rest)) =
    (technicals events ≡ line ∷ technicals rest)
    × (normatives rest ≡ normatives events)
    × (suc (length rest) ≡ length events)

keep_event-Removed :
    (event : OperationEvent) (events : List OperationEvent)
    (o : Option (TechnicalLine × List OperationEvent))
    → event.technical ≡ none
    → Removed events o
    → Removed (event ∷ events) (keep_event event o)
keep_event-Removed event events none h k = ap (λ t. lines_of t ++ technicals events) h ∙ k
keep_event-Removed event events (some (line, rest)) h (a, b, c) = (
  ap (λ t. lines_of t ++ technicals events) h
      ∙ a
      ∙ sym (ap (λ t. line ∷ (lines_of t ++ technicals rest)) h),
  ap (λ t. unless_line event.technical event t) b,
  ap suc c,
)

take_line-Removed :
    (t : Option TechnicalLine) (event : OperationEvent) (events : List OperationEvent)
    (o : Option (TechnicalLine × List OperationEvent))
    → event.technical ≡ t
    → Removed events o
    → Removed (event ∷ events) (take_line t event events o)
take_line-Removed none event events o h k = keep_event-Removed event events o h k
take_line-Removed (some line) event events o h k = (
  ap (λ t. lines_of t ++ technicals events) h,
  sym (ap (λ t. unless_line t event (normatives events)) h),
  refl,
)

pub remove_technical-Removed :
    (events : List OperationEvent) → Removed events (remove_technical events)
remove_technical-Removed [] = refl
remove_technical-Removed (event ∷ events) =
    take_line-Removed event.technical event events (remove_technical events) refl
      (remove_technical-Removed events)

-- A class that holds the events of a list holds them when one is taken away.
abbrev pub Rest :
    (List OperationEvent → Type 0) → Option (TechnicalLine × List OperationEvent) → Type 0
Rest P none = Unit
Rest P (some (line, rest)) = P rest

take_line-all :
    (p : OperationEvent → Bool) (t : Option TechnicalLine) (event : OperationEvent)
    (events : List OperationEvent) (o : Option (TechnicalLine × List OperationEvent))
    → all p (event ∷ events) ≡ true
    → Rest (λ rest. all p rest ≡ true) o
    → Rest (λ rest. all p rest ≡ true) (take_line t event events o)
take_line-all p (some line) event events o h k = and_right (p event) (all p events) h
take_line-all p none event events none h k = tt
take_line-all p none event events (some r) h k = ground arith

pub all-remove_technical :
    (p : OperationEvent → Bool) (events : List OperationEvent)
    → all p events ≡ true
    → Rest (λ rest. all p rest ≡ true) (remove_technical events)
all-remove_technical p [] h = tt
all-remove_technical p (event ∷ events) h =
    take_line-all p event.technical event events (remove_technical events) h
      (all-remove_technical p events (and_right (p event) (all p events) h))

take_line-increasing :
    (t : Option TechnicalLine) (event : OperationEvent) (events : List OperationEvent)
    (o : Option (TechnicalLine × List OperationEvent))
    → increasing (event ∷ events) ≡ true
    → Rest (λ rest. all (λ later. ltb event.sequence later.sequence) rest ≡ true) o
    → Rest (λ rest. increasing rest ≡ true) o
    → Rest (λ rest. increasing rest ≡ true) (take_line t event events o)
take_line-increasing (some line) event events o h k l = and_right _ (increasing events) h
take_line-increasing none event events none h k l = tt
take_line-increasing none event events (some r) h k l = ground arith

pub remove_technical-increasing :
    (events : List OperationEvent)
    → increasing events ≡ true
    → Rest (λ rest. increasing rest ≡ true) (remove_technical events)
remove_technical-increasing [] h = tt
remove_technical-increasing (event ∷ events) h =
    take_line-increasing event.technical event events (remove_technical events) h
      (all-remove_technical (λ later. ltb event.sequence later.sequence) events
        (and_left _ (increasing events) h))
      (remove_technical-increasing events (and_right _ (increasing events) h))
