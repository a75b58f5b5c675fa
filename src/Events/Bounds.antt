-- ===== src/Events/Bounds.antt =====
-- The loop of `trim_technical` ends within the limits (service/src/event_log.rs).
use lyraos_desktop_updater.Prelude.{
  nat_eq, option_eq, Bool-cases, length, text_list_eq, byte_len, text_eq, ℕ, zero, suc, ◌-◌, ◌<◌,
  ◌≡◌, refl, sym, ap, ◌∙◌, inl, inr, true, false, Option, none, some, List, [], ◌∷◌, arith,
}
use lyraos_desktop_updater.Events.{
  trim_technical, trim_round, trim_from, exceeds, TechnicalLine, OperationEvent, EventLog,
  remove_technical,
}
use lyraos_desktop_updater.Events.Trim.{
  remove_technical-Removed, too_many, IsCounted, Removed, Rest, technicals, normatives, newest,
  total,
}

-- A log that is trimmed to the newest lines within both limits; its other events are all kept.
abbrev pub IsTrimmed : EventLog → EventLog → Type 0
IsTrimmed log trimmed =
    (technicals trimmed.events ≡ newest (technicals log.events))
    × (normatives trimmed.events ≡ normatives log.events)
    × IsCounted trimmed
    × (exceeds trimmed ≡ false)
    × (trimmed.last_sequence ≡ log.last_sequence)
    × (trimmed.persistence_failed ≡ log.persistence_failed)

-- A loop's result, which is there and of a class.
abbrev pub Answer : (EventLog → Type 0) → Option EventLog → Type 0
Answer P none = ⊥
Answer P (some log) = P log

newest-within : (lines : List TechnicalLine) → too_many lines ≡ false → newest lines ≡ lines
newest-within [] h = refl
newest-within (line ∷ lines) h = rw h refl

exceeds-IsCounted :
    (log : EventLog) → IsCounted log → exceeds log ≡ too_many (technicals log.events)
exceeds-IsCounted log (a, b) = rw (a, b) refl

pub Answer-map :
    (P Q : EventLog → Type 0) (o : Option EventLog)
    → ((t : EventLog) → P t → Q t)
    → Answer P o
    → Answer Q o
Answer-map P Q none f h = h
Answer-map P Q (some t) f h = f t h

newest-shorter :
    (line : TechnicalLine) (lines : List TechnicalLine)
    → too_many (line ∷ lines) ≡ true
    → newest (line ∷ lines) ≡ newest lines
newest-shorter line lines h = rw h refl

counts-shorter :
    (line : TechnicalLine) (lines : List TechnicalLine) (n b : ℕ)
    → n ≡ length (line ∷ lines)
    → b ≡ total (line ∷ lines)
    → (n - 1 ≡ length lines) × (b - byte_len line.text ≡ total lines)
unfolding total
counts-shorter line lines n b h k = (omega arith, omega arith)

within_empty : (lines : List TechnicalLine) → lines ≡ [] → too_many lines ≡ true → ⊥
unfolding total
within_empty [] h k = cc
within_empty (line ∷ lines) h k = cc

trim_round-IsTrimmed :
    (log : EventLog) (o : Option (TechnicalLine × List OperationEvent))
    (next : EventLog → Option EventLog)
    → IsCounted log
    → too_many (technicals log.events) ≡ true
    → Removed log.events o
    → ((shorter : EventLog)
        → IsCounted shorter
        → suc (length shorter.events) ≡ length log.events
        → Answer (IsTrimmed shorter) (next shorter))
    → Answer (IsTrimmed log) (trim_round log o next)
trim_round-IsTrimmed log none next c e r k = absurd (within_empty (technicals log.events) r e)
trim_round-IsTrimmed log (some (line, rest)) next (cn, cb) e (a, b, n) k =
    let shorter = record log {
      events = rest;
      technical_lines = log.technical_lines - 1;
      technical_bytes = log.technical_bytes - byte_len line.text;
    } in
    let counted =
      counts-shorter line (technicals rest) log.technical_lines log.technical_bytes
        (cn ∙ ap length a) (cb ∙ ap total a) in
    let same = ap newest a ∙ newest-shorter line (technicals rest) (sym (ap too_many a) ∙ e) in
    Answer-map (IsTrimmed shorter) (IsTrimmed log) (next shorter)
      (λ t i. (i.0 ∙ sym same, i.1 ∙ b, i.2, i.3, i.4, i.5)) (k shorter counted n)

trim_from-IsTrimmed :
    (n : ℕ) (log : EventLog)
    → length log.events < n
    → IsCounted log
    → Answer (IsTrimmed log) (trim_from n log)
unfolding trim_from
trim_from-IsTrimmed zero log h c = absurd (omega arith)
trim_from-IsTrimmed (suc n) log h c = elim (Bool-cases (exceeds log)) [
  | inl e ↦ rw e (
      trim_round-IsTrimmed log (remove_technical log.events) (λ next. trim_from n next) c
        (sym (exceeds-IsCounted log c) ∙ e) (remove_technical-Removed log.events)
        (λ shorter counted len. trim_from-IsTrimmed n shorter (omega arith) counted))
  | inr e ↦ rw e (
    sym (newest-within (technicals log.events) (sym (exceeds-IsCounted log c) ∙ e)),
    refl,
    c,
    e,
    refl,
    refl,
  )
]

-- A log is trimmed whenever its counters are those of its events, and the loop ends.
pub trim_technical-IsTrimmed :
    (log : EventLog) → IsCounted log → Answer (IsTrimmed log) (trim_technical log)
unfolding trim_technical
trim_technical-IsTrimmed log c = trim_from-IsTrimmed (suc (length log.events)) log (omega arith) c

abbrev pub Holds : (List OperationEvent → Type 0) → Option EventLog → Type 0
Holds P none = Unit
Holds P (some log) = P log.events

-- What holds of the events, and of those that are left when one is taken away, holds of the trimmed ones.
trim_round-keeps :
    (P : List OperationEvent → Type 0) (log : EventLog)
    (o : Option (TechnicalLine × List OperationEvent)) (next : EventLog → Option EventLog)
    → P log.events
    → Rest P o
    → ((shorter : EventLog) → P shorter.events → Holds P (next shorter))
    → Holds P (trim_round log o next)
trim_round-keeps P log none next h r k = h
trim_round-keeps P log (some (line, rest)) next h r k = k _ r

pub trim_from-keeps :
    (P : List OperationEvent → Type 0)
    → ((events : List OperationEvent) → P events → Rest P (remove_technical events))
    → (n : ℕ) (log : EventLog) → P log.events
    → Holds P (trim_from n log)
unfolding trim_from
trim_from-keeps P r zero log h = tt
trim_from-keeps P r (suc n) log h = elim (Bool-cases (exceeds log)) [
  | inl e ↦ rw e (
      trim_round-keeps P log (remove_technical log.events) (λ next. trim_from n next) h
        (r log.events h) (λ shorter. trim_from-keeps P r n shorter))
  | inr e ↦ rw e h
]
