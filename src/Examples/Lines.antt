-- ===== src/Examples/Lines.antt =====
-- Runs of the cleaning of technical lines and of the event log (core/src/sanitize.rs and
-- service/src/event_log.rs).
use lyraos_desktop_updater.Prelude.{
  nat_eq, option_eq, is_some, all, text_list_eq, utf8, byte_len, Text, codes, text_eq, ◌≤◌, ◌≡◌,
  refl, true, false, none, some, [], ◌∷◌, ◌++◌, arith, ℕ_discrete,
}
use lyraos_desktop_updater.Domain.{downloading}
use lyraos_desktop_updater.Sanitize.{
  SanitizedLine, sanitize_technical_line, masked_line, strip_terminal_controls, strip_from,
  strip_step, truncate_utf8,
}
use lyraos_desktop_updater.Sanitize.Masks.{
  mask_home_paths, mask_home_from, mask_urls, mask_urls_from, mask_assignments, mask_key_from,
  mask_url,
}
use lyraos_desktop_updater.Sanitize.Lines.{
  is_clean, sanitize_technical_line-clean, sanitize_technical_line-is_some,
  sanitize_technical_line-panic,
}
use lyraos_desktop_updater.Events.{
  restore, push_technical, stored_line, OperationEvent, EventLog, technical_event, zypper_stdout,
}
use lyraos_desktop_updater.Events.Pushes.{IsSound, IsPushed, IsDone, push_technical-IsPushed}
use lyraos_desktop_updater.Events.Restored.{restore-IsSound}
use lyraos_desktop_updater.Events.Bounds.{Answer}
use lyraos_desktop_updater.Events.Trim.{normatives, newest, technicals, total}
use lyraos_desktop_updater.Examples.{operation_id}

-- Bold text that names a home directory and a password.
abbrev raw_line : Text
raw_line = 0x1b ∷ codes "[1m/home/ann/x https://u:p@h/r?q=1 token=abc&" ++ 0x7f ∷ 10 ∷ []

abbrev clean_line : SanitizedLine
clean_line = record {
  text = codes "/home/<user>/x https://***@h/r?*** token=***& ";
  truncated = false;
}

cleaned : sanitize_technical_line raw_line ≡ some clean_line
unfolding sanitize_technical_line masked_line strip_terminal_controls strip_from strip_step
    mask_home_paths mask_home_from mask_urls mask_urls_from mask_assignments mask_key_from mask_url
    truncate_utf8 byte_len
cleaned = refl

sanitize_technical_line-clean_example :
    (byte_len (codes "/home/<user>/x https://***@h/r?*** token=***& ") ≤ 4096)
    × (all is_clean (codes "/home/<user>/x https://***@h/r?*** token=***& ") ≡ true)
sanitize_technical_line-clean_example = sanitize_technical_line-clean raw_line clean_line cleaned

sanitize_technical_line-is_some_example : is_some (sanitize_technical_line raw_line) ≡ true
unfolding ℕ_discrete
sanitize_technical_line-is_some_example = sanitize_technical_line-is_some raw_line refl

-- An escape before the letter é.
sanitize_technical_line-panic_example :
    sanitize_technical_line (codes "zypper " ++ 0x1b ∷ 0xe9 ∷ codes "t") ≡ none
unfolding ℕ_discrete utf8
sanitize_technical_line-panic_example =
    sanitize_technical_line-panic (codes "zypper ") (codes "t") 0xe9 refl refl

abbrev second_event : OperationEvent
second_event = technical_event operation_id 2 (codes "2026-01-01T00:00:00Z") downloading

abbrev first_event : OperationEvent
first_event = record second_event { sequence = 1 }

abbrev started_log : EventLog
started_log = record {
  events = first_event ∷ [];
  technical_lines = 0;
  technical_bytes = 0;
  last_sequence = 1;
  persistence_failed = false;
}

push_technical-IsPushed_example :
    IsDone
      (IsPushed started_log second_event (stored_line zypper_stdout clean_line))
      (push_technical second_event zypper_stdout raw_line started_log)
unfolding ℕ_discrete total
push_technical-IsPushed_example =
    push_technical-IsPushed second_event zypper_stdout raw_line clean_line started_log
      ((refl, refl), refl, (refl, refl)) (omega arith) cleaned

restore-IsSound_example :
    Answer
      (λ log.
        IsSound log
        × (technicals log.events ≡ newest [])
        × (normatives log.events ≡ first_event ∷ second_event ∷ []))
      (restore (first_event ∷ second_event ∷ []))
unfolding total
restore-IsSound_example =
    restore-IsSound (first_event ∷ second_event ∷ []) refl (omega arith) (omega arith)
