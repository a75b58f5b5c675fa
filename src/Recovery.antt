-- ===== src/Recovery.antt =====
-- core/src/recovery.rs: identities of Btrfs subvolumes and the goal of an explicit rollback. The
-- probes that run `btrfs`, and `parse_subvolume` that reads their output, are not here.
use lyraos_desktop_updater.Prelude.{
  ltb, if◌then◌else◌, ◌==◌, ◌!=◌, nat_eq, option_eq, is_none_or, all_at, contains, Text-discrete,
  text_list_eq, bytes, byte_len, Text, text_eq, is_ascii_upper, is_ascii_hexdigit, ℕ, Bool, not,
  ◌&&◌, Option, some, List, [], ◌∷◌, ℕ_discrete,
}

pub record SubvolumeIdentity : Type 0 where
  pub id : ℕ
  pub uuid : Text
  pub parent_uuid : Option Text

pub record RollbackGoal : Type 0 where
  pub source_snapshot_number : ℕ
  pub source_snapshot : SubvolumeIdentity
  pub boot_snapshot : Option SubvolumeIdentity

abbrev dash_positions : List ℕ
dash_positions = 8 ∷ 13 ∷ 18 ∷ 23 ∷ []

-- The test of one byte of a UUID at its place.
abbrev uuid_byte : ℕ → ℕ → Bool
uuid_byte i c =
    if contains dash_positions i then c == b'-' else is_ascii_hexdigit c && not (is_ascii_upper c)

unfoldable pub valid_uuid : Text → Bool
unfolding bytes byte_len ℕ_discrete
valid_uuid value = byte_len value == 36 && all_at 0 uuid_byte (bytes value)

unfoldable pub identity_valid : SubvolumeIdentity → Bool
unfolding valid_uuid
identity_valid s = ltb 5 s.id && valid_uuid s.uuid && is_none_or s.parent_uuid valid_uuid

unfoldable pub boot_valid : SubvolumeIdentity → SubvolumeIdentity → Bool
unfolding identity_valid Text-discrete
boot_valid source boot =
    identity_valid boot
    && boot.id != source.id
    && boot.uuid != source.uuid
    && boot.parent_uuid == some source.uuid

-- `RollbackGoal::valid`
unfoldable pub goal_valid : RollbackGoal → Option ℕ → Bool
unfolding boot_valid
goal_valid goal snapshot_number =
    ltb 0 goal.source_snapshot_number
    && snapshot_number == some goal.source_snapshot_number
    && identity_valid goal.source_snapshot
    && is_none_or goal.boot_snapshot (boot_valid goal.source_snapshot)
