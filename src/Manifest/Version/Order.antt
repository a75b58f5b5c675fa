-- ===== src/Manifest/Version/Order.antt =====
-- The order of release versions (core/src/manifest.rs).
use lyraos_desktop_updater.Prelude.{
  nat_eq, option_eq, text_list_eq, Text, text_eq, ◌≡◌, true, false, arith,
}
use lyraos_desktop_updater.Manifest.Version.{Triple, lt_triple, valid_version_transition}

lt_triple-asymm : (a b : Triple) → lt_triple a b ≡ true → lt_triple b a ≡ false
lt_triple-asymm a b h = ground arith

lt_triple_trans :
    (a b c : Triple) → lt_triple a b ≡ true → lt_triple b c ≡ true → lt_triple a c ≡ true
lt_triple_trans a b c h k = ground arith

-- A release is never offered in both directions between two versions.
pub valid_version_transition-asymm :
    (source target : Text)
    → valid_version_transition source target ≡ true
    → valid_version_transition target source ≡ false
unfolding valid_version_transition
valid_version_transition-asymm source target h = grind (arith, lt_triple-asymm)

-- Two valid transitions in a row are a valid transition.
pub valid_version_transition_trans :
    (a b c : Text)
    → valid_version_transition a b ≡ true
    → valid_version_transition b c ≡ true
    → valid_version_transition a c ≡ true
unfolding valid_version_transition
valid_version_transition_trans a b c h k = grind (arith, lt_triple_trans, lt_triple-asymm)
