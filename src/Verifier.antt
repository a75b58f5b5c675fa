-- ===== src/Verifier.antt =====
-- verifier/src: what runs once after a boot. `Pending` looks for operations that the boot left behind,
-- `Boot` records the outcome of the checks.
pub mod Pending
pub mod Boot
