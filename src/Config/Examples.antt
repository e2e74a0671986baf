-- ===== src/Config/Examples.antt =====
-- Validation at a small configuration.
use core_shift_engine.Base.{◌≡◌, ◌↔◌, ok}
use core_shift_engine.Samples.{sample_config}
use core_shift_engine.Config.{validate}
use core_shift_engine.Config.Validation.{IsValid, validate_iff}

validate_iff_example : (validate sample_config ≡ ok tt) ↔ IsValid sample_config
validate_iff_example = validate_iff sample_config
