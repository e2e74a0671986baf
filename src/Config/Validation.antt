-- ===== src/Config/Validation.antt =====
-- Which configurations pass, and which error the others meet.
use core_shift_engine.Base.{◌<◌, ◌≡◌, ◌≢◌, ◌↔◌, true, ok, arith, nat_ord, []}
use core_shift_engine.Host.{Host}
use core_shift_engine.Config.{EngineConfig, cmd_package_list, validate}

-- The settings that a runtime can start with.
pub record IsValid {h : Host} (c : EngineConfig h) : Type 0 where
  pub output_bounded : c.exec.max_output ≡ 0 → c.exec.allow_zero_max_output ≡ true
  pub command_known :
      c.identity_cache.provider_mode ≡ cmd_package_list → c.identity_cache.cmd_path ≢ []
  pub interval_pos :
      c.identity_cache_invalidation.packages_xml_path ≢ []
      → 0 < c.identity_cache_invalidation.foreground_check_interval

-- Validation passes exactly the configurations whose output limit is not 0 unless that is allowed,
-- whose package command is not empty if it is used, and whose check interval is not 0 if there is a
-- file to check.
pub validate_iff : {h : Host} (c : EngineConfig h) → (validate c ≡ ok tt) ↔ IsValid c
unfolding validate
validate_iff c = (to, from)
  where
    to : validate c ≡ ok tt → IsValid c
    to e = record {
      output_bounded = λ z. ground arith;
      command_known = λ m z. ground arith;
      interval_pos = λ p. ground arith;
    }

    from : IsValid c → validate c ≡ ok tt
    from v = ground (arith, v.output_bounded, v.command_known, v.interval_pos)
