-- ===== src/Config.antt =====
-- config.rs: the settings and their validation.
pub mod Validation
mod Examples
use core_shift_engine.Base.{
  ℕ, ◌*◌, Bool, true, false, ◌&&◌, not, Option, none, some, List, [], ◌∷◌, Result, ok, err, ◌==◌,
  nat_ord, if◌then◌else◌, is_empty,
}
use core_shift_engine.Text.Chars.{Text, codes}
use core_shift_engine.Paths.{FilePath}
use core_shift_engine.Host.{Host}
use core_shift_engine.Error.{EngineError, invalid_config}

pub record ExecConfig (h : Host) : Type 0 where
  pub backend : h.Backend
  pub fd_policy : h.FdPolicy
  pub timeout_ms : Option ℕ
  pub max_output : ℕ
  pub allow_zero_max_output : Bool

pub data IdentityCacheProviderMode : Type 0 where
  disabled cmd_package_list : IdentityCacheProviderMode

-- The path of the command is only tested for emptiness and passed on, so it is its text.
pub record IdentityCacheConfig : Type 0 where
  pub provider_mode : IdentityCacheProviderMode
  pub cmd_path : Text
  pub user_id : ℕ

pub record IdentityCacheInvalidationConfig : Type 0 where
  pub packages_xml_path : FilePath
  pub foreground_check_interval : ℕ
  pub debounce_ms : ℕ

pub record EngineConfig (h : Host) : Type 0 where
  pub exec : ExecConfig h
  pub identity_cache : IdentityCacheConfig
  pub identity_cache_invalidation : IdentityCacheInvalidationConfig

abbrev pub default_exec_config : (h : Host) → ExecConfig h
default_exec_config h = record {
  backend = h.posix_spawn;
  fd_policy = h.cloexec_only;
  timeout_ms = none;
  max_output = 1024 * 1024;
  allow_zero_max_output = false;
}

abbrev pub default_identity_cache_config : IdentityCacheConfig
default_identity_cache_config = record { provider_mode = disabled; cmd_path = []; user_id = 0 }

abbrev pub default_invalidation_config : IdentityCacheInvalidationConfig
default_invalidation_config = record {
  packages_xml_path = [];
  foreground_check_interval = 1;
  debounce_ms = 0;
}

-- `EngineConfig::new`
abbrev pub new_config : {h : Host} → ExecConfig h → EngineConfig h
new_config exec = record {
  exec = exec;
  identity_cache = default_identity_cache_config;
  identity_cache_invalidation = default_invalidation_config;
}

unfoldable pub enabled : IdentityCacheInvalidationConfig → Bool
enabled c = not (is_empty c.packages_xml_path)

abbrev is_cmd_package_list : IdentityCacheProviderMode → Bool
is_cmd_package_list disabled = false
is_cmd_package_list cmd_package_list = true

unfoldable pub validate : {h : Host} → EngineConfig h → Result (Unit {0}) (EngineError h)
unfolding enabled
validate c =
    if c.exec.max_output == 0 && not c.exec.allow_zero_max_output
    then err (
        invalid_config (codes "exec.max_output")
          (codes "must be > 0 unless allow_zero_max_output is true"))
    else if is_cmd_package_list c.identity_cache.provider_mode && is_empty c.identity_cache.cmd_path
    then err (invalid_config (codes "identity_cache.cmd_path") (codes "must not be empty"))
    else if enabled c.identity_cache_invalidation
        && c.identity_cache_invalidation.foreground_check_interval == 0
    then err (
        invalid_config (codes "identity_cache_invalidation.foreground_check_interval")
          (codes "must be > 0"))
    else ok tt
