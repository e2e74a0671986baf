-- ===== src/Error.antt =====
-- error.rs: the error type of the engine and what it prints.
use core_shift_engine.Base.{◌++◌}
use core_shift_engine.Text.Chars.{Text, codes}
use core_shift_engine.Host.{Host, IoError}

pub data EngineError (h : Host) : Type 0 where
  core : h.CoreError → EngineError h
  io : IoError → EngineError h
  already_started not_started : EngineError h
  invalid_config : Text → Text → EngineError h

unfoldable pub message : {h : Host} → EngineError h → Text
message {h} (core e) = h.core_message e
message (io e) = e.message
message already_started = codes "runtime already started"
message not_started = codes "runtime not started"
message (invalid_config field reason) =
    codes "invalid config (" ++ (field ++ (codes ": " ++ (reason ++ codes ")")))
