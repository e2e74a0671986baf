-- ===== src/Exec.antt =====
-- exec/runner.rs: processes run with the configured limits.
use core_shift_engine.Base.{Bool, true, false, List, Result, ok, err, Act}
use core_shift_engine.Text.Chars.{Text}
use core_shift_engine.Host.{Host, SpawnRequest}
use core_shift_engine.Error.{EngineError, core}
use core_shift_engine.Config.{ExecConfig}

abbrev pub request :
    {h : Host} → ExecConfig h → List Text → Bool → SpawnRequest h.Backend h.FdPolicy
request c argv capture_stdout = record {
  argv = argv;
  backend = c.backend;
  fd_policy = c.fd_policy;
  capture_stdout = capture_stdout;
  max_output = c.max_output;
  timeout_ms = c.timeout_ms;
}

abbrev pub from_core :
    {h : Host} → Result h.Output h.CoreError × h.World → Result h.Output (EngineError h) × h.World
from_core (ok output, w) = (ok output, w)
from_core (err e, w) = (err (core e), w)

unfoldable pub run : {h : Host} → ExecConfig h → List Text → Act (EngineError h) h.World h.Output
run {h} c argv w = from_core (h.spawn (request c argv false) w)

unfoldable pub run_capture_stdout :
    {h : Host} → ExecConfig h → List Text → Act (EngineError h) h.World h.Output
run_capture_stdout {h} c argv w = from_core (h.spawn (request c argv true) w)
