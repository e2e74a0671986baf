-- ===== src/Foreground/Cache/Provider.antt =====
-- `CmdPackageListProvider` of services/foreground/cache.rs: the snapshot from the package command.
pub mod Coherence
use core_shift_engine.Base.{ℕ, Bool, List, [], ◌∷◌, Result, ok, err, Act, if◌then◌else◌}
use core_shift_engine.Text.Chars.{Text, codes}
use core_shift_engine.Text.Decimal.{show}
use core_shift_engine.Host.{Host}
use core_shift_engine.Error.{EngineError}
use core_shift_engine.Config.{ExecConfig}
use core_shift_engine.Exec.{run_capture_stdout}
use core_shift_engine.Foreground.Cache.{PackageUidSnapshot, PackageUidEntry, cmd_package_list}
use core_shift_engine.Foreground.Cache.Parse.{parse_cmd_package_list_stdout, is_coherent}

pub record CmdPackageListProvider (h : Host) : Type 0 where
  pub exec : ExecConfig h
  pub cmd_path : Text
  pub user : ℕ
  pub min_entries : ℕ

abbrev pub default_min_entries : ℕ
default_min_entries = 5

-- `CmdPackageListProvider::new`
abbrev pub new_provider : {h : Host} → ExecConfig h → Text → ℕ → CmdPackageListProvider h
new_provider exec cmd_path user = record {
  exec = exec;
  cmd_path = cmd_path;
  user = user;
  min_entries = default_min_entries;
}

abbrev pub list_packages : Text → ℕ → List Text
list_packages cmd_path user =
    cmd_path
    ∷ codes "package"
    ∷ codes "list"
    ∷ codes "packages"
    ∷ codes "-U"
    ∷ codes "--user"
    ∷ show user
    ∷ []

-- What a failing exit of the command prints is not read.
abbrev pub entries_of : (h : Host) → h.Output → List PackageUidEntry
entries_of h output =
    if h.exited_zero output then parse_cmd_package_list_stdout (h.stdout output) else []

abbrev pub snapshot_of : (h : Host) → h.Output → ℕ → PackageUidSnapshot
snapshot_of h output min_entries = record {
  entries = entries_of h output;
  source = cmd_package_list;
  coherent = is_coherent (entries_of h output) min_entries;
}

abbrev listed :
    {h : Host}
    → ℕ
    → Result h.Output (EngineError h) × h.World
    → Result PackageUidSnapshot (EngineError h) × h.World
listed {h} min_entries (ok output, w) = (ok (snapshot_of h output min_entries), w)
listed min_entries (err e, w) = (err e, w)

-- `load`
unfoldable pub load :
    {h : Host} → CmdPackageListProvider h → Act (EngineError h) h.World PackageUidSnapshot
load p w = listed p.min_entries (run_capture_stdout p.exec (list_packages p.cmd_path p.user) w)
