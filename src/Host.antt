-- ===== src/Host.antt =====
-- What the engine calls and does not implement: `coreshift_core` and the operating system behind
-- `std::fs`. A call takes the outside world and gives it back, so two calls may answer differently.
use core_shift_engine.Base.{ℕ, Bool, List, Option, Result, ℤ, Ord}
use core_shift_engine.Text.Chars.{Text}
use core_shift_engine.Paths.{FilePath}

pub data IoErrorKind : Type 0 where
  not_found permission_denied invalid_data other : IoErrorKind

-- `std::io::Error`: its kind and what `Display` prints.
pub record IoError : Type 0 where
  pub kind : IoErrorKind
  pub message : Text

-- The fields of `std::fs::Metadata` that are read.
pub record Metadata : Type 0 where
  pub dev : ℕ
  pub inode : ℕ
  pub size : ℕ
  pub mtime_sec : ℤ
  pub mtime_nsec : ℤ

-- What the builder of `coreshift_core::spawn::SpawnOptions` is told.
pub record SpawnRequest (Backend FdPolicy : Type 0) : Type 0 where
  pub argv : List Text
  pub backend : Backend
  pub fd_policy : FdPolicy
  pub capture_stdout : Bool
  pub max_output : ℕ
  pub timeout_ms : Option ℕ

-- `coreshift_core::inotify`: an event at the watch `wd`.
pub record InotifyEvent : Type 0 where
  pub wd : ℤ
  pub mask : ℕ
  pub name : Option (List ℕ)

-- `coreshift_core::reactor`: what is ready at a token.
pub record ReadyEvent (Token : Type 0) : Type 0 where
  pub token : Token
  pub readable : Bool
  pub priority : Bool
  pub error : Bool

pub record Host : Type 1 where
  pub World : Type 0
  pub CoreError : Type 0
  -- What `Display` prints for a Core error.
  pub core_message : CoreError → Text
  pub Output : Type 0
  -- `output.status == Some(ExitStatus::Exited(0))`
  pub exited_zero : Output → Bool
  pub stdout : Output → List ℕ
  pub Backend : Type 0
  pub posix_spawn : Backend
  pub FdPolicy : Type 0
  pub cloexec_only : FdPolicy
  -- `build` and `run`.
  pub spawn : SpawnRequest Backend FdPolicy → World → Result Output CoreError × World
  -- `CoreError::raw_os_error`
  pub raw_os_error : CoreError → Option ℤ
  -- A registration at the reactor. Tokens are keys of hash maps, of which only equality counts.
  pub Token : Type 0
  pub token_ord : Ord Token
  -- The reactor: it is made with its inotify descriptor, and both are part of the world.
  pub reactor_new : World → Result (Unit {0}) CoreError × World
  pub setup_inotify : World → Result (Unit {0}) CoreError × World
  pub inotify_token : World → Option Token
  -- The count of ready events, and these, at most the given number, within the timeout.
  pub wait : ℕ → ℤ → World → Result (ℕ × List (ReadyEvent Token)) CoreError × World
  pub parent_watch_mask : ℕ
  pub add_watch : FilePath → ℕ → World → Result ℤ CoreError × World
  pub remove_watch : ℤ → World → Result (Unit {0}) CoreError × World
  pub read_events : World → Result (List InotifyEvent) CoreError × World
  pub Fd : Type 0
  -- `Reactor::add` for reading, `add_priority` and `del`, of an open file.
  pub add_readable : Fd → World → Result Token CoreError × World
  pub add_priority : Fd → World → Result Token CoreError × World
  pub del : Fd → World → Result (Unit {0}) CoreError × World
  -- `Fd::seek_set`, `Fd::read_slice` with the bytes that it read, and `Fd::write_slice`.
  pub seek_set : Fd → ℕ → World → Result (Unit {0}) CoreError × World
  pub read_slice : Fd → ℕ → World → Result (Option (List ℕ)) CoreError × World
  pub write_slice : Fd → List ℕ → World → Result (Option ℕ) CoreError × World
  -- `Fd::from_owned_raw_fd`
  pub from_owned_raw_fd : Fd → World → Result Fd CoreError × World
  -- `std::fs::read_dir` with the entries that can be read, and the tests on paths.
  pub read_dir : FilePath → World → Result (List FilePath) IoError × World
  pub is_dir : FilePath → World → Bool
  pub is_file : FilePath → World → Bool
  pub exists : FilePath → World → Bool
  -- `coreshift_core::proc` and `coreshift_core::uid`: the command line and the uid of a process.
  pub read_proc_cmdline_at : FilePath → ℤ → World → Result Text CoreError × World
  pub proc_stat_uid : FilePath → ℤ → World → Result ℕ CoreError × World
  -- An open file. `open` is `File::open`, the other two are `coreshift_core::fs`.
  pub open_file : FilePath → World → Result Fd IoError × World
  pub readahead : Fd → ℕ → ℕ → World → Result (Unit {0}) CoreError × World
  pub mmap_madvise : Fd → ℕ → ℕ → Bool → World → Result (Unit {0}) CoreError × World
  pub metadata : FilePath → World → Result Metadata IoError × World
  -- `std::fs::read`
  pub read : FilePath → World → Result (List ℕ) IoError × World
