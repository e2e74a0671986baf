-- ===== src/Samples.antt =====
-- Concrete data for the tests: a host that answers, a listing, a source, and the settings.
use core_shift_engine.Base.{
  ◌+◌, min, length, nat_ord, ℕ, suc, Bool, true, false, List, [], ◌∷◌, Option, none, some, ok, err,
  pos, Act,
}
use core_shift_engine.Text.Chars.{Text, codes}
use core_shift_engine.Paths.{FilePath, root_dir, normal}
use core_shift_engine.Host.{Host}
use core_shift_engine.Error.{EngineError, core}
use core_shift_engine.Config.{
  EngineConfig, ExecConfig, IdentityCacheInvalidationConfig, cmd_package_list,
}
use core_shift_engine.Invalidator.{IdentityCacheInvalidator}
use core_shift_engine.Foreground.Cache.{
  PackageUidEntry, PackageUidSnapshot, UidPackageCache, empty_cache,
}
use core_shift_engine.Foreground.Cache
use core_shift_engine.Foreground.Source.{
  ForegroundCandidate, ForegroundCandidateFilter, ForegroundSource, cgroup_v1,
}
use core_shift_engine.Foreground.Manager.{ForegroundManager}
use core_shift_engine.Preload.{PreloadTarget, PreloadLimits, chunked_readahead, mmap_madvise}

abbrev pub listing : Text
listing = codes "package:com.chat.app uid:10001 package:com.mail.app uid:10002"

-- The world is the number of calls so far; a process exits with 0 and prints the listing.
abbrev pub sample_host : Host
sample_host = record {
  World = ℕ;
  CoreError = Text;
  core_message = λ e. e;
  Output = Bool × List ℕ;
  exited_zero = λ o. o.0;
  stdout = λ o. o.1;
  Backend = Unit {0};
  posix_spawn = tt;
  FdPolicy = Unit {0};
  cloexec_only = tt;
  spawn = λ request w. (ok (true, listing), suc w);
  raw_os_error = λ e. none;
  Token = ℕ;
  token_ord = nat_ord;
  reactor_new = λ w. (ok tt, suc w);
  setup_inotify = λ w. (ok tt, suc w);
  inotify_token = λ w. some 1;
  wait = λ n timeout w.
      (ok (1, record { token = 1; readable = true; priority = false; error = false } ∷ []), suc w);
  parent_watch_mask = 256;
  add_watch = λ path mask w. (ok (pos w), suc w);
  remove_watch = λ wd w. (ok tt, suc w);
  read_events = λ w. (ok (record { wd = pos 3; mask = 2; name = none } ∷ []), suc w);
  Fd = ℕ;
  add_readable = λ fd w. (ok (fd + 10), suc w);
  add_priority = λ fd w. (ok (fd + 20), suc w);
  del = λ fd w. (ok tt, suc w);
  seek_set = λ fd offset w. (ok tt, suc w);
  read_slice = λ fd n w. (ok none, suc w);
  write_slice = λ fd bytes w. (ok (some (min 2 (length bytes))), suc w);
  from_owned_raw_fd = λ fd w. (ok fd, suc w);
  read_dir = λ path w. (ok [], suc w);
  is_dir = λ path w. true;
  is_file = λ path w. true;
  exists = λ path w. true;
  read_proc_cmdline_at = λ root pid w. (ok (codes "com.chat.app:ui"), suc w);
  proc_stat_uid = λ root pid w. (ok 10001, suc w);
  open_file = λ path w. (ok 3, suc w);
  readahead = λ fd offset len w. (ok tt, suc w);
  mmap_madvise = λ fd offset len touch w. (err (codes "no map"), suc w);
  metadata = λ path w.
      (ok (record { dev = 1; inode = 2; size = 3; mtime_sec = pos w; mtime_nsec = pos 0 }), suc w);
  read = λ path w. (ok [], suc w);
}

abbrev pub chat_app : Text
chat_app = codes "com.chat.app"

abbrev pub mail_app : Text
mail_app = codes "com.mail.app"

abbrev pub sample_entries : List PackageUidEntry
sample_entries =
    record { package_name = chat_app; uid = 10001; base_apk_path = none }
    ∷ record { package_name = mail_app; uid = 10002; base_apk_path = none }
    ∷ record { package_name = codes "com.mail.sync"; uid = 10002; base_apk_path = none }
    ∷ []

abbrev pub sample_snapshot : PackageUidSnapshot
sample_snapshot = record {
  entries = sample_entries;
  source = Cache.cmd_package_list;
  coherent = true;
}

-- A cache that knows something else.
abbrev pub stale_cache : UidPackageCache
stale_cache = record empty_cache { package_to_uid = (mail_app, 10007) ∷ []; coherent = true }

abbrev pub sample_filter : ForegroundCandidateFilter
sample_filter = record {
  blocked_uids = 10002 ∷ [];
  accessibility_uids = [];
  blocked_packages = mail_app ∷ [];
  allow_system_uids = false;
  uid_remainder_filter = some (record { modulus = 100000; min_remainder = 10000 });
}

abbrev pub chat_candidate : ForegroundCandidate
chat_candidate = record {
  source = cgroup_v1;
  pid = some (pos 41);
  uid = some 10001;
  package_name = some chat_app;
  identity_resolved = true;
}

abbrev pub mail_candidate : ForegroundCandidate
mail_candidate = record chat_candidate { uid = some 10002; package_name = some mail_app }

abbrev pub packages_xml : FilePath
packages_xml = root_dir ∷ normal (codes "packages.xml") ∷ []

abbrev pub top_app : FilePath
top_app = root_dir ∷ normal (codes "top-app") ∷ []

abbrev pub sample_exec : ExecConfig sample_host
sample_exec = record {
  backend = tt;
  fd_policy = tt;
  timeout_ms = none;
  max_output = 4096;
  allow_zero_max_output = false;
}

abbrev pub sample_invalidation : IdentityCacheInvalidationConfig
sample_invalidation = record {
  packages_xml_path = packages_xml;
  foreground_check_interval = 3;
  debounce_ms = 0;
}

abbrev pub sample_config : EngineConfig sample_host
sample_config = record {
  exec = sample_exec;
  identity_cache = record { provider_mode = cmd_package_list; cmd_path = codes "cmd"; user_id = 0 };
  identity_cache_invalidation = sample_invalidation;
}

abbrev pub sample_invalidator : IdentityCacheInvalidator
sample_invalidator = record {
  config = sample_invalidation;
  foreground_count = 0;
  packages_xml_fingerprint = none;
  dirty = record { packages_xml_changed = true };
}

-- A source that tells the chat and the mail application in turn; `false` stands for the first.
abbrev pub turn : Act (EngineError sample_host) (Bool × ℕ) (Option ForegroundCandidate)
turn (false, w) = (ok (some chat_candidate), (true, suc w))
turn (true, w) = (ok (some mail_candidate), (false, suc w))

-- A source that fails.
abbrev pub failing : Act (EngineError sample_host) (Bool × ℕ) (Option ForegroundCandidate)
failing (s, w) = (err (core (codes "gone")), (s, suc w))

abbrev pub source_with :
    Act (EngineError sample_host) (Bool × ℕ) (Option ForegroundCandidate)
    → ForegroundSource sample_host Bool
source_with act = record {
  kind = λ s. cgroup_v1;
  poll_current = act;
  handle_fs_event_with_mask = λ path mask t. act t;
  watch_hint_paths = λ s. top_app ∷ [];
  is_available = λ s w. true;
  watch_hint_mask = λ s path. 2;
  register_priority_fds = λ s registered w. (ok [], w);
  priority_hint_paths = λ s. [];
  priority_hint_keys = λ s. [];
  handle_priority_event = λ path t. act t;
  handle_stale_priority_event = λ path t. act t;
  unregister_priority_fd = λ s path w. (ok false, w);
}

abbrev pub sample_manager : ForegroundManager Bool
sample_manager = record { source = false; last_payload = some chat_candidate }

abbrev pub sample_activity : Act (EngineError sample_host) ℕ (Option ForegroundCandidate)
sample_activity w = (ok none, suc w)

abbrev pub sample_limits : PreloadLimits
sample_limits = record {
  mmap_madvise_max_bytes = some 7;
  mmap_touch_max_bytes = none;
  asset_max_bytes = some 20;
  chunk_bytes = 8;
}

abbrev pub map_target : PreloadTarget
map_target = record { path = top_app; method = mmap_madvise; len = 9 }

abbrev pub chunk_target : PreloadTarget
chunk_target = record { path = packages_xml; method = chunked_readahead; len = 30 }
