-- ===== src/Lib.antt =====
-- A model of the CoreShift engine (crates/engine/src), the layer that watches which application is in
-- the foreground, names it by a cache of the installed packages, and reads files ahead.
--
-- A source (Foreground/Source) tells candidates: the pid, uid and package of the application in
-- front. `AutoForegroundSource` (Foreground/Auto) is one that falls back between two control-group
-- layouts (Foreground/CgroupV1, Foreground/CgroupV2; both put in by Foreground/Layouts) and the
-- activity manager. A manager (Foreground/Manager) drops a candidate that repeats the
-- last one, and its pipeline makes an event of each that is left and tells the invalidator
-- (Invalidator), which checks every so often whether the package file has changed. Events go through
-- `apply_events` (Watch): the reducer (State) folds them into the state, the dispatcher (Dispatch)
-- asks for actions, and the services (Services, Exec, Identity) perform these and answer with more
-- events. The runtime (Runtime) owns the configuration (Config), the package cache
-- (Foreground/Cache) and the invalidator, and rebuilds the cache from the listing that the package
-- command prints (Foreground/Cache/Parse, Foreground/Cache/Provider). Preload is the executor of
-- preload plans. Foreground/Resolver is a second way from payloads and uids to packages, which reports
-- each candidate it tried. Game is the list of games and the table of managed downscales. The watch
-- keeps its registrations in step with what the source hints at (Watch/Registrations), and a poll of it
-- turns ready tokens into calls of the pipeline (Watch/Poll); a step of the runtime is one such poll
-- (Runtime/Step). Socket has the loops over a stream.
--
-- Files and code, from crates/engine/src: Config is config.rs, Error error.rs, Events events/mod.rs,
-- State state.rs, Dispatch dispatch.rs, Exec exec/runner.rs, Runtime runtime.rs, Preload preload.rs,
-- Game game.rs, Services services/mod.rs, Identity services/identity.rs, Invalidator
-- services/identity_cache.rs, Watch services/watch.rs, and Foreground/Cache, Foreground/Source,
-- Foreground/Manager, Foreground/Auto and Foreground/Resolver are the files of the same names in
-- services/foreground; Foreground/CgroupV1 is its cgroup_v1.rs and Foreground/CgroupV2 its cgroup_v2.rs.
-- Socket is services/socket.rs.
-- Operations keep the names of the functions; a method of `AutoForegroundSource` has the prefix
-- `auto_`, one of the two control-group sources `v1_` or `v2_` where the name is taken, and a
-- constructor `new` is `new_` and what it makes. The child modules that do not stand
-- for a part of the code hold theorems. Base, Btree, Text and Paths model what the code uses of
-- Rust's standard library: lists, ordered maps and sets as ascending lists, text as code points, paths
-- as components. Samples and the Examples hold tests.
--
-- What is not under crates/engine/src is the record `Host`: the calls of coreshift-core and of
-- std::fs, each an action on a world that it takes and gives back, so that two calls may answer
-- differently and every order of calls is kept. A method that changes its object returns the new
-- object, on errors too. A field of a fixed width is a natural number (a cast `as usize` is the
-- identity, as on a target of 64 bits), the saturating counters are bounded where they are counted
-- up, and a uid that is parsed is below 2 ^ 32. The loop over the chunks of a file is recursion on
-- fuel: a chunk has a byte at least, so the length of the file is enough. The retry loop of the
-- manager has the three attempts of the code. The buffer that is filled from the descriptor of a
-- control group has 256 bytes, and a round puts one in at least, so 256 rounds are enough. The loops
-- over a stream may wait for it forever, so their fuel is a parameter, and their theorems ask for a
-- stream that is busy for a bounded number of rounds in a row.
--
-- Not modelled: the calls of coreshift-core that bind, connect and accept sockets; the parser of
-- /proc/mounts (services/foreground/cgroup_v2.rs); the closure around the output of the activity
-- manager (services/foreground/activity.rs), which the automatic source takes as a parameter; the
-- closing of descriptors that are dropped; the replacement of the file of downscales, which is
-- file-system work; and setters and accessors that only pass a call on.
pub mod Base
pub mod Btree
pub mod Text
pub mod Paths
pub mod Host
pub mod Error
pub mod Foreground
pub mod Identity
pub mod Events
pub mod State
pub mod Dispatch
pub mod Config
pub mod Exec
pub mod Services
pub mod Invalidator
pub mod Watch
pub mod Socket
pub mod Preload
pub mod Runtime
pub mod Game
pub mod Samples
