-- ===== src/Foreground/CgroupV2/Examples.antt =====
-- A source with one watch, on a host where its control group is active.
use core_shift_engine.Base.{
  suc, ◌≡◌, ◌+◌, ◌*◌, ◌^◌, refl, if◌then◌else◌, ltb, ◌==◌, nat_ord, [], ◌∷◌, ◌++◌, none, some, ok,
  arith,
}
use core_shift_engine.Text.Chars.{codes}
use core_shift_engine.Text.Decimal.{show}
use core_shift_engine.Btree.Set.{contains}
use core_shift_engine.Paths.{FilePath, join_name}
use core_shift_engine.Host.{Host}
use core_shift_engine.Samples.{sample_host, sample_filter, top_app, sample_snapshot}
use core_shift_engine.Foreground.Cache.{empty_cache, update_from_snapshot}
use core_shift_engine.Foreground.Source.{is_valid_uid, accepts}
use core_shift_engine.Foreground.CgroupV2.Parse.{parse_uid_dir_name, unknown}
use core_shift_engine.Foreground.CgroupV2.Names.{parse_uid_dir_name-show}
use core_shift_engine.Foreground.CgroupV2.{
  CgroupV2EventsSource, UidWatch, bare_v2, new_v2, events_name,
}
use core_shift_engine.Foreground.CgroupV2.Buffer.{buffer_len, fill_buffer}
use core_shift_engine.Foreground.CgroupV2.Filling.{ReadsAtMost, Fits, fill_buffer-Fits}
use core_shift_engine.Foreground.CgroupV2.Source.{v2_source}
use core_shift_engine.Foreground.CgroupV2.Watching.{IsWatching}
use core_shift_engine.Foreground.CgroupV2.Replies.{Replies}
use core_shift_engine.Foreground.CgroupV2.Contract.{is_proper, new_v2-IsWatching, v2_source-Replies}

-- A read puts one byte into a buffer with room.
abbrev active_host : Host
active_host = record sample_host {
  read = λ path w. (ok (codes "populated 1"), suc w);
  read_slice = λ fd n w. (ok (some (if n == 0 then [] else b'1' ∷ [])), suc w);
}

abbrev uid_dir : FilePath
uid_dir = join_name top_app (codes "uid_" ++ show 10001)

abbrev configured : CgroupV2EventsSource active_host
configured = record (bare_v2 {h = active_host} (top_app ∷ []) sample_filter) {
  package_cache = some (update_from_snapshot empty_cache sample_snapshot);
}

abbrev chat_watch : UidWatch active_host
chat_watch = record {
  uid = 10001;
  events_path = join_name uid_dir events_name;
  events_fd = 3;
  generation = 1;
  populated = unknown;
}

abbrev watching : CgroupV2EventsSource active_host
watching = record configured {
  watches = (join_name uid_dir events_name, chat_watch) ∷ [];
  next_watch_generation = 2;
}

parse_uid_dir_name-show_example :
    (parse_uid_dir_name uid_dir ≡ some 10001)
    × (parse_uid_dir_name (join_name top_app (b'u' ∷ (show 10 ++ (codes "_a" ++ show 123)))) ≡ (
        if ltb (10 * 100000 + 10000 + 123) (2 ^ 32)
        then some (10 * 100000 + 10000 + 123)
        else none))
parse_uid_dir_name-show_example =
    parse_uid_dir_name-show top_app 10001 10 123 (omega arith) (omega arith) (omega arith)

watching-IsWatching : IsWatching configured (is_proper configured) watching
unfolding is_valid_uid accepts contains
watching-IsWatching = record {
  same_roots = refl;
  same_hints = refl;
  same_filter = refl;
  same_cache = refl;
  watched = (
    (
      refl,
      refl,
      (
        uid_dir,
        (parse_uid_dir_name-show top_app 10001 0 0 (omega arith) (omega arith) (omega arith)).0,
        refl,
      ),
    ),
    tt,
  );
}

v2_source-Replies_example :
    Replies configured (is_proper configured) ((v2_source active_host).poll_current (watching, 0))
    × Replies configured
        (is_proper configured)
        ((v2_source active_host).handle_fs_event_with_mask uid_dir 0x100 (watching, 0))
    × Replies configured
        (is_proper configured)
        ((v2_source active_host).handle_priority_event uid_dir (watching, 0))
    × Replies configured
        (is_proper configured)
        ((v2_source active_host).handle_stale_priority_event uid_dir (watching, 0))
v2_source-Replies_example =
    v2_source-Replies configured watching uid_dir 0x100 0 watching-IsWatching

new_v2-IsWatching_example :
    let c = bare_v2 {h = active_host} (top_app ∷ []) sample_filter in
    IsWatching c (is_proper c) (new_v2 {h = active_host} (top_app ∷ []) sample_filter 0).0
new_v2-IsWatching_example = new_v2-IsWatching {h = active_host} (top_app ∷ []) sample_filter 0

one_byte : ReadsAtMost active_host 3
one_byte n w bytes e = ground arith

fill_buffer-Fits_example :
    (fill_buffer {h = active_host} 300 3 [] 0 ≡ fill_buffer buffer_len 3 [] 0)
    × Fits (fill_buffer {h = active_host} buffer_len 3 [] 0)
fill_buffer-Fits_example =
    fill_buffer-Fits active_host 3 one_byte buffer_len 300 [] 0 (omega arith) (omega arith)
      (omega arith)
