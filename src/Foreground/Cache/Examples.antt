-- ===== src/Foreground/Cache/Examples.antt =====
-- The theorems on the package cache at a small snapshot and a small listing.
use core_shift_engine.Base.{◌≡◌, refl, some, Each, nat_ord, text_ord, false, ◌==◌, ==_iff, ◌≢◌}
use core_shift_engine.Btree.Map
use core_shift_engine.Btree.Set
use core_shift_engine.Text.Chars.{Text, codes}
use core_shift_engine.Samples.{
  listing, sample_entries, sample_snapshot, stale_cache, chat_app, mail_app,
}
use core_shift_engine.Foreground.Cache.{
  PackageUidEntry, packages_for_uid, uid_for_package, update_from_snapshot, uid_state, fill,
  insert_each, insert_package, record_entry, exact,
}
use core_shift_engine.Foreground.Cache.Rebuild.{packages_of}
use core_shift_engine.Foreground.Cache.States.{
  Describes, uid_state-Describes, uid_for_package-exact,
}
use core_shift_engine.Foreground.Cache.Parse.{parse_cmd_package_list_stdout}
use core_shift_engine.Foreground.Cache.Parse.Names.{
  IsListed, parse_cmd_package_list_stdout-IsListed,
}
use core_shift_engine.Foreground.Cache.Parse.Sorting.{IsSorted}

-- In the rebuilt cache the chat application is the only one of its uid.
pub chat_app_known :
    uid_state (update_from_snapshot stale_cache sample_snapshot) 10001 ≡ exact chat_app
unfolding uid_state packages_for_uid update_from_snapshot fill insert_each insert_package
    record_entry Map.get Map.insert Set.insert
chat_app_known = refl

differ : (p : Text) → (p == chat_app) ≡ false → p ≢ chat_app
differ p h e = cc ((==_iff p chat_app).1 e)

one_uid : Each (λ (e : PackageUidEntry). e.package_name ≡ chat_app → e.uid ≡ 10001) sample_entries
unfolding text_ord
one_uid = (
  λ h. refl,
  (λ h. absurd (differ mail_app refl h), (λ h. absurd (differ (codes "com.mail.sync") refl h), tt)),
)

uid_state-Describes_example :
    Describes
      (packages_of 10002 sample_entries)
      (uid_state (update_from_snapshot stale_cache sample_snapshot) 10002)
uid_state-Describes_example = uid_state-Describes stale_cache sample_snapshot 10002

uid_for_package-exact_example :
    uid_for_package (update_from_snapshot stale_cache sample_snapshot) chat_app ≡ some 10001
uid_for_package-exact_example =
    uid_for_package-exact stale_cache sample_snapshot 10001 chat_app one_uid chat_app_known

parse_cmd_package_list_stdout-IsListed_example :
    Each IsListed (parse_cmd_package_list_stdout listing)
    × IsSorted (parse_cmd_package_list_stdout listing)
parse_cmd_package_list_stdout-IsListed_example = parse_cmd_package_list_stdout-IsListed listing
