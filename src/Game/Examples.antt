-- ===== src/Game/Examples.antt =====
-- The game list and the table at small files.
use core_shift_engine.Base.{suc, ok, ◌≡◌, refl, [], ◌∷◌, arith, text_ord}
use core_shift_engine.Host.{Host}
use core_shift_engine.Samples.{sample_host, packages_xml}
use core_shift_engine.Text.Chars.{
  Text, codes, is_ascii_alphabetic, is_ascii_alphanumeric, is_ascii_digit, is_ascii_hexdigit,
}
use core_shift_engine.Text.Split.{split}
use core_shift_engine.Game.{
  ManagedGameDownscale, ManagedGameDownscales, valid_package_name, valid_package_segment,
  count_segments, parse_managed_game_downscales, render_managed_game_downscales,
  load_managed_game_downscales,
}
use core_shift_engine.Game.Rows.{IsManaged, parse-render_managed_game_downscales}
use core_shift_engine.Game.Parsed.{
  IsTable, Loads, load_managed_game_downscales-Loads, parse_managed_game_downscales_stable,
}

abbrev game : Text
game = codes "com.play.game"

abbrev sample_list : Text
sample_list = codes "# games\n com.play.game \nno_dot"

abbrev sample_row : ManagedGameDownscale
sample_row = record { package_name = game; overlay_hash = codes "00ff"; applied_ms = 1700 }

abbrev sample_table : ManagedGameDownscales
sample_table = record { entries = (game, sample_row) ∷ [] }

abbrev sample_file : Text
sample_file = codes "com.play.game\tperformance\t00ff\t1700\nbroken\n"

sample_row-IsManaged : IsManaged sample_row
unfolding valid_package_name valid_package_segment count_segments split is_ascii_alphabetic
    is_ascii_alphanumeric is_ascii_digit is_ascii_hexdigit
sample_row-IsManaged = record { named = refl; hashed = refl; timed = omega arith }

parse-render_managed_game_downscales_example :
    parse_managed_game_downscales (render_managed_game_downscales sample_table) ≡ sample_table
parse-render_managed_game_downscales_example =
    parse-render_managed_game_downscales sample_table (tt, tt) (refl, tt) (sample_row-IsManaged, tt)

parse_managed_game_downscales_stable_example :
    IsTable (parse_managed_game_downscales sample_file)
    × (parse_managed_game_downscales
          (render_managed_game_downscales (parse_managed_game_downscales sample_file))
        ≡ parse_managed_game_downscales sample_file)
parse_managed_game_downscales_stable_example = parse_managed_game_downscales_stable sample_file

-- Its files hold the sample.
abbrev game_host : Host
game_host = record sample_host { read = λ path w. (ok sample_file, suc w) }

load_managed_game_downscales-Loads_example :
    Loads game_host packages_xml 0 (load_managed_game_downscales game_host packages_xml 0)
load_managed_game_downscales-Loads_example =
    load_managed_game_downscales-Loads game_host packages_xml 0
