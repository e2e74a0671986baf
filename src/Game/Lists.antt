-- ===== src/Game/Lists.antt =====
-- Which games a list has.
use core_shift_engine.Base.{◌≡◌, ◌∙◌, ◌&&◌, [], text_ord, keep}
use core_shift_engine.Btree.Set.{BtreeSet, contains, contains-insert_all, contains-keep}
use core_shift_engine.Text.Chars.{Text}
use core_shift_engine.Text.Split.{lines}
use core_shift_engine.Game.{
  GameList, is_game_line, trimmed, parse_game_list, game_targets_from_installed,
}

-- A list has just those packages that stand alone on a line, between white space, and are a valid
-- package name and no comment.
pub contains-parse_game_list :
    (text p : Text)
    → contains (parse_game_list text).packages p
      ≡ (contains (trimmed (lines text)) p && is_game_line p)
unfolding parse_game_list contains
contains-parse_game_list text p =
    contains-insert_all [] (keep is_game_line (trimmed (lines text))) p
    ∙ contains-keep is_game_line (trimmed (lines text)) p

-- The targets are the games of the list that are installed.
pub contains-game_targets_from_installed :
    (g : GameList) (installed : BtreeSet Text) (p : Text)
    → contains (game_targets_from_installed g installed).packages p
      ≡ (contains g.packages p && contains installed p)
unfolding game_targets_from_installed contains
contains-game_targets_from_installed g installed p =
    contains-insert_all [] (keep (contains installed) g.packages) p
    ∙ contains-keep (contains installed) g.packages p
