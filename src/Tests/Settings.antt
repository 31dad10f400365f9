-- ===== src/Tests/Settings.antt =====
-- The settings and the requests for GodMode at concrete texts.
use open_scum_rcon.Base.{◌≡◌, refl, true, some, ◌++◌, Bytes, text, same_text, all_bytes}
use mathlib.Core.Option
use open_scum_rcon.Trim.{trim, find_first_not_of, find_last_not_of, is_blank}
use open_scum_rcon.Config.{
  Config, default_config, split_at, lines_of, skip_space, leading_digits, stoi_port, assignment,
  set_key, load_line, load_lines, load_config,
}
use open_scum_rcon.Config.Last.{IsLoaded, load_config-IsLoaded}
use open_scum_rcon.Request.{lower_ascii, strip_hash, steam_id_valid}
use open_scum_rcon.GodMode.{prepare, next_word, action_of, parse_target, parse_value, parse}
use open_scum_rcon.GodMode.Parsed.{sets, words, request_of, parse-words}

abbrev settings : Bytes
settings = text "; a comment\nport = 1\npassword = a=b # not this\nport=28015\n"

abbrev read_settings : Config
read_settings = record { bind_host = text "0.0.0.0"; port = 28015; password = text "a=b" }

settings_read : load_config (some settings) ≡ some read_settings
unfolding load_config load_lines lines_of load_line assignment set_key split_at stoi_port skip_space
    leading_digits trim find_first_not_of find_last_not_of is_blank same_text text Option.bind
settings_read = refl

load_config-IsLoaded_example : IsLoaded (lines_of settings) default_config read_settings
load_config-IsLoaded_example = load_config-IsLoaded settings read_settings settings_read

abbrev id : Bytes
id = text "76561198000000001"

parse-words_example : parse (words (sets true) ++ id) ≡ request_of (sets true) id
unfolding steam_id_valid all_bytes text
parse-words_example = parse-words (sets true) id refl

prepared : (parse (text "#!GodMode_Prepare 76561198000000001\r\n")).action ≡ prepare
unfolding parse parse_value parse_target next_word split_at skip_space lower_ascii strip_hash
    action_of steam_id_valid same_text text all_bytes
prepared = refl
