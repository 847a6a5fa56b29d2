-- ===== src/Examples/Configuring.antt =====
-- candy-cli/src/config.cc at concrete inputs.
use candy.Base.{ℕ, if◌then◌else◌, ◌≡◌, refl, List, [], ◌∷◌, some}
use candy.Base.Int.{pos}
use candy.Base.Getline.{pieces}
use candy.Base.Chars.{is_space, skip_spaces, find_char, stoi, read_digits}
use candy.Base.Buffer.{same, bytes_eq}
use candy.Base.Map.{lookup, assign}
use candy.Config.File.{Poco, strip_tail, file_to_kv_map, add_lines, add_trimmed, key_value}
use candy.Config.Settings.{
  defaults, port_key, parse_file, handle_configs, handle_config, cfg_handlers, unquote,
}
use candy.Config.Lines.{Gaps, Line, setting, remark, blank, print_line, print_lines}

abbrev put : ℕ → List ℕ → List ℕ
put c [] = if is_space c then [] else c ∷ []
put c (d ∷ r) = c ∷ d ∷ r

-- A text without the white space at its end.
unfoldable strip_spaces : List ℕ → List ℕ
strip_spaces [] = []
strip_spaces (c ∷ s) = put c (strip_spaces s)

abbrev poco : Poco
poco = record { trim_left = skip_spaces; trim = λ s. strip_spaces (skip_spaces s) }

-- Two lines for the port, one of them as in `  port = "12" ;`, a remark and a blank line.
abbrev wide : Gaps
wide = record { indent = 32 ∷ 32 ∷ []; before = 32 ∷ []; after = 32 ∷ []; tail = 32 ∷ b';' ∷ [] }

abbrev tight : Gaps
tight = record { indent = []; before = []; after = []; tail = [] }

abbrev quoted : List ℕ
quoted = 34 ∷ b'1' ∷ b'2' ∷ 34 ∷ []

abbrev file : List Line
file =
    setting tight port_key (b'3' ∷ [])
    ∷ remark (9 ∷ []) (b'!' ∷ [])
    ∷ blank (32 ∷ [])
    ∷ setting wide port_key quoted
    ∷ []

-- The port that the command line gets from the file.
port_from_file :
    parse_file poco (print_lines file) defaults ≡ some (record defaults { port = pos 12 })
unfolding parse_file handle_configs handle_config cfg_handlers unquote file_to_kv_map add_lines
    add_trimmed key_value strip_tail skip_spaces strip_spaces print_lines print_line pieces
    find_char lookup assign same stoi read_digits
port_from_file = refl
