-- ===== src/Config/File.antt =====
-- arguments::fileToKvMap of candy-cli/src/config.cc: the keys and values of a settings file.
use candy.Base.{
  ℕ, ◌+◌, Bool, true, false, ◌&&◌, ◌||◌, List, [], ◌∷◌, Option, none, some, if◌then◌else◌, ◌==◌,
  take, drop,
}
use candy.Base.Buffer.{bytes_eq}
use candy.Base.Chars.{find_char}
use candy.Base.Map.{Map, assign}
use candy.Base.Getline.{pieces}

-- Poco::trimLeft and Poco::trim.
pub record Poco : Type 0 where
  pub trim_left : List ℕ → List ℕ
  pub trim : List ℕ → List ℕ

abbrev pub newline : ℕ
newline = 10

abbrev pub equals : ℕ
equals = b'='

-- One of " \t;".
abbrev pub is_tail : ℕ → Bool
is_tail c = c == b' ' || (c == 9 || c == b';')

abbrev is_empty : List ℕ → Bool
is_empty [] = true
is_empty (c ∷ s) = false

-- line.erase(line.find_last_not_of(" \t;") + 1)
unfoldable pub strip_tail : List ℕ → List ℕ
strip_tail [] = []
strip_tail (c ∷ s) = let rest = strip_tail s in if is_tail c && is_empty rest then [] else c ∷ rest

-- A key and a value, unless the line has no equals sign.
unfoldable pub key_value : Poco → List ℕ → Option (List ℕ × List ℕ)
key_value p s = elim (find_char equals s) [
  | none ↦ none
  | some i ↦ some (p.trim (take i s), p.trim (drop (i + 1) s))
]

abbrev pub add_entry : Option (List ℕ × List ℕ) → Map (List ℕ) (List ℕ) → Map (List ℕ) (List ℕ)
add_entry none m = m
add_entry (some (k, v)) m = assign k v m

-- A line whose white space on the left has been taken away.
unfoldable pub add_trimmed : Poco → List ℕ → Map (List ℕ) (List ℕ) → Map (List ℕ) (List ℕ)
add_trimmed p [] m = m
add_trimmed p (c ∷ s) m = if c == b'#' then m else add_entry (key_value p (strip_tail (c ∷ s))) m

unfoldable pub add_lines : Poco → List (List ℕ) → Map (List ℕ) (List ℕ) → Map (List ℕ) (List ℕ)
add_lines p [] m = m
add_lines p (l ∷ ls) m = add_lines p ls (add_trimmed p (p.trim_left l) m)

-- The map of a file's bytes; a file that cannot be opened has none.
unfoldable pub file_to_kv_map : Poco → List ℕ → Map (List ℕ) (List ℕ)
file_to_kv_map p text = add_lines p (pieces newline text) []
