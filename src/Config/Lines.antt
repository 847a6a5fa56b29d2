-- ===== src/Config/Lines.antt =====
-- What a settings file says: the last value of each key.
use candy.Base.{
  not, ℕ, ◌≡◌, ◌≢◌, Bool, true, List, [], ◌∷◌, ◌++◌, All, Option, none, some, if◌then◌else◌,
}
use candy.Base.Buffer.{bytes_eq, same}
use candy.Base.Chars.{is_space, Lacks}
use candy.Base.Map.{Map, assign}
use candy.Config.File.{Poco, newline, equals, is_tail, strip_tail}

abbrev pub AllSpace : List ℕ → Type 0
AllSpace = All (λ c. is_space c ≡ true)

-- No white space in front, and none at the end.
abbrev pub front_solid : List ℕ → Bool
front_solid [] = true
front_solid (c ∷ s) = not (is_space c)

unfoldable pub back_solid : List ℕ → Bool
back_solid [] = true
back_solid (c ∷ []) = not (is_space c)
back_solid (c ∷ d ∷ s) = back_solid (d ∷ s)

-- trimLeft removes all white space in front of a text, and trim that on both sides.
pub record PocoLaws (p : Poco) : Type 0 where
  pub left : (ws s : List ℕ) → AllSpace ws → front_solid s ≡ true → p.trim_left (ws ++ s) ≡ s
  pub both :
      (ws s ws' : List ℕ)
      → AllSpace ws
      → AllSpace ws'
      → front_solid s ≡ true
      → back_solid s ≡ true
      → p.trim (ws ++ (s ++ ws')) ≡ s

-- What stands around a key and its value.
pub record Gaps : Type 0 where
  pub indent : List ℕ
  pub before : List ℕ
  pub after : List ℕ
  pub tail : List ℕ

-- A line with a key and a value, one that is a remark, or one of white space.
pub data Line : Type 0 where
  setting : Gaps → List ℕ → List ℕ → Line
  remark : List ℕ → List ℕ → Line
  blank : List ℕ → Line

unfoldable pub print_line : Line → List ℕ
print_line (setting g k v) = g.indent ++ (((k ++ g.before) ++ equals ∷ (g.after ++ v)) ++ g.tail)
print_line (remark indent s) = indent ++ b'#' ∷ s
print_line (blank ws) = ws

unfoldable pub print_lines : List Line → List ℕ
print_lines [] = []
print_lines (l ∷ ls) = print_line l ++ newline ∷ print_lines ls

abbrev pub or_before : Option (List ℕ) → Option (List ℕ) → Option (List ℕ)
or_before (some v) o = some v
or_before none o = o

-- The value in the last line of the key.
unfoldable pub last_value : List ℕ → List Line → Option (List ℕ)
last_value k [] = none
last_value k (remark indent s ∷ ls) = last_value k ls
last_value k (blank ws ∷ ls) = last_value k ls
last_value k (setting g j v ∷ ls) = or_before (last_value k ls) (if same j k then some v else none)

-- Key and value begin and end with no white space, which may stand around both of them; behind the
-- value stand only characters that are cut off, and it does not itself end with one.
pub record IsSetting (g : Gaps) (k v : List ℕ) : Type 0 where
  pub named : k ≢ []
  pub no_equals : Lacks equals k
  pub no_mark : Lacks b'#' k
  pub one_line : Lacks newline (print_line (setting g k v))
  pub indent_space : AllSpace g.indent
  pub before_space : AllSpace g.before
  pub after_space : AllSpace g.after
  pub tail_cut : All (λ c. is_tail c ≡ true) g.tail
  pub key_front : front_solid k ≡ true
  pub key_back : back_solid k ≡ true
  pub value_front : front_solid v ≡ true
  pub value_back : back_solid v ≡ true
  pub value_kept : strip_tail (g.after ++ v) ≡ g.after ++ v

unfoldable pub IsLine : Line → Type 0
IsLine (setting g k v) = IsSetting g k v
IsLine (remark indent s) = AllSpace indent × Lacks newline (print_line (remark indent s))
IsLine (blank ws) = AllSpace ws × Lacks newline ws

module _ (p : Poco) (laws : PocoLaws p) where
  added : Line → Map (List ℕ) (List ℕ) → Map (List ℕ) (List ℕ)
  added (setting g k v) m = assign k v m
  added (remark indent s) m = m
  added (blank ws) m = m

  all_added : List Line → Map (List ℕ) (List ℕ) → Map (List ℕ) (List ℕ)
  all_added [] m = m
  all_added (l ∷ ls) m = all_added ls (added l m)
