-- ===== src/Commands/EnvFile.antt =====
-- internal/commands/executor.go, readEnvFile and writeEnvFile, on the text of the file. The quoting of
-- fmt's %q and strconv.Unquote are parameters.
pub mod RoundTrip
use Prim.Native.Char.{Char, code}
use Prim.Native.String.{◌++◌}
use mantlerd.Base.{
  ℕ, Bool, true, false, ◌&&◌, ◌||◌, String, List, [], ◌∷◌, Option, none, some, map, split, join,
  sort, text_le, has_prefix, str_eq, trim_space, ◌==◌, if◌then◌else◌,
}
use mantlerd.Base.Dict.{Dict, lookup, put, keys}

pub record Quoting : Type 0 where
  -- %q
  pub quoted : String → String
  -- strconv.Unquote, where it gives no error
  pub unquote : String → Option String

-- `len(val) >= 2`, for the texts that begin with an ASCII character.
abbrev pub is_longer : String → Bool
is_longer String.[] = false
is_longer (String.◌∷◌ c String.[]) = false
is_longer (String.◌∷◌ c (String.◌∷◌ d s)) = true

-- strings.HasSuffix at one character
unfoldable pub ends_with : Char → String → Bool
ends_with d String.[] = false
ends_with d (String.◌∷◌ c s) = elim s [
  | String.[] ↦ code c == code d
  | String.◌∷◌ e t ↦ ends_with d s
]

abbrev pub without_first : String → String
without_first String.[] = ""
without_first (String.◌∷◌ c s) = s

abbrev pub before_last : Char → String → String → String
before_last c String.[] rest = ""
before_last c (String.◌∷◌ d s) rest = String.◌∷◌ c rest

unfoldable pub without_last : String → String
without_last String.[] = ""
without_last (String.◌∷◌ c s) = before_last c s (without_last s)

-- strings.Trim at one character
unfoldable pub drop_leading : Char → String → String
drop_leading d String.[] = ""
drop_leading d (String.◌∷◌ c s) =
    let rest = drop_leading d s in if code c == code d then rest else String.◌∷◌ c s

abbrev pub unless_last : Char → Char → String → String
unless_last d c String.[] = if code c == code d then "" else String.◌∷◌ c ""
unless_last d c (String.◌∷◌ e s) = String.◌∷◌ c (String.◌∷◌ e s)

unfoldable pub drop_trailing : Char → String → String
drop_trailing d String.[] = ""
drop_trailing d (String.◌∷◌ c s) = unless_last d c (drop_trailing d s)

abbrev pub trim_char : Char → String → String
trim_char d s = drop_trailing d (drop_leading d s)

abbrev pub before_cut : Char → Option (String × String) → Option (String × String)
before_cut c none = none
before_cut c (some (a, b)) = some (String.◌∷◌ c a, b)

-- The two parts of strings.SplitN(s, sep, 2), where there are two.
unfoldable pub cut : Char → String → Option (String × String)
cut sep String.[] = none
cut sep (String.◌∷◌ c s) =
    let rest = before_cut c (cut sep s) in if code c == code sep then some ("", s) else rest

abbrev pub or_empty : Option String → String
or_empty none = ""
or_empty (some s) = s

module _ (q : Quoting) where
  abbrev pub unquoted : String → Option String → String
  unquoted val none = trim_char "\"" val
  unquoted val (some s) = s

  unfoldable pub value_of : String → String
  value_of val =
      if is_longer val && (has_prefix val "\"" && ends_with "\"" val)
      then unquoted val (q.unquote val)
      else if is_longer val && (has_prefix val "'" && ends_with "'" val)
      then without_last (without_first val)
      else val

  abbrev pub put_value : String → String → Dict String → Dict String
  put_value key val values = if str_eq key "" then values else put key (value_of val) values

  abbrev pub add_parts : Option (String × String) → Dict String → Dict String
  add_parts none values = values
  add_parts (some (key, val)) values = put_value (trim_space key) (trim_space val) values

  unfoldable pub add_line : String → Dict String → Dict String
  add_line line values =
      let trimmed = trim_space line in
      if str_eq trimmed "" || has_prefix trimmed "#"
      then values
      else add_parts (cut "=" trimmed) values

  unfoldable pub read_lines : List String → Dict String → Dict String
  read_lines [] values = values
  read_lines (line ∷ lines) values = read_lines lines (add_line line values)

  -- A file that cannot be read is `none`.
  unfoldable pub read_env_file : Option String → Dict String
  read_env_file none = []
  read_env_file (some text) = read_lines (split "\n" text) []

  unfoldable pub line_of : Dict String → String → String
  line_of values key = key ++ ("=" ++ q.quoted (or_empty (lookup key values)))

  -- What writeEnvFile writes.
  unfoldable pub env_text : Dict String → String
  env_text values =
      let payload = join "\n" (map (line_of values) (sort text_le (keys values))) in
      if str_eq payload "" then "" else payload ++ "\n"
