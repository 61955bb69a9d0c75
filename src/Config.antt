-- ===== src/Config.antt =====
-- src/config.rs: the files of accounts, access rules, servers and whitelists. A file is its text, or
-- `none` where it cannot be read; what is only logged is left out.
pub mod Access
pub mod Accounts
pub mod Servers
use ruzor.Prelude.{
  ℕ, Bool, not, ◌||◌, ◌&&◌, Option, none, some, List, [], ◌∷◌, ◌==◌, if◌then◌else◌, length, take,
  drop, map, ◌-◌,
}
use ruzor.Prelude.Assoc.{insert}
use ruzor.Text.{
  Text, codes, is_whitespace, trim, starts_with, is_empty, split, split_once, extend_first, lines,
  eq_text, to_ascii_lowercase,
}
use ruzor.Text.Laws.{text_eq}
use ruzor.Server.Admission.{has}

-- `py_lines`: `text.split_inclusive('\n')`, every line with its newline
unfoldable pub py_lines : Text → List Text
py_lines [] = []
py_lines (c ∷ s) =
    let rest = py_lines s in if c == b'\n' then (c ∷ []) ∷ rest else extend_first c rest

-- a line that every reader skips
abbrev pub is_comment : Text → Bool
is_comment line = is_empty (trim line) || starts_with (codes "#") line

abbrev two_parts : List Text → Option (Text × Text)
two_parts (user ∷ key ∷ []) = some (trim user, trim key)
two_parts _ = none

-- one line of `load_passwd_file_with_logger`: a user and a key
unfoldable pub passwd_line : Text → Option (Text × Text)
passwd_line line = if is_comment line then none else two_parts (split b':' line)

-- puts an entry into the map, if there is one
abbrev put : Option (Text × Text) → List (Text × Text) → List (Text × Text)
put none accounts = accounts
put (some (user, key)) accounts = insert user key accounts

passwd_lines : List Text → List (Text × Text) → List (Text × Text)
passwd_lines [] accounts = accounts
passwd_lines (line ∷ rest) accounts = passwd_lines rest (put (passwd_line line) accounts)

-- `load_passwd_file`
unfoldable pub load_passwd_file : Option Text → List (Text × Text)
unfolding passwd_lines py_lines
load_passwd_file none = []
load_passwd_file (some text) = passwd_lines (py_lines text) []

-- `strip_comment`: up to a `#` that is not the first character and not behind a backslash
strip_after : ℕ → Text → Text
strip_after prev [] = []
strip_after prev (c ∷ s) =
    let rest = strip_after c s in if c == b'#' && not (prev == b'\\') then [] else c ∷ rest

unfoldable pub strip_comment : Text → Text
unfolding strip_after
strip_comment [] = []
strip_comment (c ∷ s) = c ∷ strip_after c s

whitelist_lines : List Text → List Text → List Text
whitelist_lines [] values = values
whitelist_lines (line ∷ rest) values =
    let value = trim (strip_comment line) in
    whitelist_lines rest (if is_empty value || has values value then values else value ∷ values)

-- `load_local_whitelist`: a set as a list with no repetition
unfoldable pub load_local_whitelist : Option Text → List Text
unfolding whitelist_lines
load_local_whitelist none = []
load_local_whitelist (some text) = whitelist_lines (lines text) []

unfoldable pub ends_with : ℕ → Text → Bool
ends_with last [] = Bool.false
ends_with last (c ∷ []) = c == last
ends_with last (c ∷ d ∷ s) = ends_with last (d ∷ s)

-- `line[1..line.len() - 1].trim()`
abbrev inner : Text → Text
inner line = trim (take (length line - 2) (drop 1 line))

abbrev put_value : Option (Text × Text) → List (Text × Text) → List (Text × Text)
put_value none values = values
put_value (some (key, value)) values =
    insert (map to_ascii_lowercase (trim key)) (trim value) values

module _ (lower : Text → Text) (section : Text) where
  -- the loop of `read_ini_section`, with the section that the line stands in
  ini_lines : List Text → Text → List (Text × Text) → List (Text × Text)
  unfolding ends_with
  ini_lines [] current values = values
  ini_lines (raw ∷ rest) current values =
      let line = trim raw in
      let skipped = ini_lines rest current values in
      let entered = ini_lines rest (lower (inner line)) values in
      let taken = ini_lines rest current (put_value (split_once b'=' line) values) in
      if is_empty line || starts_with (codes "#") line || starts_with (codes ";") line
      then skipped
      else if starts_with (codes "[") line && ends_with b']' line
      then entered
      else if not (eq_text current (lower section))
      then skipped
      else taken

  -- `read_ini_section`
  unfoldable pub read_ini_section : Option Text → List (Text × Text)
  unfolding ini_lines
  read_ini_section none = []
  read_ini_section (some text) = ini_lines (lines text) [] []
