-- ===== src/Runner/Options.antt =====
-- src/bin/ruzor.rs: how one argument of the command line is read. The option parser of
-- src/bin/ruzord.rs has the same text.
use ruzor.Prelude.{
  ℕ, ◌≡◌, refl, Bool, false, not, ◌&&◌, ◌||◌, Option, none, some, List, [], ◌∷◌, ◌++◌, ltb,
  if◌then◌else◌,
}
use ruzor.Text.{Text, codes, eq_text, join, split_once, starts_with}
use ruzor.Engines.File.{sort_rows}

-- A result, a `CliParseError`, or a panic of the slicing of a text inside a character.
pub data Parsed {ℓ} (A : Type ℓ) : Type ℓ where
  parsed : A → Parsed A
  parse_error : Text → Parsed A
  panicked : Parsed A

infixl 5 ◌>>=◌
abbrev pub ◌>>=◌ {ℓ κ} : {A : Type ℓ} {B : Type κ} → Parsed A → (A → Parsed B) → Parsed B
parsed a >>= next = next a
parse_error message >>= next = parse_error message
panicked >>= next = panicked

abbrev with_value : Text → Option (Text × Text) → Text × Option Text
with_value arg none = (arg, none)
with_value arg (some (option, value)) = (option, some value)

-- `split_long_option`
unfoldable pub split_long_option : Text → Text × Option Text
split_long_option arg = with_value arg (split_once b'=' arg)

abbrev contains_text : List Text → Text → Bool
contains_text [] option = false
contains_text (known ∷ more) option = eq_text known option || contains_text more option

-- the candidates that begin with the option
candidates : List Text → Text → List Text
candidates [] option = []
candidates (known ∷ more) option =
    let rest = candidates more option in if starts_with option known then known ∷ rest else rest

abbrev pub no_such_option : Text → Text
no_such_option option = codes "no such option: " ++ option

abbrev only_one : Text → List Text → Parsed Text
only_one option [] = parse_error (no_such_option option)
only_one option (known ∷ []) = parsed known
only_one option (known ∷ other ∷ more) = parse_error (
    codes "ambiguous option: "
    ++ (option
        ++ (codes " (" ++ (join (codes ", ") (sort_rows (known ∷ other ∷ more)) ++ codes "?)"))))

-- `resolve_long_option`
unfoldable pub resolve_long_option : Text → List Text → Parsed Text
unfolding candidates
resolve_long_option option long_options =
    if contains_text long_options option
    then parsed option
    else only_one option (candidates long_options option)

abbrev resolved : List Text → Text × Option Text → Parsed (Text × Option Text)
resolved long_options (option, value) = do
  name ← resolve_long_option option long_options
  parsed (name, value)

-- `&arg[..2]` and `&arg[2..]` of an argument that is longer than two bytes
abbrev short_option : Text → Parsed (Text × Option Text)
short_option (d ∷ c ∷ []) = if ltb c 128 then parsed (d ∷ c ∷ [], none) else panicked
short_option (d ∷ c ∷ value) = if ltb c 128 then parsed (d ∷ c ∷ [], some value) else panicked
short_option arg = parsed (arg, none)

-- `parse_option_arg`
unfoldable pub parse_option_arg : Text → List Text → Parsed (Text × Option Text)
parse_option_arg arg long_options =
    if starts_with (codes "--") arg
    then resolved long_options (split_long_option arg)
    else if starts_with (codes "-") arg
    then short_option arg
    else parsed (arg, none)

-- `option_value`: the value, and how many of the arguments that follow it takes
unfoldable pub option_value : Text → Option Text → List Text → Parsed (Text × ℕ)
option_value option (some value) rest = parsed (value, 0)
option_value option none (value ∷ rest) = parsed (value, 1)
option_value option none [] = parse_error (option ++ codes " option requires 1 argument")

-- `reject_unexpected_value`
unfoldable pub reject_unexpected_value : Text → Option Text → Parsed (Unit {0})
reject_unexpected_value option none = parsed tt
reject_unexpected_value option (some []) =
    parse_error (option ++ codes " option does not take a value")
reject_unexpected_value option (some (c ∷ value)) =
    if starts_with (codes "-") option && not (starts_with (codes "--") option)
    then parse_error (codes "no such option: -" ++ c ∷ [])
    else parse_error (option ++ codes " option does not take a value")

-- `parse_integer`, with `parse` for the parser of its type
unfoldable pub parse_integer : {A : Type 0} → (Text → Option A) → Text → Text → Parsed A
parse_integer parse option value = elim (parse value) [
  | none ↦
      parse_error (
        codes "option " ++ (option ++ (codes ": invalid integer value: '" ++ (value ++ codes "'"))))
  | some n ↦ parsed n
]

-- the slice ends inside the second character
accent_test : parse_option_arg (codes "-é") (codes "help" ∷ []) ≡ panicked
unfolding parse_option_arg starts_with
accent_test = refl
