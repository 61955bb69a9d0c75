-- ===== src/Message.antt =====
-- src/message.rs: messages as lists of headers, the parser, the printer, and the builders.
pub mod Headers
pub mod RoundTrip
use ruzor.Prelude.{
  ℕ, zero, suc, ◌+◌, ◌-◌, ◌%◌, ◌≡◌, refl, Bool, true, false, not, ◌&&◌, ◌||◌, Option, none, some,
  List, [], ◌∷◌, ◌++◌, ◌==◌, leb, if◌then◌else◌, length, map,
}
use ruzor.Text.{
  Text, Bytes, codes, eq_ignore_ascii_case, split_once, trim, trim_start, lines, unify_newlines,
  join, is_empty,
}
use ruzor.Text.Decimal.{nat_to_string, parse_nat}
use ruzor.Text.Utf8.{from_utf8_lossy}
use ruzor.PythonRepr.{single_quoted}
use ruzor.Error.{Result, ok, err, ◌>>=◌, ◌>>◌, guard, PyzorError, incomplete_message, protocol}

abbrev pub Header : Type 0
Header = Text × Text

pub record Message : Type 0 where
  pub headers : List Header

abbrev pub empty : Message
empty = record { headers = [] }

-- What one line is to the parser.
pub data Line : Type 0 where
  blank junk : Line
  folded : Text → Line
  field : Text → Text → Line

abbrev pub split_field : Option (Text × Text) → Line
split_field none = junk
split_field (some (name, value)) = field (trim name) (trim_start value)

-- the line is not empty: is it folded?
unfoldable pub classify : Text → Line
classify [] = blank
classify (c ∷ s) =
    if c == b' ' || c == b'\t' then folded (trim (c ∷ s)) else split_field (split_once b':' (c ∷ s))

-- `headers[index].1.push('\n')` and `push_str(more)`
append_at : List Header → ℕ → Text → List Header
append_at [] i more = []
append_at ((name, value) ∷ hs) zero more = (name, value ++ (b'\n' ∷ more)) ∷ hs
append_at (h ∷ hs) (suc i) more = h ∷ append_at hs i more

fold_into : Option ℕ → List Header → Text → List Header
fold_into none hs more = hs
fold_into (some i) hs more = append_at hs i more

-- The loop over the lines; `current` is the index of the last header.
parse_lines : List Text → List Header → Option ℕ → List Header
unfolding fold_into append_at
parse_lines [] hs current = hs
parse_lines (line ∷ rest) hs current = elim (classify line) [
  | blank ↦ hs
  | junk ↦ parse_lines rest hs current
  | folded more ↦ parse_lines rest (fold_into current hs more) current
  | field name value ↦ parse_lines rest (hs ++ (name, value) ∷ []) (some (length hs))
]

unfoldable pub parse_text : Text → Message
unfolding parse_lines classify
parse_text text = record { headers = parse_lines (lines (unify_newlines text)) [] none }

-- `Message::parse`
unfoldable pub parse : Bytes → Message
unfolding parse_text
parse bytes = parse_text (from_utf8_lossy bytes)

-- the first header of that name
find : Text → List Header → Option Text
find name [] = none
find name ((key, value) ∷ hs) = if eq_ignore_ascii_case key name then some value else find name hs

unfoldable pub get : Message → Text → Option Text
unfolding find
get m name = find name m.headers

find_all : Text → List Header → List Text
find_all name [] = []
find_all name ((key, value) ∷ hs) =
    let rest = find_all name hs in if eq_ignore_ascii_case key name then value ∷ rest else rest

unfoldable pub get_all : Message → Text → List Text
unfolding find_all
get_all m name = find_all name m.headers

abbrev pub is_some {ℓ} : {A : Type ℓ} → Option A → Bool
is_some none = false
is_some (some a) = true

unfoldable pub contains : Message → Text → Bool
contains m name = is_some (get m name)

unfoldable pub add_header : Message → Text → Text → Message
add_header m name value = record { headers = m.headers ++ (name, value) ∷ [] }

-- the first header of that name takes the value, or a new one stands last; its name stays
set_in : Text → Text → List Header → List Header
set_in name value [] = (name, value) ∷ []
set_in name value ((key, old) ∷ hs) =
    if eq_ignore_ascii_case key name then (key, value) ∷ hs else (key, old) ∷ set_in name value hs

unfoldable pub set_header : Message → Text → Text → Message
unfolding set_in
set_header m name value = record { headers = set_in name value m.headers }

unfoldable pub replace_header : Message → Text → Text → Message
unfolding set_header
replace_header m name value = set_header m name value

retain : Text → List Header → List Header
retain name [] = []
retain name ((key, value) ∷ hs) =
    let rest = retain name hs in if eq_ignore_ascii_case key name then rest else (key, value) ∷ rest

unfoldable pub remove_all : Message → Text → Message
unfolding retain
remove_all m name = record { headers = retain name m.headers }

unfoldable pub print_headers : List Header → Text
print_headers [] = b'\n' ∷ []
print_headers ((name, value) ∷ hs) = name ++ (b':' ∷ b' ' ∷ (value ++ (b'\n' ∷ print_headers hs)))

unfoldable pub as_string : Message → Text
unfolding print_headers
as_string m = print_headers m.headers

unfoldable pub ensure_threaded : Message → Result (Unit {0})
unfolding contains
ensure_threaded m =
    if not (contains m (codes "PV")) || not (contains m (codes "Thread"))
    then err (incomplete_message (codes "Doesn't have fields for a ThreadedMessage."))
    else ok tt

unfoldable pub ensure_request : Message → Result (Unit {0})
unfolding ensure_threaded
ensure_request m =
    if not (contains m (codes "Op"))
    then err (incomplete_message (codes "doesn't have fields for a Request"))
    else ensure_threaded m

unfoldable pub ensure_response : Message → Result (Unit {0})
unfolding ensure_threaded
ensure_response m =
    if not (contains m (codes "Code")) || not (contains m (codes "Diag"))
    then err (incomplete_message (codes "doesn't have fields for a Response"))
    else ensure_threaded m

abbrev pub or_err {ℓ} : {A : Type ℓ} → Option A → PyzorError → Result A
or_err none e = err e
or_err (some a) e = ok a

abbrev pub or_default {ℓ} : {A : Type ℓ} → A → Option A → A
or_default d none = d
or_default d (some a) = a

-- u16::MAX
abbrev pub u16_max : ℕ
u16_max = 65535

unfoldable pub code : Message → Result ℕ
code m = do
  value ← or_err (get m (codes "Code")) (incomplete_message (codes "missing Code"))
  or_err (parse_nat u16_max value) (protocol (codes "Invalid response code"))

unfoldable pub diag : Message → Text
diag m = or_default [] (get m (codes "Diag"))

abbrev is_200 : Result ℕ → Bool
is_200 (ok c) = c == 200
is_200 (err e) = false

unfoldable pub is_ok : Message → Bool
unfolding code
is_ok m = is_200 (code m)

-- a `ThreadId` is its number
unfoldable pub thread : Message → Result ℕ
thread m = do
  value ← or_err (get m (codes "Thread")) (incomplete_message (codes "missing Thread"))
  or_err (parse_nat u16_max value) (protocol (codes "Invalid thread id"))

abbrev code_or_zero : Result ℕ → ℕ
code_or_zero (ok c) = c
code_or_zero (err e) = 0

pub head_tuple : Message → Text
unfolding code diag
head_tuple m =
    b'('
    ∷ (nat_to_string (code_or_zero (code m))
        ++ (codes ", '" ++ (single_quoted (diag m) ++ codes "')")))

-- ThreadId::OK_MIN
abbrev pub ok_min : ℕ
ok_min = 1024

-- `ThreadId::generate` at a reading of the clock in nanoseconds
unfoldable pub generate : ℕ → ℕ
generate nanos = ok_min + nanos % (u16_max + 1 - ok_min)

unfoldable pub in_ok_range : ℕ → Bool
in_ok_range t = leb ok_min t

unfoldable pub request : Text → Message
unfolding add_header
request op = add_header empty (codes "Op") op

unfoldable pub digest_request : Text → Text → Message
unfolding request
digest_request op digest = add_header (request op) (codes "Op-Digest") digest

flatten_spec : List (ℕ × ℕ) → List Text
flatten_spec [] = []
flatten_spec ((offset, len) ∷ spec) = nat_to_string offset ∷ nat_to_string len ∷ flatten_spec spec

-- the value of `Op-Spec`
unfoldable pub spec_text : List (ℕ × ℕ) → Text
unfolding flatten_spec join
spec_text spec = join (b',' ∷ []) (flatten_spec spec)

unfoldable pub spec_digest_request : Text → Text → List (ℕ × ℕ) → Message
unfolding digest_request
spec_digest_request op digest spec =
    add_header (digest_request op digest) (codes "Op-Spec") (spec_text spec)

abbrev pub proto_version : Text
proto_version = codes "2.1"

unfoldable pub init_for_sending : ℕ → Message → Message
init_for_sending nanos m =
    let threaded =
      if contains m (codes "Thread")
      then m
      else add_header m (codes "Thread") (nat_to_string (generate nanos)) in
    set_header threaded (codes "PV") proto_version

abbrev with_thread : Option Text → Message → Message
with_thread none m = m
with_thread (some t) m = add_header m (codes "Thread") t

unfoldable pub response : Option Text → Message
unfolding add_header
response t = with_thread t (record {
  headers =
      (codes "Code", codes "200") ∷ (codes "Diag", codes "OK") ∷ (codes "PV", proto_version) ∷ [];
})
