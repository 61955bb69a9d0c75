-- ===== src/Digest/Parts.antt =====
-- src/digest.rs: the parts of a mail. `to_lowercase` stands for the standard library's.
use ruzor.Prelude.{
  ℕ, ◌≡◌, refl, Bool, true, false, not, ◌&&◌, ◌||◌, Option, none, some, List, [], ◌∷◌, ◌++◌, ◌==◌,
  if◌then◌else◌,
}
use ruzor.Text.{
  Text, Bytes, codes, eq_text, is_empty, is_whitespace, join, lines, split, split_once, starts_with,
  trim, trim_end, unify_newlines, within,
}
use ruzor.Text.Utf8.{as_bytes, from_utf8_lossy}
use ruzor.Message.{Header, get, or_default}
use ruzor.Digest.{without_nuls}

pub record Part : Type 0 where
  pub headers : List Header
  pub body : Bytes

-- `normalize_message_newlines`: the loop does on bytes what the replacements do on characters
abbrev pub normalize_message_newlines : Bytes → Bytes
normalize_message_newlines bytes = unify_newlines bytes

abbrev pub keep_first : ℕ → Option (Bytes × Bytes) → Option (Bytes × Bytes)
keep_first c none = none
keep_first c (some (head, body)) = some (c ∷ head, body)

-- what stands before and behind the first empty line, by `find_subslice`
unfoldable pub split_at_blank : Bytes → Option (Bytes × Bytes)
split_at_blank [] = none
split_at_blank (c ∷ []) = none
split_at_blank (c ∷ d ∷ s) =
    let later = keep_first c (split_at_blank (d ∷ s)) in
    if c == b'\n' && d == b'\n' then some ([], s) else later

-- `is_ascii_alphanumeric` or a dash
abbrev name_character : ℕ → Bool
name_character c = within b'0' b'9' c || within b'a' b'z' c || within b'A' b'Z' c || c == b'-'

abbrev name_characters : Text → Bool
name_characters [] = true
name_characters (c ∷ s) = name_character c && name_characters s

abbrev valid_name : Option (Text × Text) → Bool
valid_name none = false
valid_name (some (name, rest)) = not (is_empty name) && name_characters name

-- `valid_header_line`
unfoldable pub valid_header_line : Text → Bool
valid_header_line line = valid_name (split_once b':' line)

abbrev first_is_header : List Text → Bool
first_is_header [] = false
first_is_header (line ∷ rest) = valid_header_line line

abbrev pub head_and_body : Bytes → Option (Bytes × Bytes) → Bytes × Bytes
head_and_body normalized (some found) = found
head_and_body normalized none =
    if first_is_header (lines (from_utf8_lossy normalized))
    then (normalized, [])
    else ([], normalized)

-- the last header takes more of its value
add_to_last : Text → List Header → List Header
add_to_last more [] = []
add_to_last more ((name, value) ∷ []) = (name, value ++ (b' ' ∷ more)) ∷ []
add_to_last more (h ∷ k ∷ hs) = h ∷ add_to_last more (k ∷ hs)

abbrev push_header : Option (Text × Text) → List Header → List Header
push_header none hs = hs
push_header (some (name, value)) hs = hs ++ (trim name, trim value) ∷ []

-- the loop over the lines
read_headers : List Header → List Text → List Header
unfolding add_to_last
read_headers hs [] = hs
read_headers hs (line ∷ rest) =
    read_headers
      (if starts_with (codes " ") line || starts_with (codes "\t") line
        then add_to_last (trim line) hs
        else push_header (split_once b':' line) hs)
      rest

-- `Part::parse`
unfoldable pub parse : Bytes → Part
unfolding read_headers
parse bytes =
    let normalized = normalize_message_newlines bytes in
    let found = head_and_body normalized (split_at_blank normalized) in
    record { headers = read_headers [] (lines (from_utf8_lossy found.0)); body = found.1 }

-- `Part::header`, `Part::transfer_encoding`
unfoldable pub header : Part → Text → Option Text
header part name = get (record { headers = part.headers }) name

unfoldable pub transfer_encoding : Part → Text
transfer_encoding part =
    trim (or_default (codes "7bit") (header part (codes "Content-Transfer-Encoding")))

pub record ContentType : Type 0 where
  pub main : Text
  pub sub : Text
  pub boundary : Option Text
  pub charset : Option Text

abbrev trim_quotes_start : Text → Text
trim_quotes_start [] = []
trim_quotes_start (c ∷ s) = if c == b'"' then trim_quotes_start s else c ∷ s

trim_quotes_end : Text → Text
trim_quotes_end [] = []
trim_quotes_end (c ∷ s) =
    let rest = trim_quotes_end s in if c == b'"' && is_empty rest then [] else c ∷ rest

-- `value.trim().trim_matches('"').replace('\0', "")`
parameter_value : Text → Text
unfolding trim_quotes_end without_nuls
parameter_value value = without_nuls (trim_quotes_end (trim_quotes_start (trim value)))

module _ (to_lowercase : Text → Text) where
  abbrev media_of : Option (Text × Text) → ContentType
  media_of none = record {
    main = codes "text";
    sub = codes "plain";
    boundary = none;
    charset = none;
  }
  media_of (some (main, sub)) = record {
    main = trim main;
    sub = trim sub;
    boundary = none;
    charset = none;
  }

  abbrev set_parameter : Option (Text × Text) → ContentType → ContentType
  set_parameter none ct = ct
  set_parameter (some (name, value)) ct =
      let key = to_lowercase (trim name) in
      if eq_text key (codes "boundary")
      then record ct { boundary = some (parameter_value value) }
      else if eq_text key (codes "charset")
      then record ct { charset = some (parameter_value value) }
      else ct

  abbrev set_parameters : List Text → ContentType → ContentType
  set_parameters [] ct = ct
  set_parameters (part ∷ parts) ct = set_parameters parts (set_parameter (split_once b'=' part) ct)

  abbrev of_fields : List Text → ContentType
  of_fields [] = media_of (split_once b'/' (codes "text/plain"))
  of_fields (media ∷ parts) =
      set_parameters parts (media_of (split_once b'/' (to_lowercase (trim media))))

  -- `ContentType::parse`
  unfoldable pub parse_content_type : Text → ContentType
  unfolding parameter_value
  parse_content_type value = of_fields (split b';' value)

  -- `Part::content_type`
  unfoldable pub content_type : Part → ContentType
  content_type part =
      parse_content_type (or_default (codes "text/plain") (header part (codes "Content-Type")))

-- a part's lines, when it has any
abbrev pub part_of : Bool → List Text → List Bytes
part_of inside [] = []
part_of inside (line ∷ current) =
    if inside then as_bytes (join (codes "\n") (line ∷ current)) ∷ [] else []

-- the loop of `split_multipart`
unfoldable pub split_lines : Text → Text → Bool → List Text → List Text → List Bytes
split_lines marker closing inside current [] = part_of inside current
split_lines marker closing inside current (line ∷ rest) =
    let begins = eq_text (trim_end line) marker in
    let behind =
      split_lines marker closing (begins || inside)
        (if inside then (if begins then [] else current ++ line ∷ []) else current) rest in
    if begins
    then part_of inside current ++ behind
    else if eq_text (trim_end line) closing
    then part_of inside current
    else behind

-- `split_multipart`
unfoldable pub split_multipart : Bytes → Text → List Bytes
split_multipart bytes boundary =
    let marker = codes "--" ++ boundary in
    split_lines marker (marker ++ codes "--") false []
      (lines (unify_newlines (from_utf8_lossy bytes)))

-- the loop of `split_mbox`
split_messages : Bool → List Text → List Text → List Bytes
split_messages seen current [] =
    if not (is_empty current) || not seen then as_bytes (join (codes "\n") current) ∷ [] else []
split_messages seen current (line ∷ rest) =
    let begins = starts_with (codes "From ") line in
    let ends = seen && not (is_empty current) in
    let behind =
      split_messages (begins || seen)
        (if begins then (if ends then [] else current) else current ++ line ∷ []) rest in
    if begins && ends then as_bytes (join (codes "\n") current) ∷ behind else behind

-- `split_mbox`
unfoldable pub split_mbox : Bytes → List Bytes
unfolding split_messages
split_mbox bytes = split_messages false [] (lines (unify_newlines (from_utf8_lossy bytes)))

multipart_test :
    split_multipart (codes "pre\n--b\nx\n\ny\n--b \nz\n--b--\nend") (codes "b")
    ≡ codes "x\n\ny" ∷ codes "z" ∷ []
unfolding split_multipart split_lines lines unify_newlines from_utf8_lossy eq_text trim_end
    is_whitespace as_bytes join
multipart_test = refl
