-- ===== src/Message/RoundTrip.antt =====
-- Printing a message as src/message.rs does, sending it as UTF-8, and parsing it again.
use ruzor.Prelude.{
  ℕ, ◌≡◌, ◌≢◌, sym, ap, ◌∙◌, Option, none, some, List, [], ◌∷◌, ◌++◌, append_assoc, append-nil, inl,
  arith, ==_false, All, All-append, Lacks, length,
}
use ruzor.Text.{Text, trim, trim_start, split_once, is_whitespace, lines}
use ruzor.Text.Utf8.{IsText, as_bytes, from_utf8_lossy-as_bytes}
use ruzor.Text.Laws.{
  trim-keeps, trim_start_space, split_once-append, lines-append, unify_newlines_lem,
}
use ruzor.Message.{
  Message, Header, split_field, classify, field, parse_lines, parse_text, parse, print_headers,
  as_string,
}

-- What a header must be to survive the journey: its parts are text with no line break, the name
-- is trimmed and has no colon, and the value has no white space in front.
pub record Fits (h : Header) : Type 0 where
  pub name_text : IsText h.0
  pub value_text : IsText h.1
  pub name_line : Lacks b'\n' h.0
  pub value_line : Lacks b'\n' h.1
  pub name_cr : Lacks b'\r' h.0
  pub value_cr : Lacks b'\r' h.1
  pub name_colon : Lacks b':' h.0
  pub name_trimmed : trim h.0 ≡ h.0
  pub value_trimmed : trim_start h.1 ≡ h.1

abbrev pub IsWellFormed : Message → Type 0
IsWellFormed m = All Fits m.headers

-- the line of a header
abbrev line_of : Text → Text → Text
line_of name value = name ++ (b':' ∷ b' ' ∷ value)

not_indented : (c : ℕ) (s : Text) → trim (c ∷ s) ≡ c ∷ s → (c ≢ b' ') × (c ≢ b'\t')
unfolding is_whitespace
not_indented c s h = ground (arith, trim-keeps c s h)

split_line :
    (name value : Text)
    → Fits (name, value)
    → split_field (split_once b':' (line_of name value)) ≡ field name value
split_line name value f =
    rw (split_once-append b':' name (b' ' ∷ value) f.name_colon)
      (rw (f.name_trimmed, trim_start_space, f.value_trimmed))

classify_line :
    (name value : Text) → Fits (name, value) → classify (line_of name value) ≡ field name value
unfolding classify
classify_line [] value f = split_line [] value f
classify_line (c ∷ cs) value f =
    let (space, tab) = not_indented c cs f.name_trimmed in
    rw (==_false c b' ' space, ==_false c b'\t' tab) (split_line (c ∷ cs) value f)

Lacks-line_of :
    (b : ℕ) (name value : Text)
    → b ≢ b':'
    → b ≢ b' '
    → Lacks b name
    → Lacks b value
    → Lacks b (line_of name value)
Lacks-line_of b name value colon space hn hv =
    All-append (λ c. c ≢ b) name _ hn (λ e. colon (sym e), (λ e. space (sym e), hv))

-- The printed headers in one line each.
print_line :
    (name value rest : Text)
    → name ++ (b':' ∷ b' ' ∷ (value ++ (b'\n' ∷ rest))) ≡ line_of name value ++ (b'\n' ∷ rest)
print_line name value rest = sym (append_assoc name (b':' ∷ b' ' ∷ value) (b'\n' ∷ rest))

lines-print_headers :
    (name value : Text) (hs : List Header)
    → Fits (name, value)
    → lines (print_headers ((name, value) ∷ hs)) ≡ line_of name value ∷ lines (print_headers hs)
unfolding print_headers
lines-print_headers name value hs f =
    ap lines (print_line name value (print_headers hs))
    ∙ lines-append (line_of name value) (print_headers hs)
        (Lacks-line_of b'\n' name value (omega arith) (omega arith) f.name_line f.value_line)
        (Lacks-line_of b'\r' name value (omega arith) (omega arith) f.name_cr f.value_cr)

parse_lines-field :
    (line : Text) (rest : List Text) (acc : List Header) (current : Option ℕ) {name value : Text}
    → classify line ≡ field name value
    → parse_lines (line ∷ rest) acc current
      ≡ parse_lines rest (acc ++ (name, value) ∷ []) (some (length acc))
unfolding parse_lines
parse_lines-field line rest acc current e = rw (e, parse_lines)

parse_lines-print_headers :
    (hs acc : List Header) (current : Option ℕ)
    → All Fits hs
    → parse_lines (lines (print_headers hs)) acc current ≡ acc ++ hs
parse_lines-print_headers [] acc current h =
    unfold print_headers lines parse_lines classify in sym (append-nil acc)
parse_lines-print_headers ((name, value) ∷ hs) acc current (f, h) =
    rw (lines-print_headers name value hs f) (
      parse_lines-field _ _ acc current (classify_line name value f)
      ∙ parse_lines-print_headers hs (acc ++ (name, value) ∷ []) (some (length acc)) h
      ∙ append_assoc acc ((name, value) ∷ []) hs)

Lacks-print_headers : (hs : List Header) → All Fits hs → Lacks b'\r' (print_headers hs)
unfolding print_headers
Lacks-print_headers [] h = (omega arith, tt)
Lacks-print_headers ((name, value) ∷ hs) (f, h) = rw (print_line name value (print_headers hs)) (
    All-append (λ c. c ≢ b'\r') (line_of name value) _
      (Lacks-line_of b'\r' name value (omega arith) (omega arith) f.name_cr f.value_cr)
      (omega arith, Lacks-print_headers hs h))

IsText-append : (s t : Text) → IsText s → IsText t → IsText (s ++ t)
IsText-append [] t hs ht = ht
IsText-append (c ∷ s) t (hc, hs) ht = (hc, IsText-append s t hs ht)

IsText-print_headers : (hs : List Header) → All Fits hs → IsText (print_headers hs)
unfolding print_headers
IsText-print_headers [] h = (inl (omega arith), tt)
IsText-print_headers ((name, value) ∷ hs) (f, h) = IsText-append name _ f.name_text (
  inl (omega arith),
  (
    inl (omega arith),
    IsText-append value _ f.value_text (inl (omega arith), IsText-print_headers hs h),
  ),
)

-- The text of a well-formed message parses to that message.
pub parse_text-as_string : (m : Message) → IsWellFormed m → parse_text (as_string m) ≡ m
unfolding parse_text as_string
parse_text-as_string m h =
    ap (λ hs. record { headers = hs })
      (rw (unify_newlines_lem (print_headers m.headers) (Lacks-print_headers m.headers h))
        (parse_lines-print_headers m.headers [] none h))

-- A well-formed message that is printed and sent as UTF-8 parses to the same headers, in the same
-- order, duplicates included.
pub parse-as_string : (m : Message) → IsWellFormed m → parse (as_bytes (as_string m)) ≡ m
parse-as_string m h =
    unfold parse in
    ap parse_text (
      from_utf8_lossy-as_bytes (as_string m) (unfold as_string in IsText-print_headers m.headers h))
    ∙ parse_text-as_string m h
