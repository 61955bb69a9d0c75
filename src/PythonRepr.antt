-- ===== src/PythonRepr.antt =====
-- src/python_repr.rs: texts and bytes in the notation of Python's `repr`.
use ruzor.Prelude.{ℕ, ◌+◌, ◌-◌, ◌/◌, ◌%◌, [], ◌∷◌, ◌++◌, ◌==◌, ltb, if◌then◌else◌}
use ruzor.Text.{Text, Bytes, within}
use ruzor.Text.Utf8.{as_bytes}

abbrev escaped : ℕ → Text
escaped c = b'\\' ∷ c ∷ []

-- what `text` appends for one character
text_char : ℕ → Text
text_char c =
    if c == b'\\'
    then escaped b'\\'
    else if c == b'\''
    then escaped b'\''
    else if c == b'\n'
    then escaped b'n'
    else if c == b'\r'
    then escaped b'r'
    else if c == b'\t'
    then escaped b't'
    else c ∷ []

each : (ℕ → Text) → Text → Text
each f [] = []
each f (c ∷ s) = f c ++ each f s

unfoldable pub text : Text → Text
unfolding each text_char
text value = b'\'' ∷ (each text_char value ++ b'\'' ∷ [])

-- the two replacements in one pass: neither makes a character that the other would change again
single_quoted_char : ℕ → Text
single_quoted_char c =
    if c == b'\\' then escaped b'\\' else if c == b'\'' then escaped b'\'' else c ∷ []

unfoldable pub single_quoted : Text → Text
unfolding each single_quoted_char
single_quoted value = each single_quoted_char value

hex_digit : ℕ → ℕ
hex_digit d = if ltb d 10 then b'0' + d else b'a' + (d - 10)

pub push_byte_repr : ℕ → Text
unfolding hex_digit
push_byte_repr b =
    if b == b'\\'
    then escaped b'\\'
    else if b == b'\''
    then escaped b'\''
    else if b == b'\n'
    then escaped b'n'
    else if b == b'\r'
    then escaped b'r'
    else if b == b'\t'
    then escaped b't'
    else if within b' ' b'~' b
    then b ∷ []
    else b'\\' ∷ b'x' ∷ hex_digit (b / 16) ∷ hex_digit (b % 16) ∷ []

quote_bytes : Text → Bytes → Text
unfolding each push_byte_repr
quote_bytes prefix bytes = prefix ++ (b'\'' ∷ (each push_byte_repr bytes ++ b'\'' ∷ []))

unfoldable pub string : Text → Text
unfolding quote_bytes
string value = quote_bytes [] (as_bytes value)

unfoldable pub bytes : Bytes → Text
unfolding quote_bytes
bytes value = quote_bytes (b'b' ∷ []) value
