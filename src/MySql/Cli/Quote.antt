-- ===== src/MySql/Cli/Quote.antt =====
-- The literals of src/mysql_cli.rs against MySQL's reading of a string literal, which is described
-- in its manual: a backslash escapes, a doubled quote is one quote, and a quote ends the literal.
use ruzor.Prelude.{
  ℕ, ◌≡◌, ◌≢◌, refl, ap, ◌∙◌, Option, none, some, [], ◌∷◌, ◌++◌, ◌==◌, arith, append_assoc,
  if◌then◌else◌, ==_false,
}
use ruzor.Text.{Text}
use ruzor.MySql.Cli.{quote_char, quote_chars, quote_sql_string}

-- the character that a backslash and `c` stand for
abbrev read_escape : ℕ → ℕ
read_escape c =
    if c == b'0'
    then 0
    else if c == b'n'
    then b'\n'
    else if c == b'r'
    then b'\r'
    else if c == b't'
    then b'\t'
    else if c == b'b'
    then 8
    else if c == b'Z'
    then 26
    else c

abbrev push : ℕ → Option (Text × Text) → Option (Text × Text)
push c none = none
push c (some (s, rest)) = some (c ∷ s, rest)

-- the characters of a literal up to the quote that ends it, and what follows
read_chars : Text → Option (Text × Text)
read_chars [] = none
read_chars (c ∷ []) = if c == b'\'' then some ([], []) else none
read_chars (c ∷ d ∷ s) =
    let behind = read_chars s in
    let quoted = if d == b'\'' then push b'\'' behind else some ([], d ∷ s) in
    let plain = push c (read_chars (d ∷ s)) in
    if c == b'\'' then quoted else if c == b'\\' then push (read_escape d) behind else plain

pub read_literal : Text → Option (Text × Text)
read_literal [] = none
read_literal (c ∷ s) = if c == b'\'' then read_chars s else none

-- What follows a literal is not a quote.
abbrev pub IsApart : Text → Type 0
IsApart [] = Unit
IsApart (c ∷ s) = c ≢ b'\''

read_plain :
    (c : ℕ) (t s rest : Text)
    → c ≢ b'\''
    → c ≢ b'\\'
    → read_chars t ≡ some (s, rest)
    → read_chars (c ∷ t) ≡ some (c ∷ s, rest)
unfolding read_chars
read_plain c [] s rest hq hb e = cc
read_plain c (d ∷ t) s rest hq hb e =
    rw (==_false c b'\'' hq) (rw (==_false c b'\\' hb) (ap (push c) e))

read_escaped :
    (d : ℕ) (t s rest : Text)
    → read_chars t ≡ some (s, rest)
    → read_chars (b'\\' ∷ d ∷ t) ≡ some (read_escape d ∷ s, rest)
unfolding read_chars
read_escaped d t s rest e = ap (push (read_escape d)) e

read_chars-quote_char :
    (c : ℕ) (t s rest : Text)
    → read_chars t ≡ some (s, rest)
    → read_chars (quote_char c ++ t) ≡ some (c ∷ s, rest)
unfolding quote_char
read_chars-quote_char c t s rest e = ground (
  arith,
  read_plain c t s rest,
  read_escaped b'0' t s rest e,
  read_escaped b'n' t s rest e,
  read_escaped b'r' t s rest e,
  read_escaped b'Z' t s rest e,
  read_escaped c t s rest e,
)

read_end : (rest : Text) → IsApart rest → read_chars (b'\'' ∷ rest) ≡ some ([], rest)
unfolding read_chars
read_end [] h = refl
read_end (c ∷ s) h = rw (==_false c b'\'' h)

read_chars-quote_chars :
    (s rest : Text) → IsApart rest → read_chars (quote_chars s ++ rest) ≡ some (s, rest)
unfolding quote_chars
read_chars-quote_chars [] rest h = read_end rest h
read_chars-quote_chars (c ∷ s) rest h =
    ap read_chars (append_assoc (quote_char c) (quote_chars s) rest)
    ∙ read_chars-quote_char c (quote_chars s ++ rest) s rest (read_chars-quote_chars s rest h)

-- Whatever the text, quotes and backslashes included: where something other than a quote follows it,
-- the literal that the text is put into is read as that text, and ends where it was meant to.
pub read_literal-quote_sql_string :
    (s rest : Text) → IsApart rest → read_literal (quote_sql_string s ++ rest) ≡ some (s, rest)
unfolding read_literal quote_sql_string
read_literal-quote_sql_string s rest h = read_chars-quote_chars s rest h
