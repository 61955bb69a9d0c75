-- ===== src/Digest/Transfer/Encodings.antt =====
-- The transfer encodings of src/digest.rs against what RFC 2045 describes: base64, and
-- quoted-printable with any choice of what is escaped and of where the lines are broken.
use ruzor.Prelude.{
  ℕ, ◌+◌, ◌-◌, ◌*◌, ◌/◌, ◌%◌, ◌<◌, ◌≡◌, ◌≢◌, refl, ap, ◌∙◌, ◌⊎◌, inl, inr, some, List, [], ◌∷◌,
  ==_false, arith, ltb, if◌then◌else◌, All,
}
use ruzor.Text.{Text, Bytes, codes, eq_text, trim}
use ruzor.Digest.{decode_base64}
use ruzor.Digest.Base64.{encode_base64, decode_base64-encode_base64}
use ruzor.Digest.Transfer.{hex_val, escape, quoted_from, decode_quoted_printable, decode_transfer}

pub data Piece : Type 0 where
  literal escaped : ℕ → Piece
  soft_break soft_break_crlf : Piece

hex_digit : ℕ → ℕ
hex_digit n = if ltb n 10 then b'0' + n else b'A' + (n - 10)

pub print_pieces : List Piece → Bytes
unfolding hex_digit
print_pieces [] = []
print_pieces (literal c ∷ ps) = c ∷ print_pieces ps
print_pieces (escaped c ∷ ps) = b'=' ∷ hex_digit (c / 16) ∷ hex_digit (c % 16) ∷ print_pieces ps
print_pieces (soft_break ∷ ps) = b'=' ∷ b'\n' ∷ print_pieces ps
print_pieces (soft_break_crlf ∷ ps) = b'=' ∷ b'\r' ∷ b'\n' ∷ print_pieces ps

unfoldable pub contents : List Piece → Bytes
contents [] = []
contents (literal c ∷ ps) = c ∷ contents ps
contents (escaped c ∷ ps) = c ∷ contents ps
contents (soft_break ∷ ps) = contents ps
contents (soft_break_crlf ∷ ps) = contents ps

-- An equals sign is escaped.
abbrev pub IsPiece : Piece → Type 0
IsPiece (literal c) = (c ≢ b'=') × (c < 256)
IsPiece (escaped c) = c < 256
IsPiece soft_break = Unit
IsPiece soft_break_crlf = Unit

hex_val-hex_digit : (n : ℕ) → n < 16 → hex_val (hex_digit n) ≡ some n
unfolding hex_val hex_digit
hex_val-hex_digit n h = ground arith

hex_digit_plain : (n : ℕ) → n < 16 → (hex_digit n ≢ b'\n') × (hex_digit n ≢ b'\r')
unfolding hex_digit
hex_digit_plain n h = (λ e. ground arith, λ e. ground arith)

escape_hex :
    (c : ℕ) (s : Bytes)
    → c < 256
    → escape (hex_digit (c / 16) ∷ hex_digit (c % 16) ∷ s) ≡ (c ∷ [], 2)
unfolding escape
escape_hex c s h =
    let (newline, return) = hex_digit_plain (c / 16) (omega arith) in
    let whole : c / 16 * 16 + c % 16 ≡ c = omega arith in
    rw (==_false (hex_digit (c / 16)) b'\n' newline) (
      rw (==_false (hex_digit (c / 16)) b'\r' return) (
        rw (hex_val-hex_digit (c / 16) (omega arith))
          (rw (hex_val-hex_digit (c % 16) (omega arith)) (ap (λ (x : ℕ). (x ∷ [], 2)) whole))))

escape_newline : (s : Bytes) → escape (b'\n' ∷ s) ≡ ([], 1)
unfolding escape
escape_newline [] = refl
escape_newline (c ∷ s) = refl

escape_crlf : (s : Bytes) → escape (b'\r' ∷ b'\n' ∷ s) ≡ ([], 2)
unfolding escape
escape_crlf s = refl

quoted-contents : (ps : List Piece) → All IsPiece ps → quoted_from 0 (print_pieces ps) ≡ contents ps
unfolding print_pieces quoted_from contents
quoted-contents [] h = refl
quoted-contents (literal c ∷ ps) ((hc, _), h) =
    rw (==_false c b'=' hc) (ap (◌∷◌ c) (quoted-contents ps h))
quoted-contents (escaped c ∷ ps) (hc, h) =
    rw (escape_hex c (print_pieces ps) hc) (ap (◌∷◌ c) (quoted-contents ps h))
quoted-contents (soft_break ∷ ps) (_, h) =
    rw (escape_newline (print_pieces ps)) (quoted-contents ps h)
quoted-contents (soft_break_crlf ∷ ps) (_, h) =
    rw (escape_crlf (print_pieces ps)) (quoted-contents ps h)

-- `body` is an encoding of `s` under the transfer encoding of that name.
unfoldable pub Encodes : (Text → Text) → Text → Bytes → Bytes → Type 0
Encodes to_lowercase name body s =
    ((to_lowercase (trim name) ≡ codes "base64") × (body ≡ encode_base64 s) × All (λ b. b < 256) s)
    ⊎ ((to_lowercase (trim name) ≡ codes "quoted-printable")
        × (ps : List Piece) × (body ≡ print_pieces ps)
        × (contents ps ≡ s)
        × All IsPiece ps)

decode_quoted_printable_lem :
    (ps : List Piece) → All IsPiece ps → decode_quoted_printable (print_pieces ps) ≡ contents ps
unfolding decode_quoted_printable
decode_quoted_printable_lem ps h = quoted-contents ps h

decode_transfer-base64 :
    (to_lowercase : Text → Text) (name : Text) (body : Bytes)
    → to_lowercase (trim name) ≡ codes "base64"
    → decode_transfer to_lowercase body name ≡ decode_base64 body
unfolding decode_transfer eq_text
decode_transfer-base64 to_lowercase name body e = rw e

decode_transfer-quoted :
    (to_lowercase : Text → Text) (name : Text) (body : Bytes)
    → to_lowercase (trim name) ≡ codes "quoted-printable"
    → decode_transfer to_lowercase body name ≡ decode_quoted_printable body
unfolding decode_transfer eq_text
decode_transfer-quoted to_lowercase name body e = rw e

-- Whatever the bytes: a body that is their base64, or their quoted-printable with any choice of escapes
-- and of soft line breaks, and is declared as that in any case, is decoded to them.
pub decode_transfer-Encodes :
    (to_lowercase : Text → Text) (name : Text) (body s : Bytes)
    → Encodes to_lowercase name body s
    → decode_transfer to_lowercase body name ≡ s
unfolding Encodes
decode_transfer-Encodes to_lowercase name body s (inl (e, same, h)) =
    decode_transfer-base64 to_lowercase name body e
    ∙ ap decode_base64 same
    ∙ decode_base64-encode_base64 s h
decode_transfer-Encodes to_lowercase name body s (inr (e, ps, same, is, h)) =
    decode_transfer-quoted to_lowercase name body e
    ∙ ap decode_quoted_printable same
    ∙ decode_quoted_printable_lem ps h
    ∙ is
