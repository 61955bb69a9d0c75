-- ===== src/Digest/Transfer.antt =====
-- src/digest.rs: transfer encodings and character sets. `to_lowercase` stands for the standard
-- library's, and `registered` for the encodings of the crate encoding_rs.
pub mod Encodings
use ruzor.Prelude.{
  ℕ, zero, suc, ◌+◌, ◌-◌, ◌*◌, ◌≡◌, refl, Bool, false, ◌||◌, Option, none, some, List, [], ◌∷◌,
  ◌++◌, ◌==◌, ltb, if◌then◌else◌, length,
}
use ruzor.Text.{Text, Bytes, codes, eq_text, trim, within}
use ruzor.Text.Utf8.{next_chunk, done, char, bad}
use ruzor.Digest.{decode_base64, without_nuls}

-- `hex_val`
unfoldable pub hex_val : ℕ → Option ℕ
hex_val c =
    if within b'0' b'9' c
    then some (c - b'0')
    else if within b'a' b'f' c
    then some (c - b'a' + 10)
    else if within b'A' b'F' c
    then some (c - b'A' + 10)
    else none

abbrev escaped_byte : Option ℕ → Option ℕ → Bytes × ℕ
escaped_byte (some hi) (some lo) = ((hi * 16 + lo) ∷ [], 2)
escaped_byte _ _ = (b'=' ∷ [], 0)

-- What a `=` stands for in front of the bytes, and how many of these it takes.
unfoldable pub escape : Bytes → Bytes × ℕ
escape [] = (b'=' ∷ [], 0)
escape (d ∷ []) = if d == b'\n' || d == b'\r' then ([], 1) else (b'=' ∷ [], 0)
escape (d ∷ e ∷ s) =
    if d == b'\n'
    then ([], 1)
    else if d == b'\r'
    then ([], if e == b'\n' then 2 else 1)
    else escaped_byte (hex_val d) (hex_val e)

-- the loop; `skip` bytes are taken already
quoted_from : ℕ → Bytes → Bytes
quoted_from skip [] = []
quoted_from (suc skip) (c ∷ s) = quoted_from skip s
quoted_from zero (c ∷ s) =
    let (out, skip) = if c == b'=' then escape s else (c ∷ [], 0) in out ++ quoted_from skip s

-- `decode_quoted_printable`
unfoldable pub decode_quoted_printable : Bytes → Bytes
unfolding quoted_from
decode_quoted_printable bytes = quoted_from 0 bytes

-- `decode_ascii_ignore`
unfoldable pub decode_ascii_ignore : Bytes → Text
decode_ascii_ignore [] = []
decode_ascii_ignore (c ∷ s) =
    let rest = decode_ascii_ignore s in if ltb c 128 then c ∷ rest else rest

-- The rounds of `decode_utf8_ignore`: of a sequence that is cut off the source skips one byte, and
-- then each of the others.
ignore_bad : ℕ → Bytes → Text
ignore_bad zero s = []
ignore_bad (suc f) s = elim (next_chunk s) [
  | done ↦ []
  | char c rest ↦ c ∷ ignore_bad f rest
  | bad rest ↦ ignore_bad f rest
]

-- `decode_utf8_ignore`
unfoldable pub decode_utf8_ignore : Bytes → Text
unfolding ignore_bad
decode_utf8_ignore bytes = ignore_bad (length bytes) bytes

abbrev hyphens : Text → Text
hyphens [] = []
hyphens (c ∷ s) = (if c == b'_' then b'-' else c) ∷ hyphens s

abbrev pub is_one_of : Text → List Text → Bool
is_one_of name [] = false
is_one_of name (known ∷ more) = eq_text name known || is_one_of name more

abbrev or_else : Option Text → Text → Text
or_else none text = text
or_else (some text) other = text

module _ (to_lowercase : Text → Text) where
  -- `decode_transfer`
  unfoldable pub decode_transfer : Bytes → Text → Bytes
  decode_transfer bytes encoding =
      let name = to_lowercase (trim encoding) in
      if is_one_of name (codes "quoted-printable" ∷ codes "quopri" ∷ [])
      then decode_quoted_printable bytes
      else if eq_text name (codes "base64")
      then decode_base64 bytes
      else bytes

  module _ (registered : Bytes → Text → Option Text) where
    -- `decode_charset`; a byte is a character of Latin-1
    unfoldable pub decode_charset : Bytes → Text → Text
    unfolding without_nuls
    decode_charset bytes charset =
        let normalized = without_nuls (hyphens (to_lowercase charset)) in
        if is_one_of normalized (codes "ascii" ∷ codes "us-ascii" ∷ [])
        then decode_ascii_ignore bytes
        else if is_one_of normalized (codes "utf8" ∷ codes "utf-8" ∷ [])
        then decode_utf8_ignore bytes
        else if is_one_of normalized (codes "iso-8859-1" ∷ codes "latin-1" ∷ codes "latin1" ∷ [])
        then bytes
        else if is_one_of normalized (
            codes "quopri-codec"
            ∷ codes "quopri"
            ∷ codes "quoted-printable"
            ∷ codes "quotedprintable"
            ∷ [])
        then decode_ascii_ignore bytes
        else or_else (registered bytes normalized) (decode_ascii_ignore bytes)

quoted_test : decode_quoted_printable (codes "a=3Db=\r\nc=") ≡ codes "a=bc="
unfolding decode_quoted_printable escape hex_val
quoted_test = refl
