-- ===== src/Digest.antt =====
-- src/digest.rs, from the payloads of a mail to its digest: the normalisation of lines, the choice
-- of the lines that count, their hash, and the decoder of base64. The parts of a mail and its
-- character sets are not modelled.
pub mod Base64
pub mod Bounds
pub mod Html
pub mod Parts
pub mod Payloads
pub mod Transfer
use ruzor.Prelude.{
  ℕ, ◌+◌, ◌-◌, ◌*◌, ◌/◌, ◌%◌, ◌^◌, ◌≤◌, ◌≡◌, Bool, true, false, not, ◌&&◌, ◌||◌, Option, none, some,
  List, [], ◌∷◌, ◌++◌, ◌==◌, arith, leb, ltb, inl, inr, Bool-cases, if◌then◌else◌, length,
  length-append, get_elem?, All, All-append, zero, suc, ◌⊎◌, leb→le, refl,
}
use ruzor.Text.{Text, Bytes, codes, is_empty, split_once, split_whitespace, within, lines}
use ruzor.Text.Utf8.{as_bytes}
use ruzor.Sha1.{hexdigest}

-- `DIGEST_SPEC`
abbrev pub digest_spec : List (ℕ × ℕ)
digest_spec = (20, 3) ∷ (60, 3) ∷ []

abbrev is_alphabetic : Text → Bool
is_alphabetic [] = true
is_alphabetic (c ∷ s) = (within b'a' b'z' c || within b'A' b'Z' c) && is_alphabetic s

abbrev parts_of_email : Option (Text × Text) → Bool
parts_of_email none = false
parts_of_email (some (name, host)) = not (is_empty name) && not (is_empty host)

abbrev parts_of_url : Option (Text × Text) → Bool
parts_of_url none = false
parts_of_url (some (scheme, rest)) = not (is_empty scheme) && is_alphabetic scheme

looks_like_email : Text → Bool
looks_like_email token = parts_of_email (split_once b'@' token)

looks_like_url : Text → Bool
looks_like_url token = parts_of_url (split_once b':' token)

-- what `push_normalized_token` adds
normalized_token : Text → Text
unfolding looks_like_email looks_like_url
normalized_token token =
    if leb 10 (length token)
    then []
    else if looks_like_email token || looks_like_url token
    then []
    else token

normalized_tokens : List Text → Text
normalized_tokens [] = []
normalized_tokens (token ∷ tokens) = normalized_token token ++ normalized_tokens tokens

-- `input.replace('\0', "")`
without_nuls : Text → Text
without_nuls [] = []
without_nuls (c ∷ s) = let rest = without_nuls s in if c == 0 then rest else c ∷ rest

-- `normalize`
pub normalize : Text → Text
unfolding normalized_tokens normalized_token without_nuls
normalize input = normalized_tokens (split_whitespace (without_nuls input))

-- `should_handle_line`, on the length in bytes
abbrev pub should_handle_line : Text → Bool
should_handle_line line = leb 8 (length (as_bytes line))

handled_lines : List Text → List Text
handled_lines [] = []
handled_lines (line ∷ rest) =
    let more = handled_lines rest in
    let normalized = normalize line in
    if should_handle_line normalized then normalized ∷ more else more

payload_lines : List Text → List Text
payload_lines [] = []
payload_lines (payload ∷ rest) = handled_lines (lines payload) ++ payload_lines rest

abbrev found : Option Text → List Text
found none = []
found (some line) = line ∷ []

-- `for i in 0..length`, from `index` on
chosen : List Text → ℕ → ℕ → List Text
chosen all index zero = []
chosen all index (suc count) = found (get_elem? all index) ++ chosen all (index + 1) count

selected : List (ℕ × ℕ) → List Text → List Text
selected [] all = []
selected ((offset, count) ∷ spec) all =
    chosen all (offset * length all / 100) count ++ selected spec all

select : List (ℕ × ℕ) → List Text → List Text
select spec all =
    let chosen_lines = selected spec all in if leb (length all) 4 then all else chosen_lines

-- `predigest_with_spec`, from the payloads
pub predigest_with_spec : List Text → List (ℕ × ℕ) → List Text
predigest_with_spec payloads spec = select spec (payload_lines payloads)

concat_bytes : List Text → Bytes
concat_bytes [] = []
concat_bytes (line ∷ rest) = as_bytes line ++ concat_bytes rest

-- `digest_with_spec`
pub digest_with_spec : List Text → List (ℕ × ℕ) → Text
digest_with_spec payloads spec = hexdigest (concat_bytes (predigest_with_spec payloads spec))

-- `base64_val` and `hex_val`
base64_val : ℕ → Option ℕ
base64_val c =
    if within b'A' b'Z' c
    then some (c - b'A')
    else if within b'a' b'z' c
    then some (c - b'a' + 26)
    else if within b'0' b'9' c
    then some (c - b'0' + 52)
    else if c == b'+'
    then some 62
    else if c == b'/'
    then some 63
    else none

-- `is_ascii_whitespace`
abbrev is_blank : ℕ → Bool
is_blank c = c == b' ' || c == b'\t' || c == b'\n' || c == 12 || c == b'\r'

-- the loop of `decode_base64`: a 32-bit buffer and the number of its bits not yet out
base64_loop : Bytes → ℕ → ℕ → Bytes
unfolding base64_val
base64_loop [] buffer bits = []
base64_loop (c ∷ s) buffer bits =
    let skipped = base64_loop s buffer bits in
    let taken : Bytes = elim (base64_val c) [
      | none ↦ skipped
      | some value ↦
          let wide = (buffer * 64 + value) % 2 ^ 32 in
          let out = wide / 2 ^ (bits - 2) % 256 ∷ base64_loop s wide (bits - 2) in
          let waiting = base64_loop s wide (bits + 6) in if leb 8 (bits + 6) then out else waiting
    ] in
    if is_blank c then skipped else if c == b'=' then [] else taken

pub decode_base64 : Bytes → Bytes
unfolding base64_loop
decode_base64 bytes = base64_loop bytes 0 0

-- the example of RFC 4648
base64_test : decode_base64 (codes "Zm9v\nYmE=") ≡ codes "fooba"
unfolding decode_base64
base64_test = refl
