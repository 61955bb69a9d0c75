-- ===== src/Digest/Payloads.antt =====
-- src/digest.rs: the payloads of a mail, from its nested parts, and the digest of a mail.
pub mod Nesting
use ruzor.Prelude.{
  ℕ, zero, suc, ◌≡◌, refl, Bool, true, false, Option, none, some, List, [], ◌∷◌, ◌++◌,
  if◌then◌else◌, length,
}
use ruzor.Text.{
  Text, Bytes, codes, eq_text, split, lines, unify_newlines, starts_with, split_once,
  eq_ignore_ascii_case, trim, is_whitespace, trim_end, join,
}
use ruzor.Text.Utf8.{from_utf8_lossy, as_bytes}
use ruzor.Message.{or_default, get}
use ruzor.Digest.{decode_base64, digest_spec, digest_with_spec, predigest_with_spec}
use ruzor.Digest.Html.{normalize_html_part}
use ruzor.Digest.Parts.{
  Part, ContentType, parse, content_type, transfer_encoding, split_multipart, split_mbox,
  parse_content_type, header, split_at_blank, split_lines, valid_header_line,
}
use ruzor.Digest.Transfer.{decode_transfer, decode_charset, decode_ascii_ignore, decode_utf8_ignore}

-- what is done with each child
unfoldable pub each_child : (Part → List Text) → List Bytes → List Text
each_child payloads [] = []
each_child payloads (child ∷ children) = payloads (parse child) ++ each_child payloads children

abbrev pub child_parts : Part → Option Text → List Bytes
child_parts part none = []
child_parts part (some boundary) = split_multipart part.body boundary

module _ (to_lowercase : Text → Text) (registered : Bytes → Text → Option Text) where
  -- what `digest_payloads` pushes for a part that is a text
  text_payload : Part → ContentType → Text
  text_payload part ct =
      let decoded = decode_transfer to_lowercase part.body (transfer_encoding part) in
      let payload =
        decode_charset to_lowercase registered decoded (or_default (codes "ascii") ct.charset) in
      if eq_text ct.sub (codes "html") then normalize_html_part to_lowercase payload else payload

  -- what it pushes for a part that has no children
  unfoldable pub leaf_payload : Part → ContentType → Text
  unfolding text_payload
  leaf_payload part ct =
      if eq_text ct.main (codes "text") then text_payload part ct else from_utf8_lossy part.body

  -- The body of `digest_payloads`, with `payloads` for its call of itself.
  unfoldable pub payloads_of : (Part → List Text) → Part → List Text
  payloads_of payloads part =
      let ct = content_type to_lowercase part in
      if eq_text ct.main (codes "multipart")
      then each_child payloads (child_parts part ct.boundary)
      else leaf_payload part ct ∷ []

  payloads_to_depth : ℕ → Part → List Text
  payloads_to_depth zero part = []
  payloads_to_depth (suc f) part = payloads_of (payloads_to_depth f) part

  -- `digest_payloads`; a part has fewer lines than the one that it is in
  unfoldable pub digest_payloads : Part → List Text
  unfolding payloads_to_depth
  digest_payloads part = payloads_to_depth (suc (length part.body)) part

  -- `predigest_message` and `digest_message`
  pub predigest_message : Bytes → List Text
  predigest_message bytes = predigest_with_spec (digest_payloads (parse bytes)) digest_spec

  pub digest_message : Bytes → Text
  digest_message bytes = digest_with_spec (digest_payloads (parse bytes)) digest_spec

  digest_each : List Bytes → List Text
  digest_each [] = []
  digest_each (message ∷ messages) = digest_message message ∷ digest_each messages

  -- `digest_mbox`
  pub digest_mbox : Bytes → List Text
  unfolding digest_each
  digest_mbox bytes = digest_each (split_mbox bytes)

nested_test :
    digest_payloads
      (λ name. name)
      (λ bytes name. none)
      (parse (
        codes
          "Content-Type: multipart/mixed; boundary=\"b\"\n\n--b\n\nham\n--b\nContent-Type: text/plain; charset=utf-8\nContent-Transfer-Encoding: base64\n\nZ28=\n--b--"))
    ≡ codes "\nham" ∷ codes "go" ∷ []
unfolding digest_payloads payloads_of eq_text content_type parse_content_type split header get parse
    lines from_utf8_lossy split_at_blank unify_newlines starts_with split_once eq_ignore_ascii_case
    trim is_whitespace each_child split_multipart split_lines trim_end join as_bytes leaf_payload
    transfer_encoding decode_transfer decode_charset decode_ascii_ignore decode_base64
    valid_header_line decode_utf8_ignore
nested_test = refl
