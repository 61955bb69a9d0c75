-- ===== src/Tests/Account.antt =====
-- Messages that are printed, signed and verified.
use ruzor.Prelude.{
  ◌≡◌, refl, true, false, none, some, [], ◌∷◌, ◌++◌, arith, ◌<◌, ◌^◌, ◌+◌, ◌%◌, ◌≤◌, length, ◌↔◌,
  ◌⊎◌, All, if◌then◌else◌,
}
use ruzor.Prelude.Int.{pos, ◌+ℤ◌, abs_i64, sub_i64}
use ruzor.Text.{codes, eq_ignore_ascii_case, trim, trim_start, is_whitespace}
use ruzor.Text.Utf8.{as_bytes}
use ruzor.Error.{ok, err, signature}
use ruzor.Message.{Message, get, get_all, add_header, set_header, as_string, parse}
use ruzor.Message.RoundTrip.{IsWellFormed, parse-as_string}
use ruzor.Message.Headers.{get-set_header, get_all-add_header}
use ruzor.Account.{Account, ascii_lower, expired, sign_for_account, verify_signature}
use ruzor.Account.Signature.{IsGenuine, verify_signature_sound, verify_signature-sign_for_account}
use ruzor.Sha1
use ruzor.Sha1.{pad, hexdigest}
use ruzor.Sha1.Shape.{length-pad, hexdigest_shape, is_hex, unhex}
use ruzor.Server.{handle_packet, handle_request}
use ruzor.Server.Wire.{handle_packet-as_string}
use ruzor.Tests.Server.{policy, setting, clock, start}
use ruzor.Account.Window.{IsClose, expired_iff}

abbrev ping : Message
ping = record { headers = (codes "Op", codes "ping") ∷ (codes "Thread", codes "2000") ∷ [] }

abbrev alice : Account
alice = record { username = codes "alice"; salt = none; key = codes "aB12" }

ping_unsigned : get ping (codes "Sig") ≡ none
unfolding get eq_ignore_ascii_case
ping_unsigned = refl

in_window : expired (pos 1100) (pos 1000) ≡ false
unfolding expired abs_i64 sub_i64
in_window = refl

verify_signature-sign_for_account_example :
    verify_signature ascii_lower
      (pos 1100)
      (sign_for_account ascii_lower ping alice (pos 1000))
      (codes "aB12")
    ≡ (if expired (pos 1100) (pos 1000)
        then err (signature (codes "Timestamp not within allowed range."))
        else ok tt)
verify_signature-sign_for_account_example =
    verify_signature-sign_for_account ascii_lower ping alice (pos 1000) (pos 1100) (omega arith)
      ping_unsigned

accepted :
    verify_signature ascii_lower
      (pos 1100)
      (sign_for_account ascii_lower ping alice (pos 1000))
      (codes "aB12")
    ≡ ok tt
accepted = rw (verify_signature-sign_for_account_example, in_window)

verify_signature_sound_example :
    IsGenuine ascii_lower
      (pos 1100)
      (sign_for_account ascii_lower ping alice (pos 1000))
      (codes "aB12")
verify_signature_sound_example =
    verify_signature_sound ascii_lower (pos 1100)
      (sign_for_account ascii_lower ping alice (pos 1000)) (codes "aB12") accepted

expired_iff_example :
    (expired (pos 1100) (pos 1000) ≡ false)
    ↔ (IsClose (pos 1100) (pos 1000) ⊎ (pos 1100 ≡ pos 1000 +ℤ pos (2 ^ 63)))
expired_iff_example = expired_iff 1100 (pos 1000) (omega arith) (omega arith)

ping_fits : IsWellFormed ping
unfolding trim trim_start is_whitespace
ping_fits = (
  record {
    name_text = ground arith;
    value_text = ground arith;
    name_line = omega arith;
    value_line = omega arith;
    name_cr = omega arith;
    value_cr = omega arith;
    name_colon = omega arith;
    name_trimmed = refl;
    value_trimmed = refl;
  },
  (
    record {
      name_text = ground arith;
      value_text = ground arith;
      name_line = omega arith;
      value_line = omega arith;
      name_cr = omega arith;
      value_cr = omega arith;
      name_colon = omega arith;
      name_trimmed = refl;
      value_trimmed = refl;
    },
    tt,
  ),
)

parse-as_string_example : parse (as_bytes (as_string ping)) ≡ ping
parse-as_string_example = parse-as_string ping ping_fits

get-set_header_example : get (set_header ping (codes "THREAD") (codes "1")) (codes "thread") ≡ (
    if eq_ignore_ascii_case (codes "THREAD") (codes "thread")
    then some (codes "1")
    else get ping (codes "thread"))
get-set_header_example = get-set_header ping (codes "THREAD") (codes "thread") (codes "1")

get_all-add_header_example :
    get_all (add_header ping (codes "op") (codes "check")) (codes "Op")
    ≡ get_all ping (codes "Op")
      ++ (if eq_ignore_ascii_case (codes "op") (codes "Op") then codes "check" ∷ [] else [])
get_all-add_header_example = get_all-add_header ping (codes "op") (codes "Op") (codes "check")

length-pad_example :
    (length (pad (codes "abc")) % 64 ≡ 0)
    × (length (codes "abc") + 9 ≤ length (pad (codes "abc")))
    × (length (pad (codes "abc")) < length (codes "abc") + 9 + 64)
length-pad_example = length-pad (codes "abc")

hexdigest_shape_example :
    (length (hexdigest (codes "abc")) ≡ 40)
    × All (λ c. is_hex c ≡ true) (hexdigest (codes "abc"))
    × (unhex (hexdigest (codes "abc")) ≡ Sha1.digest (codes "abc"))
hexdigest_shape_example = hexdigest_shape (codes "abc")

handle_packet-as_string_example :
    handle_packet policy setting clock (as_bytes (as_string ping)) start
    ≡ handle_request policy setting clock ping start
handle_packet-as_string_example = handle_packet-as_string policy setting clock ping start ping_fits
