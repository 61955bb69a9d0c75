-- ===== src/Account.antt =====
-- src/account.rs: key hashing, the signature of a message, and its verification. `lower` stands
-- for `str::to_lowercase`, whose Unicode tables are not in the repository, and `now` for the
-- reading of the clock. Differences of timestamps wrap, as in a release build.
pub mod Window
pub mod Signature
use ruzor.Prelude.{
  ℕ, ◌≡◌, refl, Bool, not, ◌+◌, ltb, ◌&&◌, Option, none, some, List, [], ◌∷◌, ◌++◌, ◌⊎◌, inl, inr,
  if◌then◌else◌,
}
use ruzor.Prelude.Int.{ℤ, pos, negsuc, sub_i64, abs_i64, ltb_ℤ}
use ruzor.Text.{Text, Bytes, codes, eq_text, trim, split, is_whitespace}
use ruzor.Text.Decimal.{int_to_string, parse_i64}
use ruzor.Text.Utf8.{as_bytes}
use ruzor.Error.{Result, ok, err, ◌>>=◌, ◌>>◌, guard, signature}
use ruzor.Message.{Message, get, set_header, remove_all, as_string, or_err}
use ruzor.Sha1
use ruzor.Sha1.{hexdigest}

pub record Account : Type 0 where
  pub username : Text
  pub salt : Option Text
  pub key : Text

-- ANONYMOUS_USER of src/lib.rs
abbrev pub anonymous_user : Text
anonymous_user = codes "anonymous"

abbrev pub anonymous : Account
anonymous = record { username = anonymous_user; salt = none; key = [] }

-- MAX_TIMESTAMP_DIFFERENCE of src/lib.rs
abbrev pub max_timestamp_difference : ℤ
max_timestamp_difference = pos 300

-- `(now - timestamp).abs() > MAX_TIMESTAMP_DIFFERENCE`
unfoldable pub expired : ℤ → ℤ → Bool
expired now timestamp = ltb_ℤ max_timestamp_difference (abs_i64 (sub_i64 now timestamp))

pub sign_msg : Text → ℤ → Message → Text
sign_msg hashed_key timestamp m = hexdigest (
    Sha1.digest (as_bytes (trim (as_string m)))
    ++ as_bytes (b':' ∷ (int_to_string timestamp ++ (b':' ∷ hashed_key))))

module _ (lower : Text → Text) where
  pub hash_key : Text → Text → Text
  hash_key key user = hexdigest (as_bytes (user ++ (b':' ∷ lower key)))

  unfoldable pub sign_for_account : Message → Account → ℤ → Message
  sign_for_account m account timestamp =
      let named = set_header m (codes "User") account.username in
      let timed = set_header named (codes "Time") (int_to_string timestamp) in
      let hashed = hash_key account.key account.username in
      set_header timed (codes "Sig") (sign_msg hashed timestamp timed)

  unfoldable pub verify_signature : ℤ → Message → Text → Result (Unit {0})
  verify_signature now m user_key = do
    time ← or_err (get m (codes "Time")) (signature (codes "Missing timestamp."))
    timestamp ← or_err (parse_i64 time) (signature (codes "Invalid timestamp."))
    user ← or_err (get m (codes "User")) (signature (codes "Missing user."))
    provided ← or_err (get m (codes "Sig")) (signature (codes "Missing signature."))
    guard (not (expired now timestamp)) (signature (codes "Timestamp not within allowed range."))
    guard
        (eq_text (sign_msg (hash_key user_key user) timestamp (remove_all m (codes "Sig")))
          provided)
        (signature (codes "Invalid signature."))

abbrev invalid_key_parts : Text
invalid_key_parts =
    codes
      "Invalid number of parts for key; perhaps you forgot the comma at the beginning for the salt divider?"

exactly_two : List Text → Text ⊎ (Text × Text)
exactly_two (salt ∷ key ∷ []) = inr (salt, key)
exactly_two _ = inl invalid_key_parts

-- `key_from_hexstr`: the error message, or the salt and the key
unfoldable pub key_from_hexstr : Text → Text ⊎ (Text × Text)
unfolding exactly_two
key_from_hexstr value = exactly_two (split b',' value)

-- ASCII lower case, for the tests
abbrev pub ascii_lower : Text → Text
ascii_lower [] = []
ascii_lower (c ∷ s) = (if not (ltb c b'A') && not (ltb b'Z' c) then c + 32 else c) ∷ ascii_lower s

hash_key_test :
    hash_key ascii_lower (codes "testkey") (codes "testuser")
    ≡ codes "0957bd79b58263657127a39762879098286d8477"
unfolding hash_key hexdigest as_bytes
hash_key_test = refl

sign_msg_test :
    sign_msg (codes "00942f4668670f34c5943cf52c7ef3139fe2b8d6") (pos 1381219396) (record {
      headers =
          (codes "Op", codes "ping")
          ∷ (codes "Thread", codes "14941")
          ∷ (codes "PV", codes "2.1")
          ∷ (codes "User", codes "anonymous")
          ∷ (codes "Time", codes "1381219396")
          ∷ [];
    })
    ≡ codes "2ab1bad2aae6fd80c656a896c82eef0ec1ec38a0"
unfolding sign_msg hexdigest as_bytes trim as_string int_to_string is_whitespace Sha1.digest
sign_msg_test = refl
