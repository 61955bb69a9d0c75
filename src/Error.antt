-- ===== src/Error.antt =====
-- src/error.rs: `PyzorError`, and `Result` of src/lib.rs. An `io::Error` is kept as the text that
-- it displays and whether its kind is `TimedOut`.
use ruzor.Prelude.{ℕ, ◌≡◌, refl, Bool, if◌then◌else◌}
use ruzor.Text.{Text}

pub data PyzorError : Type 0 where
  comm protocol timeout incomplete_message : Text → PyzorError
  unsupported_version signature authorization io : Text → PyzorError

-- `PyzorError::code`
pub error_code : PyzorError → ℕ
error_code (timeout _) = 504
error_code (unsupported_version _) = 505
error_code (signature _) = 401
error_code (authorization _) = 403
error_code (comm _) = 400
error_code (protocol _) = 400
error_code (incomplete_message _) = 400
error_code (io _) = 400

-- `Display`
unfoldable pub display : PyzorError → Text
display (comm m) = m
display (protocol m) = m
display (timeout m) = m
display (incomplete_message m) = m
display (unsupported_version m) = m
display (signature m) = m
display (authorization m) = m
display (io m) = m

-- `From<io::Error>`: the flag is `kind() == TimedOut`
unfoldable pub from_io : Bool → Text → PyzorError
from_io timed_out m = if timed_out then timeout m else io m

pub data Result {ℓ} (A : Type ℓ) : Type ℓ where
  ok : A → Result A
  err : PyzorError → Result A

-- what follows an error is skipped
infixl 5 ◌>>=◌
abbrev pub ◌>>=◌ {ℓ κ} : {A : Type ℓ} {B : Type κ} → Result A → (A → Result B) → Result B
err e >>= next = err e
ok value >>= next = next value

infixl 5 ◌>>◌
abbrev pub ◌>>◌ {ℓ} : {B : Type ℓ} → Result (Unit {0}) → Result B → Result B
checked >> next = checked >>= λ (_ : Unit {0}). next

abbrev pub guard : Bool → PyzorError → Result (Unit {0})
guard condition e = if condition then ok tt else err e

-- Where two steps give a value, the first did, and the second did from it.
pub >>=-eq-ok {ℓ κ} :
    {A : Type ℓ} {B : Type κ} {b : B} (first : Result A) (next : A → Result B)
    → first >>= next ≡ ok b
    → (value : A) × (next value ≡ ok b) × (first ≡ ok value)
>>=-eq-ok (err e) next same = cc
>>=-eq-ok (ok value) next same = (value, same, refl)
