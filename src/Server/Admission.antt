-- ===== src/Server/Admission.antt =====
-- src/server.rs, the first half of `really_handle`: signature, protocol version, access list.
use ruzor.Prelude.{Bool, false, ◌||◌, ◌==◌, Option, none, some, List, [], ◌∷◌, if◌then◌else◌}
use ruzor.Prelude.Int.{ℤ, pos, negsuc}
use ruzor.Prelude.Assoc.{lookup}
use ruzor.Text.{Text, codes, eq_text}
use ruzor.Text.Laws.{text_eq}
use ruzor.Error.{
  Result, ok, ◌>>=◌, ◌>>◌, guard, signature, protocol, unsupported_version, authorization,
}
use ruzor.Message.{Message, get, or_err, or_default}
use ruzor.Account.{anonymous_user, verify_signature}

-- `accounts` and `acl`, and two functions of the standard library: `str::to_lowercase`, and the
-- whole number that `protocol_major` takes from a float, `value.parse::<f64>()` cast to i64.
pub record Policy : Type 0 where
  pub accounts : List (Text × Text)
  pub acl : List (Text × List Text)
  pub lower : Text → Text
  pub float_as_i64 : Text → Option ℤ

-- `HashSet::contains`
unfoldable pub has : List Text → Text → Bool
has [] op = false
has (x ∷ xs) op = eq_text x op || has xs op

unfoldable pub is_allowed : List (Text × List Text) → Text → Text → Bool
unfolding lookup has
is_allowed acl user op = elim (lookup user acl) [ none ↦ false | some ops ↦ has ops op ]

-- PROTO_MAJOR of src/lib.rs
abbrev pub is_proto_major : ℤ → Bool
is_proto_major (pos n) = n == 2
is_proto_major (negsuc n) = false

-- `protocol_major`
unfoldable pub protocol_major : Policy → Text → Result ℤ
protocol_major policy value =
    or_err (policy.float_as_i64 value) (protocol (codes "Invalid Protocol Version"))

unfoldable pub user_of : Message → Text
user_of request = or_default anonymous_user (get request (codes "User"))

unfoldable pub opcode_of : Message → Text
opcode_of request = or_default [] (get request (codes "Op"))

-- `if user != ANONYMOUS_USER { … }`
unfoldable pub check_user : Policy → ℤ → Message → Result (Unit {0})
unfolding user_of
check_user policy now request = if eq_text (user_of request) anonymous_user then ok tt else do
  key ← or_err (lookup (user_of request) policy.accounts) (signature (codes "Unknown user."))
  verify_signature policy.lower now request key

-- The opcode of a request that may be served.
unfoldable pub admit : Policy → ℤ → Message → Result Text
unfolding opcode_of protocol_major
admit policy now request = do
  check_user policy now request
  pv ←
      or_err (get request (codes "PV"))
        (protocol (codes "Protocol Version not specified in request"))
  major ← protocol_major policy pv
  guard (is_proto_major major) (unsupported_version [])
  guard (is_allowed policy.acl (user_of request) (opcode_of request))
      (authorization (codes "User is not authorized to request the operation."))
  ok (opcode_of request)
