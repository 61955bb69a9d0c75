-- ===== src/Server.antt =====
-- src/server.rs: one request. `Server.Admission` decides who may do what, `Server.Operations` has
-- the operations, and here a packet becomes a response. Panics of the handler and the debug log
-- are not modelled.
pub mod Admission
pub mod Operations
pub mod Replies
pub mod Effects
pub mod Wire
pub mod Limiter
pub mod Usage
use ruzor.Prelude.{
  ℕ, ◌≡◌, refl, Bool, true, false, ◌&&◌, Option, none, some, List, [], ◌∷◌, ◌++◌, ◌==◌,
  if◌then◌else◌,
}
use ruzor.Prelude.Int.{ℤ}
use ruzor.Text.{Text, Bytes, codes, starts_with}
use ruzor.Text.Decimal.{nat_to_string}
use ruzor.Error.{
  Result, ok, err, PyzorError, display, comm, protocol, timeout, incomplete_message, io,
  unsupported_version, signature, authorization,
}
use ruzor.Message.{Message, parse, get, get_all, replace_header, response}
use ruzor.Server.Admission.{Policy, admit}
use ruzor.Server.Operations.{World, Setting, Outcome, dispatch}

-- The readings of the clock that one request makes.
pub record Clock : Type 0 where
  pub verified_at : ℤ
  pub updated_at : ℕ → ℤ
  pub proxied_at : ℤ

-- `clean_legacy_packet`: a pair of newlines becomes one, and one is added at the end
unfoldable pub clean_legacy_packet : Bytes → Bytes
clean_legacy_packet [] = b'\n' ∷ []
clean_legacy_packet (c ∷ []) = c ∷ b'\n' ∷ []
clean_legacy_packet (c ∷ d ∷ rest) =
    let joined = b'\n' ∷ clean_legacy_packet rest in
    let kept = c ∷ clean_legacy_packet (d ∷ rest) in
    if c == b'\n' && d == b'\n' then joined else kept

abbrev pub not_implemented : Text
not_implemented = codes "Not implemented:"

-- the code and the text that `apply_error` sends
unfoldable pub error_reply : PyzorError → ℕ × Text
unfolding display starts_with
error_reply (unsupported_version m) = (505, codes "Version Not Supported: " ++ m)
error_reply (protocol m) = (400, codes "Bad request: " ++ m)
error_reply (incomplete_message m) = (400, codes "Bad request: " ++ m)
error_reply (signature m) = (401, codes "Unauthorized: Signature Error: " ++ m)
error_reply (authorization m) = (403, codes "Forbidden: " ++ m)
error_reply (comm m) =
    if starts_with not_implemented m then (501, m) else (500, codes "Internal Server Error: " ++ m)
error_reply (timeout m) = (500, codes "Internal Server Error: " ++ m)
error_reply (io m) = (500, codes "Internal Server Error: " ++ m)

-- `apply_error`
unfoldable pub apply_error : Message → PyzorError → Message
unfolding error_reply replace_header
apply_error m e =
    let (code, diag) = error_reply e in
    replace_header (replace_header m (codes "Code") (nat_to_string code)) (codes "Diag") diag

abbrev pub finish : {S : Type 0} → Outcome S → Message × World S
finish o = elim o.result [
  | ok _ ↦ (o.response, o.world)
  | err e ↦ (apply_error o.response e, o.world)
]

module _ {S : Type 0} (policy : Policy) (setting : Setting S) where
  -- `really_handle`
  unfoldable pub really_handle : Clock → Message → Message → World S → Outcome S
  really_handle clock request reply w = elim (admit policy clock.verified_at request) [
    | err e ↦ record { result = err e; response = reply; world = w }
    | ok opcode ↦
        dispatch setting clock.updated_at clock.proxied_at opcode
          (get_all request (codes "Op-Digest")) reply w
  ]

  unfoldable pub handle_request : Clock → Message → World S → Message × World S
  handle_request clock request w =
      finish (really_handle clock request (response (get request (codes "Thread"))) w)

  -- `handle_packet_with_forwarder`
  unfoldable pub handle_packet : Clock → Bytes → World S → Message × World S
  unfolding handle_request
  handle_packet clock packet w = handle_request clock (parse (clean_legacy_packet packet)) w
