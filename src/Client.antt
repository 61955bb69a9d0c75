-- ===== src/Client.antt =====
-- src/client.rs: `Client`. `exchange` stands for the socket: the bytes that come back from an
-- address for the bytes that were sent there, or the error of resolving, sending or receiving.
pub mod Threads
pub mod Batch
pub mod Forwarding
pub mod Admitted
use ruzor.Prelude.{
  ℕ, ◌≡◌, ◌↔◌, refl, Bool, true, false, ◌&&◌, Option, none, some, List, [], ◌∷◌, ◌++◌, ◌==◌, arith,
  ==_iff, if◌then◌else◌,
}
use ruzor.Prelude.Int.{ℤ}
use ruzor.Prelude.Assoc.{Eq, lookup}
use ruzor.Text.{Text, Bytes, codes, eq_text}
use ruzor.Text.Laws.{eq_text_iff}
use ruzor.Text.Decimal.{nat_to_string}
use ruzor.Text.Utf8.{as_bytes}
use ruzor.Error.{Result, ok, err, ◌>>=◌, ◌>>◌, protocol}
use ruzor.Message.{
  Message, as_string, parse, thread, ensure_response, in_ok_range, init_for_sending, request,
  digest_request, spec_digest_request, or_default,
}
use ruzor.Account.{Account, anonymous, sign_for_account}
use ruzor.Server.Operations.{Address}

abbrev pub same_address : Address → Address → Bool
same_address (host, port) (host', port') = eq_text host host' && port == port'

pub same_address_iff : (a b : Address) → (same_address a b ≡ true) ↔ (a ≡ b)
same_address_iff (host, port) (host', port') = ground (arith, eq_text_iff host host')

instance abbrev pub address_eq : Eq Address
address_eq = record { beq = same_address; beq_iff = same_address_iff }

pub record Client : Type 0 where
  pub accounts : List (Address × Account)
  pub spec : List (ℕ × ℕ)

-- The readings of the clock: nanoseconds for a thread id, seconds for a signature.
pub record Now : Type 0 where
  pub nanos : ℕ
  pub seconds : ℤ

abbrev pub unexpected : ℕ → ℕ → Text
unexpected got wanted =
    codes "received unexpected thread id "
    ++ (nat_to_string got ++ (codes " (expected " ++ (nat_to_string wanted ++ codes ")")))

-- the test of the thread id; one below the range is only worth a warning
unfoldable pub check_thread : ℕ → ℕ → Message → Result Message
check_thread expected_id id m =
    if id == expected_id
    then ok m
    else if in_ok_range id
    then err (protocol (unexpected id expected_id))
    else ok m

-- `read_response`
unfoldable pub read_response : ℕ → Bytes → Result Message
read_response expected_id bytes =
    let m = parse bytes in do ensure_response m; id ← thread m; check_thread expected_id id m

module _ (lower : Text → Text) (c : Client) where
  -- `sign`
  unfoldable pub sign : Now → Message → Address → Message
  sign now m address =
      sign_for_account lower (init_for_sending now.nanos m)
        (or_default anonymous (lookup address c.accounts)) now.seconds

  module _ (exchange : Address → Bytes → Result Bytes) (now : Now) where
    -- `round_trip`
    unfoldable pub round_trip : Message → Address → Result Message
    round_trip m address =
        let signed = sign now m address in
        do
          expected_id ← thread signed
          bytes ← exchange address (as_bytes (as_string signed))
          read_response expected_id bytes

    unfoldable pub ping : Address → Result Message
    ping address = round_trip (request (codes "ping")) address

    unfoldable pub pong : Text → Address → Result Message
    pong digest address = round_trip (digest_request (codes "pong") digest) address

    unfoldable pub check : Text → Address → Result Message
    check digest address = round_trip (digest_request (codes "check") digest) address

    unfoldable pub info : Text → Address → Result Message
    info digest address = round_trip (digest_request (codes "info") digest) address

    unfoldable pub report : Text → Address → Result Message
    report digest address = round_trip (spec_digest_request (codes "report") digest c.spec) address

    unfoldable pub whitelist : Text → Address → Result Message
    whitelist digest address =
        round_trip (spec_digest_request (codes "whitelist") digest c.spec) address
