-- ===== src/Client/Admitted.antt =====
-- A request that src/client.rs signs for an account is one that src/server.rs serves.
use ruzor.Prelude.{ℕ, ◌≡◌, refl, ◌∙◌, true, false, none, some, inl, inr, Bool-cases}
use ruzor.Prelude.Int.{ℤ, pos, InI64}
use ruzor.Prelude.Assoc.{lookup}
use ruzor.Text.{Text, codes, eq_text, eq_ignore_ascii_case}
use ruzor.Text.Laws.{text_eq}
use ruzor.Error.{ok}
use ruzor.Message.{Message, get, contains, init_for_sending, or_default, proto_version}
use ruzor.Message.Headers.{get-set_header, get-add_header_ne}
use ruzor.Account.{Account, anonymous, anonymous_user, sign_for_account, verify_signature, expired}
use ruzor.Account.Signature.{verify_signature-sign_for_account}
use ruzor.Server.Admission.{Policy, admit, check_user, user_of, opcode_of, is_allowed}
use ruzor.Server.Operations.{Address}
use ruzor.Client.{Client, Now, sign, address_eq}

-- the preparation leaves the other headers alone
get-init_for_sending :
    (nanos : ℕ) (m : Message) (k : Text)
    → eq_ignore_ascii_case (codes "Thread") k ≡ false
    → eq_ignore_ascii_case (codes "PV") k ≡ false
    → get (init_for_sending nanos m) k ≡ get m k
unfolding init_for_sending
get-init_for_sending nanos m k not_thread not_pv = elim (Bool-cases (contains m (codes "Thread"))) [
  | inl threaded ↦ rw threaded (simp (get-set_header, not_pv))
  | inr fresh ↦
      rw fresh (simp (get-set_header, not_pv, get-add_header_ne m (codes "Thread") k _ not_thread))
]

get_pv-init_for_sending :
    (nanos : ℕ) (m : Message) → get (init_for_sending nanos m) (codes "PV") ≡ some proto_version
unfolding init_for_sending eq_ignore_ascii_case
get_pv-init_for_sending nanos m = simp get-set_header

module _ (lower : Text → Text) (m : Message) (account : Account) (timestamp : ℤ) where
  get_user : get (sign_for_account lower m account timestamp) (codes "User") ≡ some account.username
  unfolding sign_for_account eq_ignore_ascii_case
  get_user = simp get-set_header

  get-signed :
      (k : Text)
      → eq_ignore_ascii_case (codes "User") k ≡ false
      → eq_ignore_ascii_case (codes "Time") k ≡ false
      → eq_ignore_ascii_case (codes "Sig") k ≡ false
      → get (sign_for_account lower m account timestamp) k ≡ get m k
  unfolding sign_for_account
  get-signed k not_user not_time not_sig = simp (get-set_header, not_user, not_time, not_sig)

module _ (policy : Policy) (c : Client) (now : Now) (verified_at : ℤ) (m : Message)
    (address : Address) where
  abbrev account : Account
  account = or_default anonymous (lookup address c.accounts)

  abbrev signed : Message
  signed = sign policy.lower c now m address

  user_signed : get signed (codes "User") ≡ some account.username
  user_signed =
      unfold sign in get_user policy.lower (init_for_sending now.nanos m) account now.seconds

  op_signed : get signed (codes "Op") ≡ get m (codes "Op")
  unfolding eq_ignore_ascii_case sign
  op_signed =
      get-signed policy.lower (init_for_sending now.nanos m) account now.seconds (codes "Op") refl
        refl refl
      ∙ get-init_for_sending now.nanos m (codes "Op") refl refl

  pv_signed : get signed (codes "PV") ≡ some proto_version
  unfolding eq_ignore_ascii_case sign
  pv_signed =
      get-signed policy.lower (init_for_sending now.nanos m) account now.seconds (codes "PV") refl
        refl refl
      ∙ get_pv-init_for_sending now.nanos m

  verified :
      InI64 now.seconds
      → get m (codes "Sig") ≡ none
      → expired verified_at now.seconds ≡ false
      → verify_signature policy.lower verified_at signed account.key ≡ ok tt
  unfolding eq_ignore_ascii_case sign
  verified fits unsigned close =
      verify_signature-sign_for_account policy.lower (init_for_sending now.nanos m) account
        now.seconds verified_at fits
        (get-init_for_sending now.nanos m (codes "Sig") refl refl ∙ unsigned)
      ∙ rw close

  checked :
      eq_text account.username anonymous_user ≡ false
      → lookup account.username policy.accounts ≡ some account.key
      → verify_signature policy.lower verified_at signed account.key ≡ ok tt
      → check_user policy verified_at signed ≡ ok tt
  unfolding check_user
  checked named known passed = rw user_signed (rw named (rw known (passed)))

  user_of-signed : user_of signed ≡ account.username
  user_of-signed = unfold user_of in rw user_signed

  -- A request without a `Sig` that a client signs for a named account is admitted, with the opcode
  -- that it names, by a server that has the account's key, whose clock is within the window of the
  -- client's, whose float parser reads 2.1 as 2 and whose access list lets the account do it.
  pub admit-sign :
      InI64 now.seconds
      → get m (codes "Sig") ≡ none
      → expired verified_at now.seconds ≡ false
      → eq_text account.username anonymous_user ≡ false
      → lookup account.username policy.accounts ≡ some account.key
      → policy.float_as_i64 proto_version ≡ some (pos 2)
      → is_allowed policy.acl account.username (opcode_of m) ≡ true
      → admit policy verified_at (sign policy.lower c now m address) ≡ ok (opcode_of m)
  unfolding admit
  admit-sign fits unsigned close named known major allowed =
      rw (checked named known (verified fits unsigned close))
        (rw pv_signed (rw major (rw op_signed (rw user_of-signed (rw allowed)))))
