-- ===== src/Account/Signature.antt =====
-- Signing and verifying of src/account.rs against each other.
use ruzor.Prelude.{
  ◌≡◌, refl, Bool, true, false, not, arith, Option, none, some, inl, inr, Bool-cases, if◌then◌else◌,
}
use ruzor.Prelude.Int.{ℤ, InI64}
use ruzor.Text.{Text, codes, eq_ignore_ascii_case}
use ruzor.Text.Decimal.{int_to_string, parse_i64, parse_i64-int_to_string}
use ruzor.Text.Laws.{eq_text_refl, eq_text_iff}
use ruzor.Error.{ok, err, >>=-eq-ok, guard, PyzorError, signature}
use ruzor.Message.{Message, get, set_header, remove_all, or_err}
use ruzor.Message.Headers.{get-set_header, remove_all-set_header}
use ruzor.Account.{Account, expired, sign_msg, hash_key, sign_for_account, verify_signature}

module _ (lower : Text → Text) (m : Message) (account : Account) (timestamp : ℤ) where
  abbrev signed : Message
  signed = sign_for_account lower m account timestamp

  get_user : get signed (codes "User") ≡ some account.username
  unfolding sign_for_account eq_ignore_ascii_case
  get_user = simp get-set_header

  get_time : get signed (codes "Time") ≡ some (int_to_string timestamp)
  unfolding sign_for_account eq_ignore_ascii_case
  get_time = simp get-set_header

  -- the message that is signed
  abbrev timed : Message
  timed =
      set_header (set_header m (codes "User") account.username) (codes "Time")
        (int_to_string timestamp)

  abbrev expected_sig : Text
  expected_sig = sign_msg (hash_key lower account.key account.username) timestamp timed

  get_sig : get signed (codes "Sig") ≡ some expected_sig
  unfolding sign_for_account eq_ignore_ascii_case
  get_sig = simp get-set_header

  timed_unsigned : get m (codes "Sig") ≡ none → get timed (codes "Sig") ≡ none
  unfolding eq_ignore_ascii_case
  timed_unsigned h = simp (get-set_header, h)

  remove_sig : get m (codes "Sig") ≡ none → remove_all signed (codes "Sig") ≡ timed
  unfolding sign_for_account
  remove_sig h = remove_all-set_header timed (codes "Sig") expected_sig (timed_unsigned h)

  -- A message with no `Sig` that an account signs is accepted under that account's key while the
  -- timestamp is in the window, and refused for its timestamp alone otherwise.
  pub verify_signature-sign_for_account :
      (now : ℤ)
      → InI64 timestamp
      → get m (codes "Sig") ≡ none
      → verify_signature lower now (sign_for_account lower m account timestamp) account.key ≡ (
          if expired now timestamp
          then err (signature (codes "Timestamp not within allowed range."))
          else ok tt)
  verify_signature-sign_for_account now fits h =
      unfold verify_signature in
      rw (get_time, parse_i64-int_to_string timestamp fits, get_user, get_sig, remove_sig h)
        (rw (eq_text_refl expected_sig) (elim (Bool-cases (expired now timestamp)) [
          | inl late ↦ rw late
          | inr in_time ↦ rw in_time
        ]))

-- What a message must hold to be accepted.
pub record IsGenuine (lower : Text → Text) (now : ℤ) (m : Message) (key : Text) : Type 0 where
  pub timestamp : ℤ
  pub time : Text
  pub user : Text
  pub sig : Text
  pub time_is : get m (codes "Time") ≡ some time
  pub timestamp_is : parse_i64 time ≡ some timestamp
  pub user_is : get m (codes "User") ≡ some user
  pub sig_is : get m (codes "Sig") ≡ some sig
  pub in_window : expired now timestamp ≡ false
  pub signed_by_key :
      sign_msg (hash_key lower key user) timestamp (remove_all m (codes "Sig")) ≡ sig

or_err-eq-ok {ℓ} :
    {A : Type ℓ} (o : Option A) (e : PyzorError) {a : A} → or_err o e ≡ ok a → o ≡ some a
or_err-eq-ok none e h = cc
or_err-eq-ok (some a) e h = cc

guard-eq-ok : (b : Bool) (e : PyzorError) → guard b e ≡ ok tt → b ≡ true
guard-eq-ok true e h = refl
guard-eq-ok false e h = cc

of_not : (b : Bool) → not b ≡ true → b ≡ false
of_not b h = ground arith

-- Only a genuine message is accepted: it has a decimal timestamp in the window, a user, and the
-- signature of the message without its `Sig` headers under that user's key.
pub verify_signature_sound :
    (lower : Text → Text) (now : ℤ) (m : Message) (key : Text)
    → verify_signature lower now m key ≡ ok tt
    → IsGenuine lower now m key
unfolding verify_signature
verify_signature_sound lower now m key h =
    let (time, h1, e1) = >>=-eq-ok (or_err (get m (codes "Time")) _) _ h in
    let (timestamp, h2, e2) = >>=-eq-ok (or_err (parse_i64 time) _) _ h1 in
    let (user, h3, e3) = >>=-eq-ok (or_err (get m (codes "User")) _) _ h2 in
    let (sig, h4, e4) = >>=-eq-ok (or_err (get m (codes "Sig")) _) _ h3 in
    let (_, e6, e5) = >>=-eq-ok (guard (not (expired now timestamp)) _) _ h4 in
    record {
      timestamp = timestamp;
      time = time;
      user = user;
      sig = sig;
      time_is = or_err-eq-ok _ _ e1;
      timestamp_is = or_err-eq-ok _ _ e2;
      user_is = or_err-eq-ok _ _ e3;
      sig_is = or_err-eq-ok _ _ e4;
      in_window = of_not _ (guard-eq-ok _ _ e5);
      signed_by_key = (eq_text_iff _ sig).0 (guard-eq-ok _ _ e6);
    }
