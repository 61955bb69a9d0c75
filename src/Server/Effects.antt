-- ===== src/Server/Effects.antt =====
-- What a request changes in src/server.rs: nothing unless it is admitted, and then what its
-- operation says.
pub mod Check
pub mod Updates
use ruzor.Prelude.{
  ℕ, zero, ◌+◌, ◌≡◌, refl, sym, ap, ◌∙◌, Bool, true, false, ◌||◌, Option, none, some, List, [], ◌∷◌,
  inl, inr, ◌⊎◌, Bool-cases, arith, if◌then◌else◌,
}
use mathlib.Core.Path.{subst}
use ruzor.Prelude.Int.{ℤ, pos, negsuc, ◌≤ℤ◌, ltb_ℤ, leb_ℤ, i64_max}
use ruzor.Prelude.Assoc.{lookup}
use ruzor.Text.{Text, codes, eq_text, eq_ignore_ascii_case}
use ruzor.Text.Decimal.{nat_to_string, int_to_string}
use ruzor.Error.{Result, ok, err, PyzorError, ◌>>=◌, ◌>>◌, guard, >>=-eq-ok, signature}
use ruzor.Message.{Message, get, get_all, add_header, response, or_err}
use ruzor.Message.Headers.{get-add_header_ne, get-add_header}
use ruzor.Account.{anonymous_user, verify_signature}
use ruzor.Engines.{Record, DigestDatabase, r_increment, wl_increment}
use ruzor.Engines.Lawful.{IsLawful, changed_each}
use ruzor.Forwarder.{Forwarder, queue_all}
use ruzor.Server.{Clock, error_reply, apply_error, finish, really_handle, handle_request}
use ruzor.Server.Replies.{IsReply, finished-IsReply, code_text, diag_text}
use ruzor.Server.Admission.{
  Policy, admit, check_user, user_of, opcode_of, protocol_major, is_allowed, is_proto_major,
}
use ruzor.Server.Operations.{
  Address, World, Setting, Outcome, add_counts, do_check, after_check, on_miss, do_report,
  do_whitelist, after_update, after_cache, forward_all, dispatch, proxy_check_miss,
  record_has_match, with_state,
}

-- What an admitted request must be.
pub record MayRun (policy : Policy) (now : ℤ) (request : Message) (opcode : Text) : Type 0 where
  pub pv : Text
  pub major : ℤ
  pub opcode_is : opcode ≡ opcode_of request
  pub user_ok : check_user policy now request ≡ ok tt
  pub pv_is : get request (codes "PV") ≡ some pv
  pub major_is : protocol_major policy pv ≡ ok major
  pub major_ok : is_proto_major major ≡ true
  pub allowed : is_allowed policy.acl (user_of request) (opcode_of request) ≡ true

or_err-eq-ok {ℓ} :
    {A : Type ℓ} (o : Option A) (e : PyzorError) {a : A} → or_err o e ≡ ok a → o ≡ some a
or_err-eq-ok none e h = cc
or_err-eq-ok (some a) e h = cc

guard-eq-ok : (b : Bool) (e : PyzorError) {u : Unit {0}} → guard b e ≡ ok u → b ≡ true
guard-eq-ok true e h = refl
guard-eq-ok false e h = cc

ok_unit : (r : Result (Unit {0})) {u : Unit {0}} → r ≡ ok u → r ≡ ok tt
ok_unit r h = h

ok-injective {ℓ} : {A : Type ℓ} {a b : A} → ok a ≡ ok b → a ≡ b
ok-injective h = cc

-- A request is admitted only with the opcode that it names, for a user whose signature passed or
-- the anonymous user, under protocol version 2, and with that opcode in the user's access list.
pub admit_sound :
    (policy : Policy) (now : ℤ) (request : Message) (opcode : Text)
    → admit policy now request ≡ ok opcode
    → MayRun policy now request opcode
unfolding admit
admit_sound policy now request opcode h =
    let (_, h1, e1) = >>=-eq-ok (check_user policy now request) _ h in
    let (pv, h2, e2) = >>=-eq-ok (or_err (get request (codes "PV")) _) _ h1 in
    let (major, h3, e3) = >>=-eq-ok (protocol_major policy pv) _ h2 in
    let (_, h4, e4) = >>=-eq-ok (guard (is_proto_major major) _) _ h3 in
    let (_, h5, e5) =
      >>=-eq-ok (guard (is_allowed policy.acl (user_of request) (opcode_of request)) _) _ h4 in
    record {
      pv = pv;
      major = major;
      opcode_is = sym (ok-injective h5);
      user_ok = ok_unit _ e1;
      pv_is = or_err-eq-ok _ _ e2;
      major_is = e3;
      major_ok = guard-eq-ok _ _ e4;
      allowed = guard-eq-ok _ _ e5;
    }

module _ {S : Type 0} (policy : Policy) (setting : Setting S) (clock : Clock) (request : Message)
    (w : World S) where
  abbrev pub reply_to : Message
  reply_to = (handle_request policy setting clock request w).0

  abbrev pub world_after : World S
  world_after = (handle_request policy setting clock request w).1

  abbrev outcome : Outcome S
  outcome = really_handle policy setting clock request (response (get request (codes "Thread"))) w

  finished : handle_request policy setting clock request w ≡ finish outcome
  unfolding handle_request
  finished = refl

  refused_outcome :
      {e : PyzorError}
      → admit policy clock.verified_at request ≡ err e
      → outcome
        ≡ record { result = err e; response = response (get request (codes "Thread")); world = w }
  refused_outcome h = unfold really_handle in rw (h, really_handle)

  -- A request that is not admitted changes neither the database nor the queue, and is answered
  -- with the code and text of its error.
  pub refused :
      (e : PyzorError)
      → admit policy clock.verified_at request ≡ err e
      → (world_after ≡ w)
        × (get reply_to (codes "Code") ≡ some (nat_to_string (error_reply e).0))
        × (get reply_to (codes "Diag") ≡ some (error_reply e).1)
  refused e h =
      let head = finished-IsReply policy setting clock request w in
      let result_is : outcome.result ≡ err e =
        ap (λ (o : Outcome S). o.result) (refused_outcome h) in
      (
        ap (λ (x : Message × World S). x.1) (finished ∙ ap finish (refused_outcome h)),
        head.code_is ∙ ap (λ (r : Result (Unit {0})). some (code_text r)) result_is,
        head.diag_is ∙ ap (λ (r : Result (Unit {0})). some (diag_text r)) result_is,
      )

  abbrev dispatched : Text → List Text → Outcome S
  dispatched opcode digests =
      dispatch setting clock.updated_at clock.proxied_at opcode digests
        (response (get request (codes "Thread"))) w

  admitted_really :
      {opcode : Text} {digests : List Text}
      → admit policy clock.verified_at request ≡ ok opcode
      → get_all request (codes "Op-Digest") ≡ digests
      → outcome ≡ dispatched opcode digests
  admitted_really h e = unfold really_handle in rw (h, really_handle) (rw e)

  pub admitted_outcome :
      {opcode : Text} {digests : List Text}
      → admit policy clock.verified_at request ≡ ok opcode
      → get_all request (codes "Op-Digest") ≡ digests
      → handle_request policy setting clock request w ≡ finish (dispatched opcode digests)
  admitted_outcome h e = finished ∙ ap finish (admitted_really h e)

pub finish-world : {S : Type 0} (o : Outcome S) → (finish o).1 ≡ o.world
finish-world o = ended o.result
  where
    ended : (r : Result (Unit {0})) → (finish (record o { result = r })).1 ≡ o.world
    ended (ok _) = refl
    ended (err e) = refl
