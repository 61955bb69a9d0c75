-- ===== src/Server/Replies.antt =====
-- What every reply of src/server.rs has in its head: the thread of the request, the protocol
-- version, and the code and text of the result.
pub mod Head
use ruzor.Prelude.{
  ◌↔◌, ◌≢◌, ℕ, ◌≡◌, refl, ap, ◌++◌, ◌∙◌, Bool, true, false, Option, none, some, List, [], ◌∷◌, inl,
  inr, Bool-cases, if◌then◌else◌,
}
use mathlib.Core.Path.{subst}
use ruzor.Prelude.Int.{ℤ}
use ruzor.Text.{Text, codes, starts_with, eq_text, eq_ignore_ascii_case}
use ruzor.Text.Laws.{eq_text_iff}
use ruzor.Text.Decimal.{nat_to_string}
use ruzor.Error.{
  Result, ok, err, PyzorError, comm, protocol, timeout, incomplete_message, unsupported_version,
  signature, authorization, io,
}
use ruzor.Message.{Message, get, get_all, add_header, replace_header, response, proto_version}
use ruzor.Message.Headers.{get-set_header, get-add_header_ne}
use ruzor.Engines.{Record}
use ruzor.Server.{
  Clock, not_implemented, error_reply, apply_error, finish, really_handle, handle_request,
}
use ruzor.Server.Admission.{Policy, admit}
use ruzor.Server.Operations.{
  World, Setting, Outcome, add_counts, add_info, add_pong, after_cache, on_miss, after_check,
  do_check, after_info, do_info, after_update, do_report, do_whitelist, do_pong, dispatch,
  record_has_match,
}
use ruzor.Server.Replies.Head.{SameHead, really_handle-SameHead}

-- the value of `Code`, and of `Diag`, for a result
abbrev pub code_text : Result (Unit {0}) → Text
code_text (ok _) = codes "200"
code_text (err e) = nat_to_string (error_reply e).0

abbrev pub diag_text : Result (Unit {0}) → Text
diag_text (ok _) = codes "OK"
diag_text (err e) = (error_reply e).1

-- The head of a reply to a request with the thread `t`.
pub record IsReply (t : Option Text) (result : Result (Unit {0})) (m : Message) : Type 0 where
  pub code_is : get m (codes "Code") ≡ some (code_text result)
  pub diag_is : get m (codes "Diag") ≡ some (diag_text result)
  pub pv_is : get m (codes "PV") ≡ some proto_version
  pub thread_is : get m (codes "Thread") ≡ t

response-IsReply : (t : Option Text) → IsReply t (ok tt) (response t)
unfolding response get eq_ignore_ascii_case
response-IsReply none = record { code_is = refl; diag_is = refl; pv_is = refl; thread_is = refl }
response-IsReply (some t) = record {
  code_is = refl;
  diag_is = refl;
  pv_is = refl;
  thread_is = refl;
}

SameHead-IsReply :
    {t : Option Text} {r : Result (Unit {0})} {m m' : Message}
    → SameHead m m'
    → IsReply t r m
    → IsReply t r m'
SameHead-IsReply s h = record {
  code_is = s.same_code ∙ h.code_is;
  diag_is = s.same_diag ∙ h.diag_is;
  pv_is = s.same_pv ∙ h.pv_is;
  thread_is = s.same_thread ∙ h.thread_is;
}

apply_error-IsReply :
    {t : Option Text} {m : Message} (e : PyzorError)
    → IsReply t (ok tt) m
    → IsReply t (err e) (apply_error m e)
unfolding apply_error eq_ignore_ascii_case replace_header
apply_error-IsReply e h = record {
  code_is = simp get-set_header;
  diag_is = simp get-set_header;
  pv_is = simp get-set_header h.pv_is;
  thread_is = simp get-set_header h.thread_is;
}

finish-IsReply :
    {S : Type 0} {t : Option Text} (o : Outcome S)
    → IsReply t (ok tt) o.response
    → IsReply t o.result (finish o).0
finish-IsReply {t = t} o h = ended o.result
  where
    ended : (r : Result (Unit {0})) → IsReply t r (finish (record o { result = r })).0
    ended (ok _) = h
    ended (err e) = apply_error-IsReply e h

apart : {a b : Text} → eq_text a b ≡ false → a ≢ b
apart {a} {b} differ h = cc (differ, (eq_text_iff a b).1 h)

abbrev comm_reply : Bool → Text → ℕ × Text
comm_reply unknown m = if unknown then (501, m) else (500, codes "Internal Server Error: " ++ m)

comm_code-ne : (b : Bool) (m : Text) → nat_to_string (comm_reply b m).0 ≢ codes "200"
unfolding nat_to_string eq_text
comm_code-ne true m h = apart refl h
comm_code-ne false m h = apart refl h

comm_diag-ne :
    (b : Bool) (m : Text) → starts_with not_implemented m ≡ b → (comm_reply b m).1 ≢ codes "OK"
unfolding starts_with eq_text
comm_diag-ne true m found h =
    let same : starts_with not_implemented (codes "OK") ≡ true =
      subst (λ (x : Text). starts_with not_implemented x ≡ true) h found in
    cc same
comm_diag-ne false m other h = apart refl h

-- No error has the code or the text of a success.
code_text-ne : (e : PyzorError) → code_text (err e) ≢ codes "200"
unfolding error_reply nat_to_string eq_text
code_text-ne (comm m) h = comm_code-ne (starts_with not_implemented m) m h
code_text-ne (protocol m) h = apart refl h
code_text-ne (timeout m) h = apart refl h
code_text-ne (incomplete_message m) h = apart refl h
code_text-ne (unsupported_version m) h = apart refl h
code_text-ne (signature m) h = apart refl h
code_text-ne (authorization m) h = apart refl h
code_text-ne (io m) h = apart refl h

diag_text-ne : (e : PyzorError) → diag_text (err e) ≢ codes "OK"
unfolding error_reply eq_text
diag_text-ne (comm m) h = comm_diag-ne (starts_with not_implemented m) m refl h
diag_text-ne (protocol m) h = apart refl h
diag_text-ne (timeout m) h = apart refl h
diag_text-ne (incomplete_message m) h = apart refl h
diag_text-ne (unsupported_version m) h = apart refl h
diag_text-ne (signature m) h = apart refl h
diag_text-ne (authorization m) h = apart refl h
diag_text-ne (io m) h = apart refl h

succeeds_of_code : (r : Result (Unit {0})) → code_text r ≡ codes "200" → r ≡ ok tt
succeeds_of_code (ok _) h = refl
succeeds_of_code (err e) h = absurd (code_text-ne e h)

succeeds_of_diag : (r : Result (Unit {0})) → diag_text r ≡ codes "OK" → r ≡ ok tt
succeeds_of_diag (ok _) h = refl
succeeds_of_diag (err e) h = absurd (diag_text-ne e h)

abbrev pub outcome_of :
    {S : Type 0} → Policy → Setting S → Clock → Message → World S → Result (Unit {0})
outcome_of policy setting clock request w =
    (really_handle policy setting clock request (response (get request (codes "Thread"))) w).result

-- The head of every reply: see the theorem below.
pub finished-IsReply :
    {S : Type 0} (policy : Policy) (setting : Setting S) (clock : Clock) (request : Message)
    (w : World S)
    → IsReply
        (get request (codes "Thread"))
        (outcome_of policy setting clock request w)
        (handle_request policy setting clock request w).0
unfolding handle_request
finished-IsReply policy setting clock request w = finish-IsReply _ (
    SameHead-IsReply (really_handle-SameHead setting policy clock request _ w)
      (response-IsReply (get request (codes "Thread"))))

-- For every database, request and policy: the reply has the request's `Thread` (none if the
-- request has none), the protocol version, and the `Code` and `Diag` that belong to the result of
-- the handler. Its `Code` is 200 exactly where the handler succeeded, and so is its `Diag` OK.
pub handle_request-IsReply :
    {S : Type 0} (policy : Policy) (setting : Setting S) (clock : Clock) (request : Message)
    (w : World S)
    → IsReply
        (get request (codes "Thread"))
        (outcome_of policy setting clock request w)
        (handle_request policy setting clock request w).0
      × ((get (handle_request policy setting clock request w).0 (codes "Code") ≡ some (codes "200"))
          ↔ (outcome_of policy setting clock request w ≡ ok tt))
      × ((get (handle_request policy setting clock request w).0 (codes "Diag") ≡ some (codes "OK"))
          ↔ (outcome_of policy setting clock request w ≡ ok tt))
handle_request-IsReply policy setting clock request w =
    let head = finished-IsReply policy setting clock request w in
    let r = outcome_of policy setting clock request w in
    (
      head,
      (
        λ h. succeeds_of_code r (cc (head.code_is, h)),
        λ h. head.code_is ∙ ap (λ (x : Result (Unit {0})). some (code_text x)) h,
      ),
      (
        λ h. succeeds_of_diag r (cc (head.diag_is, h)),
        λ h. head.diag_is ∙ ap (λ (x : Result (Unit {0})). some (diag_text x)) h,
      ),
    )
