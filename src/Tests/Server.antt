-- ===== src/Tests/Server.antt =====
-- Requests to a server with a database in memory.
use ruzor.Prelude.{
  ◌↔◌, ◌≡◌, refl, true, false, Option, none, some, List, [], ◌∷◌, arith, if◌then◌else◌,
}
use ruzor.Prelude.Int.{ℤ, pos, ◌≤ℤ◌, i64_max}
use ruzor.Prelude.Assoc.{lookup, insert, lookup-insert}
use ruzor.Text.{Text, codes, eq_text, eq_ignore_ascii_case}
use ruzor.Text.Laws.{text_eq}
use ruzor.Text.Decimal.{nat_to_string, int_to_string, parse_nat, parse_i64}
use ruzor.Error.{Result, ok, err, authorization, timeout}
use ruzor.Message.{Message, get, get_all, is_ok, or_default}
use ruzor.Account.{ascii_lower}
use ruzor.Engines.{Record, DigestDatabase, default_record, with_default_methods}
use ruzor.Engines.Counts.{Reported, Whitelisted}
use ruzor.Engines.Lawful.{IsLawful, with_default_methods-IsLawful}
use ruzor.Server.{Clock, error_reply, handle_request}
use ruzor.Server.Replies.{IsReply, outcome_of, handle_request-IsReply}
use ruzor.Server.Admission.{Policy, admit, check_user, user_of, is_allowed}
use ruzor.Server.Operations.{
  Address, World, Setting, record_has_match, proxy_check_miss, record_from_proxy_response,
  proxy_time_or_now,
}
use ruzor.Server.Effects.{MayRun, admit_sound, refused}
use ruzor.Server.Effects.Check.{check_known, check_proxied}
use ruzor.Server.Effects.Updates.{report_updates, whitelist_updates}

abbrev Store : Type 0
Store = List (Text × Record)

abbrev view : Store → Text → Record
view s k = or_default default_record (lookup k s)

abbrev store_get : Text → Store → Result Record × Store
store_get k s = (ok (view s k), s)

abbrev store_set : Text → Record → Store → Result (Unit {0}) × Store
store_set k r s = (ok tt, insert k r s)

store_set_view :
    (k j : Text) (r : Record) (s : Store)
    → view (insert k r s) j ≡ (if eq_text k j then r else view s j)
store_set_view k j r s = ground (arith, lookup-insert k j r s)

abbrev store_db : DigestDatabase Store
store_db = with_default_methods store_get store_set

store_db-IsLawful : IsLawful store_db view
store_db-IsLawful =
    with_default_methods-IsLawful store_get store_set view (λ k s. refl) (λ k r s. refl)
      store_set_view

abbrev counted : Record
counted = record default_record { r_count = pos 3; wl_count = pos 1 }

abbrev found : Record
found = record {
  r_count = pos 7;
  wl_count = pos 0;
  r_entered = some (pos 500);
  r_updated = some (pos 500);
  wl_entered = none;
  wl_updated = none;
}

abbrev pub start : World Store
start = record {
  database = (codes "aa", counted) ∷ [];
  forwarder = some (record { capacity = 2; queue = [] });
}

abbrev source_answer : Message
source_answer = record {
  headers =
      (codes "Code", codes "200") ∷ (codes "Diag", codes "OK") ∷ (codes "Count", codes "7") ∷ [];
}

abbrev ask : Text → Address → Result Message
ask digest (host, port) =
    if eq_text host (codes "second") then ok source_answer else err (timeout (codes "no answer"))

abbrev pub setting : Setting Store
setting = record {
  db = store_db;
  proxy_sources = (codes "first", 24441) ∷ (codes "second", 24441) ∷ [];
  ask = ask;
}

abbrev two_point_one : Text → Option ℤ
two_point_one v = if eq_text v (codes "2.1") then some (pos 2) else none

abbrev pub policy : Policy
policy = record {
  accounts = [];
  acl = (codes "anonymous", codes "check" ∷ codes "report" ∷ codes "whitelist" ∷ []) ∷ [];
  lower = ascii_lower;
  float_as_i64 = two_point_one;
}

abbrev pub clock : Clock
clock = record { verified_at = pos 500; updated_at = λ i. pos 500; proxied_at = pos 500 }

abbrev with_digests : List Text → List (Text × Text)
with_digests [] = []
with_digests (d ∷ ds) = (codes "Op-Digest", d) ∷ with_digests ds

abbrev asking : Text → List Text → Message
asking op digests = record {
  headers =
      (codes "Op", op)
      ∷ (codes "Thread", codes "2000")
      ∷ (codes "PV", codes "2.1")
      ∷ with_digests digests;
}

check_admitted :
    admit policy (pos 500) (asking (codes "check") (codes "aa" ∷ [])) ≡ ok (codes "check")
unfolding admit check_user user_of get eq_text eq_ignore_ascii_case is_allowed
check_admitted = refl

ping_refused :
    admit policy (pos 500) (asking (codes "ping") [])
    ≡ err (authorization (codes "User is not authorized to request the operation."))
unfolding admit check_user user_of get eq_text eq_ignore_ascii_case is_allowed
ping_refused = refl

update_admitted :
    (admit policy (pos 500) (asking (codes "report") (codes "aa" ∷ codes "bb" ∷ codes "aa" ∷ []))
      ≡ ok (codes "report"))
    × (admit policy (pos 500) (asking (codes "whitelist") (codes "bb" ∷ []))
        ≡ ok (codes "whitelist"))
unfolding admit check_user user_of get eq_text eq_ignore_ascii_case is_allowed
update_admitted = (refl, refl)

miss_admitted :
    admit policy (pos 500) (asking (codes "check") (codes "cc" ∷ [])) ≡ ok (codes "check")
unfolding admit check_user user_of get eq_text eq_ignore_ascii_case is_allowed
miss_admitted = refl

digests_asked :
    (get_all
        (asking (codes "report") (codes "aa" ∷ codes "bb" ∷ codes "aa" ∷ []))
        (codes "Op-Digest")
      ≡ codes "aa" ∷ codes "bb" ∷ codes "aa" ∷ [])
    × (get_all (asking (codes "whitelist") (codes "bb" ∷ [])) (codes "Op-Digest") ≡ codes "bb" ∷ [])
    × (get_all (asking (codes "check") (codes "aa" ∷ [])) (codes "Op-Digest") ≡ codes "aa" ∷ [])
    × (get_all (asking (codes "check") (codes "cc" ∷ [])) (codes "Op-Digest") ≡ codes "cc" ∷ [])
unfolding get_all eq_ignore_ascii_case
digests_asked = (refl, refl, refl, refl)

known : record_has_match (view start.database (codes "aa")) ≡ true
unfolding record_has_match lookup eq_text
known = refl

unknown : record_has_match (view start.database (codes "cc")) ≡ false
unfolding record_has_match lookup eq_text
unknown = refl

asked : proxy_check_miss ask (pos 500) (codes "cc") setting.proxy_sources ≡ some found
unfolding proxy_check_miss record_from_proxy_response is_ok get eq_text eq_ignore_ascii_case
    proxy_time_or_now parse_nat parse_i64
asked = refl

admit_sound_example :
    MayRun policy (pos 500) (asking (codes "check") (codes "aa" ∷ [])) (codes "check")
admit_sound_example =
    admit_sound policy (pos 500) (asking (codes "check") (codes "aa" ∷ [])) (codes "check")
      check_admitted

refused_example :
    ((handle_request policy setting clock (asking (codes "ping") []) start).1 ≡ start)
    × (get (handle_request policy setting clock (asking (codes "ping") []) start).0 (codes "Code")
        ≡ some (nat_to_string 403))
    × (get (handle_request policy setting clock (asking (codes "ping") []) start).0 (codes "Diag")
        ≡ some (codes "Forbidden: User is not authorized to request the operation."))
unfolding error_reply
refused_example = refused policy setting clock (asking (codes "ping") []) start _ ping_refused

small_counts :
    ((view start.database (codes "aa")).r_count ≤ℤ pos i64_max)
    × ((view start.database (codes "bb")).wl_count ≤ℤ pos i64_max)
unfolding lookup eq_text
small_counts = (omega arith, omega arith)

abbrev reporting : Message
reporting = asking (codes "report") (codes "aa" ∷ codes "bb" ∷ codes "aa" ∷ [])

-- the queue has room for two of the three
report_updates_example :
    ((handle_request policy setting clock reporting start).1.forwarder
      ≡ some (record {
        capacity = 2;
        queue =
            (record { digest = codes "aa"; whitelist = false })
            ∷ (record { digest = codes "bb"; whitelist = false })
            ∷ [];
      }))
    × Reported
        (pos 500 ∷ pos 500 ∷ [])
        (view start.database (codes "aa"))
        (view (handle_request policy setting clock reporting start).1.database (codes "aa"))
unfolding eq_text
report_updates_example =
    report_updates policy setting store_db-IsLawful clock reporting start
      (codes "aa" ∷ codes "bb" ∷ codes "aa" ∷ []) (codes "aa") update_admitted.0 digests_asked.0
      small_counts.0

whitelist_updates_example :
    ((handle_request policy setting clock
        (asking (codes "whitelist") (codes "bb" ∷ []))
        start).1.forwarder
      ≡ some (record {
        capacity = 2;
        queue = (record { digest = codes "bb"; whitelist = true }) ∷ [];
      }))
    × Whitelisted (pos 500 ∷ []) (view start.database (codes "bb")) (
        view
          (handle_request policy setting clock
            (asking (codes "whitelist") (codes "bb" ∷ []))
            start).1.database
          (codes "bb"))
unfolding eq_text
whitelist_updates_example =
    whitelist_updates policy setting store_db-IsLawful clock
      (asking (codes "whitelist") (codes "bb" ∷ [])) start (codes "bb" ∷ []) (codes "bb")
      update_admitted.1 digests_asked.1 small_counts.1

check_known_example :
    ((handle_request policy setting clock (asking (codes "check") (codes "aa" ∷ [])) start).1
      ≡ start)
    × (get
          (handle_request policy setting clock (asking (codes "check") (codes "aa" ∷ [])) start).0
          (codes "Count")
        ≡ some (codes "3"))
    × (get
          (handle_request policy setting clock (asking (codes "check") (codes "aa" ∷ [])) start).0
          (codes "WL-Count")
        ≡ some (codes "1"))
unfolding lookup eq_text int_to_string
check_known_example =
    check_known policy setting store_db-IsLawful clock (asking (codes "check") (codes "aa" ∷ []))
      start (codes "aa") [] check_admitted digests_asked.2 known

check_proxied_example :
    (get
        (handle_request policy setting clock (asking (codes "check") (codes "cc" ∷ [])) start).0
        (codes "Count")
      ≡ some (int_to_string (pos 7)))
    × (get
          (handle_request policy setting clock (asking (codes "check") (codes "cc" ∷ [])) start).0
          (codes "WL-Count")
        ≡ some (int_to_string (pos 0)))
    × ((j : Text)
        → view
            (handle_request policy setting clock
              (asking (codes "check") (codes "cc" ∷ []))
              start).1.database
            j
          ≡ (if eq_text (codes "cc") j then found else view start.database j))
    × ((handle_request policy setting clock
          (asking (codes "check") (codes "cc" ∷ []))
          start).1.forwarder
        ≡ start.forwarder)
check_proxied_example =
    check_proxied policy setting store_db-IsLawful clock (asking (codes "check") (codes "cc" ∷ []))
      start (codes "cc") [] found miss_admitted digests_asked.3 unknown asked

handle_request-IsReply_example :
    IsReply
      (get (asking (codes "ping") []) (codes "Thread"))
      (outcome_of policy setting clock (asking (codes "ping") []) start)
      (handle_request policy setting clock (asking (codes "ping") []) start).0
    × ((get (handle_request policy setting clock (asking (codes "ping") []) start).0 (codes "Code")
          ≡ some (codes "200"))
        ↔ (outcome_of policy setting clock (asking (codes "ping") []) start ≡ ok tt))
    × ((get (handle_request policy setting clock (asking (codes "ping") []) start).0 (codes "Diag")
          ≡ some (codes "OK"))
        ↔ (outcome_of policy setting clock (asking (codes "ping") []) start ≡ ok tt))
handle_request-IsReply_example =
    handle_request-IsReply policy setting clock (asking (codes "ping") []) start

with_default_methods-IsLawful_example : IsLawful (with_default_methods store_get store_set) view
with_default_methods-IsLawful_example =
    with_default_methods-IsLawful store_get store_set view (λ k s. refl) (λ k r s. refl)
      store_set_view
