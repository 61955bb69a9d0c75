-- ===== src/Server/Effects/Check.antt =====
-- What a check answers and changes in src/server.rs, for a database that keeps the promise of
-- `IsLawful`.
use ruzor.Prelude.{
  ◌≡◌, refl, sym, ap, ◌∙◌, true, false, Option, none, some, List, ◌∷◌, if◌then◌else◌,
}
use mathlib.Core.Path.{subst}
use ruzor.Text.{Text, codes, eq_text, eq_ignore_ascii_case}
use ruzor.Text.Decimal.{int_to_string}
use ruzor.Error.{Result, ok}
use ruzor.Message.{Message, get, get_all, response}
use ruzor.Engines.{Record}
use ruzor.Engines.Lawful.{IsLawful}
use ruzor.Server.{Clock, finish, handle_request}
use ruzor.Server.Admission.{Policy, admit}
use ruzor.Server.Operations.{
  World, Setting, add_counts, do_check, after_check, dispatch, proxy_check_miss, record_has_match,
  with_state,
}
use ruzor.Server.Effects.{reply_to, world_after, admitted_outcome}

counts_of :
    (t : Option Text) (r : Record)
    → (get (add_counts (response t) r) (codes "Count") ≡ some (int_to_string r.r_count))
      × (get (add_counts (response t) r) (codes "WL-Count") ≡ some (int_to_string r.wl_count))
unfolding add_counts response get eq_ignore_ascii_case
counts_of none r = (refl, refl)
counts_of (some t) r = (refl, refl)

module _ {S : Type 0} (policy : Policy) (setting : Setting S) {view : S → Text → Record}
    (lawful : IsLawful setting.db view) (clock : Clock) (request : Message) (w : World S) where
  check_runs :
      {d : Text} {ds : List Text}
      → admit policy clock.verified_at request ≡ ok (codes "check")
      → get_all request (codes "Op-Digest") ≡ d ∷ ds
      → handle_request policy setting clock request w
        ≡ finish (
            after_check setting clock.proxied_at d
              (response (get request (codes "Thread")))
              w
              (ok (view w.database d), w.database))
  unfolding dispatch eq_text do_check
  check_runs {d} h e =
      rw (admitted_outcome policy setting clock request w h e) (rw (lawful.get_law d w.database))

  -- For a lawful database: an admitted check of a digest that has counts changes nothing, and answers
  -- with its two counts.
  pub check_known :
      (d : Text) (ds : List Text)
      → admit policy clock.verified_at request ≡ ok (codes "check")
      → get_all request (codes "Op-Digest") ≡ d ∷ ds
      → record_has_match (view w.database d) ≡ true
      → (world_after policy setting clock request w ≡ w)
        × (get (reply_to policy setting clock request w) (codes "Count")
            ≡ some (int_to_string (view w.database d).r_count))
        × (get (reply_to policy setting clock request w) (codes "WL-Count")
            ≡ some (int_to_string (view w.database d).wl_count))
  check_known d ds h e hit =
      let reply = add_counts (response (get request (codes "Thread"))) (view w.database d) in
      let (c, wl) = counts_of (get request (codes "Thread")) (view w.database d) in
      let ran : handle_request policy setting clock request w ≡ (reply, w) =
        check_runs h e ∙ rw hit in
      subst
        (λ (x : Message × World S).
          (x.1 ≡ w)
          × (get x.0 (codes "Count") ≡ some (int_to_string (view w.database d).r_count))
          × (get x.0 (codes "WL-Count") ≡ some (int_to_string (view w.database d).wl_count)))
        (sym ran) (refl, c, wl)

  set_pair :
      (k : Text) (r : Record) (s : S) → setting.db.set k r s ≡ (ok tt, (setting.db.set k r s).1)
  set_pair k r s =
      ap (λ (x : Result (Unit {0})). (x, (setting.db.set k r s).1)) (lawful.set_ok k r s)

  -- For a lawful database: where an admitted check is of a digest without counts and the proxy
  -- sources have a record for it, that record is stored for that digest, no other digest changes,
  -- nothing is queued, and its counts are the answer.
  pub check_proxied :
      (d : Text) (ds : List Text) (found : Record)
      → admit policy clock.verified_at request ≡ ok (codes "check")
      → get_all request (codes "Op-Digest") ≡ d ∷ ds
      → record_has_match (view w.database d) ≡ false
      → proxy_check_miss setting.ask clock.proxied_at d setting.proxy_sources ≡ some found
      → (get (reply_to policy setting clock request w) (codes "Count")
          ≡ some (int_to_string found.r_count))
        × (get (reply_to policy setting clock request w) (codes "WL-Count")
            ≡ some (int_to_string found.wl_count))
        × ((j : Text)
            → view (world_after policy setting clock request w).database j
              ≡ (if eq_text d j then found else view w.database j))
        × ((world_after policy setting clock request w).forwarder ≡ w.forwarder)
  check_proxied d ds found h e miss asked =
      let m = response (get request (codes "Thread")) in
      let (c, wl) = counts_of (get request (codes "Thread")) found in
      let after = with_state w (setting.db.set d found w.database).1 in
      let ran : handle_request policy setting clock request w ≡ (add_counts m found, after) =
        check_runs h e ∙ rw miss (rw asked (rw (set_pair d found w.database))) in
      subst
        (λ (x : Message × World S).
          (get x.0 (codes "Count") ≡ some (int_to_string found.r_count))
          × (get x.0 (codes "WL-Count") ≡ some (int_to_string found.wl_count))
          × ((j : Text) → view x.1.database j ≡ (if eq_text d j then found else view w.database j))
          × (x.1.forwarder ≡ w.forwarder))
        (sym ran) (c, wl, λ j. lawful.set_view d j found w.database, refl)
