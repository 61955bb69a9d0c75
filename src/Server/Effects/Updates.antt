-- ===== src/Server/Effects/Updates.antt =====
-- What a report and a whitelisting change in src/server.rs, for a database that keeps the promise
-- of `IsLawful`.
use ruzor.Prelude.{ℕ, ◌≡◌, refl, sym, ap, ◌∙◌, Bool, true, false, Option, none, some, List, [], ◌∷◌}
use ruzor.Prelude.Int.{ℤ, pos, ◌≤ℤ◌, i64_max}
use ruzor.Text.{Text, codes, eq_text}
use ruzor.Error.{Result, ok}
use ruzor.Message.{Message, get, get_all, response}
use ruzor.Engines.{Record, r_increment, wl_increment}
use ruzor.Engines.Lawful.{IsLawful, changed_each}
use ruzor.Engines.Counts.{
  Reported, Whitelisted, times_of, changed_each-Reported, changed_each-Whitelisted,
}
use ruzor.Forwarder.{ForwardRequest, Forwarder, queue_all}
use ruzor.Forwarder.Room.{requests_for, with_room, queue_all-with_room}
use ruzor.Server.{Clock}
use ruzor.Server.Admission.{Policy, admit}
use ruzor.Server.Operations.{
  World, Setting, Outcome, do_report, do_whitelist, forward_all, dispatch,
}
use ruzor.Server.Effects.{world_after, admitted_outcome, finish-world}

-- what a forwarder that there may be has in its queue once these requests were offered to it
abbrev pub filled : List ForwardRequest → Option Forwarder → Option Forwarder
filled rs none = none
filled rs (some f) = some (with_room rs f)

forward_all-filled :
    (ds : List Text) (whitelist : Bool) (f : Option Forwarder)
    → forward_all ds whitelist f ≡ filled (requests_for whitelist ds) f
forward_all-filled ds whitelist none = refl
forward_all-filled ds whitelist (some f) = ap some (queue_all-with_room ds whitelist f)

module _ {S : Type 0} (policy : Policy) (setting : Setting S) {view : S → Text → Record}
    (lawful : IsLawful setting.db view) (clock : Clock) (request : Message) (w : World S) where
  report_pair :
      (now : ℕ → ℤ) (ks : List Text) (s : S)
      → setting.db.report now ks s ≡ (ok tt, (setting.db.report now ks s).1)
  report_pair now ks s =
      ap (λ (x : Result (Unit {0})). (x, (setting.db.report now ks s).1))
        (lawful.report_ok now ks s)

  whitelist_pair :
      (now : ℕ → ℤ) (ks : List Text) (s : S)
      → setting.db.whitelist now ks s ≡ (ok tt, (setting.db.whitelist now ks s).1)
  whitelist_pair now ks s =
      ap (λ (x : Result (Unit {0})). (x, (setting.db.whitelist now ks s).1))
        (lawful.whitelist_ok now ks s)

  forward_none : (b : Bool) (f : Option Forwarder) → forward_all [] b f ≡ f
  forward_none b none = refl
  forward_none b (some f) = unfold queue_all in refl

  -- what `report` and `whitelist` leave behind
  abbrev Updated : (ℤ → Record → Record) → Bool → List Text → Message → Outcome S → Type 0
  Updated change whitelist ds m o =
      (o.result ≡ ok tt)
      × (o.response ≡ m)
      × (o.world.forwarder ≡ forward_all ds whitelist w.forwarder)
      × ((j : Text)
          → view o.world.database j
            ≡ changed_each change j 0 clock.updated_at ds (view w.database j))

  report_effect :
      (ds : List Text) (m : Message)
      → Updated r_increment false ds m (do_report setting clock.updated_at ds m w)
  unfolding do_report
  report_effect [] m = (refl, refl, sym (forward_none false w.forwarder), λ j. refl)
  report_effect (d ∷ ds) m =
      rw (report_pair clock.updated_at (d ∷ ds) w.database)
        (refl, refl, refl, λ j. lawful.report_view clock.updated_at (d ∷ ds) j w.database)

  whitelist_effect :
      (ds : List Text) (m : Message)
      → Updated wl_increment true ds m (do_whitelist setting clock.updated_at ds m w)
  unfolding do_whitelist
  whitelist_effect [] m = (refl, refl, sym (forward_none true w.forwarder), λ j. refl)
  whitelist_effect (d ∷ ds) m =
      rw (whitelist_pair clock.updated_at (d ∷ ds) w.database)
        (refl, refl, refl, λ j. lawful.whitelist_view clock.updated_at (d ∷ ds) j w.database)

  -- For a lawful database and a digest `j` whose report count is an i64 at most: an admitted report
  -- adds to that count the number of times it lists `j`, stopping at i64::MAX; the time of the entry
  -- stays if there is one and is the first of the clock's readings for `j` otherwise, the time of the
  -- update is the last of them, and nothing else of the record changes, so that a digest that is not
  -- listed keeps its record. Of the digests as reports, in their order, the queue takes as many of
  -- the first as it has room for, behind what it has, and drops the others.
  pub report_updates :
      (ds : List Text) (j : Text)
      → admit policy clock.verified_at request ≡ ok (codes "report")
      → get_all request (codes "Op-Digest") ≡ ds
      → (view w.database j).r_count ≤ℤ pos i64_max
      → ((world_after policy setting clock request w).forwarder
          ≡ filled (requests_for false ds) w.forwarder)
        × Reported
            (times_of j 0 clock.updated_at ds)
            (view w.database j)
            (view (world_after policy setting clock request w).database j)
  unfolding dispatch eq_text
  report_updates ds j h e small =
      let m = response (get request (codes "Thread")) in
      let (_, _, queued, stored) = report_effect ds m in
      let ran : world_after policy setting clock request w
          ≡ (do_report setting clock.updated_at ds m w).world =
        ap (λ (x : Message × World S). x.1) (admitted_outcome policy setting clock request w h e)
        ∙ finish-world (do_report setting clock.updated_at ds m w) in
      rw ran (
        queued ∙ forward_all-filled ds false w.forwarder,
        rw (stored j) (changed_each-Reported j clock.updated_at ds (view w.database j) small),
      )

  -- For a lawful database and a digest `j` whose whitelist count is an i64 at most: an admitted whitelisting
  -- adds to that count the number of times it lists `j`, stopping at i64::MAX; the time of the entry
  -- stays if there is one and is the first of the clock's readings for `j` otherwise, the time of the
  -- update is the last of them, and nothing else of the record changes, so that a digest that is not
  -- listed keeps its record. Of the digests as whitelistings, in their order, the queue takes as many of
  -- the first as it has room for, behind what it has, and drops the others.
  pub whitelist_updates :
      (ds : List Text) (j : Text)
      → admit policy clock.verified_at request ≡ ok (codes "whitelist")
      → get_all request (codes "Op-Digest") ≡ ds
      → (view w.database j).wl_count ≤ℤ pos i64_max
      → ((world_after policy setting clock request w).forwarder
          ≡ filled (requests_for true ds) w.forwarder)
        × Whitelisted
            (times_of j 0 clock.updated_at ds)
            (view w.database j)
            (view (world_after policy setting clock request w).database j)
  unfolding dispatch eq_text
  whitelist_updates ds j h e small =
      let m = response (get request (codes "Thread")) in
      let (_, _, queued, stored) = whitelist_effect ds m in
      let ran : world_after policy setting clock request w
          ≡ (do_whitelist setting clock.updated_at ds m w).world =
        ap (λ (x : Message × World S). x.1) (admitted_outcome policy setting clock request w h e)
        ∙ finish-world (do_whitelist setting clock.updated_at ds m w) in
      rw ran (
        queued ∙ forward_all-filled ds true w.forwarder,
        rw (stored j) (changed_each-Whitelisted j clock.updated_at ds (view w.database j) small),
      )
