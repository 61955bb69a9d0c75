-- ===== src/Server/Replies/Head.antt =====
-- No operation of src/server.rs changes the head of the response that it is given.
use ruzor.Prelude.{
  ℕ, ◌≡◌, refl, ◌∙◌, Bool, true, false, Option, none, some, List, [], ◌∷◌, inl, inr, Bool-cases,
  if◌then◌else◌,
}
use ruzor.Prelude.Int.{ℤ}
use ruzor.Text.{Text, codes, eq_text, eq_ignore_ascii_case}
use ruzor.Error.{Result, ok, err}
use ruzor.Message.{Message, get, get_all, add_header}
use ruzor.Message.Headers.{get-add_header_ne}
use ruzor.Engines.{Record}
use ruzor.Server.{Clock, really_handle}
use ruzor.Server.Admission.{Policy, admit}
use ruzor.Server.Operations.{
  World, Setting, Outcome, add_counts, add_info, add_pong, after_cache, on_miss, after_check,
  do_check, after_info, do_info, after_update, do_report, do_whitelist, do_pong, dispatch,
  record_has_match,
}

-- Two messages agree on the head.
pub record SameHead (m m' : Message) : Type 0 where
  pub same_code : get m' (codes "Code") ≡ get m (codes "Code")
  pub same_diag : get m' (codes "Diag") ≡ get m (codes "Diag")
  pub same_pv : get m' (codes "PV") ≡ get m (codes "PV")
  pub same_thread : get m' (codes "Thread") ≡ get m (codes "Thread")

SameHead-refl : (m : Message) → SameHead m m
SameHead-refl m = record { same_code = refl; same_diag = refl; same_pv = refl; same_thread = refl }

SameHead-trans : {a b c : Message} → SameHead a b → SameHead b c → SameHead a c
SameHead-trans x y = record {
  same_code = y.same_code ∙ x.same_code;
  same_diag = y.same_diag ∙ x.same_diag;
  same_pv = y.same_pv ∙ x.same_pv;
  same_thread = y.same_thread ∙ x.same_thread;
}

-- a name that is none of the head's
abbrev IsApart : Text → Type 0
IsApart n =
    (eq_ignore_ascii_case n (codes "Code") ≡ false)
    × (eq_ignore_ascii_case n (codes "Diag") ≡ false)
    × (eq_ignore_ascii_case n (codes "PV") ≡ false)
    × (eq_ignore_ascii_case n (codes "Thread") ≡ false)

SameHead-add_header : (m : Message) (n v : Text) → IsApart n → SameHead m (add_header m n v)
SameHead-add_header m n v (c, d, p, t) = record {
  same_code = get-add_header_ne m n (codes "Code") v c;
  same_diag = get-add_header_ne m n (codes "Diag") v d;
  same_pv = get-add_header_ne m n (codes "PV") v p;
  same_thread = get-add_header_ne m n (codes "Thread") v t;
}

SameHead-add_counts : (m : Message) (r : Record) → SameHead m (add_counts m r)
unfolding add_counts eq_ignore_ascii_case
SameHead-add_counts m r =
    SameHead-trans (SameHead-add_header m (codes "Count") _ (refl, refl, refl, refl))
      (SameHead-add_header _ (codes "WL-Count") _ (refl, refl, refl, refl))

SameHead-add_pong : (m : Message) → SameHead m (add_pong m)
unfolding add_pong eq_ignore_ascii_case
SameHead-add_pong m =
    SameHead-trans (SameHead-add_header m (codes "Count") _ (refl, refl, refl, refl))
      (SameHead-add_header _ (codes "WL-Count") _ (refl, refl, refl, refl))

SameHead-add_info : (m : Message) (r : Record) → SameHead m (add_info m r)
unfolding add_info eq_ignore_ascii_case
SameHead-add_info m r =
    SameHead-trans (SameHead-add_header m (codes "Entered") _ (refl, refl, refl, refl)) (
      SameHead-trans (SameHead-add_header _ (codes "Updated") _ (refl, refl, refl, refl)) (
        SameHead-trans (SameHead-add_header _ (codes "WL-Entered") _ (refl, refl, refl, refl)) (
          SameHead-trans (SameHead-add_header _ (codes "WL-Updated") _ (refl, refl, refl, refl))
            (SameHead-add_counts _ r))))

module _ {S : Type 0} (setting : Setting S) where
  on_miss-SameHead :
      (d : Text) (r : Record) (m : Message) (w : World S) (o : Option Record)
      → SameHead m (on_miss setting d r m w o).response
  on_miss-SameHead d r m w none = SameHead-add_counts m r
  on_miss-SameHead d r m w (some found) = cached (setting.db.set d found w.database)
    where
      cached : (x : Result (Unit {0}) × S) → SameHead m (after_cache setting found m w x).response
      cached (ok _, s) = SameHead-add_counts m found
      cached (err e, s) = SameHead-refl m

  after_check-SameHead :
      (now : ℤ) (d : Text) (m : Message) (w : World S) (x : Result Record × S)
      → SameHead m (after_check setting now d m w x).response
  after_check-SameHead now d m w (err e, s) = SameHead-refl m
  after_check-SameHead now d m w (ok r, s) = elim (Bool-cases (record_has_match r)) [
    | inl hit ↦ rw hit (SameHead-add_counts m r)
    | inr miss ↦ rw miss (on_miss-SameHead d r m _ _)
  ]

  after_info-SameHead :
      (m : Message) (w : World S) (x : Result Record × S)
      → SameHead m (after_info setting m w x).response
  after_info-SameHead m w (err e, s) = SameHead-refl m
  after_info-SameHead m w (ok r, s) = SameHead-add_info m r

  after_update-SameHead :
      (ds : List Text) (b : Bool) (m : Message) (w : World S) (x : Result (Unit {0}) × S)
      → SameHead m (after_update ds b m w x).response
  after_update-SameHead ds b m w (ok _, s) = SameHead-refl m
  after_update-SameHead ds b m w (err e, s) = SameHead-refl m

  do_pong-SameHead :
      (ds : List Text) (m : Message) (w : World S) → SameHead m (do_pong setting ds m w).response
  unfolding do_pong
  do_pong-SameHead [] m w = SameHead-refl m
  do_pong-SameHead (d ∷ ds) m w = SameHead-add_pong m

  do_check-SameHead :
      (now : ℤ) (ds : List Text) (m : Message) (w : World S)
      → SameHead m (do_check setting now ds m w).response
  unfolding do_check
  do_check-SameHead now [] m w = SameHead-refl m
  do_check-SameHead now (d ∷ ds) m w = after_check-SameHead now d m w _

  do_info-SameHead :
      (ds : List Text) (m : Message) (w : World S) → SameHead m (do_info setting ds m w).response
  unfolding do_info
  do_info-SameHead [] m w = SameHead-refl m
  do_info-SameHead (d ∷ ds) m w = after_info-SameHead m w _

  do_report-SameHead :
      (now : ℕ → ℤ) (ds : List Text) (m : Message) (w : World S)
      → SameHead m (do_report setting now ds m w).response
  unfolding do_report
  do_report-SameHead now [] m w = SameHead-refl m
  do_report-SameHead now (d ∷ ds) m w = after_update-SameHead (d ∷ ds) false m w _

  do_whitelist-SameHead :
      (now : ℕ → ℤ) (ds : List Text) (m : Message) (w : World S)
      → SameHead m (do_whitelist setting now ds m w).response
  unfolding do_whitelist
  do_whitelist-SameHead now [] m w = SameHead-refl m
  do_whitelist-SameHead now (d ∷ ds) m w = after_update-SameHead (d ∷ ds) true m w _

  SameHead-if :
      (b : Bool) (m : Message) (x y : Outcome S)
      → SameHead m x.response
      → SameHead m y.response
      → SameHead m (if b then x else y).response
  SameHead-if true m x y hx hy = hx
  SameHead-if false m x y hx hy = hy

  dispatch-SameHead :
      (now : ℕ → ℤ) (proxied : ℤ) (op : Text) (ds : List Text) (m : Message) (w : World S)
      → SameHead m (dispatch setting now proxied op ds m w).response
  unfolding dispatch
  dispatch-SameHead now proxied op ds m w =
      SameHead-if (eq_text op (codes "ping")) m _ _ (SameHead-refl m) (
        SameHead-if (eq_text op (codes "pong")) m _ _ (do_pong-SameHead ds m w) (
          SameHead-if (eq_text op (codes "check")) m _ _ (do_check-SameHead proxied ds m w) (
            SameHead-if (eq_text op (codes "info")) m _ _ (do_info-SameHead ds m w) (
              SameHead-if (eq_text op (codes "report")) m _ _ (do_report-SameHead now ds m w) (
                SameHead-if (eq_text op (codes "whitelist")) m _ _
                  (do_whitelist-SameHead now ds m w) (SameHead-refl m))))))

  module _ (policy : Policy) where
    pub really_handle-SameHead :
        (clock : Clock) (request m : Message) (w : World S)
        → SameHead m (really_handle policy setting clock request m w).response
    unfolding really_handle
    really_handle-SameHead clock request m w = admitted (admit policy clock.verified_at request)
      where
        admitted :
            (x : Result Text)
            → SameHead m
                (let o : Outcome S = elim x [
                  | err e ↦ record { result = err e; response = m; world = w }
                  | ok opcode ↦
                      dispatch setting clock.updated_at clock.proxied_at opcode
                        (get_all request (codes "Op-Digest"))
                        m
                        w
                ] in
                  o).response
        admitted (err e) = SameHead-refl m
        admitted (ok op) = dispatch-SameHead _ _ op _ m w
