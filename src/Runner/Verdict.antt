-- ===== src/Runner/Verdict.antt =====
-- When the check command of src/bin/ruzor.rs succeeds, which is what a mail filter acts on.
pub mod Responses
use ruzor.Prelude.{
  ◌≡◌, refl, sym, ap, Bool, true, false, not, ◌&&◌, ◌||◌, Option, none, some, List, [], ◌∷◌, ◌++◌,
  arith, Bool-cases, inl, inr,
}
use mathlib.Core.Path.{subst}
use ruzor.Prelude.Int.{ℤ, pos, ltb_ℤ}
use ruzor.Text.{Text, codes, eq_text}
use ruzor.Text.Decimal.{parse_i64}
use ruzor.Error.{Result, ok, err}
use ruzor.Message.{Message, get, is_ok, or_default}
use ruzor.Server.Operations.{Address, parse_i64_header}
use ruzor.Runner.Check.{
  Tally, no_tally, judge, count_of, contains_text, response_of, judged, check_servers,
  check_digests, command_check_like,
}
use ruzor.Runner.Verdict.Responses.{
  of_each, questions, lists, Response, fine, every, any, and_assoc, or_assoc, every-append,
  any-append, response_to, responses,
}

module _ (report_threshold whitelist_threshold : ℤ) where
  -- is it a success whose whitelist count is above its threshold?
  abbrev pub whitelisting : Response → Bool
  whitelisting (some (ok m)) =
      is_ok m && ltb_ℤ whitelist_threshold (parse_i64_header m (codes "WL-Count"))
  whitelisting _ = false

  -- is it another success, whose count is above its threshold?
  abbrev pub hit : Response → Bool
  hit (some (ok m)) =
      is_ok m
      && not (ltb_ℤ whitelist_threshold (parse_i64_header m (codes "WL-Count")))
      && ltb_ℤ report_threshold (parse_i64_header m (codes "Count"))
  hit _ = false

  abbrev Judged : List Response → Tally → Tally → Type 0
  Judged rs t u =
      (u.all_ok ≡ (t.all_ok && every fine rs))
      × (u.found_hit ≡ (t.found_hit || any hit rs))
      × (u.whitelisted ≡ (t.whitelisted || any whitelisting rs))

  count_of-header : (m : Message) (name : Text) → count_of m name ≡ parse_i64_header m name
  unfolding parse_i64_header parse_i64
  count_of-header m name = from (get m name)
    where
      from :
          (value : Option Text)
          → or_default (pos 0) (parse_i64 (or_default (codes "0") value)) ≡ (
              let n : ℤ = elim value [ none ↦ pos 0 | some v ↦ or_default (pos 0) (parse_i64 v) ] in
              n)
      from none = refl
      from (some v) = refl

  Judged-nil : (t : Tally) → Judged [] t t
  Judged-nil t = (ground arith, ground arith, ground arith)

  judge-Judged :
      (server : Address) (response : Result Message) (t : Tally)
      → Judged
          (some response ∷ [])
          t
          (judge report_threshold whitelist_threshold false server response t)
  unfolding judge
  judge-Judged server (ok m) t = rw (sym (count_of-header m (codes "WL-Count"))) (
      rw (sym (count_of-header m (codes "Count"))) (elim (Bool-cases (is_ok m)) [
        | inl e ↦ rw e (ground arith, ground arith, ground arith)
        | inr e ↦ rw e (ground arith, ground arith, ground arith)
      ]))
  judge-Judged server (err e) t = (ground arith, ground arith, ground arith)

  Judged-append :
      (rs more : List Response) (t u v : Tally)
      → Judged rs t u
      → Judged more u v
      → Judged (rs ++ more) t v
  Judged-append rs more t u v (ok_first, hit_first, wl_first) (ok_then, hit_then, wl_then) = (
    rw (every-append fine rs more)
        (cc (ok_first, ok_then, and_assoc t.all_ok (every fine rs) (every fine more))),
    rw (any-append hit rs more)
        (cc (hit_first, hit_then, or_assoc t.found_hit (any hit rs) (any hit more))),
    rw (any-append whitelisting rs more) (
        cc (
          wl_first,
          wl_then,
          or_assoc t.whitelisted (any whitelisting rs) (any whitelisting more),
        )),
  )

  module _ {S : Type 0} (ask : Text → Address → S → Result Message × S)
      (whitelist : List Text) where
    contains_text-lists :
        (known : List Text) (d : Text)
        → contains_text report_threshold whitelist_threshold ask known d ≡ lists known d
    unfolding contains_text lists
    contains_text-lists [] d = refl
    contains_text-lists (k ∷ known) d =
        ap (λ (b : Bool). eq_text k d || b) (contains_text-lists known d)

    -- The tally and the world in the end are those of the responses.
    abbrev Follows : List (Text × Address) → Tally × S → Tally × S → Type 0
    Follows asked (t, s) (u, v) =
        Judged (responses ask whitelist asked s).0 t u × ((responses ask whitelist asked s).1 ≡ v)

    abbrev first : Bool → Text → Address → Tally × S → Tally × S
    first known d server (t, s) =
        judged report_threshold whitelist_threshold ask known server
          (response_of report_threshold whitelist_threshold ask known d server s) t

    first-Judged :
        (known : Bool) (d : Text) (server : Address) (t : Tally) (s : S)
        → Judged ((response_to ask known d server s).0 ∷ []) t (first known d server (t, s)).0
          × ((response_to ask known d server s).1 ≡ (first known d server (t, s)).1)
    first-Judged true d server t s =
        unfold judge in ((ground arith, ground arith, ground arith), refl)
    first-Judged false d server t s = (judge-Judged server (ask d server s).0 t, refl)

    -- one question, and then what is done with the others
    cons-Follows :
        (d : Text) (server : Address) (others : List (Text × Address))
        (go_on : Tally × S → Tally × S)
        → ((t : Tally) (s : S) → Follows others (t, s) (go_on (t, s)))
        → (t : Tally) (s : S)
        → Follows ((d, server) ∷ others) (t, s) (go_on (first (lists whitelist d) d server (t, s)))
    cons-Follows d server others go_on rest t s =
        let (u, v) = first (lists whitelist d) d server (t, s) in
        let r = response_to ask (lists whitelist d) d server s in
        let (judged_first, same) = first-Judged (lists whitelist d) d server t s in
        let (judged_rest, left) = rest u v in
        (
          rw same (
              Judged-append (r.0 ∷ []) (responses ask whitelist others v).0 t u (go_on (u, v)).0
                judged_first judged_rest),
          rw same left,
        )

    check_servers-Follows :
        (d : Text) (servers : List Address) (t : Tally) (s : S)
        → Follows
            (of_each d servers)
            (t, s)
            (check_servers report_threshold whitelist_threshold ask whitelist d servers (t, s))
    unfolding check_servers
    check_servers-Follows d [] t s = (Judged-nil t, refl)
    check_servers-Follows d (server ∷ servers) t s =
        let go_on = check_servers report_threshold whitelist_threshold ask whitelist d servers in
        subst
          (λ (known : Bool).
            Follows ((d, server) ∷ of_each d servers) (t, s) (go_on (first known d server (t, s))))
          (sym (contains_text-lists whitelist d))
          (cons-Follows d server (of_each d servers) go_on (check_servers-Follows d servers) t s)

    responses-append :
        (asked more : List (Text × Address)) (s : S)
        → responses ask whitelist (asked ++ more) s ≡ (
          (responses ask whitelist asked s).0
              ++ (responses ask whitelist more (responses ask whitelist asked s).1).0,
          (responses ask whitelist more (responses ask whitelist asked s).1).1,
        )
    responses-append [] more s = refl
    responses-append ((d, server) ∷ asked) more s =
        let r = response_to ask (lists whitelist d) d server s in
        ap (λ (x : List Response × S). (r.0 ∷ x.0, x.1)) (responses-append asked more r.1)

    check_digests-Follows :
        (digests : List Text) (servers : List Address) (t : Tally) (s : S)
        → Follows
            (questions digests servers)
            (t, s)
            (check_digests report_threshold whitelist_threshold ask whitelist digests servers
              (t, s))
    unfolding check_digests
    check_digests-Follows [] servers t s = (Judged-nil t, refl)
    check_digests-Follows ([] ∷ digests) servers t s = check_digests-Follows digests servers t s
    check_digests-Follows ((c ∷ d) ∷ digests) servers t s =
        let (u, v) =
          check_servers report_threshold whitelist_threshold ask whitelist (c ∷ d) servers (t, s) in
        let (judged_first, same) = check_servers-Follows (c ∷ d) servers t s in
        let (judged_rest, left) = check_digests-Follows digests servers u v in
        let more = questions digests servers in
        let last =
          check_digests report_threshold whitelist_threshold ask whitelist digests servers (u, v) in
        let firsts = (responses ask whitelist (of_each (c ∷ d) servers) s).0 in
        rw (responses-append (of_each (c ∷ d) servers) more s) (
          rw same (
            Judged-append firsts (responses ask whitelist more v).0 t u last.0 judged_first
                judged_rest,
            left,
          ))

  -- Whatever the servers answer and however that changes the world: every digest that is not empty
  -- is asked of every server, in order, but for the digests of the local whitelist; and the command
  -- succeeds exactly where every response came and was a success, one of them whose whitelist count
  -- is not above the whitelist threshold has a count above the report threshold, and none has a
  -- whitelist count above the whitelist threshold.
  pub verdict_lem :
      {S : Type 0} (ask : Text → Address → S → Result Message × S) (whitelist digests : List Text)
      (servers : List Address) (s : S)
      → ((command_check_like report_threshold whitelist_threshold ask whitelist digests servers
            s).0.1
          ≡ (every fine (responses ask whitelist (questions digests servers) s).0
              && any hit (responses ask whitelist (questions digests servers) s).0
              && not (any whitelisting (responses ask whitelist (questions digests servers) s).0)))
        × ((command_check_like report_threshold whitelist_threshold ask whitelist digests servers
              s).1
            ≡ (responses ask whitelist (questions digests servers) s).1)
  unfolding command_check_like
  verdict_lem ask whitelist digests servers s =
      let ((fines, hits, whitelistings), left) =
        check_digests-Follows ask whitelist digests servers no_tally s in
      (cc (fines, hits, whitelistings), sym left)
