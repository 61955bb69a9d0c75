-- ===== src/MySql/Cli/Bind.antt =====
-- The places of the statements of src/mysql_cli.rs and the values that they are bound to.
use ruzor.Prelude.{
  ℕ, ◌≡◌, ◌≢◌, refl, sym, ap, ◌∙◌, Bool, true, not, ◌&&◌, List, [], ◌∷◌, ◌++◌, ◌==◌, arith,
  append_assoc, append-nil, ==_false, All, All-append, Lacks,
}
use ruzor.Text.{Text, codes, join}
use ruzor.Text.Laws.{replace-append}
use ruzor.Error.{Result, ok, err, comm}
use ruzor.LocalTime.{TimeZone}
use ruzor.MySql.{mysql_prepared_placeholders}
use ruzor.MySql.Cli.{SqlValue, put, to_sql, bind_statement}

-- The name of a table has no place of its own.
pub record IsTable (table : Text) : Type 0 where
  pub no_place : Lacks b'?' table
  pub no_mark : Lacks b'%' table

unfoldable pub lacks : ℕ → Text → Bool
lacks b [] = true
lacks b (c ∷ s) = not (c == b) && lacks b s

lacks→Lacks : (b : ℕ) (s : Text) → lacks b s ≡ true → Lacks b s
unfolding lacks
lacks→Lacks b [] e = tt
lacks→Lacks b (c ∷ s) e = ground (arith, lacks→Lacks b s)

keep_marks :
    (p s : Text)
    → Lacks b'%' p
    → mysql_prepared_placeholders (p ++ s) ≡ p ++ mysql_prepared_placeholders s
unfolding mysql_prepared_placeholders
keep_marks p s h = replace-append b'%' (codes "s") (codes "?") p s h

put-append : (p q : Text) (r : Result Text) → put (p ++ q) r ≡ put p (put q r)
put-append p q (ok s) = ap ok (append_assoc p q s)
put-append p q (err e) = refl

put-nil : (r : Result Text) → r ≡ put [] r
put-nil (ok s) = refl
put-nil (err e) = refl

module _ (tz : TimeZone) where
  -- the pieces between the places, and the values in their order
  unfoldable pub fill : Text → List Text → List SqlValue → Result Text
  fill p [] [] = ok p
  fill p [] (v ∷ values) = err (comm (codes "Too many MySQL statement parameters."))
  fill p (q ∷ ps) [] = err (comm (codes "Missing MySQL statement parameter."))
  fill p (q ∷ ps) (v ∷ values) = put (p ++ to_sql tz v) (fill q ps values)

  bind-append :
      (p s : Text) (values : List SqlValue)
      → Lacks b'?' p
      → bind_statement tz (p ++ s) values ≡ put p (bind_statement tz s values)
  unfolding bind_statement
  bind-append [] s values h = put-nil (bind_statement tz s values)
  bind-append (c ∷ p) s [] (hc, h) =
      rw (==_false c b'?' hc)
        (ap (put (c ∷ [])) (bind-append p s [] h) ∙ sym (put-append (c ∷ []) p _))
  bind-append (c ∷ p) s (v ∷ values) (hc, h) =
      rw (==_false c b'?' hc)
        (ap (put (c ∷ [])) (bind-append p s (v ∷ values) h) ∙ sym (put-append (c ∷ []) p _))

  bind_end : (values : List SqlValue) → bind_statement tz [] values ≡ fill [] [] values
  unfolding bind_statement fill
  bind_end [] = refl
  bind_end (v ∷ values) = refl

  put-fill_end : (p : Text) (values : List SqlValue) → put p (fill [] [] values) ≡ fill p [] values
  unfolding fill
  put-fill_end p [] = ap ok (append-nil p)
  put-fill_end p (v ∷ values) = refl

  bind_missing :
      (s : Text)
      → bind_statement tz (b'?' ∷ s) [] ≡ err (comm (codes "Missing MySQL statement parameter."))
  unfolding bind_statement
  bind_missing s = refl

  bind_place :
      (s : Text) (v : SqlValue) (values : List SqlValue)
      → bind_statement tz (b'?' ∷ s) (v ∷ values) ≡ put (to_sql tz v) (bind_statement tz s values)
  unfolding bind_statement
  bind_place s v values = refl

  -- Whatever the values, too few and too many included: a statement of pieces without `?`, joined
  -- by the places, is bound to the pieces with the values between them, or is the error.
  pub bind_statement-join :
      (p : Text) (ps : List Text) (values : List SqlValue)
      → All (Lacks b'?') (p ∷ ps)
      → bind_statement tz (join (codes "?") (p ∷ ps)) values ≡ fill p ps values
  unfolding join fill
  bind_statement-join p [] values (h, _) =
      ap (λ (s : Text). bind_statement tz s values) (sym (append-nil p))
      ∙ bind-append p [] values h
      ∙ ap (put p) (bind_end values)
      ∙ put-fill_end p values
  bind_statement-join p (q ∷ ps) [] (h, hs) = bind-append p _ [] h ∙ ap (put p) (bind_missing _)
  bind_statement-join p (q ∷ ps) (v ∷ values) (h, hs) =
      bind-append p _ (v ∷ values) h
      ∙ ap (put p)
          (bind_place _ v values ∙ ap (put (to_sql tz v)) (bind_statement-join q ps values hs))
      ∙ sym (put-append p (to_sql tz v) (fill q ps values))

abbrev pub each_lacks : ℕ → List Text → Bool
each_lacks b [] = true
each_lacks b (p ∷ ps) = lacks b p && each_lacks b ps

each_lacks→All : (b : ℕ) (ps : List Text) → each_lacks b ps ≡ true → All (Lacks b) ps
each_lacks→All b [] e = tt
each_lacks→All b (p ∷ ps) e = ground (arith, lacks→Lacks b p, each_lacks→All b ps)

join-front :
    (a table b : Text) (ps : List Text)
    → join (codes "?") ((a ++ (table ++ b)) ∷ ps) ≡ a ++ (table ++ join (codes "?") (b ∷ ps))
unfolding join
join-front a table b [] = refl
join-front a table b (p ∷ ps) =
    append_assoc a (table ++ b) _ ∙ ap (λ (s : Text). a ++ s) (append_assoc table b _)

prepared-join :
    (a table b s : Text) (ps : List Text)
    → IsTable table
    → lacks b'%' a ≡ true
    → mysql_prepared_placeholders s ≡ join (codes "?") (b ∷ ps)
    → mysql_prepared_placeholders (a ++ (table ++ s)) ≡ join (codes "?") ((a ++ (table ++ b)) ∷ ps)
prepared-join a table b s ps h ha e =
    keep_marks a (table ++ s) (lacks→Lacks b'%' a ha)
    ∙ ap (λ (s : Text). a ++ s) (keep_marks table s h.no_mark ∙ ap (λ (s : Text). table ++ s) e)
    ∙ sym (join-front a table b ps)

literals :
    (a b : Text) (ps : List Text)
    → lacks b'%' a && each_lacks b'?' (a ∷ b ∷ ps) ≡ true
    → (lacks b'%' a ≡ true) × (Lacks b'?' a × All (Lacks b'?') (b ∷ ps))
literals a b ps e = ground (arith, lacks→Lacks b'?' a, lacks→Lacks b'?' b, each_lacks→All b'?' ps)

-- A statement whose literals are checked by computing is bound to its pieces and the values.
pub bound_lem :
    (tz : TimeZone) (a table b s : Text) (ps : List Text) (values : List SqlValue)
    → IsTable table
    → lacks b'%' a && each_lacks b'?' (a ∷ b ∷ ps) ≡ true
    → mysql_prepared_placeholders s ≡ join (codes "?") (b ∷ ps)
    → bind_statement tz (mysql_prepared_placeholders (a ++ (table ++ s))) values
      ≡ fill tz (a ++ (table ++ b)) ps values
bound_lem tz a table b s ps values h checked e =
    let (no_mark, (in_a, (in_b, in_ps))) = literals a b ps checked in
    ap (λ (s : Text). bind_statement tz s values) (prepared-join a table b s ps h no_mark e)
    ∙ bind_statement-join tz (a ++ (table ++ b)) ps values (
      All-append (λ c. c ≢ b'?') a (table ++ b) in_a
          (All-append (λ c. c ≢ b'?') table b h.no_place in_b),
      in_ps,
    )
