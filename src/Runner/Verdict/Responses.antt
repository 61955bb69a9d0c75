-- ===== src/Runner/Verdict/Responses.antt =====
-- The questions that the check command of src/bin/ruzor.rs asks, and the responses to them.
use ruzor.Prelude.{
  ◌≡◌, refl, sym, Bool, true, false, ◌&&◌, ◌||◌, Option, none, some, List, [], ◌∷◌, ◌++◌,
}
use ruzor.Text.{Text, eq_text}
use ruzor.Error.{Result, ok, err}
use ruzor.Message.{Message, is_ok}
use ruzor.Server.Operations.{Address}

-- what is asked of whom: every digest that is not empty, of every server
abbrev pub of_each : Text → List Address → List (Text × Address)
of_each d [] = []
of_each d (server ∷ servers) = (d, server) ∷ of_each d servers

abbrev pub questions : List Text → List Address → List (Text × Address)
questions [] servers = []
questions ([] ∷ ds) servers = questions ds servers
questions ((c ∷ d) ∷ ds) servers = of_each (c ∷ d) servers ++ questions ds servers

unfoldable pub lists : List Text → Text → Bool
lists [] d = false
lists (known ∷ more) d = eq_text known d || lists more d

-- the response to a question, or `none` for a digest of the local whitelist
abbrev pub Response : Type 0
Response = Option (Result Message)

-- did it come, and is it a success?
abbrev pub fine : Response → Bool
fine none = true
fine (some (ok m)) = is_ok m
fine (some (err e)) = false

abbrev pub every : (Response → Bool) → List Response → Bool
every test [] = true
every test (r ∷ rest) = test r && every test rest

abbrev pub any : (Response → Bool) → List Response → Bool
any test [] = false
any test (r ∷ rest) = test r || any test rest

pub and_assoc : (a b c : Bool) → ((a && b) && c) ≡ (a && (b && c))
and_assoc true b c = refl
and_assoc false b c = refl

pub or_assoc : (a b c : Bool) → ((a || b) || c) ≡ (a || (b || c))
or_assoc true b c = refl
or_assoc false b c = refl

module _ {S : Type 0} (ask : Text → Address → S → Result Message × S) where
  abbrev pub response_to : Bool → Text → Address → S → Response × S
  response_to true d server s = (none, s)
  response_to false d server s = (some (ask d server s).0, (ask d server s).1)

  -- all responses, each question being asked in the world that the one before leaves
  abbrev pub responses : List Text → List (Text × Address) → S → List Response × S
  responses whitelist [] s = ([], s)
  responses whitelist ((d, server) ∷ rest) s =
      let first = response_to (lists whitelist d) d server s in
      let others = responses whitelist rest first.1 in (first.0 ∷ others.0, others.1)

pub every-append :
    (test : Response → Bool) (rs more : List Response)
    → every test (rs ++ more) ≡ (every test rs && every test more)
every-append test [] more = refl
every-append test (r ∷ rs) more =
    rw (every-append test rs more) (sym (and_assoc (test r) (every test rs) (every test more)))

pub any-append :
    (test : Response → Bool) (rs more : List Response)
    → any test (rs ++ more) ≡ (any test rs || any test more)
any-append test [] more = refl
any-append test (r ∷ rs) more =
    rw (any-append test rs more) (sym (or_assoc (test r) (any test rs) (any test more)))
