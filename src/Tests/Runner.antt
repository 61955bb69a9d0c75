-- ===== src/Tests/Runner.antt =====
-- The command line client at concrete inputs.
use ruzor.Prelude.{ℕ, suc, ◌+◌, ◌≡◌, true, List, [], ◌∷◌}
use ruzor.Prelude.Int.{pos}
use ruzor.Text.{Text, codes, eq_text, eq_ignore_ascii_case}
use ruzor.Text.Decimal.{parse_i64, parse_nat}
use ruzor.Error.{Result, ok}
use ruzor.Message.{Message, get, is_ok}
use ruzor.Server.Operations.{Address, parse_i64_header}
use ruzor.Runner.Check.{command_check_like}
use ruzor.Runner.Verdict.Responses.{lists}
use ruzor.Runner.Verdict.{verdict_lem}

abbrev counting : Text → Message
counting n = record { headers = (codes "Code", codes "200") ∷ (codes "Count", n) ∷ [] }

-- the world counts the questions; every answer is one report more than the last
abbrev ask : Text → Address → ℕ → Result Message × ℕ
ask digest server s = (ok (counting ((b'0' + s) ∷ [])), suc s)

abbrev two_servers : List Address
two_servers = (codes "a", 1) ∷ (codes "b", 2) ∷ []

-- the first server has no report of the digest, the second one
verdict_lem_example :
    ((command_check_like
        (pos 0)
        (pos 0)
        ask
        (codes "listed" ∷ [])
        (codes "digest" ∷ [] ∷ codes "listed" ∷ [])
        two_servers
        0).0.1
      ≡ true)
    × ((command_check_like
          (pos 0)
          (pos 0)
          ask
          (codes "listed" ∷ [])
          (codes "digest" ∷ [] ∷ codes "listed" ∷ [])
          two_servers
          0).1
        ≡ 2)
unfolding lists eq_text parse_i64_header parse_i64 parse_nat get is_ok eq_ignore_ascii_case
verdict_lem_example =
    verdict_lem (pos 0) (pos 0) ask (codes "listed" ∷ [])
      (codes "digest" ∷ [] ∷ codes "listed" ∷ []) two_servers 0
