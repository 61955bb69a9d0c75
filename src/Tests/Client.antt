-- ===== src/Tests/Client.antt =====
-- Requests and batches of a client, and the limiter.
use ruzor.Prelude.{◌≡◌, ◌⊎◌, ◌≤◌, ◌<◌, refl, none, List, [], ◌∷◌, ◌++◌, arith, length}
use ruzor.Prelude.Int.{pos}
use ruzor.Prelude.Assoc.{lookup}
use ruzor.Text.{
  Text, Bytes, codes, eq_ignore_ascii_case, lines, unify_newlines, split_once, trim, is_whitespace,
}
use ruzor.Text.Decimal.{parse_nat}
use ruzor.Text.Utf8.{from_utf8_lossy}
use ruzor.Error.{Result, ok}
use ruzor.Message.{Message, get, ensure_response, parse, thread}
use ruzor.Account.{ascii_lower}
use ruzor.Server.Operations.{Address}
use ruzor.Server.Limiter.{ThreadLimiter, new, Reach, Step, acquire, Reach-limit}
use ruzor.Prelude.{true, false, some, if◌then◌else◌}
use ruzor.Prelude.Int.{abs_i64, sub_i64}
use ruzor.Text.{eq_text}
use ruzor.Text.Laws.{text_eq}
use ruzor.Account.{expired}
use ruzor.Server.Admission.{Policy, admit, is_allowed, opcode_of}
use ruzor.Client.Admitted.{admit-sign}
use ruzor.Client.{Client, Now, sign, read_response, check_thread, address_eq}
use ruzor.Client.Threads.{IsAnswer, read_response_sound}
use ruzor.Client.Batch.{
  Batches, add_all, total, asked_for, waiting_for, add_all-total, add_all-IsOpen,
}

abbrev ping : Message
ping = record { headers = (codes "Op", codes "ping") ∷ [] }

abbrev client : Client
client = record { accounts = []; spec = [] }

abbrev now : Now
now = record { nanos = 123456; seconds = pos 1000 }

abbrev answer : Bytes
answer = codes "Code: 200\nDiag: OK\nPV: 2.1\nThread: 2000\n\n"

answer_accepted : read_response 2000 answer ≡ ok (parse answer)
unfolding read_response ensure_response get parse lines unify_newlines from_utf8_lossy split_once
    eq_ignore_ascii_case trim is_whitespace thread parse_nat check_thread
answer_accepted = refl

read_response_sound_example : IsAnswer 2000 answer (parse answer)
read_response_sound_example = read_response_sound 2000 answer (parse answer) answer_accepted

abbrev none_sent : Batches
none_sent = record { requests = []; sent = [] }

abbrev adding : List (Text × Address)
adding =
    (codes "aa", (codes "one", 1))
    ∷ (codes "bb", (codes "two", 2))
    ∷ (codes "cc", (codes "one", 1))
    ∷ (codes "dd", (codes "one", 1))
    ∷ []

abbrev send : Message → Address → Result (Unit {0})
send m address = ok tt

add_all-total_example :
    total send 2 []
      (codes "report")
      (codes "one", 1)
      (add_all send 2 [] (codes "report") adding none_sent)
    ≡ total send 2 [] (codes "report") (codes "one", 1) none_sent
      ++ asked_for (codes "one", 1) adding
add_all-total_example = add_all-total send 2 [] (codes "report") adding (codes "one", 1) none_sent

none_waiting : (a : Address) → length (waiting_for a none_sent.requests) < 2
unfolding lookup
none_waiting a = omega arith

add_all-IsOpen_example :
    length
      (waiting_for (codes "one", 1) (add_all send 2 [] (codes "report") adding none_sent).requests)
    < 2
add_all-IsOpen_example =
    add_all-IsOpen send 2 [] (codes "report") adding none_sent (omega arith) none_waiting
      (codes "one", 1)

abbrev taken : ThreadLimiter
taken = record { max = 1; active = 1; live = 1; waiting = 0; woken = 0 }

taken_reached : Reach (new 1) taken
unfolding acquire
taken_reached = Reach.next Reach.here (Step.enter (new 1) refl)

Reach-limit_example :
    (taken.live ≤ 1)
    × (taken.active ≡ taken.live)
    × ((taken.waiting ≡ 0) ⊎ (0 < taken.woken) ⊎ (taken.active ≡ 1))
Reach-limit_example = Reach-limit 1 taken taken_reached

abbrev known_client : Client
known_client = record {
  accounts =
      (
        (codes "server", 24441),
        (record { username = codes "alice"; salt = none; key = codes "aB12" }),
      )
      ∷ [];
  spec = [];
}

abbrev knowing : Policy
knowing = record {
  accounts = (codes "alice", codes "aB12") ∷ [];
  acl = (codes "alice", codes "ping" ∷ []) ∷ [];
  lower = ascii_lower;
  float_as_i64 = λ v. if eq_text v (codes "2.1") then some (pos 2) else none;
}

known_alice : lookup (codes "alice") knowing.accounts ≡ some (codes "aB12")
unfolding lookup eq_text
known_alice = refl

reads_version : knowing.float_as_i64 (codes "2.1") ≡ some (pos 2)
unfolding eq_text
reads_version = refl

alice_named : eq_text (codes "alice") (codes "anonymous") ≡ false
unfolding eq_text
alice_named = refl

ping_unsigned : get ping (codes "Sig") ≡ none
unfolding get eq_ignore_ascii_case
ping_unsigned = refl

alice_allowed : is_allowed knowing.acl (codes "alice") (opcode_of ping) ≡ true
unfolding is_allowed opcode_of get eq_ignore_ascii_case eq_text
alice_allowed = refl

close_enough : expired (pos 1100) (pos 1000) ≡ false
unfolding expired abs_i64 sub_i64
close_enough = refl

admit-sign_example :
    admit knowing (pos 1100) (sign ascii_lower known_client now ping (codes "server", 24441))
    ≡ ok (opcode_of ping)
unfolding lookup eq_text
admit-sign_example =
    admit-sign knowing known_client now (pos 1100) ping (codes "server", 24441) (omega arith)
      ping_unsigned close_enough alice_named known_alice reads_version alice_allowed
