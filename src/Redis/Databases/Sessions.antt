-- ===== src/Redis/Databases/Sessions.antt =====
-- What the databases of src/redis_engine.rs say to a server that answers each command with one
-- reply: the commands of a script, up to the first that is refused.
use ruzor.Prelude.{
  ◌≡◌, refl, ap, sym, ◌∙◌, Bool, true, Option, some, List, [], ◌∷◌, ◌++◌, append_assoc, append-nil,
}
use ruzor.Text.{Bytes}
use ruzor.Steps.{follow, give, follow_assoc, follow_done}
use ruzor.Error.{Result, ok, err}
use ruzor.Redis.Resp.{Resp, write_command, read_resp}
use ruzor.Redis.Resp.Replies.{
  Reply, status, failure, number, null_bulk, no_array, string, several, print, seen, IsReply,
  read_resp-print,
}
use ruzor.Redis.Databases.{Place, closed, database_unavailable, command, read_response, accepted}

-- A server that gives the reply `answer` to a command, and that can be connected to.
pub record IsServer {S : Type 0} (open_stream : Place → S → Bool × S)
    (exchange : Bytes → S → Option Bytes × S) (answer : List Bytes → S → Reply × S) : Type 0 where
  pub opens : (place : Place) (s : S) → open_stream place s ≡ (true, s)
  pub answers :
      (args : List Bytes) (s : S)
      → exchange (write_command args) s ≡ (some (print ((answer args s).0)), (answer args s).1)
  pub allowed : (args : List Bytes) (s : S) → IsReply ((answer args s).0)

module _ {S : Type 0} (answer : List Bytes → S → Reply × S) where
  abbrev play_on : (S → Result (Unit {0}) × S) → Reply × S → Result (Unit {0}) × S
  play_on more (failure line, s) = (err database_unavailable, s)
  play_on more (reply, s) = more s

  -- the commands one after the other, up to the first that the server refuses
  unfoldable pub play : List (List Bytes) → S → Result (Unit {0}) × S
  play [] s = (ok tt, s)
  play (args ∷ script) s = play_on (play script) (answer args s)

read_all : (r : Reply) → IsReply r → read_resp (print r) ≡ some (seen r, [])
read_all r h = ap read_resp (sym (append-nil (print r))) ∙ read_resp-print r [] h

module _ {S : Type 0} (open_stream : Place → S → Bool × S) (exchange : Bytes → S → Option Bytes × S)
    (answer : List Bytes → S → Reply × S) (server : IsServer open_stream exchange answer) where
  abbrev pub C : Type 0
  C = Bytes × S

  abbrev pub run : List Bytes → C → Result Resp × C
  run = command open_stream exchange

  -- What follows a command whose reply is `reply`.
  abbrev go_on : (Resp → C → Result (Unit {0}) × C) → Reply × S → Result (Unit {0}) × C
  go_on next (failure line, s) = (err database_unavailable, ([], s))
  go_on next (reply, s) = next (seen reply) ([], s)

  accepted-seen :
      (r : Reply) (s : S) (next : Resp → C → Result (Unit {0}) × C)
      → follow (accepted open_stream exchange (some (seen r, [])) s) next ≡ go_on next (r, s)
  unfolding seen
  accepted-seen (status line) s next = refl
  accepted-seen (failure line) s next = refl
  accepted-seen (number n) s next = refl
  accepted-seen null_bulk s next = refl
  accepted-seen no_array s next = refl
  accepted-seen (string bytes) s next = refl
  accepted-seen (several rs) s next = refl

  after_reply :
      (got : Reply × S) (next : Resp → C → Result (Unit {0}) × C)
      → IsReply (got.0)
      → follow (read_response open_stream exchange [] (some (print (got.0)), got.1)) next
        ≡ go_on next got
  after_reply (r, s) next h = rw (read_all r h) (accepted-seen r s next)

  command_lem :
      (args : List Bytes) (next : Resp → C → Result (Unit {0}) × C) (s : S)
      → follow (run args ([], s)) next ≡ go_on next (answer args s)
  unfolding command
  command_lem args next s =
      rw (server.answers args s) (after_reply (answer args s) next (server.allowed args s))

  -- Between two replies nothing is left unread: the steps `body` play `script`, whatever comes next.
  unfoldable pub Plays : (C → Result (Unit {0}) × C) → List (List Bytes) → Type 0
  Plays body script =
      (next : C → Result (Unit {0}) × C) (tail : List (List Bytes))
      → ((s : S) → closed (next ([], s)) ≡ play answer tail s)
      → (s : S) → closed (follow (body ([], s)) (λ done. next)) ≡ play answer (script ++ tail) s

  go_on-play_on :
      (got : Reply × S) (next : Resp → C → Result (Unit {0}) × C) (more : S → Result (Unit {0}) × S)
      → ((reply : Resp) (s : S) → closed (next reply ([], s)) ≡ more s)
      → closed (go_on next got) ≡ play_on answer more got
  go_on-play_on (status line, s) next more h = h _ s
  go_on-play_on (failure line, s) next more h = refl
  go_on-play_on (number n, s) next more h = h _ s
  go_on-play_on (null_bulk, s) next more h = h _ s
  go_on-play_on (no_array, s) next more h = h _ s
  go_on-play_on (string bytes, s) next more h = h _ s
  go_on-play_on (several rs, s) next more h = h _ s

  pub Plays-command :
      (args : List Bytes) (next : Resp → C → Result (Unit {0}) × C) (script : List (List Bytes))
      → ((reply : Resp) → Plays (next reply) script)
      → Plays (λ c. follow (run args c) next) (args ∷ script)
  unfolding Plays play
  Plays-command args next script h after tail e s =
      ap closed (follow_assoc (run args ([], s)) next (λ done. after))
      ∙ ap closed (command_lem args (λ reply c. follow (next reply c) (λ done. after)) s)
      ∙ go_on-play_on (answer args s) (λ reply c. follow (next reply c) (λ done. after))
          (play answer (script ++ tail)) (λ reply s'. h reply after tail e s')

  pub Plays-give : Plays (give (ok tt)) []
  unfolding Plays
  Plays-give next tail e s = e s

  pub Plays-append :
      (first second : C → Result (Unit {0}) × C) (script more : List (List Bytes))
      → Plays first script
      → Plays second more
      → Plays (λ c. follow (first c) (λ done. second)) (script ++ more)
  unfolding Plays
  Plays-append first second script more h k after tail e s =
      ap closed (follow_assoc (first ([], s)) (λ done. second) (λ done. after))
      ∙ h (λ c. follow (second c) (λ done. after)) (more ++ tail) (k after tail e) s
      ∙ ap (λ script. play answer script s) (sym (append_assoc script more tail))

  -- The steps alone play the script.
  pub closed-Plays :
      (body : C → Result (Unit {0}) × C) (script : List (List Bytes)) (s : S)
      → Plays body script
      → closed (body ([], s)) ≡ play answer script s
  unfolding Plays play
  closed-Plays body script s h =
      ap closed (sym (follow_done (body ([], s))))
      ∙ h (give (ok tt)) [] (λ s. refl) s
      ∙ ap (λ (t : List (List Bytes)). play answer t s) (append-nil script)
