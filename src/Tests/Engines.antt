-- ===== src/Tests/Engines.antt =====
-- The databases behind servers, and the digests of mails, at concrete inputs.
use ruzor.Prelude.{
  [], ◌∷◌, inr, ℕ, suc, ◌≡◌, refl, Bool, true, Option, none, some, List, ◌++◌, arith, length,
}
use ruzor.Prelude.Int.{pos}
use ruzor.Text.{Text, Bytes, codes, trim, is_whitespace}
use ruzor.Tests.Formats.{utc, stored}
use ruzor.MySql.Cli.{quote_sql_string}
use ruzor.MySql.Cli.Quote.{read_literal, read_literal-quote_sql_string}
use ruzor.MySql.Cli.Bind.{IsTable}
use ruzor.MySql.Cli.Statements.{StatementsBound, statements_bound}
use ruzor.Redis.{RedisDsn}
use ruzor.Redis.Resp.{read_resp, read_behind, read_line}
use ruzor.Redis.Resp.Fuel.{Leaves, read_resp_cons}
use ruzor.Redis.Resp.Replies.{
  Reply, number, string, several, also, end, print, seen, IsReply, read_resp-print,
}
use ruzor.Redis.Databases.{Place, redis_v1_database}
use ruzor.Redis.Databases.Sessions.{IsServer}
use ruzor.Redis.Databases.Scripts.{PlaysCommands, redis_v1_database-play}
use ruzor.Digest.Parts.{parse}
use ruzor.Digest.Payloads.{digest_payloads, payloads_of}
use ruzor.Digest.Transfer.{decode_transfer}
use ruzor.Digest.Transfer.Encodings.{
  Piece, literal, escaped, soft_break, print_pieces, contents, Encodes, decode_transfer-Encodes,
}
use ruzor.Digest.Payloads.Nesting.{digest_payloads_lem}

abbrev tricky : Text
tricky = codes "a' OR \\'1"

read_literal-quote_sql_string_example :
    read_literal (quote_sql_string tricky ++ codes ", 1") ≡ some (tricky, codes ", 1")
read_literal-quote_sql_string_example =
    read_literal-quote_sql_string tricky (codes ", 1") (λ e. ground arith)

public-IsTable : IsTable (codes "public")
public-IsTable = record { no_place = ground arith; no_mark = ground arith }

read_resp_cons_example :
    (read_resp (codes "*1\r\n:7\r\n")
      ≡ read_behind read_resp b'*' (read_line (codes "1\r\n:7\r\n")))
    × Leaves (length (codes "*1\r\n:7\r\n")) (read_resp (codes "*1\r\n:7\r\n"))
read_resp_cons_example = read_resp_cons b'*' (codes "1\r\n:7\r\n")

abbrev nested : Reply
nested = several (also (number (pos 7)) (also (several (also (string (codes "a\r\nb")) end)) end))

nested-IsReply : IsReply nested
unfolding IsReply
nested-IsReply = (omega arith, (omega arith, ((omega arith, (omega arith, tt)), tt)))

read_resp-print_example : read_resp (print nested ++ codes "+OK") ≡ some (seen nested, codes "+OK")
read_resp-print_example = read_resp-print nested (codes "+OK") nested-IsReply

-- a server that counts its commands
abbrev always : Place → ℕ → Bool × ℕ
always place n = (true, n)

abbrev counting : Bytes → ℕ → Option Bytes × ℕ
counting bytes n = (some (print (number (pos 1))), suc n)

abbrev one : List Bytes → ℕ → Reply × ℕ
one args n = (number (pos 1), suc n)

counting-IsServer : IsServer always counting one
unfolding IsReply
counting-IsServer = record {
  opens = λ place n. refl;
  answers = λ args n. refl;
  allowed = λ args n. omega arith;
}

abbrev guarded : RedisDsn
guarded = record {
  host = codes "localhost";
  port = 6379;
  password = some (codes "secret");
  db = pos 2;
  username = none;
}

redis_v1_database-play_example :
    PlaysCommands
      (redis_v1_database always counting utc guarded (some (pos 60)))
      one
      guarded
      (some (pos 60))
redis_v1_database-play_example =
    redis_v1_database-play always counting one counting-IsServer utc guarded (some (pos 60))

statements_bound_example : StatementsBound utc (codes "public") tricky stored
statements_bound_example = statements_bound utc (codes "public") tricky stored public-IsTable

abbrev same_text : Text → Text
same_text name = name

abbrev no_charset : Bytes → Text → Option Text
no_charset bytes name = none

abbrev mail : Bytes
mail = codes "Content-Type: multipart/mixed; boundary=b\n\n--b\nham\n--b--"

digest_payloads_lem_example :
    digest_payloads same_text no_charset (parse mail)
    ≡ payloads_of same_text no_charset (digest_payloads same_text no_charset) (parse mail)
digest_payloads_lem_example = digest_payloads_lem same_text no_charset (parse mail)

abbrev pieces : List Piece
pieces = literal b'a' ∷ escaped 0xe9 ∷ soft_break ∷ literal b'b' ∷ []

pieces-Encodes :
    Encodes same_text (codes " quoted-printable") (print_pieces pieces) (b'a' ∷ 0xe9 ∷ b'b' ∷ [])
unfolding Encodes contents trim is_whitespace
pieces-Encodes = inr (
  refl,
  pieces,
  refl,
  refl,
  ((λ e. ground arith, omega arith), (omega arith, (tt, ((λ e. ground arith, omega arith), tt)))),
)

decode_transfer-Encodes_example :
    decode_transfer same_text (print_pieces pieces) (codes " quoted-printable")
    ≡ b'a' ∷ 0xe9 ∷ b'b' ∷ []
decode_transfer-Encodes_example =
    decode_transfer-Encodes same_text (codes " quoted-printable") (print_pieces pieces) _
      pieces-Encodes
