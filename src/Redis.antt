-- ===== src/Redis.antt =====
-- src/redis_engine.rs: the data source, the wire protocol (`Redis.Resp`) and the two databases
-- over a connection (`Redis.Databases`).
pub mod Resp
pub mod Databases
use ruzor.Prelude.{
  ℕ, zero, suc, ◌≡◌, refl, Bool, not, ◌&&◌, Option, none, some, List, [], ◌∷◌, if◌then◌else◌,
}
use ruzor.Prelude.Int.{ℤ, pos}
use ruzor.Text.{Text, codes, is_empty, split}
use ruzor.Text.Decimal.{parse_i64, parse_nat}
use ruzor.Error.{Result, ok, err, ◌>>=◌, ◌>>◌, guard, comm}
use ruzor.Message.{or_err}

pub record RedisDsn : Type 0 where
  pub host : Text
  pub port : ℕ
  pub password : Option Text
  pub db : ℤ
  pub username : Option Text

-- `fields.next().unwrap_or("")`, for the field with this index
abbrev field : ℕ → List Text → Text
field i [] = []
field zero (f ∷ fs) = f
field (suc i) (f ∷ fs) = field i fs

abbrev or_none : Text → Option Text
or_none value = if is_empty value then none else some value

parse_port : Text → Result ℕ
parse_port value =
    if is_empty value
    then ok 6379
    else or_err (parse_nat 65535 value) (comm (codes "Invalid Redis DSN port."))

parse_db : Text → Result ℤ
parse_db value =
    if is_empty value
    then ok (pos 0)
    else or_err (parse_i64 value) (comm (codes "Invalid Redis DSN database."))

-- the fields, of which those past the fifth are ignored
parse_dsn_fields : Text → Text → Text → Text → Text → Result RedisDsn
unfolding parse_port parse_db
parse_dsn_fields host port password db username = do
  guard (not (not (is_empty username) && is_empty password))
      (comm (codes "Redis DSN username requires a password."))
  port ← parse_port port
  db ← parse_db db
  ok (record {
    host = if is_empty host then codes "localhost" else host;
    port = port;
    password = or_none password;
    db = db;
    username = or_none username;
  })

-- `RedisDsn::parse`
unfoldable pub parse_dsn : Text → Result RedisDsn
unfolding parse_dsn_fields
parse_dsn value =
    let fields = split b',' value in
    parse_dsn_fields (field 0 fields) (field 1 fields) (field 2 fields) (field 3 fields)
      (field 4 fields)

dsn_test :
    parse_dsn (codes "127.0.0.1,6380,secret,2")
    ≡ ok (record {
      host = codes "127.0.0.1";
      port = 6380;
      password = some (codes "secret");
      db = pos 2;
      username = none;
    })
unfolding parse_dsn split parse_nat parse_i64
dsn_test = refl
