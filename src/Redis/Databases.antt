-- ===== src/Redis/Databases.antt =====
-- src/redis_engine.rs: the databases of the formats v1 and v0, each method over a connection of its
-- own. `open_stream` stands for connecting to a place with its timeouts set, and `exchange` for writing
-- to the connection: `none` where that fails, or the bytes that it then holds until it ends or a
-- timeout passes.
pub mod Sessions
pub mod Scripts
use ruzor.Prelude.{
  ℕ, zero, suc, ◌≡◌, refl, Bool, true, false, Option, none, some, List, [], ◌∷◌, ◌++◌, ◌==◌,
  if◌then◌else◌,
}
use ruzor.Prelude.Assoc.{insert}
use ruzor.Prelude.Int.{ℤ, pos, negsuc}
use ruzor.Text.{Text, Bytes, codes}
use ruzor.Text.Laws.{text_eq}
use ruzor.Text.Decimal.{int_to_string}
use ruzor.Text.Utf8.{as_bytes, from_utf8}
use ruzor.Steps.{follow, ◌>>=◌, give}
use ruzor.Error.{Result, ok, err, PyzorError, comm}
use ruzor.Message.{or_err}
use ruzor.LocalTime.{TimeZone}
use ruzor.Engines.{Record, DigestDatabase, default_record, with_default_methods}
use ruzor.Engines.Formats.{
  redis_v1_key, redis_v1_encode_record, redis_v1_decode_record, redis_v0_key,
  redis_v0_encode_record, redis_v0_decode_record,
}
use ruzor.Redis.{RedisDsn, parse_dsn}
use ruzor.Redis.Resp.{
  Resp, Resps, simple, error, null_array, bulk, array, nil, cons, write_command, read_resp,
}

abbrev pub database_unavailable : PyzorError
database_unavailable = comm (codes "Database temporarily unavailable.")

-- `bulk_string`
unfoldable pub bulk_string : Resp → Result (Option Text)
bulk_string (bulk (some bytes)) = elim (from_utf8 bytes) [
  | none ↦ err database_unavailable
  | some text ↦ ok (some text)
]
bulk_string (bulk none) = ok none
bulk_string _ = err database_unavailable

abbrev present : Result (Option Text) → Result Text
present (ok (some text)) = ok text
present (ok none) = err database_unavailable
present (err e) = err e

abbrev add_field : Result Text → Result Text → List (Text × Text) → Result (List (Text × Text))
add_field (err e) value fields = err e
add_field (ok key) (err e) fields = err e
add_field (ok key) (ok value) fields = ok (insert key value fields)

-- `values.len() % 2 == 0`
abbrev in_pairs : Resps → Bool
in_pairs nil = true
in_pairs (cons key nil) = false
in_pairs (cons key (cons value rest)) = in_pairs rest

-- the loop over the pairs
insert_pairs : Resps → List (Text × Text) → Result (List (Text × Text))
insert_pairs nil fields = ok fields
insert_pairs (cons key nil) fields = ok fields
insert_pairs (cons key (cons value rest)) fields =
    elim (add_field (present (bulk_string key)) (present (bulk_string value)) fields) [
      | err e ↦ err e
      | ok more ↦ insert_pairs rest more
    ]

-- `decode_hgetall`
unfoldable pub decode_hgetall : Resp → Result (List (Text × Text))
unfolding insert_pairs insert bulk_string
decode_hgetall (array values) =
    if in_pairs values then insert_pairs values [] else err database_unavailable
decode_hgetall null_array = ok []
decode_hgetall _ = err database_unavailable

-- what `RedisDsn::connect` connects to
pub data Place : Type 0 where
  unix : Text → Place
  tcp : Text → ℕ → Place

abbrev has_slash : Text → Bool
has_slash [] = false
has_slash (c ∷ s) = if c == b'/' then true else has_slash s

pub place_of : RedisDsn → Place
place_of dsn = if has_slash dsn.host then unix dsn.host else tcp dsn.host dsn.port

-- a method's result, when its connection is closed behind it
abbrev closed : {A S : Type 0} → Result A × (Bytes × S) → Result A × S
closed (result, (unread, s)) = (result, s)

abbrev key_v1 : Text → Bytes
key_v1 digest = as_bytes (redis_v1_key digest)

abbrev field_args : List (Text × Text) → List Bytes
field_args [] = []
field_args ((field, value) ∷ fields) = as_bytes field ∷ as_bytes value ∷ field_args fields

abbrev key_v0 : Text → Bytes
key_v0 digest = as_bytes (redis_v0_key digest)

abbrev set_args : Bytes → Bytes → Option ℤ → List Bytes
set_args key value none = codes "SET" ∷ key ∷ value ∷ []
set_args key value (some age) = codes "SETEX" ∷ key ∷ int_to_string age ∷ value ∷ []

module _ {S : Type 0} (open_stream : Place → S → Bool × S)
    (exchange : Bytes → S → Option Bytes × S) where
  abbrev Connection : Type 0
  Connection = Bytes × S

  abbrev accepted : Option (Resp × Bytes) → S → Result Resp × Connection
  accepted none s = (err database_unavailable, ([], s))
  accepted (some (error, rest)) s = (err database_unavailable, (rest, s))
  accepted (some (response, rest)) s = (ok response, (rest, s))

  abbrev read_response : Bytes → Option Bytes × S → Result Resp × Connection
  read_response unread (none, s) = (err database_unavailable, (unread, s))
  read_response unread (some more, s) = accepted (read_resp (unread ++ more)) s

  -- `RedisConnection::command`
  unfoldable pub command : List Bytes → Connection → Result Resp × Connection
  command args (unread, s) = read_response unread (exchange (write_command args) s)

  abbrev authenticate : Option Text → Option Text → Connection → Result Resp × Connection
  authenticate none username c = (ok simple, c)
  authenticate (some password) none c = command (codes "AUTH" ∷ as_bytes password ∷ []) c
  authenticate (some password) (some username) c =
      command (codes "AUTH" ∷ as_bytes username ∷ as_bytes password ∷ []) c

  abbrev on_opened : RedisDsn → Bool × S → Result Resp × Connection
  on_opened dsn (false, s) = (err database_unavailable, ([], s))
  on_opened dsn (true, s) =
      (authenticate dsn.password dsn.username >>= λ authenticated.
      command (codes "SELECT" ∷ int_to_string dsn.db ∷ []))
        ([], s)

  -- `RedisDsn::connect`
  unfoldable pub connect : RedisDsn → S → Result Resp × Connection
  unfolding place_of
  connect dsn s = on_opened dsn (open_stream (place_of dsn) s)

  -- a method, over a connection of its own
  abbrev connected :
      {A : Type 0} → RedisDsn → (Connection → Result A × Connection) → S → Result A × S
  connected dsn body s = closed (follow (connect dsn s) (λ selected. body))

  -- `connect_with_max_age` of both databases
  unfoldable pub connect_with_max_age : Text → S → Result RedisDsn × S
  connect_with_max_age dsn = give (parse_dsn dsn) >>= λ dsn. connected dsn (give (ok dsn))

  module _ (tz : TimeZone) (dsn : RedisDsn) (max_age : Option ℤ) where
    abbrev expire : Bytes → Option ℤ → Connection → Result (Unit {0}) × Connection
    expire key none = give (ok tt)
    expire key (some (pos zero)) = give (ok tt)
    expire key (some age) = do
      expired ← command (codes "EXPIRE" ∷ key ∷ int_to_string age ∷ [])
      give (ok tt)

    -- `expire_if_needed`
    unfoldable pub expire_if_needed : Bytes → Connection → Result (Unit {0}) × Connection
    expire_if_needed key = expire key max_age

    v1_get : Text → S → Result Record × S
    v1_get digest = connected dsn (do
      reply ← command (codes "HGETALL" ∷ key_v1 digest ∷ [])
      fields ← give (decode_hgetall reply)
      give (ok (redis_v1_decode_record tz fields)))

    v1_set : Text → Record → S → Result (Unit {0}) × S
    unfolding expire_if_needed
    v1_set digest r = connected dsn (do
      written ← command (codes "HSET" ∷ key_v1 digest ∷ field_args (redis_v1_encode_record r))
      expire_if_needed (key_v1 digest))

    -- one round of `report` or of `whitelist`
    abbrev count_one :
        Text → Text → Text → Text → Text → Connection → Result (Unit {0}) × Connection
    count_one count entered updated now digest = do
      counted ← command (codes "HINCRBY" ∷ key_v1 digest ∷ count ∷ codes "1" ∷ [])
      noted ← command (codes "HSETNX" ∷ key_v1 digest ∷ entered ∷ now ∷ [])
      written ← command (codes "HSET" ∷ key_v1 digest ∷ updated ∷ now ∷ [])
      expire_if_needed (key_v1 digest)

    count_each : Text → Text → Text → Text → List Text → Connection → Result (Unit {0}) × Connection
    count_each count entered updated now [] = give (ok tt)
    count_each count entered updated now (digest ∷ digests) = do
      done ← count_one count entered updated now digest
      count_each count entered updated now digests

    -- `impl DigestDatabase for RedisV1Database`
    unfoldable pub redis_v1_database : DigestDatabase S
    unfolding v1_get v1_set count_each
    redis_v1_database = record {
      get = v1_get;
      set = v1_set;
      report = λ now digests. connected dsn (
          count_each (codes "r_count") (codes "r_entered") (codes "r_updated")
            (int_to_string (now 0)) digests);
      whitelist = λ now digests. connected dsn (
          count_each (codes "wl_count") (codes "wl_entered") (codes "wl_updated")
            (int_to_string (now 0)) digests);
    }

    abbrev decoded_v0 : Option Text → Result Record
    decoded_v0 none = ok default_record
    decoded_v0 (some value) = or_err (redis_v0_decode_record tz value) database_unavailable

    v0_get : Text → S → Result Record × S
    v0_get digest = connected dsn (do
      reply ← command (codes "GET" ∷ key_v0 digest ∷ [])
      value ← give (bulk_string reply)
      give (decoded_v0 value))

    v0_set : Text → Record → S → Result (Unit {0}) × S
    v0_set digest r = connected dsn (do
      written ← command (set_args (key_v0 digest) (as_bytes (redis_v0_encode_record tz r)) max_age)
      give (ok tt))

    -- `impl DigestDatabase for RedisV0Database`, whose `report` and `whitelist` are the trait's
    unfoldable pub redis_v0_database : DigestDatabase S
    unfolding v0_get v0_set
    redis_v0_database = with_default_methods v0_get v0_set
