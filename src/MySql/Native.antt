-- ===== src/MySql/Native.antt =====
-- src/mysql_native.rs: the executor over the pool of the mysql crate, and the values of its rows. The
-- crate's calls are the parameter `pool`, and every error of it is the same one here.
use ruzor.Prelude.{
  ℕ, zero, Bool, true, false, Option, none, some, List, [], ◌∷◌, ◌++◌, ltb, leb, if◌then◌else◌,
}
use ruzor.Prelude.Int.{ℤ, pos, sub_i64, i64_max}
use ruzor.Text.{Text, Bytes, codes, is_empty, starts_with}
use ruzor.Text.Decimal.{parse_i64}
use ruzor.Text.Utf8.{as_bytes, from_utf8}
use ruzor.Error.{Result, ok, err}
use ruzor.Message.{or_default}
use ruzor.Steps.{◌>>=◌, give}
use ruzor.LocalTime.{print_components, TimeZone, format_timestamp, parse_datetime}
use ruzor.Engines.{Record}
use ruzor.MySql.{
  MySqlDsn, MySqlExecutor, mysql_prepared_placeholders, parse_dsn, reorganize_statement,
}
use ruzor.MySql.Cli.{database_unavailable}

-- the crate's `Value`, of which the source tells these apart
pub data Value : Type 0 where
  null : Value
  int : ℤ → Value
  uint : ℕ → Value
  bytes : Bytes → Value
  date : ℕ → ℕ → ℕ → ℕ → ℕ → ℕ → Value
  other_value : Value

abbrev number_of : Text → Result (Option ℤ)
number_of [] = ok none
number_of (c ∷ s) = elim (parse_i64 (c ∷ s)) [
  | none ↦ err database_unavailable
  | some n ↦ ok (some n)
]

-- `value_to_i64`
unfoldable pub value_to_i64 : Value → Result (Option ℤ)
value_to_i64 null = ok none
value_to_i64 (int n) = ok (some n)
value_to_i64 (uint n) = if leb n i64_max then ok (some (pos n)) else err database_unavailable
value_to_i64 (bytes s) = elim (from_utf8 s) [
  | none ↦ err database_unavailable
  | some text ↦ number_of text
]
value_to_i64 _ = err database_unavailable

module _ (tz : TimeZone) where
  abbrev timestamp_of : Text → Result (Option ℤ)
  timestamp_of text = elim (parse_datetime tz text) [
    | none ↦ err database_unavailable
    | some t ↦ ok (some t)
  ]

  -- `parse_datetime_parts`
  parse_datetime_parts : ℕ → ℕ → ℕ → ℕ → ℕ → ℕ → Result (Option ℤ)
  parse_datetime_parts year month day hour minute second = timestamp_of (
      print_components (record {
        year = pos year;
        month = pos month;
        day = pos day;
        hour = pos hour;
        minute = pos minute;
        second = pos second;
      }))

  abbrev timestamp_or_none : Text → Result (Option ℤ)
  timestamp_or_none [] = ok none
  timestamp_or_none (c ∷ s) = timestamp_of (c ∷ s)

  -- `value_to_timestamp`
  unfoldable pub value_to_timestamp : Value → Result (Option ℤ)
  unfolding parse_datetime_parts
  value_to_timestamp null = ok none
  value_to_timestamp (date year month day hour minute second) =
      parse_datetime_parts year month day hour minute second
  value_to_timestamp (bytes s) = elim (from_utf8 s) [
    | none ↦ err database_unavailable
    | some text ↦ timestamp_or_none text
  ]
  value_to_timestamp _ = err database_unavailable

  abbrev and_field : {A B : Type 0} → Result A → (A → Result B) → Result B
  and_field (err e) next = err e
  and_field (ok a) next = next a

  -- `record_from_values`
  unfoldable pub record_from_values : List Value → Result Record
  record_from_values (r ∷ wl ∷ r_in ∷ r_up ∷ wl_in ∷ wl_up ∷ []) =
      and_field (value_to_i64 r) λ r_count. and_field (value_to_i64 wl) λ wl_count.
        and_field (value_to_timestamp r_in) λ r_entered.
          and_field (value_to_timestamp r_up) λ r_updated.
            and_field (value_to_timestamp wl_in) λ wl_entered.
              and_field (value_to_timestamp wl_up) λ wl_updated. ok (record {
                r_count = or_default (pos 0) r_count;
                wl_count = or_default (pos 0) wl_count;
                r_entered = r_entered;
                r_updated = r_updated;
                wl_entered = wl_entered;
                wl_updated = wl_updated;
              })
  record_from_values _ = err database_unavailable

  -- `mysql_datetime_value`
  unfoldable pub mysql_datetime_value : Option ℤ → Value
  mysql_datetime_value none = null
  mysql_datetime_value (some t) = bytes (as_bytes (format_timestamp tz t))

  -- the values of `execute_set_record`
  unfoldable pub native_set_values : Text → Record → List Value
  native_set_values digest r =
      let fields =
        int r.r_count
        ∷ int r.wl_count
        ∷ mysql_datetime_value r.r_entered
        ∷ mysql_datetime_value r.r_updated
        ∷ mysql_datetime_value r.wl_entered
        ∷ mysql_datetime_value r.wl_updated
        ∷ [] in
      bytes (as_bytes digest) ∷ (fields ++ fields)

-- where the pool connects to
pub data Endpoint : Type 0 where
  socket host : Text → Endpoint
  default_endpoint : Endpoint

-- the options that the source sets; those of the pool's size where it asks for one
pub record Opts : Type 0 where
  pub user : Option Text
  pub pass : Option Text
  pub db_name : Option Text
  pub endpoint : Endpoint
  pub constraints : Option (ℕ × ℕ)

-- `non_empty`
abbrev pub non_empty : Text → Option Text
non_empty value = if is_empty value then none else some value

abbrev endpoint_of : Text → Endpoint
endpoint_of host_name =
    if starts_with (codes "/") host_name
    then socket host_name
    else if is_empty host_name
    then default_endpoint
    else host host_name

-- `opts_from_dsn_with_db_connections`
unfoldable pub opts_from_dsn : MySqlDsn → ℕ → Opts
opts_from_dsn dsn db_connections = record {
  user = non_empty dsn.user;
  pass = non_empty dsn.password;
  db_name = non_empty dsn.database;
  endpoint = endpoint_of dsn.host;
  constraints = if ltb 0 db_connections then some (db_connections, db_connections) else none;
}

-- The calls of the crate: `none` and `false` are its errors.
pub record Pool (S : Type 0) : Type 0 where
  pub new_pool : Opts → S → Bool × S
  pub get_conn : S → Bool × S
  pub query_drop : Text → S → Bool × S
  pub exec_first : Text → List Value → S → Option (Option (List Value)) × S
  pub exec_batch : Text → List (List Value) → S → Bool × S
  pub exec_drop : Text → List Value → S → Bool × S

module _ {S : Type 0} (tz : TimeZone) (pool : Pool S) where
  abbrev mysql_result : Bool × S → Result (Unit {0}) × S
  mysql_result (true, s) = (ok tt, s)
  mysql_result (false, s) = (err database_unavailable, s)

  abbrev conn : S → Result (Unit {0}) × S
  conn s = mysql_result (pool.get_conn s)

  abbrev row_of : Option (Option (List Value)) × S → Result (Option Record) × S
  row_of (none, s) = (err database_unavailable, s)
  row_of (some none, s) = (ok none, s)
  row_of (some (some values), s) =
      (elim (record_from_values tz values) [ err e ↦ err e | ok r ↦ ok (some r) ], s)

  abbrev digest_values : List Text → List (List Value)
  digest_values [] = []
  digest_values (digest ∷ digests) = (bytes (as_bytes digest) ∷ []) ∷ digest_values digests

  abbrev batch : Text → List Text → S → Result (Unit {0}) × S
  batch statement [] = give (ok tt)
  batch statement (digest ∷ digests) = do
    connected ← conn
    λ s. mysql_result (pool.exec_batch statement (digest_values (digest ∷ digests)) s)

  -- `impl MySqlExecutor for MySqlNativeExecutor`
  unfoldable pub native_executor : MySqlExecutor S
  native_executor = record {
    fetch_record = λ statement digest.
        conn >>= λ connected s. row_of (pool.exec_first statement (bytes (as_bytes digest) ∷ []) s);
    execute_digest_batch = batch;
    execute_set_record = λ statement digest r. conn >>= λ connected s.
        mysql_result (pool.exec_drop statement (native_set_values tz digest r) s);
  }

  -- `execute_delete_before`
  unfoldable pub execute_delete_before : Text → ℤ → S → Result (Unit {0}) × S
  execute_delete_before statement cutoff = conn >>= λ connected s. mysql_result (
      pool.exec_drop (mysql_prepared_placeholders statement)
        (mysql_datetime_value tz (some cutoff) ∷ []) s)

  abbrev clean_up : Text → ℤ → Option ℤ → S → Result (Unit {0}) × S
  clean_up table now none = give (ok tt)
  clean_up table now (some (pos zero)) = give (ok tt)
  clean_up table now (some age) =
      execute_delete_before (reorganize_statement table) (sub_i64 now age)

  -- `ping`, behind the making of the pool in `new_with_db_connections`
  unfoldable pub new_with_db_connections : MySqlDsn → ℕ → S → Result (Unit {0}) × S
  new_with_db_connections dsn db_connections = do
    made ← λ s. mysql_result (pool.new_pool (opts_from_dsn dsn db_connections) s)
    connected ← conn
    λ s. mysql_result (pool.query_drop (codes "SELECT 1") s)

  -- `connect_with_max_age_and_db_connections`
  unfoldable pub native_connect : Text → Option ℤ → ℕ → ℤ → S → Result MySqlDsn × S
  native_connect value max_age db_connections now = do
    dsn ← give (parse_dsn value)
    made ← new_with_db_connections dsn db_connections
    cleaned ← clean_up dsn.table now max_age
    give (ok dsn)
