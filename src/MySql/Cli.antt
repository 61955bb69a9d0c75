-- ===== src/MySql/Cli.antt =====
-- src/mysql_cli.rs: statements are bound to values, run by the command line client, and its rows
-- are parsed. `run` stands for the client, what it did with its arguments, and `utf8_error` for the
-- standard library's text on ill-formed output.
pub mod Quote
pub mod Bind
pub mod Statements
use ruzor.Prelude.{
  ℕ, zero, ◌≡◌, refl, Bool, ◌||◌, Option, none, some, List, [], ◌∷◌, ◌++◌, ◌==◌, if◌then◌else◌,
}
use ruzor.Prelude.Int.{ℤ, pos, sub_i64}
use ruzor.Text.{
  Text, Bytes, codes, eq_text, eq_ignore_ascii_case, split, starts_with, trim, lines, is_empty,
  join,
}
use ruzor.Text.Decimal.{int_to_string, parse_i64}
use ruzor.Text.Utf8.{from_utf8}
use ruzor.Error.{Result, ok, err, ◌>>=◌, ◌>>◌, PyzorError, comm}
use ruzor.Message.{or_default, or_err}
use ruzor.LocalTime.{TimeZone, format_timestamp, parse_datetime}
use ruzor.Engines.{Record}
use ruzor.MySql.{
  MySqlDsn, MySqlExecutor, mysql_prepared_placeholders, parse_dsn, reorganize_statement,
}

abbrev pub database_unavailable : PyzorError
database_unavailable = comm (codes "Database temporarily unavailable.")

abbrev option : Text → Text → List Text
option name value = if is_empty value then [] else (name ++ value) ∷ []

-- `command_args`
unfoldable pub command_args : MySqlDsn → Text → List Text
command_args dsn sql =
    codes "--batch"
    ∷ codes "--raw"
    ∷ codes "--skip-column-names"
    ∷ ((if starts_with (codes "/") dsn.host
          then (codes "--socket=" ++ dsn.host) ∷ []
          else option (codes "--host=") dsn.host)
        ++ (option (codes "--user=") dsn.user
            ++ (option (codes "--password=") dsn.password
                ++ (option (codes "--database=") dsn.database ++ codes "--execute" ∷ sql ∷ []))))

-- What `Command::output` comes to.
pub data Run : Type 0 where
  not_started : Text → Run
  failed : Run
  succeeded : Bytes → Run

-- `quote_sql_string`, one character and all
abbrev pub escaped : ℕ → Text
escaped c = b'\\' ∷ c ∷ []

unfoldable pub quote_char : ℕ → Text
quote_char c =
    if c == 0
    then escaped b'0'
    else if c == b'\n'
    then escaped b'n'
    else if c == b'\r'
    then escaped b'r'
    else if c == b'\\' || c == b'\'' || c == b'"'
    then escaped c
    else if c == 26
    then escaped b'Z'
    else c ∷ []

quote_chars : Text → Text
quote_chars [] = b'\'' ∷ []
quote_chars (c ∷ s) = quote_char c ++ quote_chars s

unfoldable pub quote_sql_string : Text → Text
unfolding quote_chars
quote_sql_string value = b'\'' ∷ quote_chars value

pub data SqlValue : Type 0 where
  text : Text → SqlValue
  integer : ℤ → SqlValue
  date_time : Option ℤ → SqlValue

-- the text behind a statement's character, put in front of what follows
abbrev put : Text → Result Text → Result Text
put front rest = do bound ← rest; ok (front ++ bound)

module _ (tz : TimeZone) where
  -- `to_sql`
  unfoldable pub to_sql : SqlValue → Text
  to_sql (text value) = quote_sql_string value
  to_sql (integer value) = int_to_string value
  to_sql (date_time none) = codes "NULL"
  to_sql (date_time (some t)) = quote_sql_string (format_timestamp tz t)

  -- `bind_statement`
  unfoldable pub bind_statement : Text → List SqlValue → Result Text
  bind_statement [] [] = ok []
  bind_statement [] (value ∷ values) = err (comm (codes "Too many MySQL statement parameters."))
  bind_statement (c ∷ statement) [] =
      let rest = put (c ∷ []) (bind_statement statement []) in
      if c == b'?' then err (comm (codes "Missing MySQL statement parameter.")) else rest
  bind_statement (c ∷ statement) (value ∷ values) =
      let bound = put (to_sql value) (bind_statement statement values) in
      let kept = put (c ∷ []) (bind_statement statement (value ∷ values)) in
      if c == b'?' then bound else kept

  -- `is_mysql_null`
  unfoldable pub is_mysql_null : Text → Bool
  is_mysql_null value =
      eq_ignore_ascii_case value (codes "NULL") || eq_text value (codes "\\N") || is_empty value

  -- `parse_nullable_i64`
  unfoldable pub parse_nullable_i64 : Text → Result (Option ℤ)
  parse_nullable_i64 value =
      if is_mysql_null value
      then ok none
      else do n ← or_err (parse_i64 value) database_unavailable; ok (some n)

  -- `parse_mysql_datetime`
  unfoldable pub parse_mysql_datetime : Text → Result (Option ℤ)
  parse_mysql_datetime value =
      if is_mysql_null value
      then ok none
      else do t ← or_err (parse_datetime tz value) database_unavailable; ok (some t)

  unfoldable pub parse_fields : List Text → Result Record
  parse_fields (r ∷ wl ∷ r_in ∷ r_up ∷ wl_in ∷ wl_up ∷ []) = do
    r_count ← parse_nullable_i64 r
    wl_count ← parse_nullable_i64 wl
    r_entered ← parse_mysql_datetime r_in
    r_updated ← parse_mysql_datetime r_up
    wl_entered ← parse_mysql_datetime wl_in
    wl_updated ← parse_mysql_datetime wl_up
    ok (record {
      r_count = or_default (pos 0) r_count;
      wl_count = or_default (pos 0) wl_count;
      r_entered = r_entered;
      r_updated = r_updated;
      wl_entered = wl_entered;
      wl_updated = wl_updated;
    })
  parse_fields _ = err database_unavailable

  -- `parse_record_row`
  unfoldable pub parse_record_row : Text → Result Record
  parse_record_row row = parse_fields (split b'\t' row)

  -- the first line that is not blank, parsed
  unfoldable pub first_row : List Text → Result (Option Record)
  first_row [] = ok none
  first_row (line ∷ rest) =
      let more = first_row rest in
      let row = parse_record_row line >>= λ r. ok (some r) in
      if is_empty (trim line) then more else row

  -- the statements of a batch behind those in `sql`, or the first error
  bind_batch : Text → List Text → Text → Result Text
  bind_batch statement [] sql = ok sql
  bind_batch statement (digest ∷ digests) sql = do
    bound ← bind_statement statement (text digest ∷ [])
    bind_batch statement digests ((if is_empty sql then [] else sql ++ b';' ∷ []) ++ bound)

  -- the values of `execute_set_record`
  unfoldable pub set_values : Text → Record → List SqlValue
  set_values digest r =
      let fields =
        integer r.r_count
        ∷ integer r.wl_count
        ∷ date_time r.r_entered
        ∷ date_time r.r_updated
        ∷ date_time r.wl_entered
        ∷ date_time r.wl_updated
        ∷ [] in
      text digest ∷ (fields ++ fields)

  module _ {S : Type 0} (program : Text) (dsn : MySqlDsn) (run : Text → List Text → S → Run × S)
      (utf8_error : Bytes → Text) where
    abbrev after_run : Run → Result Text
    after_run (not_started error) =
        err (comm (codes "Unable to run mysql client '" ++ (program ++ (codes "': " ++ error))))
    after_run failed = err database_unavailable
    after_run (succeeded output) =
        or_err (from_utf8 output) (comm (codes "Invalid mysql output: " ++ utf8_error output))

    -- `execute_statement`
    unfoldable pub execute_statement : Text → S → Result Text × S
    execute_statement sql s =
        let (ran, s') = run program (command_args dsn sql) s in (after_run ran, s')

    abbrev run_bound : Result Text → S → Result Text × S
    run_bound (ok sql) s = execute_statement sql s
    run_bound (err e) s = (err e, s)

    abbrev run_batch : Result Text → S → Result Text × S
    run_batch (ok []) s = (ok [], s)
    run_batch (ok (c ∷ sql)) s = execute_statement (c ∷ sql) s
    run_batch (err e) s = (err e, s)

    abbrev done : Result Text × S → Result (Unit {0}) × S
    done (output, s) = (output >>= λ text. ok tt, s)

    abbrev fetched_rows : Result Text × S → Result (Option Record) × S
    fetched_rows (output, s) = (output >>= λ text. first_row (lines text), s)

    -- `impl MySqlExecutor for MySqlCommandExecutor`
    unfoldable pub command_executor : MySqlExecutor S
    unfolding bind_batch
    command_executor = record {
      fetch_record = λ statement digest s.
          fetched_rows (run_bound (bind_statement statement (text digest ∷ [])) s);
      execute_digest_batch =
          λ statement digests s. done (run_batch (bind_batch statement digests []) s);
      execute_set_record = λ statement digest r s.
          done (run_bound (bind_statement statement (set_values digest r)) s);
    }

    abbrev then_reorganize : Option ℤ → ℤ → Result Text × S → Result (Unit {0}) × S
    then_reorganize max_age now (err e, s) = (err e, s)
    then_reorganize none now (ok selected, s) = (ok tt, s)
    then_reorganize (some (pos zero)) now (ok selected, s) = (ok tt, s)
    then_reorganize (some age) now (ok selected, s) = done (
        run_bound
          (bind_statement (mysql_prepared_placeholders (reorganize_statement dsn.table))
            (date_time (some (sub_i64 now age)) ∷ []))
          s)

    -- `connect_with_max_age`, for a data source that is parsed
    unfoldable pub connect : Option ℤ → ℤ → S → Result (Unit {0}) × S
    connect max_age now s = then_reorganize max_age now (execute_statement (codes "SELECT 1") s)

bind_test :
    (tz : TimeZone)
    → bind_statement tz
        (codes "VALUES (?, ?, ?)")
        (text (codes "abc'd\\e") ∷ integer (pos 24) ∷ date_time none ∷ [])
      ≡ ok (codes "VALUES ('abc\\'d\\\\e', 24, NULL)")
unfolding bind_statement to_sql quote_sql_string quote_char int_to_string
bind_test tz = refl
