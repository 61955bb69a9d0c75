-- ===== src/MySql/Cli/Statements.antt =====
-- Every statement that the database of src/mysql_engine.rs runs has as many places as it is given
-- values.
use ruzor.Prelude.{◌≡◌, refl, List, [], ◌∷◌, ◌++◌}
use ruzor.Text.{Text, codes, join}
use ruzor.Text.Decimal.{int_to_string}
use ruzor.Error.{Result, ok}
use ruzor.LocalTime.{TimeZone}
use ruzor.Engines.{Record}
use ruzor.MySql.{
  mysql_prepared_placeholders, select_record, report_statement, whitelist_statement, set_statement,
}
use ruzor.MySql.Cli.{
  SqlValue, text, date_time, to_sql, bind_statement, set_values, quote_sql_string,
}
use ruzor.MySql.Cli.Bind.{IsTable, lacks, fill, bound_lem}

-- pieces that alternate with values
abbrev alternate : Text → List Text → List Text → Text
alternate p (q ∷ ps) (v ∷ values) = (p ++ v) ++ alternate q ps values
alternate p _ _ = p

-- the values of a record's columns, and the pieces before, between and behind them
abbrev record_values : TimeZone → Record → List Text
record_values tz r =
    int_to_string r.r_count
    ∷ int_to_string r.wl_count
    ∷ to_sql tz (date_time r.r_entered)
    ∷ to_sql tz (date_time r.r_updated)
    ∷ to_sql tz (date_time r.wl_entered)
    ∷ to_sql tz (date_time r.wl_updated)
    ∷ []

abbrev set_columns : List Text
set_columns =
    codes ", "
    ∷ codes ", "
    ∷ codes ", "
    ∷ codes ", "
    ∷ codes ", "
    ∷ codes ", "
    ∷ codes ") ON DUPLICATE KEY UPDATE r_count="
    ∷ codes ", wl_count="
    ∷ codes ", r_entered="
    ∷ codes ", r_updated="
    ∷ codes ", wl_entered="
    ∷ codes ", wl_updated="
    ∷ []
    ∷ []

abbrev columns_of_select : Text
columns_of_select =
    codes "SELECT r_count, wl_count, r_entered, r_updated, wl_entered, wl_updated FROM "

abbrev counted : Text
counted =
    codes
      ", 1, 0, NOW(), NOW(), NOW(), NOW()) ON DUPLICATE KEY UPDATE r_count=r_count+1, r_updated=NOW()"

abbrev counted_wl : Text
counted_wl =
    codes
      ", 0, 1, NOW(), NOW(), NOW(), NOW()) ON DUPLICATE KEY UPDATE wl_count=wl_count+1, wl_updated=NOW()"

abbrev insert_into : Text → Text
insert_into table =
    codes "INSERT INTO "
    ++ (table
        ++ codes
            " (digest, r_count, wl_count, r_entered, r_updated, wl_entered, wl_updated) VALUES (")

module _ (tz : TimeZone) (table digest : Text) where
  abbrev bound : Text → List SqlValue → Result Text
  bound statement values = bind_statement tz (mysql_prepared_placeholders statement) values

  select_bound :
      IsTable table
      → bound (select_record table) (text digest ∷ [])
        ≡ ok (
            alternate
              (columns_of_select ++ (table ++ codes " WHERE digest="))
              ([] ∷ [])
              (quote_sql_string digest ∷ []))
  unfolding mysql_prepared_placeholders select_record fill lacks join quote_sql_string to_sql
  select_bound h =
      bound_lem tz columns_of_select table (codes " WHERE digest=") (codes " WHERE digest=%s")
        ([] ∷ []) (text digest ∷ []) h refl refl

  report_bound :
      IsTable table
      → bound (report_statement table) (text digest ∷ [])
        ≡ ok (alternate (insert_into table) (counted ∷ []) (quote_sql_string digest ∷ []))
  unfolding mysql_prepared_placeholders report_statement fill lacks join quote_sql_string to_sql
  report_bound h =
      bound_lem tz (codes "INSERT INTO ") table _
        (codes
            " (digest, r_count, wl_count, r_entered, r_updated, wl_entered, wl_updated) VALUES (%s"
          ++ counted)
        (counted ∷ []) (text digest ∷ []) h refl refl

  whitelist_bound :
      IsTable table
      → bound (whitelist_statement table) (text digest ∷ [])
        ≡ ok (alternate (insert_into table) (counted_wl ∷ []) (quote_sql_string digest ∷ []))
  unfolding mysql_prepared_placeholders whitelist_statement fill lacks join quote_sql_string to_sql
  whitelist_bound h =
      bound_lem tz (codes "INSERT INTO ") table _
        (codes
            " (digest, r_count, wl_count, r_entered, r_updated, wl_entered, wl_updated) VALUES (%s"
          ++ counted_wl)
        (counted_wl ∷ []) (text digest ∷ []) h refl refl

  set_bound :
      (r : Record)
      → IsTable table
      → bound (set_statement table) (set_values tz digest r)
        ≡ ok (
            alternate
              (insert_into table)
              set_columns
              (quote_sql_string digest ∷ (record_values tz r ++ record_values tz r)))
  unfolding mysql_prepared_placeholders set_statement fill lacks join quote_sql_string to_sql
      set_values
  set_bound r h =
      bound_lem tz (codes "INSERT INTO ") table _
        (codes
          " (digest, r_count, wl_count, r_entered, r_updated, wl_entered, wl_updated) VALUES (%s, %s, %s, %s, %s, %s, %s) ON DUPLICATE KEY UPDATE r_count=%s, wl_count=%s, r_entered=%s, r_updated=%s, wl_entered=%s, wl_updated=%s")
        set_columns (set_values tz digest r) h refl refl

-- Each statement of the database is bound without an error, and each value stands, quoted where it is
-- text, at its column's place.
pub StatementsBound : TimeZone → Text → Text → Record → Type 0
StatementsBound tz table digest r =
    (bound tz table digest (select_record table) (text digest ∷ [])
      ≡ ok (
          alternate (columns_of_select ++ (table ++ codes " WHERE digest=")) ([] ∷ [])
            (quote_sql_string digest ∷ [])))
    × (bound tz table digest (report_statement table) (text digest ∷ [])
        ≡ ok (alternate (insert_into table) (counted ∷ []) (quote_sql_string digest ∷ [])))
    × (bound tz table digest (whitelist_statement table) (text digest ∷ [])
        ≡ ok (alternate (insert_into table) (counted_wl ∷ []) (quote_sql_string digest ∷ [])))
    × (bound tz table digest (set_statement table) (set_values tz digest r)
        ≡ ok (
            alternate (insert_into table) set_columns
              (quote_sql_string digest ∷ (record_values tz r ++ record_values tz r))))

-- Where the name of the table has neither `?` nor `%`, whatever the digest and the record: the four
-- statements of the database are bound without an error, and each value stands, quoted where it is
-- text, at its column's place.
pub statements_bound :
    (tz : TimeZone) (table digest : Text) (r : Record)
    → IsTable table
    → StatementsBound tz table digest r
unfolding StatementsBound
statements_bound tz table digest r h = (
  select_bound tz table digest h,
  report_bound tz table digest h,
  whitelist_bound tz table digest h,
  set_bound tz table digest r h,
)
