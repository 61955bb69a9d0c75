-- ===== src/MySql.antt =====
-- src/mysql_engine.rs: the data source, the statements, and the database over an executor of
-- statements. `MySql.Cli` has the executor that runs the command line client.
pub mod Cli
pub mod Native
use ruzor.Prelude.{ℕ, ◌≡◌, refl, Option, none, some, List, [], ◌∷◌, ◌++◌}
use ruzor.Prelude.Int.{ℤ}
use ruzor.Text.{Text, codes, split, replace}
use ruzor.Error.{Result, ok, err, comm}
use ruzor.Message.{or_default}
use ruzor.Engines.{Record, DigestDatabase, default_record}

pub record MySqlDsn : Type 0 where
  pub host : Text
  pub user : Text
  pub password : Text
  pub database : Text
  pub table : Text

abbrev five_parts : List Text → Result MySqlDsn
five_parts (host ∷ user ∷ password ∷ database ∷ table ∷ []) =
    ok
      (record { host = host; user = user; password = password; database = database; table = table })
five_parts _ = err (comm (codes "MySQL DSN must be host,user,password,db,table"))

-- `MySqlDsn::parse`
unfoldable pub parse_dsn : Text → Result MySqlDsn
parse_dsn value = five_parts (split b',' value)

-- the methods of `MySqlStatements`, for its table
abbrev pub columns : Text
columns = codes "(digest, r_count, wl_count, r_entered, r_updated, wl_entered, wl_updated)"

unfoldable pub iter_keys : Text → Text
iter_keys table = codes "SELECT digest FROM " ++ table

unfoldable pub iter_items : Text → Text
iter_items table =
    codes "SELECT digest, r_count, wl_count, r_entered, r_updated, wl_entered, wl_updated FROM "
    ++ table

unfoldable pub select_record : Text → Text
select_record table =
    codes "SELECT r_count, wl_count, r_entered, r_updated, wl_entered, wl_updated FROM "
    ++ (table ++ codes " WHERE digest=%s")

unfoldable pub report_statement : Text → Text
report_statement table =
    codes "INSERT INTO "
    ++ (table
        ++ (codes " "
            ++ (columns
                ++ codes
                    " VALUES (%s, 1, 0, NOW(), NOW(), NOW(), NOW()) ON DUPLICATE KEY UPDATE r_count=r_count+1, r_updated=NOW()")))

unfoldable pub whitelist_statement : Text → Text
whitelist_statement table =
    codes "INSERT INTO "
    ++ (table
        ++ (codes " "
            ++ (columns
                ++ codes
                    " VALUES (%s, 0, 1, NOW(), NOW(), NOW(), NOW()) ON DUPLICATE KEY UPDATE wl_count=wl_count+1, wl_updated=NOW()")))

unfoldable pub set_statement : Text → Text
set_statement table =
    codes "INSERT INTO "
    ++ (table
        ++ (codes " "
            ++ (columns
                ++ codes
                    " VALUES (%s, %s, %s, %s, %s, %s, %s) ON DUPLICATE KEY UPDATE r_count=%s, wl_count=%s, r_entered=%s, r_updated=%s, wl_entered=%s, wl_updated=%s")))

unfoldable pub delete_record : Text → Text
delete_record table = codes "DELETE FROM " ++ (table ++ codes " WHERE digest=%s")

unfoldable pub reorganize_statement : Text → Text
reorganize_statement table = codes "DELETE FROM " ++ (table ++ codes " WHERE r_updated<%s")

-- `mysql_prepared_placeholders`
unfoldable pub mysql_prepared_placeholders : Text → Text
unfolding replace
mysql_prepared_placeholders statement = replace (codes "%s") (codes "?") statement

-- the trait: each method also gives the state that it leaves
pub record MySqlExecutor (S : Type 0) : Type 0 where
  pub fetch_record : Text → Text → S → Result (Option Record) × S
  pub execute_digest_batch : Text → List Text → S → Result (Unit {0}) × S
  pub execute_set_record : Text → Text → Record → S → Result (Unit {0}) × S

abbrev or_unknown : {S : Type 0} → Result (Option Record) × S → Result Record × S
or_unknown (ok found, s) = (ok (or_default default_record found), s)
or_unknown (err e, s) = (err e, s)

-- `impl DigestDatabase for MySqlDatabase`; the server's clock is not the program's
unfoldable pub mysql_database : {S : Type 0} → Text → MySqlExecutor S → DigestDatabase S
mysql_database table e = record {
  get = λ digest s.
      or_unknown (e.fetch_record (mysql_prepared_placeholders (select_record table)) digest s);
  set = λ digest r s.
      e.execute_set_record (mysql_prepared_placeholders (set_statement table)) digest r s;
  report = λ now digests s.
      e.execute_digest_batch (mysql_prepared_placeholders (report_statement table)) digests s;
  whitelist = λ now digests s.
      e.execute_digest_batch (mysql_prepared_placeholders (whitelist_statement table)) digests s;
}

placeholders_test :
    mysql_prepared_placeholders (select_record (codes "public"))
    ≡ codes
        "SELECT r_count, wl_count, r_entered, r_updated, wl_entered, wl_updated FROM public WHERE digest=?"
unfolding mysql_prepared_placeholders select_record
placeholders_test = refl
