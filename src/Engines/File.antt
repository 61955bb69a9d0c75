-- ===== src/Engines/File.antt =====
-- src/engines.rs: `FileDatabase`, a map that every change writes to its file. `write` stands for the
-- making of the folder and the writing of the file; a write that fails leaves the old text here.
use ruzor.Prelude.{
  ℕ, zero, ◌+◌, ◌≡◌, refl, ap, ◌∙◌, Bool, true, false, ◌&&◌, ◌||◌, Option, none, some, List, [],
  ◌∷◌, ◌++◌, ◌==◌, arith, ltb, if◌then◌else◌,
}
use ruzor.Prelude.Int.{ℤ, pos, leb_ℤ, sub_i64}
use ruzor.Prelude.Assoc.{lookup, insert, lookup-insert}
use ruzor.Text.{Text, eq_text, lines, split_once, join}
use ruzor.Text.Laws.{text_eq, eq_text_iff}
use ruzor.Error.{Result, ok, err}
use ruzor.Message.{or_default}
use ruzor.LocalTime.{TimeZone}
use ruzor.Engines.{Record, DigestDatabase, default_record, r_increment, wl_increment}
use ruzor.Engines.Formats.{encode_record, decode_record}
use ruzor.Engines.Lawful.{IsLawful, changed_each}

abbrev pub Records : Type 0
Records = List (Text × Record)

pub record FileDatabase : Type 0 where
  pub records : Records
  pub disk : Text

-- the order of `sort` on strings, and the sorted rows
le_text : Text → Text → Bool
le_text [] t = true
le_text (c ∷ s) [] = false
le_text (c ∷ s) (d ∷ t) = ltb c d || (c == d && le_text s t)

insert_row : Text → List Text → List Text
insert_row row [] = row ∷ []
insert_row row (x ∷ xs) =
    let rest = insert_row row xs in if le_text row x then row ∷ x ∷ xs else x ∷ rest

pub sort_rows : List Text → List Text
sort_rows [] = []
sort_rows (row ∷ rows) = insert_row row (sort_rows rows)

-- `record.r_updated.map(|updated| updated >= cutoff).unwrap_or(true)`
abbrev is_fresh : ℤ → Option ℤ → Bool
is_fresh cutoff none = true
is_fresh cutoff (some updated) = leb_ℤ cutoff updated

unfoldable pub retain_fresh : ℤ → Records → Records
retain_fresh cutoff [] = []
retain_fresh cutoff ((digest, r) ∷ records) =
    let rest = retain_fresh cutoff records in
    if is_fresh cutoff r.r_updated then (digest, r) ∷ rest else rest

-- `FileDatabase::get`
unfoldable pub get_record : Text → FileDatabase → Record
get_record digest db = or_default default_record (lookup digest db.records)

-- the loops of `report` and `whitelist`, the i-th digest at `now i`
unfoldable pub change_records : (ℤ → Record → Record) → ℕ → (ℕ → ℤ) → List Text → Records → Records
change_records change i now [] records = records
change_records change i now (digest ∷ digests) records =
    let r = or_default default_record (lookup digest records) in
    change_records change (i + 1) now digests (insert digest (change (now i) r) records)

module _ (tz : TimeZone) (write : Text → Result (Unit {0})) where
  rows_of : Records → List Text
  rows_of [] = []
  rows_of ((digest, r) ∷ records) = (digest ++ (b'\t' ∷ encode_record tz r)) ∷ rows_of records

  abbrev written : Text → FileDatabase → Result (Unit {0}) → Result (Unit {0}) × FileDatabase
  written text db (ok done) = (ok done, record db { disk = text })
  written text db (err e) = (err e, db)

  -- `sync`
  unfoldable pub sync : FileDatabase → Result (Unit {0}) × FileDatabase
  unfolding rows_of sort_rows insert_row le_text
  sync db =
      let text = join (b'\n' ∷ []) (sort_rows (rows_of db.records)) in written text db (write text)

  unfoldable pub set_record : Text → Record → FileDatabase → Result (Unit {0}) × FileDatabase
  set_record digest r db = sync (record db { records = insert digest r db.records })

  -- `report` and `whitelist`
  unfoldable pub update_records :
      (ℤ → Record → Record) → (ℕ → ℤ) → List Text → FileDatabase → Result (Unit {0}) × FileDatabase
  update_records change now digests db =
      sync (record db { records = change_records change 0 now digests db.records })

  -- `reorganize`
  unfoldable pub reorganize : ℤ → ℤ → FileDatabase → Result (Unit {0}) × FileDatabase
  reorganize now cleanup_age db =
      sync (record db { records = retain_fresh (sub_i64 now cleanup_age) db.records })

  -- a line of the file
  abbrev load_row : Option (Text × Text) → Records → Records
  load_row none records = records
  load_row (some (digest, encoded)) records = elim (decode_record tz encoded) [
    | none ↦ records
    | some r ↦ insert digest r records
  ]

  load_rows : List Text → Records → Records
  load_rows [] records = records
  load_rows (line ∷ rest) records = load_rows rest (load_row (split_once b'\t' line) records)

  abbrev loaded : Option Text → FileDatabase
  loaded none = record { records = []; disk = [] }
  loaded (some text) = record { records = load_rows (lines text) []; disk = text }

  abbrev cleaned : ℤ → Option ℤ → FileDatabase → Result (Unit {0}) × FileDatabase
  cleaned now none db = (ok tt, db)
  cleaned now (some (pos zero)) db = (ok tt, db)
  cleaned now (some age) db = reorganize now age db

  -- `open_with_cleanup_age`
  pub open_with_cleanup_age : ℤ → Option ℤ → Option Text → Result (Unit {0}) × FileDatabase
  unfolding load_rows
  open_with_cleanup_age now cleanup_age file = cleaned now cleanup_age (loaded file)

  -- `impl DigestDatabase for FileDatabase`
  unfoldable pub file_database : DigestDatabase FileDatabase
  file_database = record {
    get = λ digest db. (ok (get_record digest db), db);
    set = set_record;
    report = update_records r_increment;
    whitelist = update_records wl_increment;
  }

abbrev pub view : FileDatabase → Text → Record
view db digest = get_record digest db

get_record-insert :
    (k j : Text) (r : Record) (records : Records)
    → or_default default_record (lookup j (insert k r records))
      ≡ (if eq_text k j then r else or_default default_record (lookup j records))
get_record-insert k j r records = ground (arith, lookup-insert k j r records)

changed :
    (change : ℤ → Record → Record) (now : ℤ) (k j : Text) (records : Records)
    → or_default default_record
        (lookup j (insert k (change now (or_default default_record (lookup k records))) records))
      ≡ (let r = or_default default_record (lookup j records) in
          if eq_text k j then change now r else r)
changed change now k j records = ground (
  arith,
  get_record-insert k j (change now (or_default default_record (lookup k records))) records,
  eq_text_iff k j,
)

change_records-changed_each :
    (change : ℤ → Record → Record) (i : ℕ) (now : ℕ → ℤ) (digests : List Text) (j : Text)
    (records : Records)
    → or_default default_record (lookup j (change_records change i now digests records))
      ≡ changed_each change j i now digests (or_default default_record (lookup j records))
unfolding change_records
change_records-changed_each change i now [] j records = refl
change_records-changed_each change i now (digest ∷ digests) j records =
    change_records-changed_each change (i + 1) now digests j
      (insert digest (change (now i) (or_default default_record (lookup digest records))) records)
    ∙ ap (changed_each change j (i + 1) now digests) (changed change (now i) digest j records)

module _ (tz : TimeZone) (write : Text → Result (Unit {0}))
    (writable : (text : Text) → write text ≡ ok tt) where
  sync_ok : (db : FileDatabase) → (sync tz write db).0 ≡ ok tt
  unfolding sync
  sync_ok db = rw (writable (join (b'\n' ∷ []) (sort_rows (rows_of tz write db.records))))

  sync_records : (db : FileDatabase) → (sync tz write db).1.records ≡ db.records
  unfolding sync
  sync_records db = rw (writable (join (b'\n' ∷ []) (sort_rows (rows_of tz write db.records))))

  -- While the file can be written, a file database behaves as a map of records: a report changes
  -- the record of each digest once for every time that it is listed.
  pub file_database-IsLawful : IsLawful (file_database tz write) view
  unfolding file_database get_record set_record update_records
  file_database-IsLawful = record {
    get_law = λ k db. refl;
    set_ok = λ k r db. sync_ok _;
    set_view = λ k j r db.
        rw (sync_records (record db { records = insert k r db.records }))
          (get_record-insert k j r db.records);
    report_ok = λ now ks db. sync_ok _;
    report_view = λ now ks j db.
        rw (sync_records (record db { records = change_records r_increment 0 now ks db.records }))
          (change_records-changed_each r_increment 0 now ks j db.records);
    whitelist_ok = λ now ks db. sync_ok _;
    whitelist_view = λ now ks j db.
        rw (sync_records (record db { records = change_records wl_increment 0 now ks db.records }))
          (change_records-changed_each wl_increment 0 now ks j db.records);
  }
