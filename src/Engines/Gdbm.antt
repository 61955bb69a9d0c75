-- ===== src/Engines/Gdbm.antt =====
-- src/gdbm_engine.rs: the database over the gdbm library. The methods of `RawGdbm`, which call the
-- library, are the parameter `raw`, and `gdbm_failure` is its error on a value that is not UTF-8.
use ruzor.Prelude.{zero, Bool, false, Option, none, some, List, [], ◌∷◌, if◌then◌else◌}
use ruzor.Prelude.Int.{ℤ, pos, ltb_ℤ, sub_i64}
use ruzor.Text.{Text, Bytes}
use ruzor.Text.Utf8.{as_bytes, from_utf8}
use ruzor.Error.{Result, ok, err, PyzorError}
use ruzor.Message.{or_default}
use ruzor.Steps.{◌>>=◌, give}
use ruzor.LocalTime.{TimeZone}
use ruzor.Engines.{Record, DigestDatabase, default_record, with_default_methods}
use ruzor.Engines.Formats.{encode_record, decode_record}

pub record RawGdbm (S : Type 0) : Type 0 where
  pub fetch : Bytes → S → Result (Option Bytes) × S
  pub store : Bytes → Bytes → S → Result (Unit {0}) × S
  pub delete : Bytes → S → Result (Unit {0}) × S
  pub keys : S → Result (List Bytes) × S
  pub compact : S → Result (Unit {0}) × S
  pub sync : S → S

module _ {S : Type 0} (tz : TimeZone) (raw : RawGdbm S) (gdbm_failure : Bytes → PyzorError) where
  abbrev decoded : Option Bytes → Result Record
  decoded none = ok default_record
  decoded (some value) = elim (from_utf8 value) [
    | none ↦ err (gdbm_failure value)
    | some text ↦ ok (or_default default_record (decode_record tz text))
  ]

  abbrev synced : Result (Unit {0}) × S → Result (Unit {0}) × S
  synced (err e, s) = (err e, s)
  synced (ok done, s) = (ok done, raw.sync s)

  -- `get`
  gdbm_get : Text → S → Result Record × S
  gdbm_get digest = do value ← raw.fetch (as_bytes digest); give (decoded value)

  -- `set`
  gdbm_set : Text → Record → S → Result (Unit {0}) × S
  gdbm_set digest r s = synced (raw.store (as_bytes digest) (as_bytes (encode_record tz r)) s)

  -- `impl DigestDatabase for GdbmDatabase`, whose `report` and `whitelist` are the trait's
  unfoldable pub gdbm_database : DigestDatabase S
  unfolding gdbm_get gdbm_set
  gdbm_database = with_default_methods gdbm_get gdbm_set

  -- `record.r_updated.map(|updated| updated < cutoff).unwrap_or(false)`
  abbrev is_stale : ℤ → Option ℤ → Bool
  is_stale cutoff none = false
  is_stale cutoff (some updated) = ltb_ℤ updated cutoff

  abbrev delete_stale : ℤ → Bytes → Option Record → S → Result (Unit {0}) × S
  delete_stale cutoff key none = give (ok tt)
  delete_stale cutoff key (some r) =
      if is_stale cutoff r.r_updated then raw.delete key else give (ok tt)

  abbrev clean_value : ℤ → Bytes → Option Bytes → S → Result (Unit {0}) × S
  clean_value cutoff key none = give (ok tt)
  clean_value cutoff key (some value) = elim (from_utf8 value) [
    | none ↦ give (err (gdbm_failure value))
    | some text ↦ delete_stale cutoff key (decode_record tz text)
  ]

  -- the loop over the keys
  clean_keys : ℤ → List Bytes → S → Result (Unit {0}) × S
  clean_keys cutoff [] = give (ok tt)
  clean_keys cutoff (key ∷ keys) = do
    value ← raw.fetch key
    cleaned ← clean_value cutoff key value
    clean_keys cutoff keys

  -- `reorganize`
  unfoldable pub gdbm_reorganize : ℤ → ℤ → S → Result (Unit {0}) × S
  unfolding clean_keys
  gdbm_reorganize now cleanup_age = do
    keys ← raw.keys
    cleaned ← clean_keys (sub_i64 now cleanup_age) keys
    raw.compact

  abbrev reorganize_if : ℤ → Option ℤ → S → Result (Unit {0}) × S
  reorganize_if now none = give (ok tt)
  reorganize_if now (some (pos zero)) = give (ok tt)
  reorganize_if now (some age) = gdbm_reorganize now age

  -- `open_with_cleanup_age`, where `RawGdbm::open` gives the state
  unfoldable pub gdbm_open : ℤ → Option ℤ → Result S → Result S
  gdbm_open now cleanup_age (err e) = err e
  gdbm_open now cleanup_age (ok s) = opened (synced (reorganize_if now cleanup_age s))
    where
      opened : Result (Unit {0}) × S → Result S
      opened (ok done, s) = ok s
      opened (err e, s) = err e
