-- ===== src/Engines/Formats.antt =====
-- src/engines.rs: the record formats of gdbm and of Redis, v1 and v0. Texts that `format!` builds
-- around commas are joins here.
pub mod RoundTrip
pub mod Fields
use ruzor.Prelude.{
  ℕ, ◌≡◌, refl, Bool, true, false, ◌||◌, Option, none, some, List, [], ◌∷◌, ◌++◌, if◌then◌else◌,
}
use ruzor.Prelude.Int.{ℤ, pos, negsuc}
use ruzor.Text.{Text, codes, eq_text, split, join, is_empty}
use ruzor.Text.Decimal.{int_to_string, parse_i64}
use ruzor.LocalTime.{TimeZone, format_timestamp, parse_datetime, ◌>>=◌}
use ruzor.Message.{or_default}
use ruzor.Engines.{Record, default_record}

abbrev pub comma : Text
comma = b',' ∷ []

abbrev pub or_parse : Option ℤ → Option ℤ → Option ℤ
or_parse none other = other
or_parse (some t) other = some t

module _ (tz : TimeZone) where
  -- `encode_time`
  unfoldable pub encode_time : Option ℤ → Text
  encode_time none = codes "None"
  encode_time (some t) = format_timestamp tz t

  -- `decode_time`
  unfoldable pub decode_time : Text → Option ℤ
  decode_time value =
      if eq_text value (codes "None") || eq_text value (codes "0") || is_empty value
      then none
      else or_parse (parse_i64 value) (parse_datetime tz value)

  -- `encode_record`
  unfoldable pub encode_record : Record → Text
  encode_record r = join comma (
      codes "1"
      ∷ int_to_string r.r_count
      ∷ encode_time r.r_entered
      ∷ encode_time r.r_updated
      ∷ int_to_string r.wl_count
      ∷ encode_time r.wl_entered
      ∷ encode_time r.wl_updated
      ∷ [])

  unfoldable pub decode_parts : List Text → Option Record
  decode_parts (count ∷ entered ∷ updated ∷ []) = do
    r_count ← parse_i64 count
    some (record default_record {
      r_count = r_count;
      r_entered = decode_time entered;
      r_updated = decode_time updated;
    })
  decode_parts (version ∷ r ∷ r_in ∷ r_up ∷ wl ∷ wl_in ∷ wl_up ∷ []) =
      if eq_text version (codes "1")
      then (do
        r_count ← parse_i64 r
        wl_count ← parse_i64 wl
        some (record {
          r_count = r_count;
          wl_count = wl_count;
          r_entered = decode_time r_in;
          r_updated = decode_time r_up;
          wl_entered = decode_time wl_in;
          wl_updated = decode_time wl_up;
        }))
      else none
  decode_parts _ = none

  -- `decode_record`
  unfoldable pub decode_record : Text → Option Record
  decode_record value = decode_parts (split b',' value)

  -- `redis_v1_decode_record`, for fields in the order of the iteration
  unfoldable pub apply_field : Record → Text → Text → Record
  apply_field r key value =
      if eq_text key (codes "r_count")
      then record r { r_count = or_default (pos 0) (parse_i64 value) }
      else if eq_text key (codes "r_entered")
      then record r { r_entered = decode_time value }
      else if eq_text key (codes "r_updated")
      then record r { r_updated = decode_time value }
      else if eq_text key (codes "wl_count")
      then record r { wl_count = or_default (pos 0) (parse_i64 value) }
      else if eq_text key (codes "wl_entered")
      then record r { wl_entered = decode_time value }
      else if eq_text key (codes "wl_updated")
      then record r { wl_updated = decode_time value }
      else r

  apply_fields : Record → List (Text × Text) → Record
  apply_fields r [] = r
  apply_fields r ((key, value) ∷ fields) = apply_fields (apply_field r key value) fields

  unfoldable pub redis_v1_decode_record : List (Text × Text) → Record
  unfolding apply_fields
  redis_v1_decode_record fields = apply_fields default_record fields

  -- `redis_v0_time` and `redis_v0_encode_record`
  unfoldable pub redis_v0_time : Option ℤ → Text
  redis_v0_time none = []
  redis_v0_time (some t) = format_timestamp tz t

  unfoldable pub redis_v0_encode_record : Record → Text
  redis_v0_encode_record r = join comma (
      int_to_string r.r_count
      ∷ redis_v0_time r.r_entered
      ∷ redis_v0_time r.r_updated
      ∷ int_to_string r.wl_count
      ∷ redis_v0_time r.wl_entered
      ∷ redis_v0_time r.wl_updated
      ∷ [])

  -- `redis_v0_decode_time` and `redis_v0_decode_record`
  unfoldable pub redis_v0_decode_time : Text → Option ℤ
  redis_v0_decode_time [] = none
  redis_v0_decode_time (c ∷ s) = decode_time (c ∷ s)

  unfoldable pub redis_v0_decode_parts : List Text → Option Record
  redis_v0_decode_parts (r ∷ r_in ∷ r_up ∷ wl ∷ wl_in ∷ wl_up ∷ []) = do
    r_count ← parse_i64 r
    wl_count ← parse_i64 wl
    some (record {
      r_count = r_count;
      wl_count = wl_count;
      r_entered = redis_v0_decode_time r_in;
      r_updated = redis_v0_decode_time r_up;
      wl_entered = redis_v0_decode_time wl_in;
      wl_updated = redis_v0_decode_time wl_up;
    })
  redis_v0_decode_parts _ = none

  unfoldable pub redis_v0_decode_record : Text → Option Record
  redis_v0_decode_record value = redis_v0_decode_parts (split b',' value)

-- `redis_v1_time`
abbrev pub redis_v1_time : Option ℤ → ℤ
redis_v1_time t = or_default (pos 0) t

-- `redis_v1_encode_record`
unfoldable pub redis_v1_encode_record : Record → List (Text × Text)
redis_v1_encode_record r =
    (codes "r_count", int_to_string r.r_count)
    ∷ (codes "r_entered", int_to_string (redis_v1_time r.r_entered))
    ∷ (codes "r_updated", int_to_string (redis_v1_time r.r_updated))
    ∷ (codes "wl_count", int_to_string r.wl_count)
    ∷ (codes "wl_entered", int_to_string (redis_v1_time r.wl_entered))
    ∷ (codes "wl_updated", int_to_string (redis_v1_time r.wl_updated))
    ∷ []

-- `redis_v1_key` and `redis_v0_key`
unfoldable pub redis_v1_key : Text → Text
redis_v1_key digest = codes "pyzord.digest_v1" ++ (b'.' ∷ digest)

unfoldable pub redis_v0_key : Text → Text
redis_v0_key digest = codes "pyzord.digest" ++ (b'.' ∷ digest)
