-- ===== src/Tests/Formats.antt =====
-- Records and times that are written and read.
use ruzor.Prelude.{◌≡◌, refl, none, some, arith}
use ruzor.Prelude.Int.{ℤ, pos, negsuc, ◌+ℤ◌}
use ruzor.Text.{codes}
use ruzor.Text.Decimal.{nat_to_string}
use ruzor.LocalTime.{
  TimeZone, format_timestamp, parse_datetime, utc_components, civil_seconds, print_components,
  padded, times, days_from_civil,
}
use ruzor.LocalTime.RoundTrip.{civil, InCalendar, parse_datetime-format_timestamp}
use ruzor.Engines.{Record}
use ruzor.Engines.Formats.{
  encode_record, decode_record, redis_v0_encode_record, redis_v0_decode_record,
  redis_v1_encode_record, redis_v1_decode_record,
}
use ruzor.Engines.Formats.RoundTrip.{
  Survives, RecordSurvives, decode_record-encode_record, redis_v0_decode_record-encode_record,
}
use ruzor.Engines.Formats.Fields.{FieldsSurvive, redis_v1_decode_record-encode_record}

-- Greenwich
abbrev pub utc : TimeZone
utc = record { localtime = λ t. some (utc_components t); mktime = civil_seconds }

abbrev moment : ℤ
moment = pos 1381219396

moment_local : utc.localtime moment ≡ some (civil 2013 10 8 8 3 16)
unfolding utc_components
moment_local = refl

moment_back : utc.mktime (civil 2013 10 8 8 3 16) ≡ moment
unfolding civil_seconds ◌+ℤ◌ times days_from_civil
moment_back = refl

moment_calendar : InCalendar 2013 10 8 8 3 16
moment_calendar = record {
  year_fits = omega arith;
  month_low = omega arith;
  month_high = omega arith;
  day_high = omega arith;
  hour_high = omega arith;
  minute_high = omega arith;
  second_high = omega arith;
}

parse_datetime-format_timestamp_example :
    parse_datetime utc (format_timestamp utc moment) ≡ some moment
parse_datetime-format_timestamp_example =
    parse_datetime-format_timestamp utc 2013 10 8 8 3 16 moment_calendar moment moment_local
      moment_back

moment_printed : format_timestamp utc moment ≡ codes "2013-10-08 08:03:16"
unfolding format_timestamp utc_components print_components padded nat_to_string
moment_printed = refl

moment-Survives : Survives utc moment
moment-Survives = record {
  date = codes "2013-10-08";
  time = codes "08:03:16";
  printed = moment_printed;
  date_space = omega arith;
  no_comma = rw (moment_printed) (omega arith);
  parsed = parse_datetime-format_timestamp_example;
}

abbrev pub stored : Record
stored = record {
  r_count = pos 7;
  wl_count = negsuc 1;
  r_entered = some moment;
  r_updated = some moment;
  wl_entered = none;
  wl_updated = none;
}

stored_survives : RecordSurvives utc stored
stored_survives = record {
  r_count_fits = omega arith;
  wl_count_fits = omega arith;
  r_entered_survives = moment-Survives;
  r_updated_survives = moment-Survives;
  wl_entered_survives = tt;
  wl_updated_survives = tt;
}

decode_record-encode_record_example : decode_record utc (encode_record utc stored) ≡ some stored
decode_record-encode_record_example = decode_record-encode_record utc stored stored_survives

redis_v0_decode_record-encode_record_example :
    redis_v0_decode_record utc (redis_v0_encode_record utc stored) ≡ some stored
redis_v0_decode_record-encode_record_example =
    redis_v0_decode_record-encode_record utc stored stored_survives

stored_fields : FieldsSurvive stored
stored_fields = record {
  r_count_fits = omega arith;
  wl_count_fits = omega arith;
  r_entered_survives = (omega arith, λ h. ground arith);
  r_updated_survives = (omega arith, λ h. ground arith);
  wl_entered_survives = tt;
  wl_updated_survives = tt;
}

redis_v1_decode_record-encode_record_example :
    redis_v1_decode_record utc (redis_v1_encode_record stored) ≡ stored
redis_v1_decode_record-encode_record_example =
    redis_v1_decode_record-encode_record utc stored stored_fields
