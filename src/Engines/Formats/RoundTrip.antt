-- ===== src/Engines/Formats/RoundTrip.antt =====
-- The record formats of src/engines.rs read back what they wrote.
use ruzor.Prelude.{
  ◌≡◌, refl, sym, ap, ◌∙◌, false, Option, none, some, List, [], ◌∷◌, ◌++◌, inl, inr, Bool-cases,
  arith, All, Lacks,
}
use ruzor.Prelude.Int.{ℤ, InI64}
use ruzor.Text.{Text, codes, eq_text, split_once, is_empty}
use ruzor.Text.Decimal.{
  int_to_string, parse_i64-int_to_string, parse_i64-other, int_to_string-Lacks,
}
use ruzor.Text.Laws.{split-join, eq_text_iff, eq_text_refl, split_once-append}
use ruzor.LocalTime.{TimeZone, format_timestamp, parse_datetime}
use ruzor.Engines.{Record}
use ruzor.Engines.Formats.{
  encode_time, decode_time, encode_record, decode_record, decode_parts, redis_v0_encode_record,
  redis_v0_decode_record, redis_v0_time, redis_v0_decode_time, redis_v0_decode_parts,
}

-- A time survives in the text formats if it is absent, or its print has a space and no comma and
-- is parsed to it (`LocalTime.RoundTrip` has this for every time in the calendar).
pub record Survives (tz : TimeZone) (t : ℤ) : Type 0 where
  pub date : Text
  pub time : Text
  pub printed : format_timestamp tz t ≡ date ++ (b' ' ∷ time)
  pub date_space : Lacks b' ' date
  pub no_comma : Lacks b',' (format_timestamp tz t)
  pub parsed : parse_datetime tz (format_timestamp tz t) ≡ some t

abbrev pub TimeSurvives : TimeZone → Option ℤ → Type 0
TimeSurvives tz none = Unit
TimeSurvives tz (some t) = Survives tz t

-- The counts are i64 and the times survive.
pub record RecordSurvives (tz : TimeZone) (r : Record) : Type 0 where
  pub r_count_fits : InI64 r.r_count
  pub wl_count_fits : InI64 r.wl_count
  pub r_entered_survives : TimeSurvives tz r.r_entered
  pub r_updated_survives : TimeSurvives tz r.r_updated
  pub wl_entered_survives : TimeSurvives tz r.wl_entered
  pub wl_updated_survives : TimeSurvives tz r.wl_updated

-- A text with a space is not one of the words for "no time".
not_word :
    (date time word : Text)
    → Lacks b' ' date
    → split_once b' ' word ≡ none
    → eq_text (date ++ (b' ' ∷ time)) word ≡ false
not_word date time word h w = elim (Bool-cases (eq_text (date ++ (b' ' ∷ time)) word)) [
  | inl same ↦ cc (
    split_once-append b' ' date time h,
    ap (split_once b' ') ((eq_text_iff (date ++ (b' ' ∷ time)) word).0 same),
    w,
  )
  | inr other ↦ other
]

not_empty : (date time : Text) → is_empty (date ++ (b' ' ∷ time)) ≡ false
not_empty [] time = refl
not_empty (c ∷ s) time = refl

no_space : (split_once b' ' (codes "None") ≡ none) × (split_once b' ' (codes "0") ≡ none)
unfolding split_once
no_space = (refl, refl)

module _ (tz : TimeZone) where
  decode_time-spaced :
      (date time : Text)
      → Lacks b' ' date
      → decode_time tz (date ++ (b' ' ∷ time)) ≡ parse_datetime tz (date ++ (b' ' ∷ time))
  decode_time-spaced date time h =
      unfold decode_time in
      rw (not_word date time (codes "None") h no_space.0) (
        rw (not_word date time (codes "0") h no_space.1) (
          rw (not_empty date time)
            (rw (parse_i64-other b' ' date time (inl (omega arith)) (omega arith) (omega arith)))))

  decode_time-format : (t : ℤ) → Survives tz t → decode_time tz (format_timestamp tz t) ≡ some t
  decode_time-format t v =
      ap (decode_time tz) v.printed
      ∙ decode_time-spaced v.date v.time v.date_space
      ∙ ap (parse_datetime tz) (sym v.printed)
      ∙ v.parsed

  decode_time-encode_time :
      (t : Option ℤ) → TimeSurvives tz t → decode_time tz (encode_time tz t) ≡ t
  decode_time-encode_time none v = unfold encode_time decode_time eq_text in refl
  decode_time-encode_time (some t) v = unfold encode_time in decode_time-format t v

  encode_time-Lacks : (t : Option ℤ) → TimeSurvives tz t → Lacks b',' (encode_time tz t)
  unfolding encode_time
  encode_time-Lacks none v = omega arith
  encode_time-Lacks (some t) v = v.no_comma

  count-Lacks : (z : ℤ) → Lacks b',' (int_to_string z)
  count-Lacks z = int_to_string-Lacks b',' z (inl (omega arith)) (omega arith)

  encoded_parts : Record → List Text
  encoded_parts r =
      codes "1"
      ∷ int_to_string r.r_count
      ∷ encode_time tz r.r_entered
      ∷ encode_time tz r.r_updated
      ∷ int_to_string r.wl_count
      ∷ encode_time tz r.wl_entered
      ∷ encode_time tz r.wl_updated
      ∷ []

  encoded_parts-Lacks : (r : Record) → RecordSurvives tz r → All (Lacks b',') (encoded_parts r)
  unfolding encoded_parts
  encoded_parts-Lacks r v = (
    omega arith,
    (
      count-Lacks r.r_count,
      (
        encode_time-Lacks r.r_entered v.r_entered_survives,
        (
          encode_time-Lacks r.r_updated v.r_updated_survives,
          (
            count-Lacks r.wl_count,
            (
              encode_time-Lacks r.wl_entered v.wl_entered_survives,
              (encode_time-Lacks r.wl_updated v.wl_updated_survives, tt),
            ),
          ),
        ),
      ),
    ),
  )

  decoded_parts : (r : Record) → RecordSurvives tz r → decode_parts tz (encoded_parts r) ≡ some r
  unfolding decode_parts encoded_parts
  decoded_parts r v =
      rw (parse_i64-int_to_string r.r_count v.r_count_fits, eq_text_refl (codes "1"))
        (rw (parse_i64-int_to_string r.wl_count v.wl_count_fits) (
          simp (
            decode_time-encode_time r.r_entered v.r_entered_survives,
            decode_time-encode_time r.r_updated v.r_updated_survives,
            decode_time-encode_time r.wl_entered v.wl_entered_survives,
            decode_time-encode_time r.wl_updated v.wl_updated_survives,
          )))

  parts_of_encoded :
      (r : Record)
      → RecordSurvives tz r
      → decode_record tz (encode_record tz r) ≡ decode_parts tz (encoded_parts r)
  unfolding decode_record encode_record encoded_parts
  parts_of_encoded r v =
      ap (decode_parts tz) (split-join b',' (codes "1") _ (encoded_parts-Lacks r v))

  -- A gdbm record is decoded to the record that was encoded, if its counts are i64 and its times
  -- survive.
  pub decode_record-encode_record :
      (r : Record) → RecordSurvives tz r → decode_record tz (encode_record tz r) ≡ some r
  decode_record-encode_record r v = parts_of_encoded r v ∙ decoded_parts r v

  v0_time-Lacks : (t : Option ℤ) → TimeSurvives tz t → Lacks b',' (redis_v0_time tz t)
  unfolding redis_v0_time
  v0_time-Lacks none v = tt
  v0_time-Lacks (some t) v = v.no_comma

  v0_decode_time-spaced :
      (date time : Text)
      → redis_v0_decode_time tz (date ++ (b' ' ∷ time)) ≡ decode_time tz (date ++ (b' ' ∷ time))
  unfolding redis_v0_decode_time
  v0_decode_time-spaced [] time = refl
  v0_decode_time-spaced (c ∷ s) time = refl

  v0_time_some : (t : ℤ) → redis_v0_time tz (some t) ≡ format_timestamp tz t
  unfolding redis_v0_time
  v0_time_some t = refl

  v0_decode_time-time :
      (t : Option ℤ) → TimeSurvives tz t → redis_v0_decode_time tz (redis_v0_time tz t) ≡ t
  v0_decode_time-time none v = unfold redis_v0_time redis_v0_decode_time in refl
  v0_decode_time-time (some t) v =
      ap (redis_v0_decode_time tz) (v0_time_some t ∙ v.printed)
      ∙ v0_decode_time-spaced v.date v.time
      ∙ ap (decode_time tz) (sym v.printed)
      ∙ decode_time-format t v

  v0_parts : Record → List Text
  v0_parts r =
      redis_v0_time tz r.r_entered
      ∷ redis_v0_time tz r.r_updated
      ∷ int_to_string r.wl_count
      ∷ redis_v0_time tz r.wl_entered
      ∷ redis_v0_time tz r.wl_updated
      ∷ []

  v0_parts-Lacks :
      (r : Record) → RecordSurvives tz r → All (Lacks b',') (int_to_string r.r_count ∷ v0_parts r)
  unfolding v0_parts
  v0_parts-Lacks r v = (
    count-Lacks r.r_count,
    (
      v0_time-Lacks r.r_entered v.r_entered_survives,
      (
        v0_time-Lacks r.r_updated v.r_updated_survives,
        (
          count-Lacks r.wl_count,
          (
            v0_time-Lacks r.wl_entered v.wl_entered_survives,
            (v0_time-Lacks r.wl_updated v.wl_updated_survives, tt),
          ),
        ),
      ),
    ),
  )

  v0_decoded :
      (r : Record)
      → RecordSurvives tz r
      → redis_v0_decode_parts tz (int_to_string r.r_count ∷ v0_parts r) ≡ some r
  unfolding redis_v0_decode_parts v0_parts
  v0_decoded r v = rw (parse_i64-int_to_string r.r_count v.r_count_fits) (
      rw (parse_i64-int_to_string r.wl_count v.wl_count_fits) (
        simp (
          v0_decode_time-time r.r_entered v.r_entered_survives,
          v0_decode_time-time r.r_updated v.r_updated_survives,
          v0_decode_time-time r.wl_entered v.wl_entered_survives,
          v0_decode_time-time r.wl_updated v.wl_updated_survives,
        )))

  v0_parts_of_encoded :
      (r : Record)
      → RecordSurvives tz r
      → redis_v0_decode_record tz (redis_v0_encode_record tz r)
        ≡ redis_v0_decode_parts tz (int_to_string r.r_count ∷ v0_parts r)
  unfolding redis_v0_decode_record redis_v0_encode_record v0_parts
  v0_parts_of_encoded r v =
      ap (redis_v0_decode_parts tz)
        (split-join b',' (int_to_string r.r_count) _ (v0_parts-Lacks r v))

  -- A Redis v0 record is decoded to the record that was encoded, if its counts are i64 and its
  -- times survive.
  pub redis_v0_decode_record-encode_record :
      (r : Record)
      → RecordSurvives tz r
      → redis_v0_decode_record tz (redis_v0_encode_record tz r) ≡ some r
  redis_v0_decode_record-encode_record r v = v0_parts_of_encoded r v ∙ v0_decoded r v
