-- ===== src/Engines/Formats/Fields.antt =====
-- The hash fields of Redis v1 in src/engines.rs: a time is a number of seconds, and 0 is no time.
use ruzor.Prelude.{◌≡◌, ◌≢◌, refl, ap, false, Option, none, some, [], ◌∷◌, inl, inr, Bool-cases}
use ruzor.Prelude.Int.{ℤ, pos, InI64}
use ruzor.Text.{Text, codes, eq_text, is_empty}
use ruzor.Text.Decimal.{int_to_string, parse_i64, parse_i64-int_to_string}
use ruzor.Text.Laws.{eq_text_iff}
use ruzor.LocalTime.{TimeZone}
use ruzor.Engines.{Record}
use ruzor.Engines.Formats.{
  decode_time, redis_v1_encode_record, redis_v1_decode_record, redis_v1_time, apply_field,
}

abbrev pub IsSeconds : Option ℤ → Type 0
IsSeconds none = Unit
IsSeconds (some t) = InI64 t × (t ≢ pos 0)

-- The counts are i64, and so are the times, none of which is 0.
pub record FieldsSurvive (r : Record) : Type 0 where
  pub r_count_fits : InI64 r.r_count
  pub wl_count_fits : InI64 r.wl_count
  pub r_entered_survives : IsSeconds r.r_entered
  pub r_updated_survives : IsSeconds r.r_updated
  pub wl_entered_survives : IsSeconds r.wl_entered
  pub wl_updated_survives : IsSeconds r.wl_updated

words :
    (parse_i64 (codes "None") ≡ none)
    × (parse_i64 (codes "0") ≡ some (pos 0))
    × (parse_i64 [] ≡ none)
unfolding parse_i64
words = (refl, refl, refl)

not_none : (s : Text) {t : ℤ} → parse_i64 s ≡ some t → eq_text s (codes "None") ≡ false
not_none s h = elim (Bool-cases (eq_text s (codes "None"))) [
  | inl same ↦ cc (h, ap parse_i64 ((eq_text_iff s (codes "None")).0 same), words.0)
  | inr other ↦ other
]

not_zero : (s : Text) {t : ℤ} → parse_i64 s ≡ some t → t ≢ pos 0 → eq_text s (codes "0") ≡ false
not_zero s {t} h nz = elim (Bool-cases (eq_text s (codes "0"))) [
  | inl same ↦ absurd (nz (cc (h, ap parse_i64 ((eq_text_iff s (codes "0")).0 same), words.1)))
  | inr other ↦ other
]

number-not_empty : (s : Text) {t : ℤ} → parse_i64 s ≡ some t → is_empty s ≡ false
number-not_empty [] h = cc (h, words.2)
number-not_empty (c ∷ s) h = refl

module _ (tz : TimeZone) where
  decode_time-number :
      (s : Text) (t : ℤ) → parse_i64 s ≡ some t → t ≢ pos 0 → decode_time tz s ≡ some t
  decode_time-number s t h nz =
      unfold decode_time in
      rw (not_none s h) (rw (not_zero s h nz) (rw (number-not_empty s h) (rw h)))

  decode_time-seconds :
      (t : Option ℤ) → IsSeconds t → decode_time tz (int_to_string (redis_v1_time t)) ≡ t
  decode_time-seconds none v = unfold decode_time eq_text int_to_string in refl
  decode_time-seconds (some t) (fits, nz) =
      decode_time-number (int_to_string t) t (parse_i64-int_to_string t fits) nz

  -- The fields of a Redis v1 record give the record back, if its counts and times are i64 and none
  -- of its times is 0.
  pub redis_v1_decode_record-encode_record :
      (r : Record) → FieldsSurvive r → redis_v1_decode_record tz (redis_v1_encode_record r) ≡ r
  unfolding redis_v1_decode_record redis_v1_encode_record apply_field eq_text
  redis_v1_decode_record-encode_record r v = simp (
    parse_i64-int_to_string r.r_count v.r_count_fits,
    parse_i64-int_to_string r.wl_count v.wl_count_fits,
    decode_time-seconds r.r_entered v.r_entered_survives,
    decode_time-seconds r.r_updated v.r_updated_survives,
    decode_time-seconds r.wl_entered v.wl_entered_survives,
    decode_time-seconds r.wl_updated v.wl_updated_survives,
  )
