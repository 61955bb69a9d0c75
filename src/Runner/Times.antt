-- ===== src/Runner/Times.antt =====
-- src/bin/ruzor.rs: the values that the info command prints. `localtime` stands for localtime_r, with the
-- fields that are read.
use ruzor.Prelude.{
  zero, ◌-◌, ◌≡◌, refl, Bool, true, false, ◌||◌, Option, none, some, List, [], ◌∷◌, ◌++◌, replicate,
  length, get_elem?,
}
use ruzor.Prelude.Int.{ℤ, pos, negsuc, ◌+ℤ◌, ◌-ℤ◌}
use ruzor.Text.{Text, codes, starts_with}
use ruzor.Text.Decimal.{int_to_string, parse_i64}
use ruzor.Message.{or_default}
use ruzor.LocalTime.{utc_components, padded, rem_euclid, div_euclid}

-- the fields of `Tm` that `ctime_python` reads
pub record Tm : Type 0 where
  pub tm_sec : ℤ
  pub tm_min : ℤ
  pub tm_hour : ℤ
  pub tm_mday : ℤ
  pub tm_mon : ℤ
  pub tm_year : ℤ
  pub tm_wday : ℤ

abbrev months : List Text
months =
    codes "Jan"
    ∷ codes "Feb"
    ∷ codes "Mar"
    ∷ codes "Apr"
    ∷ codes "May"
    ∷ codes "Jun"
    ∷ codes "Jul"
    ∷ codes "Aug"
    ∷ codes "Sep"
    ∷ codes "Oct"
    ∷ codes "Nov"
    ∷ codes "Dec"
    ∷ []

-- `names.get(i as usize).unwrap_or(&"???")`: a negative number is out of range
abbrev name_at : List Text → ℤ → Text
name_at names (pos i) = or_default (codes "???") (get_elem? names i)
name_at names (negsuc i) = codes "???"

-- `{:>2}`
abbrev right_aligned : Text → Text
right_aligned s = replicate (2 - length s) b' ' ++ s

-- `{} {} {:>2} {:02}:{:02}:{:02} {}`
ctime_line : Text → Text → ℤ → ℤ → ℤ → ℤ → ℤ → Text
ctime_line weekday month day hour minute second year =
    weekday
    ++ (b' '
        ∷ (month
            ++ (b' '
                ∷ (right_aligned (int_to_string day)
                    ++ (b' '
                        ∷ (padded 2 hour
                            ++ (b':'
                                ∷ (padded 2 minute
                                    ++ (b':'
                                        ∷ (padded 2 second ++ (b' ' ∷ int_to_string year)))))))))))

-- `ctime_utc`, with `unix_to_utc`: the epoch was a Thursday
unfoldable pub ctime_utc : ℤ → Text
unfolding ctime_line
ctime_utc timestamp =
    let c = utc_components timestamp in
    let weekdays =
      codes "Thu"
      ∷ codes "Fri"
      ∷ codes "Sat"
      ∷ codes "Sun"
      ∷ codes "Mon"
      ∷ codes "Tue"
      ∷ codes "Wed"
      ∷ [] in
    ctime_line (name_at weekdays (pos (rem_euclid (div_euclid timestamp 86400) 7)))
      (name_at months (c.month -ℤ pos 1)) c.day c.hour c.minute c.second c.year

module _ (localtime : ℤ → Option Tm) where
  abbrev ctime_local : Option Tm → ℤ → Text
  ctime_local none timestamp = ctime_utc timestamp
  ctime_local (some tm) timestamp =
      let weekdays =
        codes "Sun"
        ∷ codes "Mon"
        ∷ codes "Tue"
        ∷ codes "Wed"
        ∷ codes "Thu"
        ∷ codes "Fri"
        ∷ codes "Sat"
        ∷ [] in
      ctime_line (name_at weekdays tm.tm_wday) (name_at months tm.tm_mon) tm.tm_mday tm.tm_hour
        tm.tm_min tm.tm_sec (tm.tm_year +ℤ pos 1900)

  -- `ctime_python`
  unfoldable pub ctime_python : ℤ → Text
  unfolding ctime_line
  ctime_python timestamp = ctime_local (localtime timestamp) timestamp

  -- `key.contains("Count")`
  has_count : Text → Bool
  has_count [] = false
  has_count (c ∷ s) = starts_with (codes "Count") (c ∷ s) || has_count s

  abbrev info_text : Bool → ℤ → Text
  info_text true value = int_to_string value
  info_text false (negsuc zero) = codes "Never"
  info_text false value = ctime_python value

  -- `format_info_value`
  unfoldable pub format_info_value : Text → Text → Text
  unfolding has_count
  format_info_value key value = info_text (has_count key) (or_default (pos 0) (parse_i64 value))

ctime_test : ctime_utc (pos 1400221786) ≡ codes "Fri May 16 06:29:46 2014"
unfolding ctime_utc rem_euclid div_euclid ◌-ℤ◌ utc_components int_to_string padded
ctime_test = refl
