-- ===== src/LocalTime/RoundTrip.antt =====
-- A time that src/local_time.rs prints is parsed to the same time.
use ruzor.Prelude.{
  ℕ, zero, suc, ◌-◌, ◌^◌, ◌≤◌, ◌<◌, ◌≡◌, ◌≢◌, ap, ◌∙◌, some, ◌⊎◌, inl, inr, ◌∷◌, ◌++◌, append_assoc,
  arith, length, replicate, All, All-append, Lacks,
}
use ruzor.Prelude.Int.{ℤ, pos, i64_max, ◌-ℤ◌}
use ruzor.Text.{Text, split}
use ruzor.Text.Decimal.{
  nat_to_string, parse_i64, parse_i64_zeros, IsDigit, IsDigit-Lacks, nat_to_string-IsDigit,
}
use ruzor.Text.Laws.{split-append, split-end, split_once-append, split_once-none}
use ruzor.LocalTime.{
  Components, TimeZone, padded, print_components, local_timestamp, format_timestamp, parse_datetime,
  three_numbers, before_point,
}

-- The components of a time from the year 0 on.
abbrev pub civil : ℕ → ℕ → ℕ → ℕ → ℕ → ℕ → Components
civil y mo d h mi s = record {
  year = pos y;
  month = pos mo;
  day = pos d;
  hour = pos h;
  minute = pos mi;
  second = pos s;
}

-- The ranges that `localtime_r` documents (a leap second is 60), and a year that fits its `int`.
pub record InCalendar (y mo d h mi s : ℕ) : Type 0 where
  pub year_fits : y < 2 ^ 31
  pub month_low : 1 ≤ mo
  pub month_high : mo ≤ 12
  pub day_high : d ≤ 31
  pub hour_high : h ≤ 23
  pub minute_high : mi ≤ 59
  pub second_high : s ≤ 60

All-replicate : (k : ℕ) → All IsDigit (replicate k b'0')
All-replicate zero = tt
All-replicate (suc k) = ((omega arith, omega arith), All-replicate k)

padded-IsDigit : (w n : ℕ) → All IsDigit (padded w (pos n))
unfolding padded
padded-IsDigit w n =
    All-append IsDigit (replicate (w - length (nat_to_string n)) b'0') (nat_to_string n)
      (All-replicate (w - length (nat_to_string n))) (nat_to_string-IsDigit n)

parse_i64-padded : (w n : ℕ) → n ≤ i64_max → parse_i64 (padded w (pos n)) ≡ some (pos n)
unfolding padded
parse_i64-padded w n h = parse_i64_zeros (w - length (nat_to_string n)) n h

-- three padded numbers between two separators
three_printed :
    (sep w x y z : ℕ)
    → (sep < b'0') ⊎ (b'9' < sep)
    → x ≤ i64_max
    → y ≤ i64_max
    → z ≤ i64_max
    → three_numbers
        (split sep (padded w (pos x) ++ (sep ∷ (padded 2 (pos y) ++ (sep ∷ padded 2 (pos z))))))
      ≡ some (pos x, pos y, pos z)
unfolding three_numbers
three_printed sep w x y z hs hx hy hz =
    rw
      (split-append sep (padded w (pos x)) (padded 2 (pos y) ++ (sep ∷ padded 2 (pos z)))
        (IsDigit-Lacks sep _ hs (padded-IsDigit w x)))
      (rw
        (split-append sep (padded 2 (pos y)) (padded 2 (pos z))
          (IsDigit-Lacks sep _ hs (padded-IsDigit 2 y)))
        (rw (split-end sep (padded 2 (pos z)) (IsDigit-Lacks sep _ hs (padded-IsDigit 2 z)))
          (rw (parse_i64-padded w x hx, parse_i64-padded 2 y hy, parse_i64-padded 2 z hz))))

Lacks-three :
    (b sep w x y z : ℕ)
    → (b < b'0') ⊎ (b'9' < b)
    → sep ≢ b
    → Lacks b (padded w (pos x) ++ (sep ∷ (padded 2 (pos y) ++ (sep ∷ padded 2 (pos z)))))
Lacks-three b sep w x y z hb ne =
    All-append (λ c. c ≢ b) (padded w (pos x))
      (sep ∷ (padded 2 (pos y) ++ (sep ∷ padded 2 (pos z))))
      (IsDigit-Lacks b _ hb (padded-IsDigit w x))
      (
        ne,
        All-append (λ c. c ≢ b) (padded 2 (pos y)) (sep ∷ padded 2 (pos z))
            (IsDigit-Lacks b _ hb (padded-IsDigit 2 y))
            (ne, IsDigit-Lacks b _ hb (padded-IsDigit 2 z)),
      )

module _ (tz : TimeZone) (y mo d h mi s : ℕ) (v : InCalendar y mo d h mi s) where
  abbrev date : Text
  date = padded 4 (pos y) ++ (b'-' ∷ (padded 2 (pos mo) ++ (b'-' ∷ padded 2 (pos d))))

  abbrev time : Text
  time = padded 2 (pos h) ++ (b':' ∷ (padded 2 (pos mi) ++ (b':' ∷ padded 2 (pos s))))

  printed : print_components (civil y mo d h mi s) ≡ date ++ (b' ' ∷ time)
  unfolding print_components
  printed = simp append_assoc

  local_fits : local_timestamp tz (civil y mo d h mi s) ≡ some (tz.mktime (civil y mo d h mi s))
  unfolding local_timestamp ◌-ℤ◌
  local_fits = ground (arith, v.year_fits, v.month_high, v.month_low)

  base_is : before_point time ≡ time
  unfolding before_point
  base_is = rw (
    split_once-none b'.' time (Lacks-three b'.' b':' 2 h mi s (inl (omega arith)) (omega arith)),
    before_point,
  )

  parsed : parse_datetime tz (date ++ (b' ' ∷ time)) ≡ some (tz.mktime (civil y mo d h mi s))
  unfolding parse_datetime
  parsed =
      rw
        (split_once-append b' ' date time
          (Lacks-three b' ' b'-' 4 y mo d (inl (omega arith)) (omega arith)))
        (rw base_is (
          rw
            (three_printed b'-' 4 y mo d (inl (omega arith)) (omega arith) (omega arith)
              (omega arith))
            (rw
              (three_printed b':' 2 h mi s (inr (omega arith)) (omega arith) (omega arith)
                (omega arith))
              (rw local_fits))))

  -- A timestamp whose local time is in the calendar, and which `mktime` takes back to it, is printed
  -- and parsed to itself.
  pub parse_datetime-format_timestamp :
      (timestamp : ℤ)
      → tz.localtime timestamp ≡ some (civil y mo d h mi s)
      → tz.mktime (civil y mo d h mi s) ≡ timestamp
      → parse_datetime tz (format_timestamp tz timestamp) ≡ some timestamp
  parse_datetime-format_timestamp timestamp local back =
      unfold format_timestamp in rw local (rw printed (parsed ∙ ap some back))
