-- ===== src/LocalTime.antt =====
-- src/local_time.rs, as built on Unix: `localtime` and `mktime` stand for the C library's
-- `localtime_r` and `mktime` in the time zone of the process.
pub mod RoundTrip
use ruzor.Prelude.{
  ℕ, zero, suc, ◌+◌, ◌-◌, ◌*◌, ◌/◌, ◌%◌, ◌^◌, ◌≤◌, ◌<◌, ◌≡◌, refl, Bool, true, false, ◌&&◌, Option,
  none, some, List, [], ◌∷◌, ◌++◌, ltb, leb, if◌then◌else◌, length, replicate,
}
use ruzor.Prelude.Int.{ℤ, pos, negsuc, ◌+ℤ◌, ◌-ℤ◌, ltb_ℤ, leb_ℤ}
use ruzor.Text.{Text, codes, split, split_once}
use ruzor.Text.Decimal.{nat_to_string, parse_i64, neg}

-- A broken-down time, with the month from 1 and the year in full.
pub record Components : Type 0 where
  pub year : ℤ
  pub month : ℤ
  pub day : ℤ
  pub hour : ℤ
  pub minute : ℤ
  pub second : ℤ

pub record TimeZone : Type 0 where
  pub localtime : ℤ → Option Components
  pub mktime : Components → ℤ

-- `/` and `%` by a positive number: they round towards 0
unfoldable pub quotient : ℤ → ℕ → ℤ
quotient (pos n) k = pos (n / k)
quotient (negsuc n) k = neg (suc n / k)

unfoldable pub times : ℕ → ℤ → ℤ
times k (pos n) = pos (k * n)
times k (negsuc n) = neg (k * suc n)

-- `civil_from_days`
unfoldable pub civil_from_days : ℤ → ℤ × ℤ × ℤ
unfolding quotient times ◌+ℤ◌ ◌-ℤ◌
civil_from_days days =
    let z = days +ℤ pos 719468 in
    let era = quotient (if leb_ℤ (pos 0) z then z else z -ℤ pos 146096) 146097 in
    let doe = z -ℤ times 146097 era in
    let yoe =
      quotient (doe -ℤ quotient doe 1460 +ℤ quotient doe 36524 -ℤ quotient doe 146096) 365 in
    let y = yoe +ℤ times 400 era in
    let doy = doe -ℤ (times 365 yoe +ℤ quotient yoe 4 -ℤ quotient yoe 100) in
    let mp = quotient (times 5 doy +ℤ pos 2) 153 in
    let d = doy -ℤ quotient (times 153 mp +ℤ pos 2) 5 +ℤ pos 1 in
    let m = if ltb_ℤ mp (pos 10) then mp +ℤ pos 3 else mp -ℤ pos 9 in
    (if leb_ℤ m (pos 2) then y +ℤ pos 1 else y, m, d)

-- `days_from_civil`
unfoldable pub days_from_civil : ℤ → ℤ → ℤ → ℤ
unfolding quotient times ◌+ℤ◌ ◌-ℤ◌
days_from_civil year month day =
    let y = if leb_ℤ month (pos 2) then year -ℤ pos 1 else year in
    let era = quotient (if leb_ℤ (pos 0) y then y else y -ℤ pos 399) 400 in
    let yoe = y -ℤ times 400 era in
    let month_prime = if ltb_ℤ (pos 2) month then month -ℤ pos 3 else month +ℤ pos 9 in
    let doy = quotient (times 153 month_prime +ℤ pos 2) 5 +ℤ day -ℤ pos 1 in
    let doe = times 365 yoe +ℤ quotient yoe 4 -ℤ quotient yoe 100 +ℤ doy in
    times 146097 era +ℤ doe -ℤ pos 719468

-- `div_euclid` and `rem_euclid` by a positive number
unfoldable pub div_euclid : ℤ → ℕ → ℤ
div_euclid (pos n) k = pos (n / k)
div_euclid (negsuc n) k = negsuc (n / k)

unfoldable pub rem_euclid : ℤ → ℕ → ℕ
rem_euclid (pos n) k = n % k
rem_euclid (negsuc n) k = k - 1 - n % k

-- `utc_components`
unfoldable pub utc_components : ℤ → Components
unfolding civil_from_days div_euclid rem_euclid
utc_components timestamp =
    let (year, month, day) = civil_from_days (div_euclid timestamp 86400) in
    let seconds = rem_euclid timestamp 86400 in
    record {
      year = year;
      month = month;
      day = day;
      hour = pos (seconds / 3600);
      minute = pos (seconds % 3600 / 60);
      second = pos (seconds % 60);
    }

-- `{:0w}`: zeros between the sign and the digits, up to the width
unfoldable pub padded : ℕ → ℤ → Text
padded w (pos n) = let s = nat_to_string n in replicate (w - length s) b'0' ++ s
padded w (negsuc n) =
    let s = nat_to_string (suc n) in b'-' ∷ (replicate (w - 1 - length s) b'0' ++ s)

-- `{year:04}-{month:02}-{day:02} {hour:02}:{minute:02}:{second:02}`
unfoldable pub print_components : Components → Text
print_components c =
    padded 4 c.year
    ++ (b'-'
        ∷ (padded 2 c.month
            ++ (b'-'
                ∷ (padded 2 c.day
                    ++ (b' '
                        ∷ (padded 2 c.hour
                            ++ (b':' ∷ (padded 2 c.minute ++ (b':' ∷ padded 2 c.second)))))))))

-- `try_into` from i64 to c_int
fits_i32 : ℤ → Bool
fits_i32 (pos n) = ltb n (2 ^ 31)
fits_i32 (negsuc n) = ltb n (2 ^ 31)

-- `local_timestamp`
unfoldable pub local_timestamp : TimeZone → Components → Option ℤ
unfolding fits_i32 ◌-ℤ◌
local_timestamp tz c =
    if fits_i32 c.second
      && fits_i32 c.minute
      && fits_i32 c.hour
      && fits_i32 c.day
      && fits_i32 (c.month -ℤ pos 1)
      && fits_i32 (c.year -ℤ pos 1900)
    then some (tz.mktime c)
    else none

abbrev or_utc : Option Components → ℤ → Components
or_utc none timestamp = utc_components timestamp
or_utc (some c) timestamp = c

-- `format_timestamp`
unfoldable pub format_timestamp : TimeZone → ℤ → Text
format_timestamp tz timestamp = print_components (or_utc (tz.localtime timestamp) timestamp)

infixl 5 ◌>>=◌
abbrev pub ◌>>=◌ {ℓ κ} : {A : Type ℓ} {B : Type κ} → Option A → (A → Option B) → Option B
none >>= f = none
some a >>= f = f a

-- three numbers, and no fourth piece
unfoldable pub three_numbers : List Text → Option (ℤ × ℤ × ℤ)
three_numbers (a ∷ b ∷ c ∷ []) = do
  x ← parse_i64 a
  y ← parse_i64 b
  z ← parse_i64 c
  some (x, y, z)
three_numbers _ = none

-- what stands before the first point
unfoldable pub before_point : Text → Text
before_point s = elim (split_once b'.' s) [ none ↦ s | some (base, _) ↦ base ]

-- the date and time without a time zone, in seconds; dates whose seconds overflow an i64 are out
-- of the model
unfoldable pub civil_seconds : Components → ℤ
civil_seconds c =
    times 86400 (days_from_civil c.year c.month c.day)
    +ℤ times 3600 c.hour
    +ℤ times 60 c.minute
    +ℤ c.second

abbrev or_civil : Option ℤ → Components → Option ℤ
or_civil none c = some (civil_seconds c)
or_civil (some t) c = some t

-- `parse_datetime`
unfoldable pub parse_datetime : TimeZone → Text → Option ℤ
parse_datetime tz value = do
  (date, time) ← split_once b' ' value
  (year, month, day) ← three_numbers (split b'-' date)
  (hour, minute, second) ← three_numbers (split b':' (before_point time))
  let c : Components = record {
    year = year;
    month = month;
    day = day;
    hour = hour;
    minute = minute;
    second = second;
  }
  or_civil (local_timestamp tz c) c

utc_test : print_components (utc_components (pos 1400221786)) ≡ codes "2014-05-16 06:29:46"
unfolding print_components padded utc_components nat_to_string
utc_test = refl

civil_test : days_from_civil (pos 2014) (pos 5) (pos 16) ≡ pos 16206
unfolding days_from_civil
civil_test = refl
