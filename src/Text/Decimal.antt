-- ===== src/Text/Decimal.antt =====
-- `to_string` and `parse` of the integers, in decimal, as the standard library documents them.
use ruzor.Prelude.{
  ℕ, zero, suc, ◌+◌, ◌-◌, ◌*◌, ◌/◌, ◌%◌, ◌^◌, ◌≤◌, ◌<◌, ◌≡◌, refl, ◌||◌, Option, none, some, List,
  [], ◌∷◌, inl, inr, ◌∙◌, Bool-cases, All, Lacks, ◌⊎◌, ◌≢◌, replicate, ◌++◌, sym, arith, ◌==◌,
  ==_false, ltb, if◌then◌else◌,
}
use ruzor.Prelude.Int.{ℤ, pos, negsuc, InI64, i64_max}

-- The digits of `n` in front of `acc`. The fuel bounds the rounds, and `n + 1` is enough.
digits : ℕ → ℕ → List ℕ → List ℕ
digits zero n acc = acc
digits (suc f) n acc =
    let here = (b'0' + n % 10) ∷ acc in
    let rest = digits f (n / 10) here in if ltb n 10 then here else rest

-- `n.to_string()` of an unsigned integer
unfoldable pub nat_to_string : ℕ → List ℕ
unfolding digits
nat_to_string n = digits (suc n) n []

-- `n.to_string()` of a signed integer
unfoldable pub int_to_string : ℤ → List ℕ
unfolding nat_to_string
int_to_string (pos n) = nat_to_string n
int_to_string (negsuc n) = b'-' ∷ nat_to_string (suc n)

-- The digits in front of nothing, as a number that goes on from `n`; `none` past `limit`.
scan : ℕ → List ℕ → ℕ → Option ℕ
scan limit [] n = some n
scan limit (c ∷ s) n =
    let m = n * 10 + (c - b'0') in
    let rest = scan limit s m in
    if ltb c b'0' || ltb b'9' c then none else if ltb limit m then none else rest

-- The digits of a number, of which there is at least one.
unfoldable pub parse_digits : ℕ → List ℕ → Option ℕ
unfolding scan
parse_digits limit [] = none
parse_digits limit (c ∷ s) = scan limit (c ∷ s) 0

-- `s.parse::<uN>()`, with `limit` for the greatest value: a leading `+` is allowed.
unfoldable pub parse_nat : ℕ → List ℕ → Option ℕ
unfolding parse_digits
parse_nat limit [] = none
parse_nat limit (c ∷ s) = if c == b'+' then parse_digits limit s else parse_digits limit (c ∷ s)

-- -n
abbrev pub neg : ℕ → ℤ
neg zero = pos 0
neg (suc n) = negsuc n

-- `s.parse::<i64>()`
unfoldable pub parse_i64 : List ℕ → Option ℤ
unfolding parse_nat
parse_i64 [] = none
parse_i64 (c ∷ s) =
    if c == b'-'
    then elim (parse_digits (2 ^ 63) s) [ none ↦ none | some n ↦ some (neg n) ]
    else elim (parse_nat (2 ^ 63 - 1) (c ∷ s)) [ none ↦ none | some n ↦ some (pos n) ]

-- reading the digits of `n` gives `n`
scan_last :
    (limit n : ℕ) (acc : List ℕ)
    → n ≤ limit
    → scan limit ((b'0' + n % 10) ∷ acc) (n / 10) ≡ scan limit acc n
unfolding scan
scan_last limit n acc h = ground arith

scan_first :
    (limit n : ℕ) (acc : List ℕ)
    → n < 10
    → n ≤ limit
    → scan limit ((b'0' + n % 10) ∷ acc) 0 ≡ scan limit acc n
unfolding scan
scan_first limit n acc small h = ground arith

scan-digits :
    (limit f n : ℕ) (acc : List ℕ)
    → n < f
    → n ≤ limit
    → scan limit (digits f n acc) 0 ≡ scan limit acc n
unfolding digits
scan-digits limit zero n acc h fits = absurd (omega arith)
scan-digits limit (suc f) n acc h fits = ground (
  arith,
  scan_first limit n acc,
  scan_last limit n acc,
  scan-digits limit f (n / 10) ((b'0' + n % 10) ∷ acc),
)

-- The first character of a decimal is a digit.
abbrev pub LeadsDigit : List ℕ → Type 0
LeadsDigit [] = ⊥
LeadsDigit (c ∷ s) = (b'0' ≤ c) × (c ≤ b'9')

digits-LeadsDigit : (f n : ℕ) (acc : List ℕ) → LeadsDigit acc → LeadsDigit (digits f n acc)
unfolding digits
digits-LeadsDigit zero n acc h = h
digits-LeadsDigit (suc f) n acc h = elim (Bool-cases (ltb n 10)) [
  | inl small ↦ rw small (omega arith, omega arith)
  | inr large ↦ rw large (digits-LeadsDigit f (n / 10) _ (omega arith, omega arith))
]

nat_to_string-LeadsDigit : (n : ℕ) → LeadsDigit (nat_to_string n)
unfolding nat_to_string
nat_to_string-LeadsDigit n = elim (Bool-cases (ltb n 10)) [
  | inl small ↦ rw small (omega arith, omega arith)
  | inr large ↦ rw large (digits-LeadsDigit n (n / 10) _ (omega arith, omega arith))
]

parse_digits-scan : (limit : ℕ) (s : List ℕ) → LeadsDigit s → parse_digits limit s ≡ scan limit s 0
unfolding parse_digits
parse_digits-scan limit [] h = absurd h
parse_digits-scan limit (c ∷ s) h = refl

parse_digits-nat_to_string :
    (limit n : ℕ) → n ≤ limit → parse_digits limit (nat_to_string n) ≡ some n
parse_digits-nat_to_string limit n h =
    parse_digits-scan limit _ (nat_to_string-LeadsDigit n)
    ∙ (unfold nat_to_string scan in scan-digits limit (suc n) n [] (omega arith) h)

parse_nat_digits :
    (limit : ℕ) (s : List ℕ) → LeadsDigit s → parse_nat limit s ≡ parse_digits limit s
unfolding parse_nat
parse_nat_digits limit [] h = absurd h
parse_nat_digits limit (c ∷ s) (lo, hi) = ground arith

parse_i64_digits :
    (s : List ℕ) {n : ℕ} → LeadsDigit s → parse_nat i64_max s ≡ some n → parse_i64 s ≡ some (pos n)
unfolding parse_i64
parse_i64_digits [] h e = absurd h
parse_i64_digits (c ∷ s) {n} (lo, hi) e = rw (==_false c b'-' (omega arith)) (ground arith)

-- A number that fits is read back from its decimal.
pub parse_nat-nat_to_string : (limit n : ℕ) → n ≤ limit → parse_nat limit (nat_to_string n) ≡ some n
parse_nat-nat_to_string limit n h =
    parse_nat_digits limit _ (nat_to_string-LeadsDigit n) ∙ parse_digits-nat_to_string limit n h

-- So is every i64.
pub parse_i64-int_to_string : (z : ℤ) → InI64 z → parse_i64 (int_to_string z) ≡ some z
unfolding int_to_string
parse_i64-int_to_string (pos n) h =
    parse_i64_digits _ (nat_to_string-LeadsDigit n)
      (parse_nat-nat_to_string i64_max n (omega arith))
parse_i64-int_to_string (negsuc n) h =
    unfold parse_i64 in rw (parse_digits-nat_to_string (2 ^ 63) (suc n) (omega arith))

abbrev pub IsDigit : ℕ → Type 0
IsDigit c = (b'0' ≤ c) × (c ≤ b'9')

digits-IsDigit : (f n : ℕ) (acc : List ℕ) → All IsDigit acc → All IsDigit (digits f n acc)
unfolding digits
digits-IsDigit zero n acc h = h
digits-IsDigit (suc f) n acc h = elim (Bool-cases (ltb n 10)) [
  | inl small ↦ rw small ((omega arith, omega arith), h)
  | inr large ↦ rw large (digits-IsDigit f (n / 10) _ ((omega arith, omega arith), h))
]

-- A decimal is digits alone.
pub nat_to_string-IsDigit : (n : ℕ) → All IsDigit (nat_to_string n)
unfolding nat_to_string
nat_to_string-IsDigit n = digits-IsDigit (suc n) n [] tt

-- Digits are no other character.
pub IsDigit-Lacks : (b : ℕ) (s : List ℕ) → (b < b'0') ⊎ (b'9' < b) → All IsDigit s → Lacks b s
IsDigit-Lacks b [] h d = tt
IsDigit-Lacks b (c ∷ s) h ((lo, hi), d) = (λ e. omega arith, IsDigit-Lacks b s h d)

scan_zeros : (limit k : ℕ) (s : List ℕ) → scan limit (replicate k b'0' ++ s) 0 ≡ scan limit s 0
unfolding scan
scan_zeros limit zero s = refl
scan_zeros limit (suc k) s = ground (arith, scan_zeros limit k s)

LeadsDigit-replicate : (k : ℕ) (s : List ℕ) → LeadsDigit s → LeadsDigit (replicate k b'0' ++ s)
LeadsDigit-replicate zero s h = h
LeadsDigit-replicate (suc k) s h = omega arith

scan-nat_to_string : (limit n : ℕ) → n ≤ limit → scan limit (nat_to_string n) 0 ≡ some n
scan-nat_to_string limit n h =
    sym (parse_digits-scan limit _ (nat_to_string-LeadsDigit n))
    ∙ parse_digits-nat_to_string limit n h

-- Zeros in front of a decimal do not change its value.
pub parse_i64_zeros :
    (k n : ℕ) → n ≤ i64_max → parse_i64 (replicate k b'0' ++ nat_to_string n) ≡ some (pos n)
parse_i64_zeros k n h =
    let s = replicate k b'0' ++ nat_to_string n in
    let leads = LeadsDigit-replicate k (nat_to_string n) (nat_to_string-LeadsDigit n) in
    parse_i64_digits s leads (
      parse_nat_digits i64_max s leads
      ∙ parse_digits-scan i64_max s leads
      ∙ scan_zeros i64_max k (nat_to_string n)
      ∙ scan-nat_to_string i64_max n h)

abbrev IsOther : ℕ → Type 0
IsOther b = (b < b'0') ⊎ (b'9' < b)

scan-other : (limit b n : ℕ) (p rest : List ℕ) → IsOther b → scan limit (p ++ (b ∷ rest)) n ≡ none
unfolding scan
scan-other limit b n [] rest h = ground arith
scan-other limit b n (c ∷ p) rest h =
    ground (arith, scan-other limit b (n * 10 + (c - b'0')) p rest h)

parse_digits-other :
    (limit b : ℕ) (p rest : List ℕ) → IsOther b → parse_digits limit (p ++ (b ∷ rest)) ≡ none
unfolding parse_digits
parse_digits-other limit b [] rest h = scan-other limit b 0 [] rest h
parse_digits-other limit b (c ∷ p) rest h = scan-other limit b 0 (c ∷ p) rest h

-- A text with a character that is neither a digit nor a sign is no number.
pub parse_i64-other :
    (b : ℕ) (p rest : List ℕ) → IsOther b → b ≢ b'-' → b ≢ b'+' → parse_i64 (p ++ (b ∷ rest)) ≡ none
unfolding parse_i64 parse_nat
parse_i64-other b [] rest h minus plus = ground (arith, parse_digits-other (2 ^ 63 - 1) b [] rest h)
parse_i64-other b (c ∷ p) rest h minus plus = ground (
  arith,
  parse_digits-other (2 ^ 63) b p rest h,
  parse_digits-other (2 ^ 63 - 1) b p rest h,
  parse_digits-other (2 ^ 63 - 1) b (c ∷ p) rest h,
)

-- The decimal of an integer has nothing but digits and a sign.
pub int_to_string-Lacks : (b : ℕ) (z : ℤ) → IsOther b → b ≢ b'-' → Lacks b (int_to_string z)
unfolding int_to_string
int_to_string-Lacks b (pos n) h minus =
    IsDigit-Lacks b (nat_to_string n) h (nat_to_string-IsDigit n)
int_to_string-Lacks b (negsuc n) h minus =
    (λ e. minus (sym e), IsDigit-Lacks b (nat_to_string (suc n)) h (nat_to_string-IsDigit (suc n)))

int_to_string_test : int_to_string (negsuc 1233) ≡ b'-' ∷ b'1' ∷ b'2' ∷ b'3' ∷ b'4' ∷ []
unfolding int_to_string
int_to_string_test = refl

parse_test : parse_i64 (int_to_string (negsuc (2 ^ 63 - 1))) ≡ some (negsuc (2 ^ 63 - 1))
unfolding int_to_string parse_i64
parse_test = refl
