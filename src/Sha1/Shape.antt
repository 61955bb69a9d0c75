-- ===== src/Sha1/Shape.antt =====
-- Lengths and ranges in src/sha1.rs: the padding, the digest, and its hexadecimal print.
use ruzor.Prelude.{
  false, ℕ, zero, suc, ◌+◌, ◌-◌, ◌*◌, ◌/◌, ◌%◌, ◌^◌, ◌≤◌, ◌<◌, ◌≡◌, refl, ap, true, [], ◌∷◌, ◌++◌,
  arith, inl, inr, Bool-cases, ◌==◌, if◌then◌else◌, length, length-append, Bool, ◌&&◌, ◌||◌, leb,
  All, All-append,
}
use mathlib.Core.Path.{ap₂}
use ruzor.Text.{Text, Bytes}
use ruzor.Sha1.{Words, be_bytes, pad_zeros, pad, output, digest, hex_digit, hex, hexdigest}

length-be_bytes : (n a : ℕ) → length (be_bytes n a) ≡ n
unfolding be_bytes
length-be_bytes zero a = refl
length-be_bytes (suc n) a = ap suc (length-be_bytes n a)

-- the zeros that are still wanted behind `len` bytes
abbrev missing : ℕ → ℕ
missing len = (120 - len % 64) % 64

length-pad_zeros : (f len : ℕ) → missing len < f → length (pad_zeros f len) ≡ missing len
unfolding pad_zeros
length-pad_zeros zero len h = absurd (omega arith)
length-pad_zeros (suc f) len h = elim (Bool-cases (len % 64 == 56)) [
  | inl full ↦ rw full (ground arith)
  | inr more ↦ rw more (ground (arith, length-pad_zeros f (len + 1)))
]

-- The padded message is whole blocks, and no more of them than the length and the nine bytes
-- of the mark and the length field need.
pub length-pad :
    (bytes : Bytes)
    → (length (pad bytes) % 64 ≡ 0)
      × (length bytes + 9 ≤ length (pad bytes))
      × (length (pad bytes) < length bytes + 9 + 64)
unfolding pad
length-pad bytes =
    let n = length bytes in
    let zeros = pad_zeros 64 (n + 1) in
    let size = be_bytes 8 (n * 8 % 2 ^ 64) in
    let whole = length-append bytes (0x80 ∷ (zeros ++ size)) in
    let parts = length-append zeros size in
    let z = length-pad_zeros 64 (n + 1) (omega arith) in
    let s = length-be_bytes 8 (n * 8 % 2 ^ 64) in
    (
      omega (arith, whole, parts, z, s),
      omega (arith, whole, parts, z, s),
      omega (arith, whole, parts, z, s),
    )

abbrev IsByte : ℕ → Type 0
IsByte b = b < 256

be_bytes-IsByte : (n a : ℕ) → All IsByte (be_bytes n a)
unfolding be_bytes
be_bytes-IsByte zero a = tt
be_bytes-IsByte (suc n) a = (omega arith, be_bytes-IsByte n a)

length-output : (h : Words) → length (output h) ≡ 20
unfolding output
length-output h = refl

word-IsByte : (w : ℕ) (rest : Bytes) → All IsByte rest → All IsByte (be_bytes 4 w ++ rest)
word-IsByte w rest h = All-append IsByte (be_bytes 4 w) rest (be_bytes-IsByte 4 w) h

output-IsByte : (h : Words) → All IsByte (output h)
unfolding output
output-IsByte h =
    let ends = be_bytes 4 h.d ++ be_bytes 4 h.e in
    word-IsByte h.a (be_bytes 4 h.b ++ (be_bytes 4 h.c ++ ends)) (
      word-IsByte h.b (be_bytes 4 h.c ++ ends)
        (word-IsByte h.c ends (word-IsByte h.d (be_bytes 4 h.e) (be_bytes-IsByte 4 h.e))))

digest-output : (bytes : Bytes) → (h : Words) × (digest bytes ≡ output h)
unfolding digest
digest-output bytes = (_, refl)

digest_shape : (bytes : Bytes) → (length (digest bytes) ≡ 20) × All IsByte (digest bytes)
digest_shape bytes = let (h, e) = digest-output bytes in rw e (length-output h, output-IsByte h)

-- The test holds of `from` and the numbers behind it, `count` of them in all.
every : (ℕ → Bool) → ℕ → ℕ → Bool
every test from zero = true
every test from (suc count) =
    let behind = every test (from + 1) count in if test from then behind else false

every_lem :
    (test : ℕ → Bool) (from count d : ℕ)
    → every test from count ≡ true
    → from ≤ d
    → d < from + count
    → test d ≡ true
unfolding every
every_lem test from zero d passed low high = absurd (omega arith)
every_lem test from (suc count) d passed low high =
    ground (arith, every_lem test (from + 1) count d)

-- The value of a hexadecimal digit.
abbrev pub hex_value : ℕ → ℕ
hex_value c = if leb c b'9' then c - b'0' else c - b'a' + 10

abbrev pub is_hex : ℕ → Bool
is_hex c = (leb b'0' c && leb c b'9') || (leb b'a' c && leb c b'f')

digit_table : every (λ d. is_hex (hex_digit d) && hex_value (hex_digit d) == d) 0 16 ≡ true
unfolding every hex_digit
digit_table = refl

hex_digit_lem : (d : ℕ) → d < 16 → (is_hex (hex_digit d) ≡ true) × (hex_value (hex_digit d) ≡ d)
hex_digit_lem d h = ground (
  arith,
  every_lem (λ d. is_hex (hex_digit d) && hex_value (hex_digit d) == d) 0 16 d digit_table,
)

-- Reads a text two digits at a time.
abbrev pub unhex : Text → Bytes
unhex [] = []
unhex (x ∷ []) = []
unhex (x ∷ y ∷ s) = (hex_value x * 16 + hex_value y) ∷ unhex s

-- The hexadecimal print of bytes determines them: it reads back as those bytes.
pub unhex-hex : (bytes : Bytes) → All (λ b. b < 256) bytes → unhex (hex bytes) ≡ bytes
unfolding hex
unhex-hex [] h = refl
unhex-hex (b ∷ bytes) (hb, h) =
    let high = hex_digit_lem (b / 16) (omega arith) in
    let low = hex_digit_lem (b % 16) (omega arith) in
    ap₂ ◌∷◌ (omega (arith, high.1, low.1)) (unhex-hex bytes h)

hex_shape :
    (bytes : Bytes)
    → All IsByte bytes
    → (length (hex bytes) ≡ 2 * length bytes) × All (λ c. is_hex c ≡ true) (hex bytes)
unfolding hex
hex_shape [] h = (refl, tt)
hex_shape (b ∷ bytes) (hb, h) =
    let (len, digits) = hex_shape bytes h in
    (
      omega arith,
      (
        (hex_digit_lem (b / 16) (omega arith)).0,
        ((hex_digit_lem (b % 16) (omega arith)).0, digits),
      ),
    )

-- A hexadecimal digest of any message has HASH_SIZE = 40 characters, all of them among 0-9 and
-- a-f, and it determines the twenty bytes of the digest.
pub hexdigest_shape :
    (bytes : Bytes)
    → (length (hexdigest bytes) ≡ 40)
      × All (λ c. is_hex c ≡ true) (hexdigest bytes)
      × (unhex (hexdigest bytes) ≡ digest bytes)
unfolding hexdigest
hexdigest_shape bytes =
    let (len, small) = digest_shape bytes in
    let (chars, digits) = hex_shape (digest bytes) small in
    (omega arith, digits, unhex-hex (digest bytes) small)
