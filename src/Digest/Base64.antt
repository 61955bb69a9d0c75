-- ===== src/Digest/Base64.antt =====
-- The decoder of base64 in src/digest.rs against the encoding that RFC 4648 describes.
use ruzor.Prelude.{
  ℕ, ◌+◌, ◌-◌, ◌*◌, ◌/◌, ◌%◌, ◌^◌, ◌<◌, ◌≡◌, refl, ap, ◌∙◌, false, some, [], ◌∷◌, ◌==◌, arith, ltb,
  leb, if◌then◌else◌, All,
}
use ruzor.Text.{Bytes}
use ruzor.Digest.{base64_val, is_blank, base64_loop, decode_base64}

-- the alphabet
digit : ℕ → ℕ
digit v =
    if ltb v 26
    then b'A' + v
    else if ltb v 52
    then b'a' + (v - 26)
    else if ltb v 62
    then b'0' + (v - 52)
    else if v == 62
    then b'+'
    else b'/'

-- three bytes are four digits, and what is left is padded
pub encode_base64 : Bytes → Bytes
unfolding digit
encode_base64 [] = []
encode_base64 (a ∷ []) = digit (a / 4) ∷ digit (a % 4 * 16) ∷ b'=' ∷ b'=' ∷ []
encode_base64 (a ∷ b ∷ []) =
    digit (a / 4) ∷ digit (a % 4 * 16 + b / 16) ∷ digit (b % 16 * 4) ∷ b'=' ∷ []
encode_base64 (a ∷ b ∷ c ∷ s) =
    digit (a / 4)
    ∷ digit (a % 4 * 16 + b / 16)
    ∷ digit (b % 16 * 4 + c / 64)
    ∷ digit (c % 64)
    ∷ encode_base64 s

base64_val-digit : (v : ℕ) → v < 64 → base64_val (digit v) ≡ some v
unfolding base64_val digit
base64_val-digit v h = ground arith

digit_plain : (v : ℕ) → v < 64 → (is_blank (digit v) ≡ false) × ((digit v == b'=') ≡ false)
unfolding digit
digit_plain v h = ground arith

abbrev wide : ℕ → ℕ → ℕ
wide buffer v = (buffer * 64 + v) % 2 ^ 32

abbrev take_value : ℕ → ℕ → ℕ → Bytes → Bytes
take_value v buffer bits s =
    if leb 8 (bits + 6)
    then wide buffer v / 2 ^ (bits - 2) % 256 ∷ base64_loop s (wide buffer v) (bits - 2)
    else base64_loop s (wide buffer v) (bits + 6)

base64_loop-digit :
    (v buffer bits : ℕ) (s : Bytes)
    → v < 64
    → base64_loop (digit v ∷ s) buffer bits ≡ take_value v buffer bits s
unfolding base64_loop
base64_loop-digit v buffer bits s h =
    let (blank, equals) = digit_plain v h in rw blank (rw equals (rw (base64_val-digit v h)))

base64_loop_end : (s : Bytes) (buffer bits : ℕ) → base64_loop (b'=' ∷ s) buffer bits ≡ []
unfolding base64_loop
base64_loop_end s buffer bits = refl

first_byte :
    (buffer a b : ℕ)
    → a < 256
    → b < 256
    → wide (wide buffer (a / 4)) (a % 4 * 16 + b / 16) / 16 % 256 ≡ a
first_byte buffer a b ha hb = omega arith

second_byte :
    (buffer b c : ℕ)
    → b < 256
    → c < 256
    → (buffer % 16 ≡ b / 16)
    → wide buffer (b % 16 * 4 + c / 64) / 4 % 256 ≡ b
second_byte buffer b c hb hc e = omega arith

third_byte : (buffer c : ℕ) → c < 256 → (buffer % 4 ≡ c / 64) → wide buffer (c % 64) / 1 % 256 ≡ c
third_byte buffer c hc e = omega arith

-- what a group leaves in the buffer, digit by digit
abbrev after_two : ℕ → ℕ → ℕ → ℕ
after_two buffer a b = wide (wide buffer (a / 4)) (a % 4 * 16 + b / 16)

abbrev after_three : ℕ → ℕ → ℕ → ℕ → ℕ
after_three buffer a b c = wide (after_two buffer a b) (b % 16 * 4 + c / 64)

after_two_low : (buffer a b : ℕ) → b < 256 → after_two buffer a b % 16 ≡ b / 16
after_two_low buffer a b h = omega arith

after_three_low : (buffer a b c : ℕ) → c < 256 → after_three buffer a b c % 4 ≡ c / 64
after_three_low buffer a b c h = omega arith

-- the first byte, from two digits
base64_loop-first :
    (buffer a b : ℕ) (s : Bytes)
    → a < 256
    → b < 256
    → base64_loop (digit (a / 4) ∷ digit (a % 4 * 16 + b / 16) ∷ s) buffer 0
      ≡ a ∷ base64_loop s (after_two buffer a b) 4
base64_loop-first buffer a b s ha hb =
    base64_loop-digit (a / 4) buffer 0 _ (omega arith)
    ∙ base64_loop-digit (a % 4 * 16 + b / 16) (wide buffer (a / 4)) 6 s (omega arith)
    ∙ ap (λ (x : ℕ). x ∷ base64_loop s (after_two buffer a b) 4) (first_byte buffer a b ha hb)

base64_loop-second :
    (buffer b c : ℕ) (s : Bytes)
    → b < 256
    → c < 256
    → buffer % 16 ≡ b / 16
    → base64_loop (digit (b % 16 * 4 + c / 64) ∷ s) buffer 4
      ≡ b ∷ base64_loop s (wide buffer (b % 16 * 4 + c / 64)) 2
base64_loop-second buffer b c s hb hc e =
    base64_loop-digit (b % 16 * 4 + c / 64) buffer 4 s (omega arith)
    ∙ ap (λ (x : ℕ). x ∷ base64_loop s (wide buffer (b % 16 * 4 + c / 64)) 2)
        (second_byte buffer b c hb hc e)

base64_loop-third :
    (buffer c : ℕ) (s : Bytes)
    → c < 256
    → buffer % 4 ≡ c / 64
    → base64_loop (digit (c % 64) ∷ s) buffer 2 ≡ c ∷ base64_loop s (wide buffer (c % 64)) 0
base64_loop-third buffer c s hc e =
    base64_loop-digit (c % 64) buffer 2 s (omega arith)
    ∙ ap (λ (x : ℕ). x ∷ base64_loop s (wide buffer (c % 64)) 0) (third_byte buffer c hc e)

base64_loop-encode_base64 :
    (s : Bytes) (buffer : ℕ) → All (λ b. b < 256) s → base64_loop (encode_base64 s) buffer 0 ≡ s
unfolding encode_base64
base64_loop-encode_base64 [] buffer h = unfold base64_loop in refl
base64_loop-encode_base64 (a ∷ []) buffer (ha, h) =
    let e : a % 4 * 16 ≡ a % 4 * 16 + 0 / 16 = omega arith in
    ap (λ (v : ℕ). base64_loop (digit (a / 4) ∷ digit v ∷ b'=' ∷ b'=' ∷ []) buffer 0) e
    ∙ base64_loop-first buffer a 0 _ ha (omega arith)
    ∙ ap (◌∷◌ a) (base64_loop_end _ (after_two buffer a 0) 4)
base64_loop-encode_base64 (a ∷ b ∷ []) buffer (ha, (hb, h)) =
    let e : b % 16 * 4 ≡ b % 16 * 4 + 0 / 64 = omega arith in
    base64_loop-first buffer a b _ ha hb
    ∙ ap (◌∷◌ a) (
        ap (λ (v : ℕ). base64_loop (digit v ∷ b'=' ∷ []) (after_two buffer a b) 4) e
        ∙ base64_loop-second (after_two buffer a b) b 0 _ hb (omega arith)
            (after_two_low buffer a b hb)
        ∙ ap (◌∷◌ b) (base64_loop_end _ (after_three buffer a b 0) 2))
base64_loop-encode_base64 (a ∷ b ∷ c ∷ s) buffer (ha, (hb, (hc, h))) =
    base64_loop-first buffer a b _ ha hb
    ∙ ap (◌∷◌ a) (
        base64_loop-second (after_two buffer a b) b c _ hb hc (after_two_low buffer a b hb)
        ∙ ap (◌∷◌ b) (
            base64_loop-third (after_three buffer a b c) c _ hc (after_three_low buffer a b c hc)
            ∙ ap (◌∷◌ c) (base64_loop-encode_base64 s _ h)))

-- Whatever the bytes: their base64, padded, is decoded to them.
pub decode_base64-encode_base64 :
    (s : Bytes) → All (λ b. b < 256) s → decode_base64 (encode_base64 s) ≡ s
unfolding decode_base64
decode_base64-encode_base64 s h = base64_loop-encode_base64 s 0 h
