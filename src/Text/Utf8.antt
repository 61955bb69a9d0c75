-- ===== src/Text/Utf8.antt =====
-- UTF-8, as the standard library documents it: `as_bytes`, `String::from_utf8_lossy` and the
-- lengths of ill-formed sequences that `str::from_utf8` reports.
pub mod Breaks
use ruzor.Prelude.{
  ℕ, zero, suc, ◌+◌, ◌-◌, ◌*◌, ◌/◌, ◌%◌, ◌≤◌, ◌<◌, ◌≡◌, refl, ap, ◌∙◌, Bool, ◌&&◌, Option, none,
  some, ◌⊎◌, inl, inr, List, [], ◌∷◌, ◌++◌, arith, Bool-cases, ◌==◌, ltb, leb, if◌then◌else◌,
  length, length-append, ◌≢◌, sym, append_assoc, All-append, Lacks,
}

abbrev within : ℕ → ℕ → ℕ → Bool
within lo hi c = leb lo c && leb c hi

-- The code points of a `char`.
abbrev pub IsScalar : ℕ → Type 0
IsScalar c = (c < 0xd800) ⊎ ((0xe000 ≤ c) × (c < 0x110000))

abbrev pub IsText : List ℕ → Type 0
IsText [] = Unit
IsText (c ∷ s) = IsScalar c × IsText s

pub encode_char : ℕ → List ℕ
encode_char c =
    if ltb c 0x80
    then c ∷ []
    else if ltb c 0x800
    then (0xc0 + c / 64) ∷ (0x80 + c % 64) ∷ []
    else if ltb c 0x1_0000
    then (0xe0 + c / 4096) ∷ (0x80 + c / 64 % 64) ∷ (0x80 + c % 64) ∷ []
    else (0xf0 + c / 262144) ∷ (0x80 + c / 4096 % 64) ∷ (0x80 + c / 64 % 64) ∷ (0x80 + c % 64) ∷ []

-- `s.as_bytes()`
unfoldable pub as_bytes : List ℕ → List ℕ
unfolding encode_char
as_bytes [] = []
as_bytes (c ∷ s) = encode_char c ++ as_bytes s

-- What the bytes begin with: a character, or an ill-formed sequence that is skipped.
pub data Chunk : Type 0 where
  done : Chunk
  char : ℕ → List ℕ → Chunk
  bad : List ℕ → Chunk

abbrev is_continuation : ℕ → Bool
is_continuation b = within 0x80 0xbf b

two : ℕ → List ℕ → Chunk
two a [] = bad []
two a (b ∷ s) = if is_continuation b then char ((a - 0xc0) * 64 + (b - 0x80)) s else bad (b ∷ s)

-- the second bytes that do not spell an overlong form or a surrogate
second_of_three : ℕ → ℕ → Bool
second_of_three a b =
    if a == 0xe0
    then within 0xa0 0xbf b
    else if a == 0xed
    then within 0x80 0x9f b
    else is_continuation b

last_of_three : ℕ → ℕ → List ℕ → Chunk
last_of_three a b [] = bad []
last_of_three a b (c ∷ s) =
    if is_continuation c
    then char ((a - 0xe0) * 4096 + (b - 0x80) * 64 + (c - 0x80)) s
    else bad (c ∷ s)

three : ℕ → List ℕ → Chunk
three a [] = bad []
three a (b ∷ s) = if second_of_three a b then last_of_three a b s else bad (b ∷ s)

-- the second bytes that spell a code point from 0x10000 to 0x10ffff
second_of_four : ℕ → ℕ → Bool
second_of_four a b =
    if a == 0xf0
    then within 0x90 0xbf b
    else if a == 0xf4
    then within 0x80 0x8f b
    else is_continuation b

last_of_four : ℕ → ℕ → ℕ → List ℕ → Chunk
last_of_four a b c [] = bad []
last_of_four a b c (d ∷ s) =
    if is_continuation d
    then char ((a - 0xf0) * 262144 + (b - 0x80) * 4096 + (c - 0x80) * 64 + (d - 0x80)) s
    else bad (d ∷ s)

third_of_four : ℕ → ℕ → List ℕ → Chunk
third_of_four a b [] = bad []
third_of_four a b (c ∷ s) = if is_continuation c then last_of_four a b c s else bad (c ∷ s)

four : ℕ → List ℕ → Chunk
four a [] = bad []
four a (b ∷ s) = if second_of_four a b then third_of_four a b s else bad (b ∷ s)

unfoldable pub next_chunk : List ℕ → Chunk
unfolding two three four second_of_three last_of_three second_of_four third_of_four last_of_four
next_chunk [] = done
next_chunk (a ∷ s) =
    if ltb a 0x80
    then char a s
    else if within 0xc2 0xdf a
    then two a s
    else if within 0xe0 0xef a
    then three a s
    else if within 0xf0 0xf4 a
    then four a s
    else bad s

-- Every chunk but the last takes a byte, so the number of bytes is fuel enough.
lossy : ℕ → List ℕ → List ℕ
lossy zero s = []
lossy (suc f) s = elim (next_chunk s) [
  | done ↦ []
  | char c rest ↦ c ∷ lossy f rest
  | bad rest ↦ 0xfffd ∷ lossy f rest
]

-- `String::from_utf8_lossy(bytes)`: U+FFFD for each ill-formed sequence
unfoldable pub from_utf8_lossy : List ℕ → List ℕ
unfolding lossy next_chunk
from_utf8_lossy bytes = lossy (length bytes) bytes

-- the same rounds for `String::from_utf8(bytes)`: `none` at an ill-formed sequence
strict : ℕ → List ℕ → Option (List ℕ)
strict zero s = some []
strict (suc f) s = elim (next_chunk s) [
  | done ↦ some []
  | char c rest ↦ elim (strict f rest) [ none ↦ none | some t ↦ some (c ∷ t) ]
  | bad rest ↦ none
]

unfoldable pub from_utf8 : List ℕ → Option (List ℕ)
unfolding strict next_chunk
from_utf8 bytes = strict (length bytes) bytes

next_chunk-encode_char :
    (c : ℕ) (rest : List ℕ) → IsScalar c → next_chunk (encode_char c ++ rest) ≡ char c rest
unfolding encode_char next_chunk
next_chunk-encode_char c rest h = elim (Bool-cases (ltb c 0x80)) [
  | inl one ↦ rw one (ground arith)
  | inr more ↦ rw more (elim (Bool-cases (ltb c 0x800)) [
    | inl e ↦ rw e (ground arith)
    | inr more2 ↦ rw more2 (elim (Bool-cases (ltb c 0x1_0000)) [
      | inl e ↦ rw e (ground arith)
      | inr e ↦ rw e (ground arith)
    ])
  ])
]

length-encode_char : (c : ℕ) → 0 < length (encode_char c)
unfolding encode_char
length-encode_char c = ground arith

lossy-nil : (f : ℕ) → lossy f [] ≡ []
unfolding lossy next_chunk
lossy-nil zero = refl
lossy-nil (suc f) = refl

length-as_bytes_cons : (c : ℕ) (s : List ℕ) → suc (length (as_bytes s)) ≤ length (as_bytes (c ∷ s))
unfolding as_bytes
length-as_bytes_cons c s =
    omega (arith, length-append (encode_char c) (as_bytes s), length-encode_char c)

lossy_chunk :
    (f : ℕ) (s : List ℕ) {c : ℕ} {rest : List ℕ}
    → next_chunk s ≡ char c rest
    → lossy (suc f) s ≡ c ∷ lossy f rest
unfolding lossy
lossy_chunk f s e = rw (e, lossy)

lossy_step :
    (f c : ℕ) (s : List ℕ)
    → IsScalar c
    → lossy (suc f) (as_bytes (c ∷ s)) ≡ c ∷ lossy f (as_bytes s)
unfolding as_bytes
lossy_step f c s h = lossy_chunk f (as_bytes (c ∷ s)) (next_chunk-encode_char c (as_bytes s) h)

lossy-as_bytes :
    (s : List ℕ) (f : ℕ) → IsText s → length (as_bytes s) ≤ f → lossy f (as_bytes s) ≡ s
lossy-as_bytes [] f h fits = unfold as_bytes in lossy-nil f
lossy-as_bytes (c ∷ s) zero h fits = absurd (omega (arith, length-as_bytes_cons c s))
lossy-as_bytes (c ∷ s) (suc f) (hc, hs) fits =
    lossy_step f c s hc
    ∙ ap (◌∷◌ c) (lossy-as_bytes s f hs (omega (arith, length-as_bytes_cons c s)))

-- Text that is sent as UTF-8 is read back as it was.
pub from_utf8_lossy-as_bytes : (s : List ℕ) → IsText s → from_utf8_lossy (as_bytes s) ≡ s
unfolding from_utf8_lossy
from_utf8_lossy-as_bytes s h = lossy-as_bytes s (length (as_bytes s)) h (omega arith)

strict-nil : (f : ℕ) → strict f [] ≡ some []
unfolding strict next_chunk
strict-nil zero = refl
strict-nil (suc f) = refl

strict_step :
    (f c : ℕ) (s : List ℕ) {t : List ℕ}
    → IsScalar c
    → strict f (as_bytes s) ≡ some t
    → strict (suc f) (as_bytes (c ∷ s)) ≡ some (c ∷ t)
unfolding as_bytes strict
strict_step f c s h e = rw (next_chunk-encode_char c (as_bytes s) h, strict) (rw e)

strict-as_bytes :
    (s : List ℕ) (f : ℕ) → IsText s → length (as_bytes s) ≤ f → strict f (as_bytes s) ≡ some s
strict-as_bytes [] f h fits = unfold as_bytes in strict-nil f
strict-as_bytes (c ∷ s) zero h fits = absurd (omega (arith, length-as_bytes_cons c s))
strict-as_bytes (c ∷ s) (suc f) (hc, hs) fits =
    strict_step f c s hc (strict-as_bytes s f hs (omega (arith, length-as_bytes_cons c s)))

-- Text that is sent as UTF-8 is well-formed.
pub from_utf8-as_bytes : (s : List ℕ) → IsText s → from_utf8 (as_bytes s) ≡ some s
unfolding from_utf8
from_utf8-as_bytes s h = strict-as_bytes s (length (as_bytes s)) h (omega arith)

pub as_bytes-append : (s t : List ℕ) → as_bytes (s ++ t) ≡ as_bytes s ++ as_bytes t
unfolding as_bytes
as_bytes-append [] t = refl
as_bytes-append (c ∷ s) t =
    ap (λ (x : List ℕ). encode_char c ++ x) (as_bytes-append s t)
    ∙ sym (append_assoc (encode_char c) (as_bytes s) (as_bytes t))

-- The bytes of other characters are no newline.
encode_char-Lacks : (c : ℕ) → c ≢ b'\n' → Lacks b'\n' (encode_char c)
unfolding encode_char
encode_char-Lacks c h = ground arith

pub Lacks-as_bytes : (s : List ℕ) → Lacks b'\n' s → Lacks b'\n' (as_bytes s)
unfolding as_bytes
Lacks-as_bytes [] h = tt
Lacks-as_bytes (c ∷ s) (hc, hs) =
    All-append (λ b. b ≢ b'\n') (encode_char c) (as_bytes s) (encode_char-Lacks c hc)
      (Lacks-as_bytes s hs)

lossy_test :
    from_utf8_lossy (0x61 ∷ 0xc3 ∷ 0xa9 ∷ 0xff ∷ 0xe2 ∷ 0x82 ∷ 0x62 ∷ [])
    ≡ 0x61 ∷ 0xe9 ∷ 0xfffd ∷ 0xfffd ∷ 0x62 ∷ []
unfolding from_utf8_lossy
lossy_test = refl
