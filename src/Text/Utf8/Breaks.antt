-- ===== src/Text/Utf8/Breaks.antt =====
-- Encoding and decoding make no line breaks.
use ruzor.Prelude.{
  ℕ, zero, suc, ◌+◌, ◌≤◌, ◌≡◌, true, Bool-cases, inl, inr, List, [], ◌∷◌, arith, length, ltb,
}
use ruzor.Text.Breaks.{is_break, breaks, breaks-append}
use ruzor.Text.Utf8.{
  as_bytes, encode_char, from_utf8_lossy, next_chunk, lossy, Chunk, done, char, bad, two, three,
  four, second_of_three, last_of_three, second_of_four, third_of_four, last_of_four, within,
}

breaks-encode_char : (c : ℕ) → breaks (encode_char c) ≤ is_break c
unfolding encode_char breaks
breaks-encode_char c = ground arith

pub breaks-as_bytes : (s : List ℕ) → breaks (as_bytes s) ≤ breaks s
unfolding as_bytes breaks
breaks-as_bytes [] = omega arith
breaks-as_bytes (c ∷ s) =
    omega
      (arith, breaks-append (encode_char c) (as_bytes s), breaks-encode_char c, breaks-as_bytes s)

-- What a chunk stands for and the rest have at most `n` breaks.
abbrev FewerBreaks : ℕ → Chunk → Type 0
FewerBreaks n done = Unit
FewerBreaks n (char c rest) = is_break c + breaks rest ≤ n
FewerBreaks n (bad rest) = breaks rest ≤ n

weaken : (chunk : Chunk) {m n : ℕ} → m ≤ n → FewerBreaks m chunk → FewerBreaks n chunk
weaken done h l = tt
weaken (char c rest) h l = omega arith
weaken (bad rest) h l = omega arith

FewerBreaks-two : (a : ℕ) (s : List ℕ) → 0xc2 ≤ a → FewerBreaks (breaks s) (two a s)
unfolding two breaks
FewerBreaks-two a [] h = omega arith
FewerBreaks-two a (b ∷ s) h = ground arith

FewerBreaks-last_of_three :
    (a b : ℕ) (s : List ℕ)
    → 0xe0 ≤ a
    → second_of_three a b ≡ true
    → FewerBreaks (breaks s) (last_of_three a b s)
unfolding last_of_three second_of_three breaks
FewerBreaks-last_of_three a b [] h e = omega arith
FewerBreaks-last_of_three a b (c ∷ s) h e = ground arith

FewerBreaks-three : (a : ℕ) (s : List ℕ) → 0xe0 ≤ a → FewerBreaks (breaks s) (three a s)
unfolding three breaks
FewerBreaks-three a [] h = omega arith
FewerBreaks-three a (b ∷ s) h = elim (Bool-cases (second_of_three a b)) [
  | inl fits ↦ rw fits (weaken _ (omega arith) (FewerBreaks-last_of_three a b s h fits))
  | inr other ↦ rw other (omega arith)
]

FewerBreaks-last_of_four :
    (a b c : ℕ) (s : List ℕ)
    → 0xf0 ≤ a
    → second_of_four a b ≡ true
    → FewerBreaks (breaks s) (last_of_four a b c s)
unfolding last_of_four second_of_four breaks
FewerBreaks-last_of_four a b c [] h e = omega arith
FewerBreaks-last_of_four a b c (d ∷ s) h e = ground arith

FewerBreaks-third_of_four :
    (a b : ℕ) (s : List ℕ)
    → 0xf0 ≤ a
    → second_of_four a b ≡ true
    → FewerBreaks (breaks s) (third_of_four a b s)
unfolding third_of_four breaks
FewerBreaks-third_of_four a b [] h e = omega arith
FewerBreaks-third_of_four a b (c ∷ s) h e = elim (Bool-cases (within 0x80 0xbf c)) [
  | inl fits ↦ rw fits (weaken _ (omega arith) (FewerBreaks-last_of_four a b c s h e))
  | inr other ↦ rw other (omega arith)
]

FewerBreaks-four : (a : ℕ) (s : List ℕ) → 0xf0 ≤ a → FewerBreaks (breaks s) (four a s)
unfolding four breaks
FewerBreaks-four a [] h = omega arith
FewerBreaks-four a (b ∷ s) h = elim (Bool-cases (second_of_four a b)) [
  | inl fits ↦ rw fits (weaken _ (omega arith) (FewerBreaks-third_of_four a b s h fits))
  | inr other ↦ rw other (omega arith)
]

FewerBreaks-next_chunk : (s : List ℕ) → FewerBreaks (breaks s) (next_chunk s)
unfolding next_chunk breaks
FewerBreaks-next_chunk [] = tt
FewerBreaks-next_chunk (a ∷ s) =
    let plus : breaks s ≤ is_break a + breaks s = omega arith in
    elim (Bool-cases (ltb a 0x80)) [
      | inl e ↦ rw e (omega arith)
      | inr e1 ↦ rw e1 (elim (Bool-cases (within 0xc2 0xdf a)) [
        | inl e ↦ rw e (weaken (two a s) plus (FewerBreaks-two a s (ground arith)))
        | inr e2 ↦ rw e2 (elim (Bool-cases (within 0xe0 0xef a)) [
          | inl e ↦ rw e (weaken (three a s) plus (FewerBreaks-three a s (ground arith)))
          | inr e3 ↦ rw e3 (elim (Bool-cases (within 0xf0 0xf4 a)) [
            | inl e ↦ rw e (weaken (four a s) plus (FewerBreaks-four a s (ground arith)))
            | inr e ↦ rw e (omega arith)
          ])
        ])
      ])
    ]

lossy_rest :
    (f n : ℕ) (chunk : Chunk)
    → ((s : List ℕ) → breaks (lossy f s) ≤ breaks s)
    → FewerBreaks n chunk
    → breaks (elim chunk [
      | done ↦ []
      | char c rest ↦ c ∷ lossy f rest
      | bad rest ↦ 0xfffd ∷ lossy f rest
    ])
      ≤ n
unfolding breaks
lossy_rest f n done ih h = omega arith
lossy_rest f n (char c rest) ih h = omega (arith, ih rest)
lossy_rest f n (bad rest) ih h = ground (arith, ih rest)

breaks-lossy : (f : ℕ) (s : List ℕ) → breaks (lossy f s) ≤ breaks s
unfolding lossy
breaks-lossy zero s = unfold breaks in omega arith
breaks-lossy (suc f) s =
    lossy_rest f (breaks s) (next_chunk s) (breaks-lossy f) (FewerBreaks-next_chunk s)

pub breaks-from_utf8_lossy : (s : List ℕ) → breaks (from_utf8_lossy s) ≤ breaks s
unfolding from_utf8_lossy
breaks-from_utf8_lossy s = breaks-lossy (length s) s
