-- ===== src/Text/Laws.antt =====
-- Laws of the text operations: caseless comparison, trimming, lines and splitting.
use ruzor.Prelude.{
  ℕ, suc, ◌≤◌, ◌≡◌, ◌↔◌, refl, ap, ◌∙◌, true, false, inl, inr, Bool-cases, some, List, [], ◌∷◌,
  ◌++◌, append-nil, append_assoc, arith, ==_false, ==_refl, none, length, Lacks, All, ◌∙◌, List,
}
use ruzor.Prelude.Assoc.{Eq}
use ruzor.Text.{
  Text, eq_text, to_ascii_lowercase, eq_ignore_ascii_case, is_whitespace, trim_start, trim_end,
  keep_before, trim, split, join, split_once, lines_onto, strip_cr, lines, after_cr, unify_newlines,
  replace,
}

pub eq_text_iff : (a b : Text) → (eq_text a b ≡ true) ↔ (a ≡ b)
unfolding eq_text
eq_text_iff (x ∷ a) (y ∷ b) = ground (arith, eq_text_iff a b)
eq_text_iff _ _ = ground arith

pub eq_text_refl : (a : Text) → eq_text a a ≡ true
eq_text_refl a = (eq_text_iff a a).1 refl

abbrev lowered : Text → Text
lowered [] = []
lowered (c ∷ s) = to_ascii_lowercase c ∷ lowered s

eq_ignore_iff : (a b : Text) → (eq_ignore_ascii_case a b ≡ true) ↔ (lowered a ≡ lowered b)
unfolding eq_ignore_ascii_case
eq_ignore_iff (x ∷ a) (y ∷ b) = ground (arith, eq_ignore_iff a b)
eq_ignore_iff _ _ = ground arith

pub eq_ignore_refl : (a : Text) → eq_ignore_ascii_case a a ≡ true
eq_ignore_refl a = (eq_ignore_iff a a).1 refl

-- Names that agree but for case agree with the same names.
pub eq_ignore_congr :
    (a b c : Text)
    → eq_ignore_ascii_case a b ≡ true
    → eq_ignore_ascii_case a c ≡ eq_ignore_ascii_case b c
eq_ignore_congr a b c h = ground (arith, eq_ignore_iff a b, eq_ignore_iff a c, eq_ignore_iff b c)

pub eq_ignore_congr_right :
    (a b c : Text)
    → eq_ignore_ascii_case a b ≡ true
    → eq_ignore_ascii_case c a ≡ eq_ignore_ascii_case c b
eq_ignore_congr_right a b c h =
    ground (arith, eq_ignore_iff a b, eq_ignore_iff c a, eq_ignore_iff c b)

length-trim_start : (s : Text) → length (trim_start s) ≤ length s
unfolding trim_start
length-trim_start [] = omega arith
length-trim_start (c ∷ s) = ground (arith, length-trim_start s)

length-keep_before : (c : ℕ) (s : Text) → length (keep_before c s) ≤ suc (length s)
unfolding keep_before
length-keep_before c [] = ground arith
length-keep_before c (d ∷ s) = omega arith

length-trim_end : (s : Text) → length (trim_end s) ≤ length s
unfolding trim_end
length-trim_end [] = omega arith
length-trim_end (c ∷ s) = omega (arith, length-keep_before c (trim_end s), length-trim_end s)

-- Trimmed text does not begin with white space.
trim_start-keeps : (c : ℕ) (s : Text) → trim_start (c ∷ s) ≡ c ∷ s → is_whitespace c ≡ false
unfolding trim_start
trim_start-keeps c s h = elim (Bool-cases (is_whitespace c)) [
  | inl yes_space ↦ absurd (omega (arith, length-trim_start s, ap length (rw yes_space at h)))
  | inr no_space ↦ no_space
]

pub trim-keeps : (c : ℕ) (s : Text) → trim (c ∷ s) ≡ c ∷ s → is_whitespace c ≡ false
unfolding trim
trim-keeps c s h = elim (Bool-cases (is_whitespace c)) [
  | inl yes_space ↦ absurd (
      omega (
        arith,
        length-trim_start s,
        length-trim_end (trim_start s),
        ap length (unfold trim_start in rw yes_space at h),
      ))
  | inr no_space ↦ no_space
]

pub trim_start_space : (s : Text) → trim_start (b' ' ∷ s) ≡ trim_start s
unfolding trim_start is_whitespace
trim_start_space s = refl

pub split_once-append :
    (sep : ℕ) (s rest : Text) → Lacks sep s → split_once sep (s ++ (sep ∷ rest)) ≡ some (s, rest)
unfolding split_once
split_once-append sep [] rest h = ground arith
split_once-append sep (c ∷ s) rest (hc, hs) = ground (arith, split_once-append sep s rest hs)

strip_cr_lem : (s : Text) → Lacks b'\r' s → strip_cr s ≡ s
unfolding strip_cr
strip_cr_lem [] h = refl
strip_cr_lem (c ∷ []) h = ground arith
strip_cr_lem (c ∷ d ∷ s) (hc, hs) = ap (◌∷◌ c) (strip_cr_lem (d ∷ s) hs)

lines_onto-append :
    (cur s rest : Text)
    → Lacks b'\n' s
    → lines_onto cur (s ++ (b'\n' ∷ rest)) ≡ strip_cr (cur ++ s) ∷ lines_onto [] rest
unfolding lines_onto
lines_onto-append cur [] rest h = rw append-nil
lines_onto-append cur (c ∷ s) rest (hc, hs) =
    ground (arith, lines_onto-append (cur ++ c ∷ []) s rest hs, append_assoc cur (c ∷ []) s)

-- A line with no break in it is read up to the newline.
pub lines-append :
    (s rest : Text) → Lacks b'\n' s → Lacks b'\r' s → lines (s ++ (b'\n' ∷ rest)) ≡ s ∷ lines rest
unfolding lines
lines-append s rest h r = rw (lines_onto-append [] s rest h) (rw (strip_cr_lem s r))

after_cr_lem : (s : Text) → Lacks b'\r' s → after_cr false s ≡ s
unfolding after_cr
after_cr_lem [] h = refl
after_cr_lem (c ∷ s) (hc, hs) = rw (==_false c b'\r' hc) (ap (◌∷◌ c) (after_cr_lem s hs))

pub unify_newlines_lem : (s : Text) → Lacks b'\r' s → unify_newlines s ≡ s
unfolding unify_newlines
unify_newlines_lem s h = after_cr_lem s h

pub split-append :
    (sep : ℕ) (p rest : Text) → Lacks sep p → split sep (p ++ (sep ∷ rest)) ≡ p ∷ split sep rest
unfolding split
split-append sep [] rest h = rw (==_refl sep)
split-append sep (c ∷ p) rest (hc, h) = rw (==_false c sep hc) (rw (split-append sep p rest h))

pub split-end : (sep : ℕ) (p : Text) → Lacks sep p → split sep p ≡ p ∷ []
unfolding split
split-end sep [] h = refl
split-end sep (c ∷ p) (hc, h) = rw (==_false c sep hc) (rw (split-end sep p h))

pub split_once-none : (sep : ℕ) (p : Text) → Lacks sep p → split_once sep p ≡ none
unfolding split_once
split_once-none sep [] h = refl
split_once-none sep (c ∷ p) (hc, h) =
    rw (==_false c sep hc) (rw (split_once-none sep p h, split_once))

-- Pieces without the separator are found again in their join.
pub split-join :
    (sep : ℕ) (p : Text) (ps : List Text)
    → All (Lacks sep) (p ∷ ps)
    → split sep (join (sep ∷ []) (p ∷ ps)) ≡ p ∷ ps
unfolding join
split-join sep p [] (h, _) = split-end sep p h
split-join sep p (q ∷ ps) (h, hs) =
    split-append sep p (join (sep ∷ []) (q ∷ ps)) h ∙ ap (◌∷◌ p) (split-join sep q ps hs)

-- What has not the first character of `old` is kept.
pub replace-append :
    (o : ℕ) (old new p s : Text)
    → Lacks o p
    → replace (o ∷ old) new (p ++ s) ≡ p ++ replace (o ∷ old) new s
unfolding replace
replace-append o old new [] s h = refl
replace-append o old new (c ∷ p) s (hc, h) = ground (arith, replace-append o old new p s h)

-- a text as the key of a map
instance abbrev pub text_eq : Eq Text
text_eq = record { beq = eq_text; beq_iff = eq_text_iff }
