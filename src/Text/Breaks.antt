-- ===== src/Text/Breaks.antt =====
-- Line breaks counted, through the newlines that are made one and through lines and their join.
use ruzor.Prelude.{
  ℕ, suc, ◌+◌, ◌≤◌, ◌≡◌, Bool, ◌||◌, List, [], ◌∷◌, ◌++◌, ◌==◌, arith, if◌then◌else◌, length,
}
use ruzor.Text.{Text, codes, join, lines, lines_onto, strip_cr, unify_newlines, after_cr}

abbrev pub is_break : ℕ → ℕ
is_break c = if c == b'\n' || c == b'\r' then 1 else 0

unfoldable pub breaks : List ℕ → ℕ
breaks [] = 0
breaks (c ∷ s) = is_break c + breaks s

pub breaks-append : (s t : List ℕ) → breaks (s ++ t) ≡ breaks s + breaks t
unfolding breaks
breaks-append [] t = omega arith
breaks-append (c ∷ s) t = omega (arith, breaks-append s t)

pub breaks-le : (s : List ℕ) → breaks s ≤ length s
unfolding breaks
breaks-le [] = omega arith
breaks-le (c ∷ s) = ground (arith, breaks-le s)

breaks-after_cr : (seen : Bool) (s : Text) → breaks (after_cr seen s) ≤ breaks s
unfolding after_cr breaks
breaks-after_cr seen [] = omega arith
breaks-after_cr seen (c ∷ s) = ground (arith, breaks-after_cr (c == b'\r') s)

pub breaks-unify_newlines : (s : Text) → breaks (unify_newlines s) ≤ breaks s
unfolding unify_newlines
breaks-unify_newlines s = breaks-after_cr _ s

-- the breaks of lines, and one behind each
unfoldable pub total : List Text → ℕ
total [] = 0
total (line ∷ rest) = suc (breaks line) + total rest

breaks-strip_cr : (s : Text) → breaks (strip_cr s) ≤ breaks s
unfolding strip_cr breaks
breaks-strip_cr [] = omega arith
breaks-strip_cr (c ∷ []) = ground arith
breaks-strip_cr (c ∷ d ∷ s) = omega (arith, breaks-strip_cr (d ∷ s))

total-lines_onto : (cur s : Text) → total (lines_onto cur s) ≤ suc (breaks cur + breaks s)
unfolding lines_onto total breaks
total-lines_onto [] [] = omega arith
total-lines_onto (c ∷ cur) [] = omega arith
total-lines_onto cur (c ∷ s) = ground (
  arith,
  total-lines_onto [] s,
  total-lines_onto (cur ++ c ∷ []) s,
  breaks-strip_cr cur,
  breaks-append cur (c ∷ []),
)

pub total-lines : (s : Text) → total (lines s) ≤ suc (breaks s)
unfolding lines breaks
total-lines s = omega (arith, total-lines_onto [] s)

pub total-append : (ls ks : List Text) → total (ls ++ ks) ≡ total ls + total ks
unfolding total
total-append [] ks = omega arith
total-append (line ∷ ls) ks = omega (arith, total-append ls ks)

pub breaks-join :
    (line : Text) (rest : List Text)
    → suc (breaks (join (codes "\n") (line ∷ rest))) ≡ total (line ∷ rest)
unfolding join breaks total
breaks-join line [] = omega arith
breaks-join line (next ∷ rest) = omega (
  arith,
  breaks-append line (codes "\n" ++ join (codes "\n") (next ∷ rest)),
  breaks-join next rest,
)
