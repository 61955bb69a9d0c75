-- ===== src/Text.antt =====
-- Text as the list of its code points, and the methods of Rust's `str` and `String` that the
-- program calls, as the standard library documents them.
pub mod Decimal
pub mod Utf8
pub mod Laws
pub mod Breaks
use Prim.Native.Char.{code}
use Prim.Native.String.{String}
use ruzor.Prelude.{
  ℕ, zero, suc, ◌+◌, ◌-◌, ◌≡◌, refl, Bool, true, false, not, ◌&&◌, ◌||◌, Option, none, some, List,
  [], ◌∷◌, ◌++◌, ◌==◌, leb, if◌then◌else◌, length,
}

abbrev pub Text : Type 0
Text = List ℕ

abbrev pub Bytes : Type 0
Bytes = List ℕ

-- The code points of a literal.
abbrev pub codes : String → Text
codes String.[] = []
codes (String.◌∷◌ c s) = code c ∷ codes s

abbrev pub within : ℕ → ℕ → ℕ → Bool
within lo hi c = leb lo c && leb c hi

-- `a == b`
unfoldable pub eq_text : Text → Text → Bool
eq_text [] [] = true
eq_text (x ∷ xs) (y ∷ ys) = x == y && eq_text xs ys
eq_text _ _ = false

pub to_ascii_lowercase : ℕ → ℕ
to_ascii_lowercase c = if within b'A' b'Z' c then c + 32 else c

-- `a.eq_ignore_ascii_case(b)`
unfoldable pub eq_ignore_ascii_case : Text → Text → Bool
unfolding to_ascii_lowercase
eq_ignore_ascii_case [] [] = true
eq_ignore_ascii_case (x ∷ xs) (y ∷ ys) =
    to_ascii_lowercase x == to_ascii_lowercase y && eq_ignore_ascii_case xs ys
eq_ignore_ascii_case _ _ = false

-- `char::is_whitespace`: the code points with the property White_Space
unfoldable pub is_whitespace : ℕ → Bool
is_whitespace c =
    within 0x09 0x0d c
    || c == 0x20
    || c == 0x85
    || c == 0xa0
    || c == 0x1680
    || within 0x2000 0x200a c
    || c == 0x2028
    || c == 0x2029
    || c == 0x202f
    || c == 0x205f
    || c == 0x3000

-- `s.trim_start()`
unfoldable pub trim_start : Text → Text
trim_start [] = []
trim_start (c ∷ s) = let rest = trim_start s in if is_whitespace c then rest else c ∷ s

-- what `trim_end` keeps of `c` and of the trimmed rest
keep_before : ℕ → Text → Text
keep_before c [] = if is_whitespace c then [] else c ∷ []
keep_before c (d ∷ s) = c ∷ d ∷ s

-- `s.trim_end()`
unfoldable pub trim_end : Text → Text
unfolding keep_before
trim_end [] = []
trim_end (c ∷ s) = keep_before c (trim_end s)

-- `s.trim()`
unfoldable pub trim : Text → Text
unfolding trim_start trim_end
trim s = trim_end (trim_start s)

-- `s.starts_with(prefix)`
unfoldable pub starts_with : Text → Text → Bool
starts_with [] s = true
starts_with (p ∷ ps) [] = false
starts_with (p ∷ ps) (c ∷ s) = p == c && starts_with ps s

abbrev pub is_empty {ℓ} : {A : Type ℓ} → List A → Bool
is_empty [] = true
is_empty (x ∷ xs) = false

-- `s.split_once(sep)` for a single character
unfoldable pub split_once : ℕ → Text → Option (Text × Text)
split_once sep [] = none
split_once sep (c ∷ s) =
    if c == sep
    then some ([], s)
    else elim (split_once sep s) [ none ↦ none | some (a, b) ↦ some (c ∷ a, b) ]

-- puts `c` in front of the first piece
abbrev pub extend_first : ℕ → List Text → List Text
extend_first c [] = (c ∷ []) ∷ []
extend_first c (p ∷ ps) = (c ∷ p) ∷ ps

-- `s.split(sep)` for a single character: never empty
unfoldable pub split : ℕ → Text → List Text
split sep [] = [] ∷ []
split sep (c ∷ s) = let rest = split sep s in if c == sep then [] ∷ rest else extend_first c rest

abbrev begins_blank : Text → Bool
begins_blank [] = true
begins_blank (c ∷ s) = is_whitespace c

-- `s.split_whitespace()`
unfoldable pub split_whitespace : Text → List Text
split_whitespace [] = []
split_whitespace (c ∷ s) =
    let rest = split_whitespace s in
    if is_whitespace c
    then rest
    else if begins_blank s
    then (c ∷ []) ∷ rest
    else extend_first c rest

-- `s.replace(old, new)` for an `old` that is not empty; `skip` characters are of a match already
replace_from : Text → Text → ℕ → Text → Text
replace_from old new skip [] = []
replace_from old new (suc skip) (c ∷ s) = replace_from old new skip s
replace_from old new zero (c ∷ s) =
    let matched = new ++ replace_from old new (length old - 1) s in
    let kept = c ∷ replace_from old new zero s in if starts_with old (c ∷ s) then matched else kept

unfoldable pub replace : Text → Text → Text → Text
unfolding replace_from starts_with
replace old new s = replace_from old new 0 s

-- `s.lines()`: a line ends in "\n" or in "\r\n", and the last one need not.
strip_cr : Text → Text
strip_cr [] = []
strip_cr (c ∷ []) = if c == b'\r' then [] else c ∷ []
strip_cr (c ∷ d ∷ s) = c ∷ strip_cr (d ∷ s)

lines_onto : Text → Text → List Text
lines_onto cur [] = if is_empty cur then [] else cur ∷ []
lines_onto cur (c ∷ s) =
    let next = lines_onto [] s in
    let more = lines_onto (cur ++ c ∷ []) s in if c == b'\n' then strip_cr cur ∷ next else more

unfoldable pub lines : Text → List Text
unfolding lines_onto strip_cr
lines s = lines_onto [] s

-- `s.replace("\r\n", "\n").replace('\r', "\n")`
-- `seen`: the last character was a `\r`, for which a newline is out already.
after_cr : Bool → Text → Text
after_cr seen [] = []
after_cr seen (c ∷ s) =
    let rest = after_cr (c == b'\r') s in
    if c == b'\r' then b'\n' ∷ rest else if seen && c == b'\n' then rest else c ∷ rest

unfoldable pub unify_newlines : Text → Text
unfolding after_cr
unify_newlines s = after_cr false s

-- `parts.join(sep)`
unfoldable pub join : Text → List Text → Text
join sep [] = []
join sep (p ∷ []) = p
join sep (p ∷ q ∷ ps) = p ++ (sep ++ join sep (q ∷ ps))

lines_test : lines (codes "a\r\n\nb") ≡ codes "a" ∷ [] ∷ codes "b" ∷ []
unfolding lines
lines_test = refl

trim_test : trim (codes "\t a b \n") ≡ codes "a b"
unfolding trim is_whitespace
trim_test = refl

newlines_test : unify_newlines (codes "a\r\r\nb\n\r\nc") ≡ codes "a\n\nb\n\nc"
unfolding unify_newlines
newlines_test = refl
