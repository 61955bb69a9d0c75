-- ===== src/Digest/Payloads/Nesting.antt =====
-- The recursion of `digest_payloads` in src/digest.rs ends: a part has fewer line breaks than the part
-- that it is in, whatever the bytes, the ill-formed ones included.
use ruzor.Prelude.{
  ℕ, zero, suc, ◌+◌, ◌≤◌, ◌<◌, ◌≡◌, refl, ap, ◌∙◌, Bool, true, false, ◌&&◌, Option, none, some,
  List, [], ◌∷◌, ◌++◌, ◌==◌, arith, if◌then◌else◌, length, All, All-append, Bool-cases, inl, inr,
}
use ruzor.Text.{Text, Bytes, codes, eq_text, join, unify_newlines, trim_end}
use ruzor.Text.Breaks.{
  breaks, breaks-le, total, breaks-unify_newlines, total-lines, total-append, breaks-join,
}
use ruzor.Text.Utf8.{from_utf8_lossy}
use ruzor.Text.Utf8.Breaks.{breaks-as_bytes, breaks-from_utf8_lossy}
use ruzor.Digest.Parts.{
  Part, parse, content_type, split_multipart, split_lines, split_at_blank, keep_first,
  head_and_body, part_of,
}
use ruzor.Digest.Payloads.{each_child, payloads_of, payloads_to_depth, digest_payloads, child_parts}

abbrev Under : ℕ → List Bytes → Type 0
Under n = All (λ child. breaks child < n)

part_of-Under :
    (n : ℕ) (inside : Bool) (current : List Text)
    → (inside ≡ true → total current ≤ n)
    → Under n (part_of inside current)
part_of-Under n inside [] h = tt
part_of-Under n false (line ∷ current) h = tt
part_of-Under n true (line ∷ current) h = (
  omega (
    arith,
    h refl,
    breaks-join line current,
    breaks-as_bytes (join (codes "\n") (line ∷ current)),
  ),
  tt,
)

-- A boundary line is behind the lines inside, and pays for one break.
abbrev credit : Bool → ℕ
credit inside = if inside then 0 else 1

split_lines-Under :
    (n : ℕ) (marker closing : Text) (inside : Bool) (current rest : List Text)
    → total current + total rest ≤ n + credit inside
    → Under n (split_lines marker closing inside current rest)
unfolding split_lines total
split_lines-Under n marker closing inside current [] h =
    part_of-Under n inside current (λ e. ground arith)
split_lines-Under n marker closing true current (line ∷ rest) h =
    let flushed = part_of-Under n true current (λ e. omega arith) in
    elim (Bool-cases (eq_text (trim_end line) marker)) [
      | inl begins ↦ rw begins (
          All-append _ (part_of true current) _ flushed
            (split_lines-Under n marker closing true [] rest (omega arith)))
      | inr other ↦ rw other (
          let behind =
            split_lines-Under n marker closing true (current ++ line ∷ []) rest
              (omega (arith, total-append current (line ∷ []))) in
          elim (Bool-cases (eq_text (trim_end line) closing)) [
            | inl closes ↦ rw closes flushed
            | inr stays ↦ rw stays behind
          ])
    ]
split_lines-Under n marker closing false current (line ∷ rest) h =
    let flushed = part_of-Under n false current (λ e. cc) in
    elim (Bool-cases (eq_text (trim_end line) marker)) [
      | inl begins ↦ rw begins (
          All-append _ (part_of false current) _ flushed
            (split_lines-Under n marker closing true current rest (omega arith)))
      | inr other ↦ rw other (
          let behind = split_lines-Under n marker closing false current rest (omega arith) in
          elim (Bool-cases (eq_text (trim_end line) closing)) [
            | inl closes ↦ rw closes flushed
            | inr stays ↦ rw stays behind
          ])
    ]

split_multipart-Under :
    (bytes : Bytes) (boundary : Text) → Under (breaks bytes) (split_multipart bytes boundary)
unfolding split_multipart total
split_multipart-Under bytes boundary = split_lines-Under (breaks bytes) _ _ false [] _ (
    omega (
      arith,
      total-lines (unify_newlines (from_utf8_lossy bytes)),
      breaks-unify_newlines (from_utf8_lossy bytes),
      breaks-from_utf8_lossy bytes,
    ))

abbrev BodyUnder : ℕ → Option (Bytes × Bytes) → Type 0
BodyUnder n none = Unit
BodyUnder n (some (head, body)) = breaks body ≤ n

BodyUnder-keep_first :
    (m n c : ℕ) (found : Option (Bytes × Bytes))
    → m ≤ n
    → BodyUnder m found
    → BodyUnder n (keep_first c found)
BodyUnder-keep_first m n c none l h = tt
BodyUnder-keep_first m n c (some (head, body)) l h = omega arith

BodyUnder-split_at_blank : (s : Bytes) → BodyUnder (breaks s) (split_at_blank s)
unfolding split_at_blank breaks
BodyUnder-split_at_blank [] = tt
BodyUnder-split_at_blank (c ∷ []) = tt
BodyUnder-split_at_blank (c ∷ d ∷ s) = elim (Bool-cases (c == b'\n' && d == b'\n')) [
  | inl blank ↦ rw blank (omega arith)
  | inr other ↦ rw other (
      BodyUnder-keep_first (breaks (d ∷ s)) _ c (split_at_blank (d ∷ s)) (omega arith)
        (BodyUnder-split_at_blank (d ∷ s)))
]

breaks-head_and_body :
    (s : Bytes) (found : Option (Bytes × Bytes))
    → BodyUnder (breaks s) found
    → breaks ((head_and_body s found).1) ≤ breaks s
unfolding breaks
breaks-head_and_body s none h = ground arith
breaks-head_and_body s (some (head, body)) h = h

breaks-parse : (bytes : Bytes) → breaks ((parse bytes).body) ≤ breaks bytes
unfolding parse
breaks-parse bytes =
    let normalized = unify_newlines bytes in
    omega (
      arith,
      breaks-head_and_body normalized (split_at_blank normalized)
          (BodyUnder-split_at_blank normalized),
      breaks-unify_newlines bytes,
    )

each_child-congr :
    (n : ℕ) (payloads others : Part → List Text) (children : List Bytes)
    → ((part : Part) → breaks part.body < n → payloads part ≡ others part)
    → Under n children
    → each_child payloads children ≡ each_child others children
unfolding each_child
each_child-congr n payloads others [] agree h = refl
each_child-congr n payloads others (child ∷ children) agree (hc, h) =
    ap (λ (ts : List Text). ts ++ each_child payloads children)
      (agree (parse child) (omega (arith, breaks-parse child)))
    ∙ ap (λ (ts : List Text). others (parse child) ++ ts)
        (each_child-congr n payloads others children agree h)

child_parts-Under :
    (part : Part) (boundary : Option Text) → Under (breaks part.body) (child_parts part boundary)
child_parts-Under part none = tt
child_parts-Under part (some boundary) = split_multipart-Under part.body boundary

module _ (to_lowercase : Text → Text) (registered : Bytes → Text → Option Text) where
  abbrev of : (Part → List Text) → Part → List Text
  of = payloads_of to_lowercase registered

  abbrev to_depth : ℕ → Part → List Text
  to_depth = payloads_to_depth to_lowercase registered

  payloads_of-congr :
      (payloads others : Part → List Text) (part : Part)
      → ((child : Part) → breaks child.body < breaks part.body → payloads child ≡ others child)
      → of payloads part ≡ of others part
  unfolding payloads_of
  payloads_of-congr payloads others part agree = rw (
      each_child-congr (breaks part.body) payloads others
        (child_parts part ((content_type to_lowercase part).boundary)) agree
        (child_parts-Under part _))

  to_depth-agrees :
      (f g : ℕ) (part : Part)
      → breaks part.body < f
      → breaks part.body < g
      → to_depth f part ≡ to_depth g part
  unfolding payloads_to_depth
  to_depth-agrees zero g part hf hg = absurd (omega arith)
  to_depth-agrees (suc f) zero part hf hg = absurd (omega arith)
  to_depth-agrees (suc f) (suc g) part hf hg =
      payloads_of-congr _ _ part (λ child h. to_depth-agrees f g child (omega arith) (omega arith))

  digest_payloads_step :
      (part : Part)
      → digest_payloads to_lowercase registered part
        ≡ of (digest_payloads to_lowercase registered) part
  unfolding digest_payloads
  digest_payloads_step part = payloads_of-congr _ _ part (λ child h.
      to_depth-agrees (length part.body) (suc (length child.body)) child
        (omega (arith, breaks-le part.body)) (omega (arith, breaks-le child.body)))

-- Whatever the mail: `digest_payloads` never runs out of rounds, so it is what the source's function is,
-- a recursion on the children of a multipart.
pub digest_payloads_lem :
    (to_lowercase : Text → Text) (registered : Bytes → Text → Option Text) (part : Part)
    → digest_payloads to_lowercase registered part
      ≡ payloads_of to_lowercase registered (digest_payloads to_lowercase registered) part
digest_payloads_lem to_lowercase registered part = digest_payloads_step to_lowercase registered part
