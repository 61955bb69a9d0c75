-- ===== src/Digest/Bounds.antt =====
-- Which lines src/digest.rs hashes, and how many.
use ruzor.Prelude.{
  ℕ, ◌+◌, ◌*◌, ◌/◌, ◌≤◌, ◌≡◌, true, Option, none, some, List, [], ◌∷◌, arith, leb, inl, inr,
  Bool-cases, length, length-append, get_elem?, All, All-append, zero, suc, ◌⊎◌, leb→le,
}
use ruzor.Text.{Text, lines}
use ruzor.Digest.{
  normalize, should_handle_line, handled_lines, payload_lines, found, chosen, selected, select,
  predigest_with_spec,
}

found-All :
    (P : Text → Type 0) (all : List Text) (index : ℕ)
    → All P all
    → All P (found (get_elem? all index))
found-All P [] index h = tt
found-All P (line ∷ rest) zero (p, h) = (p, tt)
found-All P (line ∷ rest) (suc index) (p, h) = found-All P rest index h

chosen-All :
    (P : Text → Type 0) (all : List Text) (index count : ℕ)
    → All P all
    → All P (chosen all index count)
unfolding chosen
chosen-All P all index zero h = tt
chosen-All P all index (suc count) h =
    All-append P (found (get_elem? all index)) (chosen all (index + 1) count)
      (found-All P all index h) (chosen-All P all (index + 1) count h)

selected-All :
    (P : Text → Type 0) (spec : List (ℕ × ℕ)) (all : List Text)
    → All P all
    → All P (selected spec all)
unfolding selected
selected-All P [] all h = tt
selected-All P ((offset, count) ∷ spec) all h =
    All-append P (chosen all (offset * length all / 100) count) (selected spec all)
      (chosen-All P all _ count h) (selected-All P spec all h)

select-All :
    (P : Text → Type 0) (spec : List (ℕ × ℕ)) (all : List Text)
    → All P all
    → All P (select spec all)
unfolding select
select-All P spec all h = elim (Bool-cases (leb (length all) 4)) [
  | inl few ↦ rw few h
  | inr many ↦ rw many (selected-All P spec all h)
]

abbrev IsHandled : Text → Type 0
IsHandled line = should_handle_line line ≡ true

handled_lines-All : (rows : List Text) → All IsHandled (handled_lines rows)
unfolding handled_lines
handled_lines-All [] = tt
handled_lines-All (row ∷ rows) = elim (Bool-cases (should_handle_line (normalize row))) [
  | inl long ↦ rw long (long, handled_lines-All rows)
  | inr short ↦ rw short (handled_lines-All rows)
]

payload_lines-All : (payloads : List Text) → All IsHandled (payload_lines payloads)
unfolding payload_lines
payload_lines-All [] = tt
payload_lines-All (payload ∷ rest) =
    All-append IsHandled (handled_lines (lines payload)) (payload_lines rest)
      (handled_lines-All (lines payload)) (payload_lines-All rest)

length-found : (line : Option Text) → length (found line) ≤ 1
length-found none = omega arith
length-found (some line) = omega arith

length-chosen : (all : List Text) (index count : ℕ) → length (chosen all index count) ≤ count
unfolding chosen
length-chosen all index zero = omega arith
length-chosen all index (suc count) = omega (
  arith,
  length-append (found (get_elem? all index)) (chosen all (index + 1) count),
  length-found (get_elem? all index),
  length-chosen all (index + 1) count,
)

-- the lines that a specification asks for
abbrev pub asked : List (ℕ × ℕ) → ℕ
asked [] = 0
asked ((offset, count) ∷ spec) = count + asked spec

length-selected : (spec : List (ℕ × ℕ)) (all : List Text) → length (selected spec all) ≤ asked spec
unfolding selected
length-selected [] all = omega arith
length-selected ((offset, count) ∷ spec) all = omega (
  arith,
  length-append (chosen all (offset * length all / 100) count) (selected spec all),
  length-chosen all (offset * length all / 100) count,
  length-selected spec all,
)

length-select :
    (spec : List (ℕ × ℕ)) (all : List Text)
    → (length (select spec all) ≤ 4) ⊎ (length (select spec all) ≤ asked spec)
unfolding select
length-select spec all = elim (Bool-cases (leb (length all) 4)) [
  | inl few ↦ rw few (inl (leb→le (length all) 4 few))
  | inr many ↦ rw many (inr (length-selected spec all))
]

-- Every line that is hashed has at least eight bytes, and there are at most four of them, or at most
-- as many as the specification asks for.
pub predigest_with_spec_lem :
    (payloads : List Text) (spec : List (ℕ × ℕ))
    → All (λ line. should_handle_line line ≡ true) (predigest_with_spec payloads spec)
      × ((length (predigest_with_spec payloads spec) ≤ 4)
          ⊎ (length (predigest_with_spec payloads spec) ≤ asked spec))
unfolding predigest_with_spec
predigest_with_spec_lem payloads spec = (
  select-All IsHandled spec (payload_lines payloads) (payload_lines-All payloads),
  length-select spec (payload_lines payloads),
)
