-- ===== src/Redis/Resp/Fuel.antt =====
-- The reader of replies in src/redis_engine.rs ends: the number of bytes is fuel enough.
use ruzor.Prelude.{
  ℕ, zero, suc, ◌≤◌, ◌<◌, ◌≡◌, refl, ap, Option, none, some, [], ◌∷◌, arith, length, ◌∙◌,
  length-drop,
}
use ruzor.Prelude.Int.{ℤ, pos, negsuc}
use ruzor.Text.{Text, Bytes}
use ruzor.Text.Decimal.{parse_i64}
use ruzor.Redis.Resp.{
  Resp, Resps, read_until_newline, with_rest, decoded, read_line, read_exact, read_crlf, read_bulk,
  bulk_behind, read_values, in_front, values_behind, read_array, as_array, integer_line,
  read_behind, read_reply, read_resp,
}

-- The rest that a reader leaves is shorter than `n`.
abbrev pub Leaves {ℓ} : {A : Type ℓ} → ℕ → Option (A × Bytes) → Type 0
Leaves n none = Unit
Leaves n (some (v, rest)) = length rest < n

length-read_until_newline : (s : Bytes) → length ((read_until_newline s).1) ≤ length s
unfolding read_until_newline
length-read_until_newline [] = omega arith
length-read_until_newline (c ∷ s) = ground (arith, length-read_until_newline s)

until_newline_cons : (c : ℕ) (s : Bytes) → length ((read_until_newline (c ∷ s)).1) < length (c ∷ s)
unfolding read_until_newline
until_newline_cons c s = ground (arith, length-read_until_newline s)

Leaves-with_rest :
    (n : ℕ) (line : Option Text) (rest : Bytes) → length rest < n → Leaves n (with_rest line rest)
Leaves-with_rest n none rest h = tt
Leaves-with_rest n (some line) rest h = h

Leaves-read_line : (s : Bytes) → Leaves (length s) (read_line s)
unfolding read_line decoded
Leaves-read_line [] = tt
Leaves-read_line (c ∷ s) = Leaves-with_rest _ _ _ (until_newline_cons c s)

Leaves-weaken {ℓ} :
    {A : Type ℓ} {m n : ℕ} (got : Option (A × Bytes)) → m ≤ n → Leaves m got → Leaves n got
Leaves-weaken none h l = tt
Leaves-weaken (some (v, rest)) h l = omega arith

Leaves-bulk_behind :
    (n : ℕ) (got : Option (Bytes × Bytes)) → Leaves n got → Leaves n (bulk_behind got)
unfolding read_crlf
Leaves-bulk_behind n none h = tt
Leaves-bulk_behind n (some (bytes, [])) h = tt
Leaves-bulk_behind n (some (bytes, c ∷ [])) h = tt
Leaves-bulk_behind n (some (bytes, c ∷ d ∷ s)) h = ground arith

Leaves-read_exact : (n : ℕ) (s : Bytes) → Leaves (suc (length s)) (read_exact n s)
Leaves-read_exact n s = ground (arith, length-drop n s)

Leaves-read_bulk : (n : Option ℤ) (s : Bytes) → Leaves (suc (length s)) (read_bulk n s)
unfolding read_bulk
Leaves-read_bulk none s = tt
Leaves-read_bulk (some (negsuc zero)) s = omega arith
Leaves-read_bulk (some (negsuc (suc n))) s = tt
Leaves-read_bulk (some (pos n)) s = Leaves-bulk_behind _ (read_exact n s) (Leaves-read_exact n s)

Leaves-in_front :
    (n : ℕ) (v : Resp) (got : Option (Resps × Bytes)) → Leaves n got → Leaves n (in_front v got)
Leaves-in_front n v none h = tt
Leaves-in_front n v (some (vs, rest)) h = h

Leaves-values_behind :
    (n : ℕ) (more : Bytes → Option (Resps × Bytes)) (got : Option (Resp × Bytes))
    → ((s : Bytes) → Leaves (suc (length s)) (more s))
    → Leaves n got
    → Leaves (suc n) (values_behind more got)
Leaves-values_behind n more none leaves h = tt
Leaves-values_behind n more (some (v, rest)) leaves h =
    Leaves-in_front (suc n) v (more rest) (Leaves-weaken (more rest) (omega arith) (leaves rest))

Leaves-as_array : (n : ℕ) (got : Option (Resps × Bytes)) → Leaves n got → Leaves n (as_array got)
Leaves-as_array n none h = tt
Leaves-as_array n (some (vs, rest)) h = h

Leaves-integer_line :
    (value : Option ℤ) (s : Bytes) → Leaves (suc (length s)) (integer_line value s)
Leaves-integer_line none s = tt
Leaves-integer_line (some n) s = omega arith

-- A reader that leaves less than it is given.
abbrev Shrinks : (Bytes → Option (Resp × Bytes)) → Type 0
Shrinks read = (s : Bytes) → Leaves (length s) (read s)

Leaves-read_values :
    (read : Bytes → Option (Resp × Bytes)) (n : ℕ)
    → Shrinks read
    → (s : Bytes) → Leaves (suc (length s)) (read_values read n s)
unfolding read_values
Leaves-read_values read zero shrinks s = omega arith
Leaves-read_values read (suc n) shrinks s =
    Leaves-values_behind (length s) (read_values read n) (read s)
      (Leaves-read_values read n shrinks) (shrinks s)

Leaves-read_array :
    (read : Bytes → Option (Resp × Bytes)) (n : Option ℤ) (s : Bytes)
    → Shrinks read
    → Leaves (suc (length s)) (read_array read n s)
unfolding read_array
Leaves-read_array read none s h = tt
Leaves-read_array read (some (negsuc zero)) s h = omega arith
Leaves-read_array read (some (negsuc (suc n))) s h = tt
Leaves-read_array read (some (pos n)) s h = Leaves-as_array _ _ (Leaves-read_values read n h s)

Leaves-read_behind :
    (read : Bytes → Option (Resp × Bytes)) (n c : ℕ) (got : Option (Text × Bytes))
    → Shrinks read
    → Leaves n got
    → Leaves n (read_behind read c got)
unfolding read_behind
Leaves-read_behind read n c none h l = tt
Leaves-read_behind read n c (some (line, s)) h l =
    let integers = Leaves-weaken {n = n} _ (omega arith) (Leaves-integer_line (parse_i64 line) s) in
    let bulks = Leaves-weaken {n = n} _ (omega arith) (Leaves-read_bulk (parse_i64 line) s) in
    let arrays =
      Leaves-weaken {n = n} _ (omega arith) (Leaves-read_array read (parse_i64 line) s h) in
    ground (arith, integers, bulks, arrays)

Shrinks-read_reply : (f : ℕ) → Shrinks (read_reply f)
unfolding read_reply
Shrinks-read_reply zero s = tt
Shrinks-read_reply (suc f) [] = tt
Shrinks-read_reply (suc f) (c ∷ s) = Leaves-weaken _ (omega arith) (
    Leaves-read_behind (read_reply f) (length s) c (read_line s) (Shrinks-read_reply f)
      (Leaves-read_line s))

-- Two readers that agree on what is at most `n` bytes long.
abbrev Agrees : ℕ → (Bytes → Option (Resp × Bytes)) → (Bytes → Option (Resp × Bytes)) → Type 0
Agrees n read read' = (s : Bytes) → length s ≤ n → read s ≡ read' s

values_behind-congr :
    (n : ℕ) (more more' : Bytes → Option (Resps × Bytes)) (got : Option (Resp × Bytes))
    → ((s : Bytes) → length s ≤ n → more s ≡ more' s)
    → Leaves n got
    → values_behind more got ≡ values_behind more' got
values_behind-congr n more more' none agree h = refl
values_behind-congr n more more' (some (v, rest)) agree h =
    ap (in_front v) (agree rest (omega arith))

read_values-congr :
    (read read' : Bytes → Option (Resp × Bytes)) (n count : ℕ)
    → Shrinks read
    → Agrees n read read'
    → (s : Bytes) → length s ≤ n
    → read_values read count s ≡ read_values read' count s
unfolding read_values
read_values-congr read read' n zero shrinks agree s h = refl
read_values-congr read read' n (suc count) shrinks agree s h =
    values_behind-congr n _ _ (read s) (read_values-congr read read' n count shrinks agree)
      (Leaves-weaken (read s) h (shrinks s))
    ∙ ap (values_behind (read_values read' count)) (agree s h)

read_array-congr :
    (read read' : Bytes → Option (Resp × Bytes)) (n : ℕ) (count : Option ℤ)
    → Shrinks read
    → Agrees n read read'
    → (s : Bytes) → length s ≤ n
    → read_array read count s ≡ read_array read' count s
unfolding read_array
read_array-congr read read' n none shrinks agree s h = refl
read_array-congr read read' n (some (negsuc zero)) shrinks agree s h = refl
read_array-congr read read' n (some (negsuc (suc k))) shrinks agree s h = refl
read_array-congr read read' n (some (pos count)) shrinks agree s h =
    ap as_array (read_values-congr read read' n count shrinks agree s h)

read_behind-congr :
    (read read' : Bytes → Option (Resp × Bytes)) (n c : ℕ) (got : Option (Text × Bytes))
    → Shrinks read
    → Agrees n read read'
    → Leaves (suc n) got
    → read_behind read c got ≡ read_behind read' c got
unfolding read_behind
read_behind-congr read read' n c none shrinks agree h = refl
read_behind-congr read read' n c (some (line, s)) shrinks agree h =
    rw (read_array-congr read read' n (parse_i64 line) shrinks agree s (omega arith))

read_reply-agrees :
    (f g : ℕ) (s : Bytes) → length s ≤ f → length s ≤ g → read_reply f s ≡ read_reply g s
unfolding read_reply
read_reply-agrees zero zero s hf hg = refl
read_reply-agrees zero (suc g) [] hf hg = refl
read_reply-agrees zero (suc g) (c ∷ s) hf hg = absurd (omega arith)
read_reply-agrees (suc f) zero [] hf hg = refl
read_reply-agrees (suc f) zero (c ∷ s) hf hg = absurd (omega arith)
read_reply-agrees (suc f) (suc g) [] hf hg = refl
read_reply-agrees (suc f) (suc g) (c ∷ s) hf hg =
    read_behind-congr (read_reply f) (read_reply g) (length s) c (read_line s)
      (Shrinks-read_reply f) (λ t h. read_reply-agrees f g t (omega arith) (omega arith))
      (Leaves-weaken (read_line s) (omega arith) (Leaves-read_line s))

read_resp-fuel : (f : ℕ) (s : Bytes) → length s ≤ f → read_reply f s ≡ read_resp s
unfolding read_resp
read_resp-fuel f s h = read_reply-agrees f (length s) s h (omega arith)

-- A reply ends before the bytes do, or with them.
pub read_resp-Leaves : (s : Bytes) → Leaves (length s) (read_resp s)
unfolding read_resp
read_resp-Leaves s = Shrinks-read_reply (length s) s

-- Whatever the bytes: the reader never runs out of rounds, so it is what the source's function is, a
-- recursion on the first byte, the line and the values of an array, and a reply takes a byte.
pub read_resp_cons :
    (c : ℕ) (s : Bytes)
    → (read_resp (c ∷ s) ≡ read_behind read_resp c (read_line s))
      × Leaves (length (c ∷ s)) (read_resp (c ∷ s))
read_resp_cons c s = (
  (unfold read_resp in
      read_behind-congr (read_reply (length s)) read_resp (length s) c (read_line s)
        (Shrinks-read_reply (length s)) (λ t h. read_resp-fuel (length s) t h)
        (Leaves-weaken (read_line s) (omega arith) (Leaves-read_line s))),
  read_resp-Leaves (c ∷ s),
)
