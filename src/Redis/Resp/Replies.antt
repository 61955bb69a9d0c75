-- ===== src/Redis/Resp/Replies.antt =====
-- The replies that the protocol of Redis describes, printed, and what src/redis_engine.rs reads.
use ruzor.Prelude.{
  ℕ, suc, ◌≤◌, ◌≡◌, ◌≢◌, refl, ap, sym, ◌∙◌, Option, none, some, [], ◌∷◌, ◌++◌, ==_false, arith,
  length, length-append, append_assoc, take, drop, All, All-append, Lacks, inl,
}
use ruzor.Prelude.Int.{ℤ, pos, negsuc, InI64, i64_max}
use ruzor.Text.{Text, Bytes}
use ruzor.Text.Decimal.{
  int_to_string, parse_i64, parse_i64-int_to_string, int_to_string-Lacks, IsDigit,
  nat_to_string-IsDigit,
}
use ruzor.Text.Utf8.{as_bytes, IsText, from_utf8, from_utf8-as_bytes, Lacks-as_bytes}
use ruzor.Redis.Resp.Fuel.{read_resp_cons}
use ruzor.Redis.Resp.{
  Resp, Resps, simple, error, integer, bulk, array, null_array, nil, cons, crlf, read_until_newline,
  without_newline, read_line, with_rest, decoded, read_crlf, read_exact, read_bulk, bulk_behind,
  read_values, in_front, read_array, as_array, read_behind, read_resp, integer_line,
}

mutual
  pub data Reply : Type 0 where
    status failure : Text → Reply
    number : ℤ → Reply
    null_bulk no_array : Reply
    string : Bytes → Reply
    several : Replies → Reply

  pub data Replies : Type 0 where
    end : Replies
    also : Reply → Replies → Replies

abbrev pub count : Replies → ℕ
count end = 0
count (also r rs) = suc (count rs)

-- a prefix, a line and its end
abbrev pub line_of : ℕ → Text → Bytes
line_of prefix line = prefix ∷ (as_bytes line ++ crlf)

unfoldable mutual
  pub print : Reply → Bytes
  print (status line) = line_of b'+' line
  print (failure line) = line_of b'-' line
  print (number n) = line_of b':' (int_to_string n)
  print null_bulk = line_of b'$' (int_to_string (negsuc 0))
  print no_array = line_of b'*' (int_to_string (negsuc 0))
  print (string bytes) = line_of b'$' (int_to_string (pos (length bytes))) ++ (bytes ++ crlf)
  print (several rs) = line_of b'*' (int_to_string (pos (count rs))) ++ print_all rs

  pub print_all : Replies → Bytes
  print_all end = []
  print_all (also r rs) = print r ++ print_all rs

-- what the client keeps
unfoldable mutual
  pub seen : Reply → Resp
  seen (status line) = simple
  seen (failure line) = error
  seen (number n) = integer
  seen null_bulk = bulk none
  seen no_array = null_array
  seen (string bytes) = bulk (some bytes)
  seen (several rs) = array (seen_all rs)

  pub seen_all : Replies → Resps
  seen_all end = nil
  seen_all (also r rs) = cons (seen r) (seen_all rs)

abbrev pub IsLine : Text → Type 0
IsLine line = IsText line × Lacks b'\n' line

-- A reply that the protocol allows, of lengths that an `i64` holds.
unfoldable mutual
  pub IsReply : Reply → Type 0
  IsReply (status line) = IsLine line
  IsReply (failure line) = IsLine line
  IsReply (number n) = InI64 n
  IsReply null_bulk = Unit
  IsReply no_array = Unit
  IsReply (string bytes) = length bytes ≤ i64_max
  IsReply (several rs) = (count rs ≤ i64_max) × AllReplies rs

  pub AllReplies : Replies → Type 0
  AllReplies end = Unit
  AllReplies (also r rs) = IsReply r × AllReplies rs

read_until_newline_lem :
    (s rest : Bytes)
    → Lacks b'\n' s
    → read_until_newline (s ++ (b'\n' ∷ rest)) ≡ (s ++ b'\n' ∷ [], rest)
unfolding read_until_newline
read_until_newline_lem [] rest h = refl
read_until_newline_lem (c ∷ s) rest (hc, h) =
    rw (read_until_newline_lem s rest h) (rw (==_false c b'\n' hc))

without_newline_lem : (s : Bytes) → without_newline (s ++ crlf) ≡ s
unfolding without_newline
without_newline_lem [] = refl
without_newline_lem (c ∷ []) = refl
without_newline_lem (c ∷ d ∷ []) = refl
without_newline_lem (c ∷ d ∷ e ∷ s) = ap (◌∷◌ c) (without_newline_lem (d ∷ e ∷ s))

until_crlf :
    (s rest : Bytes) → Lacks b'\n' s → read_until_newline (s ++ (crlf ++ rest)) ≡ (s ++ crlf, rest)
until_crlf s rest h =
    ap read_until_newline (sym (append_assoc s (b'\r' ∷ []) (b'\n' ∷ rest)))
    ∙ read_until_newline_lem (s ++ b'\r' ∷ []) rest
        (All-append (λ c. c ≢ b'\n') s (b'\r' ∷ []) h (omega arith, tt))
    ∙ ap (λ (t : Bytes). (t, rest)) (append_assoc s (b'\r' ∷ []) (b'\n' ∷ []))

read_line-decoded :
    (s rest : Bytes)
    → read_line (s ++ (crlf ++ rest)) ≡ decoded (read_until_newline (s ++ (crlf ++ rest)))
unfolding read_line
read_line-decoded [] rest = refl
read_line-decoded (c ∷ s) rest = refl

decoded-crlf : (s rest : Bytes) → decoded (s ++ crlf, rest) ≡ with_rest (from_utf8 s) rest
unfolding decoded
decoded-crlf s rest = ap (λ (t : Bytes). with_rest (from_utf8 t) rest) (without_newline_lem s)

read_line_lem :
    (line : Text) (rest : Bytes)
    → IsLine line
    → read_line (as_bytes line ++ (crlf ++ rest)) ≡ some (line, rest)
read_line_lem line rest (h, l) =
    let s = as_bytes line in
    read_line-decoded s rest
    ∙ ap decoded (until_crlf s rest (Lacks-as_bytes line l))
    ∙ decoded-crlf s rest
    ∙ ap (λ t. with_rest t rest) (from_utf8-as_bytes line h)

read_resp_line :
    (prefix : ℕ) (line : Text) (rest : Bytes)
    → IsLine line
    → read_resp (line_of prefix line ++ rest) ≡ read_behind read_resp prefix (some (line, rest))
read_resp_line prefix line rest h =
    ap (λ (s : Bytes). read_resp (prefix ∷ s)) (append_assoc (as_bytes line) crlf rest)
    ∙ (read_resp_cons prefix _).0
    ∙ ap (read_behind read_resp prefix) (read_line_lem line rest h)

IsDigit-IsText : (s : Text) → All IsDigit s → IsText s
IsDigit-IsText [] h = tt
IsDigit-IsText (c ∷ s) ((lo, hi), h) = (inl (omega arith), IsDigit-IsText s h)

IsText-int_to_string : (n : ℤ) → IsText (int_to_string n)
unfolding int_to_string
IsText-int_to_string (pos n) = IsDigit-IsText _ (nat_to_string-IsDigit n)
IsText-int_to_string (negsuc n) =
    (inl (omega arith), IsDigit-IsText _ (nat_to_string-IsDigit (suc n)))

int_to_string-IsLine : (n : ℤ) → IsLine (int_to_string n)
int_to_string-IsLine n =
    (IsText-int_to_string n, int_to_string-Lacks b'\n' n (inl (omega arith)) (λ e. omega arith))

-- a line that is a number, which `read` goes on from
read_resp_number :
    (prefix : ℕ) (n : ℤ) (rest : Bytes) (read : Option ℤ → Bytes → Option (Resp × Bytes))
    → InI64 n
    → ((line : Text)
        → read_behind read_resp prefix (some (line, rest)) ≡ read (parse_i64 line) rest)
    → read_resp (line_of prefix (int_to_string n) ++ rest) ≡ read (some n) rest
read_resp_number prefix n rest read h e =
    read_resp_line prefix (int_to_string n) rest (int_to_string-IsLine n)
    ∙ e (int_to_string n)
    ∙ ap (λ z. read z rest) (parse_i64-int_to_string n h)

take-append : (s rest : Bytes) → take (length s) (s ++ rest) ≡ s
take-append [] rest = refl
take-append (c ∷ s) rest = ap (◌∷◌ c) (take-append s rest)

drop-append : (s rest : Bytes) → drop (length s) (s ++ rest) ≡ rest
drop-append [] rest = refl
drop-append (c ∷ s) rest = drop-append s rest

read_exact-append : (s rest : Bytes) → read_exact (length s) (s ++ rest) ≡ some (s, rest)
read_exact-append s rest =
    ground (arith, length-append s rest, take-append s rest, drop-append s rest)

read_bulk_lem :
    (bytes rest : Bytes)
    → read_bulk (some (pos (length bytes))) (bytes ++ (crlf ++ rest))
      ≡ some (bulk (some bytes), rest)
unfolding read_bulk read_crlf
read_bulk_lem bytes rest = ap bulk_behind (read_exact-append bytes (crlf ++ rest))

read_values_end : (rest : Bytes) → read_values read_resp 0 rest ≡ some (nil, rest)
unfolding read_values
read_values_end rest = refl

read_values_also :
    (r : Resp) (rs : Resps) (n : ℕ) (s t rest : Bytes)
    → read_resp s ≡ some (r, t)
    → read_values read_resp n t ≡ some (rs, rest)
    → read_values read_resp (suc n) s ≡ some (cons r rs, rest)
unfolding read_values
read_values_also r rs n s t rest e es = rw e (ap (in_front r) es)

mutual
  unfolding print seen IsReply read_behind read_bulk read_array

  read_resp-print_lem :
      (r : Reply) (rest : Bytes) → IsReply r → read_resp (print r ++ rest) ≡ some (seen r, rest)
  read_resp-print_lem (status line) rest h = read_resp_line b'+' line rest h
  read_resp-print_lem (failure line) rest h = read_resp_line b'-' line rest h
  read_resp-print_lem (number n) rest h = read_resp_number b':' n rest integer_line h (λ line. refl)
  read_resp-print_lem null_bulk rest h =
      read_resp_number b'$' (negsuc 0) rest read_bulk (omega arith) (λ line. refl)
  read_resp-print_lem no_array rest h =
      read_resp_number b'*' (negsuc 0) rest (read_array read_resp) (omega arith) (λ line. refl)
  read_resp-print_lem (string bytes) rest h =
      ap read_resp
        (append_assoc (line_of b'$' (int_to_string (pos (length bytes)))) (bytes ++ crlf) rest)
      ∙ read_resp_number b'$' (pos (length bytes)) ((bytes ++ crlf) ++ rest) read_bulk (omega arith)
          (λ line. refl)
      ∙ ap (read_bulk (some (pos (length bytes)))) (append_assoc bytes crlf rest)
      ∙ read_bulk_lem bytes rest
  read_resp-print_lem (several rs) rest (h, hs) =
      ap read_resp
        (append_assoc (line_of b'*' (int_to_string (pos (count rs)))) (print_all rs) rest)
      ∙ read_resp_number b'*' (pos (count rs)) (print_all rs ++ rest) (read_array read_resp)
          (omega arith) (λ line. refl)
      ∙ ap as_array (read_values-print rs rest hs)

  read_values-print :
      (rs : Replies) (rest : Bytes)
      → AllReplies rs
      → read_values read_resp (count rs) (print_all rs ++ rest) ≡ some (seen_all rs, rest)
  read_values-print end rest h = read_values_end rest
  read_values-print (also r rs) rest (h, hs) =
      ap (read_values read_resp (suc (count rs))) (append_assoc (print r) (print_all rs) rest)
      ∙ read_values_also (seen r) (seen_all rs) (count rs) _ _ rest
          (read_resp-print_lem r (print_all rs ++ rest) h) (read_values-print rs rest hs)

-- Every reply that the protocol allows, nested arrays included, whose lines are text without a newline
-- and whose lengths and numbers an `i64` holds: it is read as what the client keeps of it, up to
-- where the next reply begins.
pub read_resp-print :
    (r : Reply) (rest : Bytes) → IsReply r → read_resp (print r ++ rest) ≡ some (seen r, rest)
read_resp-print r rest h = read_resp-print_lem r rest h
