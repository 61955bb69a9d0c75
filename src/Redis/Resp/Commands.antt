-- ===== src/Redis/Resp/Commands.antt =====
-- The commands that src/redis_engine.rs writes, as arrays of strings in the protocol of Redis.
use ruzor.Prelude.{
  ℕ, ◌≤◌, ◌≡◌, refl, sym, ap, ◌∙◌, List, [], ◌∷◌, ◌++◌, some, arith, length, All, append_assoc,
}
use ruzor.Prelude.Int.{pos, i64_max}
use ruzor.Text.{Text, Bytes}
use ruzor.Text.Decimal.{nat_to_string, int_to_string, IsDigit, nat_to_string-IsDigit}
use ruzor.Text.Utf8.{as_bytes}
use ruzor.Redis.Resp.{Resps, array, bulk, nil, cons, crlf, write_args, write_command, read_resp}
use ruzor.Redis.Resp.Replies.{
  Replies, end, also, string, several, count, line_of, print, print_all, seen, seen_all, IsReply,
  AllReplies, read_resp-print,
}

strings : List Bytes → Replies
strings [] = end
strings (arg ∷ args) = also (string arg) (strings args)

-- the array that a server reads
unfoldable pub values : List Bytes → Resps
values [] = nil
values (arg ∷ args) = cons (bulk (some arg)) (values args)

as_bytes-IsDigit : (s : Text) → All IsDigit s → as_bytes s ≡ s
unfolding as_bytes
as_bytes-IsDigit [] h = refl
as_bytes-IsDigit (c ∷ s) ((lo, hi), h) = ground (arith, as_bytes-IsDigit s h)

as_bytes-pos : (n : ℕ) → as_bytes (int_to_string (pos n)) ≡ nat_to_string n
unfolding int_to_string
as_bytes-pos n = as_bytes-IsDigit (nat_to_string n) (nat_to_string-IsDigit n)

count-strings : (args : List Bytes) → count (strings args) ≡ length args
unfolding strings
count-strings [] = refl
count-strings (arg ∷ args) = omega (arith, count-strings args)

regroup :
    (a b rest : Bytes) → ((a ++ crlf) ++ (b ++ crlf)) ++ rest ≡ a ++ (crlf ++ (b ++ (crlf ++ rest)))
regroup a b rest =
    append_assoc (a ++ crlf) (b ++ crlf) rest
    ∙ append_assoc a crlf ((b ++ crlf) ++ rest)
    ∙ ap (λ (s : Bytes). a ++ (crlf ++ s)) (append_assoc b crlf rest)

write_args-print_all : (args : List Bytes) → print_all (strings args) ≡ write_args args
unfolding strings print write_args
write_args-print_all [] = refl
write_args-print_all (arg ∷ args) =
    let header : as_bytes (int_to_string (pos (length arg))) ≡ nat_to_string (length arg) =
      as_bytes-pos (length arg) in
    rw (header, write_args-print_all args)
      (ap (◌∷◌ b'$') (regroup (nat_to_string (length arg)) arg (write_args args)))

write_command-print : (args : List Bytes) → print (several (strings args)) ≡ write_command args
unfolding print write_command
write_command-print args =
    ap (λ (n : ℕ). line_of b'*' (int_to_string (pos n)) ++ print_all (strings args))
      (count-strings args)
    ∙ ap (λ (s : Bytes). b'*' ∷ ((s ++ crlf) ++ print_all (strings args)))
        (as_bytes-pos (length args))
    ∙ ap (λ (s : Bytes). b'*' ∷ ((nat_to_string (length args) ++ crlf) ++ s))
        (write_args-print_all args)
    ∙ ap (◌∷◌ b'*') (append_assoc (nat_to_string (length args)) crlf (write_args args))

AllReplies-strings :
    (args : List Bytes) → All (λ arg. length arg ≤ i64_max) args → AllReplies (strings args)
unfolding strings IsReply
AllReplies-strings [] h = tt
AllReplies-strings (arg ∷ args) (h, hs) = (h, AllReplies-strings args hs)

several-IsReply :
    (args : List Bytes)
    → length args ≤ i64_max
    → All (λ arg. length arg ≤ i64_max) args
    → IsReply (several (strings args))
unfolding IsReply
several-IsReply args h hs = (omega (arith, count-strings args), AllReplies-strings args hs)

seen_all-strings : (args : List Bytes) → seen_all (strings args) ≡ values args
unfolding strings values seen_all
seen_all-strings [] = refl
seen_all-strings (arg ∷ args) = ap (cons (bulk (some arg))) (seen_all-strings args)

-- Whatever bytes the arguments are, line breaks included, where an `i64` holds their number and
-- lengths: a reader of the protocol reads the command as the array of these arguments, and
-- goes on behind it.
pub read_resp-write_command :
    (args : List Bytes) (rest : Bytes)
    → length args ≤ i64_max
    → All (λ arg. length arg ≤ i64_max) args
    → read_resp (write_command args ++ rest) ≡ some (array (values args), rest)
unfolding seen
read_resp-write_command args rest h hs =
    ap (λ (s : Bytes). read_resp (s ++ rest)) (sym (write_command-print args))
    ∙ read_resp-print (several (strings args)) rest (several-IsReply args h hs)
    ∙ ap (λ (vs : Resps). some (array vs, rest)) (seen_all-strings args)
