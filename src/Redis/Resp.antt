-- ===== src/Redis/Resp.antt =====
-- src/redis_engine.rs: commands as they are written to the connection, and replies as they are
-- read from the bytes that it still holds. An `io::Error` is `none`: the callers forget its text.
pub mod Replies
pub mod Commands
pub mod Fuel
use ruzor.Prelude.{
  ℕ, zero, suc, ◌≡◌, refl, Bool, ◌&&◌, Option, none, some, List, [], ◌∷◌, ◌++◌, ◌==◌, leb,
  if◌then◌else◌, length, take, drop,
}
use ruzor.Prelude.Int.{ℤ, pos, negsuc}
use ruzor.Text.{Text, Bytes, codes}
use ruzor.Text.Decimal.{parse_i64, nat_to_string}
use ruzor.Text.Utf8.{from_utf8}

-- `null_array` is `Array(None)`.
mutual
  pub data Resp : Type 0 where
    simple error integer null_array : Resp
    bulk : Option Bytes → Resp
    array : Resps → Resp

  pub data Resps : Type 0 where
    nil : Resps
    cons : Resp → Resps → Resps

abbrev pub crlf : Bytes
crlf = b'\r' ∷ b'\n' ∷ []

write_args : List Bytes → Bytes
write_args [] = []
write_args (arg ∷ args) =
    b'$' ∷ (nat_to_string (length arg) ++ (crlf ++ (arg ++ (crlf ++ write_args args))))

-- `write_command`
unfoldable pub write_command : List Bytes → Bytes
unfolding write_args
write_command args = b'*' ∷ (nat_to_string (length args) ++ (crlf ++ write_args args))

-- `read_until(b'\n')`: the newline is taken too
read_until_newline : Bytes → Bytes × Bytes
read_until_newline [] = ([], [])
read_until_newline (c ∷ s) =
    let (line, rest) = read_until_newline s in if c == b'\n' then (c ∷ [], s) else (c ∷ line, rest)

-- without the "\r\n" or the "\n" that it ends with
without_newline : Bytes → Bytes
without_newline [] = []
without_newline (c ∷ []) = if c == b'\n' then [] else c ∷ []
without_newline (c ∷ d ∷ []) =
    if d == b'\n' then (if c == b'\r' then [] else c ∷ []) else c ∷ d ∷ []
without_newline (c ∷ d ∷ e ∷ s) = c ∷ without_newline (d ∷ e ∷ s)

abbrev pub with_rest : Option Text → Bytes → Option (Text × Bytes)
with_rest none rest = none
with_rest (some line) rest = some (line, rest)

decoded : Bytes × Bytes → Option (Text × Bytes)
decoded (bytes, rest) = with_rest (from_utf8 (without_newline bytes)) rest

-- `read_line`
unfoldable pub read_line : Bytes → Option (Text × Bytes)
unfolding read_until_newline without_newline decoded
read_line [] = none
read_line (c ∷ s) = decoded (read_until_newline (c ∷ s))

-- `read_exact` for a buffer of `n` bytes
abbrev pub read_exact : ℕ → Bytes → Option (Bytes × Bytes)
read_exact n s = if leb n (length s) then some (take n s, drop n s) else none

-- `read_crlf`, with what is behind it
unfoldable pub read_crlf : Bytes → Option Bytes
read_crlf (c ∷ d ∷ s) = if c == b'\r' && d == b'\n' then some s else none
read_crlf _ = none

abbrev pub bulk_behind : Option (Bytes × Bytes) → Option (Resp × Bytes)
bulk_behind none = none
bulk_behind (some (bytes, s)) = elim (read_crlf s) [
  | none ↦ none
  | some rest ↦ some (bulk (some bytes), rest)
]

unfoldable pub read_bulk : Option ℤ → Bytes → Option (Resp × Bytes)
read_bulk none s = none
read_bulk (some (negsuc zero)) s = some (bulk none, s)
read_bulk (some (negsuc (suc n))) s = none
read_bulk (some (pos n)) s = bulk_behind (read_exact n s)

abbrev pub in_front : Resp → Option (Resps × Bytes) → Option (Resps × Bytes)
in_front v none = none
in_front v (some (vs, rest)) = some (cons v vs, rest)

abbrev pub values_behind :
    (Bytes → Option (Resps × Bytes)) → Option (Resp × Bytes) → Option (Resps × Bytes)
values_behind more none = none
values_behind more (some (v, rest)) = in_front v (more rest)

-- `for _ in 0..len`
unfoldable pub read_values : (Bytes → Option (Resp × Bytes)) → ℕ → Bytes → Option (Resps × Bytes)
read_values read zero s = some (nil, s)
read_values read (suc n) s = values_behind (read_values read n) (read s)

abbrev pub as_array : Option (Resps × Bytes) → Option (Resp × Bytes)
as_array none = none
as_array (some (vs, rest)) = some (array vs, rest)

unfoldable pub read_array :
    (Bytes → Option (Resp × Bytes)) → Option ℤ → Bytes → Option (Resp × Bytes)
read_array read none s = none
read_array read (some (negsuc zero)) s = some (null_array, s)
read_array read (some (negsuc (suc n))) s = none
read_array read (some (pos n)) s = as_array (read_values read n s)

abbrev pub integer_line : Option ℤ → Bytes → Option (Resp × Bytes)
integer_line none s = none
integer_line (some n) s = some (integer, s)

-- what a reply with the prefix `c` is, from its first line and the bytes behind it
unfoldable pub read_behind :
    (Bytes → Option (Resp × Bytes)) → ℕ → Option (Text × Bytes) → Option (Resp × Bytes)
read_behind read c none = none
read_behind read c (some (line, s)) =
    if c == b'+'
    then some (simple, s)
    else if c == b'-'
    then some (error, s)
    else if c == b':'
    then integer_line (parse_i64 line) s
    else if c == b'$'
    then read_bulk (parse_i64 line) s
    else if c == b'*'
    then read_array read (parse_i64 line) s
    else none

-- a reply takes a byte, so as many rounds as there are bytes are enough
read_reply : ℕ → Bytes → Option (Resp × Bytes)
read_reply zero s = none
read_reply (suc f) [] = none
read_reply (suc f) (c ∷ s) = read_behind (read_reply f) c (read_line s)

-- `read_resp`
unfoldable pub read_resp : Bytes → Option (Resp × Bytes)
unfolding read_reply
read_resp s = read_reply (length s) s

resp_test :
    read_resp (codes "*2\r\n$7\r\nr_count\r\n$2\r\n24\r\n+")
    ≡ some (
      array (cons (bulk (some (codes "r_count"))) (cons (bulk (some (codes "24"))) nil)),
      b'+' ∷ [],
    )
unfolding read_resp read_behind read_line read_values from_utf8 read_array parse_i64 read_bulk
    read_crlf
resp_test = refl
