-- ===== src/Server/Wire.antt =====
-- The way of a packet in src/server.rs: `clean_legacy_packet` does not disturb a message that
-- a client printed.
use ruzor.Prelude.{
  ℕ, ◌≡◌, ◌≢◌, refl, sym, ap, ◌∙◌, List, [], ◌∷◌, ◌++◌, append_assoc, arith, ==_false, All,
  All-append, Lacks, length, length-append, ◌<◌,
}
use ruzor.Text.{Text, Bytes, lines, unify_newlines}
use ruzor.Text.Utf8.{as_bytes, as_bytes-append, from_utf8_lossy, Lacks-as_bytes}
use ruzor.Message.{Message, Header, as_string, print_headers, parse}
use ruzor.Message.RoundTrip.{Fits, IsWellFormed, parse-as_string}
use ruzor.Server.{Clock, clean_legacy_packet, handle_packet, handle_request}
use ruzor.Server.Admission.{Policy}
use ruzor.Server.Operations.{Setting, World}

clean-cons :
    (c : ℕ) (s : Bytes) → c ≢ b'\n' → clean_legacy_packet (c ∷ s) ≡ c ∷ clean_legacy_packet s
unfolding clean_legacy_packet
clean-cons c [] h = refl
clean-cons c (d ∷ s) h = rw (==_false c b'\n' h)

clean-append :
    (l s : Bytes) → Lacks b'\n' l → clean_legacy_packet (l ++ s) ≡ l ++ clean_legacy_packet s
clean-append [] s h = refl
clean-append (c ∷ l) s (hc, h) = clean-cons c (l ++ s) hc ∙ ap (◌∷◌ c) (clean-append l s h)

clean_newline :
    (d : ℕ) (s : Bytes)
    → d ≢ b'\n'
    → clean_legacy_packet (b'\n' ∷ d ∷ s) ≡ b'\n' ∷ clean_legacy_packet (d ∷ s)
unfolding clean_legacy_packet
clean_newline d s h = rw (==_false d b'\n' h)

-- the bytes of a header line, which is never empty
abbrev line_bytes : Text → Text → Bytes
line_bytes name value = as_bytes (name ++ (b':' ∷ b' ' ∷ value))

print_text :
    (name value : Text) (hs : List Header)
    → print_headers ((name, value) ∷ hs)
      ≡ (name ++ (b':' ∷ b' ' ∷ value)) ++ (b'\n' ∷ print_headers hs)
unfolding print_headers
print_text name value hs = sym (append_assoc name (b':' ∷ b' ' ∷ value) (b'\n' ∷ print_headers hs))

as_bytes_newline : (s : Text) → as_bytes (b'\n' ∷ s) ≡ b'\n' ∷ as_bytes s
unfolding as_bytes
as_bytes_newline s = refl

print_bytes :
    (name value : Text) (hs : List Header)
    → as_bytes (print_headers ((name, value) ∷ hs))
      ≡ line_bytes name value ++ (b'\n' ∷ as_bytes (print_headers hs))
print_bytes name value hs =
    ap as_bytes (print_text name value hs)
    ∙ as_bytes-append (name ++ (b':' ∷ b' ' ∷ value)) (b'\n' ∷ print_headers hs)
    ∙ ap (λ (x : Bytes). line_bytes name value ++ x) (as_bytes_newline (print_headers hs))

line_bytes-Lacks : (name value : Text) → Fits (name, value) → Lacks b'\n' (line_bytes name value)
line_bytes-Lacks name value f = Lacks-as_bytes _ (
    All-append (λ c. c ≢ b'\n') name (b':' ∷ b' ' ∷ value) f.name_line
      (omega arith, (omega arith, f.value_line)))

length-line_bytes : (name value : Text) → 0 < length (line_bytes name value)
length-line_bytes name value =
    let parts = as_bytes-append name (b':' ∷ b' ' ∷ value) in
    rw parts (
      omega
        (arith, length-append (as_bytes name) (as_bytes (b':' ∷ b' ' ∷ value)), length-colon value))
  where
    length-colon : (value : Text) → 0 < length (as_bytes (b':' ∷ b' ' ∷ value))
    length-colon value = unfold as_bytes in omega arith

-- A line that is not empty is kept together with the newline in front of it.
clean_line :
    (l s : Bytes)
    → 0 < length l
    → Lacks b'\n' l
    → clean_legacy_packet (b'\n' ∷ (l ++ s)) ≡ b'\n' ∷ clean_legacy_packet (l ++ s)
clean_line [] s h lacks = absurd (omega arith)
clean_line (d ∷ l) s h (hd, lacks) = clean_newline d (l ++ s) hd

clean-end : clean_legacy_packet (b'\n' ∷ b'\n' ∷ []) ≡ b'\n' ∷ b'\n' ∷ []
unfolding clean_legacy_packet
clean-end = refl

-- what follows a line's newline
clean-rest :
    (hs : List Header)
    → All Fits hs
    → clean_legacy_packet (b'\n' ∷ as_bytes (print_headers hs))
      ≡ b'\n' ∷ as_bytes (print_headers hs)
clean-rest [] h = unfold print_headers as_bytes in clean-end
clean-rest ((name, value) ∷ hs) (f, h) =
    let l = line_bytes name value in
    let lacks = line_bytes-Lacks name value f in
    rw (print_bytes name value hs) (
      clean_line l _ (length-line_bytes name value) lacks
      ∙ ap (◌∷◌ b'\n') (clean-append l _ lacks ∙ ap (λ (x : Bytes). l ++ x) (clean-rest hs h)))

clean-as_bytes :
    (h : Header) (hs : List Header)
    → All Fits (h ∷ hs)
    → clean_legacy_packet (as_bytes (print_headers (h ∷ hs))) ≡ as_bytes (print_headers (h ∷ hs))
clean-as_bytes (name, value) hs (f, h) =
    let l = line_bytes name value in
    rw (print_bytes name value hs) (
      clean-append l _ (line_bytes-Lacks name value f)
      ∙ ap (λ (x : Bytes). l ++ x) (clean-rest hs h))

parse_printed :
    (hs : List Header)
    → All Fits hs
    → parse (clean_legacy_packet (as_bytes (print_headers hs))) ≡ record { headers = hs }
parse_printed [] h =
    unfold clean_legacy_packet as_bytes print_headers parse lines unify_newlines from_utf8_lossy in
    refl
parse_printed (x ∷ hs) h =
    ap parse (clean-as_bytes x hs h)
    ∙ (unfold as_string in parse-as_string (record { headers = x ∷ hs }) h)

-- The server parses what a client printed: for every well-formed message, the empty one
-- included, a packet with its text is cleaned and parsed to that message.
pub parse-clean_legacy_packet :
    (m : Message) → IsWellFormed m → parse (clean_legacy_packet (as_bytes (as_string m))) ≡ m
unfolding as_string
parse-clean_legacy_packet m h = parse_printed m.headers h

-- So a packet that a client printed is handled as the message that the client meant.
pub handle_packet-as_string :
    {S : Type 0} (policy : Policy) (setting : Setting S) (clock : Clock) (m : Message) (w : World S)
    → IsWellFormed m
    → handle_packet policy setting clock (as_bytes (as_string m)) w
      ≡ handle_request policy setting clock m w
handle_packet-as_string policy setting clock m w h =
    unfold handle_packet in
    ap (λ (x : Message). handle_request policy setting clock x w) (parse-clean_legacy_packet m h)
