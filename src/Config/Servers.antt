-- ===== src/Config/Servers.antt =====
-- `load_servers` of src/config.rs.
use ruzor.Prelude.{
  ℕ, ◌<◌, ◌≡◌, refl, Bool, true, ◌&&◌, ◌||◌, Option, none, some, List, [], ◌∷◌, ◌==◌, arith, inl,
  inr, Bool-cases, if◌then◌else◌, length, All,
}
use ruzor.Text.{Text, codes, is_empty, trim, lines, within}
use ruzor.Text.Decimal.{parse_nat}
use ruzor.Message.{u16_max}
use ruzor.Server.Operations.{Address}
use ruzor.Config.{is_comment}

-- `line.rsplit_once(':')`
unfoldable pub rsplit_once : ℕ → Text → Option (Text × Text)
rsplit_once sep [] = none
rsplit_once sep (c ∷ s) = elim (rsplit_once sep s) [
  | some (a, b) ↦ some (c ∷ a, b)
  | none ↦ if c == sep then some ([], s) else none
]

abbrev pub is_host_char : ℕ → Bool
is_host_char c =
    within b'a' b'z' c || within b'A' b'Z' c || within b'0' b'9' c || c == b'.' || c == b'-'

-- `host.chars().all(…)`
abbrev pub is_host : Text → Bool
is_host [] = true
is_host (c ∷ s) = is_host_char c && is_host s

abbrev with_port : Text → Option ℕ → Option Address
with_port host none = none
with_port host (some port) = some (host, port)

abbrev server_of : Option (Text × Text) → Option Address
server_of none = none
server_of (some (host, port)) =
    if is_empty host
    then none
    else if is_host host
    then with_port host (parse_nat u16_max port)
    else none

-- one line of `load_servers`
unfoldable pub server_line : Text → Option Address
server_line raw =
    let line = trim raw in if is_comment line then none else server_of (rsplit_once b':' line)

abbrev keep : Option Address → List Address → List Address
keep none servers = servers
keep (some server) servers = server ∷ servers

server_lines : List Text → List Address
server_lines [] = []
server_lines (line ∷ rest) = keep (server_line line) (server_lines rest)

-- the server of a file that has none
abbrev pub or_public : List Address → List Address
or_public [] = (codes "public.pyzor.org", 24441) ∷ []
or_public (server ∷ rest) = server ∷ rest

-- `load_servers`
pub load_servers : Option Text → List Address
load_servers none = or_public []
load_servers (some text) = or_public (server_lines (lines text))

-- A server's name has letters, digits, points and dashes only.
abbrev pub IsServer : Address → Type 0
IsServer (host, port) = (0 < length host) × (is_host host ≡ true)

with_port-IsServer :
    (host : Text) (port : Option ℕ) (servers : List Address)
    → (0 < length host) × (is_host host ≡ true)
    → All IsServer servers
    → All IsServer (keep (with_port host port) servers)
with_port-IsServer host none servers good h = h
with_port-IsServer host (some p) servers good h = (good, h)

server_of-IsServer :
    (parts : Option (Text × Text)) (servers : List Address)
    → All IsServer servers
    → All IsServer (keep (server_of parts) servers)
server_of-IsServer none servers h = h
server_of-IsServer (some ([], port)) servers h = h
server_of-IsServer (some (c ∷ host, port)) servers h = elim (Bool-cases (is_host (c ∷ host))) [
  | inr bad ↦ rw bad h
  | inl good ↦
      rw good (with_port-IsServer (c ∷ host) (parse_nat u16_max port) servers (omega arith, good) h)
]

server_line-IsServer :
    (raw : Text) (servers : List Address)
    → All IsServer servers
    → All IsServer (keep (server_line raw) servers)
unfolding server_line
server_line-IsServer raw servers h = elim (Bool-cases (is_comment (trim raw))) [
  | inl skipped ↦ rw skipped h
  | inr read ↦ rw read (server_of-IsServer (rsplit_once b':' (trim raw)) servers h)
]

server_lines-IsServer : (rows : List Text) → All IsServer (server_lines rows)
unfolding server_lines
server_lines-IsServer [] = tt
server_lines-IsServer (row ∷ rows) =
    server_line-IsServer row (server_lines rows) (server_lines-IsServer rows)

or_public-IsServer :
    (servers : List Address)
    → All IsServer servers
    → All IsServer (or_public servers) × (0 < length (or_public servers))
or_public-IsServer [] h = (((omega arith, refl), tt), omega arith)
or_public-IsServer (server ∷ rest) h = (h, omega arith)

-- Whatever the file of servers holds, the list that is read is not empty, and every name in it is
-- not empty and has letters, digits, points and dashes only.
pub load_servers-IsServer :
    (file : Option Text) → All IsServer (load_servers file) × (0 < length (load_servers file))
unfolding load_servers
load_servers-IsServer none = or_public-IsServer [] tt
load_servers-IsServer (some text) =
    or_public-IsServer (server_lines (lines text)) (server_lines-IsServer (lines text))
