-- ===== src/Runner/Commands.antt =====
-- src/bin/ruzor.rs: the commands that ask servers for a status or for counts, the local whitelist and
-- the keys of genkey. `ask` stands for the method of `Client` that the command calls.
use ruzor.Prelude.{
  ◌≡◌, refl, Bool, true, false, ◌&&◌, ◌||◌, Option, none, some, List, [], ◌∷◌, ◌++◌, if◌then◌else◌,
}
use ruzor.Text.{Text, Bytes, codes, eq_text, join}
use ruzor.Text.Utf8.{as_bytes}
use ruzor.Error.{Result, ok, err}
use ruzor.Message.{Message, get, head_tuple, is_ok}
use ruzor.Server.Operations.{Address}
use ruzor.Engines.File.{sort_rows}
use ruzor.Sha1.{digest, hexdigest}
use ruzor.Runner.Check.{server_column, error_tuple}

-- what a command has printed, and whether it succeeds so far
pub record Printed : Type 0 where
  pub output : List Text
  pub all_ok : Bool

abbrev pub nothing_printed : Printed
nothing_printed = record { output = []; all_ok = true }

-- the lines of a response or of an error, with `more` for the lines behind a response's own
unfoldable pub print_response : (Message → List Text) → Address → Result Message → Printed → Printed
print_response more server (ok m) p = record {
  output = p.output ++ ((server_column server ++ head_tuple m) ∷ more m);
  all_ok = p.all_ok && is_ok m;
}
print_response more server (err e) p = record {
  output = p.output ++ (server_column server ++ error_tuple e) ∷ [];
  all_ok = false;
}

-- the keys that the info command prints
abbrev info_keys : List Text
info_keys =
    codes "Count"
    ∷ codes "Entered"
    ∷ codes "Updated"
    ∷ codes "WL-Count"
    ∷ codes "WL-Entered"
    ∷ codes "WL-Updated"
    ∷ []

module _ {S : Type 0} (more : Message → List Text)
    (ask : Text → Address → S → Result Message × S) where
  abbrev answered : Address → Result Message × S → Printed → Printed × S
  answered server (response, s) p = (print_response more server response p, s)

  -- the loop over the servers
  ask_servers : Text → List Address → Printed × S → Printed × S
  ask_servers digest [] p = p
  ask_servers digest (server ∷ servers) (p, s) =
      ask_servers digest servers (answered server (ask digest server s) p)

  -- the loop over the digests, of which the empty ones are left out
  ask_digests : List Text → List Address → Printed × S → Printed × S
  ask_digests [] servers p = p
  ask_digests ([] ∷ digests) servers p = ask_digests digests servers p
  ask_digests ((c ∷ digest) ∷ digests) servers p =
      ask_digests digests servers (ask_servers (c ∷ digest) servers p)

abbrev no_more : Message → List Text
no_more m = []

-- `command_ping`
unfoldable pub command_ping :
    {S : Type 0} → (Address → S → Result Message × S) → List Address → S → Printed × S
unfolding ask_servers
command_ping ask servers s = ask_servers no_more (λ digest. ask) [] servers (nothing_printed, s)

-- `command_simple_digest`, for `report` and `whitelist`
unfoldable pub command_simple_digest :
    {S : Type 0}
    → (Text → Address → S → Result Message × S)
    → List Text
    → List Address
    → S
    → Printed × S
unfolding ask_digests ask_servers
command_simple_digest ask digests servers s =
    ask_digests no_more ask digests servers (nothing_printed, s)

abbrev info_value : (Text → Text → Text) → Text → Option Text → List Text
info_value format key none = []
info_value format key (some value) = (b'\t' ∷ (key ++ (codes ": " ++ format key value))) ∷ []

info_values : (Text → Text → Text) → List Text → Message → List Text
info_values format [] m = []
info_values format (key ∷ keys) m = info_value format key (get m key) ++ info_values format keys m

-- the values, and an empty line
info_lines : (Text → Text → Text) → Message → List Text
unfolding info_values
info_lines format m = (if is_ok m then info_values format info_keys m else []) ++ [] ∷ []

-- `command_info`, with `format_info_value` for a time zone
unfoldable pub command_info :
    {S : Type 0}
    → (Text → Text → Text)
    → (Text → Address → S → Result Message × S)
    → List Text
    → List Address
    → S
    → Printed × S
unfolding ask_digests ask_servers info_lines
command_info format ask digests servers s =
    ask_digests (info_lines format) ask digests servers (nothing_printed, s)

contains_digest : Text → List Text → Bool
contains_digest digest [] = false
contains_digest digest (known ∷ more) = eq_text known digest || contains_digest digest more

without_digest : Text → List Text → List Text
without_digest digest [] = []
without_digest digest (known ∷ more) =
    let rest = without_digest digest more in if eq_text known digest then rest else known ∷ rest

-- one digest of the input
abbrev change_whitelist : Bool → Text → List Text → List Text
change_whitelist true digest whitelist =
    if contains_digest digest whitelist then whitelist else digest ∷ whitelist
change_whitelist false digest whitelist = without_digest digest whitelist

change_each : Bool → List Text → List Text → List Text
change_each add [] whitelist = whitelist
change_each add (digest ∷ digests) whitelist =
    change_each add digests (change_whitelist add digest whitelist)

-- `command_local_whitelist` less its log lines, as the text that `write_local_whitelist` writes
unfoldable pub command_local_whitelist : Bool → List Text → List Text → Text
unfolding change_each contains_digest without_digest
command_local_whitelist add digests whitelist =
    join (codes "\n") (sort_rows (change_each add digests whitelist))

-- `genkey_from_password_and_salt`
unfoldable pub genkey_from_password_and_salt : Text → Bytes → Text × Text
genkey_from_password_and_salt password salt =
    (hexdigest salt, hexdigest (digest salt ++ as_bytes password))

whitelist_test :
    change_each true (codes "b" ∷ codes "b" ∷ []) (codes "a" ∷ []) ≡ codes "b" ∷ codes "a" ∷ []
unfolding change_each contains_digest eq_text
whitelist_test = refl

unwhitelist_test :
    change_each false (codes "b" ∷ codes "c" ∷ []) (codes "a" ∷ codes "b" ∷ []) ≡ codes "a" ∷ []
unfolding change_each without_digest eq_text
unwhitelist_test = refl
