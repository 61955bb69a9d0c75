-- ===== src/Tests/Config.antt =====
-- Files that are read, a database in a file, and requests that are forwarded.
use ruzor.Prelude.{◌≡◌, ◌<◌, refl, true, false, Option, none, some, List, [], ◌∷◌, length, All}
use ruzor.Text.{Text, codes}
use ruzor.Error.{Result, ok}
use ruzor.Message.{Message}
use ruzor.Account.{ascii_lower}
use ruzor.LocalTime.{TimeZone, utc_components, civil_seconds}
use ruzor.Engines.File.{file_database, view, file_database-IsLawful}
use ruzor.Engines.Lawful.{IsLawful}
use ruzor.Forwarder.{ForwardRequest}
use ruzor.Server.Operations.{Address}
use ruzor.Server.Admission.{is_allowed}
use ruzor.Config.{py_lines}
use ruzor.Config.Access.{load_access_file, rules_of_lines, decide, is_allowed-load_access_file}
use ruzor.Config.Servers.{load_servers, IsServer, load_servers-IsServer}
use ruzor.Prelude.{◌≤◌, ◌⊎◌}
use ruzor.Digest.{predigest_with_spec, should_handle_line, digest_spec}
use ruzor.Digest.Bounds.{asked, predigest_with_spec_lem}
use ruzor.Client.Forwarding.{BatchClient}
use ruzor.Client.{address_eq}

abbrev rules : Text
rules = codes "check report : alice bob : allow\nreport : bob : deny\n"

is_allowed-load_access_file_example :
    is_allowed (load_access_file ascii_lower [] (some rules)) (codes "bob") (codes "report")
    ≡ decide (rules_of_lines [] ascii_lower (py_lines rules)) (codes "bob") (codes "report") false
is_allowed-load_access_file_example =
    is_allowed-load_access_file ascii_lower [] rules (codes "bob") (codes "report")

abbrev server_file : Text
server_file = codes "# mirrors\none.example:24441\nbad host:1\n"

load_servers-IsServer_example :
    All IsServer (load_servers (some server_file)) × (0 < length (load_servers (some server_file)))
load_servers-IsServer_example = load_servers-IsServer (some server_file)

abbrev utc : TimeZone
utc = record { localtime = λ t. some (utc_components t); mktime = civil_seconds }

abbrev writes : Text → Result (Unit {0})
writes text = ok tt

file_database-IsLawful_example : IsLawful (file_database utc writes) view
file_database-IsLawful_example = file_database-IsLawful utc writes (λ text. refl)

abbrev sends : Message → Address → Result (Unit {0})
sends m address = ok tt

abbrev mirrors : List Address
mirrors = (codes "one", 1) ∷ (codes "two", 2) ∷ []

abbrev requests : List ForwardRequest
requests =
    (record { digest = codes "aa"; whitelist = false })
    ∷ (record { digest = codes "bb"; whitelist = true })
    ∷ []

abbrev idle : BatchClient
idle = record {
  reports = record { requests = []; sent = [] };
  whitelists = record { requests = []; sent = [] };
}

abbrev seen : List (Option ForwardRequest)
seen = some (record { digest = codes "aa"; whitelist = false }) ∷ none ∷ []

abbrev payloads : List Text
payloads = codes "one two three four\nhttp://a.b x\nshort\nfive six seven" ∷ []

predigest_with_spec_lem_example :
    All (λ line. should_handle_line line ≡ true) (predigest_with_spec payloads digest_spec)
    × ((length (predigest_with_spec payloads digest_spec) ≤ 4)
        ⊎ (length (predigest_with_spec payloads digest_spec) ≤ asked digest_spec))
predigest_with_spec_lem_example = predigest_with_spec_lem payloads digest_spec
