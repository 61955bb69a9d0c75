-- ===== src/Server/Usage.antt =====
-- src/server.rs: `log_usage_for_response`, what one request adds to the usage log.
use ruzor.Prelude.{List, [], ◌∷◌, ◌++◌, map, if◌then◌else◌, not}
use ruzor.Text.{Text, Bytes, codes, eq_text, join}
use ruzor.Message.{Message, get, get_all, parse, or_default}
use ruzor.Account.{anonymous_user}
use ruzor.PythonRepr.{single_quoted}
use ruzor.Server.{clean_legacy_packet}

pub data Entry : Type 0 where
  error info : Text → Entry

-- `format_digests_repr`
pub format_digests_repr : List Text → Text
format_digests_repr [] = codes "None"
format_digests_repr (d ∷ ds) =
    b'['
    ∷ (join (codes ", ") (map (λ digest. b'\'' ∷ (single_quoted digest ++ codes "'")) (d ∷ ds))
        ++ codes "]")

-- `log_usage_for_response`, where there is a logger
pub log_usage_for_response : Bytes → Text → Message → Entry
log_usage_for_response packet peer_ip response =
    let code = or_default (codes "0") (get response (codes "Code")) in
    let request = parse (clean_legacy_packet packet) in
    if not (eq_text code (codes "200"))
    then error (code ++ (codes ": " ++ or_default [] (get response (codes "Diag"))))
    else info (
        join (codes ",") (
          or_default anonymous_user (get request (codes "User"))
          ∷ peer_ip
          ∷ or_default [] (get request (codes "Op"))
          ∷ format_digests_repr (get_all request (codes "Op-Digest"))
          ∷ code
          ∷ []))
