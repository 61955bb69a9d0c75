-- ===== src/Runner/Check.antt =====
-- src/bin/ruzor.rs: the commands that ask servers, as the lines that they print and whether they succeed.
-- `ask` stands for the method of `Client` that the command calls, and `S` for the world that it changes.
use ruzor.Prelude.{
  Bool, true, false, not, ◌&&◌, ◌||◌, Option, none, some, List, [], ◌∷◌, ◌++◌, if◌then◌else◌,
}
use ruzor.Prelude.Int.{ℤ, pos, ltb_ℤ}
use ruzor.Text.{Text, Bytes, codes, eq_text, lines, trim}
use ruzor.Text.Decimal.{nat_to_string, int_to_string, parse_i64}
use ruzor.Text.Utf8.{from_utf8_lossy}
use ruzor.Error.{Result, ok, err, PyzorError, error_code, display}
use ruzor.Message.{Message, get, head_tuple, is_ok, or_default, parse}
use ruzor.Server.Operations.{Address}
use ruzor.Digest.Payloads.{digest_message, digest_mbox}

-- `{host}:{port}\t`
abbrev pub server_column : Address → Text
server_column (host, port) = host ++ (b':' ∷ (nat_to_string port ++ b'\t' ∷ []))

pub error_tuple : PyzorError → Text
error_tuple e = b'(' ∷ (nat_to_string (error_code e) ++ (codes ", '" ++ (display e ++ codes "')")))

trimmed_lines : List Text → List Text
trimmed_lines [] = []
trimmed_lines (line ∷ rest) = trim line ∷ trimmed_lines rest

-- `input_digests`; `none` is an unknown style
unfoldable pub input_digests :
    (Text → Text) → (Bytes → Text → Option Text) → Text → Bytes → Option (List Text)
unfolding trimmed_lines
input_digests to_lowercase registered style input =
    if eq_text style (codes "digests")
    then some (trimmed_lines (lines (from_utf8_lossy input)))
    else if eq_text style (codes "mbox")
    then some (digest_mbox to_lowercase registered input)
    else if eq_text style (codes "msg")
    then some (digest_message to_lowercase registered input ∷ [])
    else none

-- `mock_check_response`
pub mock_check_response : Message
mock_check_response =
    parse (codes "Code: 200\nDiag: OK\nPV: 2.1\nThread: 1024\nCount: 0\nWL-Count: 0\n\n")

-- what `command_check_like` has found
pub record Tally : Type 0 where
  pub all_ok : Bool
  pub found_hit : Bool
  pub whitelisted : Bool
  pub local_results : List Text
  pub remote_results : List Text

abbrev pub no_tally : Tally
no_tally = record {
  all_ok = true;
  found_hit = false;
  whitelisted = false;
  local_results = [];
  remote_results = [];
}

abbrev pub count_of : Message → Text → ℤ
count_of m name = or_default (pos 0) (parse_i64 (or_default (codes "0") (get m name)))

abbrev counts_line : Address → Message → Text
counts_line server m =
    server_column server
    ++ (head_tuple m
        ++ (b'\t'
            ∷ (int_to_string (count_of m (codes "Count"))
                ++ (b'\t' ∷ int_to_string (count_of m (codes "WL-Count"))))))

module _ (report_threshold whitelist_threshold : ℤ) where
  -- Does a response make the mail whitelisted, and if not, is it a hit?
  abbrev pub is_whitelisted : Message → Bool
  is_whitelisted m = ltb_ℤ whitelist_threshold (count_of m (codes "WL-Count"))

  abbrev pub is_hit : Message → Bool
  is_hit m = not (is_whitelisted m) && ltb_ℤ report_threshold (count_of m (codes "Count"))

  -- one response, of a server or for a digest of the local whitelist
  unfoldable pub judge : Bool → Address → Result Message → Tally → Tally
  unfolding error_tuple
  judge true server (ok m) t = record t {
    local_results = t.local_results ++ counts_line server m ∷ [];
  }
  judge false server (ok m) t =
      if is_ok m
      then record t {
        whitelisted = t.whitelisted || is_whitelisted m;
        found_hit = t.found_hit || is_hit m;
        remote_results = t.remote_results ++ counts_line server m ∷ [];
      }
      else record t {
        all_ok = false;
        remote_results =
            t.remote_results ++ (server_column server ++ (head_tuple m ++ b'\t' ∷ [])) ∷ [];
      }
  judge local_match server (err e) t = record t {
    all_ok = false;
    remote_results = t.remote_results ++ (server_column server ++ error_tuple e) ∷ [];
  }

  -- the result of the command
  abbrev pub verdict : Tally → Bool
  verdict t = t.all_ok && t.found_hit && not t.whitelisted

  module _ {S : Type 0} (ask : Text → Address → S → Result Message × S) where
    unfoldable pub contains_text : List Text → Text → Bool
    contains_text [] digest = false
    contains_text (known ∷ more) digest = eq_text known digest || contains_text more digest

    abbrev pub response_of : Bool → Text → Address → S → Result Message × S
    response_of true digest server s = (ok mock_check_response, s)
    response_of false digest server s = ask digest server s

    abbrev pub judged : Bool → Address → Result Message × S → Tally → Tally × S
    judged local_match server (response, s) t = (judge local_match server response t, s)

    -- the loop over the servers; `whitelist` is empty for a pong
    unfoldable pub check_servers : List Text → Text → List Address → Tally × S → Tally × S
    check_servers whitelist digest [] t = t
    check_servers whitelist digest (server ∷ servers) (t, s) =
        let local_match = contains_text whitelist digest in
        check_servers whitelist digest servers
          (judged local_match server (response_of local_match digest server s) t)

    -- the loop over the digests
    unfoldable pub check_digests : List Text → List Text → List Address → Tally × S → Tally × S
    check_digests whitelist [] servers t = t
    check_digests whitelist ([] ∷ digests) servers t = check_digests whitelist digests servers t
    check_digests whitelist ((c ∷ digest) ∷ digests) servers t =
        check_digests whitelist digests servers (check_servers whitelist (c ∷ digest) servers t)

    abbrev printed : Tally × S → (List Text × Bool) × S
    printed (t, s) = ((t.local_results ++ t.remote_results, verdict t), s)

    -- `command_check_like`
    unfoldable pub command_check_like :
        List Text → List Text → List Address → S → (List Text × Bool) × S
    unfolding check_digests check_servers
    command_check_like whitelist digests servers s =
        printed (check_digests whitelist digests servers (no_tally, s))
