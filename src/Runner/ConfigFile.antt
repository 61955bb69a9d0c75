-- ===== src/Runner/ConfigFile.antt =====
-- src/bin/ruzor.rs: what the configuration file changes where the command line set nothing, and what is
-- asked of the other files.
use ruzor.Prelude.{
  Bool, false, not, ◌&&◌, ◌||◌, Option, none, some, List, [], ◌∷◌, if◌then◌else◌, map,
}
use ruzor.Text.{Text, codes, eq_text, is_empty, lines, starts_with, to_ascii_lowercase, trim}
use ruzor.Text.Decimal.{parse_i64, parse_nat}
use ruzor.Message.{is_some, or_default}
use ruzor.Config.{read_ini_section}
use ruzor.Config.Servers.{rsplit_once, is_host}
use ruzor.Digest.Transfer.{is_one_of}
use ruzor.Runner.{ClientConfig, parse_u64}

-- the `match` on a key, whose guards are the options of the command line
unfoldable pub apply_setting : Text → Text → ClientConfig → ClientConfig
apply_setting key value c =
    let o = c.overrides in
    if eq_text key (codes "serversfile") && not o.servers_file
    then record c { servers_file = value }
    else if eq_text key (codes "accountsfile") && not o.accounts_file
    then record c { accounts_file = value }
    else if eq_text key (codes "localwhitelist") && not o.local_whitelist
    then record c { local_whitelist = value }
    else if eq_text key (codes "logfile") && not o.log_file
    then record c { log_file = value }
    else if eq_text key (codes "timeout") && not o.timeout
    then record c { timeout = or_default c.timeout (parse_u64 value) }
    else if eq_text key (codes "style") && not o.style
    then record c { style = value }
    else if eq_text key (codes "reportthreshold") && not o.report_threshold
    then record c { report_threshold = or_default c.report_threshold (parse_i64 value) }
    else if eq_text key (codes "whitelistthreshold") && not o.whitelist_threshold
    then record c { whitelist_threshold = or_default c.whitelist_threshold (parse_i64 value) }
    else c

-- the loop, in the order that the map of values is walked in
apply_settings : List (Text × Text) → ClientConfig → ClientConfig
apply_settings [] c = c
apply_settings ((key, value) ∷ rest) c =
    apply_settings rest (apply_setting (map to_ascii_lowercase key) value c)

-- `apply_config_file`, with the text of the file, and `lower` for `str::to_lowercase`
unfoldable pub apply_config_file : (Text → Text) → Option Text → ClientConfig → ClientConfig
unfolding apply_settings
apply_config_file lower file c = apply_settings (read_ini_section lower (codes "client") file) c

is_entry : Option (Text × Text) → Bool
is_entry none = false
is_entry (some (host, port)) = not (is_empty host) && is_host host && is_some (parse_nat 65535 port)

line_has_entry : Text → Bool
unfolding is_entry
line_has_entry raw =
    let line = trim raw in
    not (is_empty line || starts_with (codes "#") line) && is_entry (rsplit_once b':' line)

any_entry : List Text → Bool
any_entry [] = false
any_entry (line ∷ rest) = line_has_entry line || any_entry rest

-- `servers_file_has_entries`, with the text of the file
unfoldable pub servers_file_has_entries : Option Text → Bool
unfolding any_entry line_has_entry
servers_file_has_entries none = false
servers_file_has_entries (some text) = any_entry (lines text)

-- `command_reads_stdin`
pub command_reads_stdin : Text → Bool
command_reads_stdin command = is_one_of command (
    codes "pong"
    ∷ codes "check"
    ∷ codes "info"
    ∷ codes "report"
    ∷ codes "whitelist"
    ∷ codes "digest"
    ∷ codes "predigest"
    ∷ codes "local_whitelist"
    ∷ codes "local_unwhitelist"
    ∷ [])
