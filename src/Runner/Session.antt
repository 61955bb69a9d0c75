-- ===== src/Runner/Session.antt =====
-- src/bin/ruzor.rs: a command, and the run over the commands of the command line, less its log lines.
-- `Asks` has the methods of `Client` that the commands call; `localtime` stands for localtime_r.
use ruzor.Prelude.{
  ◌≡◌, refl, ℕ, Bool, true, false, ◌&&◌, ◌||◌, ◌==◌, Option, none, some, List, [], ◌∷◌, ◌++◌,
  if◌then◌else◌,
}
use ruzor.Prelude.Int.{ℤ}
use ruzor.Text.{Text, Bytes, codes, eq_text, is_empty}
use ruzor.Text.Utf8.{from_utf8}
use ruzor.Error.{Result}
use ruzor.Message.{Message}
use ruzor.Config.{load_local_whitelist}
use ruzor.Digest.Payloads.{predigest_message}
use ruzor.Server.Operations.{Address}
use ruzor.Runner.{ClientConfig}
use ruzor.Runner.Check.{input_digests, command_check_like}
use ruzor.Runner.Commands.{
  Printed, command_ping, command_simple_digest, command_info, command_local_whitelist,
  genkey_from_password_and_salt,
}
use ruzor.Runner.ConfigFile.{command_reads_stdin}
use ruzor.Runner.Times.{Tm, format_info_value}

-- the methods of a client on the world `S`
pub record Asks (S : Type 0) : Type 0 where
  pub ping : Address → S → Result Message × S
  pub pong : Text → Address → S → Result Message × S
  pub check : Text → Address → S → Result Message × S
  pub info : Text → Address → S → Result Message × S
  pub report : Text → Address → S → Result Message × S
  pub whitelist : Text → Address → S → Result Message × S

-- What the commands read and change. `salt` is what /dev/urandom gives, and `writable` is whether
-- the local whitelist can be written.
pub record World (S : Type 0) : Type 0 where
  pub stdin : Bytes
  pub stdout : List Text
  pub whitelist_file : Option Text
  pub writable : Bool
  pub salt : Option Bytes
  pub net : S

-- `read_line`: the line and what is left
read_line : Bytes → Bytes × Bytes
read_line [] = ([], [])
read_line (b ∷ bytes) =
    let rest = read_line bytes in if b == b'\n' then (b ∷ [], bytes) else (b ∷ rest.0, rest.1)

-- `trim_end_matches(['\n', '\r'])`
trim_line_end : Text → Text
trim_line_end [] = []
trim_line_end (c ∷ s) =
    let rest = trim_line_end s in
    if (c == b'\n' || c == b'\r') && is_empty rest then [] else c ∷ rest

-- the digests that are not empty
shown_digests : List Text → List Text
shown_digests [] = []
shown_digests ([] ∷ digests) = shown_digests digests
shown_digests ((c ∷ digest) ∷ digests) = (c ∷ digest) ∷ shown_digests digests

module _ {S : Type 0} where
  abbrev passphrase : Option Text → Bytes → World S → Option Text × World S
  passphrase none left w = (none, record w { stdin = left })
  passphrase (some line) left w = (some (trim_line_end line), record w { stdin = left })

  -- `read_passphrase`; `none` is a line that is not UTF-8
  unfoldable pub read_passphrase : World S → Option Text × World S
  unfolding read_line trim_line_end
  read_passphrase w = let line = read_line w.stdin in passphrase (from_utf8 line.0) line.1 w

  abbrev show_key : Text × Text → World S → World S
  show_key (salt, key) w = record w {
    stdout = w.stdout ++ codes "salt,key:" ∷ (salt ++ b',' ∷ key) ∷ [];
  }

  abbrev show_new_key : Text → Option Bytes → World S → Option Bool × World S
  show_new_key password none w = (none, w)
  show_new_key password (some salt) w =
      (some true, show_key (genkey_from_password_and_salt password salt) w)

  abbrev confirmed : Text → Option Text × World S → Option Bool × World S
  confirmed password (none, w) = (none, w)
  confirmed password (some confirmation, w) =
      if eq_text confirmation password then show_new_key password w.salt w else (some false, w)

  abbrev confirm : Option Text × World S → Option Bool × World S
  confirm (none, w) = (none, w)
  confirm (some password, w) = confirmed password (read_passphrase w)

  -- `command_genkey`; `none` is an error, which ends the client
  unfoldable pub command_genkey : World S → Option Bool × World S
  unfolding read_passphrase
  command_genkey w = confirm (read_passphrase w)

  abbrev show : Printed × S → World S → Option Bool × World S
  show (p, s) w = (some p.all_ok, record w { stdout = w.stdout ++ p.output; net = s })

  abbrev show_check : (List Text × Bool) × S → World S → Option Bool × World S
  show_check ((output, success), s) w =
      (some success, record w { stdout = w.stdout ++ output; net = s })

  abbrev write_whitelist : Text → World S → Option Bool × World S
  write_whitelist text w =
      if w.writable then (some true, record w { whitelist_file = some text }) else (none, w)

  -- a command that reads digests
  abbrev on_digests :
      (List Text → Option Bool × World S) → World S → Option (List Text) → Option Bool × World S
  on_digests run w none = (none, w)
  on_digests run w (some digests) = run digests

  -- what is left to do once a command has run; an error ends the client
  abbrev after : (ℕ → World S → ℕ × World S) → ℕ → Option Bool × World S → ℕ × World S
  after rest exit_code (none, w) = (1, w)
  after rest exit_code (some command_ok, w) = rest (if command_ok then exit_code else 1) w

  after-failed :
      (rest : ℕ → World S → ℕ × World S)
      → ((w : World S) → (rest 1 w).0 ≡ 1)
      → (result : Option Bool × World S) → (after rest 1 result).0 ≡ 1
  after-failed rest h (none, w) = refl
  after-failed rest h (some true, w) = h w
  after-failed rest h (some false, w) = h w

  module _ (to_lowercase : Text → Text) (registered : Bytes → Text → Option Text)
      (localtime : ℤ → Option Tm) (asks : Asks S) (config : ClientConfig)
      (servers : List Address) where
    -- `execute`
    unfoldable pub execute : Text → Bytes → World S → Option Bool × World S
    unfolding shown_digests
    execute command input w =
        let digests = input_digests to_lowercase registered config.style input in
        let local = load_local_whitelist w.whitelist_file in
        let check_like = command_check_like config.report_threshold config.whitelist_threshold in
        if eq_text command (codes "ping")
        then show (command_ping asks.ping servers w.net) w
        else if eq_text command (codes "pong")
        then on_digests (λ ds. show_check (check_like asks.pong [] ds servers w.net) w) w digests
        else if eq_text command (codes "check")
        then on_digests (λ ds. show_check (check_like asks.check local ds servers w.net) w) w
            digests
        else if eq_text command (codes "info")
        then on_digests
            (λ ds. show (command_info (format_info_value localtime) asks.info ds servers w.net) w) w
            digests
        else if eq_text command (codes "report")
        then on_digests (λ ds. show (command_simple_digest asks.report ds servers w.net) w) w
            digests
        else if eq_text command (codes "whitelist")
        then on_digests (λ ds. show (command_simple_digest asks.whitelist ds servers w.net) w) w
            digests
        else if eq_text command (codes "digest")
        then on_digests (λ ds. (some true, record w { stdout = w.stdout ++ shown_digests ds })) w
            digests
        else if eq_text command (codes "predigest")
        then (
          some true,
          record w { stdout = w.stdout ++ predigest_message to_lowercase registered input },
        )
        else if eq_text command (codes "local_whitelist")
        then on_digests (λ ds. write_whitelist (command_local_whitelist true ds local) w) w digests
        else if eq_text command (codes "local_unwhitelist")
        then on_digests (λ ds. write_whitelist (command_local_whitelist false ds local) w) w digests
        else if eq_text command (codes "genkey")
        then command_genkey w
        else (some true, w)

    -- the input of a command: all that is left, which the next command does not find
    abbrev execute_next : Text → World S → Option Bool × World S
    execute_next command w =
        if command_reads_stdin command
        then execute command w.stdin (record w { stdin = [] })
        else execute command [] w

    -- the loop over the commands, and the exit code
    run_commands : List Text → ℕ → World S → ℕ × World S
    run_commands [] exit_code w = (exit_code, w)
    run_commands (command ∷ commands) exit_code w =
        after (run_commands commands) exit_code (execute_next command w)

    -- A command that fails is not forgotten, whatever the commands behind it do.
    run_commands-failed : (commands : List Text) (w : World S) → (run_commands commands 1 w).0 ≡ 1
    unfolding run_commands
    run_commands-failed [] w = refl
    run_commands-failed (command ∷ commands) w =
        after-failed (run_commands commands) (run_commands-failed commands) (execute_next command w)
