-- ===== src/Runner.antt =====
-- src/bin/ruzor.rs: the configuration of the command line client, from its arguments and its file.
pub mod Options
pub mod ConfigFile
pub mod Check
pub mod Verdict
pub mod Times
pub mod Commands
pub mod Paths
pub mod Session
use ruzor.Prelude.{
  ℕ, zero, suc, ◌^◌, ◌-◌, ◌≡◌, refl, Bool, true, false, not, ◌&&◌, ◌||◌, Option, none, some, List,
  [], ◌∷◌, ◌++◌, leb, if◌then◌else◌,
}
use ruzor.Prelude.Int.{ℤ, pos, negsuc}
use ruzor.Text.{Text, codes, eq_text, is_empty, starts_with, to_ascii_lowercase}
use ruzor.Text.Decimal.{parse_i64, parse_nat}
use ruzor.Message.{or_default}
use ruzor.Runner.Options.{
  Parsed, parsed, parse_error, ◌>>=◌, no_such_option, parse_option_arg, option_value,
  reject_unexpected_value, parse_integer,
}

pub record ClientOverrides : Type 0 where
  pub servers_file : Bool
  pub accounts_file : Bool
  pub local_whitelist : Bool
  pub log_file : Bool
  pub timeout : Bool
  pub style : Bool
  pub report_threshold : Bool
  pub whitelist_threshold : Bool

pub record ClientConfig : Type 0 where
  pub homedir : Text
  pub servers_file : Text
  pub accounts_file : Text
  pub local_whitelist : Text
  pub log_file : Text
  pub timeout : ℕ
  pub style : Text
  pub report_threshold : ℤ
  pub whitelist_threshold : ℤ
  pub debug : Bool
  pub nice : ℤ
  pub show_version : Bool
  pub show_help : Bool
  pub overrides : ClientOverrides

-- `PYZOR_LONG_OPTIONS`
abbrev pub pyzor_long_options : List Text
pyzor_long_options =
    codes "--help"
    ∷ codes "--nice"
    ∷ codes "--debug"
    ∷ codes "--homedir"
    ∷ codes "--style"
    ∷ codes "--log-file"
    ∷ codes "--servers-file"
    ∷ codes "--accounts-file"
    ∷ codes "--local-whitelist"
    ∷ codes "--timeout"
    ∷ codes "--report-threshold"
    ∷ codes "--whitelist-threshold"
    ∷ codes "--version"
    ∷ []

-- the configuration before the arguments; `home` is the variable HOME
unfoldable pub default_config : Option Text → ClientConfig
default_config home = record {
  homedir = elim home [ none ↦ codes "/etc/ruzor" | some dir ↦ dir ++ codes "/.ruzor" ];
  servers_file = codes "servers";
  accounts_file = codes "accounts";
  local_whitelist = codes "whitelist";
  log_file = [];
  timeout = 5;
  style = codes "msg";
  report_threshold = pos 0;
  whitelist_threshold = pos 0;
  debug = false;
  nice = pos 0;
  show_version = false;
  show_help = false;
  overrides = record {
    servers_file = false;
    accounts_file = false;
    local_whitelist = false;
    log_file = false;
    timeout = false;
    style = false;
    report_threshold = false;
    whitelist_threshold = false;
  };
}

-- `parse::<u64>()` and `parse::<i32>()`
abbrev pub parse_u64 : Text → Option ℕ
parse_u64 = parse_nat (2 ^ 64 - 1)

abbrev in_i32 : Option ℤ → Option ℤ
in_i32 none = none
in_i32 (some (pos n)) = if leb n (2 ^ 31 - 1) then some (pos n) else none
in_i32 (some (negsuc n)) = if leb n (2 ^ 31 - 1) then some (negsuc n) else none

abbrev pub parse_i32 : Text → Option ℤ
parse_i32 value = in_i32 (parse_i64 value)

-- What the option comes to: the configuration, and how many more arguments it takes.
abbrev Taken : Type 0
Taken = ClientConfig × ℕ

abbrev flag : Text → Option Text → ClientConfig → Parsed Taken
flag option inline c = do fine ← reject_unexpected_value option inline; parsed (c, 0)

abbrev valued : Text → Option Text → List Text → (Text → ClientConfig) → Parsed Taken
valued option inline rest set = do
  taken ← option_value option inline rest
  parsed (set taken.0, taken.1)

abbrev numbered :
    {A : Type 0}
    → (Text → Option A)
    → Text
    → Option Text
    → List Text
    → (A → ClientConfig)
    → Parsed Taken
numbered parse option inline rest set = do
  taken ← option_value option inline rest
  n ← parse_integer parse option taken.0
  parsed (set n, taken.1)

abbrev is : Text → Text → Text → Bool
is option short long = eq_text option short || eq_text option long

-- the `match` on an option; `none` is an argument that is none of them
unfoldable pub apply_option : Text → Option Text → List Text → ClientConfig → Option (Parsed Taken)
apply_option option inline rest c =
    let o = c.overrides in
    if is option (codes "-h") (codes "--help")
    then some (flag option inline (record c { show_help = true }))
    else if is option (codes "-V") (codes "--version")
    then some (flag option inline (record c { show_version = true }))
    else if is option (codes "-d") (codes "--debug")
    then some (flag option inline (record c { debug = true }))
    else if is option (codes "-n") (codes "--nice")
    then some (numbered parse_i32 option inline rest (λ n. record c { nice = n }))
    else if eq_text option (codes "--homedir")
    then some (valued option inline rest (λ v. record c { homedir = v }))
    else if is option (codes "-s") (codes "--style")
    then some (
        valued option inline rest
          (λ v. record c { style = v; overrides = record o { style = true } }))
    else if eq_text option (codes "--log-file")
    then some (
        valued option inline rest
          (λ v. record c { log_file = v; overrides = record o { log_file = true } }))
    else if eq_text option (codes "--servers-file")
    then some (
        valued option inline rest
          (λ v. record c { servers_file = v; overrides = record o { servers_file = true } }))
    else if eq_text option (codes "--accounts-file")
    then some (
        valued option inline rest
          (λ v. record c { accounts_file = v; overrides = record o { accounts_file = true } }))
    else if eq_text option (codes "--local-whitelist")
    then some (
        valued option inline rest
          (λ v. record c { local_whitelist = v; overrides = record o { local_whitelist = true } }))
    else if is option (codes "-t") (codes "--timeout")
    then some (
        numbered parse_u64 option inline rest
          (λ n. record c { timeout = n; overrides = record o { timeout = true } }))
    else if is option (codes "-r") (codes "--report-threshold")
    then some (
        numbered parse_i64 option inline rest (λ n. record c {
          report_threshold = n;
          overrides = record o { report_threshold = true };
        }))
    else if is option (codes "-w") (codes "--whitelist-threshold")
    then some (
        numbered parse_i64 option inline rest (λ n. record c {
          whitelist_threshold = n;
          overrides = record o { whitelist_threshold = true };
        }))
    else none

-- one argument: the configuration, whether it is a command, and how many more it takes
abbrev take_arg :
    Text → List Text → ClientConfig → Text × Option Text → Parsed (ClientConfig × Bool × ℕ)
take_arg arg rest c (option, inline) = elim (apply_option option inline rest c) [
  | none ↦
      if starts_with (codes "-") arg
      then parse_error (no_such_option option)
      else parsed (c, true, 0)
  | some taken ↦ taken >>= λ t. parsed (t.0, false, t.1)
]

-- the loop over the arguments; `skip` of them are taken already
args_from : ℕ → List Text → ClientConfig → List Text → Parsed (ClientConfig × List Text)
args_from skip [] c commands = parsed (c, commands)
args_from (suc skip) (arg ∷ rest) c commands = args_from skip rest c commands
args_from zero (arg ∷ rest) c commands =
    let more = (λ (t : ClientConfig × Bool × ℕ).
      args_from t.2 rest t.0 (if t.1 then commands ++ arg ∷ [] else commands)) in
    if eq_text arg (codes "--")
    then parsed (c, commands ++ rest)
    else parse_option_arg arg pyzor_long_options >>= take_arg arg rest c >>= more

-- `parse_args`
unfoldable pub parse_args : Option Text → List Text → Parsed (ClientConfig × List Text)
unfolding args_from
parse_args home args = args_from 0 args (default_config home) []
