-- ===== src/Runner/Paths.antt =====
-- src/config.rs and src/bin/ruzor.rs: the paths of the client's files. A path is its text, joined
-- and tested as on Unix; `home` is the variable HOME.
use ruzor.Prelude.{◌≡◌, refl, Bool, Option, none, some, [], ◌∷◌, ◌++◌, ◌==◌, if◌then◌else◌}
use ruzor.Text.{Text, codes, starts_with, is_empty}
use ruzor.Config.{ends_with}
use ruzor.Message.{or_default}
use ruzor.Runner.{ClientConfig}

abbrev is_absolute : Text → Bool
is_absolute path = starts_with (codes "/") path

-- `Path::join`
unfoldable pub join_path : Text → Text → Text
join_path dir path =
    if is_absolute path
    then path
    else if is_empty dir
    then path
    else if ends_with b'/' dir
    then dir ++ path
    else dir ++ b'/' ∷ path

-- the value with HOME for `~`
abbrev from_home : Option Text → Text → Text
from_home home [] = []
from_home home (c ∷ []) = if c == b'~' then or_default (codes "~") home else c ∷ []
from_home home (c ∷ d ∷ rest) =
    if starts_with (codes "~/") (c ∷ d ∷ rest)
    then join_path (or_default (codes "~") home) rest
    else c ∷ d ∷ rest

-- `expand_homefile`
unfoldable pub expand_homefile : Option Text → Text → Text → Text
unfolding join_path
expand_homefile home homedir [] = []
expand_homefile home homedir (c ∷ value) = join_path homedir (from_home home (c ∷ value))

-- `expand_config_paths`
unfoldable pub expand_config_paths : Option Text → ClientConfig → ClientConfig
expand_config_paths home c = record c {
  servers_file = expand_homefile home c.homedir c.servers_file;
  accounts_file = expand_homefile home c.homedir c.accounts_file;
  local_whitelist = expand_homefile home c.homedir c.local_whitelist;
  log_file = if is_empty c.log_file then c.log_file else expand_homefile home c.homedir c.log_file;
}

-- `optional_path`
unfoldable pub optional_path : Text → Option Text
optional_path [] = none
optional_path (c ∷ path) = some (c ∷ path)

home_test :
    expand_homefile (some (codes "/home/a")) (codes "/etc/ruzor") (codes "~/servers")
    ≡ codes "/home/a/servers"
unfolding expand_homefile join_path starts_with ends_with
home_test = refl

homedir_test :
    expand_homefile none (codes "/etc/ruzor") (codes "servers") ≡ codes "/etc/ruzor/servers"
unfolding expand_homefile join_path starts_with ends_with
homedir_test = refl
