-- ===== src/Config/Accounts.antt =====
-- `load_accounts` of src/config.rs: the accounts of a client, one for each server.
use ruzor.Prelude.{ℕ, ◌&&◌, ◌⊎◌, inl, inr, Option, none, some, List, [], ◌∷◌, map, if◌then◌else◌}
use ruzor.Prelude.Assoc.{insert}
use ruzor.Text.{Text, is_empty, trim, split, lines}
use ruzor.Text.Decimal.{parse_nat}
use ruzor.Message.{u16_max}
use ruzor.Account.{Account, key_from_hexstr}
use ruzor.Server.Operations.{Address}
use ruzor.Client.{address_eq}
use ruzor.Config.{is_comment}

-- neither a wrong number of parts nor a key of nothing
abbrev account_of : Address → Text → Text ⊎ (Text × Text) → Option (Address × Account)
account_of address username (inl error) = none
account_of address username (inr (salt, key)) =
    if is_empty salt && is_empty key
    then none
    else some (address, record { username = username; salt = some salt; key = key })

abbrev with_port : Text → Text → Text → Option ℕ → Option (Address × Account)
with_port host username keystuff none = none
with_port host username keystuff (some port) =
    account_of (host, port) username (key_from_hexstr keystuff)

abbrev four_parts : List Text → Option (Address × Account)
four_parts (host ∷ port ∷ username ∷ keystuff ∷ []) =
    with_port host username keystuff (parse_nat u16_max port)
four_parts _ = none

-- one line of `load_accounts_with_logger`
unfoldable pub account_line : Text → Option (Address × Account)
account_line raw =
    let line = trim raw in if is_comment line then none else four_parts (map trim (split b':' line))

abbrev put : Option (Address × Account) → List (Address × Account) → List (Address × Account)
put none accounts = accounts
put (some (address, account)) accounts = insert address account accounts

account_lines : List Text → List (Address × Account) → List (Address × Account)
account_lines [] accounts = accounts
account_lines (line ∷ rest) accounts = account_lines rest (put (account_line line) accounts)

-- `load_accounts`
unfoldable pub load_accounts : Option Text → List (Address × Account)
unfolding account_lines
load_accounts none = []
load_accounts (some text) = account_lines (lines text) []
