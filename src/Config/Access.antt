-- ===== src/Config/Access.antt =====
-- The access list of src/config.rs, and what its rules decide.
use ruzor.Prelude.{
  ◌≡◌, refl, ap, ◌∙◌, Bool, true, false, not, ◌&&◌, ◌||◌, Option, none, some, List, [], ◌∷◌, arith,
  map, if◌then◌else◌,
}
use ruzor.Prelude.Assoc.{lookup, insert, lookup-insert}
use ruzor.Text.{Text, codes, eq_text, trim, split, split_whitespace}
use ruzor.Text.Laws.{text_eq, eq_text_iff}
use ruzor.Message.{or_default}
use ruzor.Account.{anonymous_user}
use ruzor.Server.Admission.{has, is_allowed}
use ruzor.Config.{py_lines, is_comment}

-- `ALL_OPS` and `DEFAULT_ANON_OPS`
abbrev pub all_ops : List Text
all_ops =
    codes "check"
    ∷ codes "report"
    ∷ codes "ping"
    ∷ codes "pong"
    ∷ codes "info"
    ∷ codes "whitelist"
    ∷ []

abbrev pub default_anon_ops : List Text
default_anon_ops = codes "check" ∷ codes "report" ∷ codes "ping" ∷ codes "pong" ∷ codes "info" ∷ []

pub record Rule : Type 0 where
  pub operations : List Text
  pub users : List Text
  pub allowed : Bool

abbrev pub Acl : Type 0
Acl = List (Text × List Text)

-- `"allow"` and `"deny"`
abbrev verdict_of : Text → Option Bool
verdict_of word =
    if eq_text word (codes "allow")
    then some true
    else if eq_text word (codes "deny")
    then some false
    else none

-- the names of the accounts; that they are sorted only shows in the log
names : List (Text × Text) → List Text
names [] = []
names ((user, key) ∷ rest) = user ∷ names rest

module _ (accounts : List (Text × Text)) where
  abbrev with_verdict : Text → Text → Option Bool → Option Rule
  with_verdict operations users none = none
  with_verdict operations users (some allowed) = some (record {
    operations = if eq_text operations (codes "all") then all_ops else split_whitespace operations;
    users = if eq_text users (codes "all") then names accounts else split_whitespace users;
    allowed = allowed;
  })

  abbrev three_parts : List Text → Option Rule
  three_parts (operations ∷ users ∷ word ∷ []) = with_verdict operations users (verdict_of word)
  three_parts _ = none

  -- one line of `load_access_file_with_logger`
  unfoldable pub rule_of_line : (Text → Text) → Text → Option Rule
  unfolding names
  rule_of_line lower line =
      if is_comment line
      then none
      else three_parts (map (λ part. lower (trim part)) (split b':' line))

  abbrev keep : Option Rule → List Rule → List Rule
  keep none rules = rules
  keep (some rule) rules = rule ∷ rules

  pub rules_of_lines : (Text → Text) → List Text → List Rule
  rules_of_lines lower [] = []
  rules_of_lines lower (line ∷ rest) = keep (rule_of_line lower line) (rules_of_lines lower rest)

-- `entry.extend(operations)` and the removals
add_ops : List Text → List Text → List Text
add_ops [] ops = ops
add_ops (op ∷ rest) ops = let more = add_ops rest ops in if has more op then more else op ∷ more

remove_op : Text → List Text → List Text
remove_op op [] = []
remove_op op (x ∷ xs) = let rest = remove_op op xs in if eq_text x op then rest else x ∷ rest

remove_ops : List Text → List Text → List Text
remove_ops [] ops = ops
remove_ops (op ∷ rest) ops = remove_ops rest (remove_op op ops)

grant : Bool → List Text → Text → Acl → Acl
grant allowed operations user acl =
    let entry = or_default [] (lookup user acl) in
    insert user (if allowed then add_ops operations entry else remove_ops operations entry) acl

-- `for user in users { … }`
grant_each : Bool → List Text → List Text → Acl → Acl
grant_each allowed operations [] acl = acl
grant_each allowed operations (user ∷ users) acl =
    grant_each allowed operations users (grant allowed operations user acl)

-- the rules one after the other
apply_rules : List Rule → Acl → Acl
apply_rules [] acl = acl
apply_rules (rule ∷ rules) acl =
    apply_rules rules (grant_each rule.allowed rule.operations rule.users acl)

-- `load_access_file`
pub load_access_file : (Text → Text) → List (Text × Text) → Option Text → Acl
load_access_file lower accounts none = (anonymous_user, default_anon_ops) ∷ []
load_access_file lower accounts (some text) =
    apply_rules (rules_of_lines accounts lower (py_lines text)) []

has-add_ops :
    (ops entry : List Text) (o : Text) → has (add_ops ops entry) o ≡ (has ops o || has entry o)
unfolding has add_ops
has-add_ops [] entry o = refl
has-add_ops (op ∷ rest) entry o = ground (arith, eq_text_iff op o, has-add_ops rest entry o)

has-remove_op :
    (op o : Text) (entry : List Text)
    → has (remove_op op entry) o ≡ (not (eq_text op o) && has entry o)
unfolding has remove_op
has-remove_op op o [] = ground arith
has-remove_op op o (x ∷ xs) =
    ground (arith, eq_text_iff op o, eq_text_iff x o, eq_text_iff x op, has-remove_op op o xs)

has-remove_ops :
    (ops entry : List Text) (o : Text)
    → has (remove_ops ops entry) o ≡ (not (has ops o) && has entry o)
unfolding has remove_ops
has-remove_ops [] entry o = refl
has-remove_ops (op ∷ rest) entry o =
    ground (arith, has-remove_op op o entry, has-remove_ops rest (remove_op op entry) o)

abbrev ruled : Bool → List Text → List Text → Text → Text → Bool → Bool
ruled allowed operations users user op before =
    if has users user && has operations op then allowed else before

abbrev entry_of : Acl → Text → List Text
entry_of acl user = or_default [] (lookup user acl)

is_allowed-has : (acl : Acl) (user op : Text) → is_allowed acl user op ≡ has (entry_of acl user) op
unfolding is_allowed lookup has
is_allowed-has [] user op = refl
is_allowed-has ((u, ops) ∷ acl) user op = ground (arith, is_allowed-has acl user op)

granted : Bool → List Text → List Text → List Text
granted allowed operations entry =
    if allowed then add_ops operations entry else remove_ops operations entry

has-granted :
    (allowed : Bool) (operations entry : List Text) (o : Text)
    → has (granted allowed operations entry) o ≡ (if has operations o then allowed else has entry o)
unfolding granted
has-granted true operations entry o = ground (arith, has-add_ops operations entry o)
has-granted false operations entry o = ground (arith, has-remove_ops operations entry o)

entry_of-grant :
    (allowed : Bool) (operations : List Text) (u : Text) (acl : Acl) (user : Text)
    → entry_of (grant allowed operations u acl) user
      ≡ (if eq_text u user then granted allowed operations (entry_of acl u) else entry_of acl user)
unfolding grant granted
entry_of-grant allowed operations u acl user =
    ground (arith, lookup-insert u user (granted allowed operations (entry_of acl u)) acl)

is_allowed-grant :
    (allowed : Bool) (operations : List Text) (u : Text) (acl : Acl) (user op : Text)
    → is_allowed (grant allowed operations u acl) user op
      ≡ ruled allowed operations (u ∷ []) user op (is_allowed acl user op)
unfolding has
is_allowed-grant allowed operations u acl user op = ground (
  arith,
  is_allowed-has (grant allowed operations u acl) user op,
  is_allowed-has acl user op,
  entry_of-grant allowed operations u acl user,
  has-granted allowed operations (entry_of acl u) op,
  eq_text_iff u user,
)

grant_each-ruled :
    (allowed : Bool) (operations users : List Text) (acl : Acl) (user op : Text)
    → is_allowed (grant_each allowed operations users acl) user op
      ≡ ruled allowed operations users user op (is_allowed acl user op)
unfolding grant_each has
grant_each-ruled allowed operations [] acl user op = refl
grant_each-ruled allowed operations (u ∷ users) acl user op = ground (
  arith,
  is_allowed-grant allowed operations u acl user op,
  grant_each-ruled allowed operations users (grant allowed operations u acl) user op,
)

-- What the rules say of a user and an operation: the last one that names both decides.
abbrev pub decide : List Rule → Text → Text → Bool → Bool
decide [] user op before = before
decide (rule ∷ rules) user op before =
    decide rules user op
      (if has rule.users user && has rule.operations op then rule.allowed else before)

is_allowed-apply_rules :
    (rules : List Rule) (acl : Acl) (user op : Text)
    → is_allowed (apply_rules rules acl) user op ≡ decide rules user op (is_allowed acl user op)
unfolding apply_rules
is_allowed-apply_rules [] acl user op = refl
is_allowed-apply_rules (rule ∷ rules) acl user op =
    is_allowed-apply_rules rules (grant_each rule.allowed rule.operations rule.users acl) user op
    ∙ ap (decide rules user op)
        (grant_each-ruled rule.allowed rule.operations rule.users acl user op)

-- A user may do an operation under the access list of a file exactly if the last of its valid rules
-- that names both the user and the operation allows it.
pub is_allowed-load_access_file :
    (lower : Text → Text) (accounts : List (Text × Text)) (text user op : Text)
    → is_allowed (load_access_file lower accounts (some text)) user op
      ≡ decide (rules_of_lines accounts lower (py_lines text)) user op false
unfolding load_access_file
is_allowed-load_access_file lower accounts text user op =
    is_allowed-apply_rules (rules_of_lines accounts lower (py_lines text)) [] user op
    ∙ ap (decide (rules_of_lines accounts lower (py_lines text)) user op) none_allowed
  where
    none_allowed : is_allowed [] user op ≡ false
    none_allowed = unfold is_allowed in refl
