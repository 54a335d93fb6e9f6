-- ===== src/Credentials/Memo.antt =====
-- services/dba-mcp/src/credentialPolicy.ts, and the credentials of
-- services/dba-mcp/src/connectionManager.ts: `getOsCred`, `credentialFor`, `resolveFromEnv`,
-- `resolveUser`, `resolvePassword` and `normalize`. `read` is what `readOsCredential` gives at the
-- time of a call, for any target.
use mssql_data_api.Prelude.{
  Bool, true, false, not, ◌||◌, Option, none, some, List, [], ◌∷◌, ◌++◌, if◌then◌else◌,
}
use mssql_data_api.Prelude.Text.{Text, codes, eq_text, trim}
use mssql_data_api.Prelude.Dict.{Dict, get, set}
use mssql_data_api.Credentials.Store.{OsCredential, or_empty}

-- `${NAME}` and `$NAME`.
abbrev pub braced : Text → Text
braced token = codes "${" ++ token ++ codes "}"

abbrev pub bare : Text → Text
bare token = codes "$" ++ token

abbrev pub password_token : Text
password_token = codes "SQL_PASSWORD"

unfoldable pub is_placeholder : Text → Text → Bool
is_placeholder token raw = eq_text raw (braced token) || eq_text raw (bare token)

unfoldable pub is_plaintext_password_literal : Option Text → Bool
unfolding is_placeholder
is_plaintext_password_literal none = false
is_plaintext_password_literal (some []) = false
is_plaintext_password_literal (some (c ∷ s)) = not (is_placeholder password_token (c ∷ s))

-- The environment: SQL_CRED_TARGET, trimmed, SQL_USER and SQL_PASSWORD.
pub record Env : Type 0 where
  pub cred_target : Option Text
  pub sql_user : Option Text
  pub sql_password : Option Text

-- `osCredCache`, `osCredRead` and `instanceCredCache`.
pub record Memo : Type 0 where
  pub os_cred : Option OsCredential
  pub os_read : Bool
  pub instance_creds : Dict OsCredential

abbrev pub Reading : Type 0
Reading = Text → Option OsCredential

-- A target that is missing and one that is empty are alike.
abbrev pub present : Option Text → Option Text
present none = none
present (some []) = none
present (some (c ∷ s)) = some (c ∷ s)

abbrev pub has : Option OsCredential → Bool
has none = false
has (some c) = true

unfoldable pub read_fleet : Option Text → Reading → Memo → Option OsCredential × Memo
read_fleet none read m = (none, record m { os_read = true })
read_fleet (some t) read m = (read t, record m { os_cred = read t; os_read = has (read t) })

unfoldable pub get_os_cred : Env → Reading → Memo → Option OsCredential × Memo
unfolding read_fleet
get_os_cred env read m =
    if m.os_read then (m.os_cred, m) else read_fleet (present env.cred_target) read m

-- The target of an instance: `inst.credTarget?.trim()`.
abbrev pub own_target : Option Text → Option Text
own_target none = none
own_target (some t) = present (some (trim t))

unfoldable pub read_own :
    Env → Reading → Text → Option OsCredential → Memo → Option OsCredential × Memo
unfolding get_os_cred set
read_own env read t none m = get_os_cred env read m
read_own env read t (some c) m = (some c, record m { instance_creds = set t c m.instance_creds })

unfoldable pub kept_or_read :
    Env → Reading → Text → Option OsCredential → Memo → Option OsCredential × Memo
unfolding read_own
kept_or_read env read t (some c) m = (some c, m)
kept_or_read env read t none m = read_own env read t (read t) m

unfoldable pub credential_for_target :
    Env → Reading → Option Text → Memo → Option OsCredential × Memo
unfolding kept_or_read get_os_cred get
credential_for_target env read none m = get_os_cred env read m
credential_for_target env read (some t) m = kept_or_read env read t (get t m.instance_creds) m

unfoldable pub credential_for : Env → Reading → Option Text → Memo → Option OsCredential × Memo
unfolding credential_for_target
credential_for env read target m = credential_for_target env read (own_target target) m

abbrev pub or_text : Option Text → Text → Text
or_text none t = t
or_text (some s) t = s

-- `osValue ?? process.env[envName] ?? ""`
abbrev pub from_env : Option Text → Option Text → Text
from_env os env = or_text os (or_empty env)

unfoldable pub resolve_from_env : Option Text → Text → Option Text → Option Text → Text
unfolding is_placeholder
resolve_from_env none token env os = from_env os env
resolve_from_env (some []) token env os = from_env os env
resolve_from_env (some (c ∷ s)) token env os =
    if is_placeholder token (c ∷ s) then from_env os env else c ∷ s

abbrev pub user_of : Option OsCredential → Option Text
user_of none = none
user_of (some c) = some c.user

abbrev pub password_of : Option OsCredential → Option Text
password_of none = none
password_of (some c) = some c.password

unfoldable pub resolve_user : Env → Option Text → Option OsCredential → Text
unfolding resolve_from_env
resolve_user env raw cred = resolve_from_env raw (codes "SQL_USER") env.sql_user (user_of cred)

-- None is the exception that refuses to start.
unfoldable pub resolve_password : Env → Option Text → Option OsCredential → Option Text
unfolding is_plaintext_password_literal
resolve_password env raw cred =
    if is_plaintext_password_literal raw
    then none
    else some (from_env (password_of cred) env.sql_password)

pub data Intent : Type 0 where
  read_only : Intent
  read_write : Intent

-- An entry of the fleet file, as far as this file reads it.
pub record Entry : Type 0 where
  pub name : Text
  pub user : Option Text
  pub password : Option Text
  pub cred_target : Option Text
  pub application_intent : Option Intent

-- An entry of the fleet as `normalize` returns it: the intent is filled in, and user and password
-- are computed from the entry at each access.
pub record Normal : Type 0 where
  pub entry : Entry
  pub intent : Intent

abbrev pub or_read_only : Option Intent → Intent
or_read_only none = read_only
or_read_only (some i) = i

abbrev pub before : Normal → Option (List Normal) → Option (List Normal)
before n none = none
before n (some l) = some (n ∷ l)

unfoldable pub normalize : List Entry → Option (List Normal)
unfolding is_plaintext_password_literal
normalize [] = some []
normalize (i ∷ l) =
    let rest = normalize l in
    if is_plaintext_password_literal i.password
    then none
    else before (record { entry = i; intent = or_read_only i.application_intent }) rest

-- The getters.
unfoldable pub user : Env → Reading → Normal → Memo → Text × Memo
unfolding credential_for resolve_user
user env read n m =
    let r = credential_for env read n.entry.cred_target m in
    (resolve_user env n.entry.user r.0, r.1)

unfoldable pub password : Env → Reading → Normal → Memo → Option Text × Memo
unfolding credential_for resolve_password
password env read n m =
    let r = credential_for env read n.entry.cred_target m in
    (resolve_password env n.entry.password r.0, r.1)
