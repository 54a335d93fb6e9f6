-- ===== src/Credentials/Store.antt =====
-- services/dba-mcp/src/credentialStore.ts: what `readOsCredential` makes of the answers of the
-- operating system's tools, and whether it says why it has no credential. The scripts that the tools
-- run stay out. `parse` is `JSON.parse` of the helper's output with the two field accesses; none
-- is an exception.
use mssql_data_api.Prelude.{
  ℕ, ◌==◌, Bool, true, false, not, ◌&&◌, ◌||◌, Option, none, some, [], ◌∷◌, if◌then◌else◌,
}
use mssql_data_api.Prelude.Text.{Text, codes, eq_text}

pub record OsCredential : Type 0 where
  pub user : Text
  pub password : Text

pub data Platform : Type 0 where
  win32 : Platform
  darwin : Platform
  other : Platform

-- `execFileSync` of the helper: its output, or an exception with the exit status and whether the
-- time limit killed it.
pub data Helper : Type 0 where
  printed : Text → Helper
  threw : Option ℕ → Bool → Helper

-- What the tools answer; none is an exception.
pub record Os : Type 0 where
  pub helper : Text → Helper
  pub keychain_password : Text → Option Text
  pub keychain_item : Text → Option Text
  pub secret : Text → Option Text
  pub account : Text → Option Text

pub record Fields : Type 0 where
  pub user : Option Text
  pub password : Option Text

-- The result, and whether something is logged.
pub record Lookup : Type 0 where
  pub credential : Option OsCredential
  pub logged : Bool

abbrev pub quietly : Option OsCredential → Lookup
quietly o = record { credential = o; logged = false }

abbrev pub or_empty : Option Text → Text
or_empty none = []
or_empty (some s) = s

-- `.replace(/\r?\n$/, "")`
unfoldable pub chomp : Text → Text
chomp [] = []
chomp (c ∷ s) =
    let rest = chomp s in
    if eq_text (c ∷ s) (13 ∷ 10 ∷ []) || eq_text (c ∷ s) (10 ∷ []) then [] else c ∷ rest

abbrev pub is_two : Option ℕ → Bool
is_two none = false
is_two (some n) = n == 2

unfoldable pub not_found : Option ℕ → Bool → Bool
not_found status killed = is_two status && not killed

abbrev pub with_password : Option Text → Option Text → Option OsCredential
with_password user none = none
with_password user (some []) = none
with_password user (some (c ∷ p)) = some (record { user = or_empty user; password = c ∷ p })

abbrev pub fields_lookup : Option Fields → Lookup
fields_lookup none = record { credential = none; logged = true }
fields_lookup (some f) = quietly (with_password f.user f.password)

unfoldable pub windows_lookup : (Text → Option Fields) → Helper → Lookup
unfolding not_found
windows_lookup parse (printed out) = fields_lookup (parse out)
windows_lookup parse (threw status killed) = record {
  credential = none;
  logged = not (not_found status killed);
}

abbrev pub starts_with : Text → Text → Bool
starts_with [] s = true
starts_with (p ∷ ps) [] = false
starts_with (p ∷ ps) (c ∷ s) = p == c && starts_with ps s

abbrev pub drop_prefix : Text → Text → Text
drop_prefix [] s = s
drop_prefix (p ∷ ps) [] = []
drop_prefix (p ∷ ps) (c ∷ s) = drop_prefix ps s

abbrev pub prepend : ℕ → Option Text → Option Text
prepend c none = none
prepend c (some s) = some (c ∷ s)

-- The text up to a quotation mark; none without one.
unfoldable pub until_quote : Text → Option Text
until_quote [] = none
until_quote (c ∷ s) = if c == b'"' then some [] else prepend c (until_quote s)

-- `attrs.match(/"acct"<blob>="([^"]*)"/)?.[1]`
abbrev pub acct_prefix : Text
acct_prefix = codes "\"acct\"<blob>=\""

abbrev pub or_search : Option Text → Option Text → Option Text
or_search (some s) o = some s
or_search none o = o

unfoldable pub acct_match : Text → Option Text
unfolding until_quote
acct_match [] = none
acct_match (c ∷ s) =
    let later = acct_match s in
    if starts_with acct_prefix (c ∷ s)
    then or_search (until_quote (drop_prefix acct_prefix (c ∷ s))) later
    else later

abbrev pub item_user : Option Text → Option Text
item_user none = none
item_user (some attrs) = acct_match attrs

unfoldable pub mac_lookup : Option Text → Option Text → Lookup
unfolding chomp acct_match
mac_lookup none item = quietly none
mac_lookup (some out) item = quietly (with_password (item_user item) (some (chomp out)))

abbrev pub account_user : Option Text → Option Text
account_user none = none
account_user (some out) = some (chomp out)

unfoldable pub linux_lookup : Option Text → Option Text → Lookup
unfolding chomp
linux_lookup none account = quietly none
linux_lookup (some out) account = quietly (with_password (account_user account) (some (chomp out)))

-- The outer `catch` also logs: it stands in `fields_lookup`, the one place that can throw.
unfoldable pub read_os_credential : (Text → Option Fields) → Platform → Os → Text → Lookup
unfolding windows_lookup mac_lookup linux_lookup
read_os_credential parse win32 os target = windows_lookup parse (os.helper target)
read_os_credential parse darwin os target =
    mac_lookup (os.keychain_password target) (os.keychain_item target)
read_os_credential parse other os target = linux_lookup (os.secret target) (os.account target)
