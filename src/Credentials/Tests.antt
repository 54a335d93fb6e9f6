-- ===== src/Credentials/Tests.antt =====
-- The credentials at concrete values, and their theorems there.
use mssql_data_api.Prelude.{false, Option, none, some, List, [], ◌∷◌, ◌++◌, ◌≡◌, refl}
use mssql_data_api.Prelude.Text.{Text, codes, trim}
use mssql_data_api.Credentials.Store.{
  OsCredential, Os, win32, darwin, threw, Fields, read_os_credential,
}
use mssql_data_api.Credentials.Memo.{Env, Entry, Normal, credential_for, read_only}
use mssql_data_api.Credentials.Firsts.{Access, run, init, first_read}
use mssql_data_api.Credentials.Fleet.{expected, fleet_first, credential_for-first}
use mssql_data_api.Credentials.Silence.{IsAbsent, silent-IsAbsent}

abbrev no_json : Text → Option Fields
no_json s = none

abbrev os : Os
os = record {
  helper = λ t. threw (some 2) false;
  keychain_password = λ t. some (codes "pw" ++ 13 ∷ 10 ∷ []);
  keychain_item = λ t. some (codes "x \"acct\"<blob>=\"joe\" y");
  secret = λ t. none;
  account = λ t. none;
}

keychain_read :
    (read_os_credential no_json darwin os []).credential
    ≡ some (record { user = codes "joe"; password = codes "pw" })
unfolding read_os_credential
keychain_read = refl

absent : (read_os_credential no_json win32 os []).credential ≡ none
unfolding read_os_credential
absent = refl

absent_quietly : (read_os_credential no_json win32 os []).logged ≡ false
unfolding read_os_credential
absent_quietly = refl

silent-IsAbsent_example : IsAbsent no_json (threw (some 2) false)
silent-IsAbsent_example = silent-IsAbsent no_json os [] absent absent_quietly

abbrev node : Entry
node = record {
  name = codes "n1";
  user = none;
  password = some (codes "${SQL_PASSWORD}");
  cred_target = none;
  application_intent = none;
}

abbrev leaky : Entry
leaky = record node { password = some (codes "secret") }

abbrev loaded : List Normal
loaded = record { entry = node; intent = read_only } ∷ []

abbrev env : Env
env = record { cred_target = none; sql_user = none; sql_password = none }

abbrev joe : OsCredential
joe = record { user = codes "joe"; password = codes "pw" }

-- The store cannot be read, then gives a credential, then cannot be read again.
abbrev stalled : Access
stalled = record { target = some (codes " rds "); reading = λ t. none }

abbrev answered : Access
answered = record { target = some (codes "rds"); reading = λ t. some joe }

credential_for-first_example :
    (credential_for env stalled.reading stalled.target (run env (stalled ∷ answered ∷ []) init)).0
    ≡ expected env (stalled ∷ answered ∷ []) stalled
credential_for-first_example = credential_for-first env (stalled ∷ answered ∷ []) stalled

-- The fleet's credential stalls once, is read by an access without a target, and is kept.
abbrev fleet_env : Env
fleet_env = record { cred_target = some (codes "f"); sql_user = none; sql_password = none }

abbrev bare_access : Access
bare_access = record answered { target = none }

fleet_kept :
    expected fleet_env (stalled ∷ bare_access ∷ stalled ∷ []) (record stalled { target = none })
    ≡ some joe
unfolding first_read fleet_first trim
fleet_kept = refl
