-- ===== src/Pools/Login.antt =====
-- The first half of `getPool` of services/dba-mcp/src/connectionManager.ts: which instance, as whom,
-- under which key, and with which options. `primary` stands for `resolveRegionPrimary` (none is its
-- exception), and an instance's `user` and `password` are what its getters give.
use mssql_data_api.Prelude.{
  ℕ, Bool, true, false, not, ◌&&◌, ◌||◌, Option, none, some, [], ◌∷◌, ◌++◌, if◌then◌else◌, ◌⊎◌, inl,
  inr,
}
use mssql_data_api.Prelude.Text.{Text, codes, eq_text}
use mssql_data_api.Prelude.Dict.{Dict, get}
use mssql_data_api.Pools.Tls.{Posture, resolve_trust_server_cert, ca_bundle_pem}

pub record Entra : Type 0 where
  pub token : Text
  pub oid : Option Text
  pub upn : Option Text

-- `DbCredentials`; on HTTP a header that is missing is the empty text.
pub record Context : Type 0 where
  pub user : Text
  pub password : Text
  pub entra : Option Entra

pub record Config : Type 0 where
  pub host : Text
  pub database : Option Text
  pub is_witness : Bool
  pub is_read_write : Bool
  pub entra_auth : Bool
  pub encrypt : Option Bool
  pub trust_server_certificate : Option Bool
  pub multi_subnet_failover : Option Bool
  pub user : Text
  pub password : Text

-- The settings of the process.
pub record Site : Type 0 where
  pub is_http : Bool
  pub obo_enabled : Bool
  pub default_database : Text
  pub fallback_database : Text
  pub fallback_enabled : Bool
  pub posture : Posture

pub data Failure : Type 0 where
  no_primary : Failure
  unknown_instance : Failure
  witness : Failure
  no_headers : Failure
  no_credentials : Failure
  no_token : Text → Failure
  connect_failed : Text → Failure
  both_failed : Text → Text → Failure
  no_such_database : Text → Failure

pub data Auth : Type 0 where
  sql_login : Text → Text → Auth
  entra_token : Entra → Auth

pub record Login : Type 0 where
  pub identity : Text
  pub auth : Auth

abbrev pub or_default {ℓ} : {A : Type ℓ} → Option A → A → A
or_default none d = d
or_default (some a) d = a

abbrev pub or_text : Text → Text → Text
or_text [] t = t
or_text (c ∷ s) t = c ∷ s

abbrev pub is_blank : Text → Bool
is_blank [] = true
is_blank (c ∷ s) = false

-- `ctx?.user`, `ctx?.password`
abbrev pub context_user : Option Context → Text
context_user none = []
context_user (some c) = c.user

abbrev pub context_password : Option Context → Text
context_password none = []
context_password (some c) = c.password

abbrev pub context_entra : Option Context → Option Entra
context_entra none = none
context_entra (some c) = c.entra

-- A token that is empty does not count.
abbrev pub with_token : Option Entra → Option Entra
with_token none = none
with_token (some e) = if is_blank e.token then none else some e

-- `useEntra`, with the identity that it uses.
unfoldable pub use_entra : Site → Config → Option Context → Option Entra
use_entra site cfg ctx =
    if site.obo_enabled && cfg.entra_auth then with_token (context_entra ctx) else none

abbrev pub entra_identity : Entra → Text
entra_identity e = codes "entra:" ++ or_default e.oid (or_default e.upn (codes "?"))

unfoldable pub sql_credentials : Site → Config → Option Context → Failure ⊎ Login
sql_credentials site cfg ctx =
    let user = or_text (context_user ctx) cfg.user in
    let password = or_text (context_password ctx) cfg.password in
    if site.is_http && (is_blank (context_user ctx) || is_blank (context_password ctx))
    then inl no_headers
    else if is_blank user || is_blank password
    then inl no_credentials
    else inr (record { identity = user; auth = sql_login user password })

abbrev pub login_with : Site → Config → Option Context → Option Entra → Failure ⊎ Login
login_with site cfg ctx none = sql_credentials site cfg ctx
login_with site cfg ctx (some e) =
    inr (record { identity = entra_identity e; auth = entra_token e })

unfoldable pub login : Site → Config → Option Context → Failure ⊎ Login
unfolding use_entra sql_credentials
login site cfg ctx = login_with site cfg ctx (use_entra site cfg ctx)

abbrev pub marked : Text → Bool → Text
marked name write = if write then name ++ codes "#rw" else name

unfoldable pub key_of : Text → Text → Bool → Text
key_of identity name write = identity ++ b':' ∷ b':' ∷ marked name write

-- `readOnly`
unfoldable pub is_read_only : Config → Bool → Bool
is_read_only cfg write = if write then false else not cfg.is_read_write

-- `poolConfig`, with what the second half of `getPool` goes on with.
pub record Plan : Type 0 where
  pub name : Text
  pub write : Bool
  pub login : Login
  pub key : Text
  pub server : Text
  pub database : Text
  pub encrypt : Bool
  pub trust_server_certificate : Bool
  pub ca : Option Text
  pub read_only_intent : Bool
  pub multi_subnet_failover : Bool

unfoldable pub plan_of : Site → Text → Bool → Config → Login → Plan
unfolding key_of is_read_only resolve_trust_server_cert ca_bundle_pem
plan_of site name write cfg l = record {
  name = name;
  write = write;
  login = l;
  key = key_of l.identity name write;
  server = cfg.host;
  database = or_default cfg.database site.default_database;
  encrypt = or_default cfg.encrypt true;
  trust_server_certificate = resolve_trust_server_cert site.posture cfg.trust_server_certificate;
  ca = ca_bundle_pem site.posture;
  read_only_intent = is_read_only cfg write;
  multi_subnet_failover = or_default cfg.multi_subnet_failover false;
}

abbrev pub planned : Site → Text → Bool → Config → Failure ⊎ Login → Failure ⊎ Plan
planned site name write cfg (inl f) = inl f
planned site name write cfg (inr l) = inr (plan_of site name write cfg l)

unfoldable pub plan_config : Site → Text → Bool → Option Config → Option Context → Failure ⊎ Plan
unfolding login plan_of
plan_config site name write none ctx = inl unknown_instance
plan_config site name write (some cfg) ctx =
    if cfg.is_witness then inl witness else planned site name write cfg (login site cfg ctx)

abbrev pub Fleet : Type 0
Fleet = Dict Config

abbrev pub prepended : ℕ → Option Text → Option Text
prepended c none = none
prepended c (some s) = some (c ∷ s)

-- `<region>-primary` names the region; none is any other name.
unfoldable pub region_of : Text → Option Text
region_of [] = none
region_of (c ∷ s) =
    let rest = region_of s in
    if eq_text (c ∷ s) (codes "-primary") then some [] else prepended c rest

unfoldable pub resolve_name : (Text → Option Text) → Text → Option Text → Option Text
resolve_name primary name none = some name
resolve_name primary name (some region) = primary region

abbrev pub plan_named : Site → Fleet → Bool → Option Context → Option Text → Failure ⊎ Plan
plan_named site fleet write ctx none = inl no_primary
plan_named site fleet write ctx (some name) = plan_config site name write (get name fleet) ctx

unfoldable pub plan :
    Site → Fleet → (Text → Option Text) → Text → Bool → Option Context → Failure ⊎ Plan
unfolding plan_config region_of resolve_name get
plan site fleet primary name write ctx =
    plan_named site fleet write ctx (resolve_name primary name (region_of name))
