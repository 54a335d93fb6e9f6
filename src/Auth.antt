-- ===== src/Auth.antt =====
-- services/dba-mcp/src/auth.ts, and what services/dba-mcp/src/index.ts makes of it: the guard of /mcp
-- and `contextFromRequest`. `jwt` stands for `jwtVerify` with the keys of the tenant: the payload of a
-- token that is valid for an issuer and an audience, none where it throws. `is_url` is whether `new URL`
-- takes a text, and `admits` what the SDK's
-- `requireBearerAuth` checks besides. `lower` is `toLowerCase`.
mod Verified
mod Tests
use mssql_data_api.Prelude.{
  ℕ, ◌==◌, Bool, true, false, not, ◌&&◌, ◌||◌, Option, none, some, List, [], ◌∷◌, ◌++◌,
  if◌then◌else◌, any, ◌⊎◌, inl, inr,
}
use mssql_data_api.Prelude.Text.{Text, codes, eq_text, trim}
use mssql_data_api.Safety.Guard.{split, trim_all}
use mssql_data_api.Pools.Login.{Entra, Context, or_default, is_blank}

-- The variables, in the order of `loadAuthConfig`.
pub record Variables : Type 0 where
  pub auth_mode : Option Text
  pub tenant_id : Option Text
  pub client_id : Option Text
  pub api_audience : Option Text
  pub issuer : Option Text
  pub required_scopes : Option Text
  pub resource_url : Option Text
  pub public_url : Option Text

-- `EntraAuthConfig`
pub record Config : Type 0 where
  pub mode : Text
  pub tenant_id : Text
  pub client_id : Text
  pub audience : Text
  pub issuer : Text
  pub required_scopes : List Text
  pub resource_url : Text

pub data ConfigError : Type 0 where
  no_client_id : ConfigError
  no_audience : ConfigError

-- `.split(/[ ,]+/).map((s) => s.trim()).filter(Boolean)`: a comma separates as a space does, and the
-- empty parts between separators are filtered out.
abbrev pub comma_to_space : Text → Text
comma_to_space [] = []
comma_to_space (c ∷ s) = (if c == b',' then b' ' else c) ∷ comma_to_space s

unfoldable pub scope_list : Text → List Text
unfolding split trim_all
scope_list s = trim_all (split b' ' (comma_to_space s))

-- `.replace(/\/$/, "")`
unfoldable pub without_slash : Text → Text
without_slash [] = []
without_slash (c ∷ s) =
    let rest = without_slash s in if eq_text (c ∷ s) (codes "/") then [] else c ∷ rest

abbrev pub default_tenant : Text
default_tenant = codes "00000000-0000-0000-0000-000000000000"

unfoldable pub config_of : (Text → Text) → Variables → Config
unfolding scope_list without_slash
config_of lower v =
    let tenant = or_default v.tenant_id default_tenant in
    let client = or_default v.client_id [] in
    record {
      mode = lower (or_default v.auth_mode (codes "off"));
      tenant_id = tenant;
      client_id = client;
      audience =
          or_default v.api_audience (if is_blank client then [] else codes "api://" ++ client);
      issuer =
          or_default v.issuer
            (codes "https://login.microsoftonline.com/" ++ tenant ++ codes "/v2.0");
      required_scopes = scope_list (or_default v.required_scopes (codes "access_as_user"));
      resource_url =
          or_default v.resource_url (without_slash (or_default v.public_url []) ++ codes "/mcp");
    }

abbrev pub is_off : Config → Bool
is_off c = eq_text c.mode (codes "off")

abbrev pub valid_config : Config → ConfigError ⊎ Config
valid_config c =
    if is_off c
    then inr c
    else if is_blank c.client_id
    then inl no_client_id
    else if is_blank c.audience
    then inl no_audience
    else inr c

unfoldable pub load_auth_config : (Text → Text) → Variables → ConfigError ⊎ Config
unfolding config_of
load_auth_config lower v = valid_config (config_of lower v)

-- The claims that are read; one of another type is none.
pub record Payload : Type 0 where
  pub scp : Option Text
  pub roles : Option (List Text)
  pub oid : Option Text
  pub upn : Option Text
  pub preferred_username : Option Text
  pub azp : Option Text
  pub appid : Option Text
  pub exp : Option ℕ

-- `AuthInfo`; `entra` is `extra.entra`.
pub record AuthInfo : Type 0 where
  pub token : Text
  pub client_id : Text
  pub scopes : List Text
  pub expires_at : Option ℕ
  pub entra : Entra

abbrev pub or_else : Option Text → Option Text → Option Text
or_else none o = o
or_else (some s) o = some s

unfoldable pub nonblank : List Text → List Text
nonblank [] = []
nonblank (s ∷ l) = let rest = nonblank l in if is_blank s then rest else s ∷ rest

abbrev pub scp_list : Option Text → List Text
scp_list none = []
scp_list (some s) = nonblank (split b' ' s)

unfoldable pub scopes_of : Payload → List Text
unfolding nonblank split
scopes_of p = scp_list p.scp ++ or_default p.roles []

-- The first required scope that is missing.
unfoldable pub missing_scope : List Text → List Text → Option Text
missing_scope [] scopes = none
missing_scope (need ∷ l) scopes =
    let rest = missing_scope l scopes in
    if any (λ s. eq_text s need) scopes then rest else some need

abbrev pub info_of : Text → Payload → AuthInfo
info_of token p = record {
  token = token;
  client_id = or_default (or_else p.azp p.appid) [];
  scopes = scopes_of p;
  expires_at = p.exp;
  entra = record { token = token; oid = p.oid; upn = or_else p.upn p.preferred_username };
}

-- The exception of a scope that is missing, then that of `new URL`.
abbrev pub with_scopes : Option Text → Bool → AuthInfo → Option AuthInfo
with_scopes none is_valid i = if is_valid then some i else none
with_scopes (some need) is_valid i = none

abbrev pub valid_resource : (Text → Bool) → Config → Bool
valid_resource is_url c = is_blank c.resource_url || is_url c.resource_url

abbrev pub verified : (Text → Bool) → Config → Text → Option Payload → Option AuthInfo
verified is_url c token none = none
verified is_url c token (some p) =
    with_scopes (missing_scope c.required_scopes (scopes_of p)) (valid_resource is_url c)
      (info_of token p)

module _ (jwt : Text → Text → Text → Option Payload) (is_url : Text → Bool)
    (admits : AuthInfo → Bool) where
  unfoldable pub verify_access_token : Config → Text → Option AuthInfo
  unfolding missing_scope scopes_of
  verify_access_token c token = verified is_url c token (jwt c.issuer c.audience token)

  abbrev pub admitted : Option AuthInfo → Option AuthInfo
  admitted none = none
  admitted (some i) = if admits i then some i else none

  -- `requireBearerAuth`: none refuses the request. A token that is empty is refused.
  abbrev pub bearer_auth : Config → Option Text → Option AuthInfo
  bearer_auth c none = none
  bearer_auth c (some []) = none
  bearer_auth c (some (d ∷ s)) = admitted (verify_access_token c (d ∷ s))

  abbrev pub passed : Option AuthInfo → Option (Option AuthInfo)
  passed none = none
  passed (some i) = some (some i)

  -- `mcpAuthGuard`: the outer none refuses, the inner one is a request without `req.auth`. The guard
  -- stands only in the mode `required`.
  unfoldable pub guard : Config → Option Text → Option (Option AuthInfo)
  unfolding verify_access_token
  guard c bearer =
      if eq_text c.mode (codes "required") then passed (bearer_auth c bearer) else some none

-- `identityFromAuth`
unfoldable pub identity_from_auth : Option AuthInfo → Option Entra
identity_from_auth none = none
identity_from_auth (some i) = if is_blank i.entra.token then none else some i.entra

-- `contextFromRequest`, with the headers X-DB-User and X-DB-Password.
unfoldable pub context_from_request : Option Text → Option Text → Option AuthInfo → Context
unfolding identity_from_auth
context_from_request user password auth = record {
  user = or_default user [];
  password = or_default password [];
  entra = identity_from_auth auth;
}
