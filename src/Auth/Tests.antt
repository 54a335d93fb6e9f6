-- ===== src/Auth/Tests.antt =====
-- The guard at a concrete request, and its theorem there.
use mssql_data_api.Prelude.{◌≡◌, refl, Bool, true, false, Option, none, some, [], ◌∷◌, inl}
use mssql_data_api.Prelude.Text.{Text, codes, trim}
use mssql_data_api.Safety.Guard.{split, trim_all}
use mssql_data_api.Auth.{
  Variables, Config, no_client_id, Payload, AuthInfo, scope_list, config_of, load_auth_config,
  without_slash, scopes_of, nonblank, missing_scope, info_of, guard, verify_access_token,
  context_from_request,
}
use mssql_data_api.Auth.Verified.{Identified, guard-Identified}

abbrev variables : Text → Option Text → Variables
variables mode client = record {
  auth_mode = some mode;
  tenant_id = none;
  client_id = client;
  api_audience = some (codes "aud");
  issuer = some (codes "iss");
  required_scopes = some (codes "read, write");
  resource_url = none;
  public_url = none;
}

without_client : load_auth_config (λ s. s) (variables (codes "required") none) ≡ inl no_client_id
unfolding load_auth_config config_of
without_client = refl

abbrev config : Config
config = record {
  mode = codes "required";
  tenant_id = [];
  client_id = codes "c";
  audience = codes "aud";
  issuer = codes "iss";
  required_scopes = codes "read" ∷ codes "write" ∷ [];
  resource_url = [];
}

two_scopes : scope_list (codes "read, write") ≡ config.required_scopes
unfolding scope_list split trim_all trim
two_scopes = refl

abbrev payload : Payload
payload = record {
  scp = some (codes "read other");
  roles = some (codes "write" ∷ []);
  oid = some (codes "o");
  upn = none;
  preferred_username = some (codes "ann");
  azp = none;
  appid = none;
  exp = none;
}

abbrev jwt : Text → Text → Text → Option Payload
jwt iss aud token = some payload

abbrev is_url : Text → Bool
is_url s = false

abbrev admits : AuthInfo → Bool
admits i = true

admitted_one :
    guard jwt is_url admits config (some (codes "t")) ≡ some (some (info_of (codes "t") payload))
unfolding guard verify_access_token missing_scope scopes_of nonblank split
admitted_one = refl

refused_one : guard jwt is_url admits config none ≡ none
unfolding guard
refused_one = refl

-- A mode that the code does not know has no guard.
unknown_mode : guard jwt is_url admits (record config { mode = codes "on" }) none ≡ some none
unfolding guard
unknown_mode = refl

guard-Identified_example :
    Identified jwt config
      (some (codes "t"))
      (context_from_request none none (some (info_of (codes "t") payload))).entra
guard-Identified_example =
    guard-Identified jwt is_url admits config (some (codes "t")) none none
      (some (info_of (codes "t") payload)) refl admitted_one

-- Without MCP_PUBLIC_URL the resource is `/mcp`, which `new URL` does not take: no token passes.
abbrev unpublished : Config
unpublished = record config { resource_url = codes "/mcp" }

default_resource :
    (config_of (λ s. s) (variables (codes "required") none)).resource_url ≡ codes "/mcp"
unfolding config_of without_slash
default_resource = refl

no_token_passes : guard jwt is_url admits unpublished (some (codes "t")) ≡ none
unfolding guard verify_access_token missing_scope scopes_of nonblank split
no_token_passes = refl
