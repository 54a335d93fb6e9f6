-- ===== src/Pools/Tests.antt =====
-- The pools at concrete calls, and their theorems there.
use mssql_data_api.Prelude.{
  ℕ, ◌⊎◌, ◌<◌, ◌+◌, zero, suc, true, false, Option, none, some, List, [], ◌∷◌, ◌≡◌, refl, inl, inr,
}
use mssql_data_api.Prelude.Text.{Text, codes}
use mssql_data_api.Prelude.Dict.{get, set}
use mssql_data_api.Pools.Errors.{Node, Thrown, walk, sql_error_numbers, is_catalog_unavailable}
use mssql_data_api.Pools.Tls.{Posture}
use mssql_data_api.Pools.Login.{
  Context, Config, Site, no_headers, sql_login, Login, use_entra, login, sql_credentials, key_of,
  Plan, plan_of, plan_config, Fleet, region_of, resolve_name, plan,
}
use mssql_data_api.Pools.Table.{
  Pool, up, down, Answers, Request, Event, finishes, plan_request, dial, dialled, retried, judged,
  may_fall_back, existing, step, run, unread,
}
use mssql_data_api.Pools.Obo
use mssql_data_api.Pools.Obo.{
  cache_key, Token, Call, Exchanged, get_obo_sql_token, get_obo_sql_token-fresh, is_fresh,
}
use mssql_data_api.Pools.Identities.{IsOwn, login-IsOwn}
use mssql_data_api.Pools.Sharing.{relogged, existing-shared}
use mssql_data_api.Pools.Fallbacks.{IsSound, dial-IsSound}

abbrev posture : Posture
posture = record {
  trust_all = false;
  ca_file = none;
  relax = true;
  bundled = none;
  read = λ f. none;
}

abbrev site : Site
site = record {
  is_http = true;
  obo_enabled = false;
  default_database = codes "d";
  fallback_database = codes "m";
  fallback_enabled = true;
  posture = posture;
}

abbrev config : Config
config = record {
  host = codes "h";
  database = none;
  is_witness = false;
  is_read_write = false;
  entra_auth = false;
  encrypt = none;
  trust_server_certificate = none;
  multi_subnet_failover = none;
  user = codes "svc";
  password = codes "own";
}

abbrev fleet : Fleet
fleet = (codes "n", config) ∷ []

abbrev primary : Text → Option Text
primary r = none

abbrev lower : Text → Text
lower s = s

abbrev context : Text → Context
context password = record { user = codes "ann"; password = password; entra = none }

abbrev ann : Login
ann = record { identity = codes "ann"; auth = sql_login (codes "ann") (codes "pw") }

-- The server's own credential stays unused.
without_headers : login site config none ≡ inl no_headers
unfolding login use_entra sql_credentials
without_headers = refl

logs_in : login site config (some (context (codes "pw"))) ≡ inr ann
unfolding login use_entra sql_credentials
logs_in = refl

login-IsOwn_example : IsOwn (some (context (codes "pw"))) (sql_login (codes "ann") (codes "pw"))
login-IsOwn_example = login-IsOwn site config (some (context (codes "pw"))) ann refl logs_in

abbrev request : Text → Request
request password = record { name = codes "n"; write = false; context = some (context password) }

-- An error with the number 926 in a nested object that refers back to the first.
abbrev heap : ℕ → Node
heap zero = record { number = none; info = none; original_error = some 1; errors = [] }
heap (suc n) = record { number = some 926; info = some 0; original_error = none; errors = [] }

abbrev suspect : Thrown
suspect = record { heap = heap; object = some 0; message = codes "x" }

numbers : sql_error_numbers heap (some 0) ≡ 926 ∷ []
unfolding sql_error_numbers walk
numbers = refl

abbrev well : Answers
well = record { first = up 7; second = up 8; probe = none; no_obo = none }

abbrev sick : Answers
sick = record { first = down suspect; second = up 8; probe = none; no_obo = none }

abbrev history : List Event
history = finishes (request (codes "pw")) well ∷ []

abbrev wrong : Login
wrong = record { identity = codes "ann"; auth = sql_login (codes "ann") (codes "guess") }

abbrev anns_plan : Login → Plan
anns_plan l = plan_of site (codes "n") false config l

plans :
    (l : Login) (p : Text)
    → login site config (some (context p)) ≡ inr l
    → plan_request lower site fleet primary (request p) ≡ inr (anns_plan l)
unfolding plan_request plan region_of resolve_name get plan_config
plans l p h = rw h refl

abbrev anns_pool : Pool
anns_pool = record {
  number = 7;
  plan = anns_plan ann;
  database = codes "d";
  fallback_reason = none;
}

logs_in_wrongly : login site config (some (context (codes "guess"))) ≡ inr wrong
unfolding login use_entra sql_credentials
logs_in_wrongly = refl

-- A caller who knows the login's name but not its password is given its pool.
reused :
    existing (λ n. true) (anns_plan wrong) (run lower site fleet primary history [])
    ≡ some anns_pool
unfolding existing run step plan_request plan region_of resolve_name get plan_config login use_entra
    sql_credentials set dial dialled plan_of key_of
reused = refl

existing-shared_example :
    (codes "ann" ≡ codes "ann") × (anns_plan ann ≡ relogged (anns_plan wrong) ann)
unfolding plan_of
existing-shared_example =
    existing-shared lower site fleet primary history (request (codes "guess")) (λ n. true)
      (anns_plan wrong) anns_pool (refl, tt) (plans wrong (codes "guess") logs_in_wrongly) reused

abbrev fallen : Pool
fallen = record {
  number = 8;
  plan = anns_plan ann;
  database = codes "m";
  fallback_reason = some (codes "x", unread);
}

falls : dial lower site (anns_plan ann) sick ≡ inr fallen
unfolding dial dialled may_fall_back is_catalog_unavailable sql_error_numbers walk retried judged
    plan_of
falls = refl

dial-IsSound_example : IsSound lower site (anns_plan ann) sick fallen
dial-IsSound_example = dial-IsSound lower site (anns_plan ann) sick fallen falls

abbrev token : Token
token = record { token = codes "t"; expires_at = 200000 }

abbrev obo_call : ℕ → Option Token → Call
obo_call now exchange = record {
  entra = record { token = codes "j"; oid = some (codes "o"); upn = none };
  now = now;
  exchange = exchange;
}

cached :
    (get_obo_sql_token true
      (obo_call 6 none).entra
      6
      none
      (Obo.run true (obo_call 5 (some token) ∷ []) [])).0
    ≡ some (codes "t")
unfolding get_obo_sql_token Obo.run get set
cached = refl

get_obo_sql_token-fresh_example :
    (x : Token) × (x.token ≡ codes "t")
    × ((none ≡ some x)
        ⊎ ((6 + 120000 < x.expires_at)
            × Exchanged (obo_call 5 (some token) ∷ []) (cache_key (obo_call 6 none).entra) x))
get_obo_sql_token-fresh_example =
    get_obo_sql_token-fresh true (obo_call 5 (some token) ∷ []) (obo_call 6 none) (codes "t") cached
