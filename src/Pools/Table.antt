-- ===== src/Pools/Table.antt =====
-- The second half of `getPool` of services/dba-mcp/src/connectionManager.ts, the map `pools` and
-- the callbacks that take a pool out of it. Pools are numbered by what opens them. What the driver
-- and the server answer comes with the event; `lower` is `toLowerCase`.
use mssql_data_api.Prelude.{
  ℕ, ◌==◌, ltb, min, max, Bool, not, ◌&&◌, Option, none, some, List, [], ◌∷◌, if◌then◌else◌, ◌⊎◌,
  inl, inr,
}
use mssql_data_api.Prelude.Text.{Text, codes, eq_text}
use mssql_data_api.Prelude.Dict.{Dict, get, set, remove}
use mssql_data_api.Pools.Errors.{Thrown, is_catalog_unavailable}
use mssql_data_api.Pools.Login.{
  is_blank, Auth, sql_login, entra_token, no_token, Failure, connect_failed, both_failed,
  no_such_database, Context, Site, Plan, Fleet, plan,
}

-- The part of the reason that `sys.databases` on the node reached gives, after the first error. An
-- error without a message is an empty reason, which the code takes for none: nothing is asked then.
pub data Measured : Type 0 where
  unasked : Measured
  unread : Measured
  unseen : Measured
  online : Measured
  in_state : Text → Measured

-- `CatalogInfo`'s `fallbackReason`: none is a pool on its configured database.
pub record Pool : Type 0 where
  pub number : ℕ
  pub plan : Plan
  pub database : Text
  pub fallback_reason : Option (Text × Measured)

pub data Attempt : Type 0 where
  up : ℕ → Attempt
  down : Thrown → Attempt

pub record Row : Type 0 where
  pub state_desc : Option Text
  pub visible : ℕ

-- The error of `getOboSqlToken`, which is only asked for a token; the first and the second connection, and the row of the probe: none where it throws or has no row.
pub record Answers : Type 0 where
  pub first : Attempt
  pub second : Attempt
  pub probe : Option Row
  pub no_obo : Option Text

unfoldable pub can_see_catalog : Row → Bool
can_see_catalog r = ltb 4 r.visible

abbrev pub is_online : Text → Measured
is_online state = if eq_text state (codes "ONLINE") then online else in_state state

abbrev pub fallback_pool : Site → Plan → ℕ → Text → Measured → Failure ⊎ Pool
fallback_pool site pl n message m = inr (record {
  number = n;
  plan = pl;
  database = site.fallback_database;
  fallback_reason = some (message, m);
})

-- `state` is null.
unfoldable pub missing : Site → Plan → ℕ → Text → Row → Failure ⊎ Pool
unfolding can_see_catalog
missing site pl n message r =
    if can_see_catalog r
    then inl (no_such_database message)
    else fallback_pool site pl n message unseen

abbrev pub stated : Site → Plan → ℕ → Text → Row → Option Text → Failure ⊎ Pool
stated site pl n message r none = missing site pl n message r
stated site pl n message r (some state) = fallback_pool site pl n message (is_online state)

unfoldable pub judged : Site → Plan → ℕ → Text → Option Row → Failure ⊎ Pool
unfolding missing
judged site pl n message none = fallback_pool site pl n message unread
judged site pl n message (some r) = stated site pl n message r r.state_desc

unfoldable pub retried : Site → Plan → Thrown → Attempt → Option Row → Failure ⊎ Pool
unfolding judged
retried site pl e (down e2) probe = inl (both_failed e.message e2.message)
retried site pl e (up n) probe =
    if is_blank e.message
    then fallback_pool site pl n e.message unasked
    else judged site pl n e.message probe

unfoldable pub may_fall_back : (Text → Text) → Site → Plan → Thrown → Bool
unfolding is_catalog_unavailable
may_fall_back lower site pl e =
    site.fallback_enabled
    && not (eq_text (lower pl.database) (lower site.fallback_database))
    && is_catalog_unavailable e

unfoldable pub dialled :
    (Text → Text) → Site → Plan → Attempt → Attempt → Option Row → Failure ⊎ Pool
unfolding retried may_fall_back
dialled lower site pl (up n) second probe =
    inr (record { number = n; plan = pl; database = pl.database; fallback_reason = none })
dialled lower site pl (down e) second probe =
    if may_fall_back lower site pl e
    then retried site pl e second probe
    else inl (connect_failed e.message)

abbrev pub exchanged : Auth → Option Text → Failure ⊎ Pool → Failure ⊎ Pool
exchanged (sql_login user password) error r = r
exchanged (entra_token e) none r = r
exchanged (entra_token e) (some message) r = inl (no_token message)

unfoldable pub dial : (Text → Text) → Site → Plan → Answers → Failure ⊎ Pool
unfolding dialled
dial lower site pl a =
    exchanged pl.login.auth a.no_obo (dialled lower site pl a.first a.second a.probe)

abbrev pub Pools : Type 0
Pools = Dict Pool

-- `if (existing?.connected) return existing`
abbrev pub if_live : (ℕ → Bool) → Option Pool → Option Pool
if_live live none = none
if_live live (some p) = if live p.number then some p else none

unfoldable pub existing : (ℕ → Bool) → Plan → Pools → Option Pool
unfolding get
existing live pl s = if_live live (get pl.key s)

abbrev pub keep : Failure ⊎ Pool → Pools → Pools
keep (inl f) s = s
keep (inr p) s = set p.plan.key p s

-- `if (pools.get(key) === thisPool) pools.delete(key)`
abbrev pub drop_found : Text → ℕ → Option Pool → Pools → Pools
drop_found key n none s = s
drop_found key n (some p) s = if p.number == n then remove key s else s

unfoldable pub drop : Text → ℕ → Pools → Pools
unfolding get remove
drop key n s = drop_found key n (get key s) s

pub record Request : Type 0 where
  pub name : Text
  pub write : Bool
  pub context : Option Context

-- A call of `getPool` that found no pool comes to its end, a pool has an error, and the timer of a
-- fallback pool fires: the calls can overlap in any way.
pub data Event : Type 0 where
  finishes : Request → Answers → Event
  errs : Text → ℕ → Event
  retires : Text → ℕ → Event

-- `fallbackTtlMs`: none is what is not finite, and 0 stands for the numbers below it.
unfoldable pub fallback_ttl_ms : Option ℕ → ℕ
fallback_ttl_ms none = 60000
fallback_ttl_ms (some parsed) = min (max parsed 1000) 2147483647

module _ (lower : Text → Text) (site : Site) (fleet : Fleet) (primary : Text → Option Text) where
  unfoldable pub plan_request : Request → Failure ⊎ Plan
  unfolding plan
  plan_request r = plan site fleet primary r.name r.write r.context

  abbrev pub finished : Failure ⊎ Plan → Answers → Pools → Pools
  finished (inl f) a s = s
  finished (inr pl) a s = keep (dial lower site pl a) s

  unfoldable pub step : Event → Pools → Pools
  unfolding dial drop set plan_request
  step (finishes r a) s = finished (plan_request r) a s
  step (errs key n) s = drop key n s
  step (retires key n) s = drop key n s

  unfoldable pub run : List Event → Pools → Pools
  unfolding step
  run [] s = s
  run (e ∷ l) s = run l (step e s)

  abbrev pub found_or : Option Pool → Plan → Answers → Pools → (Failure ⊎ Pool) × Pools
  found_or (some p) pl a s = (inr p, s)
  found_or none pl a s = (dial lower site pl a, keep (dial lower site pl a) s)

  abbrev pub get_planned : (ℕ → Bool) → Failure ⊎ Plan → Answers → Pools → (Failure ⊎ Pool) × Pools
  get_planned live (inl f) a s = (inl f, s)
  get_planned live (inr pl) a s = found_or (existing live pl s) pl a s

  -- A call that no other call overlaps.
  unfoldable pub get_pool : (ℕ → Bool) → Request → Answers → Pools → (Failure ⊎ Pool) × Pools
  unfolding existing dial set plan_request
  get_pool live r a s = get_planned live (plan_request r) a s
