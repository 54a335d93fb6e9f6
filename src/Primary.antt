-- ===== src/Primary.antt =====
-- The alias of a region's primary in services/dba-mcp/src/connectionManager.ts: `getServerName`,
-- `resolveRegionPrimary` and their caches. What the instances answer is a parameter: `ag` the server
-- name that the query for the primary gives on an instance, none where it throws and `some none`
-- without a row, and `server` the answer to the query for `@@SERVERNAME`. `lower` is `toLowerCase`.
pub mod Resolved
mod Tests
use mssql_data_api.Prelude.{
  ℕ, ◌+◌, ltb, Bool, true, false, not, ◌&&◌, ◌||◌, Option, none, some, List, [], ◌∷◌, ◌++◌,
  if◌then◌else◌,
}
use mssql_data_api.Prelude.Text.{Text, codes, eq_text}

pub record Instance : Type 0 where
  pub name : Text
  pub region : Option Text
  pub is_witness : Bool

unfoldable pub ends_with : Text → Text → Bool
ends_with suffix [] = eq_text suffix []
ends_with suffix (c ∷ s) = eq_text suffix (c ∷ s) || ends_with suffix s

abbrev pub in_region : Text → Option Text → Bool
in_region region none = false
in_region region (some r) = eq_text r region

abbrev pub primary_alias_suffix : Text
primary_alias_suffix = codes "-primary"

unfoldable pub is_candidate : Text → Instance → Bool
unfolding ends_with
is_candidate region i =
    in_region region i.region
    && not i.is_witness
    && not (ends_with (codes "-nlb") i.name)
    && not (ends_with primary_alias_suffix i.name)

unfoldable pub candidates : Text → List Instance → List Instance
unfolding is_candidate
candidates region [] = []
candidates region (i ∷ l) =
    let rest = candidates region l in if is_candidate region i then i ∷ rest else rest

abbrev pub Names : Type 0
Names = List (Text × Text)

unfoldable pub name_of : Text → Names → Option Text
name_of n [] = none
name_of n ((m, s) ∷ l) = if eq_text m n then some s else name_of n l

pub record Cached : Type 0 where
  pub region : Text
  pub instance_name : Text
  pub expires_at : ℕ

unfoldable pub cached_primary : Text → List Cached → Option Cached
cached_primary region [] = none
cached_primary region (c ∷ l) = if eq_text c.region region then some c else cached_primary region l

unfoldable pub forget : Text → List Cached → List Cached
forget region [] = []
forget region (c ∷ l) =
    let rest = forget region l in if eq_text c.region region then rest else c ∷ rest

pub record Caches : Type 0 where
  pub names : Names
  pub primaries : List Cached

-- `invalidatePrimaryCache`; the empty region is none.
unfoldable pub invalidate : Option Text → Caches → Caches
unfolding forget
invalidate none s = record s { primaries = [] }
invalidate (some region) s = record s { primaries = forget region s.primaries }

abbrev pub is_blank : Text → Bool
is_blank [] = true
is_blank (c ∷ s) = false

abbrev pub or_blank : Option Text → Text
or_blank none = []
or_blank (some s) = s

module _ (lower : Text → Text) (ag : Text → Option (Option Text))
    (server : Text → Option Text) where
  -- The answer is cached unless it is empty.
  unfoldable pub learned : Text → Option Text → Names → Option Text × Names
  learned n none names = (none, names)
  learned n (some s) names = (some s, if is_blank s then names else (n, s) ∷ names)

  unfoldable pub known_or : Text → Option Text → Names → Option Text × Names
  unfolding learned
  known_or n (some s) names = (some s, names)
  known_or n none names = learned n (server n) names

  unfoldable pub server_name : Text → Names → Option Text × Names
  unfolding known_or name_of
  server_name n names = known_or n (name_of n names) names

  abbrev pub is_node : Text → Text → Bool
  is_node sn primary = not (is_blank sn) && eq_text (lower sn) (lower primary)

  -- The loop that maps the reported server name to an instance.
  unfoldable pub match_node : Text → List Instance → Names → Option Text × Names
  unfolding server_name
  match_node primary [] names = (none, names)
  match_node primary (c ∷ cs) names =
      let r = server_name c.name names in
      let rest = match_node primary cs r.1 in
      if is_node (or_blank r.0) primary then (some c.name, r.1) else rest

  -- One candidate's `try` block from its answer on; none is an error.
  unfoldable pub asked : Option (Option Text) → List Instance → Names → Option Text × Names
  unfolding match_node
  asked none all names = (none, names)
  asked (some none) all names = (none, names)
  asked (some (some p)) all names = if is_blank p then (none, names) else match_node p all names

  abbrev pub or_next : Option Text × Names → (Names → Option Text × Names) → Option Text × Names
  or_next (some n, names) next = (some n, names)
  or_next (none, names) next = next names

  unfoldable pub try_each : List Instance → List Instance → Names → Option Text × Names
  unfolding asked
  try_each [] all names = (none, names)
  try_each (c ∷ cs) all names = or_next (asked (ag c.name) all names) (try_each cs all)

  abbrev pub remember : Text → ℕ → Option Text × Names → Caches → Option Text × Caches
  remember region expires (none, names) s = (none, record s { names = names })
  remember region expires (some n, names) s = (
    some n,
    record s {
      names = names;
      primaries = record { region = region; instance_name = n; expires_at = expires } ∷ s.primaries;
    },
  )

  abbrev pub fresh : Option Cached → ℕ → Option Text
  fresh none now = none
  fresh (some c) now = if ltb now c.expires_at then some c.instance_name else none

  abbrev pub or_resolve : Option Text → Caches → Option Text × Caches → Option Text × Caches
  or_resolve (some n) s r = (some n, s)
  or_resolve none s r = r

  -- `now` and `later` are the times of the two calls of `Date.now`. With no candidate nothing is tried.
  unfoldable pub resolve_region_primary :
      List Instance → ℕ → ℕ → ℕ → Text → Caches → Option Text × Caches
  unfolding cached_primary try_each candidates
  resolve_region_primary fleet ttl now later region s =
      let all = candidates region fleet in
      or_resolve (fresh (cached_primary region s.primaries) now) s
        (remember region (later + ttl) (try_each all all s.names) s)
