-- ===== src/Settings/Conformance.antt =====
-- `parseConformanceBaseline` of services/dba-mcp/src/dbatools.ts: the baseline that the nodes are graded
-- against, and the setting that is merged over it. The names of settings are of ASCII characters where
-- they are compared in lower case.
pub mod Ranges
pub mod Table
use mssql_data_api.Prelude.{
  ℕ, zero, suc, ◌+◌, Bool, true, false, not, ◌&&◌, ◌||◌, ◌==◌, leb, ltb, Option, none, some, String,
  List, [], ◌∷◌, ◌++◌, map, if◌then◌else◌,
}
use mssql_data_api.Prelude.Text.{Text, codes, eq_text, is_upper, trim}
use mssql_data_api.Prelude.Json.{
  Json, null, boolean, number, string, array, object, Number, whole, below, Items, nil, cons,
  elements, fields, Runtime, to_text, decimal,
}
use mssql_data_api.Settings.{is_made_of, is_alphanumeric, is_blank, parsed, field_of}

pub record AgPolicy : Type 0 where
  pub db_failover : Text
  pub failure_condition_level : ℕ
  pub health_check_timeout : ℕ
  pub automated_backup_preference : Text

pub record ReplicaPolicy : Type 0 where
  pub session_timeout : ℕ
  pub seeding_mode : Text

pub record InstanceRow : Type 0 where
  pub name : Text
  pub expected : Number
  pub sev : ℕ
  pub note : Text

-- `maxdop`: undefined, null or a number.
pub data Maxdop : Type 0 where
  sized : Maxdop
  ungraded : Maxdop
  site : ℕ → Maxdop

pub record ConformanceBaseline : Type 0 where
  pub ag : AgPolicy
  pub replica : ReplicaPolicy
  pub instances : List InstanceRow
  pub maxdop : Maxdop
  pub overridden : List Text

row : String → ℕ → ℕ → String → InstanceRow
row name expected sev note = record {
  name = codes name;
  expected = whole expected;
  sev = sev;
  note = codes note;
}

unfoldable pub default_instances : List InstanceRow
unfolding row
default_instances =
    row "xp_cmdshell" 0 2
      "Shell execution under the SQL service account. Check msdb job steps for callers before disabling - at its next run each one gets Msg 15281 instead of running its command."
    ∷ row "Ole Automation Procedures" 0 2
        "sp_OACreate and friends run in-process in sqlservr. Confirm no module or job step calls sp_OA* across EVERY database (sys.sql_modules is database-scoped) before turning it off."
    ∷ row "Ad Hoc Distributed Queries" 0 1
        "Backs OPENROWSET/OPENQUERY. Verify nothing ad-hoc depends on it (e.g. a query through a third-party provider) before disabling."
    ∷ row "cross db ownership chaining" 0 2
        "SERVER-level chaining. The per-database DB_CHAINING option is a different setting and may be ON by design - do not confuse them."
    ∷ row "clr enabled" 0 1 "Off unless CLR assemblies are in use."
    ∷ row "priority boost" 0 2
        "Documented as destabilising on a clustered/AG instance; can starve the OS and break cluster health checks."
    ∷ row "lightweight pooling" 0 2
        "Fiber mode is unsupported with CLR/linked servers and breaks in-process OLE DB providers."
    ∷ row "cost threshold for parallelism" 50 1
        "Recommended: 50. The SQL default of 5 sends trivial queries parallel and inflates CXPACKET."
    ∷ row "optimize for ad hoc workloads" 1 1
        "Stops single-use plans filling the cache on an ad-hoc-heavy workload."
    ∷ row "backup compression default" 1 1
        "Smaller, faster backups; also less time holding backup I/O against the data volume."
    ∷ row "backup checksum default" 1 1
        "Validates every page as it is backed up, so corruption is caught at BACKUP time instead of at RESTORE."
    ∷ row "remote admin connections" 1 1
        "Enables the DAC over TCP. Without it, when the engine stops accepting normal connections there is no way in to diagnose it remotely."
    ∷ []

unfoldable pub default_conformance : ConformanceBaseline
unfolding default_instances
default_conformance = record {
  ag = record {
    db_failover = codes "ON";
    failure_condition_level = 2;
    health_check_timeout = 60000;
    automated_backup_preference = codes "SECONDARY";
  };
  replica = record { session_timeout = 60; seeding_mode = codes "AUTOMATIC" };
  instances = default_instances;
  maxdop = sized;
  overridden = [];
}

abbrev pub site_note : Text
site_note = codes "Site baseline (HEALTHCHECK_CONFORMANCE_BASELINE)."

-- `Object.entries(v ?? {})`: the elements of an array and the characters of a string are entries too,
-- under their indices.
unfoldable pub indexed : ℕ → List Json → List (Text × Json)
unfolding decimal
indexed i [] = []
indexed i (v ∷ l) = (decimal i, v) ∷ indexed (i + 1) l

unfoldable pub entries : Option Json → List (Text × Json)
unfolding indexed
entries (some (object fs)) = fields fs
entries (some (array xs)) = indexed 0 (elements xs)
entries (some (string s)) = indexed 0 (map (λ c. string (c ∷ [])) s)
entries _ = []

-- `typeof v === "string" ? v.toUpperCase() : v`
abbrev pub upper_value : Runtime → Json → Json
upper_value rt (string s) = string (rt.upper s)
upper_value rt v = v

abbrev pub text_in : List Text → Text → Option Text
text_in [] s = none
text_in (t ∷ l) s = if eq_text t s then some t else text_in l s

-- The text that equals a value, among some.
abbrev pub value_in : List Text → Json → Option Text
value_in l (string s) = text_in l s
value_in l _ = none

-- `int(v, lo, hi)`
abbrev pub int_between : ℕ → ℕ → Json → Option ℕ
int_between lo hi (number (whole n)) = if leb lo n && leb n hi then some n else none
int_between lo hi _ = none

-- `Number.isInteger(v)`
abbrev pub integer : Json → Option Number
integer (number (whole n)) = some (whole n)
integer (number (below n)) = some (below n)
integer _ = none

abbrev pub on_off : List Text
on_off = codes "ON" ∷ codes "OFF" ∷ []

abbrev pub seeding_modes : List Text
seeding_modes = codes "AUTOMATIC" ∷ codes "MANUAL" ∷ []

abbrev pub preferences : List Text
preferences = codes "PRIMARY" ∷ codes "SECONDARY_ONLY" ∷ codes "SECONDARY" ∷ codes "NONE" ∷ []

abbrev with_failover : AgPolicy → Option Text → Option AgPolicy
with_failover a none = none
with_failover a (some s) = some (record a { db_failover = s })

abbrev with_level : AgPolicy → Option ℕ → Option AgPolicy
with_level a none = none
with_level a (some n) = some (record a { failure_condition_level = n })

abbrev with_health : AgPolicy → Option ℕ → Option AgPolicy
with_health a none = none
with_health a (some n) = some (record a { health_check_timeout = n })

abbrev with_preference : AgPolicy → Option Text → Option AgPolicy
with_preference a none = none
with_preference a (some s) = some (record a { automated_backup_preference = s })

-- The policy with one value set, none where the entry is refused. The names are different, so no entry
-- that one branch refuses is taken by another.
unfoldable pub set_ag : Runtime → Text → Json → AgPolicy → Option AgPolicy
set_ag rt k v a =
    if eq_text k (codes "DB_FAILOVER")
    then with_failover a (value_in on_off (upper_value rt v))
    else if eq_text k (codes "FAILURE_CONDITION_LEVEL")
    then with_level a (int_between 1 5 v)
    else if eq_text k (codes "HEALTH_CHECK_TIMEOUT")
    then with_health a (int_between 15000 2147483647 v)
    else if eq_text k (codes "AUTOMATED_BACKUP_PREFERENCE")
    then with_preference a (text_in preferences (to_text rt (upper_value rt v)))
    else none

abbrev with_session : ReplicaPolicy → Option ℕ → Option ReplicaPolicy
with_session r none = none
with_session r (some n) = some (record r { session_timeout = n })

abbrev with_seeding : ReplicaPolicy → Option Text → Option ReplicaPolicy
with_seeding r none = none
with_seeding r (some s) = some (record r { seeding_mode = s })

unfoldable pub set_replica : Runtime → Text → Json → ReplicaPolicy → Option ReplicaPolicy
set_replica rt k v r =
    if eq_text k (codes "SESSION_TIMEOUT")
    then with_session r (int_between 5 86400 v)
    else if eq_text k (codes "SEEDING_MODE")
    then with_seeding r (value_in seeding_modes (upper_value rt v))
    else none

abbrev pub put_ag : Text → Option AgPolicy → ConformanceBaseline → ConformanceBaseline
put_ag k none b = b
put_ag k (some a) b = record b { ag = a; overridden = b.overridden ++ k ∷ [] }

abbrev pub put_replica : Text → Option ReplicaPolicy → ConformanceBaseline → ConformanceBaseline
put_replica k none b = b
put_replica k (some r) b = record b { replica = r; overridden = b.overridden ++ k ∷ [] }

unfoldable pub merge_ag : Runtime → List (Text × Json) → ConformanceBaseline → ConformanceBaseline
unfolding set_ag
merge_ag rt [] b = b
merge_ag rt ((k, v) ∷ l) b = merge_ag rt l (put_ag k (set_ag rt k v b.ag) b)

unfoldable pub merge_replica :
    Runtime → List (Text × Json) → ConformanceBaseline → ConformanceBaseline
unfolding set_replica
merge_replica rt [] b = b
merge_replica rt ((k, v) ∷ l) b =
    merge_replica rt l (put_replica k (set_replica rt k v b.replica) b)

abbrev lower_char : ℕ → ℕ
lower_char c = if is_upper c then c + 32 else c

-- `toLowerCase` of a text of ASCII characters.
unfoldable pub lower_ascii : Text → Text
lower_ascii s = map lower_char s

abbrev pub is_setting_char : ℕ → Bool
is_setting_char c = is_alphanumeric c || c == 32 || c == b'(' || c == b')' || c == b'_' || c == b'-'

abbrev pub is_setting_name : Text → Bool
is_setting_name k = is_made_of is_setting_char 48 k

abbrev pub is_maxdop : Text → Bool
is_maxdop k = eq_text (lower_ascii k) (codes "max degree of parallelism")

-- The first row of that name with a new expectation, or a new row at the end.
unfoldable pub put_row : Text → Number → List InstanceRow → List InstanceRow
unfolding lower_ascii
put_row k n [] = record { name = k; expected = n; sev = 1; note = site_note } ∷ []
put_row k n (r ∷ l) =
    let rest = put_row k n l in
    if eq_text (lower_ascii r.name) (lower_ascii k)
    then record r { expected = n; note = site_note } ∷ l
    else r ∷ rest

-- The rows without the first one of that name.
unfoldable pub drop_row : Text → List InstanceRow → List InstanceRow
unfolding lower_ascii
drop_row k [] = []
drop_row k (r ∷ l) =
    let rest = drop_row k l in if eq_text (lower_ascii r.name) (lower_ascii k) then l else r ∷ rest

abbrev pub with_rows : Text → List InstanceRow → ConformanceBaseline → ConformanceBaseline
with_rows k l b = record b { instances = l; overridden = b.overridden ++ k ∷ [] }

abbrev pub with_maxdop : Text → Maxdop → ConformanceBaseline → ConformanceBaseline
with_maxdop k m b = record b { maxdop = m; overridden = b.overridden ++ k ∷ [] }

abbrev pub site_maxdop : Text → Option ℕ → ConformanceBaseline → ConformanceBaseline
site_maxdop k none b = b
site_maxdop k (some n) b = with_maxdop k (site n) b

abbrev pub put_maxdop : Text → Json → ConformanceBaseline → ConformanceBaseline
put_maxdop k null b = with_maxdop k ungraded b
put_maxdop k v b = site_maxdop k (int_between 0 32767 v) b

abbrev pub expect : Text → Option Number → ConformanceBaseline → ConformanceBaseline
expect k none b = b
expect k (some n) b = with_rows k (put_row k n b.instances) b

abbrev pub put_setting : Text → Json → ConformanceBaseline → ConformanceBaseline
put_setting k null b = with_rows k (drop_row k b.instances) b
put_setting k v b = expect k (integer v) b

unfoldable pub set_instance : Text → Json → ConformanceBaseline → ConformanceBaseline
unfolding put_row drop_row lower_ascii
set_instance k v b =
    if not (is_setting_name k)
    then b
    else if is_maxdop k
    then put_maxdop k v b
    else put_setting k v b

unfoldable pub merge_instances : List (Text × Json) → ConformanceBaseline → ConformanceBaseline
unfolding set_instance
merge_instances [] b = b
merge_instances ((k, v) ∷ l) b = merge_instances l (set_instance k v b)

-- The setting merged over the default; what is no object is ignored.
abbrev pub merge : Runtime → Option Json → ConformanceBaseline → ConformanceBaseline
merge rt (some (object fs)) b =
    merge_instances (entries (field_of (codes "instance") (object fs))) (
      merge_replica rt (entries (field_of (codes "replica") (object fs)))
        (merge_ag rt (entries (field_of (codes "ag") (object fs))) b))
merge rt _ b = b

unfoldable pub parse_conformance_baseline : Runtime → Option Text → ConformanceBaseline
unfolding parsed merge_ag merge_replica merge_instances entries field_of default_conformance
parse_conformance_baseline rt raw = merge rt (parsed rt raw) default_conformance
