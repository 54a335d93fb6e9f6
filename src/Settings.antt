-- ===== src/Settings.antt =====
-- The site settings of services/dba-mcp/src/dbatools.ts: the capacity baseline, the core databases and
-- the rule of the disk check. What is logged on a refused entry is not modelled.
pub mod Conformance
pub mod Paths
mod Tests
use mssql_data_api.Prelude.{
  ℕ, ◌-◌, ◌+◌, ◌*◌, Bool, true, false, not, ◌&&◌, ◌||◌, ◌==◌, leb, ltb, Option, none, some, List,
  [], ◌∷◌, ◌++◌, map, if◌then◌else◌, length, any, take,
}
use mssql_data_api.Prelude.Text.{Text, codes, eq_text, trim, is_upper, is_lower, is_digit}
use mssql_data_api.Prelude.Dict.{Dict, get, set}
use mssql_data_api.Prelude.Json.{
  Json, string, array, object, Number, whole, fraction, elements, fields, Runtime, to_number,
  decimal, join,
}
use mssql_data_api.Safety.Guard.{split}

abbrev pub every : (ℕ → Bool) → Text → Bool
every p [] = true
every p (c ∷ s) = p c && every p s

-- `/^[…]{1,n}$/`
abbrev pub is_made_of : (ℕ → Bool) → ℕ → Text → Bool
is_made_of p n s = leb 1 (length s) && leb (length s) n && every p s

abbrev pub is_letter : ℕ → Bool
is_letter c = is_upper c || is_lower c

abbrev pub is_alphanumeric : ℕ → Bool
is_alphanumeric c = is_letter c || is_digit c

abbrev pub is_blank : Text → Bool
is_blank [] = true
is_blank (c ∷ s) = false

-- `JSON.parse` of a setting that is set and not blank.
unfoldable pub parsed : Runtime → Option Text → Option Json
unfolding trim
parsed rt none = none
parsed rt (some raw) = if is_blank (trim raw) then none else rt.parse raw

-- The elements of an array; anything else has none.
abbrev pub array_of : Option Json → List Json
array_of (some (array xs)) = elements xs
array_of _ = []

-- `e?.[k]` of a parsed value.
unfoldable pub field_of : Text → Json → Option Json
unfolding get
field_of k (object fs) = get k (fields fs)
field_of k _ = none

-- `typeof v === "string" ? v.trim() : ""`
unfoldable pub trimmed : Option Json → Text
unfolding trim
trimmed (some (string s)) = trim s
trimmed _ = []

abbrev pub concat_some {ℓ} : {A : Type ℓ} → Option A → List A → List A
concat_some none l = l
concat_some (some a) l = a ∷ l

pub record CapacityRow : Type 0 where
  pub node : Text
  pub cores : ℕ
  pub mem_mb : ℕ

abbrev pub is_server_char : ℕ → Bool
is_server_char c =
    is_alphanumeric c || c == b'_' || c == b'.' || c == b'$' || c == b'\\' || c == b'-'

-- `Number(undefined)` is NaN.
abbrev number_at : Runtime → Option Json → Number
number_at rt none = fraction
number_at rt (some v) = to_number rt v

abbrev positive : Number → Option ℕ
positive (whole n) = if ltb 0 n then some n else none
positive _ = none

abbrev pub capacity_row : Text → Option ℕ → Option ℕ → Option CapacityRow
capacity_row node (some cores) (some mem_mb) =
    if is_made_of is_server_char 128 node
    then some (record { node = node; cores = cores; mem_mb = mem_mb })
    else none
capacity_row node _ _ = none

unfoldable pub capacity_rows : Runtime → List Json → List CapacityRow
unfolding field_of trimmed
capacity_rows rt [] = []
capacity_rows rt (e ∷ l) =
    concat_some
      (capacity_row (trimmed (field_of (codes "node") e))
        (positive (number_at rt (field_of (codes "cores") e)))
        (positive (number_at rt (field_of (codes "memMb") e))))
      (capacity_rows rt l)

unfoldable pub parse_capacity_baseline : Runtime → Option Text → List CapacityRow
unfolding parsed capacity_rows
parse_capacity_baseline rt raw = capacity_rows rt (array_of (parsed rt raw))

abbrev pub or_blank : Option Text → Text
or_blank none = []
or_blank (some s) = s

abbrev pub is_database_char : ℕ → Bool
is_database_char c =
    is_alphanumeric c
    || c == b'_'
    || c == b'$'
    || c == b'#'
    || c == b'@'
    || c == 32
    || c == b'.'
    || c == b'-'

-- The trimmed entries that are names, each once: `seen` are those before.
unfoldable pub distinct_names : List Text → List Text → List Text
unfolding trim
distinct_names seen [] = []
distinct_names seen (s ∷ l) =
    let skip = distinct_names seen l in
    let keep = trim s ∷ distinct_names (trim s ∷ seen) l in
    if not (is_made_of is_database_char 128 (trim s)) || any (λ t. eq_text t (trim s)) seen
    then skip
    else keep

unfoldable pub parse_core_databases : Option Text → List Text
unfolding distinct_names split
parse_core_databases raw = take 32 (distinct_names [] (split b',' (or_blank raw)))

-- `pct` has its keys in the order of insertion.
pub record DiskRule : Type 0 where
  pub volumes : List Text
  pub pct : Dict ℕ

abbrev digit : ℕ → ℕ
digit c = c - b'0'

-- `(?:=(\d{1,2}))?$` on the text behind the volume: the number that it gives, if any.
abbrev pub percent : Text → Option (Option ℕ)
percent [] = some none
percent (e ∷ x ∷ []) = if e == b'=' && is_digit x then some (some (digit x)) else none
percent (e ∷ x ∷ y ∷ []) =
    if e == b'=' && (is_digit x && is_digit y) then some (some (digit x * 10 + digit y)) else none
percent _ = none

abbrev with_volume : Text → Option (Option ℕ) → Option (Text × Option ℕ)
with_volume v none = none
with_volume v (some p) = some (v, p)

-- `/^([A-Z]:)(?:=(\d{1,2}))?$/`
abbrev pub volume_entry : Text → Option (Text × Option ℕ)
volume_entry (d ∷ c ∷ s) =
    if is_upper d && c == b':' then with_volume (d ∷ c ∷ []) (percent s) else none
volume_entry _ = none

abbrev set_percent : Text → Option ℕ → Dict ℕ → Dict ℕ
set_percent v none d = d
set_percent v (some n) d = set v n d

abbrev pub add_volume : Option (Text × Option ℕ) → DiskRule → DiskRule
add_volume none r = r
add_volume (some (v, p)) r = record { volumes = r.volumes ++ v ∷ []; pct = set_percent v p r.pct }

-- An entry that is empty is none, and is refused as well as dropped.
unfoldable pub add_parts : Runtime → List Text → DiskRule → DiskRule
unfolding trim set
add_parts rt [] r = r
add_parts rt (s ∷ l) r = add_parts rt l (add_volume (volume_entry (rt.upper (trim s))) r)

unfoldable pub disk_fail_rule : Runtime → Option Text → DiskRule
unfolding add_parts split
disk_fail_rule rt raw = add_parts rt (split b',' (or_blank raw)) (record { volumes = []; pct = [] })

abbrev quoted : Text → Text
quoted s = (b'\'' ∷ s) ++ b'\'' ∷ []

abbrev attention_ps : Text
attention_ps =
    codes
      "$at=@($d | Where-Object { $null -ne $_.PercentFree -and $_.PercentFree -lt 15 }).Count; if ($fl) {'fail'} elseif ($at) {'attention'} else {'pass'}"

-- `diskSpaceEvalPs`
unfoldable pub disk_space_eval_ps : DiskRule → Text
unfolding join decimal
disk_space_eval_ps r = elim r.volumes [
  | [] ↦
      codes
        "$fl=@($d | Where-Object { $null -ne $_.PercentFree -and $_.PercentFree -lt 10 }).Count; "
      ++ attention_ps
  | v ∷ l ↦
      codes "$sql=@("
      ++ join (codes ",") (map quoted r.volumes)
      ++ codes "); $pct=@{"
      ++ join (codes ";") (map (λ e. quoted e.0 ++ codes "=" ++ decimal e.1) r.pct)
      ++ codes
          "}; $fl=@($d | Where-Object { $null -ne $_.PercentFree -and $_.Name.Length -ge 2 -and $_.Name.Substring(0,2) -in $sql -and $_.PercentFree -lt $(if ($pct.ContainsKey($_.Name.Substring(0,2))) {$pct[$_.Name.Substring(0,2)]} else {10}) }).Count; "
      ++ attention_ps
]

abbrev volume_text : Dict ℕ → Text → Text
volume_text pct v = elim (get v pct) [
  | none ↦ v
  | some p ↦ v ++ (codes " (" ++ (decimal p ++ codes "%)"))
]

-- `diskRuleText`
unfoldable pub disk_rule_text : DiskRule → Text
unfolding join decimal get
disk_rule_text r = elim r.volumes [
  | [] ↦
      codes
        "FAIL is under 10% free on any volume (set HEALTHCHECK_DISK_FAIL_VOLUMES to scope it to the volumes that hold SQL or OS files); Attention is under 15%."
  | v ∷ l ↦
      codes "FAIL applies only to the configured SQL/OS volumes - "
      ++ join (codes ", ") (map (volume_text r.pct) r.volumes)
      ++ codes
          " - under 10% free unless a lower threshold is shown; other volumes are shown for awareness (Attention under 15%) but do not fail the check."
]

-- The names of a setting that are of the characters, after the first ones, each once.
unfoldable pub distinct_logins : Runtime → List Text → List Text → List Text
unfolding trim
distinct_logins rt seen [] = []
distinct_logins rt seen (s ∷ l) =
    let skip = distinct_logins rt seen l in
    let keep = rt.lower (trim s) ∷ distinct_logins rt (rt.lower (trim s) ∷ seen) l in
    if not (is_made_of is_server_char 128 (rt.lower (trim s)))
      || any (λ t. eq_text t (rt.lower (trim s))) seen
    then skip
    else keep

abbrev first_logins : List Text
first_logins = codes "sa" ∷ codes "distributor_admin" ∷ []

unfoldable pub structural_logins : Runtime → Option Text → List Text
unfolding distinct_logins split
structural_logins rt raw =
    first_logins ++ distinct_logins rt first_logins (split b',' (or_blank raw))
