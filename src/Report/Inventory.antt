-- ===== src/Report/Inventory.antt =====
-- `inventoryOf` of services/dba-mcp/src/dbatools.ts: the Agent jobs of a node, from the rows of its check. A
-- row of a check is an object.
use mssql_data_api.Prelude.{
  ℕ, Bool, true, false, not, ◌&&◌, ◌||◌, ◌==◌, leb, ltb, Option, none, some, List, [], ◌∷◌,
  if◌then◌else◌, length,
}
use mssql_data_api.Prelude.Text.{Text, codes, eq_text, trim}
use mssql_data_api.Prelude.Dict.{Dict, get, set}
use mssql_data_api.Prelude.Json.{Json, null, string, Number, whole, Runtime, to_text, to_number}
use mssql_data_api.Safety.Guard.{split}
use mssql_data_api.Report.{Row, RawCheck, RawStatus, ok, empty}

abbrev pub drift_label : Text
drift_label = codes "Agent job drift between AG replicas"

pub record JobInv : Type 0 where
  pub enabled : Bool
  pub scheduled : Bool
  pub hash : Text
  pub modified : Text

pub record NodeInventory : Type 0 where
  pub server : Text
  pub partners : List Text
  pub jobs : Dict JobInv
  pub complete : Bool

-- A column that is missing, null and empty is none.
abbrev usable : Option Json → Option Json
usable none = none
usable (some null) = none
usable (some (string [])) = none
usable (some v) = some v

abbrev or_else : Option Json → Option Json → Option Json
or_else none o = o
or_else (some v) o = some v

unfoldable pub pick : Row → List Text → Option Json
unfolding get
pick r [] = none
pick r (k ∷ ks) = or_else (usable (get k r)) (pick r ks)

-- `(v ?? "")` as a string.
abbrev pub text_or_blank : Runtime → Option Json → Text
text_or_blank rt none = []
text_or_blank rt (some v) = to_text rt v

abbrev is_blank : Text → Bool
is_blank [] = true
is_blank (c ∷ s) = false

abbrev named : Text → Option Text
named t = if is_blank t || eq_text t (codes "?") then none else some t

abbrev id_from : Runtime → Option Json → Option Text
id_from rt none = none
id_from rt (some v) = named (trim (to_text rt v))

unfoldable pub id_of : Runtime → Row → List Text → Option Text
unfolding pick trim
id_of rt r keys = id_from rt (pick r keys)

abbrev is_one : Number → Bool
is_one (whole n) = n == 1
is_one _ = false

-- `num(v) === 1`; `Number(undefined)` is NaN.
abbrev reads_one : Runtime → Option Json → Bool
reads_one rt none = false
reads_one rt (some v) = is_one (to_number rt v)

unfoldable pub job_inv : Runtime → Row → JobInv
unfolding pick
job_inv rt r = record {
  enabled = reads_one rt (pick r (codes "Enabled" ∷ []));
  scheduled = reads_one rt (pick r (codes "Scheduled" ∷ []));
  hash = text_or_blank rt (pick r (codes "StepsHash" ∷ []));
  modified = text_or_blank rt (pick r (codes "Modified" ∷ []));
}

abbrev has {ℓ} : {A : Type ℓ} → Option A → Bool
has none = false
has (some a) = true

-- The rows that name a job.
unfoldable pub job_rows : Runtime → List Row → List Row
unfolding id_of
job_rows rt [] = []
job_rows rt (r ∷ rs) =
    let rest = job_rows rt rs in if has (id_of rt r (codes "Job" ∷ [])) then r ∷ rest else rest

abbrev pub set_named : Option Text → JobInv → Dict JobInv → Dict JobInv
set_named none j d = d
set_named (some name) j d = set name j d

unfoldable pub jobs_of : Runtime → List Row → Dict JobInv → Dict JobInv
unfolding id_of job_inv set
jobs_of rt [] d = d
jobs_of rt (r ∷ rs) d = jobs_of rt rs (set_named (id_of rt r (codes "Job" ∷ [])) (job_inv rt r) d)

unfoldable pub partners_of : Runtime → List Text → List Text
unfolding trim
partners_of rt [] = []
partners_of rt (s ∷ l) =
    let rest = partners_of rt l in
    if is_blank (rt.upper (trim s)) then rest else rt.upper (trim s) ∷ rest

abbrev shown_or : Option ℕ → ℕ → ℕ
shown_or none n = n
shown_or (some s) n = s

unfoldable pub inventory_from : Runtime → RawCheck → List Row → Option NodeInventory
unfolding pick jobs_of partners_of split
inventory_from rt c [] = none
inventory_from rt c (r ∷ rs) = some (record {
  server = rt.upper (text_or_blank rt (pick r (codes "Server" ∷ [])));
  partners = partners_of rt (split b',' (text_or_blank rt (pick r (codes "Partners" ∷ []))));
  jobs = jobs_of rt (r ∷ rs) [];
  complete = not c.capped && ltb c.rows 1000 && leb c.rows (shown_or c.shown (length (r ∷ rs)));
})

unfoldable pub find_drift : List RawCheck → Option RawCheck
find_drift [] = none
find_drift (c ∷ cs) =
    let rest = find_drift cs in if eq_text c.label drift_label then some c else rest

abbrev pub is_inventory : RawStatus → Bool
is_inventory ok = true
is_inventory empty = true
is_inventory _ = false

abbrev pub inventory_in : Runtime → Option RawCheck → Option NodeInventory
inventory_in rt none = none
inventory_in rt (some c) =
    if is_inventory c.status then inventory_from rt c (job_rows rt c.data_rows) else none

unfoldable pub inventory_of : Runtime → Option (List RawCheck) → Option NodeInventory
unfolding find_drift inventory_from job_rows
inventory_of rt none = none
inventory_of rt (some cs) = inventory_in rt (find_drift cs)
