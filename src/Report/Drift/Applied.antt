-- ===== src/Report/Drift/Applied.antt =====
-- `applyReplicaJobDrift` and `runHealthReport` of services/dba-mcp/src/dbatools.ts on the reports of a
-- run. The checks are shared with the caller and changed in place; here each report is held beside its
-- checks, none where there are none. What the worker answers for a node is given.
use mssql_data_api.Prelude.{
  ℕ, Bool, true, false, not, ◌||◌, Option, none, some, List, [], ◌∷◌, map, if◌then◌else◌, any,
}
use mssql_data_api.Prelude.Text.{Text, eq_text}
use mssql_data_api.Prelude.Dict.{Dict, get, set}
use mssql_data_api.Prelude.Json.{Runtime}
use mssql_data_api.Report.{
  DisplayStatus, RawCheck, Finding, Counts, Categories, to_finding, score_findings,
}
use mssql_data_api.Report.Coverage.{Coverage, coverage_of}
use mssql_data_api.Report.Inventory.{NodeInventory, drift_label, find_drift, inventory_of}
use mssql_data_api.Report.Drift.{regraded}

-- A report; of its categories the sums are held, from which `health` is computed.
pub record InstanceReport : Type 0 where
  pub instance_name : Text
  pub computer : Option Text
  pub sql_instance : Option Text
  pub overall_health : Option ℕ
  pub status_counts : Counts
  pub categories : Categories
  pub findings : List Finding
  pub coverage : Option Coverage

abbrev pub Reported : Type 0
Reported = InstanceReport × Option (List RawCheck)

abbrev is_blank : Text → Bool
is_blank [] = true
is_blank (c ∷ s) = false

abbrev pub enter : Option NodeInventory → Dict NodeInventory → Dict NodeInventory
enter none d = d
enter (some i) d = if is_blank i.server then d else set i.server i d

-- `byServer`; a later node of the same name takes the place of an earlier one.
unfoldable pub by_server : List (Option NodeInventory) → Dict NodeInventory → Dict NodeInventory
unfolding set
by_server [] d = d
by_server (i ∷ l) d = by_server l (enter i d)

abbrev with_peer : Option NodeInventory → List NodeInventory → List NodeInventory
with_peer none l = l
with_peer (some p) l = p ∷ l

unfoldable pub peers_of : Dict NodeInventory → List Text → List NodeInventory
unfolding get
peers_of d [] = []
peers_of d (p ∷ l) = with_peer (get p d) (peers_of d l)

abbrev is_alone : List NodeInventory → Bool
is_alone [] = true
is_alone (p ∷ l) = false

-- The check as it is graded again, if it is.
abbrev pub graded : Option NodeInventory → Option RawCheck → Dict NodeInventory → Option RawCheck
graded none raw d = none
graded (some me) none d = none
graded (some me) (some raw) d =
    if is_alone (peers_of d me.partners)
      || not me.complete
      || any (λ p. not p.complete) (peers_of d me.partners)
    then none
    else some (regraded me (peers_of d me.partners) raw)

-- The first check of the label, replaced.
unfoldable pub put_check : RawCheck → List RawCheck → List RawCheck
put_check c [] = []
put_check c (d ∷ l) =
    let rest = put_check c l in if eq_text d.label drift_label then c ∷ l else d ∷ rest

-- The first finding of the label replaced, or the finding appended.
unfoldable pub put_finding : Finding → List Finding → List Finding
put_finding f [] = f ∷ []
put_finding f (g ∷ l) =
    let rest = put_finding f l in if eq_text g.label drift_label then f ∷ l else g ∷ rest

unfoldable pub rescored : InstanceReport → List Finding → List RawCheck → InstanceReport
unfolding score_findings coverage_of
rescored r fs cs = record r {
  findings = fs;
  overall_health = (score_findings fs).overall;
  status_counts = (score_findings fs).counts;
  categories = (score_findings fs).categories;
  coverage = some (coverage_of fs cs);
}

abbrev drift_in : Option (List RawCheck) → Option RawCheck
drift_in none = none
drift_in (some cs) = find_drift cs

abbrev checks_in : Option (List RawCheck) → List RawCheck
checks_in none = []
checks_in (some cs) = cs

-- What the worker answers for a node: none where the call or the parse throws and where there is no
-- output, or the names and the checks.
abbrev pub Answered : Type 0
Answered = Option (Option Text × Option Text × List RawCheck)

module _ (rt : Runtime) (detail_for : RawCheck → DisplayStatus → Text) where
  abbrev pub put_report : Option RawCheck → Reported → Reported
  put_report none r = r
  put_report (some c) (r, cs) = (
    rescored r (put_finding (to_finding detail_for c) r.findings) (put_check c (checks_in cs)),
    some (put_check c (checks_in cs)),
  )

  unfoldable pub apply_one : Dict NodeInventory → Reported → Reported
  unfolding find_drift peers_of regraded put_finding rescored to_finding
  apply_one d (r, cs) = put_report (graded (inventory_of rt cs) (drift_in cs) d) (r, cs)

  -- Every inventory is taken before any finding is graded again.
  unfoldable pub apply_replica_job_drift : List Reported → List Reported
  unfolding by_server apply_one inventory_of
  apply_replica_job_drift l = map (apply_one (by_server (map (λ r. inventory_of rt r.1) l) [])) l

  unfoldable pub report_of : Text → Option Text → Option Text → List RawCheck → InstanceReport
  unfolding to_finding score_findings coverage_of
  report_of name computer sql_instance cs =
      let fs = map (to_finding detail_for) cs in
      record {
        instance_name = name;
        computer = computer;
        sql_instance = sql_instance;
        overall_health = (score_findings fs).overall;
        status_counts = (score_findings fs).counts;
        categories = (score_findings fs).categories;
        findings = fs;
        coverage = some (coverage_of fs cs);
      }

  abbrev pub reported_by : Text → Answered → List Reported → List Reported
  reported_by name none l = l
  reported_by name (some (computer, sql_instance, cs)) l =
      (report_of name computer sql_instance cs, some cs) ∷ l

  -- The loop over the targets; a node is its name and whether it is a witness.
  unfoldable pub collect : (Text → Answered) → List (Text × Bool) → List Reported
  unfolding report_of
  collect ask [] = []
  collect ask ((name, witness) ∷ l) =
      let rest = collect ask l in if witness then rest else reported_by name (ask name) rest

  unfoldable pub run_health_report : (Text → Answered) → List (Text × Bool) → List Reported
  unfolding apply_replica_job_drift collect
  run_health_report ask targets = apply_replica_job_drift (collect ask targets)
