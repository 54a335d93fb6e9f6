-- ===== src/Report/Drift/Tests.antt =====
-- Two nodes with one job, and the theorems on the comparison at them.
use mssql_data_api.Prelude.{
  ◌≡◌, refl, ◌↔◌, Bool, true, false, none, some, List, [], ◌∷◌, map, All, ◌==◌, if◌then◌else◌,
}
use mssql_data_api.Prelude.Text.{Text, codes, fold, trim, trim_start, is_space}
use mssql_data_api.Prelude.Dict.{get, set}
use mssql_data_api.Prelude.Json.{string, number, whole, fraction, Runtime}
use mssql_data_api.Report.{Row, RawCheck, raw_pass, raw_attention, ok, DisplayStatus}
use mssql_data_api.Safety.Guard.{split}
use mssql_data_api.Report.Inventory.{
  NodeInventory, inventory_of, drift_label, find_drift, job_rows, inventory_from, id_of, pick,
  jobs_of, job_inv, partners_of,
}
use mssql_data_api.Report.Drift.{
  regraded, differences, diffs_here, diffs_there, compare_job, missing_here,
}
use mssql_data_api.Report.Drift.Verdicts.{Agree, regraded-Agree}
use mssql_data_api.Report.Drift.Symmetry.{regraded_symmetric}
use mssql_data_api.Report.Drift.Applied.{Answered, run_health_report}
use mssql_data_api.Report.Drift.Faithful.{IsFaithful, run_health_report-IsFaithful}

abbrev plain : Runtime
plain = record {
  parse = λ s. none;
  text_of = λ v. [];
  number_of = λ v. fraction;
  upper = λ s. map fold s;
  lower = λ s. s;
}

abbrev job_row : Text → Text → Bool → Row
job_row server partner enabled =
    (codes "Server", string server)
    ∷ (codes "Partners", string partner)
    ∷ (codes "Job", string (codes "nightly"))
    ∷ (codes "Enabled", number (whole (if enabled then 1 else 0)))
    ∷ (codes "Scheduled", number (whole 1))
    ∷ []

abbrev inventory_check : Row → RawCheck
inventory_check r = record {
  category = codes "Jobs";
  label = drift_label;
  priority = none;
  status = ok;
  rows = 1;
  shown = some 1;
  capped = false;
  data_rows = r ∷ [];
}

abbrev east : List RawCheck
east = inventory_check (job_row (codes "east") (codes "west") true) ∷ []

abbrev west : List RawCheck
west = inventory_check (job_row (codes "west") (codes " East ") true) ∷ []

abbrev west_off : List RawCheck
west_off = inventory_check (job_row (codes "west") (codes "east") false) ∷ []

abbrev node : Text → Text → Bool → NodeInventory
node server partner on = record {
  server = server;
  partners = partner ∷ [];
  jobs =
      (codes "nightly", record { enabled = on; scheduled = true; hash = []; modified = [] }) ∷ [];
  complete = true;
}

abbrev east_node : NodeInventory
east_node = node (codes "EAST") (codes "WEST") true

abbrev west_node : Bool → NodeInventory
west_node on = node (codes "WEST") (codes "EAST") on

east_read : inventory_of plain (some east) ≡ some east_node
unfolding inventory_of find_drift inventory_from job_rows id_of pick get trim trim_start is_space
    jobs_of job_inv set partners_of split fold
east_read = refl

west_read : inventory_of plain (some west) ≡ some (west_node true)
unfolding inventory_of find_drift inventory_from job_rows id_of pick get trim trim_start is_space
    jobs_of job_inv set partners_of split fold
west_read = refl

west_off_read : inventory_of plain (some west_off) ≡ some (west_node false)
unfolding inventory_of find_drift inventory_from job_rows id_of pick get trim trim_start is_space
    jobs_of job_inv set partners_of split fold
west_off_read = refl

-- A job that is disabled on one of the nodes.
switched_off :
    (regraded east_node (west_node false ∷ []) (inventory_check [])).status ≡ raw_attention
unfolding regraded differences diffs_here diffs_there compare_job missing_here get
switched_off = refl

regraded-Agree_example :
    ((regraded east_node (west_node true ∷ []) (inventory_check [])).status ≡ raw_pass)
    ↔ All (Agree east_node) (west_node true ∷ [])
unfolding get
regraded-Agree_example =
    regraded-Agree east_node (west_node true ∷ []) (inventory_check []) (refl, tt) ((refl, tt), tt)

regraded_symmetric_example :
    (regraded east_node (west_node false ∷ []) (inventory_check [])).status
    ≡ (regraded (west_node false) (east_node ∷ []) (inventory_check [])).status
regraded_symmetric_example =
    regraded_symmetric plain (some east) (some west_off) east_node (west_node false)
      (inventory_check []) (inventory_check []) east_read west_off_read

abbrev answers : Text → Answered
answers [] = none
answers (c ∷ s) = some (none, none, if c == b'e' then east else west_off)

abbrev no_details : RawCheck → DisplayStatus → Text
no_details c s = []

run_health_report-IsFaithful_example : All (IsFaithful plain no_details) (
    run_health_report plain no_details answers
      ((codes "e", false) ∷ (codes "w", false) ∷ (codes "x", true) ∷ []))
run_health_report-IsFaithful_example =
    run_health_report-IsFaithful plain no_details answers
      ((codes "e", false) ∷ (codes "w", false) ∷ (codes "x", true) ∷ [])
