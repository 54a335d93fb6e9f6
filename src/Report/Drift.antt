-- ===== src/Report/Drift.antt =====
-- How `applyReplicaJobDrift` of services/dba-mcp/src/dbatools.ts compares the Agent jobs of a node with
-- those of its partners.
pub mod Verdicts
mod Symmetry
pub mod Applied
mod Faithful
mod Tests
use mssql_data_api.Prelude.{
  ℕ, Bool, true, false, not, ◌&&◌, ◌||◌, ◌==◌, leb, ltb, Option, none, some, List, [], ◌∷◌, ◌++◌,
  map, if◌then◌else◌, length, any,
}
use mssql_data_api.Prelude.Text.{Text, codes, eq_text, trim}
use mssql_data_api.Prelude.Dict.{Dict, get, set}
use mssql_data_api.Prelude.Json.{
  Json, null, number, string, Number, whole, Runtime, to_text, to_number, lt_text, join,
}
use mssql_data_api.Safety.Guard.{split}
use mssql_data_api.Report.{Row, RawCheck, RawStatus, raw_pass, raw_attention, ok, empty}
use mssql_data_api.Report.Inventory.{drift_label, JobInv, NodeInventory, find_drift, inventory_of}

abbrev pub is_live : JobInv → Bool
is_live j = j.enabled && j.scheduled

unfoldable pub state : JobInv → Text
state j =
    (if j.enabled then codes "enabled" else codes "disabled")
    ++ (if j.scheduled then [] else codes ", no enabled schedule")

pub data Kind : Type 0 where
  only_here : Kind
  state_differs : Kind
  steps_differ : Kind
  only_there : Kind

pub record Diff : Type 0 where
  pub kind : Kind
  pub job : Text
  pub server : Text
  pub partner : Text
  pub here : Text
  pub there : Text
  pub is_live : Bool
  pub newer : Option Text

abbrev pub differ : Bool → Bool → Bool
differ true b = not b
differ false b = b

abbrev newer_of : Text → Text → Text
newer_of a b = if lt_text b a then codes "here" else if lt_text a b then codes "partner" else []

module _ (server partner job : Text) where
  -- A job of this node against the partner's.
  unfoldable pub compare_job : JobInv → Option JobInv → Option Diff
  unfolding state lt_text
  compare_job a none = some (record {
    kind = only_here;
    job = job;
    server = server;
    partner = partner;
    here = state a;
    there = codes "missing";
    is_live = is_live a;
    newer = none;
  })
  compare_job a (some b) =
      if differ a.enabled b.enabled || differ a.scheduled b.scheduled
      then some (record {
        kind = state_differs;
        job = job;
        server = server;
        partner = partner;
        here = state a;
        there = state b;
        is_live = is_live a || is_live b;
        newer = none;
      })
      else if not (eq_text a.hash b.hash)
      then some (record {
        kind = steps_differ;
        job = job;
        server = server;
        partner = partner;
        here = a.modified;
        there = b.modified;
        is_live = is_live a;
        newer = some (newer_of a.modified b.modified);
      })
      else none

  unfoldable pub missing_here : Option JobInv → JobInv → Option Diff
  unfolding state
  missing_here (some a) b = none
  missing_here none b = some (record {
    kind = only_there;
    job = job;
    server = server;
    partner = partner;
    here = codes "missing";
    there = state b;
    is_live = is_live b;
    newer = none;
  })

abbrev pub push : Option Diff → List Diff → List Diff
push none ds = ds
push (some d) ds = d ∷ ds

module _ (me peer : NodeInventory) where
  unfoldable pub diffs_here : Dict JobInv → List Diff
  unfolding compare_job get
  diffs_here [] = []
  diffs_here ((job, a) ∷ l) =
      push (compare_job me.server peer.server job a (get job peer.jobs)) (diffs_here l)

  unfoldable pub diffs_there : Dict JobInv → List Diff
  unfolding missing_here get
  diffs_there [] = []
  diffs_there ((job, b) ∷ l) =
      push (missing_here me.server peer.server job (get job me.jobs) b) (diffs_there l)

unfoldable pub differences : NodeInventory → List NodeInventory → List Diff
unfolding diffs_here diffs_there
differences me [] = []
differences me (p ∷ ps) = (diffs_here me p me.jobs ++ diffs_there me p p.jobs) ++ differences me ps

abbrev kind_text : Kind → Text
kind_text only_here = codes "Only on this node"
kind_text state_differs = codes "State differs"
kind_text steps_differ = codes "Steps differ"
kind_text only_there = codes "Only on the partner"

abbrev flag : Bool → Json
flag b = number (whole (if b then 1 else 0))

abbrev newer_column : Option Text → Row
newer_column none = []
newer_column (some s) = (codes "Newer", string s) ∷ []

abbrev diff_row : Diff → Row
diff_row d =
    (codes "Kind", string (kind_text d.kind))
    ∷ (codes "Job", string d.job)
    ∷ (codes "Server", string d.server)
    ∷ (codes "Partner", string d.partner)
    ∷ (codes "Here", string d.here)
    ∷ (codes "There", string d.there)
    ∷ (codes "Live", flag d.is_live)
    ∷ newer_column d.newer

unfoldable pub drift_rows : List NodeInventory → List Diff → List Row
unfolding join
drift_rows peers [] =
    ((codes "Kind", string (codes "None"))
      ∷ (codes "Partner", string (join (codes ", ") (map (λ p. p.server) peers)))
      ∷ (codes "Live", flag false)
      ∷ [])
    ∷ []
drift_rows peers (d ∷ ds) = map diff_row (d ∷ ds)

-- What `Object.assign` makes of the check.
unfoldable pub regraded : NodeInventory → List NodeInventory → RawCheck → RawCheck
unfolding differences drift_rows
regraded me peers raw = record raw {
  status = if any (λ d. d.is_live) (differences me peers) then raw_attention else raw_pass;
  rows = length (differences me peers);
  shown = some (length (differences me peers));
  capped = false;
  data_rows = drift_rows peers (differences me peers);
}
