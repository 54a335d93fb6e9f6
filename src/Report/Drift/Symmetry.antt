-- ===== src/Report/Drift/Symmetry.antt =====
-- Two nodes that `applyReplicaJobDrift` of services/dba-mcp/src/dbatools.ts compares with each other.
use mssql_data_api.Prelude.{
  ◌≡◌, refl, ap, ◌∙◌, sym, ◌↔◌, Bool, true, false, Option, none, some, List, [], ◌∷◌, arith,
  Bool-cases, inl, inr, subst, some-injective,
}
use mssql_data_api.Prelude.Text.{Text, codes, eq_text}
use mssql_data_api.Prelude.Dict.{Dict, get, Distinct, set-Distinct}
use mssql_data_api.Prelude.Json.{Runtime}
use mssql_data_api.Report.{Row, RawCheck}
use mssql_data_api.Report.Inventory.{
  JobInv, NodeInventory, jobs_of, id_of, job_inv, set_named, job_rows, inventory_from, inventory_in,
  inventory_of, find_drift, is_inventory,
}
use mssql_data_api.Report.Drift.{differences, regraded}
use mssql_data_api.Report.Drift.Verdicts.{
  drifts, has_live, Agree, status_of, regraded_status, quiet-All, All-quiet,
}

eq_text_comm : (s t : Text) → eq_text s t ≡ eq_text t s
eq_text_comm [] [] = refl
eq_text_comm [] (c ∷ t) = refl
eq_text_comm (c ∷ s) [] = refl
eq_text_comm (c ∷ s) (d ∷ t) = ground (arith, eq_text_comm s t)

drifts_comm : (o p : Option JobInv) → drifts o p ≡ drifts p o
unfolding drifts
drifts_comm none none = refl
drifts_comm none (some b) = refl
drifts_comm (some a) none = refl
drifts_comm (some a) (some b) = ground (arith, eq_text_comm a.hash b.hash)

Agree-sym : (a b : NodeInventory) → Agree a b → Agree b a
Agree-sym a b h job = drifts_comm (get job b.jobs) (get job a.jobs) ∙ h job

jobs_of-Distinct :
    (rt : Runtime) (rs : List Row) (d : Dict JobInv) → Distinct d → Distinct (jobs_of rt rs d)
unfolding jobs_of
jobs_of-Distinct rt [] d h = h
jobs_of-Distinct rt (r ∷ rs) d h =
    jobs_of-Distinct rt rs (set_named (id_of rt r (codes "Job" ∷ [])) (job_inv rt r) d)
      (kept (id_of rt r (codes "Job" ∷ [])))
  where
    kept : (o : Option Text) → Distinct (set_named o (job_inv rt r) d)
    kept none = h
    kept (some name) = set-Distinct name (job_inv rt r) d h

from-Distinct :
    (rt : Runtime) (c : RawCheck) (rs : List Row) (i : NodeInventory)
    → inventory_from rt c rs ≡ some i
    → Distinct i.jobs
unfolding inventory_from
from-Distinct rt c [] i h = cc h
from-Distinct rt c (r ∷ rs) i h =
    subst (λ i. Distinct i.jobs) (some-injective h) (jobs_of-Distinct rt (r ∷ rs) [] tt)

in-Distinct :
    (rt : Runtime) (o : Option RawCheck) (i : NodeInventory)
    → inventory_in rt o ≡ some i
    → Distinct i.jobs
in-Distinct rt none i h = cc h
in-Distinct rt (some c) i h = elim (Bool-cases (is_inventory c.status)) [
  | inl e ↦ from-Distinct rt c (job_rows rt c.data_rows) i (rw e at h)
  | inr e ↦ cc (rw e at h)
]

-- The jobs of an inventory have different names.
pub inventory_of-Distinct :
    (rt : Runtime) (cs : Option (List RawCheck)) (i : NodeInventory)
    → inventory_of rt cs ≡ some i
    → Distinct i.jobs
unfolding inventory_of
inventory_of-Distinct rt none i h = cc h
inventory_of-Distinct rt (some cs) i h = in-Distinct rt (find_drift cs) i h

Bool-same : (a b : Bool) → (a ≡ false) ↔ (b ≡ false) → a ≡ b
Bool-same true true h = refl
Bool-same true false h = h.1 refl
Bool-same false true h = sym (h.0 refl)
Bool-same false false h = refl

-- Two nodes that are compared with each other alone get the same verdict, whichever of them has the
-- report: both pass, or both want attention.
pub regraded_symmetric :
    (rt : Runtime) (ca cb : Option (List RawCheck)) (a b : NodeInventory) (ra rb : RawCheck)
    → inventory_of rt ca ≡ some a
    → inventory_of rt cb ≡ some b
    → (regraded a (b ∷ []) ra).status ≡ (regraded b (a ∷ []) rb).status
regraded_symmetric rt ca cb a b ra rb h k =
    regraded_status a (b ∷ []) ra
    ∙ ap status_of (
        Bool-same (has_live (differences a (b ∷ []))) (has_live (differences b (a ∷ [])))
          (half a b da db, half b a db da))
    ∙ sym (regraded_status b (a ∷ []) rb)
  where
    da : Distinct a.jobs
    da = inventory_of-Distinct rt ca a h

    db : Distinct b.jobs
    db = inventory_of-Distinct rt cb b k

    half :
        (x y : NodeInventory)
        → Distinct x.jobs
        → Distinct y.jobs
        → has_live (differences x (y ∷ [])) ≡ false
        → has_live (differences y (x ∷ [])) ≡ false
    half x y dx dy q =
        All-quiet y (x ∷ []) dy (dx, tt) (Agree-sym x y (quiet-All x (y ∷ []) q).0, tt)
