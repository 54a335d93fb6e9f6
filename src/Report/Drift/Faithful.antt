-- ===== src/Report/Drift/Faithful.antt =====
-- The reports of a run of services/dba-mcp/src/dbatools.ts are made of their checks.
use mssql_data_api.Prelude.{
  ◌≡◌, refl, ◌∙◌, ap, Bool, true, false, Option, none, some, List, [], ◌∷◌, map, All, Bool-cases,
  inl, inr,
}
use mssql_data_api.Prelude.Text.{Text, eq_text}
use mssql_data_api.Prelude.Dict.{Dict}
use mssql_data_api.Prelude.Json.{Runtime}
use mssql_data_api.Report.{DisplayStatus, RawCheck, to_finding}
use mssql_data_api.Report.Inventory.{NodeInventory, drift_label, find_drift, inventory_of}
use mssql_data_api.Report.Drift.Applied.{
  InstanceReport, Reported, Answered, by_server, graded, put_check, put_finding, rescored,
  put_report, apply_one, report_of, reported_by, collect, apply_replica_job_drift,
  run_health_report,
}

module _ (rt : Runtime) (detail_for : RawCheck → DisplayStatus → Text) where
  -- A report is made of its checks: the findings, the scores, the counts and the coverage.
  abbrev pub IsFaithful : Reported → Type 0
  IsFaithful (r, none) = ⊥
  IsFaithful (r, some cs) = r ≡ report_of rt detail_for r.instance_name r.computer r.sql_instance cs

  put_finding-map :
      (c raw : RawCheck) (cs : List RawCheck)
      → find_drift cs ≡ some raw
      → put_finding (to_finding detail_for c) (map (to_finding detail_for) cs)
        ≡ map (to_finding detail_for) (put_check c cs)
  unfolding put_finding put_check find_drift to_finding
  put_finding-map c raw [] h = cc h
  put_finding-map c raw (d ∷ cs) h = elim (Bool-cases (eq_text d.label drift_label)) [
    | inl e ↦ rw e refl
    | inr e ↦ rw e (ap (λ l. to_finding detail_for d ∷ l) (put_finding-map c raw cs (rw e at h)))
  ]

  put-IsFaithful :
      (r : InstanceReport) (cs : List RawCheck) (c raw : RawCheck)
      → find_drift cs ≡ some raw
      → IsFaithful (r, some cs)
      → IsFaithful (put_report rt detail_for (some c) (r, some cs))
  unfolding rescored report_of
  put-IsFaithful r cs c raw h k =
      ap (λ fs. rescored r fs (put_check c cs))
        (ap (λ q. put_finding (to_finding detail_for c) q) (ap (λ q. q.findings) k)
          ∙ put_finding-map c raw cs h)

  apply_one-IsFaithful :
      (d : Dict NodeInventory) (r : Reported)
      → IsFaithful r
      → IsFaithful (apply_one rt detail_for d r)
  unfolding apply_one
  apply_one-IsFaithful d (r, none) h = elim h [ ]
  apply_one-IsFaithful d (r, some cs) h =
      at_inventory (inventory_of rt (some cs)) (find_drift cs) refl
    where
      settle :
          (raw : RawCheck) (o : Option RawCheck)
          → find_drift cs ≡ some raw
          → IsFaithful (put_report rt detail_for o (r, some cs))
      settle raw none k = h
      settle raw (some c) k = put-IsFaithful r cs c raw k h

      at_inventory :
          (i : Option NodeInventory) (o : Option RawCheck)
          → find_drift cs ≡ o
          → IsFaithful (put_report rt detail_for (graded i o d) (r, some cs))
      at_inventory none o k = h
      at_inventory (some me) none k = h
      at_inventory (some me) (some raw) k = settle raw (graded (some me) (some raw) d) k

  All-apply :
      (d : Dict NodeInventory) (l : List Reported)
      → All IsFaithful l
      → All IsFaithful (map (apply_one rt detail_for d) l)
  All-apply d [] h = tt
  All-apply d (r ∷ l) (h, hs) = (apply_one-IsFaithful d r h, All-apply d l hs)

  collect-IsFaithful :
      (ask : Text → Answered) (targets : List (Text × Bool))
      → All IsFaithful (collect rt detail_for ask targets)
  unfolding collect report_of
  collect-IsFaithful ask [] = tt
  collect-IsFaithful ask ((name, true) ∷ l) = collect-IsFaithful ask l
  collect-IsFaithful ask ((name, false) ∷ l) = one (ask name) (collect-IsFaithful ask l)
    where
      one :
          (a : Answered)
          → All IsFaithful (collect rt detail_for ask l)
          → All IsFaithful (reported_by rt detail_for name a (collect rt detail_for ask l))
      one none h = h
      one (some (computer, sql_instance, cs)) h = (refl, h)

  -- Every report of a run, also one whose comparison with its partners was graded again, is the one
  -- that its checks as they are at the end give: its findings, its scores, its counts and its
  -- coverage.
  pub run_health_report-IsFaithful :
      (ask : Text → Answered) (targets : List (Text × Bool))
      → All IsFaithful (run_health_report rt detail_for ask targets)
  unfolding run_health_report apply_replica_job_drift
  run_health_report-IsFaithful ask targets =
      All-apply (by_server (map (λ r. inventory_of rt r.1) (collect rt detail_for ask targets)) [])
        (collect rt detail_for ask targets) (collect-IsFaithful ask targets)
