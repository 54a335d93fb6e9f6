-- ===== src/ReportCli/Tests.antt =====
-- The report's command line at concrete arguments, and its theorems there.
use mssql_data_api.Prelude.{◌≡◌, refl, ◌↔◌, true, false, none, some, List, [], ◌∷◌, All}
use mssql_data_api.Prelude.Text.{codes}
use mssql_data_api.Prelude.Dict.{get, set}
use mssql_data_api.Safety.Guard.{split}
use mssql_data_api.ReportCli.{
  Instance, mailed, no_recipients, run_report_cli, run_targets, targets, reported, deliver, use_sql,
}
use mssql_data_api.ReportCli.Flags.{parse_flags, settings, assign, kind, flag, cut_eq}
use mssql_data_api.ReportCli.RoundTrip.{
  Form, joined, apart, switch, print, settings_of, last_value, parse_flags-print,
}
use mssql_data_api.ReportCli.Verdicts.{
  Report, all_ok, worst_from, sum, is_degraded, subject_of, reads_ok, IsClean, IsCovered, covered,
  errored, subject_of-reads_ok,
}

abbrev written : List Form
written =
    joined (codes "a") (codes "b=c")
    ∷ joined (codes "a") (codes "d")
    ∷ switch (codes "s")
    ∷ apart (codes "r") (codes "x")
    ∷ []

parse_flags-print_example :
    get (codes "a") (parse_flags (print written)) ≡ last_value (codes "a") (settings_of written)
unfolding flag cut_eq
parse_flags-print_example =
    parse_flags-print written (codes "a") (refl, (refl, (refl, ((refl, refl), tt))))

-- The later value.
last_wins : last_value (codes "a") (settings_of written) ≡ some (codes "d")
last_wins = refl

-- Nine in ten checks could look, and none failed.
abbrev blind : List Report
blind = record { fails = 0; attentions = 0; findings = 10; coverage = some (10, 1) } ∷ []

subject_of-reads_ok_example :
    (reads_ok (subject_of blind).worst (subject_of blind).incomplete ≡ true)
    ↔ (All IsClean blind × IsCovered (sum covered blind) (sum errored blind))
subject_of-reads_ok_example = subject_of-reads_ok blind

abbrev fleet : List Instance
fleet =
    record { name = codes "w"; region = some (codes "r"); is_witness = true }
    ∷ record { name = codes "n"; region = some (codes "r"); is_witness = false }
    ∷ []

-- The mail of the region goes by its primary.
mails :
    run_report_cli
      (λ s. s)
      (λ l b. some blind)
      fleet
      false
      (codes "--region" ∷ codes "r" ∷ codes "--recipients=a" ∷ [])
    ≡ mailed
        (codes "r-primary")
        (codes "DBA Mail Profile")
        (codes "a")
        (record {
          worst = all_ok;
          incomplete = true;
          n_fail = 0;
          n_attention = 0;
          not_run = some (1, 10);
        })
        false
unfolding run_report_cli run_targets targets reported deliver use_sql subject_of parse_flags
    settings assign kind flag cut_eq get set worst_from sum is_degraded split
mails = refl

refuses : run_report_cli (λ s. s) (λ l b. some blind) fleet false [] ≡ no_recipients
unfolding run_report_cli parse_flags settings assign get
refuses = refl

-- Of two instances only one has a report, which is clean: the subject reads OK.
partial :
    subject_of (record { fails = 0; attentions = 0; findings = 9; coverage = some (9, 0) } ∷ [])
    ≡ record { worst = all_ok; incomplete = false; n_fail = 0; n_attention = 0; not_run = none }
unfolding subject_of worst_from sum is_degraded
partial = refl
