-- ===== src/Settings/Tests.antt =====
-- Settings that are read, and the theorems on them.
use mssql_data_api.Prelude.{◌≡◌, refl, true, Option, some, List, [], ◌∷◌, map, right}
use mssql_data_api.Prelude.Text.{Text, codes, fold, trim, trim_start, is_space}
use mssql_data_api.Prelude.Dict.{get, set}
use mssql_data_api.Prelude.Json.{
  Json, null, number, string, array, object, whole, fraction, nil, cons, end, field, Runtime, join,
}
use mssql_data_api.Safety.Guard.{split}
use mssql_data_api.Safety.Lexer.Quoting.{double}
use mssql_data_api.Settings.{
  CapacityRow, capacity_rows, parse_capacity_baseline, parsed, field_of, trimmed,
  parse_core_databases, distinct_names, disk_fail_rule, add_parts,
}
use mssql_data_api.Settings.Conformance.{parse_conformance_baseline, default_instances}
use mssql_data_api.Settings.Conformance.Ranges.{IsBaseline, parse_conformance_baseline-IsBaseline}
use mssql_data_api.Settings.Conformance.Table.{
  table, replay, section_of, parse_conformance_baseline-replay,
}
use mssql_data_api.Settings.Paths.{
  DllWatchEntry, Refusal, Probe, host_dll_probe, probed, probe_of, user_paths, user_path, has_dots,
  strip_separators, first_of_each, ps_literal,
}
use mssql_data_api.Settings.Paths.Probed.{IsProbe, watched, host_dll_probe-IsProbe}

-- `{"ag": {"FAILURE_CONDITION_LEVEL": 9}, "instance": {"CLR enabled": null, "x": 3}}`
abbrev site_json : Json
site_json = object (
    field (codes "ag") (object (field (codes "FAILURE_CONDITION_LEVEL") (number (whole 9)) end)) (
      field (codes "instance")
        (object (field (codes "CLR enabled") null (field (codes "x") (number (whole 3)) end))) end))

abbrev reads : Json → Runtime
reads v = record {
  parse = λ s. some v;
  text_of = λ v. [];
  number_of = λ v. fraction;
  upper = λ s. map fold s;
  lower = λ s. map fold s;
}

abbrev raw : Option Text
raw = some (codes "{}")

parse_conformance_baseline-IsBaseline_example :
    IsBaseline (parse_conformance_baseline (reads site_json) raw)
parse_conformance_baseline-IsBaseline_example =
    parse_conformance_baseline-IsBaseline (reads site_json) raw

parse_conformance_baseline-replay_example :
    get (codes "clr enabled") (table (parse_conformance_baseline (reads site_json) raw).instances)
    ≡ replay
        (codes "clr enabled")
        (section_of (codes "instance") (parsed (reads site_json) raw))
        (get (codes "clr enabled") (table default_instances))
parse_conformance_baseline-replay_example =
    parse_conformance_baseline-replay (reads site_json) raw (codes "clr enabled")

-- A level that is out of its range is not taken.
level_kept : (parse_conformance_baseline (reads site_json) raw).ag.failure_condition_level ≡ 2
unfolding parse_conformance_baseline parsed trim trim_start is_space field_of get
level_kept = refl

-- A row without its size is left out.
sizes : List CapacityRow
sizes =
    parse_capacity_baseline
      (reads (
        array (
          cons
            (object (
              field (codes "node") (string (codes " n1 ")) (
                field (codes "cores") (number (whole 8))
                  (field (codes "memMb") (number (whole 64)) end))))
            (cons (object (field (codes "node") (string (codes "n2")) end)) nil))))
      raw

read_sizes : sizes ≡ record { node = codes "n1"; cores = 8; mem_mb = 64 } ∷ []
unfolding sizes parse_capacity_baseline capacity_rows parsed trim trim_start is_space field_of get
    trimmed
read_sizes = refl

read_names : parse_core_databases (some (codes "a, b;c ,a,b")) ≡ codes "a" ∷ codes "b" ∷ []
unfolding parse_core_databases distinct_names split trim trim_start is_space
read_names = refl

read_rule :
    disk_fail_rule (reads null) (some (codes "c:, F:=5,G,H:=123"))
    ≡ record { volumes = codes "C:" ∷ codes "F:" ∷ []; pct = (codes "F:", 5) ∷ [] }
unfolding disk_fail_rule add_parts split trim trim_start is_space set fold
read_rule = refl

abbrev watchlist : List DllWatchEntry
watchlist = record { path = codes "A\\b.dll"; label = codes "x" } ∷ []

abbrev wanted : List Text
wanted = codes "\\c.dll" ∷ codes "a\\B.DLL" ∷ []

abbrev two_paths : Probe
two_paths = record {
  paths = codes "A\\b.dll" ∷ codes "c.dll" ∷ [];
  ps_array = codes "@('A\\b.dll', 'c.dll')";
  ps_labels = codes "@{'A\\b.dll'='x'; 'c.dll'='caller-supplied'}";
}

probed_once : host_dll_probe (reads null) true wanted watchlist ≡ right Refusal two_paths
unfolding host_dll_probe probed probe_of user_paths user_path has_dots strip_separators
    first_of_each ps_literal double join fold
probed_once = refl

host_dll_probe-IsProbe_example :
    IsProbe (reads null).lower (watched true watchlist) wanted two_paths.paths
unfolding has_dots
host_dll_probe-IsProbe_example =
    host_dll_probe-IsProbe (reads null) true wanted watchlist two_paths (refl, tt) probed_once

-- A drive behind a separator is not refused.
drive_after_separator : user_path (codes "/C:\\x.dll") ≡ right Refusal (codes "C:\\x.dll")
unfolding user_path has_dots strip_separators
drive_after_separator = refl
