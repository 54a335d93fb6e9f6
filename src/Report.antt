-- ===== src/Report.antt =====
-- The health report of services/dba-mcp/src/dbatools.ts: what a check becomes, how findings are
-- scored, and how the run's coverage is judged. Percentages are ratios of small integers, which
-- JavaScript divides closely enough that `Math.round` and the comparison with 0.10 are those of the
-- exact ratios.
pub mod Totals
pub mod Scores
mod Tests
pub mod Coverage
pub mod Inventory
pub mod Drift
pub mod Details
pub mod Html
use mssql_data_api.Prelude.{
  ℕ, suc, ◌+◌, ◌*◌, ◌/◌, ◌==◌, leb, ltb, ◌≡◌, String, Bool, true, false, ◌&&◌, Option, none, some,
  List, [], ◌∷◌, if◌then◌else◌, length,
}
use mssql_data_api.Prelude.Text.{Text, eq_text}
use mssql_data_api.Prelude.Dict.{Dict}
use mssql_data_api.Prelude.Json.{Json}

pub data DisplayStatus : Type 0 where
  pass : DisplayStatus
  attention : DisplayStatus
  fail : DisplayStatus
  info : DisplayStatus

-- The statuses that a check reports; `other` is a string that `STATUS_MAP` does not have.
pub data RawStatus : Type 0 where
  raw_pass : RawStatus
  raw_attention : RawStatus
  raw_fail : RawStatus
  ok : RawStatus
  empty : RawStatus
  error : RawStatus
  skipped : RawStatus
  other : Text → RawStatus

pub data Priority : Type 0 where
  high : Priority
  medium : Priority
  low : Priority
  unknown : Text → Priority

-- A row of a check: its columns by name.
abbrev pub Row : Type 0
Row = Dict Json

-- `data_rows` is `data` as `rowsOf` gives it.
pub record RawCheck : Type 0 where
  pub category : Text
  pub label : Text
  pub priority : Option Priority
  pub status : RawStatus
  pub rows : ℕ
  pub shown : Option ℕ
  pub capped : Bool
  pub data_rows : List Row

pub record Finding : Type 0 where
  pub category : Text
  pub label : Text
  pub priority : Priority
  pub status : DisplayStatus
  pub rows : ℕ
  pub details : Text

-- `STATUS_MAP[s] ?? "Info"`
unfoldable pub status_map : RawStatus → DisplayStatus
status_map raw_pass = pass
status_map raw_attention = attention
status_map raw_fail = fail
status_map ok = info
status_map empty = info
status_map error = info
status_map skipped = info
status_map (other s) = info

-- `PRIORITY_WEIGHT[p] ?? 1`
unfoldable pub weight : Priority → ℕ
weight high = 3
weight medium = 2
weight low = 1
weight (unknown s) = 1

unfoldable pub score_value : DisplayStatus → Option ℕ
score_value pass = some 100
score_value attention = some 60
score_value fail = some 0
score_value info = none

abbrev or_medium : Option Priority → Priority
or_medium none = medium
or_medium (some p) = p

-- `toFinding`, but for the target and the remediation, which no score reads. The text of the
-- details is the parameter `detail_for`.
unfoldable pub to_finding : (RawCheck → DisplayStatus → Text) → RawCheck → Finding
unfolding status_map
to_finding detail_for c = record {
  category = c.category;
  label = c.label;
  priority = or_medium c.priority;
  status = status_map c.status;
  rows = c.rows;
  details = detail_for c (status_map c.status);
}

pub record Counts : Type 0 where
  pub passes : ℕ
  pub attentions : ℕ
  pub fails : ℕ
  pub infos : ℕ

abbrev pub empty_counts : Counts
empty_counts = record { passes = 0; attentions = 0; fails = 0; infos = 0 }

-- `counts[s]++`
unfoldable pub count_status : DisplayStatus → Counts → Counts
count_status pass c = record c { passes = c.passes + 1 }
count_status attention c = record c { attentions = c.attentions + 1 }
count_status fail c = record c { fails = c.fails + 1 }
count_status info c = record c { infos = c.infos + 1 }

pub record Category : Type 0 where
  pub wsum : ℕ
  pub wval : ℕ
  pub counts : Counts

abbrev pub empty_category : Category
empty_category = record { wsum = 0; wval = 0; counts = empty_counts }

-- The category of a finding takes it in.
unfoldable pub add_score : Priority → Option ℕ → Category → Category
unfolding weight
add_score p none c = c
add_score p (some v) c = record c { wsum = c.wsum + weight p; wval = c.wval + weight p * v }

unfoldable pub add_finding : Finding → Category → Category
unfolding add_score score_value count_status
add_finding f c =
    add_score f.priority (score_value f.status)
      (record c { counts = count_status f.status c.counts })

abbrev pub Categories : Type 0
Categories = List (Text × Category)

-- One round of the loop on the map, which keeps the order of insertion.
unfoldable pub upsert : Finding → Categories → Categories
unfolding add_finding
upsert f [] = (f.category, add_finding f empty_category) ∷ []
upsert f ((name, c) ∷ l) =
    let rest = upsert f l in
    if eq_text name f.category then (name, add_finding f c) ∷ l else (name, c) ∷ rest

unfoldable pub categorise : List Finding → Categories → Categories
unfolding upsert
categorise [] cats = cats
categorise (f ∷ fs) cats = categorise fs (upsert f cats)

unfoldable pub count_all : List Finding → Counts → Counts
unfolding count_status
count_all [] c = c
count_all (f ∷ fs) c = count_all fs (count_status f.status c)

-- `Math.round(x / y)`, rounded half up.
unfoldable pub round_div : ℕ → ℕ → ℕ
round_div x y = (2 * x + y) / (2 * y)

unfoldable pub health : Category → Option ℕ
unfolding round_div
health c = if c.wsum == 0 then none else some (round_div c.wval c.wsum)

-- The scores that are not null.
abbrev pub keep : Option ℕ → List ℕ → List ℕ
keep none l = l
keep (some h) l = h ∷ l

unfoldable pub scores : Categories → List ℕ
unfolding health
scores [] = []
scores ((name, c) ∷ l) = keep (health c) (scores l)

unfoldable pub sum : List ℕ → ℕ
sum [] = 0
sum (n ∷ l) = n + sum l

unfoldable pub overall_of : List ℕ → Option ℕ
unfolding sum round_div
overall_of [] = none
overall_of (n ∷ l) = some (round_div (sum (n ∷ l)) (length (n ∷ l)))

pub record Scored : Type 0 where
  pub overall : Option ℕ
  pub categories : Categories
  pub counts : Counts

unfoldable pub score_findings : List Finding → Scored
unfolding overall_of scores categorise count_all
score_findings fs = record {
  overall = overall_of (scores (categorise fs []));
  categories = categorise fs [];
  counts = count_all fs empty_counts;
}
