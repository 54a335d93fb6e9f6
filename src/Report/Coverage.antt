-- ===== src/Report/Coverage.antt =====
-- `coverageOf` and `isDegraded` of services/dba-mcp/src/dbatools.ts: whether the run looked at enough
-- to earn a score, and when there is none.
use mssql_data_api.Prelude.{
  ℕ, ◌+◌, ◌*◌, ◌≤◌, ◌<◌, ltb, leb, ◌≡◌, refl, ◌↔◌, ◌∙◌, sym, Bool, true, false, ◌&&◌, Option, none,
  some, List, [], ◌∷◌, map, length, All, arith,
}
use mssql_data_api.Prelude.Text.{Text}
use mssql_data_api.Report.{
  DisplayStatus, pass, attention, fail, info, RawStatus, raw_pass, raw_attention, raw_fail, ok,
  empty, error, skipped, other, RawCheck, status_map, to_finding, Priority, high, medium, low,
  unknown, Finding, Category, Categories, weight, score_value, add_score, add_finding, categorise,
  health, scores, keep, overall_of, score_findings, count_status,
}
use mssql_data_api.Report.Totals.{total, sum_of, total-categorise}

pub record Coverage : Type 0 where
  pub total : ℕ
  pub scored : ℕ
  pub errored : ℕ
  pub skipped : ℕ

-- 1 where the status counts.
unfoldable pub errored_one : RawStatus → ℕ
errored_one error = 1
errored_one _ = 0

unfoldable pub skipped_one : RawStatus → ℕ
skipped_one skipped = 1
skipped_one _ = 0

unfoldable pub scored_one : DisplayStatus → ℕ
scored_one pass = 1
scored_one attention = 1
scored_one fail = 1
scored_one info = 0

abbrev pub sum_raw : (RawStatus → ℕ) → List RawCheck → ℕ
sum_raw d [] = 0
sum_raw d (c ∷ l) = d c.status + sum_raw d l

unfoldable pub coverage_of : List Finding → List RawCheck → Coverage
unfolding errored_one skipped_one scored_one
coverage_of findings raw = record {
  total = length findings;
  scored = sum_of (λ f. scored_one f.status) findings;
  errored = sum_raw errored_one raw;
  skipped = sum_raw skipped_one raw;
}

-- `c.errored / c.total >= 0.10`, with the total moved to the other side.
unfoldable pub is_degraded : Option Coverage → Bool
is_degraded none = false
is_degraded (some c) = ltb 0 c.total && leb c.total (10 * c.errored)

module _ (detail_for : RawCheck → DisplayStatus → Text) where
  abbrev pub findings_of : List RawCheck → List Finding
  findings_of raw = map (to_finding detail_for) raw

  one_each : (s : RawStatus) → scored_one (status_map s) + errored_one s + skipped_one s ≤ 1
  unfolding scored_one errored_one skipped_one status_map
  one_each raw_pass = omega arith
  one_each raw_attention = omega arith
  one_each raw_fail = omega arith
  one_each ok = omega arith
  one_each empty = omega arith
  one_each error = omega arith
  one_each skipped = omega arith
  one_each (other s) = omega arith

  -- In the coverage of a run, the total is the number of checks, and no check that could not look or
  -- was skipped is among the scored ones: together they are no more than the total.
  pub coverage_of-disjoint :
      (raw : List RawCheck)
      → let c = coverage_of (findings_of raw) raw in
        (c.total ≡ length raw) × (c.scored + c.errored + c.skipped ≤ c.total)
  unfolding coverage_of to_finding
  coverage_of-disjoint [] = (refl, omega arith)
  coverage_of-disjoint (c ∷ raw) =
      let (t, le) = coverage_of-disjoint raw in
      (omega (arith, t), omega (arith, le, one_each c.status))

-- The weight that a finding adds to its category.
unfoldable part : Priority → Option ℕ → ℕ
unfolding weight
part p none = 0
part p (some v) = weight p

add_score-wsum :
    (p : Priority) (o : Option ℕ) (c : Category) → (add_score p o c).wsum ≡ part p o + c.wsum
unfolding add_score part
add_score-wsum p none c = omega arith
add_score-wsum p (some v) c = omega arith

weights : List Finding → ℕ
weights fs = sum_of (λ f. part f.priority (score_value f.status)) fs

wsum-total : (fs : List Finding) → total (λ c. c.wsum) (categorise fs []) ≡ weights fs
unfolding weights add_finding
wsum-total fs = omega (
  arith,
  total-categorise (λ c. c.wsum) (λ f. part f.priority (score_value f.status)) refl
      (λ f c.
        add_score-wsum f.priority (score_value f.status)
          (record c { counts = count_status f.status c.counts }))
      fs [],
)

part-positive : (p : Priority) (v : ℕ) → 0 < part p (some v)
unfolding part weight
part-positive high v = omega arith
part-positive medium v = omega arith
part-positive low v = omega arith
part-positive (unknown s) v = omega arith

part_zero : (p : Priority) (s : DisplayStatus) → (part p (score_value s) ≡ 0) ↔ (s ≡ info)
unfolding score_value part
part_zero p pass = grind (arith, part-positive p 100)
part_zero p attention = grind (arith, part-positive p 60)
part_zero p fail = grind (arith, part-positive p 0)
part_zero p info = (λ h. refl, λ h. refl)

weights_zero : (fs : List Finding) → (weights fs ≡ 0) ↔ All (λ f. f.status ≡ info) fs
unfolding weights
weights_zero [] = (λ h. tt, λ h. refl)
weights_zero (f ∷ fs) = (
  λ h. (
    (part_zero f.priority f.status).0 (omega (arith, h)),
    (weights_zero fs).0 (omega (arith, h)),
  ),
  λ h. omega (arith, (part_zero f.priority f.status).1 h.0, (weights_zero fs).1 h.1),
)

keep_empty : (o : Option ℕ) (l : List ℕ) → (keep o l ≡ []) ↔ ((o ≡ none) × (l ≡ []))
keep_empty none l = (λ h. (refl, h), λ h. h.1)
keep_empty (some v) l = (λ h. cc, λ h. cc (h.0))

overall_empty : (l : List ℕ) → (overall_of l ≡ none) ↔ (l ≡ [])
unfolding overall_of
overall_empty [] = (λ h. refl, λ h. refl)
overall_empty (n ∷ l) = (λ h. cc, λ h. cc)

health_zero : (c : Category) → (health c ≡ none) ↔ (c.wsum ≡ 0)
unfolding health
health_zero c = grind arith

scores_empty : (l : Categories) → (scores l ≡ []) ↔ (total (λ c. c.wsum) l ≡ 0)
unfolding scores
scores_empty [] = (λ h. refl, λ h. refl)
scores_empty ((name, c) ∷ l) = (
  λ h.
      let both = (keep_empty (health c) (scores l)).0 h in
      omega (arith, (health_zero c).0 both.0, (scores_empty l).0 both.1),
  λ h.
      (keep_empty (health c) (scores l)).1
        ((health_zero c).1 (omega (arith, h)), (scores_empty l).1 (omega (arith, h))),
)

-- The report has no overall score exactly where no finding passed, failed or wants attention.
pub score_findings-none :
    (fs : List Finding) → ((score_findings fs).overall ≡ none) ↔ All (λ f. f.status ≡ info) fs
unfolding score_findings
score_findings-none fs = (
  λ h. (weights_zero fs).0 (
      sym (wsum-total fs)
      ∙ (scores_empty (categorise fs [])).0 ((overall_empty (scores (categorise fs []))).0 h)),
  λ h.
      (overall_empty (scores (categorise fs []))).1
        ((scores_empty (categorise fs [])).1 (wsum-total fs ∙ (weights_zero fs).1 h)),
)

errored_findings :
    (detail_for : RawCheck → DisplayStatus → Text) (raw : List RawCheck)
    → All (λ d. d.status ≡ error) raw
    → (sum_raw errored_one raw ≡ length (findings_of detail_for raw))
      × All (λ f. f.status ≡ info) (findings_of detail_for raw)
unfolding to_finding errored_one
errored_findings detail_for [] h = (refl, tt)
errored_findings detail_for (c ∷ raw) (h, hs) =
    let (n, infos) = errored_findings detail_for raw hs in rw h (omega (arith, n), (refl, infos))

-- A run in which every check could not look is degraded and has no score.
pub blind_run :
    (detail_for : RawCheck → DisplayStatus → Text) (c : RawCheck) (raw : List RawCheck)
    → All (λ d. d.status ≡ error) (c ∷ raw)
    → let fs = findings_of detail_for (c ∷ raw) in
      (is_degraded (some (coverage_of fs (c ∷ raw))) ≡ true) × ((score_findings fs).overall ≡ none)
unfolding is_degraded coverage_of to_finding
blind_run detail_for c raw h =
    let (n, infos) = errored_findings detail_for (c ∷ raw) h in
    (ground (arith, n), (score_findings-none (findings_of detail_for (c ∷ raw))).1 infos)
