-- ===== src/Report/Totals.antt =====
-- The sums over the categories of `scoreFindings` of services/dba-mcp/src/dbatools.ts.
use mssql_data_api.Prelude.{ℕ, ◌+◌, ◌≡◌, refl, Option, none, some, List, [], ◌∷◌, arith}
use mssql_data_api.Report.{
  DisplayStatus, pass, attention, fail, info, Priority, Finding, Counts, empty_counts, count_status,
  Category, Categories, empty_category, score_value, add_score, add_finding, upsert, categorise,
  count_all, score_findings,
}

abbrev pub total : (Category → ℕ) → Categories → ℕ
total m [] = 0
total m ((name, c) ∷ l) = m c + total m l

abbrev pub sum_of : (Finding → ℕ) → List Finding → ℕ
sum_of d [] = 0
sum_of d (f ∷ fs) = d f + sum_of d fs

-- A measure that each finding raises by its own part.
module _ (m : Category → ℕ) (d : Finding → ℕ) (zero_at : m empty_category ≡ 0)
    (adds : (f : Finding) (c : Category) → m (add_finding f c) ≡ d f + m c) where
  total-upsert : (f : Finding) (l : Categories) → total m (upsert f l) ≡ d f + total m l
  unfolding upsert
  total-upsert f [] = omega (arith, adds f empty_category, zero_at)
  total-upsert f ((name, c) ∷ l) = ground (arith, adds f c, total-upsert f l)

  pub total-categorise :
      (fs : List Finding) (l : Categories) → total m (categorise fs l) ≡ sum_of d fs + total m l
  unfolding categorise
  total-categorise [] l = omega arith
  total-categorise (f ∷ fs) l = omega (arith, total-categorise fs (upsert f l), total-upsert f l)

-- The count of a status.
unfoldable pub count_of : DisplayStatus → Counts → ℕ
count_of pass c = c.passes
count_of attention c = c.attentions
count_of fail c = c.fails
count_of info c = c.infos

-- 1 where the two statuses are the same.
unfoldable pub one_if : DisplayStatus → DisplayStatus → ℕ
one_if pass pass = 1
one_if attention attention = 1
one_if fail fail = 1
one_if info info = 1
one_if _ _ = 0

count_of-count_status :
    (s t : DisplayStatus) (c : Counts) → count_of s (count_status t c) ≡ one_if s t + count_of s c
unfolding count_of count_status one_if
count_of-count_status pass pass c = omega arith
count_of-count_status pass attention c = omega arith
count_of-count_status pass fail c = omega arith
count_of-count_status pass info c = omega arith
count_of-count_status attention pass c = omega arith
count_of-count_status attention attention c = omega arith
count_of-count_status attention fail c = omega arith
count_of-count_status attention info c = omega arith
count_of-count_status fail pass c = omega arith
count_of-count_status fail attention c = omega arith
count_of-count_status fail fail c = omega arith
count_of-count_status fail info c = omega arith
count_of-count_status info pass c = omega arith
count_of-count_status info attention c = omega arith
count_of-count_status info fail c = omega arith
count_of-count_status info info c = omega arith

add_score-counts :
    (p : Priority) (o : Option ℕ) (c : Category) → (add_score p o c).counts ≡ c.counts
unfolding add_score
add_score-counts p none c = refl
add_score-counts p (some v) c = refl

-- How many findings have a status.
abbrev pub occurrences : DisplayStatus → List Finding → ℕ
occurrences s fs = sum_of (λ f. one_if s f.status) fs

add_finding-counts :
    (s : DisplayStatus) (f : Finding) (c : Category)
    → count_of s (add_finding f c).counts ≡ one_if s f.status + count_of s c.counts
unfolding add_finding
add_finding-counts s f c =
    rw
      (add_score-counts f.priority (score_value f.status)
        (record c { counts = count_status f.status c.counts }))
      (count_of-count_status s f.status c.counts)

count_all-counts :
    (s : DisplayStatus) (fs : List Finding) (c : Counts)
    → count_of s (count_all fs c) ≡ occurrences s fs + count_of s c
unfolding count_all
count_all-counts s [] c = omega arith
count_all-counts s (f ∷ fs) c =
    omega
      (arith, count_all-counts s fs (count_status f.status c), count_of-count_status s f.status c)

count_of-empty : (s : DisplayStatus) → count_of s empty_counts ≡ 0
unfolding count_of
count_of-empty pass = refl
count_of-empty attention = refl
count_of-empty fail = refl
count_of-empty info = refl

-- For every status, the count of the report is the number of findings with that status, and so is
-- the sum of the counts of the categories.
pub score_findings-counts :
    (fs : List Finding) (s : DisplayStatus)
    → (count_of s (score_findings fs).counts ≡ occurrences s fs)
      × (total (λ c. count_of s c.counts) (score_findings fs).categories ≡ occurrences s fs)
unfolding score_findings
score_findings-counts fs s = (
  omega (arith, count_all-counts s fs empty_counts, count_of-empty s),
  omega (
    arith,
    total-categorise (λ c. count_of s c.counts) (λ f. one_if s f.status) (count_of-empty s)
        (add_finding-counts s) fs [],
  ),
)
