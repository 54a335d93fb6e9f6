-- ===== src/Report/Scores.antt =====
-- What `scoreFindings` of services/dba-mcp/src/dbatools.ts returns.
use mssql_data_api.Prelude.{
  ℕ, ◌+◌, ◌*◌, ◌/◌, ◌≤◌, ◌<◌, ◌==◌, ◌≡◌, refl, subst, inl, inr, Option, none, some, List, [], ◌∷◌,
  length, All, arith, Bool-cases,
}
use native.Mathlib.Nat.{div-lt_iff_lt-mul}
use mssql_data_api.Prelude.Text.{eq_text}
use mssql_data_api.Report.{
  DisplayStatus, pass, attention, fail, info, Priority, high, medium, low, unknown, Finding,
  count_status, Category, Categories, empty_category, weight, score_value, add_score, add_finding,
  upsert, categorise, round_div, health, scores, keep, sum, overall_of, score_findings,
}

weight_positive : (p : Priority) → 0 < weight p
unfolding weight
weight_positive high = omega arith
weight_positive medium = omega arith
weight_positive low = omega arith
weight_positive (unknown s) = omega arith

round_div-le : (x y : ℕ) → 0 < y → x ≤ 100 * y → round_div x y ≤ 100
unfolding round_div
round_div-le x y pos h = omega (arith, below)
  where
    below : (2 * x + y) / (2 * y) < 101
    below = (div-lt_iff_lt-mul (omega (arith, pos))).1 (omega (arith, h, pos))

-- A property that `upsert` keeps of every category holds of all.
module _ (P : Category → Type 0) (start : P empty_category) where
  upsert-All :
      (f : Finding) (l : Categories)
      → ((c : Category) → P c → P (add_finding f c))
      → All (λ e. P e.1) l
      → All (λ e. P e.1) (upsert f l)
  unfolding upsert
  upsert-All f [] keep h = (keep empty_category start, tt)
  upsert-All f ((name, c) ∷ l) keep (h, hs) = elim (Bool-cases (eq_text name f.category)) [
    | inl e ↦ rw e (keep c h, hs)
    | inr e ↦ rw e (h, upsert-All f l keep hs)
  ]

  categorise-All :
      (fs : List Finding) (l : Categories)
      → All (λ f. (c : Category) → P c → P (add_finding f c)) fs
      → All (λ e. P e.1) l
      → All (λ e. P e.1) (categorise fs l)
  unfolding categorise
  categorise-All [] l keep h = h
  categorise-All (f ∷ fs) l (k, ks) h = categorise-All fs (upsert f l) ks (upsert-All f l k h)

abbrev IsWithin : Category → Type 0
IsWithin c = c.wval ≤ 100 * c.wsum

add_finding-IsWithin : (f : Finding) (c : Category) → IsWithin c → IsWithin (add_finding f c)
unfolding add_finding add_score score_value
add_finding-IsWithin f c h = go f.status f.priority
  where
    go :
        (s : DisplayStatus) (p : Priority)
        → IsWithin (add_score p (score_value s) (record c { counts = count_status s c.counts }))
    go pass p = omega (arith, h)
    go attention p = omega (arith, h)
    go fail p = omega (arith, h)
    go info p = h

some_injective : (a b : ℕ) → some a ≡ some b → a ≡ b
some_injective a b h = cc

health-le : (c : Category) → IsWithin c → (h : ℕ) → health c ≡ some h → h ≤ 100
unfolding health
health-le c within h e = elim (Bool-cases (c.wsum == 0)) [
  | inl z ↦ cc (rw z at e)
  | inr n ↦
      subst (λ v. v ≤ 100) (some_injective (round_div c.wval c.wsum) h (rw n at e))
        (round_div-le c.wval c.wsum (ground (arith, n)) within)
]

scores-All : (l : Categories) → All (λ e. IsWithin e.1) l → All (λ h. h ≤ 100) (scores l)
unfolding scores
scores-All [] h = tt
scores-All ((name, c) ∷ l) (h, hs) = go (health c) (health-le c h) (scores-All l hs)
  where
    go :
        (o : Option ℕ)
        → ((v : ℕ) → o ≡ some v → v ≤ 100)
        → All (λ v. v ≤ 100) (scores l)
        → All (λ v. v ≤ 100) (keep o (scores l))
    go none k ks = ks
    go (some v) k ks = (k v refl, ks)

sum-le : (l : List ℕ) → All (λ h. h ≤ 100) l → sum l ≤ 100 * length l
unfolding sum
sum-le [] h = omega arith
sum-le (n ∷ l) (h, hs) = omega (arith, sum-le l hs)

overall_of-le : (l : List ℕ) → All (λ h. h ≤ 100) l → (v : ℕ) → overall_of l ≡ some v → v ≤ 100
unfolding overall_of
overall_of-le [] h v e = cc
overall_of-le (n ∷ l) h v e =
    subst (λ v. v ≤ 100) (some_injective (round_div (sum (n ∷ l)) (length (n ∷ l))) v e)
      (round_div-le (sum (n ∷ l)) (length (n ∷ l)) (omega arith) (sum-le (n ∷ l) h))

keep-All :
    (o : Option ℕ) (l : List ℕ)
    → ((v : ℕ) → o ≡ some v → v ≤ 100)
    → All (λ v. v ≤ 100) l
    → All (λ v. v ≤ 100) (keep o l)
keep-All none l h hs = hs
keep-All (some v) l h hs = (h v refl, hs)

-- The overall score and the scores of the categories, where they are not null, are at most 100.
pub score_findings-bounded :
    (fs : List Finding)
    → let r = score_findings fs in All (λ v. v ≤ 100) (keep r.overall (scores r.categories))
unfolding score_findings
score_findings-bounded fs =
    let cats = categorise fs [] in
    let percent = scores-All cats (categorise-All IsWithin (omega arith) fs [] (every fs) tt) in
    keep-All (overall_of (scores cats)) (scores cats) (overall_of-le (scores cats) percent) percent
  where
    every :
        (fs : List Finding) → All (λ f. (c : Category) → IsWithin c → IsWithin (add_finding f c)) fs
    every [] = tt
    every (f ∷ fs) = (add_finding-IsWithin f, every fs)
