-- ===== src/Http/Windows.antt =====
-- How many requests of one key the rate limit of services/dba-mcp/src/index.ts lets through.
use mssql_data_api.Prelude.{
  ℕ, zero, suc, ap, ◌+◌, ◌-◌, ◌*◌, ◌≤◌, ltb, not, Option, none, some, List, [], ◌∷◌, if◌then◌else◌,
  Bool-cases, inl, inr, arith,
}
use mssql_data_api.Prelude.Text.{Text, eq_text}
use mssql_data_api.Prelude.Dict.{
  Dict, get, set, Distinct, if_passes, get-set, get-keep_if, set-Distinct, keep_if-Distinct,
  eq_text_sound,
}
use mssql_data_api.Http.Limiter.{
  Hits, Verdict, passed, refused, is_over, window_ms, counted, verdict, window, ask, prune, Event,
  asks, prunes, answers,
}

unfoldable one_if : Verdict → ℕ
one_if passed = 1
one_if (refused s) = 0

-- How often a key has passed.
unfoldable pub passes : Text → List (Text × Verdict) → ℕ
unfolding one_if
passes k [] = 0
passes k ((q, v) ∷ l) = let rest = passes k l in if eq_text q k then one_if v + rest else rest

-- Every event takes place in the minute that ends at a time.
abbrev pub Within : ℕ → List Event → Type 0
Within t [] = Unit
Within t (asks k now ∷ l) = (t ≤ now + window_ms) × (now ≤ t) × Within t l
Within t (prunes now ∷ l) = (t ≤ now + window_ms) × (now ≤ t) × Within t l

-- How many requests an entry can still let through up to a time.
left_of : ℕ → ℕ → Option Hits → ℕ
left_of m t none = m
left_of m t (some e) = m - e.count + (if ltb e.reset_at t then m else 0)

left_of_bound : (m t : ℕ) (o : Option Hits) → left_of m t o ≤ 2 * m
unfolding left_of
left_of_bound m t none = omega arith
left_of_bound m t (some e) = ground arith

left : ℕ → ℕ → Text → Dict Hits → ℕ
left m t k hits = left_of m t (get k hits)

window-uses :
    (m t now : ℕ) (o : Option Hits)
    → t ≤ now + window_ms
    → now ≤ t
    → one_if (verdict (some m) now (counted (window now o)))
        + left_of m t (some (counted (window now o)))
      ≤ left_of m t o
unfolding one_if left_of window is_over verdict
window-uses m t now none a b = ground arith
window-uses m t now (some e) a b = ground arith

kept :
    (m t now : ℕ) (o : Option Hits)
    → now ≤ t
    → left_of m t (if_passes (λ e. not (is_over now e)) o) ≤ left_of m t o
unfolding left_of is_over
kept m t now none h = omega arith
kept m t now (some e) h = ground arith

prune-left :
    (m t now : ℕ) (k : Text) (hits : Dict Hits)
    → Distinct hits
    → now ≤ t
    → left m t k (prune (some m) now hits) ≤ left m t k hits
unfolding left prune
prune-left zero t now k hits d h = omega arith
prune-left (suc m) t now k hits d h =
    rw (get-keep_if (λ e. not (is_over now e)) k hits d) (kept (suc m) t now (get k hits) h)

prune-Distinct : (m now : ℕ) (hits : Dict Hits) → Distinct hits → Distinct (prune (some m) now hits)
unfolding prune
prune-Distinct zero now hits d = d
prune-Distinct (suc m) now hits d = keep_if-Distinct (λ e. not (is_over now e)) hits d

-- From any table without a double key, and whatever the other keys ask, the rate limit lets at most
-- twice its number of requests of a key through in the events of one minute.
pub passes-bounded :
    (m t : ℕ) (k : Text) (l : List Event) (hits : Dict Hits)
    → Distinct hits
    → Within t l
    → passes k (answers (some (suc m)) l hits) ≤ 2 * suc m
unfolding answers passes left ask
passes-bounded m t k l hits d h =
    omega (arith, under l hits d h, left_of_bound (suc m) t (get k hits))
  where
    under :
        (l : List Event) (hits : Dict Hits)
        → Distinct hits
        → Within t l
        → passes k (answers (some (suc m)) l hits) ≤ left_of (suc m) t (get k hits)
    under [] hits d h = omega arith
    under (prunes now ∷ l) hits d (a, b, h) = omega (
      arith,
      prune-left (suc m) t now k hits d b,
      under l (prune (some (suc m)) now hits) (prune-Distinct (suc m) now hits d) h,
    )
    under (asks q now ∷ l) hits d (a, b, h) =
        let e = counted (window now (get q hits)) in
        let ih = under l (set q e hits) (set-Distinct q e hits d) h in
        let here = get-set q k e hits in
        elim (Bool-cases (eq_text q k)) [
          | inl y ↦ rw y (
              omega (
                arith,
                window-uses (suc m) t now (get q hits) a b,
                ih,
                ap (left_of (suc m) t) (rw y at here),
                ap (λ p. left_of (suc m) t (get p hits)) (eq_text_sound q k y),
              ))
          | inr n ↦ rw n (omega (arith, ih, ap (left_of (suc m) t) (rw n at here)))
        ]
