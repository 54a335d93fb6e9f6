-- ===== src/ReportCli/Verdicts.antt =====
-- The verdict and the subject of the mail in `runReportCli` of services/dba-mcp/src/reportCli.ts.
use mssql_data_api.Prelude.{
  ℕ, ◌+◌, ◌*◌, ◌<◌, ltb, leb, Bool, true, false, not, ◌&&◌, Option, none, some, List, [], ◌∷◌,
  if◌then◌else◌, ◌≡◌, refl, ◌↔◌, All, Bool-cases, inl, inr, ◌⊎◌, arith,
}

-- Of a report: `status_counts.Fail` and `.Attention`, the number of its findings, and the total and
-- the errored checks of its coverage.
pub record Report : Type 0 where
  pub fails : ℕ
  pub attentions : ℕ
  pub findings : ℕ
  pub coverage : Option (ℕ × ℕ)

pub data Worst : Type 0 where
  all_ok : Worst
  warning : Worst
  critical_one : Worst

abbrev pub critical : Worst → Bool
critical critical_one = true
critical _ = false

abbrev pub worse : Worst → Report → Worst
worse w r =
    if ltb 0 r.fails
    then critical_one
    else if ltb 0 r.attentions && not (critical w)
    then warning
    else w

unfoldable pub worst_from : Worst → List Report → Worst
worst_from w [] = w
worst_from w (r ∷ l) = worst_from (worse w r) l

abbrev pub total_of : ℕ → Option (ℕ × ℕ) → ℕ
total_of n none = n
total_of n (some c) = c.0

abbrev pub errored_of : Option (ℕ × ℕ) → ℕ
errored_of none = 0
errored_of (some c) = c.1

unfoldable pub sum : (Report → ℕ) → List Report → ℕ
sum f [] = 0
sum f (r ∷ l) = f r + sum f l

abbrev pub covered : Report → ℕ
covered r = total_of r.findings r.coverage

abbrev pub errored : Report → ℕ
errored r = errored_of r.coverage

-- `covTotal > 0 && covErrored / covTotal >= 0.10`, with the total moved to the other side.
unfoldable pub is_degraded : ℕ → ℕ → Bool
is_degraded total errs = ltb 0 total && leb total (10 * errs)

-- The tag in brackets is the worst verdict, then whether INCOMPLETE stands there as well, alone in
-- place of OK. The counts of checks are only in the subject of a degraded run.
pub record Subject : Type 0 where
  pub worst : Worst
  pub incomplete : Bool
  pub n_fail : ℕ
  pub n_attention : ℕ
  pub not_run : Option (ℕ × ℕ)

unfoldable pub subject_of : List Report → Subject
unfolding worst_from sum is_degraded
subject_of l =
    let total = sum covered l in
    let errs = sum errored l in
    record {
      worst = worst_from all_ok l;
      incomplete = is_degraded total errs;
      n_fail = sum (λ r. r.fails) l;
      n_attention = sum (λ r. r.attentions) l;
      not_run = if is_degraded total errs then some (errs, total) else none;
    }

-- `[OK]`
abbrev pub reads_ok : Worst → Bool → Bool
reads_ok all_ok incomplete = not incomplete
reads_ok _ incomplete = false

abbrev pub IsClean : Report → Type 0
IsClean r = (r.fails ≡ 0) × (r.attentions ≡ 0)

none_over : (n : ℕ) → ltb 0 n ≡ false → n ≡ 0
none_over n h = grind arith

not_over : (n : ℕ) → n ≡ 0 → ltb 0 n ≡ false
not_over n h = ground arith

only : (w : Worst) (b : Bool) → w ≡ all_ok → (b && not (critical w)) ≡ false → b ≡ false
only all_ok true e h = h
only all_ok false e h = refl
only warning b e h = cc e
only critical_one b e h = cc e

worse-all_ok : (w : Worst) (r : Report) → worse w r ≡ all_ok → (w ≡ all_ok) × IsClean r
worse-all_ok w r h = elim (Bool-cases (ltb 0 r.fails)) [
  | inl f ↦ cc (rw f at h)
  | inr f ↦ go w f (rw f at h)
]
  where
    go :
        (w : Worst)
        → ltb 0 r.fails ≡ false
        → (if ltb 0 r.attentions && not (critical w) then warning else w) ≡ all_ok
        → (w ≡ all_ok) × IsClean r
    go w f k = elim (Bool-cases (ltb 0 r.attentions && not (critical w))) [
      | inl a ↦ cc (rw a at k)
      | inr a ↦ (
        rw a at k,
        (none_over r.fails f, none_over r.attentions (only w (ltb 0 r.attentions) (rw a at k) a)),
      )
    ]

worst_from-all_ok :
    (w : Worst) (l : List Report) → worst_from w l ≡ all_ok → (w ≡ all_ok) × All IsClean l
unfolding worst_from
worst_from-all_ok w [] h = (h, tt)
worst_from-all_ok w (r ∷ l) h =
    let rest = worst_from-all_ok (worse w r) l h in
    let here = worse-all_ok w r rest.0 in (here.0, (here.1, rest.1))

clean-worst : (l : List Report) → All IsClean l → worst_from all_ok l ≡ all_ok
unfolding worst_from
clean-worst [] h = refl
clean-worst (r ∷ l) ((f, a), h) = rw (not_over r.fails f, not_over r.attentions a) (clean-worst l h)

-- Enough checks could look: none was due, or fewer than one in ten could not.
abbrev pub IsCovered : ℕ → ℕ → Type 0
IsCovered total errs = (total ≡ 0) ⊎ (10 * errs < total)

is_degraded_iff : (total errs : ℕ) → (is_degraded total errs ≡ false) ↔ IsCovered total errs
unfolding is_degraded
is_degraded_iff total errs = grind arith

reads_ok_iff : (w : Worst) (b : Bool) → (reads_ok w b ≡ true) ↔ ((w ≡ all_ok) × (b ≡ false))
reads_ok_iff all_ok true = (λ h. cc h, λ (_, h). cc h)
reads_ok_iff all_ok false = (λ h. (refl, refl), λ h. refl)
reads_ok_iff warning b = (λ h. cc h, λ (h, _). cc h)
reads_ok_iff critical_one b = (λ h. cc h, λ (h, _). cc h)

-- The subject of the mail reads OK exactly where no report that the run gave has a check that failed or
-- wants attention, and fewer than one in ten of all checks of these reports could not look, or there was
-- none. Targets without a report do not count.
pub subject_of-reads_ok :
    (l : List Report)
    → (reads_ok (subject_of l).worst (subject_of l).incomplete ≡ true)
      ↔ (All IsClean l × IsCovered (sum covered l) (sum errored l))
unfolding subject_of
subject_of-reads_ok l =
    let ok = reads_ok_iff (worst_from all_ok l) (is_degraded (sum covered l) (sum errored l)) in
    let deg = is_degraded_iff (sum covered l) (sum errored l) in
    (
      λ h. ((worst_from-all_ok all_ok l (ok.0 h).0).1, deg.0 (ok.0 h).1),
      λ h. ok.1 (clean-worst l h.0, deg.1 h.1),
    )
