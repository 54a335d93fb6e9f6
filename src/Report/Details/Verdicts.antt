-- ===== src/Report/Details/Verdicts.antt =====
-- What services/dba-mcp/src/dbatools.ts says of suspect pages and of the owners of databases.
use mssql_data_api.Prelude.{
  ℕ, suc, ◌+◌, ◌≡◌, refl, ◌↔◌, arith, not, Bool, true, false, List, [], ◌∷◌, length, any,
  Bool-cases, inl, inr, if◌then◌else◌,
}
use mssql_data_api.Prelude.Text.{Text, eq_text}
use mssql_data_api.Prelude.Dict.{Dict, get, set}
use mssql_data_api.Prelude.Json.{Runtime}
use mssql_data_api.Settings.{is_blank}
use mssql_data_api.Report.{Row}
use mssql_data_api.Report.Details.{
  is_unresolved, is_resolved, ev_class, rows_with, SuspectPages, active, judged, suspect_pages,
  is_personal_owner, owner_of, tally, tally_one, or_zero, is_read_only, owners_of,
}

abbrev pub IsActive : SuspectPages → Type 0
IsActive (active w n) = Unit
IsActive _ = ⊥

rows_with-any : (p : Row → Bool) (l : List Row) → (any p l ≡ true) ↔ ((rows_with p l ≡ []) → ⊥)
unfolding rows_with
rows_with-any p [] = (λ h. cc h, λ h. absurd (h refl))
rows_with-any p (r ∷ l) = elim (Bool-cases (p r)) [
  | inl e ↦ rw e (λ h k. cc k, λ h. refl)
  | inr e ↦ rw e (rows_with-any p l)
]

judged-IsActive :
    (rt : Runtime) (u repaired rows : List Row)
    → IsActive (judged rt u repaired rows) ↔ ((u ≡ []) → ⊥)
judged-IsActive rt (r ∷ rs) repaired rows = (λ h k. cc k, λ h. tt)
judged-IsActive rt [] [] rows = (λ h. elim h [ ], λ h. h refl)
judged-IsActive rt [] (r ∷ rs) rows = (λ h. elim h [ ], λ h. h refl)

-- Damaged pages are reported exactly where some row has an event that is not repaired, whatever the
-- other rows have.
pub suspect_pages-IsActive :
    (rt : Runtime) (rows : List Row)
    → IsActive (suspect_pages rt rows) ↔ (any (λ r. is_unresolved (ev_class rt r)) rows ≡ true)
unfolding suspect_pages
suspect_pages-IsActive rt [] = (λ h. elim h [ ], λ h. cc h)
suspect_pages-IsActive rt (r ∷ rs) =
    let u = rows_with (λ q. is_unresolved (ev_class rt q)) (r ∷ rs) in
    let repaired = rows_with (λ q. is_resolved (ev_class rt q)) (r ∷ rs) in
    let (a, b) = judged-IsActive rt u repaired (r ∷ rs) in
    let (c, d) = rows_with-any (λ q. is_unresolved (ev_class rt q)) (r ∷ rs) in
    (λ h. d (a h), λ h. b (c h))

abbrev pub total : Dict ℕ → ℕ
total [] = 0
total ((k, n) ∷ d) = n + total d

total-set : (o : Text) (m : ℕ) (d : Dict ℕ) → total (set o m d) + or_zero (get o d) ≡ m + total d
unfolding set get
total-set o m [] = omega arith
total-set o m ((k, n) ∷ d) = elim (Bool-cases (eq_text k o)) [
  | inl e ↦ rw e (omega arith)
  | inr e ↦ rw e (omega (arith, total-set o m d))
]

abbrev one_if : Bool → ℕ
one_if t = if t then 1 else 0

blank_nobody : (o : Text) → is_blank o ≡ true → is_personal_owner o ≡ false
unfolding is_personal_owner
blank_nobody [] h = refl
blank_nobody (c ∷ o) h = cc h

total-tally_one :
    (o : Text) (d : Dict ℕ)
    → total (tally_one o d) + one_if (is_personal_owner o) + one_if (is_blank o) ≡ suc (total d)
total-tally_one o d = elim (Bool-cases (is_blank o)) [
  | inl b ↦ rw (b, blank_nobody o b) (omega arith)
  | inr b ↦ elim (Bool-cases (is_personal_owner o)) [
    | inl p ↦ rw (b, p) (omega arith)
    | inr p ↦ rw (b, p) (omega (arith, total-set o (or_zero (get o d) + 1) d))
  ]
]

rows_with-length :
    (p : Row → Bool) (r : Row) (l : List Row)
    → length (rows_with p (r ∷ l)) ≡ one_if (p r) + length (rows_with p l)
unfolding rows_with
rows_with-length p r l = elim (Bool-cases (p r)) [
  | inl e ↦ rw e (omega arith)
  | inr e ↦ rw e (omega arith)
]

tally-counted :
    (rt : Runtime) (l : List Row) (d : Dict ℕ)
    → total (tally rt l d)
        + length (rows_with (λ r. is_personal_owner (owner_of rt r)) l)
        + length (rows_with (λ r. is_blank (owner_of rt r)) l)
      ≡ length l + total d
unfolding tally rows_with
tally-counted rt [] d = omega arith
tally-counted rt (r ∷ l) d = omega (
  arith,
  tally-counted rt l (tally_one (owner_of rt r) d),
  rows_with-length (λ r. is_personal_owner (owner_of rt r)) r l,
  rows_with-length (λ r. is_blank (owner_of rt r)) r l,
  total-tally_one (owner_of rt r) d,
)

-- Every database that can be altered is counted once: as owned by a named person, as owned by no login
-- or with one service account.
pub owners_of-counted :
    (rt : Runtime) (rows : List Row)
    → let o = owners_of rt rows in
      total o.accounts + length o.personal + length o.orphaned ≡ length o.graded
unfolding owners_of
owners_of-counted rt rows =
    omega (arith, tally-counted rt (rows_with (λ r. not (is_read_only rt r)) rows) [])
