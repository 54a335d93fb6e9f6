-- ===== src/ImportDocs/Kept.antt =====
-- What scripts/import-schema-docs.mjs writes for the procedures of a document.
use mssql_data_api.Prelude.{
  ◌≡◌, ap, ◌∙◌, Bool, true, false, Option, none, some, List, [], ◌∷◌, All, Bool-cases, inl, inr,
  if◌then◌else◌,
}
use mssql_data_api.Prelude.Text.{Text, codes, eq_text}
use mssql_data_api.Prelude.Dict.{get, set, get-set, get-set_self}
use mssql_data_api.Prelude.Json.{Json, Runtime}
use mssql_data_api.Report.{Row}
use mssql_data_api.ImportDocs.{
  truthy, Described, Out, key_of, put_named, of_procedure, add_procedures,
}

abbrev pub has : Option Described → Bool
has none = false
has (some d) = true

abbrev pub HasEntry : Text → Out → Type 0
HasEntry k out = has (get k out) ≡ true

set-HasEntry : (k q : Text) (d : Described) (out : Out) → HasEntry q out → HasEntry q (set k d out)
set-HasEntry k q d out h = elim (Bool-cases (eq_text k q)) [
  | inl e ↦ ap has (get-set k q d out ∙ ap (λ b. if b then some d else get q out) e)
  | inr e ↦ ap has (get-set k q d out ∙ ap (λ b. if b then some d else get q out) e) ∙ h
]

module _ (rt : Runtime) (schema : Text) (q : Text) where
  put-HasEntry :
      (n : Option Json) (d : Option Described) (out : Out)
      → HasEntry q out
      → HasEntry q (put_named rt schema n d out)
  put-HasEntry none d out h = h
  put-HasEntry (some n) none out h = h
  put-HasEntry (some n) (some d) out h = elim (Bool-cases (truthy n)) [
    | inl e ↦ rw e (set-HasEntry (key_of rt schema n) q d out h)
    | inr e ↦ rw e h
  ]

  pub procedures-HasEntry :
      (l : List Row) (out : Out) → HasEntry q out → HasEntry q (add_procedures rt schema l out)
  unfolding add_procedures
  procedures-HasEntry [] out h = h
  procedures-HasEntry (p ∷ l) out h =
      procedures-HasEntry l
        (put_named rt schema (get (codes "name") p) (some (of_procedure rt schema p)) out)
        (put-HasEntry (get (codes "name") p) (some (of_procedure rt schema p)) out h)

-- An entry of that procedure, if it has a name.
abbrev pub IsWritten : Runtime → Text → Out → Option Json → Type 0
IsWritten rt schema out none = Unit
IsWritten rt schema out (some n) = truthy n ≡ true → HasEntry (key_of rt schema n) out

-- Every procedure of a document that has a name has an entry, whatever tables and views have its name.
pub add_procedures-All :
    (rt : Runtime) (schema : Text) (l : List Row) (out : Out)
    → All (λ p. IsWritten rt schema (add_procedures rt schema l out) (get (codes "name") p)) l
unfolding add_procedures
add_procedures-All rt schema [] out = tt
add_procedures-All rt schema (p ∷ l) out = (
  written (get (codes "name") p),
  add_procedures-All rt schema l
      (put_named rt schema (get (codes "name") p) (some (of_procedure rt schema p)) out),
)
  where
    written :
        (n : Option Json)
        → IsWritten rt schema
            (add_procedures rt schema l
              (put_named rt schema n (some (of_procedure rt schema p)) out))
            n
    written none = tt
    written (some n) = λ t.
        procedures-HasEntry rt schema (key_of rt schema n) l
          (put_named rt schema (some n) (some (of_procedure rt schema p)) out)
          (rw t (ap has (get-set_self (key_of rt schema n) (of_procedure rt schema p) out)))
