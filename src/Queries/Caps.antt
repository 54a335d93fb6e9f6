-- ===== src/Queries/Caps.antt =====
-- The row cap of services/dba-mcp/src/connectionManager.ts: what of the server's answer is returned.
use mssql_data_api.Prelude.{
  ℕ, zero, suc, ◌+◌, ◌≤◌, ◌<◌, ◌≡◌, refl, ap, ◌∙◌, Bool, true, Option, none, some, List, [], ◌∷◌,
  ltb, length, take, map, length-take, arith, Bool-cases, inl, inr,
}
use mssql_data_api.Prelude.Text.{Text}
use mssql_data_api.Queries.{
  Batch, plain, limited, Scope, cap_rows, first_set, finish_query, query_instance, apply_row_limit,
}

take_all : {Row : Type 0} (n : ℕ) (l : List Row) → length l ≤ n → take n l ≡ l
take_all zero [] h = refl
take_all zero (x ∷ l) h = grind arith
take_all (suc n) [] h = refl
take_all (suc n) (x ∷ l) h = ap (λ t. x ∷ t) (take_all n l (omega (arith, h)))

take_shorter : {Row : Type 0} (n : ℕ) (l : List Row) → take n (take (suc n) l) ≡ take n l
take_shorter zero l = refl
take_shorter (suc n) [] = refl
take_shorter (suc n) (x ∷ l) = ap (λ t. x ∷ t) (take_shorter n l)

-- A result set that the server stopped one row above the cap is cut to the cap, and is reported as
-- cut exactly where the whole result had more rows than the cap.
pub cap_rows-take :
    {Row : Type 0} (n : ℕ) (full : List Row)
    → cap_rows (take (suc n) full) n ≡ (take n full, ltb n (length full))
unfolding cap_rows
cap_rows-take n full = elim (Bool-cases (ltb n (length full))) [
  | inl more ↦ rw (longer (ground (arith, more)), more, take_shorter n full) refl
  | inr fits ↦
      rw
        (take_all (suc n) full (ground (arith, fits)), fits, take_all n full (ground (arith, fits)))
        refl
]
  where
    longer : n < length full → ltb n (length (take (suc n) full)) ≡ true
    longer h = ground (arith, length-take (suc n) full)

-- What `SET ROWCOUNT n` makes of the answer to a batch: each result set stops after n rows.
abbrev pub cut_sets : {Row : Type 0} → ℕ → Option (List (List Row)) → Option (List (List Row))
cut_sets n none = none
cut_sets n (some sets) = some (map (λ rows. take n rows) sets)

first_set-cut_sets :
    {Row : Type 0} (n : ℕ) (o : Option (List (List Row)))
    → first_set (cut_sets n o) ≡ take n (first_set o)
first_set-cut_sets zero none = refl
first_set-cut_sets (suc n) none = refl
first_set-cut_sets zero (some []) = refl
first_set-cut_sets (suc n) (some []) = refl
first_set-cut_sets n (some (rows ∷ sets)) = refl

-- A user query returns the first rows of the first result set that the instance would have answered
-- without a limit, as many as the cap allows, and says that it was cut exactly where there were more,
-- provided that the row limit which is set before it, of one row more than the cap and so never 0,
-- is what stops each of its result sets: the query sets no ROWCOUNT of its own and answers with rows
-- that it reads.
pub query_instance-user :
    {Row : Type 0} (server : Batch → Option (List (List Row))) (catalog : Option Text)
    (name sql : Text) (n : ℕ) (note_truncation : Bool) (scope : Scope)
    → server (limited (n + 1) sql) ≡ cut_sets (n + 1) (server (plain sql))
    → let full = first_set (server (plain sql)) in
      (query_instance server catalog name sql n note_truncation true scope).0
      ≡ (take n full, ltb n (length full))
unfolding query_instance apply_row_limit finish_query
query_instance-user server catalog name sql n note_truncation scope stops =
    ap (λ o. cap_rows (first_set o) n) stops
    ∙ ap (λ rows. cap_rows rows n) (first_set-cut_sets (n + 1) (server (plain sql)))
    ∙ ap (λ m. cap_rows (take m (first_set (server (plain sql)))) n) {y = suc n} (omega arith)
    ∙ cap_rows-take n (first_set (server (plain sql)))
