-- ===== src/Safety/Lexer/Ends.antt =====
-- The loop of `stripNoise` of services/dba-mcp/src/safety.ts ends.
use mssql_data_api.Prelude.{
  ℕ, zero, suc, ◌≤◌, ◌≡◌, ap, sym, ◌∙◌, arith, Option, none, some, [], ◌∷◌, ◌++◌, length,
}
use mssql_data_api.Prelude.Text.{Text}
use mssql_data_api.Safety.Lexer.{token, strip_noise}
use mssql_data_api.Safety.Lexer.Steps.{strip_noise-cons, strip_noise-nil, token_shrinks}

abbrev after : Text → Option Text → Option Text
after out none = none
after out (some rest) = some (out ++ rest)

-- The loop run for a number of rounds, none where it has not ended by then.
unfoldable pub run_rounds : ℕ → Text → Option Text
unfolding token
run_rounds n [] = some []
run_rounds zero (c ∷ s) = none
run_rounds (suc n) (c ∷ s) = after (token c s).0 (run_rounds n (token c s).1)

-- The loop ends after no more rounds than the query has characters, and what it has put out then is
-- `strip_noise` of the query.
pub run_rounds-strip_noise :
    (n : ℕ) (query : Text) → length query ≤ n → run_rounds n query ≡ some (strip_noise query)
unfolding run_rounds
run_rounds-strip_noise n [] h = ap some (sym strip_noise-nil)
run_rounds-strip_noise zero (c ∷ s) h = absurd (omega arith)
run_rounds-strip_noise (suc n) (c ∷ s) h =
    ap (after (token c s).0)
      (run_rounds-strip_noise n (token c s).1 (omega (arith, token_shrinks c s)))
    ∙ ap some (sym (strip_noise-cons c s))
