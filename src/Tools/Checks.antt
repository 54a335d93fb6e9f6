-- ===== src/Tools/Checks.antt =====
-- The small checks and shapes of services/dba-mcp/src/tools.ts that its tools share.
use mssql_data_api.Prelude.{
  ℕ, ==_iff, ◌≤◌, ◌≡◌, refl, ltb, leb, ◌==◌, Bool, true, false, ◌&&◌, ◌||◌, List, [], ◌∷◌, ◌++◌,
  if◌then◌else◌, length, take, min, arith, length-take, Bool-cases, inl, inr,
}
use mssql_data_api.Prelude.Text.{Text, is_upper, is_lower, is_digit}
use mssql_data_api.Safety.Lexer.{quote, next_is, strip_noise}
use mssql_data_api.Safety.Lexer.Quoting.{double, strip_noise-literal}

-- `v.replace(/'/g, "''")`
unfoldable pub escape_sql_string : Text → Text
escape_sql_string [] = []
escape_sql_string (c ∷ s) =
    let rest = escape_sql_string s in if c == b'\'' then b'\'' ∷ b'\'' ∷ rest else c ∷ rest

escape-double : (v : Text) → escape_sql_string v ≡ double quote v
unfolding escape_sql_string double
escape-double [] = refl
escape-double (c ∷ s) = elim (Bool-cases (c == b'\'')) [
  | inl e ↦ rw (e, escape-double s) (rw ((==_iff c b'\'').0 e) refl)
  | inr e ↦ rw (e, escape-double s) refl
]

-- A value that the fixed queries quote after escaping it is one string literal for the lexer of the
-- guards, whatever it holds, where no quote follows.
pub escape_sql_string-literal :
    (v rest : Text)
    → next_is quote rest ≡ false
    → strip_noise (quote ∷ (escape_sql_string v ++ (quote ∷ rest)))
      ≡ quote ∷ quote ∷ strip_noise rest
escape_sql_string-literal v rest h = rw (escape-double v) (strip_noise-literal v rest h)

-- `/^[A-Za-z_][A-Za-z0-9_$#@]{0,127}$/`
abbrev pub is_ident_start : ℕ → Bool
is_ident_start c = is_upper c || is_lower c || c == b'_'

abbrev pub is_ident_part : ℕ → Bool
is_ident_part c =
    is_upper c || is_lower c || is_digit c || c == b'_' || c == b'$' || c == b'#' || c == b'@'

abbrev pub every : (ℕ → Bool) → Text → Bool
every p [] = true
every p (c ∷ s) = p c && every p s

-- `assertIdentifier` throws where this is false.
unfoldable pub is_identifier : Text → Bool
is_identifier [] = false
is_identifier (c ∷ s) = is_ident_start c && every is_ident_part s && leb (length s) 127

unfoldable pub select_stats_objects : List Text → ℕ → List Text × Bool
select_stats_objects names max_objects =
    let truncated = ltb max_objects (length names) in
    (if truncated then take max_objects names else names, truncated)

cut_short : (m n k : ℕ) → ltb m n ≡ true → k ≡ min m n → true ≡ ltb k n
cut_short m n k h e = grind arith

not_over : (m n : ℕ) → ltb m n ≡ false → n ≤ m
not_over m n h = grind arith

all_of : (n : ℕ) → false ≡ ltb n n
all_of n = grind arith

-- The objects that are probed are within the limit, and the result says that there were more exactly
-- where some are left out.
pub select_stats_objects-bounded :
    (names : List Text) (max_objects : ℕ)
    → (length (select_stats_objects names max_objects).0 ≤ max_objects)
      × ((select_stats_objects names max_objects).1
          ≡ ltb (length (select_stats_objects names max_objects).0) (length names))
unfolding select_stats_objects
select_stats_objects-bounded names max_objects =
    elim (Bool-cases (ltb max_objects (length names))) [
      | inl e ↦ rw e (
        omega (arith, length-take max_objects names),
        cut_short max_objects (length names) (length (take max_objects names)) e
            (length-take max_objects names),
      )
      | inr e ↦ rw e (not_over max_objects (length names) e, all_of (length names))
    ]

-- `jobStatusResult`: the rows of dbatools, what msdb says instead, or that msdb could not be read.
pub data JobStatus (Row : Type 0) : Type 0 where
  from_dbatools : List Row → JobStatus Row
  could_not_read : Text → JobStatus Row
  no_jobs : JobStatus Row
  from_msdb : List Row → JobStatus Row

-- The answer of msdb: an error's message or its rows.
pub data Msdb (Row : Type 0) : Type 0 where
  unread : Text → Msdb Row
  rows : List Row → Msdb Row

module _ {Row : Type 0} where
  abbrev pub from_rows : Msdb Row → JobStatus Row
  from_rows (unread message) = could_not_read (take 300 message)
  from_rows (rows []) = no_jobs
  from_rows (rows (r ∷ l)) = from_msdb (r ∷ l)

  unfoldable pub job_status_result : List Row → Msdb Row → JobStatus Row
  job_status_result [] msdb = from_rows msdb
  job_status_result (r ∷ l) msdb = from_dbatools (r ∷ l)

  -- `jobStatusResult` says that there are no jobs only where both sources were read and had none.
  pub job_status-no_jobs :
      (l : List Row) (m : Msdb Row) → job_status_result l m ≡ no_jobs → (l ≡ []) × (m ≡ rows [])
  unfolding job_status_result
  job_status-no_jobs [] (unread s) h = cc h
  job_status-no_jobs [] (rows []) h = (refl, refl)
  job_status-no_jobs [] (rows (r ∷ l)) h = cc h
  job_status-no_jobs (r ∷ l) m h = cc h
