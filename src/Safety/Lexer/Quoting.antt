-- ===== src/Safety/Lexer/Quoting.antt =====
-- Quoted text and comments as `stripNoise` of services/dba-mcp/src/safety.ts reads them, and the
-- length of what it returns.
use mssql_data_api.Prelude.{
  ℕ, ◌+◌, ◌≤◌, ◌≡◌, refl, ap, ◌∙◌, false, [], ◌∷◌, ◌++◌, arith, ◌==◌, ==_iff, length, Bool-cases,
  inl, inr, length-append, if◌then◌else◌, All, ◌≢◌,
}
use mssql_data_api.Prelude.Text.{Text}
use mssql_data_api.Safety.Lexer.{
  space, quote, end_of, close_of, next_is, token, strip_noise, skip_line, skip_block,
}
use mssql_data_api.Safety.Lexer.Steps.{
  strip_noise-cons, strip_noise-nil, token_induction, end_of_shrinks, token_shrinks,
}
use mssql_data_api.Safety.Lexer.Laws.{end_of_other, end_of_doubled, end_of_single}

-- `v.replace(/'/g, "''")`, for any delimiter.
unfoldable pub double : ℕ → Text → Text
double q [] = []
double q (c ∷ s) = let rest = double q s in if c == q then c ∷ c ∷ rest else c ∷ rest

pub end_of-double :
    (q : ℕ) (v rest : Text)
    → next_is q rest ≡ false
    → end_of q (double q v ++ (q ∷ rest)) ≡ (double q v ++ (q ∷ []), rest)
unfolding double
end_of-double q [] rest h = end_of_single q q rest ((==_iff q q).1 refl) h
end_of-double q (c ∷ v) rest h = elim (Bool-cases (c == q)) [
  | inl same ↦ rw same (
      end_of_doubled q c c (double q v ++ (q ∷ rest)) same same
      ∙ ap (λ p. (c ∷ c ∷ p.0, p.1)) (end_of-double q v rest h))
  | inr other ↦ rw other (
      end_of_other q c (double q v ++ (q ∷ rest)) other
      ∙ ap (λ p. (c ∷ p.0, p.1)) (end_of-double q v rest h))
]

token-quote : (s : Text) → token quote s ≡ (quote ∷ quote ∷ [], (end_of quote s).1)
unfolding token
token-quote s = refl

token-bracket : (s : Text) → token b'[' s ≡ (b'[' ∷ (end_of b']' s).0, (end_of b']' s).1)
unfolding token
token-bracket s = refl

-- A value whose quotes are doubled stays one string literal, whatever it holds, where no quote
-- follows the closing one: the literal collapses and the text behind it is read as if the value
-- were not there.
pub strip_noise-literal :
    (v rest : Text)
    → next_is quote rest ≡ false
    → strip_noise (quote ∷ (double quote v ++ (quote ∷ rest))) ≡ quote ∷ quote ∷ strip_noise rest
strip_noise-literal v rest h =
    strip_noise-cons quote (double quote v ++ (quote ∷ rest))
    ∙ ap (λ p. p.0 ++ strip_noise p.1) (token-quote (double quote v ++ (quote ∷ rest)))
    ∙ ap (λ p. quote ∷ quote ∷ strip_noise p.1) (end_of-double quote v rest h)

-- A name whose closing brackets are doubled stays one delimited identifier, and is kept, where no
-- closing bracket follows the last one.
pub strip_noise-bracketed :
    (name rest : Text)
    → next_is b']' rest ≡ false
    → strip_noise (b'[' ∷ (double b']' name ++ (b']' ∷ rest)))
      ≡ b'[' ∷ ((double b']' name ++ (b']' ∷ [])) ++ strip_noise rest)
strip_noise-bracketed name rest h =
    strip_noise-cons b'[' (double b']' name ++ (b']' ∷ rest))
    ∙ ap (λ p. p.0 ++ strip_noise p.1) (token-bracket (double b']' name ++ (b']' ∷ rest)))
    ∙ ap (λ p. b'[' ∷ (p.0 ++ strip_noise p.1)) (end_of-double b']' name rest h)

-- A character of a line.
abbrev pub IsInLine : ℕ → Type 0
IsInLine c = (c ≢ 10) × (c ≢ 13)

skip_line-append :
    (body rest : Text) → All IsInLine body → skip_line (body ++ (10 ∷ rest)) ≡ 10 ∷ rest
unfolding skip_line
skip_line-append [] rest h = refl
skip_line-append (c ∷ body) rest h = ground (arith, skip_line-append body rest h.1)

token-dashes : (s : Text) → token b'-' (b'-' ∷ s) ≡ (space ∷ [], skip_line s)
unfolding token skip_line
token-dashes s = refl

-- A line comment ends at its line end, whatever characters of a line it has: what follows is read
-- as code again.
pub strip_noise-line_comment :
    (body rest : Text)
    → All IsInLine body
    → strip_noise (b'-' ∷ b'-' ∷ (body ++ (10 ∷ rest))) ≡ space ∷ strip_noise (10 ∷ rest)
strip_noise-line_comment body rest h =
    strip_noise-cons b'-' (b'-' ∷ (body ++ (10 ∷ rest)))
    ∙ ap (λ p. p.0 ++ strip_noise p.1) (token-dashes (body ++ (10 ∷ rest)))
    ∙ ap (λ t. space ∷ strip_noise t) (skip_line-append body rest h)

end_of_parts :
    (close : ℕ) (s : Text) → length (end_of close s).0 + length (end_of close s).1 ≡ length s
unfolding end_of
end_of_parts close [] = omega arith
end_of_parts close (c ∷ []) = omega arith
end_of_parts close (c ∷ d ∷ s) = ground (arith, end_of_parts close s, end_of_parts close (d ∷ s))

end_of_advances : (close c : ℕ) (s : Text) → length (end_of close (c ∷ s)).1 ≤ length s
unfolding end_of
end_of_advances close c [] = omega arith
end_of_advances close c (d ∷ s) = ground (arith, end_of_shrinks close s, end_of_advances close d s)

abbrev slack : Text → ℕ
slack [] = 0
slack (c ∷ s) = 1

slack-le : (s : Text) → slack s ≤ 1
slack-le [] = omega arith
slack-le (c ∷ s) = omega arith

end_of-nil_room : length (end_of quote []).1 + slack (end_of quote []).1 ≤ 0
unfolding end_of
end_of-nil_room = omega arith

literal_room : (s : Text) → length (end_of quote s).1 + slack (end_of quote s).1 ≤ length s
literal_room [] = end_of-nil_room
literal_room (c ∷ s) = omega (arith, end_of_advances quote c s, slack-le (end_of quote (c ∷ s)).1)

token_room :
    (c : ℕ) (s : Text)
    → length (token c s).0 + length (token c s).1 + slack (token c s).1 ≤ length s + 2
unfolding token
token_room c s = ground (
  arith,
  slack-le s,
  slack-le (skip_line (c ∷ s)),
  slack-le (skip_block 0 (c ∷ s)),
  token_shrinks c s,
  literal_room s,
  end_of_parts (close_of c) s,
  slack-le (end_of (close_of c) s).1,
)

-- Stripping makes a query longer by one character at most, where an unterminated string literal
-- is closed.
pub length-strip_noise : (query : Text) → length (strip_noise query) ≤ length query + 1
length-strip_noise query = omega (arith, all query, slack-le query)
  where
    step :
        (c : ℕ) (s : Text)
        → length (strip_noise (token c s).1) ≤ length (token c s).1 + slack (token c s).1
        → length (strip_noise (c ∷ s)) ≤ length (c ∷ s) + slack (c ∷ s)
    step c s ih =
        rw (strip_noise-cons c s)
          (omega (arith, length-append (token c s).0 (strip_noise (token c s).1), token_room c s))

    all : (s : Text) → length (strip_noise s) ≤ length s + slack s
    all s =
        token_induction (λ s. length (strip_noise s) ≤ length s + slack s)
          (rw strip_noise-nil (omega arith)) step (length s) s (omega arith)
