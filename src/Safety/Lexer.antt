-- ===== src/Safety/Lexer.antt =====
-- `stripNoise` of services/dba-mcp/src/safety.ts. A position in the query is modelled by the text
-- from it to the end; `query[i + 1]` past the end equals no character.
pub mod Steps
pub mod Laws
pub mod Quoting
pub mod Ends
pub mod Templates
mod Tests
use mssql_data_api.Prelude.{
  ℕ, zero, suc, ◌-◌, Bool, ◌&&◌, ◌||◌, List, [], ◌∷◌, ◌++◌, if◌then◌else◌, ◌==◌, length,
}
use mssql_data_api.Prelude.Text.{Text}
use mssql_data_api.Prelude.Regex.{head_is}

abbrev pub space : ℕ
space = 32

abbrev pub quote : ℕ
quote = b'\''

-- `endOf`: the text up to and with the closing delimiter, and the text after it. A doubled
-- delimiter does not close; what is never closed runs to the end.
pub end_of : ℕ → Text → Text × Text
end_of close [] = ([], [])
end_of close (c ∷ []) = (c ∷ [], [])
end_of close (c ∷ d ∷ s) =
    let doubled = end_of close s in
    let further = end_of close (d ∷ s) in
    if c == close
    then if d == close then (c ∷ d ∷ doubled.0, doubled.1) else (c ∷ [], d ∷ s)
    else (c ∷ further.0, further.1)

-- A line comment runs to the next line end, which it leaves.
pub skip_line : Text → Text
skip_line [] = []
skip_line (c ∷ s) = let rest = skip_line s in if c == 10 || c == 13 then c ∷ s else rest

-- Block comments nest; the argument is `depth`.
pub skip_block : ℕ → Text → Text
skip_block depth [] = []
skip_block depth (c ∷ []) = []
skip_block depth (c ∷ d ∷ s) =
    let opened = skip_block (suc depth) s in
    let closed = if depth - 1 == 0 then s else skip_block (depth - 1) s in
    let next = skip_block depth (d ∷ s) in
    if c == b'/' && d == b'*' then opened else if c == b'*' && d == b'/' then closed else next

abbrev pub close_of : ℕ → ℕ
close_of c = if c == b'[' then b']' else b'"'

abbrev pub next_is : ℕ → Text → Bool
next_is c s = head_is (λ d. d == c) s

-- One round of the loop at the character `c` before `s`: what is appended to `out`, and the text
-- from the new `i`.
pub token : ℕ → Text → Text × Text
unfolding end_of skip_line skip_block
token c s =
    if c == b'-' && next_is b'-' s
    then (space ∷ [], skip_line (c ∷ s))
    else if c == b'/' && next_is b'*' s
    then (space ∷ [], skip_block 0 (c ∷ s))
    else if c == quote
    then (quote ∷ quote ∷ [], (end_of quote s).1)
    else if c == b'[' || c == b'"'
    then (c ∷ (end_of (close_of c) s).0, (end_of (close_of c) s).1)
    else (c ∷ [], s)

-- The loop, with fuel.
pub strip_from : ℕ → Text → Text
unfolding token
strip_from zero s = []
strip_from (suc n) [] = []
strip_from (suc n) (c ∷ s) = (token c s).0 ++ strip_from n (token c s).1

-- Each round advances, so the length of the query is fuel enough (`Steps.strip_from_fuel`).
unfoldable pub strip_noise : Text → Text
unfolding strip_from
strip_noise query = strip_from (length query) query
