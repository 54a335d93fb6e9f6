-- ===== src/Safety/Lexer/Templates.antt =====
-- SQL text that is put together from fixed code and quoted values, as `stripNoise` of
-- services/dba-mcp/src/safety.ts reads it.
use mssql_data_api.Prelude.{
  ℕ, ◌≡◌, refl, ap, sym, ◌∙◌, arith, ◌||◌, ◌&&◌, ◌==◌, not, Bool, true, false, List, [], ◌∷◌, ◌++◌,
  append_assoc, All, Bool-cases, inl, inr,
}
use mssql_data_api.Prelude.Text.{Text}
use mssql_data_api.Safety.Lexer.{quote, strip_noise, token, next_is}
use mssql_data_api.Safety.Lexer.Steps.{strip_noise-cons}
use mssql_data_api.Safety.Lexer.Quoting.{double, strip_noise-literal}

-- A character that begins neither a comment nor a quoted part.
abbrev is_code : ℕ → Bool
is_code c = not (c == b'-' || c == b'/' || c == quote || c == b'[' || c == b'"')

-- A single dash between two characters that are none.
abbrev is_minus : ℕ → Text → Bool
is_minus c [] = false
is_minus c (d ∷ t) = c == b'-' && not (d == b'-')

-- Text that has no comment and no quoted part, and does not end with a dash.
abbrev pub is_code_text : Text → Bool
is_code_text [] = true
is_code_text (c ∷ t) = (is_code c || is_minus c t) && is_code_text t

-- The same, where there is any.
abbrev pub IsCode : Text → Type 0
IsCode [] = ⊥
IsCode (c ∷ t) = is_code_text (c ∷ t) ≡ true

token-code : (c : ℕ) (s : Text) → is_code c ≡ true → token c s ≡ (c ∷ [], s)
unfolding token
token-code c s h = ground arith

token-minus : (c d : ℕ) (s : Text) → is_minus c (d ∷ s) ≡ true → token c (d ∷ s) ≡ (c ∷ [], d ∷ s)
unfolding token
token-minus c d s h = ground arith

kept_one :
    (c : ℕ) (s r : Text) → token c s ≡ (c ∷ [], s) → strip_noise s ≡ r → strip_noise (c ∷ s) ≡ c ∷ r
kept_one c s r h k = strip_noise-cons c s ∙ ap (λ p. p.0 ++ strip_noise p.1) h ∙ ap (λ r. c ∷ r) k

code_kept : (t s : Text) → is_code_text t ≡ true → strip_noise (t ++ s) ≡ t ++ strip_noise s
code_kept [] s h = refl
code_kept (c ∷ []) s h = kept_one c s (strip_noise s) (token-code c s (ground arith)) refl
code_kept (c ∷ d ∷ t) s h = elim (Bool-cases (is_code c)) [
  | inl e ↦
      kept_one c (d ∷ (t ++ s)) (d ∷ (t ++ strip_noise s)) (token-code c (d ∷ (t ++ s)) e)
        (code_kept (d ∷ t) s (ground arith))
  | inr e ↦
      kept_one c (d ∷ (t ++ s)) (d ∷ (t ++ strip_noise s)) (token-minus c d (t ++ s) (ground arith))
        (code_kept (d ∷ t) s (ground arith))
]

-- Code before a value, each; the code behind the last value stands by itself.
abbrev pub Template : Type 0
Template = List (Text × Text)

abbrev pub quoted : Text → Text
quoted v = quote ∷ (double quote v ++ quote ∷ [])

unfoldable pub render : Template → Text → Text
unfolding double
render [] last = last
render ((code, v) ∷ l) last = code ++ (quoted v ++ render l last)

-- The template with every value empty.
unfoldable pub skeleton : Template → Text → Text
skeleton [] last = last
skeleton ((code, v) ∷ l) last = code ++ (quote ∷ quote ∷ skeleton l last)

abbrev pub HasCode : Template → Type 0
HasCode l = All (λ e. IsCode e.0) l

begins_code : (t s : Text) → IsCode t → next_is quote (t ++ s) ≡ false
begins_code [] s h = elim h [ ]
begins_code (c ∷ []) s h = ground arith
begins_code (c ∷ d ∷ t) s h = ground arith

code_text : (t : Text) → IsCode t → is_code_text t ≡ true
code_text [] h = refl
code_text (c ∷ t) h = h

render_begins :
    (l : Template) (last x : Text)
    → HasCode l
    → IsCode last
    → next_is quote (render l last ++ x) ≡ false
unfolding render
render_begins [] last x h k = begins_code last x k
render_begins ((code, v) ∷ l) last x (h, hs) k =
    ap (next_is quote) (append_assoc code (quoted v ++ render l last) x)
    ∙ begins_code code ((quoted v ++ render l last) ++ x) h

value_first : (v r x : Text) → (quoted v ++ r) ++ x ≡ quote ∷ (double quote v ++ (quote ∷ (r ++ x)))
value_first v r x =
    append_assoc (quoted v) r x
    ∙ ap (λ t. quote ∷ t) (append_assoc (double quote v) (quote ∷ []) (r ++ x))

-- Whatever the values of a template are, the lexer reads its text as the code that the template has and
-- an empty literal for each value, and goes on behind it: no value ends its literal, begins a comment or
-- changes what follows. The code has no quoted part and no comment.
pub strip_noise-render :
    (l : Template) (last x : Text)
    → HasCode l
    → IsCode last
    → strip_noise (render l last ++ x) ≡ skeleton l last ++ strip_noise x
unfolding render skeleton
strip_noise-render [] last x h k = code_kept last x (code_text last k)
strip_noise-render ((code, v) ∷ l) last x (h, hs) k =
    ap strip_noise (append_assoc code (quoted v ++ render l last) x)
    ∙ code_kept code ((quoted v ++ render l last) ++ x) (code_text code h)
    ∙ ap (λ t. code ++ strip_noise t) (value_first v (render l last) x)
    ∙ ap (λ t. code ++ t) (strip_noise-literal v (render l last ++ x) (render_begins l last x hs k))
    ∙ ap (λ t. code ++ (quote ∷ quote ∷ t)) (strip_noise-render l last x hs k)
    ∙ sym (append_assoc code (quote ∷ quote ∷ skeleton l last) (strip_noise x))
