-- ===== src/Safety/Lexer/Steps.antt =====
-- The rounds of the loop of `stripNoise` of services/dba-mcp/src/safety.ts as equations, and its fuel.
use mssql_data_api.Prelude.{
  ℕ, zero, suc, ◌-◌, ◌≤◌, ◌≡◌, refl, ap, true, ◌&&◌, [], ◌∷◌, ◌++◌, arith, ◌==◌, length,
}
use mssql_data_api.Prelude.Text.{Text}
use mssql_data_api.Safety.Lexer.{
  quote, end_of, skip_line, skip_block, close_of, next_is, token, strip_from, strip_noise,
}

pub end_of_shrinks : (close : ℕ) (s : Text) → length (end_of close s).1 ≤ length s
unfolding end_of
end_of_shrinks close [] = omega arith
end_of_shrinks close (c ∷ []) = omega arith
end_of_shrinks close (c ∷ d ∷ s) =
    ground (arith, end_of_shrinks close s, end_of_shrinks close (d ∷ s))

skip_line_shrinks : (s : Text) → length (skip_line s) ≤ length s
unfolding skip_line
skip_line_shrinks [] = omega arith
skip_line_shrinks (c ∷ s) = ground (arith, skip_line_shrinks s)

skip_block_shrinks : (depth : ℕ) (s : Text) → length (skip_block depth s) ≤ length s
unfolding skip_block
skip_block_shrinks depth [] = omega arith
skip_block_shrinks depth (c ∷ []) = omega arith
skip_block_shrinks depth (c ∷ d ∷ s) = ground (
  arith,
  skip_block_shrinks (suc depth) s,
  skip_block_shrinks (depth - 1) s,
  skip_block_shrinks depth (d ∷ s),
)

skip_comment_shrinks :
    (c : ℕ) (s : Text)
    → (c == b'/' && next_is b'*' s) ≡ true
    → length (skip_block 0 (c ∷ s)) ≤ length s
unfolding skip_block
skip_comment_shrinks c [] h = omega arith
skip_comment_shrinks c (d ∷ s) h = ground (arith, skip_block_shrinks 1 s)

skip_dashes_shrinks :
    (c : ℕ) (s : Text)
    → (c == b'-' && next_is b'-' s) ≡ true
    → length (skip_line (c ∷ s)) ≤ length s
unfolding skip_line
skip_dashes_shrinks c s h = ground (arith, skip_line_shrinks s)

pub token_shrinks : (c : ℕ) (s : Text) → length (token c s).1 ≤ length s
unfolding token
token_shrinks c s = ground (
  arith,
  skip_dashes_shrinks c s,
  skip_comment_shrinks c s,
  end_of_shrinks quote s,
  end_of_shrinks (close_of c) s,
)

-- Any fuel that covers the text gives the same result.
pub strip_from_fuel :
    (n m : ℕ) (s : Text) → length s ≤ n → length s ≤ m → strip_from n s ≡ strip_from m s
unfolding strip_from
strip_from_fuel zero zero s h k = refl
strip_from_fuel zero (suc m) [] h k = refl
strip_from_fuel (suc n) zero [] h k = refl
strip_from_fuel (suc n) (suc m) [] h k = refl
strip_from_fuel zero (suc m) (c ∷ s) h k = absurd (omega arith)
strip_from_fuel (suc n) zero (c ∷ s) h k = absurd (omega arith)
strip_from_fuel (suc n) (suc m) (c ∷ s) h k =
    ap (λ t. (token c s).0 ++ t)
      (strip_from_fuel n m (token c s).1 (omega (arith, token_shrinks c s))
        (omega (arith, token_shrinks c s)))

pub strip_noise-cons :
    (c : ℕ) (s : Text) → strip_noise (c ∷ s) ≡ (token c s).0 ++ strip_noise (token c s).1
unfolding strip_noise strip_from
strip_noise-cons c s =
    ap (λ t. (token c s).0 ++ t)
      (strip_from_fuel (length s) (length (token c s).1) (token c s).1 (token_shrinks c s)
        (omega arith))

pub strip_noise-nil : strip_noise [] ≡ []
unfolding strip_noise
strip_noise-nil = refl

-- Induction over the rounds.
pub token_induction {ℓ} :
    (P : Text → Type ℓ)
    → P []
    → ((c : ℕ) (s : Text) → P (token c s).1 → P (c ∷ s))
    → (n : ℕ) (s : Text) → length s ≤ n
    → P s
token_induction P base step n [] h = base
token_induction P base step zero (c ∷ s) h = absurd (omega arith)
token_induction P base step (suc n) (c ∷ s) h =
    step c s (token_induction P base step n (token c s).1 (omega (arith, token_shrinks c s)))
