-- ===== src/Safety/Lexer/Laws.antt =====
-- What `stripNoise` of services/dba-mcp/src/safety.ts does to a whole query.
use mssql_data_api.Prelude.{
  ℕ, ◌≡◌, refl, ap, ◌∙◌, ◌≢◌, true, false, ◌&&◌, ◌||◌, [], ◌∷◌, ◌++◌, arith, ◌==◌, length,
  Bool-cases, inl, inr,
}
use mssql_data_api.Prelude.Text.{Text}
use mssql_data_api.Safety.Lexer.{
  space, quote, end_of, close_of, next_is, token, strip_noise, skip_line, skip_block,
}
use mssql_data_api.Safety.Lexer.Steps.{strip_noise-cons, strip_noise-nil, token_induction}

-- After a delimited part the closing delimiter does not follow.
pub end_of_closes : (close : ℕ) (s : Text) → next_is close (end_of close s).1 ≡ false
unfolding end_of
end_of_closes close [] = refl
end_of_closes close (c ∷ []) = refl
end_of_closes close (c ∷ d ∷ s) = ground (arith, end_of_closes close s, end_of_closes close (d ∷ s))

-- The rounds of `endOf` as equations.
pub end_of_other :
    (close c : ℕ) (s : Text)
    → (c == close) ≡ false
    → end_of close (c ∷ s) ≡ (c ∷ (end_of close s).0, (end_of close s).1)
unfolding end_of
end_of_other close c [] h = refl
end_of_other close c (d ∷ s) h = rw h

pub end_of_doubled :
    (close c d : ℕ) (s : Text)
    → (c == close) ≡ true
    → (d == close) ≡ true
    → end_of close (c ∷ d ∷ s) ≡ (c ∷ d ∷ (end_of close s).0, (end_of close s).1)
unfolding end_of
end_of_doubled close c d s h k = rw (h, k)

pub end_of_single :
    (close c : ℕ) (s : Text)
    → (c == close) ≡ true
    → next_is close s ≡ false
    → end_of close (c ∷ s) ≡ (c ∷ [], s)
unfolding end_of
end_of_single close c [] h k = refl
end_of_single close c (d ∷ s) h k = rw (h, k)

end_of-nil : (close : ℕ) → end_of close [] ≡ ([], [])
unfolding end_of
end_of-nil close = refl

-- Any other text can stand behind a delimited part, if it does not begin with the delimiter and
-- is empty where the part was the last.
pub end_of-append :
    (close : ℕ) (s x : Text)
    → next_is close x ≡ false
    → ((end_of close s).1 ≡ [] → x ≡ [])
    → end_of close ((end_of close s).0 ++ x) ≡ ((end_of close s).0, x)
end_of-append close [] x h k =
    let e = k (rw (end_of-nil close)) in rw (e, end_of-nil close) (end_of-nil close)
end_of-append close (c ∷ []) x h k = elim (Bool-cases (c == close)) [
  | inl same ↦ rw (end_of_single close c [] same refl) (end_of_single close c x same h)
  | inr other ↦ rw (end_of_other close c [] other) (
      end_of_other close c ((end_of close []).0 ++ x) other
      ∙ ap (λ p. (c ∷ p.0, p.1))
          (end_of-append close [] x h (λ e. k (rw (end_of_other close c [] other) e))))
]
end_of-append close (c ∷ d ∷ s) x h k = elim (Bool-cases (c == close)) [
  | inl same ↦ elim (Bool-cases (d == close)) [
    | inl twice ↦ rw (end_of_doubled close c d s same twice) (
        end_of_doubled close c d ((end_of close s).0 ++ x) same twice
        ∙ ap (λ p. (c ∷ d ∷ p.0, p.1))
            (end_of-append close s x h (λ e. k (rw (end_of_doubled close c d s same twice) e))))
    | inr once ↦ rw (end_of_single close c (d ∷ s) same once) (end_of_single close c x same h)
  ]
  | inr other ↦ rw (end_of_other close c (d ∷ s) other) (
      end_of_other close c ((end_of close (d ∷ s)).0 ++ x) other
      ∙ ap (λ p. (c ∷ p.0, p.1))
          (end_of-append close (d ∷ s) x h (λ e. k (rw (end_of_other close c (d ∷ s) other) e))))
]

-- No round but that of a comment begins its output with another character than its input.
token-head :
    (x c : ℕ) (s t : Text) → x ≢ space → (c == x) ≡ false → next_is x ((token c s).0 ++ t) ≡ false
unfolding token
token-head x c s t h e = ground arith

pub next_is-strip_noise :
    (x : ℕ) (s : Text) → x ≢ space → next_is x s ≡ false → next_is x (strip_noise s) ≡ false
next_is-strip_noise x [] h e = rw strip_noise-nil
next_is-strip_noise x (c ∷ s) h e =
    rw (strip_noise-cons c s) (token-head x c s (strip_noise (token c s).1) h e)

-- The kinds of round.
data Round (c : ℕ) (s : Text) : Text × Text → Type 0 where
  comment : (rest : Text) → Round c s (space ∷ [], rest)
  literal : Round c s (quote ∷ quote ∷ [], (end_of quote s).1)
  delimited :
      (c == b'[' || c == b'"') ≡ true
      → Round c s (c ∷ (end_of (close_of c) s).0, (end_of (close_of c) s).1)
  plain :
      (c == b'-' && next_is b'-' s) ≡ false
      → (c == b'/' && next_is b'*' s) ≡ false
      → (c == quote) ≡ false
      → (c == b'[' || c == b'"') ≡ false
      → Round c s (c ∷ [], s)

token-Round : (c : ℕ) (s : Text) → Round c s (token c s)
unfolding token
token-Round c s = elim (Bool-cases (c == b'-' && next_is b'-' s)) [
  | inl a ↦ rw a (comment (skip_line (c ∷ s)))
  | inr a ↦ elim (Bool-cases (c == b'/' && next_is b'*' s)) [
    | inl b ↦ rw (a, b) (comment (skip_block 0 (c ∷ s)))
    | inr b ↦ elim (Bool-cases (c == quote)) [
      | inl d ↦ rw (a, b, d) literal
      | inr d ↦ elim (Bool-cases (c == b'[' || c == b'"')) [
        | inl e ↦ rw (a, b, d, e) (delimited e)
        | inr e ↦ rw (a, b, d, e) (plain a b d e)
      ]
    ]
  ]
]

-- A text that may stand behind a round in place of what followed: it begins alike, but for a
-- space, and is empty where nothing followed.
record Follows (rest x : Text) : Type 0 where
  alike : (d : ℕ) → d ≢ space → next_is d rest ≡ false → next_is d x ≡ false
  ended : rest ≡ [] → x ≡ []

-- The output of a round is read again by one round, as it is.
abbrev ReadsBack : Text → Text → Type 0
ReadsBack out x = strip_noise (out ++ x) ≡ out ++ strip_noise x

reads_back : (c : ℕ) (o x : Text) → token c (o ++ x) ≡ (c ∷ o, x) → ReadsBack (c ∷ o) x
reads_back c o x e = strip_noise-cons c (o ++ x) ∙ ap (λ p. p.0 ++ strip_noise p.1) e

token-delimited :
    (c : ℕ) (t x : Text)
    → (c == b'[' || c == b'"') ≡ true
    → end_of (close_of c) (t ++ x) ≡ (t, x)
    → token c (t ++ x) ≡ (c ∷ t, x)
unfolding token
token-delimited c t x h e = ground arith

token-plain :
    (c : ℕ) (s x : Text)
    → Follows s x
    → (c == b'-' && next_is b'-' s) ≡ false
    → (c == b'/' && next_is b'*' s) ≡ false
    → (c == quote) ≡ false
    → (c == b'[' || c == b'"') ≡ false
    → token c x ≡ (c ∷ [], x)
unfolding token
token-plain c s x f h k l m = ground (arith, f.alike b'-' (omega arith), f.alike b'*' (omega arith))

token-literal :
    (x : Text) → next_is quote x ≡ false → token quote (quote ∷ x) ≡ (quote ∷ quote ∷ [], x)
unfolding token
token-literal x h = rw (end_of_single quote quote x refl h)

Round-ReadsBack :
    {c : ℕ} {s : Text} {p : Text × Text} (x : Text) → Round c s p → Follows p.1 x → ReadsBack p.0 x
Round-ReadsBack x (comment rest) f = reads_back space [] x (unfold token in refl)
Round-ReadsBack {s = s} x literal f =
    reads_back quote (quote ∷ []) x
      (token-literal x (f.alike quote (omega arith) (end_of_closes quote s)))
Round-ReadsBack {c = c} {s = s} x (delimited h) f = reads_back c (end_of (close_of c) s).0 x (
    token-delimited c (end_of (close_of c) s).0 x h (
      end_of-append (close_of c) s x
        (f.alike (close_of c) (ground arith) (end_of_closes (close_of c) s)) f.ended))
Round-ReadsBack {c = c} {s = s} x (plain h k l m) f =
    reads_back c [] x (token-plain c s x f h k l m)

strip_noise-Follows : (s : Text) → Follows s (strip_noise s)
strip_noise-Follows s = record {
  alike = λ d h e. next_is-strip_noise d s h e;
  ended = λ e. rw e strip_noise-nil;
}

-- Stripping a query that is stripped already changes nothing.
pub strip_noise_idempotent : (query : Text) → strip_noise (strip_noise query) ≡ strip_noise query
strip_noise_idempotent query =
    token_induction (λ s. strip_noise (strip_noise s) ≡ strip_noise s)
      (rw strip_noise-nil strip_noise-nil) step (length query) query (omega arith)
  where
    step :
        (c : ℕ) (s : Text)
        → strip_noise (strip_noise (token c s).1) ≡ strip_noise (token c s).1
        → strip_noise (strip_noise (c ∷ s)) ≡ strip_noise (c ∷ s)
    step c s ih = rw (strip_noise-cons c s) (
        Round-ReadsBack (strip_noise (token c s).1) (token-Round c s)
          (strip_noise-Follows (token c s).1)
        ∙ ap (λ t. (token c s).0 ++ t) ih)
