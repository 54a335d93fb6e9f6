-- ===== src/Credentials/Sources.antt =====
-- Where the passwords of services/dba-mcp/src/connectionManager.ts come from.
use mssql_data_api.Prelude.{
  Bool, true, Option, none, some, List, [], ◌∷◌, Bool-cases, any, inl, inr, ◌≡◌, refl, ◌↔◌,
}
use mssql_data_api.Credentials.Memo.{
  Env, Memo, Reading, Entry, Normal, credential_for, from_env, password_of,
  is_plaintext_password_literal, normalize, before, or_read_only, password,
}

-- Every access gives the password of the credential store, else that of the environment.
abbrev pub Sourced : Normal → Type 0
Sourced n =
    (env : Env) (read : Reading) (m : Memo)
    → (password env read n m).0
      ≡ some (
          from_env (password_of (credential_for env read n.entry.cred_target m).0) env.sql_password)

abbrev pub is_literal : Entry → Bool
is_literal i = is_plaintext_password_literal i.password

before-none : (n : Normal) (o : Option (List Normal)) → before n o ≡ none → o ≡ none
before-none n none h = refl
before-none n (some l) h = cc h

-- The fleet is refused as a whole exactly where some entry has a password that is neither empty nor
-- a placeholder.
pub normalize-refuses : (l : List Entry) → (normalize l ≡ none) ↔ (any is_literal l ≡ true)
unfolding normalize
normalize-refuses [] = (λ h. cc h, λ h. cc h)
normalize-refuses (i ∷ l) = elim (Bool-cases (is_plaintext_password_literal i.password)) [
  | inl e ↦ rw e (λ h. refl, λ h. refl)
  | inr e ↦ rw e (
    λ h. (normalize-refuses l).0 (
        before-none (record { entry = i; intent = or_read_only i.application_intent }) (normalize l)
          h),
    λ h. rw ((normalize-refuses l).1 h) refl,
  )
]
