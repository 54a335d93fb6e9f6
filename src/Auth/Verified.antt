-- ===== src/Auth/Verified.antt =====
-- Whom a request that reaches the handlers of services/dba-mcp/src/index.ts comes from.
use mssql_data_api.Prelude.{
  ℕ, Bool, true, false, Option, none, some, List, [], ◌∷◌, any, All, ◌≡◌, refl, sym, ap, subst,
  Bool-cases, inl, inr, some-injective,
}
use mssql_data_api.Prelude.Text.{Text, codes, eq_text}
use mssql_data_api.Pools.Login.{Entra, is_blank}
use mssql_data_api.Auth.{
  Config, Payload, AuthInfo, scopes_of, missing_scope, info_of, with_scopes, valid_resource,
  verified, verify_access_token, admitted, bearer_auth, passed, guard, identity_from_auth,
  context_from_request, or_else,
}

-- The token is valid for the issuer and the audience, has every required scope, and says who it is.
pub record IsVerified (jwt : Text → Text → Text → Option Payload) (c : Config) (e : Entra)
    : Type 0 where
  pub payload : Payload
  pub valid : jwt c.issuer c.audience e.token ≡ some payload
  pub scoped : All (λ need. any (λ s. eq_text s need) (scopes_of payload) ≡ true) c.required_scopes
  pub same_oid : e.oid ≡ payload.oid
  pub same_upn : e.upn ≡ or_else payload.upn payload.preferred_username

-- What a request shows in its context.
abbrev pub Identified :
    (Text → Text → Text → Option Payload) → Config → Option Text → Option Entra → Type 0
Identified jwt c bearer none = ⊥
Identified jwt c bearer (some e) = (bearer ≡ some e.token) × IsVerified jwt c e

none_missing :
    (needs scopes : List Text)
    → missing_scope needs scopes ≡ none
    → All (λ need. any (λ s. eq_text s need) scopes ≡ true) needs
unfolding missing_scope
none_missing [] scopes h = tt
none_missing (need ∷ l) scopes h = elim (Bool-cases (any (λ s. eq_text s need) scopes)) [
  | inl e ↦ (e, none_missing l scopes (rw e at h))
  | inr e ↦ cc (rw e at h)
]

module _ (jwt : Text → Text → Text → Option Payload) (is_url : Text → Bool)
    (admits : AuthInfo → Bool) (c : Config) where
  verify-IsVerified :
      (token : Text) (i : AuthInfo)
      → verify_access_token jwt is_url admits c token ≡ some i
      → (i.entra.token ≡ token) × IsVerified jwt c i.entra
  unfolding verify_access_token
  verify-IsVerified token i h = go (jwt c.issuer c.audience token) refl h
    where
      taken : (b : Bool) (x : AuthInfo) → with_scopes none b x ≡ some i → some x ≡ some i
      taken true x e = e
      taken false x e = cc e

      scopes :
          (p : Payload) (o : Option Text)
          → jwt c.issuer c.audience token ≡ some p
          → missing_scope c.required_scopes (scopes_of p) ≡ o
          → with_scopes o (valid_resource is_url c) (info_of token p) ≡ some i
          → (i.entra.token ≡ token) × IsVerified jwt c i.entra
      scopes p none j m e =
          subst (λ x. (x.entra.token ≡ token) × IsVerified jwt c x.entra)
            (some-injective (taken (valid_resource is_url c) (info_of token p) e))
            (
              refl,
              record {
                payload = p;
                valid = j;
                scoped = none_missing c.required_scopes (scopes_of p) m;
                same_oid = refl;
                same_upn = refl;
              },
            )
      scopes p (some need) j m e = cc e

      go :
          (o : Option Payload)
          → jwt c.issuer c.audience token ≡ o
          → verified is_url c token o ≡ some i
          → (i.entra.token ≡ token) × IsVerified jwt c i.entra
      go none j e = cc e
      go (some p) j e = scopes p (missing_scope c.required_scopes (scopes_of p)) j refl e

  admitted-some :
      (o : Option AuthInfo) (i : AuthInfo) → admitted jwt is_url admits o ≡ some i → o ≡ some i
  admitted-some none i h = cc h
  admitted-some (some j) i h = elim (Bool-cases (admits j)) [
    | inl e ↦ rw e at h
    | inr e ↦ cc (rw e at h)
  ]

  identity-Identified :
      (d : ℕ) (s : Text) (i : AuthInfo)
      → (i.entra.token ≡ d ∷ s) × IsVerified jwt c i.entra
      → Identified jwt c (some (d ∷ s)) (identity_from_auth (some i))
  unfolding identity_from_auth
  identity-Identified d s i (t, v) = rw (ap is_blank t) (ap some (sym t), v)

  -- In the mode `required`, whoever reaches a handler of /mcp is identified: the context of the
  -- request carries its bearer token, which is valid for the configured issuer and audience and has
  -- every required scope, with the object id and the name that the token gives.
  pub guard-Identified :
      (bearer user password : Option Text) (auth : Option AuthInfo)
      → eq_text c.mode (codes "required") ≡ true
      → guard jwt is_url admits c bearer ≡ some auth
      → Identified jwt c bearer (context_from_request user password auth).entra
  unfolding guard context_from_request
  guard-Identified bearer user password auth m h = go bearer (rw m at h)
    where
      let_in :
          (d : ℕ) (s : Text) (o : Option AuthInfo)
          → admitted jwt is_url admits (verify_access_token jwt is_url admits c (d ∷ s)) ≡ o
          → passed jwt is_url admits o ≡ some auth
          → Identified jwt c (some (d ∷ s)) (identity_from_auth auth)
      let_in d s none a e = cc e
      let_in d s (some i) a e =
          subst (λ x. Identified jwt c (some (d ∷ s)) (identity_from_auth x)) (some-injective e)
            (identity-Identified d s i (
              verify-IsVerified (d ∷ s) i
                (admitted-some (verify_access_token jwt is_url admits c (d ∷ s)) i a)))

      go :
          (b : Option Text)
          → passed jwt is_url admits (bearer_auth jwt is_url admits c b) ≡ some auth
          → Identified jwt c b (identity_from_auth auth)
      go none e = cc e
      go (some []) e = cc e
      go (some (d ∷ s)) e =
          let_in d s (admitted jwt is_url admits (verify_access_token jwt is_url admits c (d ∷ s)))
            refl e
