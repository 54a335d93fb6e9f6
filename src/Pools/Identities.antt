-- ===== src/Pools/Identities.antt =====
-- As whom the pools of services/dba-mcp/src/connectionManager.ts connect, and who shares one.
use mssql_data_api.Prelude.{
  true, false, ◌&&◌, Option, none, some, [], ◌∷◌, ◌≡◌, refl, Bool-cases, inl, inr, inr-injective,
  ◌⊎◌, subst, some-injective,
}
use mssql_data_api.Prelude.Text.{Text}
use mssql_data_api.Pools.Login.{
  Site, Config, Context, Entra, Auth, sql_login, entra_token, Login, context_user, context_password,
  context_entra, with_token, use_entra, sql_credentials, login_with, login, or_text, is_blank,
}

-- The connection is made with what the request itself carries.
abbrev pub IsOwn : Option Context → Auth → Type 0
IsOwn ctx (sql_login user password) =
    (user ≡ context_user ctx)
    × (password ≡ context_password ctx)
    × (is_blank user ≡ false)
    × (is_blank password ≡ false)
IsOwn ctx (entra_token e) = (context_entra ctx ≡ some e) × (is_blank e.token ≡ false)

or_text_left : (s t : Text) → is_blank s ≡ false → or_text s t ≡ s
or_text_left [] t h = cc h
or_text_left (c ∷ s) t h = refl

sql-IsOwn :
    (site : Site) (cfg : Config) (ctx : Option Context) (l : Login)
    → site.is_http ≡ true
    → sql_credentials site cfg ctx ≡ inr l
    → IsOwn ctx l.auth
unfolding sql_credentials
sql-IsOwn site cfg ctx l h e =
    go (Bool-cases (is_blank (context_user ctx))) (Bool-cases (is_blank (context_password ctx)))
  where
    go :
        ((is_blank (context_user ctx) ≡ true) ⊎ (is_blank (context_user ctx) ≡ false))
        → ((is_blank (context_password ctx) ≡ true) ⊎ (is_blank (context_password ctx) ≡ false))
        → IsOwn ctx l.auth
    go (inl u) p = cc (rw (h, u) at e)
    go (inr u) (inl p) = cc (rw (h, u, p) at e)
    go (inr u) (inr p) =
        let f : inr (record {
          identity = context_user ctx;
          auth = sql_login (context_user ctx) (context_password ctx);
        })
            ≡ inr l =
          rw
            (
              h,
              u,
              p,
              or_text_left (context_user ctx) cfg.user u,
              or_text_left (context_password ctx) cfg.password p,
              u,
              p,
            )
            at e in
        subst (λ x. IsOwn ctx x.auth) (inr-injective f) (refl, refl, u, p)

token-own :
    (o : Option Entra) (e : Entra)
    → with_token o ≡ some e
    → (o ≡ some e) × (is_blank e.token ≡ false)
token-own none e h = cc h
token-own (some f) e h = elim (Bool-cases (is_blank f.token)) [
  | inl b ↦ cc (rw b at h)
  | inr b ↦ (rw b at h, subst (λ x. is_blank x.token ≡ false) (some-injective (rw b at h)) b)
]

entra-own :
    (site : Site) (cfg : Config) (ctx : Option Context) (e : Entra)
    → use_entra site cfg ctx ≡ some e
    → (context_entra ctx ≡ some e) × (is_blank e.token ≡ false)
unfolding use_entra
entra-own site cfg ctx e h = elim (Bool-cases (site.obo_enabled && cfg.entra_auth)) [
  | inl b ↦ token-own (context_entra ctx) e (rw b at h)
  | inr b ↦ cc (rw b at h)
]

-- On the HTTP transport, whatever the fleet and the process have configured, a connection that
-- `getPool` makes carries the user and the password of the request, neither of them empty, or the
-- token of the request: never the credential of the server.
pub login-IsOwn :
    (site : Site) (cfg : Config) (ctx : Option Context) (l : Login)
    → site.is_http ≡ true
    → login site cfg ctx ≡ inr l
    → IsOwn ctx l.auth
unfolding login
login-IsOwn site cfg ctx l h = go (use_entra site cfg ctx) refl
  where
    go :
        (o : Option Entra)
        → use_entra site cfg ctx ≡ o
        → login_with site cfg ctx o ≡ inr l
        → IsOwn ctx l.auth
    go none u e = sql-IsOwn site cfg ctx l h e
    go (some t) u e = subst (λ x. IsOwn ctx x.auth) (inr-injective e) (entra-own site cfg ctx t u)
