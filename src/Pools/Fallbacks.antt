-- ===== src/Pools/Fallbacks.antt =====
-- When `getPool` of services/dba-mcp/src/connectionManager.ts falls back to another database, and how
-- long the pool stays.
use mssql_data_api.Prelude.{
  [], ◌∷◌, ℕ, ◌≤◌, true, false, Option, none, some, ◌≡◌, ◌≢◌, refl, sym, ap, ◌∙◌, some-injective,
  Bool-cases, inl, inr, inr-injective, subst, arith,
}
use mssql_data_api.Prelude.Text.{Text, codes, eq_text}
use mssql_data_api.Prelude.Dict.{eq_text_sound}
use mssql_data_api.Pools.Errors.{Thrown}
use mssql_data_api.Pools.Login.{is_blank, Auth, sql_login, entra_token, Site, Plan}
use mssql_data_api.Pools.Table.{
  unasked, exchanged, Pool, Measured, unread, unseen, online, in_state, fallback_pool, dial,
  dialled, retried, judged, missing, stated, Answers, Attempt, up, down, may_fall_back, Row,
  can_see_catalog, fallback_ttl_ms,
}

-- What the probe of `sys.databases` answered.
abbrev pub Answered : Text → Measured → Option Row → Type 0
Answered message unasked probe = message ≡ []
Answered message unread probe = probe ≡ none
Answered message unseen probe =
    (r : Row) × (probe ≡ some r) × (r.state_desc ≡ none) × (r.visible ≤ 4)
Answered message online probe =
    (r : Row) × (probe ≡ some r) × (r.state_desc ≡ some (codes "ONLINE"))
Answered message (in_state s) probe = (r : Row) × (probe ≡ some r) × (r.state_desc ≡ some s)

-- No probe that sees more than the databases of the system misses this one.
abbrev pub IsThere : Option Row → Type 0
IsThere probe = (r : Row) → probe ≡ some r → r.state_desc ≡ none → r.visible ≤ 4

stateless : (q r : Row) (s : Text) → q ≡ r → q.state_desc ≡ some s → r.state_desc ≡ none → ⊥
stateless q r s e h k = cc (ap (λ x. x.state_desc) e, h, k)

answered-IsThere :
    (message : Text) (m : Measured) (probe : Option Row)
    → Answered message m probe
    → message ≢ []
    → IsThere probe
answered-IsThere message unasked probe h n r p d = absurd (n h)
answered-IsThere message unread probe h n r p d = cc
answered-IsThere message unseen probe (q, e, s, v) n r p d =
    subst (λ x. x.visible ≤ 4) (some-injective (sym e ∙ p)) v
answered-IsThere message online probe (q, e, s) n r p d =
    absurd (stateless q r (codes "ONLINE") (some-injective (sym e ∙ p)) s d)
answered-IsThere message (in_state t) probe (q, e, s) n r p d =
    absurd (stateless q r t (some-injective (sym e ∙ p)) s d)

-- What the reason of a pool says of the connections that led to it.
abbrev pub Explained :
    (Text → Text) → Site → Plan → Answers → Text → Option (Text × Measured) → Type 0
Explained lower site pl a database none = database ≡ pl.database
Explained lower site pl a database (some (message, m)) =
    (database ≡ site.fallback_database)
    × (e : Thrown) × (a.first ≡ down e)
    × (message ≡ e.message)
    × (may_fall_back lower site pl e ≡ true)
    × Answered message m a.probe
    × (message ≢ [] → IsThere a.probe)

abbrev pub IsSound : (Text → Text) → Site → Plan → Answers → Pool → Type 0
IsSound lower site pl a p = (p.plan ≡ pl) × Explained lower site pl a p.database p.fallback_reason

blank : (s : Text) → is_blank s ≡ true → s ≡ []
blank [] h = refl
blank (c ∷ s) h = cc h

few : (r : Row) → can_see_catalog r ≡ false → r.visible ≤ 4
unfolding can_see_catalog
few r c = grind arith

module _ (lower : Text → Text) (site : Site) (pl : Plan) (a : Answers) where
  module _ (e : Thrown) (f : a.first ≡ down e) (may : may_fall_back lower site pl e ≡ true) where
    fallback-IsSound :
        (n : ℕ) (m : Measured) (p : Pool)
        → Answered e.message m a.probe
        → fallback_pool site pl n e.message m ≡ inr p
        → IsSound lower site pl a p
    fallback-IsSound n m p w h =
        subst (IsSound lower site pl a) (inr-injective h)
          (refl, (refl, e, f, refl, may, w, answered-IsThere e.message m a.probe w))

    stated-IsSound :
        (n : ℕ) (r : Row) (o : Option Text) (p : Pool)
        → a.probe ≡ some r
        → r.state_desc ≡ o
        → stated site pl n e.message r o ≡ inr p
        → IsSound lower site pl a p
    unfolding missing
    stated-IsSound n r none p w d h = elim (Bool-cases (can_see_catalog r)) [
      | inl c ↦ cc (rw c at h)
      | inr c ↦ fallback-IsSound n unseen p (r, w, d, few r c) (rw c at h)
    ]
    stated-IsSound n r (some s) p w d h = elim (Bool-cases (eq_text s (codes "ONLINE"))) [
      | inl c ↦
          fallback-IsSound n online p (r, w, rw (← (eq_text_sound s (codes "ONLINE") c)) d)
            (rw c at h)
      | inr c ↦ fallback-IsSound n (in_state s) p (r, w, d) (rw c at h)
    ]

    judged-IsSound :
        (n : ℕ) (o : Option Row) (p : Pool)
        → a.probe ≡ o
        → judged site pl n e.message o ≡ inr p
        → IsSound lower site pl a p
    unfolding judged
    judged-IsSound n none p w h = fallback-IsSound n unread p w h
    judged-IsSound n (some r) p w h = stated-IsSound n r r.state_desc p w refl h

    retried-IsSound :
        (t : Attempt) (p : Pool) → retried site pl e t a.probe ≡ inr p → IsSound lower site pl a p
    unfolding retried
    retried-IsSound (up n) p h = elim (Bool-cases (is_blank e.message)) [
      | inl b ↦ fallback-IsSound n unasked p (blank e.message b) (rw b at h)
      | inr b ↦ judged-IsSound n a.probe p refl (rw b at h)
    ]
    retried-IsSound (down f) p h = cc h

  -- A pool is on its configured database, or on that of the fallback: then the first connection was
  -- refused with an error that tells of the database, falling back is on and would change something, and
  -- the reason has the message of the error and what the probe answered. Where that message is not empty,
  -- a database that the probe shows to be missing, though it sees others than the system's, has no such
  -- pool; with an empty message the probe is not asked, and its answer says nothing of the pool.
  pub dial-IsSound : (p : Pool) → dial lower site pl a ≡ inr p → IsSound lower site pl a p
  unfolding dial dialled
  dial-IsSound p h = go a.first refl (token pl.login.auth a.no_obo h)
    where
      token :
          (t : Auth) (o : Option Text)
          → exchanged t o (dialled lower site pl a.first a.second a.probe) ≡ inr p
          → dialled lower site pl a.first a.second a.probe ≡ inr p
      token (sql_login u q) o k = k
      token (entra_token t) none k = k
      token (entra_token t) (some m) k = cc k

      go :
          (t : Attempt)
          → a.first ≡ t
          → dialled lower site pl t a.second a.probe ≡ inr p
          → IsSound lower site pl a p
      go (up n) f h = subst (IsSound lower site pl a) (inr-injective h) (refl, refl)
      go (down e) f h = elim (Bool-cases (may_fall_back lower site pl e)) [
        | inl b ↦ retried-IsSound e f b a.second p (rw b at h)
        | inr b ↦ cc (rw b at h)
      ]

-- Whatever SQL_CATALOG_FALLBACK_TTL_MS says, the timer gets a time that `setTimeout` keeps, of a
-- second or more.
pub fallback_ttl_ms-bounded :
    (o : Option ℕ) → (1000 ≤ fallback_ttl_ms o) × (fallback_ttl_ms o ≤ 2147483647)
unfolding fallback_ttl_ms
fallback_ttl_ms-bounded none = omega arith
fallback_ttl_ms-bounded (some n) = omega arith
