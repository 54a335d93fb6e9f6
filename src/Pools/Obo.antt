-- ===== src/Pools/Obo.antt =====
-- `getOboSqlToken` of services/dba-mcp/src/connectionManager.ts: the cache of the tokens that Entra
-- gives for SQL Server. `exchange` is what the exchange gives at the time of a call: a token and the
-- time at which it expires; none is an exception or an answer without a token.
use mssql_data_api.Prelude.{
  ℕ, ◌+◌, ◌<◌, ltb, length, Bool, true, false, Option, none, some, List, [], ◌∷◌, if◌then◌else◌,
  ◌≡◌, refl, Bool-cases, inl, inr, ◌⊎◌, arith, sym, ◌∙◌, some-injective,
}
use mathlib.Core.List.{Memᴰ}
use mssql_data_api.Prelude.Text.{Text, eq_text}
use mssql_data_api.Prelude.Dict.{Dict, get, set, get-set, eq_text_sound}
use mssql_data_api.Pools.Login.{Entra, or_default}

pub record Token : Type 0 where
  pub token : Text
  pub expires_at : ℕ

-- `s.slice(-n)`
unfoldable pub last : ℕ → Text → Text
last n [] = []
last n (c ∷ s) = let rest = last n s in if ltb n (length (c ∷ s)) then rest else c ∷ s

unfoldable pub cache_key : Entra → Text
unfolding last
cache_key e = or_default e.oid (last 32 e.token)

-- `cached.expiresAt - 120_000 > Date.now()`
abbrev pub is_fresh : ℕ → Token → Bool
is_fresh now t = ltb (now + 120000) t.expires_at

abbrev pub fresh : ℕ → Option Token → Option Token
fresh now none = none
fresh now (some t) = if is_fresh now t then some t else none

abbrev pub learned : Text → Option Token → Dict Token → Option Text × Dict Token
learned key none s = (none, s)
learned key (some t) s = (some t.token, set key t s)

abbrev pub or_exchange :
    Bool → Text → Option Token → Option Token → Dict Token → Option Text × Dict Token
or_exchange has_client key (some t) exchange s = (some t.token, s)
or_exchange has_client key none exchange s =
    if has_client then learned key exchange s else (none, s)

unfoldable pub get_obo_sql_token :
    Bool → Entra → ℕ → Option Token → Dict Token → Option Text × Dict Token
unfolding cache_key get set
get_obo_sql_token has_client e now exchange s =
    or_exchange has_client (cache_key e) (fresh now (get (cache_key e) s)) exchange s

pub record Call : Type 0 where
  pub entra : Entra
  pub now : ℕ
  pub exchange : Option Token

unfoldable pub run : Bool → List Call → Dict Token → Dict Token
unfolding get_obo_sql_token
run has_client [] s = s
run has_client (c ∷ l) s =
    run has_client l (get_obo_sql_token has_client c.entra c.now c.exchange s).1

-- Some call of a history got a token from the exchange under a key.
abbrev pub Exchanged : List Call → Text → Token → Type 0
Exchanged l key t = (c : Call) × Memᴰ c l × (cache_key c.entra ≡ key) × (c.exchange ≡ some t)

from-learned :
    (key k : Text) (o : Option Token) (s : Dict Token) (t : Token)
    → get k (learned key o s).1 ≡ some t
    → (get k s ≡ some t) ⊎ ((key ≡ k) × (o ≡ some t))
from-learned key k none s t h = inl h
from-learned key k (some x) s t h = go (Bool-cases (eq_text key k)) (get-set key k x s)
  where
    go :
        ((eq_text key k ≡ true) ⊎ (eq_text key k ≡ false))
        → get k (set key x s) ≡ (if eq_text key k then some x else get k s)
        → (get k s ≡ some t) ⊎ ((key ≡ k) × (some x ≡ some t))
    go (inl e) g = inr (eq_text_sound key k e, sym (rw e at g) ∙ h)
    go (inr e) g = inl (sym (rw e at g) ∙ h)

from-call :
    (b : Bool) (key k : Text) (f o : Option Token) (s : Dict Token) (t : Token)
    → get k (or_exchange b key f o s).1 ≡ some t
    → (get k s ≡ some t) ⊎ ((key ≡ k) × (o ≡ some t))
from-call b key k (some x) o s t h = inl h
from-call true key k none o s t h = from-learned key k o s t h
from-call false key k none o s t h = inl h

run-Exchanged :
    (b : Bool) (l : List Call) (s : Dict Token) (k : Text) (t : Token)
    → get k (run b l s) ≡ some t
    → (get k s ≡ some t) ⊎ Exchanged l k t
unfolding run get_obo_sql_token
run-Exchanged b [] s k t h = inl h
run-Exchanged b (c ∷ l) s k t h =
    elim (run-Exchanged b l (get_obo_sql_token b c.entra c.now c.exchange s).1 k t h) [
      | inl g ↦
          elim (from-call b (cache_key c.entra) k (fresh c.now (get (cache_key c.entra) s))
            c.exchange s t g) [ inl e ↦ inl e | inr e ↦ inr (c, Memᴰ.head refl, e.0, e.1) ]
      | inr e ↦ inr (e.0, Memᴰ.tail e.1, e.2, e.3)
    ]

fresh-later : (now : ℕ) (x : Token) → is_fresh now x ≡ true → now + 120000 < x.expires_at
fresh-later now x h = grind arith

-- A token that a call gets comes from the exchange of this call, or of an earlier call under the same
-- cache key, and then it is good for more than two minutes.
pub get_obo_sql_token-fresh :
    (b : Bool) (l : List Call) (c : Call) (t : Text)
    → (get_obo_sql_token b c.entra c.now c.exchange (run b l [])).0 ≡ some t
    → (x : Token) × (x.token ≡ t)
      × ((c.exchange ≡ some x)
          ⊎ ((c.now + 120000 < x.expires_at) × Exchanged l (cache_key c.entra) x))
unfolding get_obo_sql_token get
get_obo_sql_token-fresh b l c t = go (get (cache_key c.entra) (run b l [])) refl
  where
    new :
        (b : Bool) (o : Option Token)
        → (or_exchange b (cache_key c.entra) none o (run b l [])).0 ≡ some t
        → (x : Token) × (x.token ≡ t) × (o ≡ some x)
    new true (some x) h = (x, some-injective h, refl)
    new true none h = cc h
    new false o h = cc h

    earlier :
        (x : Token)
        → get (cache_key c.entra) (run b l []) ≡ some x
        → Exchanged l (cache_key c.entra) x
    earlier x g = elim (run-Exchanged b l [] (cache_key c.entra) x g) [ inl e ↦ cc e | inr e ↦ e ]

    go :
        (o : Option Token)
        → get (cache_key c.entra) (run b l []) ≡ o
        → (or_exchange b (cache_key c.entra) (fresh c.now o) c.exchange (run b l [])).0 ≡ some t
        → (x : Token) × (x.token ≡ t)
          × ((c.exchange ≡ some x)
              ⊎ ((c.now + 120000 < x.expires_at) × Exchanged l (cache_key c.entra) x))
    go none g h = let r = new b c.exchange h in (r.0, r.1, inl r.2)
    go (some x) g h = elim (Bool-cases (is_fresh c.now x)) [
      | inl e ↦ (x, some-injective (rw e at h), inr (fresh-later c.now x e, earlier x g))
      | inr e ↦ let r = new b c.exchange (rw e at h) in (r.0, r.1, inl r.2)
    ]
