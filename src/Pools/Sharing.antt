-- ===== src/Pools/Sharing.antt =====
-- Which calls of `getPool` of services/dba-mcp/src/connectionManager.ts share a pool.
use mssql_data_api.Prelude.{
  ℕ, ◌==◌, Bool, true, false, Option, none, some, List, [], ◌∷◌, if◌then◌else◌, ◌≡◌, refl,
  Bool-cases, All, inl, inr, inr-injective, ◌⊎◌, ap, sym, ◌∙◌, subst, some-injective,
}
use mssql_data_api.Prelude.Text.{Text, eq_text}
use mssql_data_api.Prelude.Dict.{get, set, remove, get-set, get-remove, eq_text_sound}
use mssql_data_api.Pools.Login.{
  Site, Config, Context, Failure, Login, login, Fleet, Plan, plan, plan_named, plan_config, planned,
  plan_of, key_of, resolve_name, region_of,
}
use mssql_data_api.Pools.Table.{
  Pool, Pools, Request, Event, finishes, errs, retires, plan_request, finished, step, run, drop,
  drop_found, keep, dial, existing, if_live, Answers,
}
use mssql_data_api.Pools.Fallbacks.{dial-IsSound}
use mssql_data_api.Pools.Keys.{is_plain, key_of-same}

-- The names of the fleet have neither a colon nor a number sign.
abbrev pub Plain : Fleet → Type 0
Plain = All (λ e. is_plain e.0 ≡ true)

name-Plain : (f : Fleet) (n : Text) (c : Config) → Plain f → get n f ≡ some c → is_plain n ≡ true
unfolding get
name-Plain [] n c p h = cc h
name-Plain ((m, d) ∷ f) n c (p, ps) h = elim (Bool-cases (eq_text m n)) [
  | inl e ↦ subst (λ x. is_plain x ≡ true) (eq_text_sound m n e) p
  | inr e ↦ name-Plain f n c ps (rw e at h)
]

-- Every part of a plan but its login is that of the instance and the intent that it names.
record Planned (site : Site) (fleet : Fleet) (pl : Plan) : Type 0 where
  config : Config
  found : get pl.name fleet ≡ some config
  made : pl ≡ plan_of site pl.name pl.write config pl.login

plan_of-Planned :
    (site : Site) (fleet : Fleet) (name : Text) (write : Bool) (cfg : Config) (l : Login)
    → get name fleet ≡ some cfg
    → Planned site fleet (plan_of site name write cfg l)
unfolding plan_of
plan_of-Planned site fleet name write cfg l h = record { config = cfg; found = h; made = refl }

planned-Planned :
    (site : Site) (fleet : Fleet) (name : Text) (write : Bool) (cfg : Config) (r : Failure ⊎ Login)
    (pl : Plan)
    → get name fleet ≡ some cfg
    → planned site name write cfg r ≡ inr pl
    → Planned site fleet pl
planned-Planned site fleet name write cfg (inl f) pl h e = cc e
planned-Planned site fleet name write cfg (inr l) pl h e =
    subst (Planned site fleet) (inr-injective e) (plan_of-Planned site fleet name write cfg l h)

config-Planned :
    (site : Site) (fleet : Fleet) (name : Text) (write : Bool) (o : Option Config)
    (ctx : Option Context) (pl : Plan)
    → get name fleet ≡ o
    → plan_config site name write o ctx ≡ inr pl
    → Planned site fleet pl
unfolding plan_config
config-Planned site fleet name write none ctx pl h e = cc e
config-Planned site fleet name write (some cfg) ctx pl h e = elim (Bool-cases cfg.is_witness) [
  | inl w ↦ cc (rw w at e)
  | inr w ↦ planned-Planned site fleet name write cfg (login site cfg ctx) pl h (rw w at e)
]

abbrev rekeyed : Plan → Text → Plan
rekeyed pl k = record pl { key = k }

abbrev pub relogged : Plan → Login → Plan
relogged pl l = record pl { login = l }

same_key :
    {site : Site} {fleet : Fleet} (x y : Plan)
    → Plain fleet
    → Planned site fleet x
    → Planned site fleet y
    → y.key ≡ x.key
    → (y.login.identity ≡ x.login.identity) × (y ≡ relogged x y.login)
unfolding plan_of
same_key {site} {fleet} x y plain px py k =
    let t =
      key_of-same y.login.identity x.login.identity y.name x.name y.write x.write
        (name-Plain fleet y.name py.config plain py.found)
        (name-Plain fleet x.name px.config plain px.found)
        (sym (ap (λ q. q.key) py.made) ∙ k ∙ ap (λ q. q.key) px.made) in
    let c = some-injective (sym py.found ∙ ap (λ n. get n fleet) t.1 ∙ px.found) in
    (
      t.0,
      py.made
          ∙ ap (λ n. plan_of site n y.write py.config y.login) t.1
          ∙ ap (λ w. plan_of site x.name w py.config y.login) t.2
          ∙ ap (λ c. plan_of site x.name x.write c y.login) c
          ∙ ap
              (λ i.
                rekeyed (plan_of site x.name x.write px.config y.login) (key_of i x.name x.write))
              t.0
          ∙ sym (ap (λ q. relogged q y.login) px.made),
    )

-- A pool stands under its key, and was made from a plan of the fleet.
record Kept (site : Site) (fleet : Fleet) (key : Text) (p : Pool) : Type 0 where
  keyed : p.plan.key ≡ key
  planned : Planned site fleet p.plan

Inv : Site → Fleet → Pools → Type 0
Inv site fleet s = (key : Text) (p : Pool) → get key s ≡ some p → Kept site fleet key p

module _ (lower : Text → Text) (site : Site) (fleet : Fleet) (primary : Text → Option Text) where
  plan-Planned :
      (r : Request) (pl : Plan)
      → plan_request lower site fleet primary r ≡ inr pl
      → Planned site fleet pl
  unfolding plan_request plan
  plan-Planned r pl = go (resolve_name primary r.name (region_of r.name))
    where
      go :
          (o : Option Text)
          → plan_named site fleet r.write r.context o ≡ inr pl
          → Planned site fleet pl
      go none h = cc h
      go (some n) h = config-Planned site fleet n r.write (get n fleet) r.context pl refl h

  set-Inv :
      (p : Pool) (s : Pools)
      → Planned site fleet p.plan
      → Inv site fleet s
      → Inv site fleet (set p.plan.key p s)
  unfolding Inv
  set-Inv p s h i key q e = go (Bool-cases (eq_text p.plan.key key)) (get-set p.plan.key key p s)
    where
      go :
          ((eq_text p.plan.key key ≡ true) ⊎ (eq_text p.plan.key key ≡ false))
          → get key (set p.plan.key p s) ≡ (if eq_text p.plan.key key then some p else get key s)
          → Kept site fleet key q
      go (inl b) g =
          subst (Kept site fleet key) (some-injective (sym (rw b at g) ∙ e))
            (record { keyed = eq_text_sound p.plan.key key b; planned = h })
      go (inr b) g = i key q (sym (rw b at g) ∙ e)

  remove-Inv : (k : Text) (s : Pools) → Inv site fleet s → Inv site fleet (remove k s)
  unfolding Inv
  remove-Inv k s i key q e = go (Bool-cases (eq_text k key)) (get-remove k key s)
    where
      go :
          ((eq_text k key ≡ true) ⊎ (eq_text k key ≡ false))
          → get key (remove k s) ≡ (if eq_text k key then none else get key s)
          → Kept site fleet key q
      go (inl b) g = cc (e, rw b at g)
      go (inr b) g = i key q (sym (rw b at g) ∙ e)

  drop-Inv : (k : Text) (n : ℕ) (s : Pools) → Inv site fleet s → Inv site fleet (drop k n s)
  unfolding drop
  drop-Inv k n s i = go (get k s)
    where
      go : (o : Option Pool) → Inv site fleet (drop_found k n o s)
      go none = i
      go (some p) = elim (Bool-cases (p.number == n)) [
        | inl b ↦ simp b (remove-Inv k s i)
        | inr b ↦ simp b i
      ]

  finished-Inv :
      (o : Failure ⊎ Plan) (a : Answers) (s : Pools)
      → ((pl : Plan) → o ≡ inr pl → Planned site fleet pl)
      → Inv site fleet s
      → Inv site fleet (finished lower site fleet primary o a s)
  finished-Inv (inl f) a s h i = i
  finished-Inv (inr pl) a s h i = go (dial lower site pl a) refl
    where
      go : (o : Failure ⊎ Pool) → dial lower site pl a ≡ o → Inv site fleet (keep o s)
      go (inl f) e = i
      go (inr p) e =
          set-Inv p s
            (subst (Planned site fleet) (sym (dial-IsSound lower site pl a p e).0) (h pl refl)) i

  run-Inv :
      (l : List Event) (s : Pools)
      → Inv site fleet s
      → Inv site fleet (run lower site fleet primary l s)
  unfolding run step
  run-Inv [] s i = i
  run-Inv (finishes r a ∷ l) s i =
      run-Inv l (step lower site fleet primary (finishes r a) s)
        (finished-Inv (plan_request lower site fleet primary r) a s (plan-Planned r) i)
  run-Inv (errs k n ∷ l) s i = run-Inv l (drop k n s) (drop-Inv k n s i)
  run-Inv (retires k n ∷ l) s i = run-Inv l (drop k n s) (drop-Inv k n s i)

  init-Inv : Inv site fleet []
  unfolding Inv get
  init-Inv key p h = cc h

  existing-get :
      (live : ℕ → Bool) (pl : Plan) (s : Pools) (p : Pool)
      → existing live pl s ≡ some p
      → get pl.key s ≡ some p
  unfolding existing
  existing-get live pl s p = go (get pl.key s)
    where
      go : (o : Option Pool) → if_live live o ≡ some p → o ≡ some p
      go none h = cc h
      go (some q) h = elim (Bool-cases (live q.number)) [
        | inl b ↦ rw b at h
        | inr b ↦ cc (rw b at h)
      ]

  -- In any history, where the names of the fleet have neither a colon nor a number sign, a call of
  -- `getPool` is given a pool that is there only if that pool was made with the options of the call's
  -- own plan, for the same instance and intent, under the same identity.
  pub existing-shared :
      (l : List Event) (r : Request) (live : ℕ → Bool) (pl : Plan) (p : Pool)
      → Plain fleet
      → plan_request lower site fleet primary r ≡ inr pl
      → existing live pl (run lower site fleet primary l []) ≡ some p
      → (p.plan.login.identity ≡ pl.login.identity) × (p.plan ≡ relogged pl p.plan.login)
  unfolding Inv
  existing-shared l r live pl p plain h e =
      let k =
        run-Inv l [] init-Inv pl.key p
          (existing-get live pl (run lower site fleet primary l []) p e) in
      same_key pl p.plan plain (plan-Planned r pl h) k.planned k.keyed
