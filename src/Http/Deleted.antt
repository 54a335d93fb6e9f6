-- ===== src/Http/Deleted.antt =====
-- What becomes of a session of services/dba-mcp/src/index.ts that is deleted.
use mssql_data_api.Prelude.{
  some-injective, ℕ, ◌≡◌, refl, subst, ◌∙◌, Bool, true, false, Option, none, some, List, [], ◌∷◌,
  Bool-cases, inl, inr, ◌≢◌,
}
use mssql_data_api.Prelude.Text.{Text, eq_text}
use mssql_data_api.Prelude.Dict.{Dict, get, remove, get-remove, eq_text_refl, get-set_other}
use mssql_data_api.Http.Sessions.{
  Server, handled_by, header, find, is_none, initialized, open_session, post_found, post,
  get_stream, forget, on_close, delete_found, delete_session, Event, posts, gets, deletes, closes,
  step, run,
}
use mssql_data_api.Http.Routing.{header_of, found}

-- No session takes an id in a history.
abbrev pub Untaken : Text → List Event → Type 0
Untaken id [] = Unit
Untaken id (posts h i none ∷ l) = Untaken id l
Untaken id (posts h i (some t) ∷ l) = (eq_text t id ≡ false) × Untaken id l
Untaken id (gets h ∷ l) = Untaken id l
Untaken id (deletes h ∷ l) = Untaken id l
Untaken id (closes n ∷ l) = Untaken id l

remove-none : (q id : Text) (l : Dict ℕ) → get id l ≡ none → get id (remove q l) ≡ none
remove-none q id l h = elim (Bool-cases (eq_text q id)) [
  | inl e ↦ get-remove q id l ∙ (rw e refl)
  | inr e ↦ get-remove q id l ∙ (rw e h)
]

forget-none :
    (h : Option Text) (id : Text) (s : Server)
    → get id s.transports ≡ none
    → get id (forget h s).transports ≡ none
forget-none none id s g = g
forget-none (some []) id s g = g
forget-none (some (c ∷ t)) id s g = remove-none (c ∷ t) id s.transports g

delete-none :
    (o : Option ℕ) (h : Option Text) (id : Text) (s : Server)
    → get id s.transports ≡ none
    → get id (delete_found o h s).transports ≡ none
unfolding on_close
delete-none none h id s g = g
delete-none (some n) h id s g =
    forget-none h id (on_close n s) (forget-none (s.session_ids n) id s g)

open-none :
    (t id : Text) (o : Option ℕ) (b i : Bool) (s : Server)
    → eq_text t id ≡ false
    → get id s.transports ≡ none
    → get id (post_found o b i (some t) s).1.transports ≡ none
unfolding post_found open_session initialized
open-none t id (some n) b i s h g = g
open-none t id none true true s h g = get-set_other t id s.made s.transports h ∙ g
open-none t id none true false s h g = g
open-none t id none false i s h g = g

open_none-none :
    (id : Text) (o : Option ℕ) (b i : Bool) (s : Server)
    → get id s.transports ≡ none
    → get id (post_found o b i none s).1.transports ≡ none
unfolding post_found open_session initialized
open_none-none id (some n) b i s g = g
open_none-none id none true true s g = g
open_none-none id none true false s g = g
open_none-none id none false i s g = g

run-none :
    (id : Text) (l : List Event) (s : Server)
    → Untaken id l
    → get id s.transports ≡ none
    → get id (run l s).transports ≡ none
unfolding run step post get_stream delete_session on_close
run-none id [] s u g = g
run-none id (posts h i none ∷ l) s u g =
    run-none id l (post h i none s).1 u
      (open_none-none id (find (header h) s.transports) (is_none (header h)) i s g)
run-none id (posts h i (some t) ∷ l) s (e, u) g =
    run-none id l (post h i (some t) s).1 u
      (open-none t id (find (header h) s.transports) (is_none (header h)) i s e g)
run-none id (gets h ∷ l) s u g = run-none id l s u g
run-none id (deletes h ∷ l) s u g =
    run-none id l (delete_session h s).1 u (delete-none (find (header h) s.transports) h id s g)
run-none id (closes n ∷ l) s u g =
    run-none id l (on_close n s) u (forget-none (s.session_ids n) id s g)

deleted-none :
    (id : Text) (h : Option Text) (s : Server)
    → header h ≡ some id
    → get id (delete_session h s).1.transports ≡ none
unfolding delete_session
deleted-none id none s e = cc e
deleted-none id (some []) s e = cc e
deleted-none id (some (c ∷ t)) s e =
    subst (λ q. get q (delete_found (get (c ∷ t) s.transports) (some (c ∷ t)) s).transports ≡ none)
      (some-injective e) (go (get (c ∷ t) s.transports) refl)
  where
    go :
        (o : Option ℕ)
        → get (c ∷ t) s.transports ≡ o
        → get (c ∷ t) (delete_found o (some (c ∷ t)) s).transports ≡ none
    go none h = h
    go (some n) h =
        get-remove (c ∷ t) (c ∷ t) (on_close n s).transports ∙ (rw (eq_text_refl (c ∷ t)) refl)

-- After a DELETE of a session, no transport handles a request that names it, as long as no
-- transport takes the id again.
pub deleted-unhandled :
    (id : Text) (h : Option Text) (s : Server) (l : List Event) (e : Event) (n : ℕ)
    → header h ≡ some id
    → Untaken id l
    → header_of e ≡ some id
    → (step e (run l (delete_session h s).1)).0 ≢ handled_by n
deleted-unhandled id h s l e n d u k r = cc (
  run-none id l (delete_session h s).1 u (deleted-none id h s d),
  found id (run l (delete_session h s).1) e n k r,
)
