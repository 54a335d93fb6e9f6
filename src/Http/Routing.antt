-- ===== src/Http/Routing.antt =====
-- Which transport the handlers of services/dba-mcp/src/index.ts pass a request to.
use mssql_data_api.Prelude.{
  some-injective, ℕ, ◌+◌, ◌==◌, ◌≡◌, ap, sym, ◌∙◌, Bool, true, false, Option, none, some, List, [],
  ◌∷◌, if◌then◌else◌, Bool-cases, inl, inr, ◌⊎◌, arith, ==_iff, ◌<◌,
}
use mssql_data_api.Prelude.Text.{Text, eq_text}
use mssql_data_api.Prelude.Dict.{get, set, remove, get-set, get-remove, eq_text_sound}
use mssql_data_api.Http.Sessions.{
  Server, handled_by, header, find, is_none, take_id, initialized, open_session, post_found, post,
  get_found, get_stream, forget, on_close, delete_found, delete_session, Event, posts, gets,
  deletes, closes, step, run, init,
}

-- The session that a request names.
unfoldable pub header_of : Event → Option Text
header_of (posts h is_initialize id) = header h
header_of (gets h) = header h
header_of (deletes h) = header h
header_of (closes n) = none

-- A transport stands in the table under the id that it has taken.
Inv : Server → Type 0
Inv s =
    (id : Text) (n : ℕ) → get id s.transports ≡ some n → (s.session_ids n ≡ some id) × (n < s.made)

remove-Inv :
    (id : Text) (s : Server) → Inv s → Inv (record s { transports = remove id s.transports })
unfolding Inv
remove-Inv id s i q n h = go (Bool-cases (eq_text id q)) (get-remove id q s.transports)
  where
    go :
        ((eq_text id q ≡ true) ⊎ (eq_text id q ≡ false))
        → get q (remove id s.transports) ≡ (if eq_text id q then none else get q s.transports)
        → (s.session_ids n ≡ some q) × (n < s.made)
    go (inl e) k = cc (h, rw e at k)
    go (inr e) k = i q n (sym (rw e at k) ∙ h)

forget-Inv : (h : Option Text) (s : Server) → Inv s → Inv (forget h s)
forget-Inv none s i = i
forget-Inv (some []) s i = i
forget-Inv (some (c ∷ id)) s i = remove-Inv (c ∷ id) s i

apart : (n m : ℕ) → n < m → (n == m) ≡ false
apart n m h = ground arith

open-Inv : (id : Option Text) (s : Server) → Inv s → Inv (open_session id s).1
unfolding Inv open_session initialized take_id
open-Inv none s i q n h = ((i q n h).0, omega (arith, (i q n h).1))
open-Inv (some id) s i q n h = go (Bool-cases (eq_text id q)) (get-set id q s.made s.transports)
  where
    go :
        ((eq_text id q ≡ true) ⊎ (eq_text id q ≡ false))
        → get q (set id s.made s.transports)
          ≡ (if eq_text id q then some s.made else get q s.transports)
        → (take_id s.made (some id) s.session_ids n ≡ some q) × (n < s.made + 1)
    go (inl e) k =
        let same = some-injective (sym h ∙ (rw e at k)) in
        (rw ((==_iff n s.made).1 same) (ap some (eq_text_sound id q e)), omega (arith, same))
    go (inr e) k =
        let old = i q n (sym (rw e at k) ∙ h) in
        (rw (apart n s.made old.1) old.0, omega (arith, old.1))

post-Inv :
    (o : Option ℕ) (b i : Bool) (id : Option Text) (s : Server)
    → Inv s
    → Inv (post_found o b i id s).1
unfolding post_found
post-Inv (some n) b i id s h = h
post-Inv none true true id s h = open-Inv id s h
post-Inv none true false id s h = h
post-Inv none false i id s h = h

on_close-Inv : (n : ℕ) (s : Server) → Inv s → Inv (on_close n s)
unfolding on_close
on_close-Inv n s i = forget-Inv (s.session_ids n) s i

delete-Inv : (o : Option ℕ) (h : Option Text) (s : Server) → Inv s → Inv (delete_found o h s)
delete-Inv none h s i = i
delete-Inv (some n) h s i = forget-Inv h (on_close n s) (on_close-Inv n s i)

step-Inv : (e : Event) (s : Server) → Inv s → Inv (step e s).1
unfolding step post get_stream delete_session
step-Inv (posts h i id) s j = post-Inv (find (header h) s.transports) (is_none (header h)) i id s j
step-Inv (gets h) s j = j
step-Inv (deletes h) s j = delete-Inv (find (header h) s.transports) h s j
step-Inv (closes n) s j = on_close-Inv n s j

run-Inv : (l : List Event) (s : Server) → Inv s → Inv (run l s)
unfolding run
run-Inv [] s i = i
run-Inv (e ∷ l) s i = run-Inv l (step e s).1 (step-Inv e s i)

init-Inv : Inv init
unfolding init Inv get
init-Inv id n h = cc h

pub found :
    (id : Text) (s : Server) (e : Event) (n : ℕ)
    → header_of e ≡ some id
    → (step e s).0 ≡ handled_by n
    → get id s.transports ≡ some n
unfolding step post get_stream delete_session header_of post_found
found id s (posts k i t) n e r = go (get id s.transports) (rw e at r)
  where
    go : (o : Option ℕ) → (post_found o false i t s).0 ≡ handled_by n → o ≡ some n
    go none h = cc h
    go (some m) h = cc h
found id s (gets k) n e r = go (get id s.transports) (rw e at r)
  where
    go : (o : Option ℕ) → get_found o ≡ handled_by n → o ≡ some n
    go none h = cc h
    go (some m) h = cc h
found id s (deletes k) n e r = cc r
found id s (closes m) n e r = cc e

-- After any history, a transport that handles a request that names a session is the one that took
-- that session's id.
pub handled-owned :
    (l : List Event) (e : Event) (id : Text) (n : ℕ)
    → header_of e ≡ some id
    → (step e (run l init)).0 ≡ handled_by n
    → (run l init).session_ids n ≡ some id
unfolding Inv
handled-owned l e id n h r = (run-Inv l init init-Inv id n (found id (run l init) e n h r)).0
