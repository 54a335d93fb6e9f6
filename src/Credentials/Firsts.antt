-- ===== src/Credentials/Firsts.antt =====
-- What the memo of services/dba-mcp/src/connectionManager.ts keeps over a history of accesses.
use mssql_data_api.Prelude.{
  Bool, true, false, Option, none, some, List, [], ◌∷◌, if◌then◌else◌, Bool-cases, inl, inr, ◌≡◌,
  refl, ◌∙◌, ap, sym,
}
use mssql_data_api.Prelude.Text.{Text, eq_text}
use mssql_data_api.Prelude.Dict.{get, get-set_self, get-set_other, eq_text_sound}
use mssql_data_api.Credentials.Store.{OsCredential}
use mssql_data_api.Credentials.Memo.{
  Env, Memo, Reading, present, own_target, read_fleet, get_os_cred, read_own, kept_or_read,
  credential_for_target, credential_for,
}

-- One access of an instance's user or password, with the answers of the store at that time.
pub record Access : Type 0 where
  pub target : Option Text
  pub reading : Reading

unfoldable pub run : Env → List Access → Memo → Memo
unfolding credential_for
run env [] m = m
run env (a ∷ l) m = run env l (credential_for env a.reading a.target m).1

unfoldable pub init : Memo
init = record { os_cred = none; os_read = false; instance_creds = [] }

abbrev pub or_else : Option OsCredential → Option OsCredential → Option OsCredential
or_else none o = o
or_else (some c) o = some c

abbrev pub is_for : Text → Option Text → Bool
is_for t none = false
is_for t (some q) = eq_text q t

abbrev pub asked :
    Text → Option Text → Option OsCredential → Option OsCredential → Option OsCredential
asked t q now later = if is_for t q then or_else now later else later

-- The first credential that the store gave for a target.
unfoldable pub first_read : Text → List Access → Option OsCredential
first_read t [] = none
first_read t (a ∷ l) =
    let rest = first_read t l in
    if is_for t (own_target a.target) then or_else (a.reading t) rest else rest

read_fleet-creds :
    (o : Option Text) (read : Reading) (m : Memo)
    → (read_fleet o read m).1.instance_creds ≡ m.instance_creds
unfolding read_fleet
read_fleet-creds none read m = refl
read_fleet-creds (some t) read m = refl

get_os_cred-creds :
    (env : Env) (read : Reading) (m : Memo)
    → (get_os_cred env read m).1.instance_creds ≡ m.instance_creds
unfolding get_os_cred
get_os_cred-creds env read m = elim (Bool-cases m.os_read) [
  | inl e ↦ rw e refl
  | inr e ↦ simp e (read_fleet-creds (present env.cred_target) read m)
]

or_else-none : (o : Option OsCredential) → o ≡ or_else o none
or_else-none none = refl
or_else-none (some c) = refl

own-creds :
    (env : Env) (read : Reading) (t : Text) (m : Memo) (o r : Option OsCredential)
    → get t m.instance_creds ≡ o
    → get t (read_own env read t r m).1.instance_creds ≡ or_else r o
unfolding read_own
own-creds env read t m o none h = rw (get_os_cred-creds env read m) h
own-creds env read t m o (some c) h = get-set_self t c m.instance_creds

kept-creds :
    (env : Env) (read : Reading) (t : Text) (m : Memo) (o : Option OsCredential)
    → get t m.instance_creds ≡ o
    → get t (kept_or_read env read t o m).1.instance_creds ≡ or_else o (read t)
unfolding kept_or_read
kept-creds env read t m none h =
    own-creds env read t m none (read t) h ∙ sym (or_else-none (read t))
kept-creds env read t m (some c) h = h

other-creds :
    (env : Env) (read : Reading) (q t : Text) (m : Memo) (o : Option OsCredential)
    → eq_text q t ≡ false
    → get t (kept_or_read env read q o m).1.instance_creds ≡ get t m.instance_creds
unfolding kept_or_read
other-creds env read q t m (some c) h = refl
other-creds env read q t m none h = go (read q)
  where
    go :
        (r : Option OsCredential)
        → get t (read_own env read q r m).1.instance_creds ≡ get t m.instance_creds
    go none = rw (get_os_cred-creds env read m) refl
    go (some c) = get-set_other q t c m.instance_creds h

pub step-creds :
    (env : Env) (read : Reading) (q : Option Text) (t : Text) (m : Memo)
    → get t (credential_for_target env read q m).1.instance_creds
      ≡ or_else (get t m.instance_creds) (if is_for t q then read t else none)
unfolding credential_for_target
step-creds env read none t m =
    rw (get_os_cred-creds env read m) (or_else-none (get t m.instance_creds))
step-creds env read (some q) t m = elim (Bool-cases (eq_text q t)) [
  | inl e ↦ rw (e, eq_text_sound q t e) (kept-creds env read t m (get t m.instance_creds) refl)
  | inr e ↦ rw e (
      other-creds env read q t m (get q m.instance_creds) e ∙ or_else-none (get t m.instance_creds))
]

merged :
    (o r p : Option OsCredential) (b : Bool)
    → or_else (or_else o (if b then r else none)) p ≡ or_else o (if b then or_else r p else p)
merged none r p true = refl
merged none r p false = refl
merged (some c) r p true = refl
merged (some c) r p false = refl

pub run-first_read :
    (env : Env) (t : Text) (l : List Access) (m : Memo)
    → get t (run env l m).instance_creds ≡ or_else (get t m.instance_creds) (first_read t l)
unfolding run first_read credential_for
run-first_read env t [] m = or_else-none (get t m.instance_creds)
run-first_read env t (a ∷ l) m =
    run-first_read env t l (credential_for_target env a.reading (own_target a.target) m).1
    ∙ ap (λ o. or_else o (first_read t l)) (step-creds env a.reading (own_target a.target) t m)
    ∙ merged (get t m.instance_creds) (a.reading t) (first_read t l)
        (is_for t (own_target a.target))

pub kept-value :
    (env : Env) (read : Reading) (t : Text) (m : Memo) (o : Option OsCredential)
    → (kept_or_read env read t o m).0 ≡ or_else (or_else o (read t)) (get_os_cred env read m).0
unfolding kept_or_read
kept-value env read t m (some c) = refl
kept-value env read t m none = go (read t)
  where
    go :
        (r : Option OsCredential)
        → (read_own env read t r m).0 ≡ or_else r (get_os_cred env read m).0
    go none = refl
    go (some c) = refl
