-- ===== src/Credentials/Fleet.antt =====
-- The credential of the fleet in the memo of services/dba-mcp/src/connectionManager.ts, and what every
-- access gets.
use mssql_data_api.Prelude.{
  Bool, true, not, Option, none, some, List, [], ◌∷◌, ◌++◌, if◌then◌else◌, Bool-cases, inl, inr,
  ◌≡◌, refl, ◌∙◌, ap, sym,
}
use mssql_data_api.Prelude.Text.{Text}
use mssql_data_api.Prelude.Dict.{get}
use mssql_data_api.Credentials.Store.{OsCredential}
use mssql_data_api.Credentials.Memo.{
  Env, Memo, Reading, present, has, own_target, read_fleet, get_os_cred, read_own, kept_or_read,
  credential_for_target, credential_for,
}
use mssql_data_api.Credentials.Firsts.{
  Access, run, init, or_else, is_for, first_read, kept-value, step-creds, run-first_read,
}

-- Whether an access comes to the credential of the fleet, by what its own target, if it has one, gave
-- before and gives now.
abbrev pub comes : (Text → Option OsCredential) → Option Text → Reading → Bool
comes before none reading = true
comes before (some t) reading = not (has (or_else (before t) (reading t)))

-- The first credential that the store gave for the target of the fleet, among the accesses that come
-- to it; `before` are those that went before.
unfoldable pub fleet_first : Text → List Access → List Access → Option OsCredential
unfolding first_read
fleet_first f before [] = none
fleet_first f before (a ∷ l) =
    let rest = fleet_first f (before ++ a ∷ []) l in
    if comes (λ t. first_read t before) (own_target a.target) a.reading
    then or_else (a.reading f) rest
    else rest

abbrev pub fleet_of : Option Text → List Access → Reading → Option OsCredential
fleet_of none l reading = none
fleet_of (some f) l reading = or_else (fleet_first f [] l) (reading f)

abbrev pub expected_for :
    Option Text → List Access → Reading → Option OsCredential → Option OsCredential
expected_for none l reading fleet = fleet
expected_for (some t) l reading fleet = or_else (or_else (first_read t l) (reading t)) fleet

-- What an access gets after a history, told from the answers of the store alone.
abbrev pub expected : Env → List Access → Access → Option OsCredential
expected env l a =
    expected_for (own_target a.target) l a.reading (fleet_of (present env.cred_target) l a.reading)

-- What the memo has of the fleet, with the target of the fleet.
abbrev Fleet : Option Text → Memo → Option OsCredential → Type 0
Fleet none m o = m.os_cred ≡ none
Fleet (some f) m o = (m.os_cred ≡ o) × (m.os_read ≡ has o)

abbrev now : Option Text → Reading → Option OsCredential → Option OsCredential
now none reading o = none
now (some f) reading o = or_else o (reading f)

abbrev asked : Option Text → Reading → Memo → Option OsCredential × Memo
asked p reading m = if m.os_read then (m.os_cred, m) else read_fleet p reading m

asked-Fleet :
    (p : Option Text) (reading : Reading) (m : Memo) (o : Option OsCredential)
    → Fleet p m o
    → ((asked p reading m).0 ≡ now p reading o) × Fleet p (asked p reading m).1 (now p reading o)
unfolding read_fleet
asked-Fleet none reading m o h = elim (Bool-cases m.os_read) [
  | inl e ↦ rw e (h, h)
  | inr e ↦ rw e (refl, h)
]
asked-Fleet (some f) reading m none (h, k) = rw k (refl, (refl, refl))
asked-Fleet (some f) reading m (some c) (h, k) = rw k (h, (h, refl))

access-Fleet :
    (env : Env) (reading : Reading) (q : Option Text) (m : Memo) (o : Option OsCredential)
    → let p = present env.cred_target in
      Fleet p m o
      → Fleet p
          (credential_for_target env reading q m).1
          (if comes (λ t. get t m.instance_creds) q reading then now p reading o else o)
unfolding credential_for_target get_os_cred kept_or_read read_own
access-Fleet env reading none m o h = (asked-Fleet (present env.cred_target) reading m o h).1
access-Fleet env reading (some t) m o h = kept (get t m.instance_creds)
  where
    own :
        (r : Option OsCredential)
        → Fleet
            (present env.cred_target)
            (read_own env reading t r m).1
            (if not (has r) then now (present env.cred_target) reading o else o)
    own none = (asked-Fleet (present env.cred_target) reading m o h).1
    own (some c) = same (present env.cred_target) h
      where
        same : (p : Option Text) → Fleet p m o → Fleet p (read_own env reading t (some c) m).1 o
        same none h = h
        same (some f) h = h

    kept :
        (k : Option OsCredential)
        → Fleet (present env.cred_target) (kept_or_read env reading t k m).1 (
            if not (has (or_else k (reading t)))
            then now (present env.cred_target) reading o
            else o)
    kept none = own (reading t)
    kept (some c) = h

first_read-append :
    (t : Text) (before : List Access) (a : Access)
    → first_read t (before ++ a ∷ [])
      ≡ or_else (first_read t before) (if is_for t (own_target a.target) then a.reading t else none)
unfolding first_read
first_read-append t [] a = elim (Bool-cases (is_for t (own_target a.target))) [
  | inl e ↦ rw e (last (a.reading t))
  | inr e ↦ rw e refl
]
  where
    last : (o : Option OsCredential) → or_else o none ≡ o
    last none = refl
    last (some c) = refl
first_read-append t (b ∷ before) a = elim (Bool-cases (is_for t (own_target b.target))) [
  | inl e ↦ rw (e, first_read-append t before a) (regroup (b.reading t))
  | inr e ↦ rw e (first_read-append t before a)
]
  where
    regroup :
        (o : Option OsCredential)
        → or_else o (
            or_else
              (first_read t before)
              (if is_for t (own_target a.target) then a.reading t else none))
          ≡ or_else
              (or_else o (first_read t before))
              (if is_for t (own_target a.target) then a.reading t else none)
    regroup none = refl
    regroup (some c) = refl

-- What the memo has of the fleet at the end of a history.
abbrev later : Option Text → Option OsCredential → List Access → List Access → Option OsCredential
later none o before l = o
later (some f) o before l = or_else o (fleet_first f before l)

later-cons :
    (p : Option Text) (o : Option OsCredential) (before : List Access) (a : Access)
    (l : List Access)
    → (m : Memo)
    → let comes_now = comes (λ t. first_read t before) (own_target a.target) a.reading in
      Fleet p m (later p (if comes_now then now p a.reading o else o) (before ++ a ∷ []) l)
      → Fleet p m (later p o before (a ∷ l))
unfolding fleet_first
later-cons none o before a l m h = h
later-cons (some f) o before a l m (h, k) = (h ∙ same o, k ∙ ap has (same o))
  where
    same :
        (o : Option OsCredential)
        → later
            (some f)
            (if comes (λ t. first_read t before) (own_target a.target) a.reading
              then or_else o (a.reading f)
              else o)
            (before ++ a ∷ [])
            l
          ≡ later (some f) o before (a ∷ l)
    same o = elim (Bool-cases (comes (λ t. first_read t before) (own_target a.target) a.reading)) [
      | inl e ↦ rw e (regroup o)
      | inr e ↦ rw e refl
    ]
      where
        regroup :
            (o : Option OsCredential)
            → or_else (or_else o (a.reading f)) (fleet_first f (before ++ a ∷ []) l)
              ≡ or_else o (or_else (a.reading f) (fleet_first f (before ++ a ∷ []) l))
        regroup none = refl
        regroup (some c) = refl

run-Fleet :
    (env : Env) (before l : List Access) (m : Memo) (o : Option OsCredential)
    → ((t : Text) → get t m.instance_creds ≡ first_read t before)
    → Fleet (present env.cred_target) m o
    → Fleet (present env.cred_target) (run env l m) (later (present env.cred_target) o before l)
unfolding run credential_for fleet_first
run-Fleet env before [] m o known h = ends (present env.cred_target) h
  where
    ends : (p : Option Text) → Fleet p m o → Fleet p m (later p o before [])
    ends none h = h
    ends (some f) (h, k) = (h ∙ same o, k ∙ ap has (same o))
      where
        same : (o : Option OsCredential) → o ≡ or_else o none
        same none = refl
        same (some c) = refl
run-Fleet env before (a ∷ l) m o known h =
    let m' = (credential_for_target env a.reading (own_target a.target) m).1 in
    later-cons (present env.cred_target) o before a l (run env l m') (
      run-Fleet env (before ++ a ∷ []) l m'
        (if comes (λ t. first_read t before) (own_target a.target) a.reading
          then now (present env.cred_target) a.reading o
          else o)
        (λ t.
          step-creds env a.reading (own_target a.target) t m
          ∙ ap (λ k. or_else k (if is_for t (own_target a.target) then a.reading t else none))
              (known t)
          ∙ sym (first_read-append t before a))
        (known_comes (own_target a.target)
          (access-Fleet env a.reading (own_target a.target) m o h)))
  where
    known_comes :
        (q : Option Text)
        → Fleet
            (present env.cred_target)
            (credential_for_target env a.reading (own_target a.target) m).1
            (if comes (λ t. get t m.instance_creds) q a.reading
              then now (present env.cred_target) a.reading o
              else o)
        → Fleet
            (present env.cred_target)
            (credential_for_target env a.reading (own_target a.target) m).1
            (if comes (λ t. first_read t before) q a.reading
              then now (present env.cred_target) a.reading o
              else o)
    known_comes none f = f
    known_comes (some t) f = rw (← (known t)) f

fleet_value :
    (env : Env) (l : List Access) (reading : Reading)
    → (get_os_cred env reading (run env l init)).0 ≡ fleet_of (present env.cred_target) l reading
unfolding get_os_cred init get first_read
fleet_value env l reading =
    (asked-Fleet (present env.cred_target) reading (run env l init)
      (later (present env.cred_target) none [] l)
      (run-Fleet env [] l init none (λ t. empty t) (start (present env.cred_target)))).0
    ∙ told (present env.cred_target)
  where
    empty : (t : Text) → get t init.instance_creds ≡ first_read t []
    empty t = refl

    start : (p : Option Text) → Fleet p init none
    start none = refl
    start (some f) = (refl, refl)

    told : (p : Option Text) → now p reading (later p none [] l) ≡ fleet_of p l reading
    told none = refl
    told (some f) = refl

-- After any history of accesses, whatever the store answers at each: an instance with a target of its own
-- has the first credential that the store ever gave for the target, this access included, else that
-- of the fleet, as has an instance without a target. The fleet's is the first that the store gave for the
-- fleet's target at an access that came to it, this one included. A read that gives nothing is not kept.
pub credential_for-first :
    (env : Env) (l : List Access) (a : Access)
    → (credential_for env a.reading a.target (run env l init)).0 ≡ expected env l a
unfolding credential_for credential_for_target init get
credential_for-first env l a = value (own_target a.target)
  where
    value :
        (q : Option Text)
        → (credential_for_target env a.reading q (run env l init)).0
          ≡ expected_for q l a.reading (fleet_of (present env.cred_target) l a.reading)
    value none = fleet_value env l a.reading
    value (some t) =
        kept-value env a.reading t (run env l init) (get t (run env l init).instance_creds)
        ∙ ap (λ o. or_else (or_else o (a.reading t)) (get_os_cred env a.reading (run env l init)).0)
            (first t)
        ∙ ap (λ o. or_else (or_else (first_read t l) (a.reading t)) o) (fleet_value env l a.reading)
      where
        first : (t : Text) → get t (run env l init).instance_creds ≡ first_read t l
        first t = run-first_read env t l init
