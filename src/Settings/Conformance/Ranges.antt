-- ===== src/Settings/Conformance/Ranges.antt =====
-- What values a baseline of `parseConformanceBaseline` of services/dba-mcp/src/dbatools.ts can have.
use mssql_data_api.Prelude.{
  ℕ, ◌≡◌, refl, ◌≤◌, arith, ◌&&◌, leb, true, Option, none, some, List, [], ◌∷◌, Bool-cases, inl,
  inr, any, All, some-injective,
}
use mssql_data_api.Prelude.Text.{Text, codes, eq_text}
use mssql_data_api.Prelude.Dict.{eq_text_refl}
use mssql_data_api.Prelude.Json.{
  Json, null, boolean, number, string, array, object, Number, whole, below, fraction, Runtime,
  to_text,
}
use mssql_data_api.Settings.{parsed, field_of}
use mssql_data_api.Settings.Conformance.{
  AgPolicy, ReplicaPolicy, InstanceRow, ConformanceBaseline, Maxdop, site, default_conformance,
  default_instances, row, lower_ascii, is_setting_name, is_maxdop, put_row, drop_row, put_maxdop,
  put_setting, set_instance, merge_instances, site_maxdop, int_between, merge_ag, merge_replica,
  put_ag, put_replica, set_ag, set_replica, merge, parse_conformance_baseline, entries, on_off,
  seeding_modes, preferences, text_in, value_in, upper_value, with_failover, with_level,
  with_health, with_preference, with_session, with_seeding,
}

abbrev pub IsOneOf : List Text → Text → Type 0
IsOneOf l s = any (λ t. eq_text t s) l ≡ true

abbrev pub IsAgPolicy : AgPolicy → Type 0
IsAgPolicy a =
    IsOneOf on_off a.db_failover
    × (1 ≤ a.failure_condition_level)
    × (a.failure_condition_level ≤ 5)
    × (15000 ≤ a.health_check_timeout)
    × (a.health_check_timeout ≤ 2147483647)
    × IsOneOf preferences a.automated_backup_preference

abbrev pub IsReplicaPolicy : ReplicaPolicy → Type 0
IsReplicaPolicy r =
    (5 ≤ r.session_timeout) × (r.session_timeout ≤ 86400) × IsOneOf seeding_modes r.seeding_mode

abbrev pub IsMaxdop : Maxdop → Type 0
IsMaxdop (site n) = n ≤ 32767
IsMaxdop _ = Unit

abbrev pub IsNamed : InstanceRow → Type 0
IsNamed r = is_setting_name r.name ≡ true

abbrev pub IsBaseline : ConformanceBaseline → Type 0
IsBaseline b =
    IsAgPolicy b.ag × IsReplicaPolicy b.replica × IsMaxdop b.maxdop × All IsNamed b.instances

text_in-IsOneOf : (l : List Text) (s t : Text) → text_in l s ≡ some t → IsOneOf l t
text_in-IsOneOf [] s t h = cc h
text_in-IsOneOf (x ∷ l) s t h = elim (Bool-cases (eq_text x s)) [
  | inl e ↦ rw (some-injective (rw e at h), eq_text_refl t) refl
  | inr e ↦ ground (arith, text_in-IsOneOf l s t (rw e at h))
]

value_in-IsOneOf : (l : List Text) (v : Json) (t : Text) → value_in l v ≡ some t → IsOneOf l t
value_in-IsOneOf l (string s) t h = text_in-IsOneOf l s t h
value_in-IsOneOf l null t h = cc h
value_in-IsOneOf l (boolean x) t h = cc h
value_in-IsOneOf l (number n) t h = cc h
value_in-IsOneOf l (array xs) t h = cc h
value_in-IsOneOf l (object fs) t h = cc h

between : (lo hi : ℕ) (v : Json) (n : ℕ) → int_between lo hi v ≡ some n → (lo ≤ n) × (n ≤ hi)
between lo hi (number (whole m)) n h = elim (Bool-cases (leb lo m && leb m hi)) [
  | inl e ↦ rw (← (some-injective (rw e at h))) (ground arith)
  | inr e ↦ cc (rw e at h)
]
between lo hi (number (below m)) n h = cc h
between lo hi (number fraction) n h = cc h
between lo hi null n h = cc h
between lo hi (boolean x) n h = cc h
between lo hi (string s) n h = cc h
between lo hi (array xs) n h = cc h
between lo hi (object fs) n h = cc h

-- A property of what is there.
abbrev Holds {ℓ} : {A : Type ℓ} → (A → Type 0) → Option A → Type 0
Holds P none = Unit
Holds P (some a) = P a

set_ag-Holds :
    (rt : Runtime) (k : Text) (v : Json) (a : AgPolicy)
    → IsAgPolicy a
    → Holds IsAgPolicy (set_ag rt k v a)
unfolding set_ag
set_ag-Holds rt k v a (f, l0, l1, h0, h1, p) = elim (Bool-cases (eq_text k (codes "DB_FAILOVER"))) [
  | inl e ↦ rw e (failover (value_in on_off (upper_value rt v)) refl)
  | inr e ↦ rw e (elim (Bool-cases (eq_text k (codes "FAILURE_CONDITION_LEVEL"))) [
    | inl e ↦ rw e (level (int_between 1 5 v) refl)
    | inr e ↦ rw e (elim (Bool-cases (eq_text k (codes "HEALTH_CHECK_TIMEOUT"))) [
      | inl e ↦ rw e (health (int_between 15000 2147483647 v) refl)
      | inr e ↦ rw e (elim (Bool-cases (eq_text k (codes "AUTOMATED_BACKUP_PREFERENCE"))) [
        | inl e ↦ rw e (preference (text_in preferences (to_text rt (upper_value rt v))) refl)
        | inr e ↦ rw e tt
      ])
    ])
  ])
]
  where
    failover :
        (o : Option Text)
        → value_in on_off (upper_value rt v) ≡ o
        → Holds IsAgPolicy (with_failover a o)
    failover none q = tt
    failover (some s) q = (value_in-IsOneOf on_off (upper_value rt v) s q, l0, l1, h0, h1, p)

    level : (o : Option ℕ) → int_between 1 5 v ≡ o → Holds IsAgPolicy (with_level a o)
    level none q = tt
    level (some n) q = let (lo, hi) = between 1 5 v n q in (f, lo, hi, h0, h1, p)

    health :
        (o : Option ℕ) → int_between 15000 2147483647 v ≡ o → Holds IsAgPolicy (with_health a o)
    health none q = tt
    health (some n) q = let (lo, hi) = between 15000 2147483647 v n q in (f, l0, l1, lo, hi, p)

    preference :
        (o : Option Text)
        → text_in preferences (to_text rt (upper_value rt v)) ≡ o
        → Holds IsAgPolicy (with_preference a o)
    preference none q = tt
    preference (some s) q =
        (f, l0, l1, h0, h1, text_in-IsOneOf preferences (to_text rt (upper_value rt v)) s q)

set_replica-Holds :
    (rt : Runtime) (k : Text) (v : Json) (r : ReplicaPolicy)
    → IsReplicaPolicy r
    → Holds IsReplicaPolicy (set_replica rt k v r)
unfolding set_replica
set_replica-Holds rt k v r (lo, hi, m) = elim (Bool-cases (eq_text k (codes "SESSION_TIMEOUT"))) [
  | inl e ↦ rw e (session (int_between 5 86400 v) refl)
  | inr e ↦ rw e (elim (Bool-cases (eq_text k (codes "SEEDING_MODE"))) [
    | inl e ↦ rw e (seeding (value_in seeding_modes (upper_value rt v)) refl)
    | inr e ↦ rw e tt
  ])
]
  where
    session : (o : Option ℕ) → int_between 5 86400 v ≡ o → Holds IsReplicaPolicy (with_session r o)
    session none q = tt
    session (some n) q = let (l, h) = between 5 86400 v n q in (l, h, m)

    seeding :
        (o : Option Text)
        → value_in seeding_modes (upper_value rt v) ≡ o
        → Holds IsReplicaPolicy (with_seeding r o)
    seeding none q = tt
    seeding (some s) q = (lo, hi, value_in-IsOneOf seeding_modes (upper_value rt v) s q)

merge_ag-IsBaseline :
    (rt : Runtime) (l : List (Text × Json)) (b : ConformanceBaseline)
    → IsBaseline b
    → IsBaseline (merge_ag rt l b)
unfolding merge_ag
merge_ag-IsBaseline rt [] b h = h
merge_ag-IsBaseline rt ((k, v) ∷ l) b (a, r, m, n) =
    merge_ag-IsBaseline rt l (put_ag k (set_ag rt k v b.ag) b)
      (kept (set_ag rt k v b.ag) (set_ag-Holds rt k v b.ag a))
  where
    kept : (o : Option AgPolicy) → Holds IsAgPolicy o → IsBaseline (put_ag k o b)
    kept none h = (a, r, m, n)
    kept (some p) h = (h, r, m, n)

merge_replica-IsBaseline :
    (rt : Runtime) (l : List (Text × Json)) (b : ConformanceBaseline)
    → IsBaseline b
    → IsBaseline (merge_replica rt l b)
unfolding merge_replica
merge_replica-IsBaseline rt [] b h = h
merge_replica-IsBaseline rt ((k, v) ∷ l) b (a, r, m, n) =
    merge_replica-IsBaseline rt l (put_replica k (set_replica rt k v b.replica) b)
      (kept (set_replica rt k v b.replica) (set_replica-Holds rt k v b.replica r))
  where
    kept : (o : Option ReplicaPolicy) → Holds IsReplicaPolicy o → IsBaseline (put_replica k o b)
    kept none h = (a, r, m, n)
    kept (some p) h = (a, h, m, n)

put_row-IsNamed :
    (k : Text) (x : Number) (l : List InstanceRow)
    → is_setting_name k ≡ true
    → All IsNamed l
    → All IsNamed (put_row k x l)
unfolding put_row
put_row-IsNamed k x [] h hs = (h, tt)
put_row-IsNamed k x (r ∷ l) h (n, ns) =
    elim (Bool-cases (eq_text (lower_ascii r.name) (lower_ascii k))) [
      | inl e ↦ rw e (n, ns)
      | inr e ↦ rw e (n, put_row-IsNamed k x l h ns)
    ]

drop_row-IsNamed : (k : Text) (l : List InstanceRow) → All IsNamed l → All IsNamed (drop_row k l)
unfolding drop_row
drop_row-IsNamed k [] hs = tt
drop_row-IsNamed k (r ∷ l) (n, ns) =
    elim (Bool-cases (eq_text (lower_ascii r.name) (lower_ascii k))) [
      | inl e ↦ rw e ns
      | inr e ↦ rw e (n, drop_row-IsNamed k l ns)
    ]

put_maxdop-IsBaseline :
    (k : Text) (v : Json) (b : ConformanceBaseline) → IsBaseline b → IsBaseline (put_maxdop k v b)
put_maxdop-IsBaseline k null b (a, r, m, n) = (a, r, tt, n)
put_maxdop-IsBaseline k (boolean x) b h = h
put_maxdop-IsBaseline k (number x) b (a, r, m, n) = kept (int_between 0 32767 (number x)) refl
  where
    kept : (o : Option ℕ) → int_between 0 32767 (number x) ≡ o → IsBaseline (site_maxdop k o b)
    kept none q = (a, r, m, n)
    kept (some d) q = (a, r, (between 0 32767 (number x) d q).1, n)
put_maxdop-IsBaseline k (string s) b h = h
put_maxdop-IsBaseline k (array xs) b h = h
put_maxdop-IsBaseline k (object fs) b h = h

put_setting-IsBaseline :
    (k : Text) (v : Json) (b : ConformanceBaseline)
    → is_setting_name k ≡ true
    → IsBaseline b
    → IsBaseline (put_setting k v b)
put_setting-IsBaseline k null b e (a, r, m, n) = (a, r, m, drop_row-IsNamed k b.instances n)
put_setting-IsBaseline k (boolean x) b e h = h
put_setting-IsBaseline k (number (whole x)) b e (a, r, m, n) =
    (a, r, m, put_row-IsNamed k (whole x) b.instances e n)
put_setting-IsBaseline k (number (below x)) b e (a, r, m, n) =
    (a, r, m, put_row-IsNamed k (below x) b.instances e n)
put_setting-IsBaseline k (number fraction) b e h = h
put_setting-IsBaseline k (string s) b e h = h
put_setting-IsBaseline k (array xs) b e h = h
put_setting-IsBaseline k (object fs) b e h = h

merge_instances-IsBaseline :
    (l : List (Text × Json)) (b : ConformanceBaseline)
    → IsBaseline b
    → IsBaseline (merge_instances l b)
unfolding merge_instances set_instance
merge_instances-IsBaseline [] b h = h
merge_instances-IsBaseline ((k, v) ∷ l) b h =
    merge_instances-IsBaseline l (set_instance k v b) (elim (Bool-cases (is_setting_name k)) [
      | inl e ↦ elim (Bool-cases (is_maxdop k)) [
        | inl m ↦ rw (e, m) (put_maxdop-IsBaseline k v b h)
        | inr m ↦ rw (e, m) (put_setting-IsBaseline k v b e h)
      ]
      | inr e ↦ rw e h
    ])

default-IsBaseline : IsBaseline default_conformance
unfolding default_conformance default_instances row
default-IsBaseline = (
  (refl, omega arith, omega arith, omega arith, omega arith, refl),
  (omega arith, omega arith, refl),
  tt,
  (
    refl,
    (refl, (refl, (refl, (refl, (refl, (refl, (refl, (refl, (refl, (refl, (refl, tt))))))))))),
  ),
)

-- Whatever the setting holds: each of the two words and the preference of the baseline is one of those
-- listed, the level, the timeouts and the degree of parallelism are within their bounds, and every name of
-- a setting of the instance has 1 to 48 of the characters that names have. What is expected of such a
-- setting is any integer, and its name any name of that form.
pub parse_conformance_baseline-IsBaseline :
    (rt : Runtime) (raw : Option Text) → IsBaseline (parse_conformance_baseline rt raw)
unfolding parse_conformance_baseline
parse_conformance_baseline-IsBaseline rt raw = merged (parsed rt raw)
  where
    merged : (o : Option Json) → IsBaseline (merge rt o default_conformance)
    merged none = default-IsBaseline
    merged (some null) = default-IsBaseline
    merged (some (boolean x)) = default-IsBaseline
    merged (some (number n)) = default-IsBaseline
    merged (some (string s)) = default-IsBaseline
    merged (some (array xs)) = default-IsBaseline
    merged (some (object fs)) =
        merge_instances-IsBaseline (entries (field_of (codes "instance") (object fs)))
          (merge_replica rt (entries (field_of (codes "replica") (object fs)))
            (merge_ag rt (entries (field_of (codes "ag") (object fs))) default_conformance))
          (merge_replica-IsBaseline rt (entries (field_of (codes "replica") (object fs)))
            (merge_ag rt (entries (field_of (codes "ag") (object fs))) default_conformance)
            (merge_ag-IsBaseline rt (entries (field_of (codes "ag") (object fs)))
              default_conformance default-IsBaseline))
