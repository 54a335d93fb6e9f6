-- ===== src/Settings/Conformance/Table.antt =====
-- What each setting of an instance is expected to be, by its name in lower case, as the entries of
-- `parseConformanceBaseline` of services/dba-mcp/src/dbatools.ts change it.
use mssql_data_api.Prelude.{
  ◌≡◌, refl, ap, sym, subst, ◌∙◌, ℕ, arith, ◌&&◌, Bool, true, false, not, Option, none, some, List,
  [], ◌∷◌, map, Bool-cases, inl, inr, if◌then◌else◌,
}
use mssql_data_api.Prelude.Text.{Text, codes, eq_text}
use mssql_data_api.Prelude.Dict.{
  Dict, get, set, remove, Distinct, set-Distinct, get-set, get-remove, eq_text_sound,
}
use mssql_data_api.Prelude.Json.{
  Json, null, boolean, number, string, array, object, Number, whole, below, fraction, Runtime,
}
use mssql_data_api.Settings.{parsed, field_of}
use mssql_data_api.Settings.Conformance.{
  AgPolicy, ReplicaPolicy, row, InstanceRow, ConformanceBaseline, default_conformance,
  default_instances, lower_ascii, is_setting_name, is_maxdop, put_row, drop_row, put_maxdop,
  put_setting, set_instance, merge_instances, site_maxdop, int_between, merge_ag, merge_replica,
  put_ag, put_replica, set_ag, set_replica, merge, parse_conformance_baseline, entries,
}

abbrev pub table : List InstanceRow → Dict Number
table l = map (λ r. (lower_ascii r.name, r.expected)) l

table-put_row :
    (k : Text) (n : Number) (l : List InstanceRow)
    → table (put_row k n l) ≡ set (lower_ascii k) n (table l)
unfolding put_row set
table-put_row k n [] = refl
table-put_row k n (r ∷ l) = elim (Bool-cases (eq_text (lower_ascii r.name) (lower_ascii k))) [
  | inl e ↦ rw e refl
  | inr e ↦ rw e (ap (λ d. (lower_ascii r.name, r.expected) ∷ d) (table-put_row k n l))
]

remove-absent : (k : Text) (d : Dict Number) → get k d ≡ none → remove k d ≡ d
unfolding get remove
remove-absent k [] h = refl
remove-absent k ((j, v) ∷ d) h = elim (Bool-cases (eq_text j k)) [
  | inl e ↦ cc (rw e at h)
  | inr e ↦ rw e (ap (λ d. (j, v) ∷ d) (remove-absent k d (rw e at h)))
]

-- As the names are different, the row that is dropped is the only one.
table-drop_row :
    (k : Text) (l : List InstanceRow)
    → Distinct (table l)
    → table (drop_row k l) ≡ remove (lower_ascii k) (table l)
unfolding drop_row remove
table-drop_row k [] h = refl
table-drop_row k (r ∷ l) (h, hs) =
    elim (Bool-cases (eq_text (lower_ascii r.name) (lower_ascii k))) [
      | inl e ↦ rw e (
          sym (
            remove-absent (lower_ascii k) (table l) (
              subst (λ q. get q (table l) ≡ none)
                (eq_text_sound (lower_ascii r.name) (lower_ascii k) e) h)))
      | inr e ↦ rw e (ap (λ d. (lower_ascii r.name, r.expected) ∷ d) (table-drop_row k l hs))
    ]

remove-Distinct : (k : Text) (d : Dict Number) → Distinct d → Distinct (remove k d)
unfolding remove
remove-Distinct k [] h = tt
remove-Distinct k ((j, v) ∷ d) (h, hs) = elim (Bool-cases (eq_text j k)) [
  | inl e ↦ rw e (remove-Distinct k d hs)
  | inr e ↦ rw e (rw (get-remove k j d, h) (ground arith), remove-Distinct k d hs)
]

-- What one entry says of the setting `q`.
abbrev said : Json → Option Number → Option Number
said null o = none
said (number (whole n)) o = some (whole n)
said (number (below n)) o = some (below n)
said v o = o

unfoldable pub replay : Text → List (Text × Json) → Option Number → Option Number
replay q [] o = o
replay q ((k, v) ∷ l) o =
    replay q l
      (if is_setting_name k && not (is_maxdop k) && eq_text (lower_ascii k) q then said v o else o)

-- One entry, on the table.
unfoldable on_table : Text → Json → Dict Number → Dict Number
unfolding set remove
on_table k null d = remove (lower_ascii k) d
on_table k (number (whole n)) d = set (lower_ascii k) (whole n) d
on_table k (number (below n)) d = set (lower_ascii k) (below n) d
on_table k v d = d

table-put_setting :
    (k : Text) (v : Json) (b : ConformanceBaseline)
    → Distinct (table b.instances)
    → table (put_setting k v b).instances ≡ on_table k v (table b.instances)
unfolding on_table
table-put_setting k null b h = table-drop_row k b.instances h
table-put_setting k (boolean x) b h = refl
table-put_setting k (number (whole n)) b h = table-put_row k (whole n) b.instances
table-put_setting k (number (below n)) b h = table-put_row k (below n) b.instances
table-put_setting k (number fraction) b h = refl
table-put_setting k (string s) b h = refl
table-put_setting k (array xs) b h = refl
table-put_setting k (object fs) b h = refl

on_table-Distinct : (k : Text) (v : Json) (d : Dict Number) → Distinct d → Distinct (on_table k v d)
unfolding on_table
on_table-Distinct k null d h = remove-Distinct (lower_ascii k) d h
on_table-Distinct k (boolean x) d h = h
on_table-Distinct k (number (whole n)) d h = set-Distinct (lower_ascii k) (whole n) d h
on_table-Distinct k (number (below n)) d h = set-Distinct (lower_ascii k) (below n) d h
on_table-Distinct k (number fraction) d h = h
on_table-Distinct k (string s) d h = h
on_table-Distinct k (array xs) d h = h
on_table-Distinct k (object fs) d h = h

abbrev if_named : Bool → Json → Option Number → Option Number
if_named t v o = if t then said v o else o

get-on_table :
    (q k : Text) (v : Json) (d : Dict Number)
    → get q (on_table k v d) ≡ if_named (eq_text (lower_ascii k) q) v (get q d)
unfolding on_table
get-on_table q k null d = get-remove (lower_ascii k) q d
get-on_table q k (boolean x) d = ground arith
get-on_table q k (number (whole n)) d = get-set (lower_ascii k) q (whole n) d
get-on_table q k (number (below n)) d = get-set (lower_ascii k) q (below n) d
get-on_table q k (number fraction) d = ground arith
get-on_table q k (string s) d = ground arith
get-on_table q k (array xs) d = ground arith
get-on_table q k (object fs) d = ground arith

maxdop_keeps :
    (k : Text) (v : Json) (b : ConformanceBaseline) → (put_maxdop k v b).instances ≡ b.instances
maxdop_keeps k null b = refl
maxdop_keeps k (boolean x) b = refl
maxdop_keeps k (number n) b = kept (int_between 0 32767 (number n))
  where
    kept : (o : Option ℕ) → (site_maxdop k o b).instances ≡ b.instances
    kept none = refl
    kept (some n) = refl
maxdop_keeps k (string s) b = refl
maxdop_keeps k (array xs) b = refl
maxdop_keeps k (object fs) b = refl

-- A setting that is refused, or is the one that has a rule of its own, changes no row.
set_instance-rows :
    (k : Text) (v : Json) (b : ConformanceBaseline)
    → (set_instance k v b).instances ≡ (
        if is_setting_name k && not (is_maxdop k)
        then (put_setting k v b).instances
        else b.instances)
unfolding set_instance
set_instance-rows k v b = elim (Bool-cases (is_setting_name k)) [
  | inl e ↦ elim (Bool-cases (is_maxdop k)) [
    | inl m ↦ rw (e, m) (maxdop_keeps k v b)
    | inr m ↦ rw (e, m) refl
  ]
  | inr e ↦ rw e refl
]

set_instance-Distinct :
    (k : Text) (v : Json) (b : ConformanceBaseline)
    → Distinct (table b.instances)
    → Distinct (table (set_instance k v b).instances)
set_instance-Distinct k v b h =
    subst (λ l. Distinct (table l)) (sym (set_instance-rows k v b))
      (kept (is_setting_name k && not (is_maxdop k)))
  where
    kept : (t : Bool) → Distinct (table (if t then (put_setting k v b).instances else b.instances))
    kept true =
        subst (λ d. Distinct d) (sym (table-put_setting k v b h))
          (on_table-Distinct k v (table b.instances) h)
    kept false = h

set_instance-get :
    (q k : Text) (v : Json) (b : ConformanceBaseline)
    → Distinct (table b.instances)
    → get q (table (set_instance k v b).instances) ≡ (
        if is_setting_name k && not (is_maxdop k) && eq_text (lower_ascii k) q
        then said v (get q (table b.instances))
        else get q (table b.instances))
set_instance-get q k v b h =
    ap (λ l. get q (table l)) (set_instance-rows k v b) ∙ at (is_setting_name k) (is_maxdop k)
  where
    at :
        (n m : Bool)
        → get q (table (if n && not m then (put_setting k v b).instances else b.instances)) ≡ (
            if n && not m && eq_text (lower_ascii k) q
            then said v (get q (table b.instances))
            else get q (table b.instances))
    at true false = ap (get q) (table-put_setting k v b h) ∙ get-on_table q k v (table b.instances)
    at true true = refl
    at false m = refl

merge_instances-replay :
    (q : Text) (l : List (Text × Json)) (b : ConformanceBaseline)
    → Distinct (table b.instances)
    → get q (table (merge_instances l b).instances) ≡ replay q l (get q (table b.instances))
unfolding merge_instances replay
merge_instances-replay q [] b h = refl
merge_instances-replay q ((k, v) ∷ l) b h =
    merge_instances-replay q l (set_instance k v b) (set_instance-Distinct k v b h)
    ∙ ap (replay q l) (set_instance-get q k v b h)

pub merge_instances-Distinct :
    (l : List (Text × Json)) (b : ConformanceBaseline)
    → Distinct (table b.instances)
    → Distinct (table (merge_instances l b).instances)
unfolding merge_instances
merge_instances-Distinct [] b h = h
merge_instances-Distinct ((k, v) ∷ l) b h =
    merge_instances-Distinct l (set_instance k v b) (set_instance-Distinct k v b h)

merge_ag-rows :
    (rt : Runtime) (l : List (Text × Json)) (b : ConformanceBaseline)
    → (merge_ag rt l b).instances ≡ b.instances
unfolding merge_ag
merge_ag-rows rt [] b = refl
merge_ag-rows rt ((k, v) ∷ l) b =
    merge_ag-rows rt l (put_ag k (set_ag rt k v b.ag) b) ∙ kept (set_ag rt k v b.ag)
  where
    kept : (o : Option AgPolicy) → (put_ag k o b).instances ≡ b.instances
    kept none = refl
    kept (some a) = refl

merge_replica-rows :
    (rt : Runtime) (l : List (Text × Json)) (b : ConformanceBaseline)
    → (merge_replica rt l b).instances ≡ b.instances
unfolding merge_replica
merge_replica-rows rt [] b = refl
merge_replica-rows rt ((k, v) ∷ l) b =
    merge_replica-rows rt l (put_replica k (set_replica rt k v b.replica) b)
    ∙ kept (set_replica rt k v b.replica)
  where
    kept : (o : Option ReplicaPolicy) → (put_replica k o b).instances ≡ b.instances
    kept none = refl
    kept (some r) = refl

-- The entries of a section of the setting; a setting that is no object has none.
unfoldable pub section_of : Text → Option Json → List (Text × Json)
unfolding entries field_of
section_of key (some (object fs)) = entries (field_of key (object fs))
section_of key _ = []

pub default_instances-Distinct : Distinct (table default_instances)
unfolding default_instances row lower_ascii get
default_instances-Distinct = (
  refl,
  (refl, (refl, (refl, (refl, (refl, (refl, (refl, (refl, (refl, (refl, (refl, tt))))))))))),
)

-- The expectation of every setting is the default, changed by the entries that name it in any case, in
-- their order: an integer sets it, null takes the setting off the check, and any other value and a name
-- that is not of its characters change nothing.
pub parse_conformance_baseline-replay :
    (rt : Runtime) (raw : Option Text) (q : Text)
    → get q (table (parse_conformance_baseline rt raw).instances)
      ≡ replay q (section_of (codes "instance") (parsed rt raw)) (get q (table default_instances))
unfolding parse_conformance_baseline section_of default_conformance replay
parse_conformance_baseline-replay rt raw q = merged (parsed rt raw)
  where
    merged :
        (o : Option Json)
        → get q (table (merge rt o default_conformance).instances)
          ≡ replay q (section_of (codes "instance") o) (get q (table default_instances))
    merged none = refl
    merged (some null) = refl
    merged (some (boolean x)) = refl
    merged (some (number n)) = refl
    merged (some (string s)) = refl
    merged (some (array xs)) = refl
    merged (some (object fs)) =
        let rows =
          merge_replica-rows rt (entries (field_of (codes "replica") (object fs)))
            (merge_ag rt (entries (field_of (codes "ag") (object fs))) default_conformance)
          ∙ merge_ag-rows rt (entries (field_of (codes "ag") (object fs))) default_conformance in
        merge_instances-replay q (entries (field_of (codes "instance") (object fs)))
          (merge_replica rt (entries (field_of (codes "replica") (object fs)))
            (merge_ag rt (entries (field_of (codes "ag") (object fs))) default_conformance))
          (subst (λ l. Distinct (table l)) (sym rows) default_instances-Distinct)
        ∙ ap (λ l. replay q (entries (field_of (codes "instance") (object fs))) (get q (table l)))
            rows
