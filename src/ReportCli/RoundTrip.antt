-- ===== src/ReportCli/RoundTrip.antt =====
-- What `parseFlags` of services/dba-mcp/src/reportCli.ts reads back.
use mssql_data_api.Prelude.{
  ℕ, ◌==◌, Option, none, some, List, [], ◌∷◌, ◌++◌, ◌≡◌, refl, ap, ◌∙◌, Bool-cases, inl, inr, ◌⊎◌,
  true, false, if◌then◌else◌, All,
}
use mssql_data_api.Prelude.Text.{Text, codes, eq_text}
use mssql_data_api.Prelude.Dict.{Dict, get, set, get-set}
use mssql_data_api.ReportCli.Flags.{
  flag, consed, cut_eq, inline, with_next, next_flag, kind, settings, assign, parse_flags,
}

-- The ways to write a setting: `--k=v`, `--k v` and, for the value `true`, `--k`.
pub data Form : Type 0 where
  joined : Text → Text → Form
  apart : Text → Text → Form
  switch : Text → Form

abbrev pub dashed : Text → Text
dashed k = b'-' ∷ b'-' ∷ k

abbrev pub print : List Form → List Text
print [] = []
print (joined k v ∷ l) = (dashed (k ++ b'=' ∷ v)) ∷ print l
print (apart k v ∷ l) = dashed k ∷ v ∷ print l
print (switch k ∷ l) = dashed k ∷ print l

abbrev pub setting_of : Form → Text × Text
setting_of (joined k v) = (k, v)
setting_of (apart k v) = (k, v)
setting_of (switch k) = (k, codes "true")

abbrev pub settings_of : List Form → List (Text × Text)
settings_of [] = []
settings_of (f ∷ l) = setting_of f ∷ settings_of l

-- The name has no `=`, and a value that stands apart does not begin with `--`.
abbrev pub IsWritten : Form → Type 0
IsWritten (joined k v) = cut_eq k ≡ none
IsWritten (apart k v) = (cut_eq k ≡ none) × (flag v ≡ none)
IsWritten (switch k) = cut_eq k ≡ none

flag-dashed : (k : Text) → flag (dashed k) ≡ some k
unfolding flag
flag-dashed k = refl

consed-none : (c : ℕ) (o : Option (Text × Text)) → consed c o ≡ none → o ≡ none
consed-none c none h = refl
consed-none c (some p) h = cc h

cut_eq-joined : (k v : Text) → cut_eq k ≡ none → cut_eq (k ++ b'=' ∷ v) ≡ some (k, v)
unfolding cut_eq
cut_eq-joined [] v h = refl
cut_eq-joined (c ∷ k) v h = elim (Bool-cases (c == b'=')) [
  | inl e ↦ cc (rw e at h)
  | inr e ↦ rw (e, cut_eq-joined k v (consed-none c (cut_eq k) (rw e at h))) refl
]

kind-joined :
    (k v : Text) (next : Option Text)
    → cut_eq k ≡ none
    → kind (dashed (k ++ b'=' ∷ v)) next ≡ inline k v
unfolding kind
kind-joined k v next h = rw (cut_eq-joined k v h) refl

kind-bare :
    (k : Text) (next : Option Text)
    → cut_eq k ≡ none
    → kind (dashed k) next ≡ with_next k next (next_flag next)
unfolding kind
kind-bare k next h = rw h refl

settings-joined :
    (k v : Text) (l : List Text)
    → cut_eq k ≡ none
    → settings (dashed (k ++ b'=' ∷ v) ∷ l) ≡ (k, v) ∷ settings l
unfolding settings
settings-joined k v [] h = rw (kind-joined k v none h) refl
settings-joined k v (b ∷ l) h = rw (kind-joined k v (some b) h) refl

settings-apart :
    (k v : Text) (l : List Text)
    → cut_eq k ≡ none
    → flag v ≡ none
    → settings (dashed k ∷ v ∷ l) ≡ (k, v) ∷ settings l
unfolding settings
settings-apart k v l h f = rw (kind-bare k (some v) h, f) refl

-- The first argument, if there is one, is a flag.
abbrev BeginsFlag : List Text → Type 0
BeginsFlag [] = Unit
BeginsFlag (a ∷ l) = (k : Text) × (flag a ≡ some k)

settings-switch :
    (k : Text) (l : List Text)
    → cut_eq k ≡ none
    → BeginsFlag l
    → settings (dashed k ∷ l) ≡ (k, codes "true") ∷ settings l
unfolding settings
settings-switch k [] h b = rw (kind-bare k none h) refl
settings-switch k (a ∷ l) h (t, b) = rw (kind-bare k (some a) h, b) refl

print-BeginsFlag : (l : List Form) → BeginsFlag (print l)
print-BeginsFlag [] = tt
print-BeginsFlag (joined k v ∷ l) = (k ++ b'=' ∷ v, flag-dashed (k ++ b'=' ∷ v))
print-BeginsFlag (apart k v ∷ l) = (k, flag-dashed k)
print-BeginsFlag (switch k ∷ l) = (k, flag-dashed k)

settings-print : (l : List Form) → All IsWritten l → settings (print l) ≡ settings_of l
unfolding settings
settings-print [] h = refl
settings-print (joined k v ∷ l) (h, hs) =
    settings-joined k v (print l) h ∙ ap (λ r. (k, v) ∷ r) (settings-print l hs)
settings-print (apart k v ∷ l) ((h, f), hs) =
    settings-apart k v (print l) h f ∙ ap (λ r. (k, v) ∷ r) (settings-print l hs)
settings-print (switch k ∷ l) (h, hs) =
    settings-switch k (print l) h (print-BeginsFlag l)
    ∙ ap (λ r. (k, codes "true") ∷ r) (settings-print l hs)

abbrev or_earlier : Option Text → Option Text → Option Text
or_earlier none o = o
or_earlier (some v) o = some v

abbrev given : Text → Text → Text → Option Text
given k j v = if eq_text j k then some v else none

-- The value of the last setting of a name.
abbrev pub last_value : Text → List (Text × Text) → Option Text
last_value k [] = none
last_value k ((j, v) ∷ l) = or_earlier (last_value k l) (given k j v)

get-assign :
    (k : Text) (l : List (Text × Text)) (o : Dict Text)
    → get k (assign l o) ≡ or_earlier (last_value k l) (get k o)
unfolding assign
get-assign k [] o = refl
get-assign k ((j, v) ∷ l) o =
    get-assign k l (set j v o)
    ∙ ap (λ q. or_earlier (last_value k l) q) (get-set j k v o)
    ∙ merged (last_value k l) (Bool-cases (eq_text j k))
  where
    merged :
        (later : Option Text)
        → ((eq_text j k ≡ true) ⊎ (eq_text j k ≡ false))
        → or_earlier later (if eq_text j k then some v else get k o)
          ≡ or_earlier (or_earlier later (given k j v)) (get k o)
    merged (some w) h = refl
    merged none (inl e) = rw e refl
    merged none (inr e) = rw e refl

or_earlier-none : (o : Option Text) → or_earlier o none ≡ o
or_earlier-none none = refl
or_earlier-none (some v) = refl

-- The flags of a command line, each written as `--k=v`, `--k v` or `--k`, in any order and mix, are
-- read back as they were meant: a name has the value of its last flag, and none where no flag has the
-- name. No name has `=` and no value that stands apart begins with `--`.
pub parse_flags-print :
    (l : List Form) (k : Text)
    → All IsWritten l
    → get k (parse_flags (print l)) ≡ last_value k (settings_of l)
unfolding parse_flags get
parse_flags-print l k h =
    ap (λ s. get k (assign s [])) (settings-print l h)
    ∙ get-assign k (settings_of l) []
    ∙ or_earlier-none (last_value k (settings_of l))
