-- ===== src/ImportDocs.antt =====
-- scripts/import-schema-docs.mjs: the descriptions that are made of the documents of the schemas. The files
-- that are found and read are given, in their order; the entries of a document are objects.
mod Kept
mod Tests
use mssql_data_api.Prelude.{
  ℕ, Bool, true, false, not, ◌&&◌, ◌||◌, ◌==◌, Option, none, some, List, [], ◌∷◌, ◌++◌, map,
  if◌then◌else◌,
}
use mssql_data_api.Prelude.Text.{Text, codes, trim}
use mssql_data_api.Prelude.Dict.{Dict, get, set}
use mssql_data_api.Prelude.Json.{
  Json, null, boolean, number, string, array, object, Number, whole, elements, fields, Runtime,
  to_text, join,
}
use mssql_data_api.Settings.{is_blank}
use mssql_data_api.Settings.Conformance.{entries}
use mssql_data_api.Report.{Row}

-- Whether a value counts as true; a number that is no integer is not 0.
abbrev pub truthy : Json → Bool
truthy null = false
truthy (boolean b) = b
truthy (number (whole n)) = not (n == 0)
truthy (number _) = true
truthy (string s) = not (is_blank s)
truthy (array xs) = true
truthy (object fs) = true

-- `a || b || ""`, a missing one being undefined.
abbrev pub first_true : Option Json → Json → Json
first_true none d = d
first_true (some v) d = if truthy v then v else d

abbrev blank : Json
blank = string []

-- The entries of an object or an array, where a value is one.
abbrev inner : Json → Option (List (Text × Json))
inner (object fs) = some (fields fs)
inner (array xs) = some (entries (some (array xs)))
inner _ = none

unfoldable pub codes_text : Runtime → Text → List (Text × Json) → Text
unfolding join
codes_text rt col l =
    col ++ (codes ": " ++ join (codes ", ") (map (λ e. e.0 ++ (codes "=" ++ to_text rt e.1)) l))

abbrev and_codes : Option Text → List Text → List Text
and_codes none l = l
and_codes (some t) l = t ∷ l

abbrev codes_of : Runtime → Text → Option (List (Text × Json)) → Option Text
codes_of rt col none = none
codes_of rt col (some l) = some (codes_text rt col l)

unfoldable pub enum_parts : Runtime → List (Text × Json) → List Text
unfolding codes_text entries
enum_parts rt [] = []
enum_parts rt ((col, m) ∷ l) = and_codes (codes_of rt col (inner m)) (enum_parts rt l)

abbrev pub all_codes : List Text → Text
all_codes [] = []
all_codes (p ∷ l) = codes " Codes — " ++ (join (codes "; ") (p ∷ l) ++ codes ".")

unfoldable pub enums_text : Runtime → Option Json → Text
unfolding enum_parts join entries
enums_text rt (some (object fs)) = all_codes (enum_parts rt (fields fs))
enums_text rt (some (array xs)) = all_codes (enum_parts rt (entries (some (array xs))))
enums_text rt _ = []

-- `x.description || x.purpose || ""`
unfoldable pub described : Row → Json
unfolding get
described x = first_true (get (codes "description") x) (first_true (get (codes "purpose") x) blank)

abbrev or_none : Text → Option Text
or_none [] = none
or_none (c ∷ s) = some (c ∷ s)

unfoldable pub table_desc : Runtime → Row → Option Text
unfolding described enums_text trim get
table_desc rt t = or_none (trim (to_text rt (described t) ++ enums_text rt (get (codes "enums") t)))

pub record Param : Type 0 where
  pub name : Json
  pub description : Json
  pub required : Bool
  pub default : Json

abbrev is_true : Option Json → Bool
is_true none = false
is_true (some v) = truthy v

-- `v ?? ""`
abbrev or_blank : Option Json → Json
or_blank none = blank
or_blank (some null) = blank
or_blank (some v) = v

unfoldable pub param_of : Row → Json → Param
unfolding get
param_of x name = record {
  name = name;
  description = first_true (get (codes "description") x) blank;
  required = is_true (get (codes "required") x);
  default = or_blank (get (codes "default") x);
}

abbrev with_param : Row → Option Json → List Param → List Param
with_param x none l = l
with_param x (some n) l = if truthy n then param_of x n ∷ l else l

-- A parameter that is no object has no name.
unfoldable pub params_of : List Json → List Param
unfolding param_of get
params_of [] = []
params_of (object fs ∷ l) = with_param (fields fs) (get (codes "name") (fields fs)) (params_of l)
params_of (_ ∷ l) = params_of l

abbrev params_in : Json → Option (List Param)
params_in (array xs) = some (params_of (elements xs))
params_in _ = none

-- `p.parameters || p.params`
unfoldable pub proc_params : Row → Option (List Param)
unfolding params_of get
proc_params p =
    params_in (first_true (get (codes "parameters") p) (first_true (get (codes "params") p) null))

pub record Described : Type 0 where
  pub description : Json
  pub params : Option (List Param)

abbrev pub Out : Type 0
Out = Dict Described

pub record Doc : Type 0 where
  pub tables : List Row
  pub views : List Row
  pub procedures : List Row

module _ (rt : Runtime) (schema : Text) where
  abbrev pub key_of : Json → Text
  key_of name = schema ++ (b'.' ∷ to_text rt name)

  abbrev pub put_named : Option Json → Option Described → Out → Out
  put_named none d out = out
  put_named (some n) none out = out
  put_named (some n) (some d) out = if truthy n then set (key_of n) d out else out

  abbrev of_table : Option Text → Option Described
  of_table none = none
  of_table (some s) = some (record { description = string s; params = none })

  abbrev of_view : Json → Option Described
  of_view v = if truthy v then some (record { description = v; params = none }) else none

  unfoldable pub add_tables : List Row → Out → Out
  unfolding table_desc get set
  add_tables [] out = out
  add_tables (t ∷ l) out =
      add_tables l (put_named (get (codes "name") t) (of_table (table_desc rt t)) out)

  unfoldable pub add_views : List Row → Out → Out
  unfolding described get set
  add_views [] out = out
  add_views (v ∷ l) out = add_views l (put_named (get (codes "name") v) (of_view (described v)) out)

  abbrev pub of_procedure : Row → Described
  of_procedure p = record { description = described p; params = proc_params p }

  unfoldable pub add_procedures : List Row → Out → Out
  unfolding described proc_params get set
  add_procedures [] out = out
  add_procedures (p ∷ l) out =
      add_procedures l (put_named (get (codes "name") p) (some (of_procedure p)) out)

  unfoldable pub add_doc : Doc → Out → Out
  unfolding add_tables add_views add_procedures
  add_doc d out = add_procedures d.procedures (add_views d.views (add_tables d.tables out))

  -- A file that cannot be read or parsed is none.
  unfoldable pub add_docs : List (Option Doc) → Out → Out
  unfolding add_doc
  add_docs [] out = out
  add_docs (none ∷ l) out = add_docs l out
  add_docs (some d ∷ l) out = add_docs l (add_doc d out)

unfoldable pub import_docs : Runtime → List (Text × List (Option Doc)) → Out → Out
unfolding add_docs
import_docs rt [] out = out
import_docs rt ((schema, docs) ∷ l) out = import_docs rt l (add_docs rt schema docs out)
