-- ===== src/SchemaDocs/Searching.antt =====
-- `searchSchemaDocs` of services/dba-mcp/src/schemaDocs.ts. `includes` is the string's, and `base` the
-- last part of a path. The text is trimmed and in lower case where it comes here.
use mssql_data_api.Prelude.{
  ℕ, ◌+◌, leb, Bool, true, false, ◌||◌, Option, none, some, List, [], ◌∷◌, ◌++◌, if◌then◌else◌,
  length, any,
}
use mssql_data_api.Prelude.Text.{Text, eq_text}
use mssql_data_api.SchemaDocs.{
  Column, Object, ObjectFile, Cache, Files, objects_under, read_json, object_files, resolve_dir,
}

-- What a hit matched on; a column without a name is none.
pub data Label : Type 0 where
  on_name : Label
  on_description : Label
  on_column : Option Text → Label
  on_enum : Text → Label

pub record Hit : Type 0 where
  pub database : Text
  pub schema : Text
  pub object_type : Text
  pub object : Option Text
  pub matched_on : List Label

-- The hits, and whether the limit is reached.
abbrev pub Hits : Type 0
Hits = List Hit × Bool

abbrev pub same_name : Option Text → Option Text → Bool
same_name none none = true
same_name (some a) (some b) = eq_text a b
same_name _ _ = false

abbrev pub same_label : Label → Label → Bool
same_label on_name on_name = true
same_label on_description on_description = true
same_label (on_column a) (on_column b) = same_name a b
same_label (on_enum a) (on_enum b) = eq_text a b
same_label _ _ = false

-- `[...new Set(matchedOn)]`
unfoldable pub distinct : List Label → List Label → List Label
distinct seen [] = []
distinct seen (x ∷ l) =
    let rest = distinct (x ∷ seen) l in if any (λ y. same_label y x) seen then rest else x ∷ rest

abbrev pub is_empty : List Label → Bool
is_empty [] = true
is_empty (x ∷ l) = false

-- A limit of 0 lets one hit through, as the test stands behind the push.
unfoldable pub push : ℕ → Hit → Hits → Hits
push limit h (hits, done) = (hits ++ h ∷ [], leb limit (length hits + 1))

module _ (fs : Files) (includes : Text → Text → Bool) (needle : Text) (limit : ℕ) where
  abbrev pub holds : Option Text → Bool
  holds none = false
  holds (some s) = includes (fs.lower s) needle

  unfoldable pub columns_matched : List Column → List Label
  columns_matched [] = []
  columns_matched (c ∷ l) =
      let rest = columns_matched l in
      if holds c.name || holds c.description then on_column c.name ∷ rest else rest

  unfoldable pub enums_matched : List (Text × Text) → List Label
  enums_matched [] = []
  enums_matched ((name, values) ∷ l) =
      let rest = enums_matched l in
      if includes (fs.lower name) needle || includes (fs.lower values) needle
      then on_enum name ∷ rest
      else rest

  unfoldable pub matched : Object → List Label
  unfolding distinct columns_matched enums_matched
  matched o = distinct [] (
      (if holds o.name then on_name ∷ [] else [])
      ++ (if holds o.description then on_description ∷ [] else [])
      ++ columns_matched o.columns
      ++ enums_matched o.enums)

  abbrev pub hit_of : Text → Text → Text → Object → Hit
  hit_of database schema object_type o = record {
    database = database;
    schema = schema;
    object_type = object_type;
    object = o.name;
    matched_on = matched o;
  }

  unfoldable pub scan_object : Text → Text → Text → Object → Hits → Hits
  unfolding push matched
  scan_object database schema object_type o (hits, true) = (hits, true)
  scan_object database schema object_type o (hits, false) =
      if is_empty (matched o)
      then (hits, false)
      else push limit (hit_of database schema object_type o) (hits, false)

  unfoldable pub scan_objects : Text → Text → Text → List Object → Hits → Hits
  unfolding scan_object
  scan_objects database schema object_type [] s = s
  scan_objects database schema object_type (o ∷ l) s =
      scan_objects database schema object_type l (scan_object database schema object_type o s)

  -- No file is read once the limit is reached.
  unfoldable pub scan_files : Text → Text → Text → List ObjectFile → Hits × Cache → Hits × Cache
  unfolding scan_objects read_json
  scan_files database schema dir [] s = s
  scan_files database schema dir (f ∷ l) ((hits, true), cache) = ((hits, true), cache)
  scan_files database schema dir (f ∷ l) ((hits, false), cache) =
      let doc = read_json fs (fs.join dir f.file) cache in
      scan_files database schema dir l (
        scan_objects database schema f.object_type (objects_under f.key doc.0) (hits, false),
        doc.1,
      )

  unfoldable pub scan_schemas : Text → Text → List Text → Hits × Cache → Hits × Cache
  unfolding scan_files
  scan_schemas database dir [] s = s
  scan_schemas database dir (schema ∷ l) s =
      let path = fs.join dir schema in
      scan_schemas database dir l
        (if fs.is_dir path then scan_files database schema path object_files s else s)

  unfoldable pub scan_databases : (Text → Text) → List Text → Hits × Cache → Hits × Cache
  unfolding scan_schemas
  scan_databases base [] s = s
  scan_databases base (dir ∷ l) s =
      scan_databases base l (scan_schemas (base dir) dir (fs.list_dir dir) s)

  unfoldable pub directories : Text → List Text → List Text
  directories root [] = []
  directories root (d ∷ l) =
      let rest = directories root l in
      if fs.is_dir (fs.join root d) then fs.join root d ∷ rest else rest

  abbrev pub one_directory : Option Text → List Text
  one_directory none = []
  one_directory (some d) = d ∷ []

  -- A database that is missing and one that is empty search everywhere.
  unfoldable pub searched : Text → Option Text → List Text
  unfolding directories resolve_dir
  searched root none = directories root (fs.list_dir root)
  searched root (some []) = directories root (fs.list_dir root)
  searched root (some (c ∷ d)) = one_directory (resolve_dir fs root (c ∷ d))

  abbrev pub or_nothing : Text → Hits × Cache → Cache → List Hit × Cache
  or_nothing [] r cache = ([], cache)
  or_nothing (c ∷ s) r cache = (r.0.0, r.1)

  unfoldable pub search_schema_docs : (Text → Text) → Text → Option Text → Cache → List Hit × Cache
  unfolding scan_databases searched
  search_schema_docs base root database cache =
      or_nothing needle (scan_databases base (searched root database) (([], false), cache)) cache
