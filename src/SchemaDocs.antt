-- ===== src/SchemaDocs.antt =====
-- services/dba-mcp/src/schemaDocs.ts: the documents of the schemas and the cache of their files. The
-- files stay as they are during a call: `is_dir`, `list_dir` and `read` are what the file system answers
-- at the time (no names, or none, on an exception), `read` with `JSON.parse`, and
-- `join` is the path's. `lower` is `toLowerCase`.
pub mod Searching
mod Caching
mod Limits
mod Tests
use mssql_data_api.Prelude.{
  Bool, true, false, not, ◌&&◌, Option, none, some, List, [], ◌∷◌, if◌then◌else◌,
}
use mssql_data_api.Prelude.Text.{Text, codes, eq_text}
use mssql_data_api.Prelude.Dict.{Dict, get, set}

-- A column; a field that is not a string is none.
pub record Column : Type 0 where
  pub name : Option Text
  pub description : Option Text

-- A documented object; the values of an enumeration are as `JSON.stringify` gives them.
pub record Object : Type 0 where
  pub name : Option Text
  pub description : Option Text
  pub columns : List Column
  pub enums : List (Text × Text)

-- A parsed file, as far as it is read: the objects under each key.
abbrev pub Document : Type 0
Document = Text → List Object

-- `OBJECT_FILES`
pub record ObjectFile : Type 0 where
  pub file : Text
  pub key : Text
  pub object_type : Text

abbrev pub object_files : List ObjectFile
object_files =
    record { file = codes "tables.json"; key = codes "tables"; object_type = codes "table" }
    ∷ record {
      file = codes "procedures.json";
      key = codes "procedures";
      object_type = codes "procedure";
    }
    ∷ record { file = codes "views.json"; key = codes "views"; object_type = codes "view" }
    ∷ record {
      file = codes "functions.json";
      key = codes "functions";
      object_type = codes "function";
    }
    ∷ record { file = codes "synonyms.json"; key = codes "synonyms"; object_type = codes "synonym" }
    ∷ []

-- `fileCache`: a file that is missing or malformed is kept as null, here the inner none.
abbrev pub Cache : Type 0
Cache = Dict (Option Document)

pub record Files : Type 0 where
  pub is_dir : Text → Bool
  pub list_dir : Text → List Text
  pub read : Text → Option Document
  pub join : Text → Text → Text
  pub lower : Text → Text

abbrev pub cached_or :
    Option (Option Document) → Option Document → Text → Cache → Option Document × Cache
cached_or (some d) read path cache = (d, cache)
cached_or none read path cache = (read, set path read cache)

-- `doc?.[key] ?? []`
abbrev pub objects_under : Text → Option Document → List Object
objects_under key none = []
objects_under key (some d) = d key

module _ (fs : Files) where
  unfoldable pub read_json : Text → Cache → Option Document × Cache
  unfolding get set
  read_json path cache = cached_or (get path cache) (fs.read path) path cache

  unfoldable pub find_dir : Text → Text → List Text → Option Text
  find_dir parent want [] = none
  find_dir parent want (d ∷ l) =
      let rest = find_dir parent want l in
      if eq_text (fs.lower d) want && fs.is_dir (fs.join parent d)
      then some (fs.join parent d)
      else rest

  unfoldable pub resolve_dir : Text → Text → Option Text
  unfolding find_dir
  resolve_dir parent [] = none
  resolve_dir parent (c ∷ name) =
      if fs.is_dir (fs.join parent (c ∷ name))
      then some (fs.join parent (c ∷ name))
      else find_dir parent (fs.lower (c ∷ name)) (fs.list_dir parent)

  abbrev pub resolve_in : Option Text → Text → Option Text
  resolve_in none schema = none
  resolve_in (some dir) schema = resolve_dir dir schema

  unfoldable pub schema_dir : Text → Text → Text → Option Text
  unfolding resolve_dir
  schema_dir root database schema = resolve_in (resolve_dir root database) schema

  abbrev pub is_named : Text → Option Text → Bool
  is_named want none = false
  is_named want (some n) = eq_text (fs.lower n) want

  unfoldable pub find_object : Text → List Object → Option Object
  find_object want [] = none
  find_object want (o ∷ l) =
      let rest = find_object want l in if is_named want o.name then some o else rest

  -- The loop over the files; the ones behind a hit are not read.
  abbrev pub found_or :
      Text
      → Option Object × Cache
      → (Cache → Option (Text × Object) × Cache)
      → Option (Text × Object) × Cache
  found_or object_type (some o, cache) next = (some (object_type, o), cache)
  found_or object_type (none, cache) next = next cache

  unfoldable pub find_in_files :
      Text → Text → List ObjectFile → Cache → Option (Text × Object) × Cache
  unfolding read_json find_object
  find_in_files dir want [] cache = (none, cache)
  find_in_files dir want (f ∷ l) cache =
      let doc = read_json (fs.join dir f.file) cache in
      found_or f.object_type (find_object want (objects_under f.key doc.0), doc.1)
        (find_in_files dir want l)

  abbrev pub describe_in : Option Text → Text → Cache → Option (Text × Object) × Cache
  describe_in none name cache = (none, cache)
  describe_in (some dir) name cache = find_in_files dir (fs.lower name) object_files cache

  unfoldable pub describe_doc_object :
      Text → Text → Text → Text → Cache → Option (Text × Object) × Cache
  unfolding find_in_files schema_dir
  describe_doc_object root database schema name cache =
      describe_in (schema_dir root database schema) name cache
