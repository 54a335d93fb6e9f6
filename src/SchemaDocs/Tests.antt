-- ===== src/SchemaDocs/Tests.antt =====
-- The documents of a small tree, and the theorem on the cache there.
use mssql_data_api.Prelude.{◌≡◌, refl, Option, none, some, [], ◌∷◌, ◌++◌, ◌||◌, if◌then◌else◌}
use mssql_data_api.Prelude.Text.{Text, codes, eq_text}
use mssql_data_api.Prelude.Dict.{get, set}
use mssql_data_api.SchemaDocs.{
  Object, Document, Cache, Files, read_json, find_dir, resolve_dir, schema_dir, find_object,
  find_in_files, describe_doc_object,
}
use mssql_data_api.SchemaDocs.Searching.{
  on_name, search_schema_docs, scan_databases, searched, directories, scan_schemas, scan_files,
  scan_objects, scan_object, matched, distinct, columns_matched, enums_matched, push,
}

abbrev view : Object
view = record { name = some (codes "v"); description = none; columns = []; enums = [] }

abbrev document : Document
document key = if eq_text key (codes "views") then view ∷ [] else []

-- One database `d` with one schema `s` that has views.
abbrev files : Files
files = record {
  is_dir = λ p. eq_text p (codes "r/d") || eq_text p (codes "r/d/s");
  list_dir = λ p.
      if eq_text p (codes "r")
      then codes "d" ∷ []
      else if eq_text p (codes "r/d")
      then codes "s" ∷ []
      else [];
  read = λ p. if eq_text p (codes "r/d/s/views.json") then some document else none;
  join = λ p n. p ++ codes "/" ++ n;
  lower = λ s. s;
}

describes :
    (describe_doc_object files (codes "r") (codes "d") (codes "s") (codes "v") []).0
    ≡ some (codes "view", view)
unfolding describe_doc_object schema_dir resolve_dir find_dir find_in_files read_json find_object
    get set
describes = refl

finds :
    (search_schema_docs files (λ s t. eq_text s t) (codes "v") 5 (λ p. p) (codes "r") none []).0
    ≡ record {
      database = codes "r/d";
      schema = codes "s";
      object_type = codes "view";
      object = some (codes "v");
      matched_on = on_name ∷ [];
    }
      ∷ []
unfolding search_schema_docs scan_databases searched directories scan_schemas scan_files
    scan_objects scan_object matched distinct columns_matched enums_matched push read_json get set
finds = refl

-- The file of the views could not be read by an earlier call.
abbrev missed : Cache
missed = (codes "r/d/s/views.json", none) ∷ []

abbrev again : Option (Text × Object) × Cache
again = describe_doc_object files (codes "r") (codes "d") (codes "s") (codes "v") missed

still_missing : again.0 ≡ none
unfolding describe_doc_object schema_dir resolve_dir find_dir find_in_files read_json find_object
    get set
still_missing = refl
