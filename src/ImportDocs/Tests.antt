-- ===== src/ImportDocs/Tests.antt =====
-- A small document.
use mssql_data_api.Prelude.{◌≡◌, refl, none, some, [], ◌∷◌}
use mssql_data_api.Prelude.Text.{codes, trim, trim_start, is_space}
use mssql_data_api.Prelude.Dict.{get, set}
use mssql_data_api.Prelude.Json.{Json, string, object, end, field, fraction, Runtime, join}
use mssql_data_api.ImportDocs.{
  Doc, import_docs, add_docs, add_doc, add_tables, add_views, add_procedures, table_desc, described,
  enums_text, enum_parts, codes_text, proc_params,
}

abbrev plain : Runtime
plain = record {
  parse = λ s. none;
  text_of = λ v. [];
  number_of = λ v. fraction;
  upper = λ s. s;
  lower = λ s. s;
}

abbrev statuses : Json
statuses = object (
    field (codes "S")
      (object
        (field (codes "0") (string (codes "off")) (field (codes "1") (string (codes "on")) end)))
      end)

abbrev small : Doc
small = record {
  tables =
      ((codes "name", string (codes "t")) ∷ (codes "enums", statuses) ∷ [])
      ∷ ((codes "name", string (codes "u")) ∷ [])
      ∷ [];
  views = [];
  procedures = ((codes "name", string (codes "p")) ∷ []) ∷ [];
}

-- A table with codes alone has them for its description, and one with nothing is left out.
imported :
    import_docs plain ((codes "dbo", some small ∷ none ∷ []) ∷ []) []
    ≡ (
      codes "dbo.t",
      record { description = string (codes "Codes — S: 0=off, 1=on."); params = none },
    )
      ∷ (codes "dbo.p", record { description = string []; params = none })
      ∷ []
unfolding import_docs add_docs add_doc add_tables add_views add_procedures table_desc described
    enums_text enum_parts codes_text proc_params get set trim trim_start is_space join
imported = refl
