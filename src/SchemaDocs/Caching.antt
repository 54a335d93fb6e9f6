-- ===== src/SchemaDocs/Caching.antt =====
-- What the cache of services/dba-mcp/src/schemaDocs.ts makes of files that were read before.
use mssql_data_api.Prelude.{Option, none, some, List, [], ◌∷◌, ◌≡◌}
use mssql_data_api.Prelude.Text.{Text}
use mssql_data_api.Prelude.Dict.{get}
use mssql_data_api.SchemaDocs.{
  Document, Object, ObjectFile, Cache, Files, objects_under, find_object, object_files,
}

abbrev first_of : Option (Option Document) → Option Document → Option Document
first_of none read = read
first_of (some d) read = d

-- What a file is taken to hold: what it gave when it was first read, a failure included, else what a
-- read gives now.
pub seen : Files → Cache → Text → Option Document
seen fs cache path = first_of (get path cache) (fs.read path)

-- Every entry of the first cache is one of the second.
abbrev pub Keeps : Cache → Cache → Type 0
Keeps c c' = (path : Text) (d : Option Document) → get path c ≡ some d → get path c' ≡ some d

module _ (fs : Files) (view : Text → Option Document) where
  -- The search without a cache, in files that hold what is given.
  abbrev or_next : Text → Option Object → Option (Text × Object) → Option (Text × Object)
  or_next object_type (some o) rest = some (object_type, o)
  or_next object_type none rest = rest

  pub find_fresh : Text → Text → List ObjectFile → Option (Text × Object)
  find_fresh dir want [] = none
  find_fresh dir want (f ∷ l) =
      let rest = find_fresh dir want l in
      or_next f.object_type (find_object fs want (objects_under f.key (view (fs.join dir f.file))))
        rest

  pub describe_fresh : Option Text → Text → Option (Text × Object)
  describe_fresh none name = none
  describe_fresh (some dir) name = find_fresh dir (fs.lower name) object_files

  abbrev Sees : Cache → Type 0
  Sees cache = (path : Text) → seen fs cache path ≡ view path

  abbrev Goes : Cache → Cache → Type 0
  Goes c c' = Sees c' × Keeps c c'
