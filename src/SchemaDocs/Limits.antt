-- ===== src/SchemaDocs/Limits.antt =====
-- The limit of `searchSchemaDocs` in services/dba-mcp/src/schemaDocs.ts.
use mssql_data_api.Prelude.{
  ℕ, ◌+◌, ◌≤◌, ◌<◌, leb, max, Bool, true, false, Option, List, [], ◌∷◌, ◌++◌, if◌then◌else◌, length,
  length-append, ◌≡◌, arith, Bool-cases, inl, inr, ◌⊎◌,
}
use mssql_data_api.Prelude.Text.{Text}
use mssql_data_api.SchemaDocs.{
  Object, ObjectFile, Cache, Files, objects_under, read_json, object_files,
}
use mssql_data_api.SchemaDocs.Searching.{
  Hit, Hits, is_empty, push, matched, hit_of, scan_object, scan_objects, scan_files, scan_schemas,
  scan_databases, searched, or_nothing, search_schema_docs,
}

below : (m n k : ℕ) → leb m (n + 1) ≡ false → k ≡ n + 1 → k < max m 1
below m n k e h = grind arith

module _ (fs : Files) (includes : Text → Text → Bool) (needle : Text) (limit : ℕ) where
  -- The hits are within the limit, and below it as long as the search goes on.
  abbrev Inv : Hits → Type 0
  Inv s = (length s.0 ≤ max limit 1) × ((s.1 ≡ true) ⊎ (length s.0 < max limit 1))

  push-Inv :
      (h : Hit) (hits : List Hit) → length hits < max limit 1 → Inv (push limit h (hits, false))
  unfolding push
  push-Inv h hits i = elim (Bool-cases (leb limit (length hits + 1))) [
    | inl e ↦ (omega (arith, length-append hits (h ∷ []), i), inl e)
    | inr e ↦ (
      omega (arith, length-append hits (h ∷ []), i),
      inr (below limit (length hits) (length (hits ++ h ∷ [])) e (length-append hits (h ∷ []))),
    )
  ]

  object-Inv :
      (database schema object_type : Text) (o : Object) (s : Hits)
      → Inv s
      → Inv (scan_object fs includes needle limit database schema object_type o s)
  unfolding scan_object
  object-Inv database schema object_type o (hits, true) i = i
  object-Inv database schema object_type o (hits, false) (i, inl e) = cc e
  object-Inv database schema object_type o (hits, false) (i, inr e) =
      elim (Bool-cases (is_empty (matched fs includes needle limit o))) [
        | inl n ↦ rw n (i, inr e)
        | inr n ↦
            rw n (push-Inv (hit_of fs includes needle limit database schema object_type o) hits e)
      ]

  objects-Inv :
      (database schema object_type : Text) (l : List Object) (s : Hits)
      → Inv s
      → Inv (scan_objects fs includes needle limit database schema object_type l s)
  unfolding scan_objects
  objects-Inv database schema object_type [] s i = i
  objects-Inv database schema object_type (o ∷ l) s i =
      objects-Inv database schema object_type l
        (scan_object fs includes needle limit database schema object_type o s)
        (object-Inv database schema object_type o s i)

  files-Inv :
      (database schema dir : Text) (l : List ObjectFile) (s : Hits × Cache)
      → Inv s.0
      → Inv (scan_files fs includes needle limit database schema dir l s).0
  unfolding scan_files
  files-Inv database schema dir [] s i = i
  files-Inv database schema dir (f ∷ l) ((hits, true), cache) i = i
  files-Inv database schema dir (f ∷ l) ((hits, false), cache) i =
      let doc = read_json fs (fs.join dir f.file) cache in
      files-Inv database schema dir l
        (
          scan_objects fs includes needle limit database schema f.object_type
              (objects_under f.key doc.0) (hits, false),
          doc.1,
        )
        (objects-Inv database schema f.object_type (objects_under f.key doc.0) (hits, false) i)

  schemas-Inv :
      (database dir : Text) (l : List Text) (s : Hits × Cache)
      → Inv s.0
      → Inv (scan_schemas fs includes needle limit database dir l s).0
  unfolding scan_schemas
  schemas-Inv database dir [] s i = i
  schemas-Inv database dir (schema ∷ l) s i =
      schemas-Inv database dir l
        (if fs.is_dir (fs.join dir schema)
          then scan_files fs includes needle limit database schema (fs.join dir schema) object_files
              s
          else s)
        (go (fs.is_dir (fs.join dir schema)))
    where
      go :
          (b : Bool)
          → Inv
              (if b
                then scan_files fs includes needle limit database schema
                    (fs.join dir schema)
                    object_files
                    s
                else s).0
      go true = files-Inv database schema (fs.join dir schema) object_files s i
      go false = i

  databases-Inv :
      (base : Text → Text) (l : List Text) (s : Hits × Cache)
      → Inv s.0
      → Inv (scan_databases fs includes needle limit base l s).0
  unfolding scan_databases
  databases-Inv base [] s i = i
  databases-Inv base (dir ∷ l) s i =
      databases-Inv base l
        (scan_schemas fs includes needle limit (base dir) dir (fs.list_dir dir) s)
        (schemas-Inv (base dir) dir (fs.list_dir dir) s i)

  -- A search gives at most as many hits as its limit, or one where that is 0.
  pub search_schema_docs-bounded :
      (base : Text → Text) (root : Text) (database : Option Text) (cache : Cache)
      → length (search_schema_docs fs includes needle limit base root database cache).0
        ≤ max limit 1
  unfolding search_schema_docs
  search_schema_docs-bounded base root database cache = go needle
    where
      found :
          length
            (scan_databases fs includes needle limit base
              (searched fs includes needle limit root database)
              (([], false), cache)).0.0
          ≤ max limit 1
      found =
          (databases-Inv base (searched fs includes needle limit root database) (([], false), cache)
            (omega arith, inr (omega arith))).0

      go :
          (t : Text)
          → length
              (or_nothing fs includes needle limit t
                (scan_databases fs includes needle limit base
                  (searched fs includes needle limit root database)
                  (([], false), cache))
                cache).0
            ≤ max limit 1
      go [] = omega arith
      go (c ∷ s) = found
