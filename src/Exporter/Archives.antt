-- ===== src/Exporter/Archives.antt =====
-- What an archive holds.
use eu_saas.Prelude.{◌≡◌, String, List, [], ◌∷◌, ◌++◌, string_eq}
use eu_saas.Container.{Reply, returned}
use eu_saas.Exporter.{
  TableRow, TenantDatabase, Writers, File, Archive, rows_to, file_name, manifest,
}

module _ (w : Writers) (db : TenantDatabase) (tenant_id schema_name fmt : String) where
  -- The file of a table is named after it, and holds its rows as the database gives them.
  pub record IsDump (table : String) (file : File) : Type 0 where
    pub rows : List TableRow
    pub fetched : db.fetch_all_rows schema_name table ≡ returned rows
    pub named : file.name ≡ file_name w tenant_id fmt table
    pub written : rows_to w fmt rows ≡ returned file.content

  -- One file for each table, in order.
  abbrev pub AreDumps : List String → List File → Type 0
  AreDumps [] [] = Unit
  AreDumps [] (file ∷ files) = ⊥
  AreDumps (table ∷ tables) [] = ⊥
  AreDumps (table ∷ tables) (file ∷ files) = IsDump table file × AreDumps tables files

  -- The database gives the rows of a table, and they can be written in the format.
  pub record IsReadable (table : String) : Type 0 where
    pub rows : List TableRow
    pub fetches : db.fetch_all_rows schema_name table ≡ returned rows
    pub content : String
    pub writes : rows_to w fmt rows ≡ returned content

  -- An export ends with an archive of the dumps of the listed tables, and the manifest behind them.
  pub record IsExported (tables : List String) (timestamp : String) (r : Reply Archive)
      : Type 0 where
    pub archive : Archive
    pub returns : r ≡ returned archive
    pub dumps : List File
    pub dumped : AreDumps tables dumps
    pub whole : archive.files ≡ dumps ++ manifest w tenant_id schema_name fmt tables timestamp ∷ []
