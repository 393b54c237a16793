-- ===== src/Exporter.antt =====
-- src/infrastructure/gdpr/data_exporter.py. The database, the writers of JSON and CSV, the clock and
-- `str.lower` are parameters; an archive is the list of its files, in order.
pub mod Archives
use eu_saas.Prelude.{
  String, Bool, Option, none, some, List, [], ◌∷◌, ◌++◌, map, Dict, ◌==◌, string_eq, ◌||◌,
  if◌then◌else◌,
}
use eu_saas.Text.{format}
use eu_saas.Domain.Values.{text, texts, Attributes}
use eu_saas.Container.{Reply, returned, raised}

-- A row as its columns and values.
abbrev pub TableRow : Type 0
TableRow = Dict String String

pub record TenantDatabase : Type 0 where
  pub list_tables : (schema_name : String) → Reply (List String)
  pub fetch_all_rows : (schema_name table_name : String) → Reply (List TableRow)

-- `json.dumps` of rows and of the manifest, `csv.DictWriter` with a header and rows, which raises if a
-- row has another column, `str.lower`, and `os.path.join`.
pub record Writers : Type 0 where
  pub dumps_rows : List TableRow → String
  pub dumps : Attributes → String
  pub write_csv : (fieldnames : List String) → List TableRow → Reply String
  pub lower : String → String
  pub join : String → String → String

pub record ExportConfig : Type 0 where
  pub export_directory : String
  pub default_format : String

pub record File : Type 0 where
  pub name : String
  pub content : String

pub record Archive : Type 0 where
  pub path : String
  pub files : List File

-- `output_format or self._config.default_format`
abbrev pub format_or : String → Option String → String
format_or default none = default
format_or default (some String.[]) = default
format_or default (some (String.◌∷◌ c given)) = String.◌∷◌ c given

abbrev pub then_reply : {A B : Type 0} → Reply A → (A → Reply B) → Reply B
then_reply (returned a) f = f a
then_reply (raised message) f = raised message

abbrev pub is_supported : String → Bool
is_supported fmt = (fmt == "json") || (fmt == "csv")

module _ (w : Writers) where
  unfoldable pub rows_to_json : List TableRow → Reply String
  rows_to_json rows = returned (w.dumps_rows rows)

  unfoldable pub rows_to_csv : List TableRow → Reply String
  rows_to_csv [] = returned ""
  rows_to_csv (row ∷ rows) = w.write_csv (map (λ e. e.0) row) (row ∷ rows)

  abbrev pub rows_to : String → List TableRow → Reply String
  rows_to fmt rows = if fmt == "json" then rows_to_json rows else rows_to_csv rows

  abbrev pub file_name : String → String → String → String
  file_name tenant_id fmt table =
      format (tenant_id ∷ "/" ∷ table ∷ (if fmt == "json" then ".json" else ".csv") ∷ [])

  abbrev pub manifest : String → String → String → List String → String → File
  manifest tenant_id schema_name fmt tables timestamp = record {
    name = format (tenant_id ∷ "/manifest.json" ∷ []);
    content = w.dumps (
        ("tenant_id", text tenant_id)
        ∷ ("schema", text schema_name)
        ∷ ("format", text fmt)
        ∷ ("tables", texts tables)
        ∷ ("exported_at", text timestamp)
        ∷ []);
  }

  module _ (db : TenantDatabase) where
    -- The files of the tables, in order.
    unfoldable pub table_files : String → String → String → List String → Reply (List File)
    table_files tenant_id schema_name fmt [] = returned []
    table_files tenant_id schema_name fmt (table ∷ tables) =
        then_reply (db.fetch_all_rows schema_name table) λ rows.
          then_reply (rows_to fmt rows) λ content.
            then_reply (table_files tenant_id schema_name fmt tables) λ files.
              returned (record { name = file_name tenant_id fmt table; content = content } ∷ files)

    -- The archive under the format, where the clock reads `timestamp`.
    abbrev pub export_as : ExportConfig → String → String → String → String → Reply Archive
    export_as config tenant_id schema_name timestamp fmt =
        then_reply (db.list_tables schema_name) λ tables.
          then_reply (table_files tenant_id schema_name fmt tables) λ files. returned (record {
            path =
                w.join config.export_directory
                  (format ("export_" ∷ tenant_id ∷ "_" ∷ timestamp ∷ ".tar.gz" ∷ []));
            files = files ++ (manifest tenant_id schema_name fmt tables timestamp ∷ []);
          })

    unfoldable pub export_tenant_data :
        ExportConfig → String → String → Option String → (timestamp : String) → Reply Archive
    export_tenant_data config tenant_id schema_name output_format timestamp =
        let fmt = w.lower (format_or config.default_format output_format) in
        if is_supported fmt
        then export_as config tenant_id schema_name timestamp fmt
        else raised (format ("Unsupported output format: " ∷ fmt ∷ []))
