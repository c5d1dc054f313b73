-- ===== src/Mime.antt =====
-- mimeext/type.go: the tables from extensions to MIME types and back, and how a file adds to them.
pub mod Loaded
mod Examples
use verm.Prelude.{
  ℕ, Bool, true, false, not, ◌&&◌, ◌||◌, ◌==◌, Option, none, some, List, [], ◌∷◌, ◌++◌, Bytes,
  codes, bytes_eq, has_prefix, is_space, if◌then◌else◌,
}

abbrev pub Table : Type 0
Table = List (Bytes × Bytes)

-- `mimeTypes`
pub mime_types : Table
mime_types =
    (codes ".css", codes "text/css; charset=utf-8")
    ∷ (codes ".csv", codes "text/csv; charset=utf-8")
    ∷ (codes ".eml", codes "message/rfc822")
    ∷ (codes ".gif", codes "image/gif")
    ∷ (codes ".gz", codes "application/gzip")
    ∷ (codes ".htm", codes "text/html; charset=utf-8")
    ∷ (codes ".html", codes "text/html; charset=utf-8")
    ∷ (codes ".jpg", codes "image/jpeg")
    ∷ (codes ".jpeg", codes "image/jpeg")
    ∷ (codes ".js", codes "application/javascript")
    ∷ (codes ".json", codes "application/json")
    ∷ (codes ".pdf", codes "application/pdf")
    ∷ (codes ".png", codes "image/png")
    ∷ (codes ".svg", codes "image/svg+xml")
    ∷ (codes ".tar", codes "application/tar")
    ∷ (codes ".txt", codes "text/plain; charset=utf-8")
    ∷ (codes ".asc", codes "text/plain")
    ∷ (codes ".tsv", codes "text/tab-separated-values")
    ∷ (codes ".xhtml", codes "application/xhtml+xml")
    ∷ (codes ".xml", codes "text/xml; charset=utf-8")
    ∷ (codes ".xsl", codes "text/xml; charset=utf-8")
    ∷ (codes ".xsd", codes "text/xml; charset=utf-8")
    ∷ (codes ".zip", codes "application/zip")
    ∷ []

-- `mimeExtensions`
pub mime_extensions : Table
mime_extensions =
    (codes "application/pdf", codes ".pdf")
    ∷ (codes "application/javascript", codes ".js")
    ∷ (codes "application/x-javascript", codes ".js")
    ∷ (codes "application/json", codes ".json")
    ∷ (codes "application/gzip", codes ".gz")
    ∷ (codes "application/x-gzip", codes ".gz")
    ∷ (codes "application/tar", codes ".tar")
    ∷ (codes "application/xhtml+xml", codes ".xhtml")
    ∷ (codes "application/zip", codes ".zip")
    ∷ (codes "image/gif", codes ".gif")
    ∷ (codes "image/jpeg", codes ".jpg")
    ∷ (codes "image/png", codes ".png")
    ∷ (codes "image/svg+xml", codes ".svg")
    ∷ (codes "text/comma-separated-values", codes ".csv")
    ∷ (codes "text/css", codes ".css")
    ∷ (codes "text/csv", codes ".csv")
    ∷ (codes "text/html", codes ".html")
    ∷ (codes "text/plain", codes ".txt")
    ∷ (codes "text/tab-separated-values", codes ".tsv")
    ∷ (codes "text/xml", codes ".xml")
    ∷ (codes "message/rfc822", codes ".eml")
    ∷ []

-- The tables that the lock protects.
pub record Tables : Type 0 where
  pub types : Table
  pub extensions : Table

-- A map at a key, and the empty string if the key is missing.
unfoldable pub lookup : Table → Bytes → Bytes
lookup [] key = []
lookup ((k, v) ∷ table) key = if bytes_eq k key then v else lookup table key

-- `TypeByExtension` and `ExtensionByType`
unfoldable pub type_by_extension : Tables → Bytes → Bytes
type_by_extension tables ext = lookup tables.types ext

unfoldable pub extension_by_type : Tables → Bytes → Bytes
extension_by_type tables type_name = lookup tables.extensions type_name

-- `if m[key] == "" { m[key] = value }`; a new entry hides an empty one.
unfoldable pub set_if_empty : Bytes → Bytes → Table → Table
set_if_empty key value table =
    if bytes_eq (lookup table key) [] then (key, value) ∷ table else table

-- Whether an extension begins with a dot.
unfoldable pub has_dot : Bytes → Bool
has_dot [] = false
has_dot (c ∷ ext) = c == b'.'

unfoldable pub starts_comment : Bytes → Bool
starts_comment [] = false
starts_comment (c ∷ s) = c == b'#'

-- `charset_of` is the charset that `mime.ParseMediaType` finds, if it accepts the type, and
-- `with_utf8` is `mime.FormatMediaType` of the type with the charset utf-8.
module _ (charset_of : Bytes → Option Bytes) (with_utf8 : Bytes → Bytes) where
  -- `setExtensionType`; its error is dropped by `LoadMimeFile`.
  unfoldable pub set_extension_type : Bytes → Bytes → Tables → Tables
  set_extension_type ext mime_type tables = elim (charset_of mime_type) [
    | none ↦ tables
    | some charset ↦ record tables {
      types =
          set_if_empty ext
            (if has_prefix mime_type (codes "text/") && bytes_eq charset []
              then with_utf8 mime_type
              else mime_type)
            tables.types;
    }
  ]

  -- `AddExtensionType`
  unfoldable pub add_extension_type : Bytes → Bytes → Tables → Tables
  add_extension_type ext mime_type tables =
      if has_dot ext then set_extension_type ext mime_type tables else tables

  -- `AddTypeExtension`, with `setTypeExtension`
  unfoldable pub add_type_extension : Bytes → Bytes → Tables → Tables
  add_type_extension ext mime_type tables =
      if has_dot ext
      then record tables { extensions = set_if_empty mime_type ext tables.extensions }
      else tables

  -- The inner loop of `LoadMimeFile`, which a comment ends.
  unfoldable pub add_extensions : List Bytes → Bytes → Tables → Tables
  add_extensions [] mime_type tables = tables
  add_extensions (ext ∷ exts) mime_type tables =
      if starts_comment ext
      then tables
      else add_extensions exts mime_type (add_extension_type (b'.' ∷ ext) mime_type tables)

  -- One line of the file, as its fields.
  unfoldable pub load_line : List Bytes → Tables → Tables
  load_line [] tables = tables
  load_line (mime_type ∷ []) tables = tables
  load_line (mime_type ∷ ext ∷ exts) tables =
      if starts_comment mime_type
      then tables
      else add_extensions (ext ∷ exts) mime_type (
          if not (starts_comment ext) && not (bytes_eq mime_type (codes "application/octet-stream"))
          then add_type_extension (b'.' ∷ ext) mime_type tables
          else tables)

  unfoldable pub load_lines : List (List Bytes) → Tables → Tables
  load_lines [] tables = tables
  load_lines (fields ∷ lines) tables = load_lines lines (load_line fields tables)

  -- `LoadMimeFile` of a file given by the fields of the lines that the scanner delivers
  -- (`strings.Fields`) and whether it ends with an error, or of one that cannot be opened. An error of
  -- the scanner is a panic: `none`.
  unfoldable pub load_mime_file : Option (List (List Bytes) × Bool) → Bool → Tables → Option Tables
  load_mime_file file clear tables =
      let start = if clear then record { types = []; extensions = [] } else tables in
      elim file [
        | none ↦ some start
        | some (lines, scan_fails) ↦ if scan_fails then none else some (load_lines lines start)
      ]
