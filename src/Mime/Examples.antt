-- ===== src/Mime/Examples.antt =====
-- The tables of the program, and a line that is loaded.
use verm.Prelude.{false, some, [], ◌∷◌, Bytes, codes, bytes_eq, ◌≡◌, ◌≢◌, refl, has_prefix}
use verm.Mime.{
  Tables, type_by_extension, extension_by_type, load_mime_file, lookup, load_lines, load_line,
  add_extensions, add_extension_type, add_type_extension, set_extension_type, set_if_empty, has_dot,
  starts_comment,
}
use verm.Mime.Loaded.{load_mime_file_keeps}

abbrev small : Tables
small = record {
  types = (codes ".txt", codes "text/plain") ∷ [];
  extensions = (codes "text/plain", codes ".txt") ∷ [];
}

abbrev grown : Tables
grown = record {
  types = small.types;
  extensions = (codes "text/html", codes ".txt") ∷ small.extensions;
}

loads :
    load_mime_file some
      (λ t. t)
      (some ((codes "text/html" ∷ codes "txt" ∷ []) ∷ [], false))
      false
      small
    ≡ some grown
unfolding load_mime_file load_lines load_line add_extensions add_extension_type add_type_extension
    set_extension_type set_if_empty has_dot starts_comment lookup bytes_eq has_prefix
loads = refl

load_mime_file_keeps_example :
    ((ext : Bytes)
      → type_by_extension small ext ≢ []
      → type_by_extension grown ext ≡ type_by_extension small ext)
    × ((mime_type : Bytes)
        → extension_by_type small mime_type ≢ []
        → extension_by_type grown mime_type ≡ extension_by_type small mime_type)
load_mime_file_keeps_example =
    load_mime_file_keeps some (λ t. t) (some ((codes "text/html" ∷ codes "txt" ∷ []) ∷ [], false))
      small grown loads
