-- ===== src/Mime/Loaded.antt =====
-- What `LoadMimeFile` leaves of the tables.
use verm.Prelude.{
  Bool, true, false, not, ◌&&◌, Option, none, some, List, [], ◌∷◌, Bytes, codes, bytes_eq,
  bytes_eq_iff, has_prefix, if◌then◌else◌, ◌≡◌, ◌≢◌, refl, sym, ap, ◌∙◌, Bool-cases, inl, inr,
  subst, some_inj,
}
use verm.Mime.{
  Table, Tables, lookup, set_if_empty, type_by_extension, extension_by_type, set_extension_type,
  add_extension_type, add_type_extension, add_extensions, load_line, load_lines, load_mime_file,
  has_dot, starts_comment,
}

-- What one table says is what the other says.
Extends : Table → Table → Type 0
Extends t u = (key : Bytes) → lookup t key ≢ [] → lookup u key ≡ lookup t key

set_if_empty-Extends : (key value : Bytes) (t : Table) → Extends t (set_if_empty key value t)
unfolding Extends set_if_empty lookup
set_if_empty-Extends key value t other known = elim (Bool-cases (bytes_eq (lookup t key) [])) [
  | inl e ↦ elim (Bool-cases (bytes_eq key other)) [
    | inl f ↦ absurd (
        known (
          ap (lookup t) (sym ((bytes_eq_iff key other).0 f))
          ∙ (bytes_eq_iff (lookup t key) []).0 e))
    | inr f ↦ rw (e, f) refl
  ]
  | inr e ↦ rw e refl
]

record IsKept (t u : Tables) : Type 0 where
  types : Extends t.types u.types
  extensions : Extends t.extensions u.extensions

IsKept-refl : (t : Tables) → IsKept t t
unfolding Extends
IsKept-refl t = record { types = λ k h. refl; extensions = λ k h. refl }

IsKept-trans : {t u v : Tables} → IsKept t u → IsKept u v → IsKept t v
unfolding Extends
IsKept-trans a b = record {
  types = λ k h. let e = a.types k h in b.types k (λ z. h (sym e ∙ z)) ∙ e;
  extensions = λ k h. let e = a.extensions k h in b.extensions k (λ z. h (sym e ∙ z)) ∙ e;
}

module _ (charset_of : Bytes → Option Bytes) (with_utf8 : Bytes → Bytes) where
  branch-IsKept : (b : Bool) {t u : Tables} → IsKept t u → IsKept t (if b then u else t)
  branch-IsKept true k = k
  branch-IsKept false {t} k = IsKept-refl t

  set_extension_type-IsKept :
      (ext mime_type : Bytes) (t : Tables)
      → IsKept t (set_extension_type charset_of with_utf8 ext mime_type t)
  unfolding set_extension_type Extends
  set_extension_type-IsKept ext mime_type t = go (charset_of mime_type)
    where
      go :
          (o : Option Bytes)
          → IsKept t (elim o [
            | none ↦ t
            | some charset ↦ record t {
              types =
                  set_if_empty ext
                    (if has_prefix mime_type (codes "text/") && bytes_eq charset []
                      then with_utf8 mime_type
                      else mime_type)
                    t.types;
            }
          ])
      go none = IsKept-refl t
      go (some charset) = record {
        types = set_if_empty-Extends ext _ t.types;
        extensions = λ k h. refl;
      }

  add_extension_type-IsKept :
      (ext mime_type : Bytes) (t : Tables)
      → IsKept t (add_extension_type charset_of with_utf8 ext mime_type t)
  unfolding add_extension_type
  add_extension_type-IsKept ext mime_type t =
      branch-IsKept (has_dot ext) (set_extension_type-IsKept ext mime_type t)

  add_type_extension-IsKept :
      (ext mime_type : Bytes) (t : Tables)
      → IsKept t (add_type_extension charset_of with_utf8 ext mime_type t)
  unfolding add_type_extension Extends
  add_type_extension-IsKept ext mime_type t =
      branch-IsKept (has_dot ext) (record {
        types = λ k h. refl;
        extensions = set_if_empty-Extends mime_type ext t.extensions;
      })

  add_extensions-IsKept :
      (exts : List Bytes) (mime_type : Bytes) (t : Tables)
      → IsKept t (add_extensions charset_of with_utf8 exts mime_type t)
  unfolding add_extensions
  add_extensions-IsKept [] mime_type t = IsKept-refl t
  add_extensions-IsKept (ext ∷ exts) mime_type t = stop (starts_comment ext) (
      IsKept-trans (add_extension_type-IsKept (b'.' ∷ ext) mime_type t)
        (add_extensions-IsKept exts mime_type _))
    where
      stop : (b : Bool) {u : Tables} → IsKept t u → IsKept t (if b then t else u)
      stop true k = IsKept-refl t
      stop false k = k

  load_line-IsKept :
      (fields : List Bytes) (t : Tables) → IsKept t (load_line charset_of with_utf8 fields t)
  unfolding load_line
  load_line-IsKept [] t = IsKept-refl t
  load_line-IsKept (mime_type ∷ []) t = IsKept-refl t
  load_line-IsKept (mime_type ∷ ext ∷ exts) t = stop (starts_comment mime_type) (
      IsKept-trans
        (branch-IsKept
          (not (starts_comment ext) && not (bytes_eq mime_type (codes "application/octet-stream")))
          (add_type_extension-IsKept (b'.' ∷ ext) mime_type t))
        (add_extensions-IsKept (ext ∷ exts) mime_type _))
    where
      stop : (b : Bool) {u : Tables} → IsKept t u → IsKept t (if b then t else u)
      stop true k = IsKept-refl t
      stop false k = k

  load_lines-IsKept :
      (lines : List (List Bytes)) (t : Tables) → IsKept t (load_lines charset_of with_utf8 lines t)
  unfolding load_lines
  load_lines-IsKept [] t = IsKept-refl t
  load_lines-IsKept (fields ∷ lines) t =
      IsKept-trans (load_line-IsKept fields t) (load_lines-IsKept lines _)

  loaded-IsKept :
      (file : Option (List (List Bytes) × Bool)) (t u : Tables)
      → load_mime_file charset_of with_utf8 file false t ≡ some u
      → IsKept t u
  unfolding load_mime_file
  loaded-IsKept none t u e = subst (IsKept t) (some_inj e) (IsKept-refl t)
  loaded-IsKept (some (lines, true)) t u e = cc
  loaded-IsKept (some (lines, false)) t u e =
      subst (IsKept t) (some_inj e) (load_lines-IsKept lines t)

  -- A file that is loaded, without a panic and without clearing the tables, leaves the type of every
  -- extension that has one, and the extension of every type that has one.
  pub load_mime_file_keeps :
      (file : Option (List (List Bytes) × Bool)) (t u : Tables)
      → load_mime_file charset_of with_utf8 file false t ≡ some u
      → ((ext : Bytes)
          → type_by_extension t ext ≢ []
          → type_by_extension u ext ≡ type_by_extension t ext)
        × ((mime_type : Bytes)
            → extension_by_type t mime_type ≢ []
            → extension_by_type u mime_type ≡ extension_by_type t mime_type)
  unfolding type_by_extension extension_by_type Extends
  load_mime_file_keeps file t u e = let k = loaded-IsKept file t u e in (k.types, k.extensions)
