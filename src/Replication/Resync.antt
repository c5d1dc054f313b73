-- ===== src/Replication/Resync.antt =====
-- `enumerateSubdirectory` of replication_resync.go: the locations of all files below a directory.
pub mod Enumerated
use verm.Prelude.{
  ℕ, zero, suc, ◌+◌, ◌-◌, ◌≤◌, ◌<◌, Bool, true, false, not, ◌||◌, Option, none, some, List, [], ◌∷◌,
  ◌++◌, Bytes, codes, bytes_eq, has_suffix, trim_suffix, take, length, ltb, if◌then◌else◌, ◌≡◌, ◌⊎◌,
  inl, inr, refl, sym, ap, ◌∙◌, arith, Bool-cases, bytes_eq_iff,
}

-- What `Readdir` lists of a directory, in its order: each entry with its name, and what is listed behind
-- it. The listing ends at the end of the directory, or at an error; that of a directory that cannot be
-- opened is empty.
pub data Listing : Type 0 where
  ending : Listing
  regular : Bytes → Listing → Listing
  subdirectory : Bytes → Listing → Listing → Listing
  irregular : Bytes → Listing → Listing

-- The test for names that are not those of temporary files.
unfoldable pub is_kept : Bytes → Bool
is_kept name = ltb (length name) 7 || not (bytes_eq (take 7 name) (codes "_upload"))

unfoldable pub expanded : Bytes → Bytes → Bytes
expanded directory name = directory ++ codes "/" ++ name

-- `enumerateSubdirectory`: the locations that are sent to the channel
unfoldable pub enumerate_subdirectory : Bytes → Listing → List Bytes
enumerate_subdirectory directory ending = []
enumerate_subdirectory directory (regular name rest) =
    let behind = enumerate_subdirectory directory rest in
    if is_kept name then trim_suffix (expanded directory name) (codes ".gz") ∷ behind else behind
enumerate_subdirectory directory (subdirectory name inner rest) =
    let below = enumerate_subdirectory (expanded directory name) inner in
    let behind = enumerate_subdirectory directory rest in
    if is_kept name then below ++ behind else behind
enumerate_subdirectory directory (irregular name rest) = enumerate_subdirectory directory rest

-- `enumerateFiles`
unfoldable pub enumerate_files : Listing → List Bytes
enumerate_files root = enumerate_subdirectory [] root

-- A regular file at a path below a directory, with no temporary name on the way.
pub data HasFile : Bytes → Listing → Bytes → Type 0 where
  here :
      {d : Bytes} {name : Bytes} {rest : Listing}
      → is_kept name ≡ true
      → HasFile d (regular name rest) (expanded d name)
  inside :
      {d : Bytes} {name : Bytes} {inner rest : Listing} {p : Bytes}
      → is_kept name ≡ true
      → HasFile (expanded d name) inner p
      → HasFile d (subdirectory name inner rest) p
  behind_regular :
      {d : Bytes} {name : Bytes} {rest : Listing} {p : Bytes}
      → HasFile d rest p
      → HasFile d (regular name rest) p
  behind_subdirectory :
      {d : Bytes} {name : Bytes} {inner rest : Listing} {p : Bytes}
      → HasFile d rest p
      → HasFile d (subdirectory name inner rest) p
  behind_irregular :
      {d : Bytes} {name : Bytes} {rest : Listing} {p : Bytes}
      → HasFile d rest p
      → HasFile d (irregular name rest) p
