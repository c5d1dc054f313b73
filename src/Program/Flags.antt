-- ===== src/Program/Flags.antt =====
-- The flags of verm.go, and the environment variables that set them.
use verm.Prelude.{
  ℕ, ◌-◌, ◌≤◌, ◌&&◌, ◌⊎◌, List, [], ◌∷◌, ◌++◌, Bytes, codes, bytes_eq, leb, ◌==◌, if◌then◌else◌,
  All, append_cancel, ◌≡◌, refl, ap₂, arith,
}

-- `flag.Flag`: the name and the text of the value
pub record Flag : Type 0 where
  pub name : Bytes
  pub value : Bytes

-- `strings.ToUpper` for ASCII
unfoldable pub to_upper : Bytes → Bytes
to_upper [] = []
to_upper (c ∷ s) = (if leb b'a' c && leb c b'z' then c - 32 else c) ∷ to_upper s

-- `strings.Replace(s, "-", "_", -1)`
unfoldable pub replace_dashes : Bytes → Bytes
replace_dashes [] = []
replace_dashes (c ∷ s) = (if c == b'-' then b'_' else c) ∷ replace_dashes s

unfoldable pub variable_of : Bytes → Bytes
variable_of name = codes "VERM_" ++ replace_dashes (to_upper name)

-- `getenv` is `os.Getenv`, and `assign name text value` what `flag.Set` makes of the value of a flag.
module _ (getenv : Bytes → Bytes) (assign : Bytes → Bytes → Bytes → Bytes) where
  -- `setFlagFromEnvironment`
  unfoldable pub set_flag_from_environment : Flag → Flag
  set_flag_from_environment f =
      let text = getenv (variable_of f.name) in
      if bytes_eq text [] then f else record f { value = assign f.name text f.value }

  -- `flag.VisitAll(setFlagFromEnvironment)`
  unfoldable pub visit_all : List Flag → List Flag
  visit_all [] = []
  visit_all (f ∷ flags) = set_flag_from_environment f ∷ visit_all flags

-- `banner` and `default_root`, for the variables that the build sets.
unfoldable pub banner : Bytes → Bytes
banner compiled_version =
    if bytes_eq compiled_version [] then codes "Verm" else codes "Verm " ++ compiled_version

unfoldable pub default_root : Bytes → Bytes
default_root compiled_root_data_directory =
    if bytes_eq compiled_root_data_directory []
    then codes "/var/lib/verm"
    else compiled_root_data_directory

-- The characters of the names of flags.
abbrev pub IsFlagChar : ℕ → Type 0
IsFlagChar c = ((b'a' ≤ c) × (c ≤ b'z')) ⊎ (c ≡ b'-')

char_inj :
    (c d : ℕ)
    → IsFlagChar c
    → IsFlagChar d
    → (if (if leb b'a' c && leb c b'z' then c - 32 else c) == b'-'
        then b'_'
        else (if leb b'a' c && leb c b'z' then c - 32 else c))
      ≡ (if (if leb b'a' d && leb d b'z' then d - 32 else d) == b'-'
          then b'_'
          else (if leb b'a' d && leb d b'z' then d - 32 else d))
    → c ≡ d
char_inj c d hc hd e = ground arith

names_inj :
    (a b : Bytes)
    → All IsFlagChar a
    → All IsFlagChar b
    → replace_dashes (to_upper a) ≡ replace_dashes (to_upper b)
    → a ≡ b
unfolding replace_dashes to_upper
names_inj [] [] ha hb e = refl
names_inj [] (d ∷ b) ha hb e = cc
names_inj (c ∷ a) [] ha hb e = cc
names_inj (c ∷ a) (d ∷ b) (hc, ha) (hd, hb) e =
    ap₂ (λ x y. x ∷ y) (char_inj c d hc hd (cc)) (names_inj a b ha hb (cc))

-- No two flags are set by one environment variable, for names of small letters and dashes.
pub variable_of_inj :
    (a b : Bytes) → All IsFlagChar a → All IsFlagChar b → variable_of a ≡ variable_of b → a ≡ b
unfolding variable_of
variable_of_inj a b ha hb e =
    names_inj a b ha hb
      (append_cancel (codes "VERM_") (replace_dashes (to_upper a)) (replace_dashes (to_upper b)) e)
