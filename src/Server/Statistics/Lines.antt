-- ===== src/Server/Statistics/Lines.antt =====
-- A page of samples, and how a monitoring plugin reads a line of it.
use verm.Prelude.{
  ℕ, false, ◌||◌, List, [], ◌∷◌, ◌++◌, append_assoc, Bytes, bytes_eq, before_byte, behind_byte,
  split, contains_byte, Lacks, All-append, if◌then◌else◌, ◌≡◌, ◌≢◌, refl, ap, ap₂, ◌∙◌, arith,
}
use verm.Prelude.Plain.{split-append, before_byte-append, behind_byte-append}
use verm.Prelude.Decimal.{itoa, value, value-itoa, itoa-IsDigit, digits_lack}
use verm.Server.Statistics.{line}

-- The samples of lines: a name up to the first space, and a number; lines with a hash sign are left out,
-- and so is what stands behind the last line.
unfoldable pub samples : List Bytes → List (Bytes × ℕ)
samples [] = []
samples (l ∷ ls) =
    let rest = samples ls in
    if contains_byte l b'#' || bytes_eq l []
    then rest
    else (before_byte l b' ', value 0 (behind_byte l b' ')) ∷ rest

unfoldable pub scrape : Bytes → List (Bytes × ℕ)
scrape page = samples (split page 10)

scrape-line : (l rest : Bytes) → Lacks 10 l → scrape (line l ++ rest) ≡ samples (l ∷ split rest 10)
unfolding scrape line
scrape-line l rest lacks =
    ap (λ t. samples (split t 10)) (append_assoc l (10 ∷ []) rest)
    ∙ ap samples (split-append l rest 10 lacks)

pub scrape-nil : scrape [] ≡ []
unfolding scrape samples split contains_byte bytes_eq
scrape-nil = refl

Lacks→contains_byte : (s : Bytes) (c : ℕ) → Lacks c s → contains_byte s c ≡ false
unfolding contains_byte
Lacks→contains_byte [] c l = refl
Lacks→contains_byte (d ∷ s) c l = rw (Lacks→contains_byte s c l.1) (ground (arith, l.0))

-- A comment is left out.
pub scrape_comment : (l rest : Bytes) → Lacks 10 l → scrape (line (b'#' ∷ l) ++ rest) ≡ scrape rest
unfolding scrape samples contains_byte
scrape_comment l rest lacks = scrape-line (b'#' ∷ l) rest (ground arith, lacks)

-- Text that can stand in the name of a sample.
pub record IsName (name : Bytes) : Type 0 where
  pub no_line : Lacks 10 name
  pub no_space : Lacks b' ' name
  pub no_hash : Lacks b'#' name

samples_cons :
    (l : Bytes) (ls : List Bytes)
    → contains_byte l b'#' ≡ false
    → bytes_eq l [] ≡ false
    → samples (l ∷ ls) ≡ (before_byte l b' ', value 0 (behind_byte l b' ')) ∷ samples ls
unfolding samples
samples_cons l ls h e = rw (samples, h, e) refl

not_empty : (name s : Bytes) (c : ℕ) → bytes_eq (name ++ c ∷ s) [] ≡ false
unfolding bytes_eq
not_empty [] s c = refl
not_empty (d ∷ name) s c = refl

-- A sample is read back.
pub scrape_sample :
    (name : Bytes) (n : ℕ) (rest : Bytes)
    → IsName name
    → scrape (line (name ++ b' ' ∷ itoa n) ++ rest) ≡ (name, n) ∷ scrape rest
unfolding scrape
scrape_sample name n rest h =
    let digits = itoa-IsDigit n in
    let lacks : Lacks 10 (name ++ b' ' ∷ itoa n) =
      All-append (λ b. b ≢ 10) name _ h.no_line
        (ground arith, digits_lack 10 (itoa n) (omega arith) digits) in
    let hash : Lacks b'#' (name ++ b' ' ∷ itoa n) =
      All-append (λ b. b ≢ b'#') name _ h.no_hash
        (ground arith, digits_lack b'#' (itoa n) (omega arith) digits) in
    scrape-line (name ++ b' ' ∷ itoa n) rest lacks
    ∙ samples_cons (name ++ b' ' ∷ itoa n) (split rest 10)
        (Lacks→contains_byte (name ++ b' ' ∷ itoa n) b'#' hash) (not_empty name (itoa n) b' ')
    ∙ ap₂ (λ x y. (x, y) ∷ samples (split rest 10))
        (before_byte-append name (itoa n) b' ' h.no_space)
        (ap (value 0) (behind_byte-append name (itoa n) b' ' h.no_space) ∙ value-itoa n)
