-- ===== src/Errors.antt =====
-- The errors that the program's functions return beside a result, as values.
use verm.Prelude.{Bytes, ◌≡◌, refl}

pub data Error : Type 0 where
  -- `WrongLocationError` and `EncodingError`, with the text that they name
  wrong_location unknown_encoding : Bytes → Error
  -- errors of the operating system, by the call that makes them
  mkdir_failed tempfile_failed open_failed seek_failed write_failed sync_failed link_failed : Error
  -- an upload that cannot be read or decoded
  bad_gzip no_form_file read_failed : Error

-- A result and an `error`, of which the program uses one.
pub data Result {ℓ} (A : Type ℓ) : Type ℓ where
  err : Error → Result A
  ok : A → Result A

-- `if err != nil { return }` behind a call.
infixl 5 ◌>>=◌
abbrev pub ◌>>=◌ {ℓ κ} : {A : Type ℓ} {B : Type κ} → Result A → (A → Result B) → Result B
err why >>= next = err why
ok value >>= next = next value

pub ok_inj {ℓ} : {A : Type ℓ} {a b : A} → ok a ≡ ok b → a ≡ b
ok_inj e = cc

-- Two steps that succeed together have succeeded one by one.
pub bind_ok {ℓ κ} :
    {A : Type ℓ} {B : Type κ} (first : Result A) (next : A → Result B) {b : B}
    → (first >>= next) ≡ ok b
    → (a : A) × (first ≡ ok a) × (next a ≡ ok b)
bind_ok (err why) next e = cc
bind_ok (ok value) next e = (value, refl, e)
