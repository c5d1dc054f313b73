-- ===== src/Http/Fields.antt =====
-- Reading header fields that were set.
use verm.Prelude.{
  false, ℕ, ◌==◌, ◌++◌, [], ◌∷◌, Bytes, bytes_eq, bytes_eq_refl, bytes_eq_iff, ◌≡◌, refl,
  Bool-cases, inl, inr,
}
use verm.Http.{Header, Response, get, del, set_field, write_header, write}

pub get-set_field : (h : Header) (name value : Bytes) → get (set_field h name value) name ≡ value
unfolding get set_field
get-set_field h name value = rw (bytes_eq_refl name) refl

get-del :
    (h : Header) (name other : Bytes)
    → bytes_eq name other ≡ false
    → get (del h name) other ≡ get h other
unfolding get del
get-del [] name other d = refl
get-del ((k, v) ∷ h) name other d = elim (Bool-cases (bytes_eq k name)) [
  | inl e ↦
      let same = (bytes_eq_iff k name).0 e in
      let d2 : bytes_eq k other ≡ false = rw same d in rw (e, d2) (get-del h name other d)
  | inr e ↦ rw e (elim (Bool-cases (bytes_eq k other)) [
    | inl f ↦ rw f refl
    | inr f ↦ rw f (get-del h name other d)
  ])
]

-- Other fields stay.
pub get-set_other :
    (h : Header) (name value other : Bytes)
    → bytes_eq name other ≡ false
    → get (set_field h name value) other ≡ get h other
unfolding get set_field
get-set_other h name value other d = rw d (get-del h name other d)

-- A status and a body that are written to a fresh response.
pub write-write_header :
    (n : ℕ) (b : Bytes) (w : Response)
    → w.status ≡ 0
    → (n == 0) ≡ false
    → write b (write_header n w) ≡ record { status = n; header = w.header; body = w.body ++ b }
unfolding write write_header
write-write_header n b w fresh other = rw (fresh, other) refl
