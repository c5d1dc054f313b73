-- ===== src/Forwarding/Choice/Named.antt =====
-- The locations that uploads are given are those that reads are forwarded for.
use verm.Prelude.{
  ℕ, true, false, [], ◌∷◌, ◌++◌, Bytes, length, ◌≡◌, refl, sym, ap, ◌∙◌, arith, All, append_assoc,
}
use verm.Http.{HttpRequest}
use verm.Upload.HashName.Shape.{IsHashName, IsNameChar, IsFirstChar}
use verm.Forwarding.Choice.{
  is_hash_first, is_hash_char, extension_here, chars_here, hash_here, matches_hash, last_is_zero,
  should_forward_read,
}

name_char : (c : ℕ) → IsNameChar c → is_hash_char c ≡ true
name_char c h = ground arith

first_char : (c : ℕ) → IsFirstChar c → is_hash_first c ≡ true
first_char c h = ground arith

chars_here-append :
    (s tail : Bytes) → All IsNameChar s → chars_here (length s) (s ++ tail) ≡ extension_here tail
unfolding chars_here
chars_here-append [] tail h = refl
chars_here-append (c ∷ s) tail (n, h) = rw (name_char c n) (chars_here-append s tail h)

matches_hash-append : (s t : Bytes) → matches_hash t ≡ true → matches_hash (s ++ t) ≡ true
unfolding matches_hash
matches_hash-append [] t h = h
matches_hash-append (c ∷ s) t h = rw (matches_hash-append s t h) (ground arith)

here-matches : (s : Bytes) → hash_here s ≡ true → matches_hash s ≡ true
unfolding hash_here matches_hash
here-matches [] h = cc
here-matches (c ∷ s) h = rw (matches_hash, h) refl

name_here :
    (x y z : ℕ) (s : Bytes)
    → IsFirstChar x
    → IsNameChar y
    → IsFirstChar z
    → chars_here 40 s ≡ true
    → hash_here (b'/' ∷ x ∷ y ∷ b'/' ∷ z ∷ s) ≡ true
unfolding hash_here
name_here x y z s hx hy hz h = rw (first_char x hx, name_char y hy, first_char z hz, h) refl

-- A read of a location that is made of a directory, the name for a hash, and nothing or an extension is
-- forwarded, if the request does not say otherwise.
pub should_forward_read-named :
    (r : HttpRequest) (path dir dst tail : Bytes)
    → IsHashName dir dst
    → extension_here tail ≡ true
    → r.path ≡ (path ++ (dir ++ dst)) ++ tail
    → last_is_zero r.forward_values ≡ false
    → should_forward_read r ≡ true
unfolding should_forward_read
should_forward_read-named r path dir dst tail name extended e asked =
    let chars : chars_here 40 (name.rest ++ tail) ≡ true =
      ap (λ n. chars_here n (name.rest ++ tail)) (sym name.rest_length)
      ∙ chars_here-append name.rest tail name.rest_chars
      ∙ extended in
    rw (asked, e, append_assoc path (dir ++ dst) tail, name.dir_eq, name.dst_eq)
      (matches_hash-append path _ (
        here-matches _ (
          name_here name.x name.y name.z (name.rest ++ tail) name.x_first name.y_char name.z_first
            chars)))
