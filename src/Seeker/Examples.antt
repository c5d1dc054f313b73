-- ===== src/Seeker/Examples.antt =====
-- A decoder of five bytes, which says `io.EOF` with the last of them.
use verm.Prelude.{
  ℕ, suc, ◌≤◌, some, List, [], ◌∷◌, Bytes, codes, take, drop, length, length-take, length-drop,
  take-append-drop, leb, leb→le, if◌then◌else◌, ◌≡◌, ◌⊎◌, inl, inr, refl, sym, arith, Bool-cases,
}
use verm.Prelude.Int.{ℤ, pos, negsuc, ◌+ℤ◌, wrap64}
use verm.Stream.{ReadEnd, nil, eof}
use verm.Seeker.{Source, GzipSeeker, restart, bind_option, new_gzip_seeker, seek, size}
use verm.Seeker.Refines.{IsSource, Represents, IsSought}
use verm.Seeker.Refines.Seeks.{seek-IsSought}
use verm.Seeker.Refines.Session.{Call, read_call, seek_call, after_calls, new_gzip_seeker-seekable}

abbrev hello : Bytes
hello = codes "hello"

-- The state is what is left.
abbrev plain : Source Bytes
plain = record {
  read = λ n r. (take n r, if leb (length r) n then eof else nil, drop n r);
  seek_start = λ r. some hello;
  reset = λ r. some r;
}

pub plain_end :
    (n : ℕ) (r : Bytes)
    → (((if leb (length r) (suc n) then eof else nil) ≡ nil) × (1 ≤ length (take (suc n) r)))
      ⊎ (((if leb (length r) (suc n) then eof else nil) ≡ eof) × (drop (suc n) r ≡ []))
plain_end n r = elim (Bool-cases (leb (length r) (suc n))) [
  | inl le ↦ inr (
    rw le refl,
    none_left (drop (suc n) r) (omega (arith, length-drop (suc n) r, leb→le (length r) (suc n) le)),
  )
  | inr gt ↦ inl (rw gt refl, ground (arith, length-take (suc n) r))
]
  where
    none_left : (s : Bytes) → length s ≡ 0 → s ≡ []
    none_left [] e = refl
    none_left (c ∷ s) e = absurd (omega (arith, e))

plain-IsSource : IsSource plain hello (λ r. r)
unfolding restart bind_option
plain-IsSource = record {
  read_bytes = λ n r. sym (take-append-drop (suc n) r);
  read_room = λ n r. omega (arith, length-take (suc n) r);
  read_end = plain_end;
  restarts = λ r. (hello, refl, refl);
}

standing :
    Represents plain hello
      (λ r. r)
      (record { reader = codes "lo"; position = pos 3; size = pos 5 })
      3
unfolding drop
standing = record { position_eq = refl; size_eq = refl; rest_eq = refl; inside = omega arith }

back : some (pos 3 +ℤ negsuc 1) ≡ some (pos 1)
unfolding ◌+ℤ◌ wrap64
back = refl

-- Two bytes back from the end of the first three.
seek-IsSought_example :
    (out : ℤ × ReadEnd × GzipSeeker Bytes) × (seek plain 6
        (negsuc 1)
        1
        (record { reader = codes "lo"; position = pos 3; size = pos 5 })
      ≡ some out)
    × IsSought plain hello (λ r. r) (pos 1) out
seek-IsSought_example =
    seek-IsSought plain hello (λ r. r) plain-IsSource (omega arith) 6 3 (negsuc 1) 1 (pos 1)
      (record { reader = codes "lo"; position = pos 3; size = pos 5 }) standing (omega arith) back
      (omega arith)

abbrev calls : List Call
calls = read_call 1 ∷ seek_call (negsuc 0) 2 ∷ read_call 7 ∷ []

new_gzip_seeker-seekable_example :
    (s : GzipSeeker Bytes) × (t : GzipSeeker Bytes) × (u : GzipSeeker Bytes) × (new_gzip_seeker
        plain 6 hello
      ≡ some (some s))
    × (size plain s ≡ pos 5)
    × (after_calls plain 6 calls s ≡ some t)
    × (seek plain 6 (pos 2) 0 t ≡ some (pos 2, nil, u))
    × (u.reader ≡ drop 2 hello)
new_gzip_seeker-seekable_example =
    new_gzip_seeker-seekable plain hello (λ r. r) plain-IsSource (omega arith) 6 2 hello calls refl
      (omega arith) (tt, (omega arith, (tt, tt))) (omega arith)
