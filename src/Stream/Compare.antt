-- ===== src/Stream/Compare.antt =====
-- `sameContents` against its specification: two streams are the same when both end well and deliver
-- the same bytes.
use verm.Prelude.{
  ℕ, zero, suc, ◌<◌, Bool, true, ◌&&◌, not, Option, none, some, [], ◌∷◌, Bytes, bytes_eq, length,
  take, drop, ◌≡◌, ◌⊎◌, refl, ap, ◌∙◌, arith, length-take, length-drop, inl, inr,
}
use verm.Stream.{Stream, read_full, compare_round, same_contents_loop, same_contents, buffer_size}

-- Comparing two texts is comparing their first `n` bytes and the rest.
bytes_eq-take-drop :
    (n : ℕ) (a b : Bytes)
    → bytes_eq a b ≡ (bytes_eq (take n a) (take n b) && bytes_eq (drop n a) (drop n b))
unfolding bytes_eq take drop
bytes_eq-take-drop n [] [] = refl
bytes_eq-take-drop zero [] (y ∷ b) = refl
bytes_eq-take-drop (suc n) [] (y ∷ b) = refl
bytes_eq-take-drop zero (x ∷ a) [] = refl
bytes_eq-take-drop (suc n) (x ∷ a) [] = refl
bytes_eq-take-drop zero (x ∷ a) (y ∷ b) = refl
bytes_eq-take-drop (suc n) (x ∷ a) (y ∷ b) = ground (arith, bytes_eq-take-drop n a b)

length-bytes_eq : (a b : Bytes) → bytes_eq a b ≡ true → length a ≡ length b
unfolding bytes_eq
length-bytes_eq [] [] h = refl
length-bytes_eq [] (y ∷ b) h = cc
length-bytes_eq (x ∷ a) [] h = cc
length-bytes_eq (x ∷ a) (y ∷ b) h = ground (arith, length-bytes_eq a b)

abbrev pub same_spec : Stream → Stream → Bool
same_spec s1 s2 = not s1.fails && not s2.fails && bytes_eq s1.bytes s2.bytes

bytes_eq_of_empty : (a b : Bytes) → length a ≡ 0 → length b ≡ 0 → bytes_eq a b ≡ true
unfolding bytes_eq
bytes_eq_of_empty [] [] h k = refl
bytes_eq_of_empty [] (y ∷ b) h k = absurd (omega arith)
bytes_eq_of_empty (x ∷ a) b h k = absurd (omega arith)

-- The two reads of a round, and what is left of the streams.
abbrev round : ℕ → Stream → Stream → Option Bool
round size s1 s2 =
    compare_round (read_full size s1).0 (read_full size s1).1 (read_full size s2).0
      (read_full size s2).1

-- A round decides as the specification does, or leaves streams that are the same exactly if these
-- are, and shorter ones.
round_lem :
    (size : ℕ) (s1 s2 : Stream)
    → 0 < size
    → (round size s1 s2 ≡ some (same_spec s1 s2))
      ⊎ ((round size s1 s2 ≡ none)
          × (same_spec (read_full size s1).2 (read_full size s2).2 ≡ same_spec s1 s2)
          × (0 < length s1.bytes))
unfolding read_full compare_round
round_lem size s1 s2 pos =
    let a = s1.bytes in
    let b = s2.bytes in
    ground (
      arith,
      bytes_eq-take-drop size a b,
      length-take size a,
      length-take size b,
      length-drop size a,
      length-drop size b,
      length-bytes_eq (take size a) (take size b),
      bytes_eq_of_empty a b,
      bytes_eq_of_empty (drop size a) (drop size b),
      length-bytes_eq a b,
    )

loop_lem :
    (f size : ℕ) (s1 s2 : Stream)
    → 0 < size
    → length s1.bytes < f
    → same_contents_loop f size s1 s2 ≡ some (same_spec s1 s2)
unfolding same_contents_loop
loop_lem zero size s1 s2 pos h = absurd (omega arith)
loop_lem (suc f) size s1 s2 pos h = elim (round_lem size s1 s2 pos) [
  | inl decided ↦ rw (decided, same_contents_loop)
  | inr (more, same, long) ↦
      rw (more, same_contents_loop)
        (loop_lem f size (read_full size s1).2 (read_full size s2).2 pos
            (unfold read_full in omega (arith, length-drop size s1.bytes))
          ∙ ap some same)
]

-- `sameContents` returns on all streams, however their contents fall into buffers: the result is
-- true exactly if both streams end without an error and deliver the same bytes.
pub same_contents_lem : (s1 s2 : Stream) → same_contents s1 s2 ≡ some (same_spec s1 s2)
unfolding same_contents
same_contents_lem s1 s2 =
    loop_lem (suc (length s1.bytes)) buffer_size s1 s2 (omega arith) (omega arith)
