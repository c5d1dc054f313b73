-- ===== src/Upload/HashName/Injective.antt =====
-- Different hashes have different names.
use verm.Prelude.{
  ℕ, suc, ◌+◌, ◌*◌, ◌/◌, ◌%◌, ◌<◌, ◌≡◌, refl, ap, sym, ◌∙◌, true, Option, none, some, [], ◌∷◌, ◌++◌,
  Bytes, All, ◌==◌, ==_iff, if◌then◌else◌, passes_below, passes_at, arith,
}
use verm.Upload.HashName.{
  encoding_alphabet, symbol, encode_triple, encode_rest, encode_dir, encode_hash, ◌>>=◌,
}
use verm.Upload.HashName.Shape.{IsByte}

-- The index of a symbol in the alphabet.
position : Bytes → ℕ → ℕ
position [] c = 0
position (x ∷ xs) c = let rest = position xs c in if x == c then 0 else suc rest

position_table : passes_below (λ i. position encoding_alphabet (symbol i) == i) 64 ≡ true
unfolding passes_below symbol position
position_table = refl

position-symbol : (i : ℕ) → i < 64 → position encoding_alphabet (symbol i) ≡ i
position-symbol i h =
    (==_iff _ i).0
      (passes_at (λ j. position encoding_alphabet (symbol j) == j) 64 position_table i h)

symbol_inj : (i j : ℕ) → i < 64 → j < 64 → symbol i ≡ symbol j → i ≡ j
symbol_inj i j hi hj e =
    sym (position-symbol i hi) ∙ ap (position encoding_alphabet) e ∙ position-symbol j hj

encode_triple_inj :
    (a0 a1 a2 b0 b1 b2 : ℕ) (u v : Bytes)
    → All IsByte (a0 ∷ a1 ∷ a2 ∷ b0 ∷ b1 ∷ b2 ∷ [])
    → encode_triple a0 a1 a2 ++ u ≡ encode_triple b0 b1 b2 ++ v
    → (a0 ≡ b0) × (a1 ≡ b1) × (a2 ≡ b2) × (u ≡ v)
unfolding encode_triple
encode_triple_inj a0 a1 a2 b0 b1 b2 u v h e =
    let e0 = symbol_inj (a0 / 4) (b0 / 4) (omega arith) (omega arith) (cc) in
    let e1 =
      symbol_inj (a0 % 4 * 16 + a1 / 16) (b0 % 4 * 16 + b1 / 16) (omega arith) (omega arith) (cc) in
    let e2 =
      symbol_inj (a1 % 16 * 4 + a2 / 64) (b1 % 16 * 4 + b2 / 64) (omega arith) (omega arith) (cc) in
    let e3 = symbol_inj (a2 % 64) (b2 % 64) (omega arith) (omega arith) (cc) in
    (omega arith, omega arith, omega arith, cc)

encode_rest_cons :
    (a0 a1 a2 : ℕ) (a : Bytes) (out : Bytes)
    → encode_rest (a0 ∷ a1 ∷ a2 ∷ a) ≡ some out
    → (rest : Bytes) × (encode_rest a ≡ some rest) × (out ≡ encode_triple a0 a1 a2 ++ rest)
unfolding encode_rest
encode_rest_cons a0 a1 a2 a out e = invert (encode_rest a) e
  where
    invert :
        (r : Option Bytes)
        → ◌≡◌ {A = Option Bytes}
            (elim r [ none ↦ none | some o ↦ some (encode_triple a0 a1 a2 ++ o) ])
            (some out)
        → (rest : Bytes) × (r ≡ some rest) × (out ≡ encode_triple a0 a1 a2 ++ rest)
    invert none q = cc
    invert (some o) q = (o, refl, cc)

encode_rest_inj :
    (a b out : Bytes)
    → All IsByte a
    → All IsByte b
    → encode_rest a ≡ some out
    → encode_rest b ≡ some out
    → a ≡ b
unfolding encode_rest
encode_rest_inj [] [] out ha hb ea eb = refl
encode_rest_inj [] (b0 ∷ b1 ∷ b2 ∷ b) out ha hb ea eb =
    unfold encode_triple in ground (arith, encode_rest_cons b0 b1 b2 b out eb)
encode_rest_inj (a0 ∷ a1 ∷ a2 ∷ a) [] out ha hb ea eb =
    unfold encode_triple in ground (arith, encode_rest_cons a0 a1 a2 a out ea)
encode_rest_inj (a0 ∷ a1 ∷ a2 ∷ a) (b0 ∷ b1 ∷ b2 ∷ b) out (h0, (h1, (h2, ha))) (k0, (k1, (k2, hb)))
      ea eb =
    let (u, eu, ou) = encode_rest_cons a0 a1 a2 a out ea in
    let (v, ev, ov) = encode_rest_cons b0 b1 b2 b out eb in
    let (e0, e1, e2, e) =
      encode_triple_inj a0 a1 a2 b0 b1 b2 u v (h0, (h1, (h2, (k0, (k1, (k2, tt))))))
        (sym ou ∙ ov) in
    let ih = encode_rest_inj a b u ha hb eu (ev ∙ ap some (sym e)) in cc
encode_rest_inj [] (b0 ∷ []) out ha hb ea eb = cc
encode_rest_inj [] (b0 ∷ b1 ∷ []) out ha hb ea eb = cc
encode_rest_inj (a0 ∷ a1 ∷ a2 ∷ a) (b0 ∷ []) out ha hb ea eb = cc
encode_rest_inj (a0 ∷ a1 ∷ a2 ∷ a) (b0 ∷ b1 ∷ []) out ha hb ea eb = cc
encode_rest_inj (a0 ∷ []) b out ha hb ea eb = cc
encode_rest_inj (a0 ∷ a1 ∷ []) b out ha hb ea eb = cc

encode_hash_cons :
    (m0 m1 : ℕ) (md dir dst : Bytes)
    → encode_hash (m0 ∷ m1 ∷ md) ≡ some (dir, dst)
    → (rest : Bytes) × (encode_rest md ≡ some rest)
      × (dir ≡ encode_dir m0 m1)
      × (dst ≡ b'/' ∷ symbol (m1 % 32) ∷ rest)
unfolding encode_hash
encode_hash_cons m0 m1 md dir dst e = invert (encode_rest md) e
  where
    invert :
        (r : Option Bytes)
        → (r >>= λ rest. some (encode_dir m0 m1, b'/' ∷ symbol (m1 % 32) ∷ rest)) ≡ some (dir, dst)
        → (rest : Bytes) × (r ≡ some rest)
          × (dir ≡ encode_dir m0 m1)
          × (dst ≡ b'/' ∷ symbol (m1 % 32) ∷ rest)
    invert none q = cc
    invert (some o) q = (o, refl, cc, cc)

-- Two hashes, of any length that is encoded, with the same directory and the same file name are
-- equal: the name determines the hash.
pub encode_hash_inj :
    (a b dir dst : Bytes)
    → All IsByte a
    → All IsByte b
    → encode_hash a ≡ some (dir, dst)
    → encode_hash b ≡ some (dir, dst)
    → a ≡ b
unfolding encode_hash
encode_hash_inj [] b dir dst ha hb ea eb = cc
encode_hash_inj (a0 ∷ []) b dir dst ha hb ea eb = cc
encode_hash_inj (a0 ∷ a1 ∷ a) [] dir dst ha hb ea eb = cc
encode_hash_inj (a0 ∷ a1 ∷ a) (b0 ∷ []) dir dst ha hb ea eb = cc
encode_hash_inj (a0 ∷ a1 ∷ a) (b0 ∷ b1 ∷ b) dir dst (h0, (h1, ha)) (k0, (k1, hb)) ea eb =
    let (u, eu, da, na) = encode_hash_cons a0 a1 a dir dst ea in
    let (v, ev, db, nb) = encode_hash_cons b0 b1 b dir dst eb in
    let s0 = symbol_inj (a0 / 8) (b0 / 8) (omega arith) (omega arith) (unfold encode_dir in cc) in
    let s1 =
      symbol_inj (a0 % 8 * 8 + a1 / 32) (b0 % 8 * 8 + b1 / 32) (omega arith) (omega arith)
        (unfold encode_dir in cc) in
    let s2 = symbol_inj (a1 % 32) (b1 % 32) (omega arith) (omega arith) (cc) in
    let e0 : a0 ≡ b0 = omega arith in
    let e1 : a1 ≡ b1 = omega arith in
    let ev' : encode_rest b ≡ some u = cc in let ih = encode_rest_inj a b u ha hb eu ev' in cc
