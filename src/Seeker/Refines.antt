-- ===== src/Seeker/Refines.antt =====
-- The seeker stands for the decoded bytes and a position in them.
pub mod Skips
pub mod Seeks
pub mod Session
use verm.Prelude.{
  ℕ, zero, suc, ◌+◌, ◌-◌, ◌≤◌, ◌<◌, ◌^◌, min, Bool, true, false, Option, none, some, List, [], ◌∷◌,
  ◌++◌, Bytes, drop, drop-drop, length, length-append, length-drop, drop_append, if◌then◌else◌, ◌≡◌,
  ◌⊎◌, inl, inr, refl, sym, some_inj, ltb, ltb→lt, Bool-cases, ap, ◌∙◌, subst, arith,
}
use verm.Prelude.Int.{ℤ, pos, negsuc, ◌+ℤ◌, ◌-ℤ◌, ltbℤ, pos_part, wrap64, pos_add}
use verm.Stream.{ReadEnd, nil, eof}
use verm.Seeker.{
  Source, GzipSeeker, chunk_size, bind_option, restart, measure, ready, after_measure,
  new_gzip_seeker, read, skip_count, skipped, skip_loop, skip_restarted, seek_from_start, seek,
}

-- What is relied on of the decoder for a file whose decoded bytes are `content`: `rest` are the bytes
-- that are still to come. A read that is given room delivers the next of them, and it says `io.EOF`
-- only when all have been delivered; it delivers a byte at least if it says nothing. The decoder can be
-- started again.
pub record IsSource {R : Type 0} (source : Source R) (content : Bytes) (rest : R → Bytes)
    : Type 0 where
  pub read_bytes :
      (n : ℕ) (r : R) → rest r ≡ (source.read (suc n) r).0 ++ rest (source.read (suc n) r).2
  pub read_room : (n : ℕ) (r : R) → length (source.read (suc n) r).0 ≤ suc n
  pub read_end :
      (n : ℕ) (r : R)
      → (((source.read (suc n) r).1 ≡ nil) × (1 ≤ length (source.read (suc n) r).0))
        ⊎ (((source.read (suc n) r).1 ≡ eof) × (rest (source.read (suc n) r).2 ≡ []))
  pub restarts : (r : R) → (s : R) × (restart source r ≡ some s) × (rest s ≡ content)

module _ {R : Type 0} (source : Source R) (content : Bytes) (rest : R → Bytes) where
  -- The seeker stands at the position `p` of the bytes.
  pub record Represents (s : GzipSeeker R) (p : ℕ) : Type 0 where
    pub position_eq : s.position ≡ pos p
    pub size_eq : s.size ≡ pos (length content)
    pub rest_eq : rest s.reader ≡ drop p content
    pub inside : p ≤ length content

  -- What a seek to a target comes to: behind the end it stops there, with `io.EOF`, and before the
  -- start it goes to the start, without an error.
  pub data IsSought : ℤ → ℤ × ReadEnd × GzipSeeker R → Type 0 where
    before : {k : ℕ} {s : GzipSeeker R} → Represents s 0 → IsSought (negsuc k) (pos 0, nil, s)
    within : {q : ℕ} {s : GzipSeeker R} → Represents s q → IsSought (pos q) (pos q, nil, s)
    behind :
        {q : ℕ} {s : GzipSeeker R}
        → length content ≤ q
        → Represents s (length content)
        → IsSought (pos q) (pos (length content), eof, s)

  -- What a read into a buffer with room delivers at the position `p`.
  pub record IsRead (p n : ℕ) (s : GzipSeeker R) : Type 0 where
    pub bytes : Bytes
    pub end : ReadEnd
    pub next : GzipSeeker R
    pub read_eq : read source n s ≡ (bytes, end, next)
    pub moves : Represents next (p + length bytes)
    pub bytes_eq : drop p content ≡ bytes ++ drop (p + length bytes) content
    pub room : length bytes ≤ n
    pub ends :
        ((end ≡ nil) × (1 ≤ length bytes)) ⊎ ((end ≡ eof) × (p + length bytes ≡ length content))

  module _ (lawful : IsSource source content rest) (small : length content < 2 ^ 63) where
    -- A read delivers the bytes at the position, and moves the position by their number.
    pub Represents-IsRead : (n p : ℕ) (s : GzipSeeker R) → Represents s p → IsRead p (suc n) s
    unfolding read
    Represents-IsRead n p s h =
        let (b, e, r) = source.read (suc n) s.reader in
        let bytes : drop p content ≡ b ++ rest r = sym h.rest_eq ∙ lawful.read_bytes n s.reader in
        let left : rest r ≡ drop (p + length b) content =
          sym (drop_append b (rest r))
          ∙ ap (drop (length b)) (sym bytes)
          ∙ drop-drop (length b) p content in
        let count : length b + length (rest r) ≡ length content - p =
          sym (length-append b (rest r)) ∙ sym (ap length bytes) ∙ length-drop p content in
        let moved : pos p +ℤ pos (length b) ≡ pos (p + length b) =
          pos_add p (length b) (omega (arith, h.inside)) in
        record {
          bytes = b;
          end = e;
          next = record s { reader = r; position = s.position +ℤ pos (length b) };
          read_eq = refl;
          moves = record {
            position_eq = ap (λ z. z +ℤ pos (length b)) h.position_eq ∙ moved;
            size_eq = h.size_eq;
            rest_eq = left;
            inside = omega (arith, h.inside);
          };
          bytes_eq = bytes ∙ ap (λ t. b ++ t) left;
          room = lawful.read_room n s.reader;
          ends = elim (lawful.read_end n s.reader) [
            | inl (f, some_read) ↦ inl (f, some_read)
            | inr (f, z) ↦ inr (f, omega (arith, h.inside, count, ap length z))
          ];
        }
