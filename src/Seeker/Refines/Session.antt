-- ===== src/Seeker/Refines/Session.antt =====
-- `NewGzipSeeker`, and what any use of the seeker behind it leaves.
use verm.Prelude.{
  append-nil, ◌++◌, drop_zero, ℕ, zero, suc, ◌+◌, ◌≤◌, ◌<◌, ◌^◌, Option, some, List, [], ◌∷◌, Bytes,
  drop, length, ◌≡◌, inl, inr, refl, sym, ap, ◌∙◌, arith, All,
}
use verm.Prelude.Int.{ℤ, pos, pos_part}
use verm.Stream.{ReadEnd, nil, eof, failure}
use verm.Seeker.{
  Source, GzipSeeker, chunk_size, bind_option, measured, measure, ready, after_measure,
  new_gzip_seeker, read, read_on, continued, seek, size,
}
use verm.Seeker.Refines.{
  Represents, IsSource, IsRead, IsSought, before, within, behind, Represents-IsRead,
}
use verm.Seeker.Refines.Seeks.{seek_target, seek-IsSought}

-- A call of a method of the seeker; a read has room for one byte more than it says.
pub data Call : Type 0 where
  read_call : ℕ → Call
  seek_call : ℤ → ℕ → Call

-- An offset that is an `int64`.
abbrev pub IsCall : Call → Type 0
IsCall (read_call n) = Unit
IsCall (seek_call offset whence) = pos_part offset < 2 ^ 63

drop_end : (s : Bytes) (n : ℕ) → n ≡ length s → drop n s ≡ []
unfolding drop
drop_end [] n e = refl
drop_end (c ∷ s) zero e = absurd (omega (arith, e))
drop_end (c ∷ s) (suc n) e = drop_end s n (omega (arith, e))

module _ {R : Type 0} (source : Source R) where
  -- The seeker behind one call, whatever the call returns.
  unfoldable pub after_call : ℕ → Call → GzipSeeker R → Option (GzipSeeker R)
  after_call fuel (read_call n) s = some (read source (suc n) s).2
  after_call fuel (seek_call offset whence) s =
      bind_option (seek source fuel offset whence s) (λ out. some out.2)

  unfoldable pub after_calls : ℕ → List Call → GzipSeeker R → Option (GzipSeeker R)
  after_calls fuel [] s = some s
  after_calls fuel (c ∷ calls) s = bind_option (after_call fuel c s) (after_calls fuel calls)

  measure_step :
      (fuel : ℕ) (s : GzipSeeker R) (got : Bytes × ReadEnd × GzipSeeker R)
      → read source chunk_size s ≡ got
      → measure source (suc fuel) s.reader s.position
        ≡ measured source got.1 got.2.position got.2.reader
            (measure source fuel got.2.reader got.2.position)
  unfolding measure read
  measure_step fuel s got e =
      ap
        (λ g.
          measured source g.1 g.2.position g.2.reader (measure source fuel g.2.reader g.2.position))
        e

module _ {R : Type 0} (source : Source R) (content : Bytes) (rest : R → Bytes)
    (lawful : IsSource source content rest) (small : length content < 2 ^ 63) where
  measure_lem :
      (fuel p : ℕ) (s : GzipSeeker R)
      → Represents source content rest s p
      → length content < p + fuel
      → (r : R) × (measure source fuel s.reader s.position ≡ some (eof, pos (length content), r))
  unfolding measured
  measure_lem zero p s h enough = absurd (omega (arith, h.inside))
  measure_lem (suc fuel) p s h enough =
      let r = Represents-IsRead source content rest lawful small 4095 p s h in
      go r (measure_step source fuel s _ r.read_eq)
        (λ one. measure_lem fuel (p + length r.bytes) r.next r.moves (omega (arith, one, enough)))
    where
      go :
          (r : IsRead source content rest p 4096 s)
          → measure source (suc fuel) s.reader s.position
            ≡ measured source r.end r.next.position r.next.reader
                (measure source fuel r.next.reader r.next.position)
          → (1 ≤ length r.bytes
              → (t : R) × (measure source fuel r.next.reader r.next.position
                  ≡ some (eof, pos (length content), t)))
          → (t : R) × (measure source (suc fuel) s.reader s.position
              ≡ some (eof, pos (length content), t))
      go r step more = elim r.ends [
        | inl (e, one) ↦ (let (t, f) = more one in (t, step ∙ rw e f))
        | inr (e, all) ↦ (
          r.next.reader,
          step ∙ rw e (ap (λ z. some (eof, z, r.next.reader)) (r.moves.position_eq ∙ ap pos all)),
        )
      ]

  -- A seeker that is made knows the number of the bytes, and stands at their start.
  pub new_gzip_seeker-Represents :
      (fuel : ℕ) (r : R)
      → rest r ≡ content
      → length content < fuel
      → (s : GzipSeeker R) × (new_gzip_seeker source fuel r ≡ some (some s))
        × Represents source content rest s 0
  unfolding new_gzip_seeker bind_option after_measure ready
  new_gzip_seeker-Represents fuel r e enough =
      let s : GzipSeeker R = record { reader = r; position = pos 0; size = pos (length content) } in
      let (t, f) =
        measure_lem fuel 0 s
          (record {
            position_eq = refl;
            size_eq = refl;
            rest_eq = e ∙ sym (drop_zero content);
            inside = omega arith;
          })
          (omega (arith, enough)) in
      let (u, g, h) = lawful.restarts t in
      (
        record s { reader = u },
        rw (new_gzip_seeker, f, g) refl,
        record {
          position_eq = refl;
          size_eq = refl;
          rest_eq = h ∙ sym (drop_zero content);
          inside = omega arith;
        },
      )

  -- What is read on from a position are the bytes behind it.
  pub read_on_lem :
      (fuel p : ℕ) (s : GzipSeeker R)
      → Represents source content rest s p
      → length content < p + fuel
      → read_on source fuel s ≡ drop p content
  unfolding read_on continued
  read_on_lem zero p s h enough = absurd (omega (arith, h.inside))
  read_on_lem (suc fuel) p s h enough =
      let r = Represents-IsRead source content rest lawful small 32767 p s h in
      ap (λ g. continued source g.0 g.1 (read_on source fuel g.2)) r.read_eq
      ∙ go r
          (λ one. read_on_lem fuel (p + length r.bytes) r.next r.moves (omega (arith, one, enough)))
    where
      go :
          (r : IsRead source content rest p 32768 s)
          → (1 ≤ length r.bytes → read_on source fuel r.next ≡ drop (p + length r.bytes) content)
          → continued source r.bytes r.end (read_on source fuel r.next) ≡ drop p content
      go r more = elim r.ends [
        | inl (e, one) ↦
            (ap (λ z. continued source r.bytes z (read_on source fuel r.next)) e
              ∙ ap (λ t. r.bytes ++ t) (more one)
              ∙ sym r.bytes_eq)
        | inr (e, all) ↦
            (ap (λ z. continued source r.bytes z (read_on source fuel r.next)) e
              ∙ sym (append-nil r.bytes)
              ∙ ap (λ t. r.bytes ++ t) (sym (drop_end content (p + length r.bytes) all))
              ∙ sym r.bytes_eq)
      ]

  -- The seeker still stands for the bytes, at some position.
  Stands : Option (GzipSeeker R) → Type 0
  Stands result =
      (s : GzipSeeker R) × (p : ℕ) × (result ≡ some s) × Represents source content rest s p

  sought-Stands :
      (target : ℤ) (out : ℤ × ReadEnd × GzipSeeker R)
      → IsSought source content rest target out
      → (p : ℕ) × Represents source content rest out.2 p
  sought-Stands _ _ (before h) = (0, h)
  sought-Stands _ _ (within h) = (_, h)
  sought-Stands _ _ (behind le h) = (length content, h)

  reached :
      (fuel p : ℕ) (offset : ℤ) (whence : ℕ) (target : ℤ) (s : GzipSeeker R)
      → Represents source content rest s p
      → pos_part offset < 2 ^ 63
      → seek_target source content rest lawful small p offset whence ≡ some target
      → length content < fuel
      → (out : ℤ × ReadEnd × GzipSeeker R) × (q : ℕ) × (seek source fuel offset whence s ≡ some out)
        × Represents source content rest out.2 q
  reached fuel p offset whence target s h fits e enough =
      let (out, f, sought) =
        seek-IsSought source content rest lawful small fuel p offset whence target s h fits e
          enough in
      let (q, g) = sought-Stands target out sought in (out, q, f, g)

  within-reached :
      (q : ℕ) (out : ℤ × ReadEnd × GzipSeeker R)
      → q < length content
      → IsSought source content rest (pos q) out
      → (u : GzipSeeker R) × (out ≡ (pos q, nil, u)) × (rest u.reader ≡ drop q content)
  within-reached q _ lt (within {s} h) = (s, refl, h.rest_eq)
  within-reached q _ lt (behind le h) = absurd (omega arith)

  seek-Stands :
      (fuel p : ℕ) (offset : ℤ) (whence : ℕ) (s : GzipSeeker R)
      → Represents source content rest s p
      → pos_part offset < 2 ^ 63
      → length content < fuel
      → (out : ℤ × ReadEnd × GzipSeeker R) × (q : ℕ) × (seek source fuel offset whence s ≡ some out)
        × Represents source content rest out.2 q
  unfolding seek
  seek-Stands fuel p offset (suc (suc (suc n))) s h fits enough =
      ((s.position, failure, s), p, refl, h)
  seek-Stands fuel p offset zero s h fits enough = reached fuel p offset 0 _ s h fits refl enough
  seek-Stands fuel p offset (suc zero) s h fits enough =
      reached fuel p offset 1 _ s h fits refl enough
  seek-Stands fuel p offset (suc (suc zero)) s h fits enough =
      reached fuel p offset 2 _ s h fits refl enough

  after_call-Stands :
      (fuel p : ℕ) (c : Call) (s : GzipSeeker R)
      → Represents source content rest s p
      → IsCall c
      → length content < fuel
      → Stands (after_call source fuel c s)
  unfolding after_call Stands bind_option
  after_call-Stands fuel p (read_call n) s h fits enough =
      let r = Represents-IsRead source content rest lawful small n p s h in
      (r.next, p + length r.bytes, ap (λ got. some got.2) r.read_eq, r.moves)
  after_call-Stands fuel p (seek_call offset whence) s h fits enough =
      let (out, q, e, g) = seek-Stands fuel p offset whence s h fits enough in
      (out.2, q, rw e refl, g)

  after_calls-Stands :
      (fuel p : ℕ) (calls : List Call) (s : GzipSeeker R)
      → Represents source content rest s p
      → All IsCall calls
      → length content < fuel
      → Stands (after_calls source fuel calls s)
  unfolding after_calls Stands bind_option
  after_calls-Stands fuel p [] s h fits enough = (s, p, refl, h)
  after_calls-Stands fuel p (c ∷ calls) s h (fit, fits) enough =
      let (t, q, e, g) = after_call-Stands fuel p c s h fit enough in
      let (u, k, f, i) = after_calls-Stands fuel q calls t g fits enough in
      (u, k, rw (after_calls, e) f, i)

  -- A seeker over a file can be made, and after any calls of its methods a seek to a position within the
  -- decoded bytes reaches it without an error, so that what is read from there on are the bytes behind
  -- it. One more than the number of bytes is fuel enough.
  pub new_gzip_seeker-seekable :
      (fuel q : ℕ) (r : R) (calls : List Call)
      → rest r ≡ content
      → length content < fuel
      → All IsCall calls
      → q < length content
      → (s : GzipSeeker R) × (t : GzipSeeker R) × (u : GzipSeeker R) × (new_gzip_seeker source fuel
            r
          ≡ some (some s))
        × (size source s ≡ pos (length content))
        × (after_calls source fuel calls s ≡ some t)
        × (seek source fuel (pos q) 0 t ≡ some (pos q, nil, u))
        × (rest u.reader ≡ drop q content)
  unfolding Stands size
  new_gzip_seeker-seekable fuel q r calls e enough fits lt =
      let (s, made, h) = new_gzip_seeker-Represents fuel r e enough in
      let (t, p, done, g) = after_calls-Stands fuel 0 calls s h fits enough in
      let (out, found, sought) =
        seek-IsSought source content rest lawful small fuel p (pos q) 0 (pos q) t g
          (omega (arith, small)) refl enough in
      let (u, is, left) = within-reached q out lt sought in
      (s, t, u, made, h.size_eq, done, found ∙ ap some is, left)
