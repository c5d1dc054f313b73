-- ===== src/Replication/Batches/Whole.antt =====
-- The batches hold all locations in their order.
use verm.Prelude.{
  ℕ, zero, suc, ◌+◌, ◌≤◌, ◌<◌, Bool, false, none, some, List, [], ◌∷◌, ◌++◌, map, append_assoc,
  Bytes, bytes_eq, length, ◌≡◌, ◌≢◌, ◌⊎◌, inl, inr, refl, sym, ap, ap₂, ◌∙◌, subst, arith, All,
  Option-cases, bytes_eq_iff,
}
use verm.Replication.Lines.{write_lines}
use verm.Replication.Batches.{
  batch_size, written, cons_option, round, collect, send_loop, send_file_lists,
}

pub write_lines-append :
    (ls ms : List Bytes) → write_lines (ls ++ ms) ≡ write_lines ls ++ write_lines ms
unfolding write_lines
write_lines-append [] ms = refl
write_lines-append (l ∷ ls) ms =
    ap (λ t. l ++ 13 ∷ 10 ∷ t) (write_lines-append ls ms)
    ∙ sym (append_assoc l (13 ∷ 10 ∷ write_lines ls) (write_lines ms))

written_lem :
    (ls : List Bytes) (l : Bytes) → written (write_lines ls) l ≡ write_lines (ls ++ l ∷ [])
unfolding written write_lines
written_lem ls l = sym (write_lines-append ls (l ∷ []))

-- The lists one behind the other.
abbrev pub concat : List (List Bytes) → List Bytes
concat [] = []
concat (ls ∷ lss) = ls ++ concat lss

-- Only the last location of a batch may bring it over the size at which it is sent.
pub record IsBatch (flushed : Bytes → ℕ) (batch : List Bytes) : Type 0 where
  pub before : List Bytes
  pub last : Bytes
  pub batch_eq : batch ≡ before ++ last ∷ []
  pub small : (before ≡ []) ⊎ (flushed (write_lines before) ≤ batch_size)

-- The texts are those of batches that are the locations, cut.
pub record IsBatching (flushed : Bytes → ℕ) (locations texts : List Bytes) : Type 0 where
  pub batches : List (List Bytes)
  pub texts_eq : texts ≡ map write_lines batches
  pub concat_eq : concat batches ≡ locations
  pub each : All (IsBatch flushed) batches

module _ (timed_out : ℕ → Bool) (flushed : Bytes → ℕ) where
  -- What a batch takes of the locations that are received behind `before`.
  record Taken (before : List Bytes) (l : Bytes) (locations : List Bytes)
      (out : Bytes × List Bytes × ℕ) : Type 0 where
    batch : List Bytes
    text_eq : out.0 ≡ write_lines batch
    split_eq : before ++ l ∷ locations ≡ batch ++ out.1
    shorter : length out.1 ≤ length locations
    is_batch : IsBatch flushed batch

  last_of :
      (before : List Bytes) (l : Bytes) (locations : List Bytes) (n : ℕ)
      → (before ≡ []) ⊎ (flushed (write_lines before) ≤ batch_size)
      → Taken before l locations (written (write_lines before) l, locations, n)
  last_of before l locations n small = record {
    batch = before ++ l ∷ [];
    text_eq = written_lem before l;
    split_eq = sym (append_assoc before (l ∷ []) locations);
    shorter = omega arith;
    is_batch = record { before = before; last = l; batch_eq = refl; small = small };
  }

  -- A round that ends the batch has written the location.
  round_ends :
      (before : List Bytes) (l : Bytes) (n : ℕ) (t : Bytes) (k : ℕ)
      → l ≢ []
      → round timed_out flushed (write_lines before) l n ≡ some (t, k)
      → t ≡ written (write_lines before) l
  unfolding round
  round_ends before l n t k filled e = ground (arith, (bytes_eq_iff l []).0)

  round_goes_on :
      (before : List Bytes) (l : Bytes) (n : ℕ)
      → round timed_out flushed (write_lines before) l n ≡ none
      → flushed (write_lines (before ++ l ∷ [])) ≤ batch_size
  unfolding round
  round_goes_on before l n e =
      let s : flushed (written (write_lines before) l) ≤ batch_size = ground arith in
      subst (λ t. flushed t ≤ batch_size) (written_lem before l) s

  collect_lem :
      (locations before : List Bytes) (l : Bytes) (n : ℕ)
      → l ≢ []
      → All (λ m. m ≢ []) locations
      → (before ≡ []) ⊎ (flushed (write_lines before) ≤ batch_size)
      → Taken before l locations (collect timed_out flushed locations (write_lines before) l n)
  unfolding collect
  collect_lem [] before l n filled all small =
      elim (Option-cases (round timed_out flushed (write_lines before) l n)) [
        | inl e ↦ rw (collect, e) (last_of before l [] (n + 1) small)
        | inr ((t, k), e) ↦
            rw (collect, e, round_ends before l n t k filled e) (last_of before l [] k small)
      ]
  collect_lem (m ∷ locations) before l n filled (fm, all) small =
      elim (Option-cases (round timed_out flushed (write_lines before) l n)) [
        | inl e ↦
            rw (collect, e, written_lem before l)
              (behind (
                collect_lem locations (before ++ l ∷ []) m (n + 1) fm all
                  (inr (round_goes_on before l n e))))
        | inr ((t, k), e) ↦
            rw (collect, e, round_ends before l n t k filled e)
              (last_of before l (m ∷ locations) k small)
      ]
    where
      behind :
          {out : Bytes × List Bytes × ℕ}
          → Taken (before ++ l ∷ []) m locations out
          → Taken before l (m ∷ locations) out
      behind r = record {
        batch = r.batch;
        text_eq = r.text_eq;
        split_eq = sym (append_assoc before (l ∷ []) (m ∷ locations)) ∙ r.split_eq;
        shorter = omega (arith, r.shorter);
        is_batch = r.is_batch;
      }

  All-behind : (P : Bytes → Type 0) (xs ys zs : List Bytes) → All P xs → xs ≡ ys ++ zs → All P zs
  All-behind P xs [] zs h e = subst (All P) e h
  All-behind P [] (y ∷ ys) zs h e = absurd (omega (arith, ap length e))
  All-behind P (x ∷ xs) (y ∷ ys) zs (p, h) e = All-behind P xs ys zs h (cc)

  send_loop_lem :
      (fuel : ℕ) (locations : List Bytes) (n : ℕ)
      → length locations < fuel
      → All (λ m. m ≢ []) locations
      → (texts : List Bytes) × (send_loop timed_out flushed fuel locations n ≡ some texts)
        × IsBatching flushed locations texts
  unfolding send_loop cons_option write_lines
  send_loop_lem zero locations n enough all = absurd (omega arith)
  send_loop_lem (suc fuel) [] n enough all =
      ([], refl, record { batches = []; texts_eq = refl; concat_eq = refl; each = tt })
  send_loop_lem (suc fuel) (l ∷ locations) n enough (filled, all) =
      let r = collect_lem locations [] l n filled all (inl refl) in
      let out = collect timed_out flushed locations [] l n in
      let (texts, e, b) =
        send_loop_lem fuel out.1 out.2 (omega (arith, r.shorter))
          (All-behind (λ m. m ≢ []) (l ∷ locations) r.batch out.1 (filled, all) r.split_eq) in
      let d : bytes_eq l [] ≡ false = ground (arith, (bytes_eq_iff l []).0) in
      (
        out.0 ∷ texts,
        rw (d, e) refl,
        record {
          batches = r.batch ∷ b.batches;
          texts_eq = ap₂ (λ x y. x ∷ y) r.text_eq b.texts_eq;
          concat_eq = ap (λ t. r.batch ++ t) b.concat_eq ∙ sym r.split_eq;
          each = (r.is_batch, b.each);
        },
      )

-- All locations that are put into the channel are sent: the loops end, and what is sent are the
-- locations, in their order, cut into batches that are not empty; without its last location, a batch
-- of several has not filled the buffer. No location is empty.
pub send_file_lists-IsBatching :
    (timed_out : ℕ → Bool) (flushed : Bytes → ℕ) (locations : List Bytes)
    → All (λ m. m ≢ []) locations
    → (texts : List Bytes) × (send_file_lists timed_out flushed locations ≡ some texts)
      × IsBatching flushed locations texts
unfolding send_file_lists
send_file_lists-IsBatching timed_out flushed locations all =
    send_loop_lem timed_out flushed (suc (length locations)) locations 0 (omega arith) all
