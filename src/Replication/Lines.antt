-- ===== src/Replication/Lines.antt =====
-- scan_whole_lines.go, and the loop of a `bufio.Scanner` over it: the format of the lists of
-- locations that servers send each other.
use verm.Prelude.Plain.{index_byte-append}
use verm.Prelude.{
  ℕ, zero, suc, ◌+◌, ◌-◌, ◌≤◌, Bool, ◌&&◌, Option, none, some, List, [], ◌∷◌, ◌++◌, Bytes, get_or,
  index_byte, Lacks, take, drop, length, length-append, append_assoc, ◌==◌, ltb, if◌then◌else◌, ◌≡◌,
  refl, sym, ap, ap₂, ◌∙◌, All, All-append, arith, drop_append, take_append,
}

-- `dropCR`
unfoldable pub drop_cr : Bytes → Bytes
drop_cr input =
    if ltb 0 (length input) && get_or input (length input - 1) 0 == 13
    then take (length input - 1) input
    else input

-- `ScanWholeLines`: how far to advance, and the token; the error is always nil.
unfoldable pub scan_whole_lines : Bytes → Bool → ℕ × Option Bytes
unfolding drop_cr
scan_whole_lines input at_eof =
    if at_eof && length input == 0 then (0, none) else elim (index_byte input 10) [
      | some i ↦ (i + 1, some (drop_cr (take i input)))
      | none ↦ (0, none)
    ]

-- The locations one per line, as `sendFileLists` and `listMissingFiles` write them.
unfoldable pub write_lines : List Bytes → Bytes
write_lines [] = []
write_lines (l ∷ ls) = l ++ 13 ∷ 10 ∷ write_lines ls

-- `limit` is `bufio.MaxScanTokenSize`: the scanner gives up when so many bytes hold no token.
module _ (limit : ℕ) where
  -- `for scanner.Scan() { scanner.Text() }` with `scanner.Split(ScanWholeLines)`, on fuel: each line
  -- takes a byte at least.
  unfoldable pub scan_loop : ℕ → Bytes → List Bytes
  scan_loop zero input = []
  scan_loop (suc fuel) input =
      let step = scan_whole_lines (take limit input) (ltb (length input) limit) in
      elim step.1 [ none ↦ [] | some line ↦ line ∷ scan_loop fuel (drop step.0 input) ]

  unfoldable pub scan_lines : Bytes → List Bytes
  scan_lines input = scan_loop (length input) input

  -- A location that can be sent: no line break, and short enough for the scanner.
  abbrev pub IsLine : Bytes → Type 0
  IsLine l = Lacks 10 l × (length l + 2 ≤ limit)

last-append : (x : Bytes) (c d : ℕ) → get_or (x ++ c ∷ []) (length x) d ≡ c
last-append [] c d = refl
last-append (y ∷ x) c d = last-append x c d

take_through : (x y : Bytes) (n m : ℕ) → m ≡ length x + n → take m (x ++ y) ≡ x ++ take n y
unfolding take
take_through [] y n m e = ap (λ k. take k y) (omega (arith, e))
take_through (c ∷ x) y n zero e = absurd (omega (arith, e))
take_through (c ∷ x) y n (suc m) e = ap (λ t. c ∷ t) (take_through x y n m (omega (arith, e)))

drop_cr-append : (l : Bytes) → drop_cr (l ++ 13 ∷ []) ≡ l
unfolding drop_cr
drop_cr-append l =
    let n : length (l ++ 13 ∷ []) ≡ suc (length l) = omega (arith, length-append l (13 ∷ [])) in
    let p : length (l ++ 13 ∷ []) - 1 ≡ length l = omega (arith, n) in
    let q : suc (length l) - 1 ≡ length l = omega arith in
    rw (n, q, last-append l 13 0, take_append l (13 ∷ [])) (ground arith)

scan_whole_lines_found :
    (x z l : Bytes) (b : Bool)
    → Lacks 10 x
    → drop_cr x ≡ l
    → scan_whole_lines (x ++ 10 ∷ z) b ≡ (length x + 1, some l)
unfolding scan_whole_lines
scan_whole_lines_found x z l b lacks e =
    rw (index_byte-append x z 10 lacks, take_append x (10 ∷ z), e)
      (ground (arith, length-append x (10 ∷ z)))

index_byte_lacking : (s : Bytes) (c : ℕ) → Lacks c s → index_byte s c ≡ none
unfolding index_byte
index_byte_lacking [] c lacks = refl
index_byte_lacking (x ∷ s) c lacks = rw (index_byte_lacking s c lacks.1) (ground arith)

scan_whole_lines_lacking : (s : Bytes) (b : Bool) → Lacks 10 s → scan_whole_lines s b ≡ (0, none)
unfolding scan_whole_lines
scan_whole_lines_lacking s b lacks = rw (index_byte_lacking s 10 lacks) (ground arith)

Lacks-take : (n : ℕ) (s : Bytes) (c : ℕ) → Lacks c s → Lacks c (take n s)
unfolding take
Lacks-take n [] c h = tt
Lacks-take zero (x ∷ s) c h = tt
Lacks-take (suc n) (x ∷ s) c h = (h.0, Lacks-take n s c h.1)

length-write_lines : (ms : List Bytes) → length ms ≤ length (write_lines ms)
unfolding write_lines
length-write_lines [] = omega arith
length-write_lines (m ∷ ms) =
    omega (arith, length-write_lines ms, length-append m (13 ∷ 10 ∷ write_lines ms))

module _ (limit : ℕ) where
  -- The scanner finds a complete line at the front.
  scan_line :
      (l rest : Bytes) (b : Bool)
      → IsLine limit l
      → scan_whole_lines (take limit (l ++ 13 ∷ 10 ∷ rest)) b ≡ (length l + 2, some l)
  unfolding take
  scan_line l rest b (lacks, fits) =
      let x = l ++ 13 ∷ [] in
      let n : length x ≡ length l + 1 = omega (arith, length-append l (13 ∷ [])) in
      let whole : l ++ 13 ∷ 10 ∷ rest ≡ x ++ 10 ∷ rest =
        sym (append_assoc l (13 ∷ []) (10 ∷ rest)) in
      let seen = take_through x (10 ∷ rest) (suc (limit - length x - 1)) limit (omega (arith, n)) in
      let found =
        scan_whole_lines_found x (take (limit - length x - 1) rest) l b
          (All-append _ l (13 ∷ []) lacks (omega arith, tt)) (drop_cr-append l) in
      ap (λ t. scan_whole_lines t b) (ap (take limit) whole ∙ seen)
      ∙ found
      ∙ ap (λ k. (k, some l)) (omega (arith, n))

  scan_step :
      (input : Bytes) (fuel n : ℕ) (line : Bytes)
      → scan_whole_lines (take limit input) (ltb (length input) limit) ≡ (n, some line)
      → scan_loop limit (suc fuel) input ≡ line ∷ scan_loop limit fuel (drop n input)
  unfolding scan_loop
  scan_step input fuel n line e =
      ap
        (λ (step : ℕ × Option Bytes). elim step.1 [
          | none ↦ []
          | some found ↦ found ∷ scan_loop limit fuel (drop step.0 input)
        ])
        e

  scan_loop_lines :
      (ls : List Bytes) (partial : Bytes) (fuel : ℕ)
      → All (IsLine limit) ls
      → Lacks 10 partial
      → length ls ≤ fuel
      → scan_loop limit fuel (write_lines ls ++ partial) ≡ ls
  unfolding scan_loop write_lines
  scan_loop_lines [] partial zero lines lacks enough = refl
  scan_loop_lines [] partial (suc fuel) lines lacks enough =
      rw
        (
          scan_loop,
          scan_whole_lines_lacking (take limit partial) (ltb (length partial) limit)
              (Lacks-take limit partial 10 lacks),
        )
        refl
  scan_loop_lines (l ∷ ls) partial zero lines lacks enough = absurd (omega arith)
  scan_loop_lines (l ∷ ls) partial (suc fuel) (line, lines) lacks enough =
      let rest = write_lines ls ++ partial in
      let whole : (l ++ 13 ∷ 10 ∷ write_lines ls) ++ partial ≡ l ++ 13 ∷ 10 ∷ rest =
        append_assoc l (13 ∷ 10 ∷ write_lines ls) partial in
      let dropped : drop (length l + 2) (l ++ 13 ∷ 10 ∷ rest) ≡ rest =
        ap₂ drop (omega (arith, length-append l (13 ∷ 10 ∷ [])))
          (sym (append_assoc l (13 ∷ 10 ∷ []) rest))
        ∙ drop_append (l ++ 13 ∷ 10 ∷ []) rest in
      ap (scan_loop limit (suc fuel)) whole
      ∙ scan_step (l ++ 13 ∷ 10 ∷ rest) fuel (length l + 2) l (scan_line l rest _ line)
      ∙ ap₂ (λ x t. x ∷ scan_loop limit fuel t) refl dropped
      ∙ ap (λ t. l ∷ t) (scan_loop_lines ls partial fuel lines lacks (omega arith))

  -- The lines of a list that is cut short are read back, without the last line, if that has no end.
  -- No line has a line break or is too long for the scanner.
  pub scan_lines-write_lines :
      (ls : List Bytes) (partial : Bytes)
      → All (IsLine limit) ls
      → Lacks 10 partial
      → scan_lines limit (write_lines ls ++ partial) ≡ ls
  unfolding scan_lines
  scan_lines-write_lines ls partial lines lacks =
      scan_loop_lines ls partial _ lines lacks
        (omega (arith, length-append (write_lines ls) partial, length-write_lines ls))
