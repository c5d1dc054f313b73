-- ===== src/Logger/Transparent.antt =====
-- What the logger passes on, and what it counts.
use verm.Prelude.{
  ℕ, ◌+◌, ◌<◌, ◌^◌, none, some, List, [], ◌∷◌, ◌++◌, Bytes, codes, length, take, drop, take_append,
  drop_zero, Lacks, has_prefix, ◌≡◌, refl, ap, ◌∙◌, arith,
}
use verm.Prelude.Int.{pos, ◌+ℤ◌, pos_add}
use verm.Logger.{
  Writer, Handler, returns, reads, sets, sends, writes, Call, read_call, set_call, header_call,
  write_call, ResponseLogger, run, logged, last_bracket, request_ip,
}

-- The status of the last call of `WriteHeader`, or the one before all calls.
unfoldable pub last_status : ℕ → List Call → ℕ
last_status before [] = before
last_status before (header_call status ∷ calls) = last_status status calls
last_status before (read_call ∷ calls) = last_status before calls
last_status before (set_call name value ∷ calls) = last_status before calls
last_status before (write_call b result ∷ calls) = last_status before calls

-- The number of bytes that were given to `Write`, whatever became of them.
unfoldable pub offered : List Call → ℕ
offered [] = 0
offered (write_call b result ∷ calls) = length b + offered calls
offered (read_call ∷ calls) = offered calls
offered (set_call name value ∷ calls) = offered calls
offered (header_call status ∷ calls) = offered calls

-- The run at the logger made the calls of the run without it, with the same results, and leaves the
-- writer in the same state; the logger has the last status and the number of bytes that were offered.
pub record IsFaithful {W : Type 0} (status before : ℕ) (run_plain : W × List Call)
    (run_logged : ResponseLogger W × List Call) : Type 0 where
  pub passes : run_logged.0.w ≡ run_plain.0
  pub same_calls : run_logged.1 ≡ run_plain.1
  pub status_eq : run_logged.0.status_code ≡ last_status status run_plain.1
  pub bytes_eq : run_logged.0.bytes ≡ pos (before + offered run_plain.1)

module _ {W : Type 0} (writer : Writer W) where
  -- However a handler uses its writer, whatever the writer answers: behind the logger the calls, their
  -- results and the writer at the end are those without the logger; the status of the log is that of the
  -- last call of `WriteHeader`, or 0 if there is none, and the number of bytes is that of all that was
  -- given to `Write`, be it written or not, if it is below 2^63.
  pub run-IsFaithful :
      (handler : Handler) (logger : ResponseLogger W) (before : ℕ)
      → logger.bytes ≡ pos before
      → before + offered (run writer handler logger.w).1 < 2 ^ 63
      → IsFaithful logger.status_code before
          (run writer handler logger.w)
          (run (logged writer) handler logger)
  unfolding run logged offered last_status
  run-IsFaithful returns logger before e small = record {
    passes = refl;
    same_calls = refl;
    status_eq = refl;
    bytes_eq = e ∙ ap pos (omega arith);
  }
  run-IsFaithful (reads next) logger before e small =
      let h = run-IsFaithful (next (writer.header logger.w)) logger before e small in
      record {
        passes = h.passes;
        same_calls = ap (λ cs. read_call ∷ cs) h.same_calls;
        status_eq = h.status_eq;
        bytes_eq = h.bytes_eq;
      }
  run-IsFaithful (sets name value next) logger before e small =
      let h =
        run-IsFaithful next (record logger { w = writer.set_header name value logger.w }) before e
          small in
      record {
        passes = h.passes;
        same_calls = ap (λ cs. set_call name value ∷ cs) h.same_calls;
        status_eq = h.status_eq;
        bytes_eq = h.bytes_eq;
      }
  run-IsFaithful (sends status next) logger before e small =
      let h =
        run-IsFaithful next
          (record logger { status_code = status; w = writer.write_header status logger.w }) before e
          small in
      record {
        passes = h.passes;
        same_calls = ap (λ cs. header_call status ∷ cs) h.same_calls;
        status_eq = h.status_eq;
        bytes_eq = h.bytes_eq;
      }
  run-IsFaithful (writes b next) logger before e small =
      let result = (writer.write b logger.w).0 in
      let behind : ResponseLogger W = record logger {
        bytes = logger.bytes +ℤ pos (length b);
        w = (writer.write b logger.w).1;
      } in
      let later = offered (run writer (next result) behind.w).1 in
      let fits : before + length b < 2 ^ 63 = omega (arith, small) in
      let counted : behind.bytes ≡ pos (before + length b) =
        ap (λ z. z +ℤ pos (length b)) e ∙ pos_add before (length b) fits in
      let h =
        run-IsFaithful (next result) behind (before + length b) counted (omega (arith, small)) in
      record {
        passes = h.passes;
        same_calls = ap (λ cs. write_call b result ∷ cs) h.same_calls;
        status_eq = h.status_eq;
        bytes_eq = h.bytes_eq ∙ ap pos (omega arith);
      }

last_bracket-lacking : (s : Bytes) → Lacks b']' s → last_bracket s ≡ none
unfolding last_bracket has_prefix
last_bracket-lacking [] h = refl
last_bracket-lacking (c ∷ s) (h, hs) = rw (last_bracket-lacking s hs) (ground arith)

last_bracket-append :
    (x port : Bytes) → Lacks b']' port → last_bracket (x ++ (codes "]:" ++ port)) ≡ some (length x)
unfolding last_bracket has_prefix
last_bracket-append [] port h = rw (last_bracket-lacking port h) (ground arith)
last_bracket-append (c ∷ x) port h = rw (last_bracket-append x port h) refl

-- The address of a client is the text between the brackets, for a port without a bracket.
pub request_ip_lem :
    (ip port : Bytes)
    → Lacks b']' port
    → request_ip (codes "[" ++ (ip ++ (codes "]:" ++ port))) ≡ some ip
unfolding request_ip take drop
request_ip_lem ip port h =
    rw (request_ip, last_bracket-append (b'[' ∷ ip) port h)
      (ap some (
        drop_zero (take (length ip) (ip ++ (codes "]:" ++ port)))
        ∙ take_append ip (codes "]:" ++ port)))
