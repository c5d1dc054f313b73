-- ===== src/Logger.antt =====
-- response_logger.go: the writer of responses that counts, and the line of the log.
pub mod Transparent
mod Examples
use verm.Prelude.{
  ℕ, zero, suc, ◌+◌, Option, none, some, List, [], ◌∷◌, ◌++◌, Bytes, codes, has_prefix, length,
  take, drop, if◌then◌else◌,
}
use verm.Prelude.Decimal.{itoa}
use verm.Prelude.Int.{ℤ, pos, ◌+ℤ◌}
use verm.Ranges.{decimal}
use verm.Http.{Header}

-- `http.ResponseWriter`, whatever stands behind it: the fields of `Header()` and their setting, what
-- `WriteHeader` does, and what `Write` does and returns, a number of bytes and the text of an error.
pub record Writer (W : Type 0) : Type 0 where
  pub header : W → Header
  pub set_header : Bytes → Bytes → W → W
  pub write_header : ℕ → W → W
  pub write : Bytes → W → (ℕ × Option Bytes) × W

-- A handler: it goes on by the fields that it reads and by what its writes return.
pub data Handler : Type 0 where
  returns : Handler
  reads : (Header → Handler) → Handler
  sets : Bytes → Bytes → Handler → Handler
  sends : ℕ → Handler → Handler
  writes : Bytes → (ℕ × Option Bytes → Handler) → Handler

-- A call that a handler makes of its writer; of `Write`, with what was returned.
pub data Call : Type 0 where
  read_call : Call
  set_call : Bytes → Bytes → Call
  header_call : ℕ → Call
  write_call : Bytes → ℕ × Option Bytes → Call

-- `responseLogger`, but for the request; `Bytes` is an `int`.
pub record ResponseLogger (W : Type 0) : Type 0 where
  pub w : W
  pub status_code : ℕ
  pub bytes : ℤ

-- The logger that `ServeHTTP` makes.
abbrev pub new_logger : {W : Type 0} → W → ResponseLogger W
new_logger w = record { w = w; status_code = 0; bytes = pos 0 }

-- A run of a handler at a writer: its state at the end, and the calls.
unfoldable pub run : {W : Type 0} → Writer W → Handler → W → W × List Call
run writer returns w = (w, [])
run writer (reads next) w =
    let (v, calls) = run writer (next (writer.header w)) w in (v, read_call ∷ calls)
run writer (sets name value next) w =
    let (v, calls) = run writer next (writer.set_header name value w) in
    (v, set_call name value ∷ calls)
run writer (sends status next) w =
    let (v, calls) = run writer next (writer.write_header status w) in
    (v, header_call status ∷ calls)
run writer (writes b next) w =
    let (result, u) = writer.write b w in
    let (v, calls) = run writer (next result) u in (v, write_call b result ∷ calls)

-- The methods of the logger: `Header`, `WriteHeader` and `Write`, which make it a writer.
unfoldable pub logged : {W : Type 0} → Writer W → Writer (ResponseLogger W)
logged writer = record {
  header = λ logger. writer.header logger.w;
  set_header = λ name value logger. record logger { w = writer.set_header name value logger.w };
  write_header = λ status logger. record logger {
    status_code = status;
    w = writer.write_header status logger.w;
  };
  write = λ b logger. (
    (writer.write b logger.w).0,
    record logger { bytes = logger.bytes +ℤ pos (length b); w = (writer.write b logger.w).1 },
  );
}

-- `strings.LastIndex(s, "]:")`; -1 is none
unfoldable pub last_bracket : Bytes → Option ℕ
last_bracket [] = none
last_bracket (c ∷ s) = elim (last_bracket s) [
  | some i ↦ some (suc i)
  | none ↦ if has_prefix (c ∷ s) (codes "]:") then some 0 else none
]

-- `RequestIP`; an address that begins with the bracket is the panic of a slice from 1 to 0.
unfoldable pub request_ip : Bytes → Option Bytes
request_ip remote_addr = elim (last_bracket remote_addr) [
  | none ↦ some remote_addr
  | some zero ↦ none
  | some (suc i) ↦ some (drop 1 (take (suc i) remote_addr))
]

-- A request as the log shows it.
pub record LoggedRequest : Type 0 where
  pub remote_addr : Bytes
  pub method : Bytes
  pub path : Bytes
  pub proto : Bytes

-- The line of `ClfLog` for the text of an address; `clf_time` is the time, in brackets.
unfoldable pub log_line : Bytes → LoggedRequest → ℕ → ℤ → Bytes → Bytes
log_line clf_time req status bytes ip =
    ip
    ++ (codes " - - "
        ++ (clf_time
            ++ (codes " \""
                ++ (req.method
                    ++ (codes " "
                        ++ (req.path
                            ++ (codes " "
                                ++ (req.proto
                                    ++ (codes "\" "
                                        ++ (itoa status
                                            ++ (codes " " ++ (decimal bytes ++ 10 ∷ []))))))))))))

-- `ClfLog`
unfoldable pub clf_log : {W : Type 0} → Bytes → LoggedRequest → ResponseLogger W → Option Bytes
clf_log clf_time req logger = elim (request_ip req.remote_addr) [
  | none ↦ none
  | some ip ↦ some (log_line clf_time req logger.status_code logger.bytes ip)
]
