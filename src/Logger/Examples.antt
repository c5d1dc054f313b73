-- ===== src/Logger/Examples.antt =====
-- A response that is written behind the logger.
use verm.Prelude.{
  ◌+◌, ◌<◌, ◌^◌, ◌==◌, none, some, [], codes, length, ◌≡◌, refl, arith, if◌then◌else◌,
}
use verm.Prelude.Int.{pos, ◌+ℤ◌}
use verm.Http.{Response, empty_response, set_header, write_header, write}
use verm.Logger.{Writer, Handler, returns, sets, sends, writes, new_logger, run, logged, request_ip}
use verm.Logger.Transparent.{IsFaithful, run-IsFaithful, offered, request_ip_lem}

-- The writer of `net/http` for a method with a body: with status 304 it takes no body.
abbrev http_writer : Writer Response
http_writer = record {
  header = λ w. w.header;
  set_header = set_header;
  write_header = write_header;
  write = λ b w.
      if w.status == 304 then ((0, some (codes "no body")), w) else ((length b, none), write b w);
}

-- A handler that goes on only behind a write without an error.
abbrev handler : Handler
handler = sets (codes "ETag") (codes "/a") (
    sends 304 (
      writes (codes "hel") (λ result. elim result.1 [
        | none ↦ writes (codes "lo") (λ result. returns)
        | some message ↦ returns
      ])))

calls_small : 0 + offered (run http_writer handler empty_response).1 < 2 ^ 63
unfolding offered run write_header set_header
calls_small = omega arith

run-IsFaithful_example :
    IsFaithful 0 0
      (run http_writer handler empty_response)
      (run (logged http_writer) handler (new_logger empty_response))
run-IsFaithful_example =
    run-IsFaithful http_writer handler (new_logger empty_response) 0 refl calls_small

-- Three bytes are counted that are not in the body.
overcounts :
    ((run (logged http_writer) handler (new_logger empty_response)).0.bytes ≡ pos 3)
    × ((run http_writer handler empty_response).0.body ≡ [])
unfolding run logged write_header set_header ◌+ℤ◌
overcounts = (refl, refl)

-- A response that is written without a status is sent with 200, and logged with 0.
unstated :
    ((run
        (logged http_writer)
        (writes (codes "hello") (λ r. returns))
        (new_logger empty_response)).0.status_code
      ≡ 0)
    × ((run http_writer (writes (codes "hello") (λ r. returns)) empty_response).0.status ≡ 200)
unfolding run logged write write_header
unstated = (refl, refl)

request_ip_lem_run : request_ip (codes "[::1]:5000") ≡ some (codes "::1")
request_ip_lem_run = request_ip_lem (codes "::1") (codes "5000") (ground arith)
