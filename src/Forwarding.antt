-- ===== src/Forwarding.antt =====
-- replica_forwarding.go: a read that is passed on to the replicas, and the race of their responses.
pub mod Race
pub mod Choice
pub mod Request
pub mod Winner
mod Examples
use verm.Prelude.{
  map, ℕ, suc, ◌+◌, Bool, true, false, Option, none, some, List, [], ◌∷◌, ◌++◌, Bytes, codes,
  bytes_eq, ◌==◌, if◌then◌else◌,
}
use verm.Http.{Header, Response, get, set_field, write_header, write}

-- `copyHeaderField`: the destination
unfoldable pub copy_header_field : Header → Header → Bytes → Header
copy_header_field src dst field =
    let value = get src field in if bytes_eq value [] then dst else set_field dst field value

-- `copyHeaderFields`
unfoldable pub copy_header_fields : Header → Header → List Bytes → Header
copy_header_fields src dst [] = dst
copy_header_fields src dst (field ∷ fields) =
    copy_header_fields src (copy_header_field src dst field) fields

-- `headerFieldsToReturn`
abbrev pub header_fields_to_return : List Bytes
header_fields_to_return =
    codes "Content-Type"
    ∷ codes "Content-Encoding"
    ∷ codes "Content-Length"
    ∷ codes "Content-Range"
    ∷ codes "Last-Modified"
    ∷ codes "ETag"
    ∷ []

-- A response of a replica: its status, its header and its body.
pub record Reply : Type 0 where
  pub status : ℕ
  pub header : Header
  pub body : Bytes

-- What `forwardRequest` of a target sends to the channel for the outcome of its request; `none` is an
-- error, or nil.
unfoldable pub successful : Option Reply → Option Reply
successful none = none
successful (some r) = if r.status == 200 then some r else none

-- The loop of `forwardRequest` over the responses in the order in which they come: what is passed on,
-- and the replies whose bodies are closed.
unfoldable pub gather : Bool → List (Option Reply) → List Reply × List Reply
gather success [] = ([], [])
gather success (none ∷ responses) = gather success responses
gather true (some r ∷ responses) = let rest = gather true responses in (rest.0, r ∷ rest.1)
gather false (some r ∷ responses) = let rest = gather true responses in (r ∷ rest.0, rest.1)

-- What `forwardRead` receives: the first reply that is passed on, or nil.
unfoldable pub first_reply : List Reply → Option Reply
first_reply [] = none
first_reply (r ∷ rs) = some r

-- What `forwardRead` makes of it.
unfoldable pub pass_on : Response → Option Reply → Option Response
pass_on w none = none
pass_on w (some r) = some (
    write r.body (
      write_header 200
        (record w { header = copy_header_fields r.header w.header header_fields_to_return })))

-- `forwardRead`, from the outcomes of the requests to the targets in the order in which they come: the
-- response, or none if no target has the file.
unfoldable pub forward_read : List (Option Reply) → Response → Option Response
forward_read outcomes w = pass_on w (first_reply (gather false (map successful outcomes)).0)
