-- ===== src/Forwarding/Request.antt =====
-- `forwardRequest` of a target, in replica_forwarding.go: the request that a replica is sent for a read.
pub mod Loop
use verm.Prelude.{
  ℕ, Bool, true, false, Option, none, some, List, [], ◌∷◌, ◌++◌, Bytes, codes, bytes_eq,
  before_byte, behind_byte, split, if◌then◌else◌,
}
use verm.Http.{Header, HttpRequest, Response, get}
use verm.Forwarding.{copy_header_field, Reply, successful, forward_read}
use verm.Forwarding.Choice.{should_forward_read}

-- The request to a replica: a GET, with the `Accept-Encoding` of the one that is forwarded.
pub record ForwardRequest : Type 0 where
  pub url : Bytes
  pub header : Header

unfoldable pub forward_url : Bytes × Bytes → Bytes → Bytes
forward_url (hostname, port) path =
    codes "http://" ++ (hostname ++ (codes ":" ++ (port ++ (path ++ codes "?forward=0"))))

unfoldable pub forward_request : Bytes × Bytes → HttpRequest → ForwardRequest
forward_request target r = record {
  url = forward_url target r.path;
  header = copy_header_field r.header [] (codes "Accept-Encoding");
}

-- The targets, whether `http.NewRequest` takes a URL, the client, which gives none for an error, and the
-- order in which the outcomes for the targets come in.
pub record Replicas : Type 0 where
  pub targets : List (Bytes × Bytes)
  pub takes_url : Bytes → Bool
  pub proxy_client : ForwardRequest → Option Reply
  pub arrival : List (Option Reply) → List (Option Reply)

module _ (replicas : Replicas) where
  -- The outcomes for the targets, in their order. Behind a URL that is refused, the header of a request
  -- that is nil is used: the process panics, which is none.
  unfoldable pub outcomes : List (Bytes × Bytes) → HttpRequest → Option (List (Option Reply))
  outcomes [] r = some []
  outcomes (t ∷ targets) r =
      let rest = outcomes targets r in
      if replicas.takes_url (forward_url t r.path)
      then elim rest [
        | none ↦ none
        | some os ↦ some (replicas.proxy_client (forward_request t r) ∷ os)
      ]
      else none

  unfoldable pub received : Option (List (Option Reply)) → Response → Option (Option Response)
  received none w = none
  received (some os) w = some (forward_read (replicas.arrival os) w)

  -- `server.shouldForwardRead(req) && server.forwardRead(w, req)`, with the response that is written;
  -- the outer none is a panic.
  unfoldable pub forward_if_needed : HttpRequest → Response → Option (Option Response)
  forward_if_needed r w =
      if should_forward_read r then received (outcomes replicas.targets r) w else some none

-- `req.URL.Query()[name]` for a URL: the query stands between the first `?` and a fragment. `unescape` is
-- `url.QueryUnescape`.
module _ (unescape : Bytes → Bytes) where
  unfoldable pub values_of : Bytes → List Bytes → List Bytes
  values_of name [] = []
  values_of name (pair ∷ pairs) =
      let rest = values_of name pairs in
      if bytes_eq (unescape (before_byte pair b'=')) name
      then unescape (behind_byte pair b'=') ∷ rest
      else rest

  unfoldable pub query_values : Bytes → Bytes → List Bytes
  query_values url name = values_of name (split (behind_byte (before_byte url b'#') b'?') b'&')
