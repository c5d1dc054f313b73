-- ===== src/Forwarding/Request/Loop.antt =====
-- A replica does not forward what was forwarded to it.
use verm.Prelude.{
  ℕ, false, [], ◌∷◌, ◌++◌, append_assoc, Bytes, codes, bytes_eq, index_byte, before_byte,
  behind_byte, split, take, drop, Lacks, All, All-append, ◌≡◌, ◌≢◌, refl, arith,
}
use verm.Prelude.Plain.{before_byte-lacking, behind_byte-append}
use verm.Http.{HttpRequest}
use verm.Forwarding.Choice.{last_is_zero, should_forward_read}
use verm.Forwarding.Request.{forward_url, values_of, query_values}

-- The text in front of the query.
address : Bytes → Bytes → Bytes → Bytes
address hostname port path = codes "http://" ++ (hostname ++ (codes ":" ++ (port ++ path)))

address-Lacks :
    (c : ℕ) (hostname port path : Bytes)
    → Lacks c (codes "http://")
    → Lacks c hostname
    → Lacks c (codes ":")
    → Lacks c port
    → Lacks c path
    → Lacks c (address hostname port path)
unfolding address
address-Lacks c hostname port path l0 l1 l2 l3 l4 =
    All-append (λ b. b ≢ c) (codes "http://") _ l0
      (All-append (λ b. b ≢ c) hostname _ l1
        (All-append (λ b. b ≢ c) (codes ":") _ l2 (All-append (λ b. b ≢ c) port path l3 l4)))

forward_url_lem :
    (hostname port path : Bytes)
    → forward_url (hostname, port) path ≡ address hostname port path ++ b'?' ∷ codes "forward=0"
unfolding forward_url address
forward_url_lem hostname port path =
    rw
      (
        append_assoc hostname (codes ":" ++ (port ++ path)) (codes "?forward=0"),
        append_assoc port path (codes "?forward=0"),
      )
      refl

module _ (unescape : Bytes → Bytes) (name_kept : unescape (codes "forward") ≡ codes "forward")
    (value_kept : unescape (codes "0") ≡ codes "0") where
  own_query : values_of unescape (codes "forward") (split (codes "forward=0") b'&') ≡ codes "0" ∷ []
  unfolding values_of split before_byte behind_byte index_byte take drop bytes_eq
  own_query = rw (name_kept, value_kept) refl

  query_of :
      (hostname port path : Bytes)
      → All (λ b. (b ≢ b'?') × (b ≢ b'#')) hostname
      → All (λ b. (b ≢ b'?') × (b ≢ b'#')) port
      → All (λ b. (b ≢ b'?') × (b ≢ b'#')) path
      → query_values unescape (forward_url (hostname, port) path) (codes "forward") ≡ codes "0" ∷ []
  unfolding query_values
  query_of hostname port path h1 h2 h3 =
      let marks =
        address-Lacks b'?' hostname port path (ground arith) (lacks_mark hostname h1) (ground arith)
          (lacks_mark port h2) (lacks_mark path h3) in
      let hashes =
        address-Lacks b'#' hostname port path (ground arith) (lacks_hash hostname h1) (ground arith)
          (lacks_hash port h2) (lacks_hash path h3) in
      let plain : Lacks b'#' (address hostname port path ++ b'?' ∷ codes "forward=0") =
        All-append (λ b. b ≢ b'#') (address hostname port path) _ hashes (ground arith) in
      rw
        (
          forward_url_lem hostname port path,
          before_byte-lacking (address hostname port path ++ b'?' ∷ codes "forward=0") b'#' plain,
          behind_byte-append (address hostname port path) (codes "forward=0") b'?' marks,
        )
        own_query
    where
      lacks_mark : (s : Bytes) → All (λ b. (b ≢ b'?') × (b ≢ b'#')) s → Lacks b'?' s
      lacks_mark [] h = tt
      lacks_mark (c ∷ s) (h, hs) = (h.0, lacks_mark s hs)

      lacks_hash : (s : Bytes) → All (λ b. (b ≢ b'?') × (b ≢ b'#')) s → Lacks b'#' s
      lacks_hash [] h = tt
      lacks_hash (c ∷ s) (h, hs) = (h.1, lacks_hash s hs)

  -- A server does not forward a request that was forwarded to it, if neither the name of the server nor
  -- the path has a question mark or a hash sign.
  pub should_forward_read-forwarded :
      (hostname port path : Bytes) (r : HttpRequest)
      → All (λ b. (b ≢ b'?') × (b ≢ b'#')) hostname
      → All (λ b. (b ≢ b'?') × (b ≢ b'#')) port
      → All (λ b. (b ≢ b'?') × (b ≢ b'#')) path
      → r.forward_values
        ≡ query_values unescape (forward_url (hostname, port) path) (codes "forward")
      → should_forward_read r ≡ false
  unfolding should_forward_read last_is_zero bytes_eq
  should_forward_read-forwarded hostname port path r h1 h2 h3 e =
      rw (e, query_of hostname port path h1 h2 h3) refl
