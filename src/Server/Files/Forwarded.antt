-- ===== src/Server/Files/Forwarded.antt =====
-- A file that is stored on a replica only.
use verm.Prelude.{
  ◌+◌, true, Option, none, some, List, ◌++◌, map, Bytes, codes, ◌≡◌, ◌↔◌, refl, ap, subst, ◌∙◌,
}
use mathlib.Core.List.{Memᴰ}
use verm.Storage.{Storage, find}
use verm.UrlPath.{clean}
use verm.Http.{HttpRequest, Response, empty_response, write, write_header}
use verm.Forwarding.{Reply, forward_read, pass_on}
use verm.Forwarding.Choice.{should_forward_read}
use verm.Forwarding.Request.{Replicas, forward_url, received, forward_if_needed}
use verm.Forwarding.Winner.{outcome_of, outcomes-map, Mem-outcome, outcome-Mem, forward_read_wins}
use verm.Server.{LogStatistics}
use verm.Server.Files.{Outside, or_compressed, after_forwarding, serve_absent, serve_file}
use verm.Server.Files.Served.{open_served-none}

-- The outcomes come in, each of them, in some order, and every URL is taken.
pub record IsForwarding (replicas : Replicas) (r : HttpRequest) : Type 0 where
  pub arrives :
      (os : List (Option Reply)) (x : Option Reply) → Memᴰ x (replicas.arrival os) ↔ Memᴰ x os
  pub takes :
      (t : Bytes × Bytes)
      → Memᴰ t replicas.targets
      → replicas.takes_url (forward_url t r.path) ≡ true

-- What a forwarded read is answered with: the reply of a target that has answered with status 200.
pub record IsForwarded (replicas : Replicas) (r : HttpRequest) (v : Response) : Type 0 where
  pub target : Bytes × Bytes
  pub reply : Reply
  pub listed : Memᴰ target replicas.targets
  pub replied : outcome_of replicas r target ≡ some reply
  pub reply_ok : reply.status ≡ 200
  pub status : v.status ≡ 200
  pub body : v.body ≡ reply.body

passed :
    (q : Reply)
    → (v : Response) × (pass_on empty_response (some q) ≡ some v)
      × (v.status ≡ 200)
      × (v.body ≡ q.body)
unfolding pass_on write write_header
passed q = (_, refl, refl, refl)

module _ (o : Outside) (root : Bytes) (r : HttpRequest) (s : Storage) (stats : LogStatistics) where
  absent-serves :
      find (root ++ clean r.path) s ≡ none
      → find (root ++ (clean r.path ++ codes ".gz")) s ≡ none
      → serve_file o root s r stats ≡ serve_absent o r stats
  unfolding serve_file or_compressed
  absent-serves e f =
      rw
        (
          serve_file,
          open_served-none s root (clean r.path) e,
          open_served-none s root (clean r.path ++ codes ".gz") f,
        )
        refl

  forwarding :
      IsForwarding o.replicas r
      → should_forward_read r ≡ true
      → forward_if_needed o.replicas r empty_response
        ≡ some (
            forward_read
              (o.replicas.arrival (map (outcome_of o.replicas r) o.replicas.targets))
              empty_response)
  unfolding forward_if_needed received
  forwarding h asked =
      rw
        (
          forward_if_needed,
          asked,
          outcomes-map o.replicas r o.replicas.targets (λ t m. h.takes t m),
        )
        refl

  -- A read that is to be forwarded, of a file that is not stored here, compressed or not, but that a
  -- replica answers with status 200, is answered with status 200 and the body of such a reply, and
  -- counted as found on a replica.
  pub serve_file-IsForwarded :
      (target : Bytes × Bytes) (reply : Reply)
      → find (root ++ clean r.path) s ≡ none
      → find (root ++ (clean r.path ++ codes ".gz")) s ≡ none
      → should_forward_read r ≡ true
      → IsForwarding o.replicas r
      → Memᴰ target o.replicas.targets
      → outcome_of o.replicas r target ≡ some reply
      → reply.status ≡ 200
      → (v : Response) × (stats' : LogStatistics) × (serve_file o root s r stats ≡ some (v, stats'))
        × IsForwarded o.replicas r v
        × (stats'.get_requests_found_on_replica ≡ stats.get_requests_found_on_replica + 1)
  unfolding serve_absent after_forwarding
  serve_file-IsForwarded target reply e f asked h listed replied good =
      let os = map (outcome_of o.replicas r) o.replicas.targets in
      let here : Memᴰ (some reply) os =
        subst (λ x. Memᴰ x os) replied (Mem-outcome o.replicas r o.replicas.targets listed) in
      let (q, won, m, ok) =
        forward_read_wins (o.replicas.arrival os) reply empty_response
          ((h.arrives os (some reply)).1 here) good in
      let (t, n, k) = outcome-Mem o.replicas r o.replicas.targets ((h.arrives os (some q)).0 m) in
      let (v, sent, status, body) = passed q in
      (
        v,
        record stats {
          get_requests = stats.get_requests + 1;
          get_requests_found_on_replica = stats.get_requests_found_on_replica + 1;
        },
        absent-serves e f
            ∙ ap (after_forwarding o stats) (forwarding h asked ∙ ap some (won ∙ sent)),
        record {
          target = t;
          reply = q;
          listed = n;
          replied = k;
          reply_ok = ok;
          status = status;
          body = body;
        },
        refl,
      )
