-- ===== src/Server/Statistics/Scraped.antt =====
-- The page of statistics, read back as a monitoring plugin reads it.
use verm.Prelude.{
  ℕ, ◌^◌, ◌<◌, Bool, true, not, ◌&&◌, List, [], ◌∷◌, ◌++◌, map, append_assoc, Bytes, codes,
  contains_byte, contains_byte→Lacks, Lacks, All, All-append, ◌≡◌, ◌≢◌, refl, ap, ap₂, ◌∙◌, arith,
}
use verm.Prelude.Int.{pos, wrap64}
use verm.Prelude.Decimal.{itoa}
use verm.Ranges.{decimal}
use verm.Replication.Targets.{NamedTarget}
use verm.Server.{LogStatistics}
use verm.Server.Statistics.{
  MetricOptions, new_log_statistics, line, print_statistics, metrics, print_metrics, queue_length,
  queue_metric, queue_label, print_queues, statistics_string, serve_statistics,
}
use verm.Server.Statistics.Lines.{scrape, scrape-nil, scrape_comment, scrape_sample, IsName}

-- Text that can stand in a line.
is_text : Bytes → Bool
is_text s = not (contains_byte s 10)

is_metric : MetricOptions → Bool
unfolding is_text
is_metric o =
    is_text o.name
    && not (contains_byte o.name b' ')
    && not (contains_byte o.name b'#')
    && is_text o.description
    && is_text o.metric_type

text-Lacks :
    (x y z : Bytes) → Lacks 10 x → Lacks 10 y → Lacks 10 z → Lacks 10 (x ++ (y ++ (codes " " ++ z)))
text-Lacks x y z hx hy hz =
    All-append (λ b. b ≢ 10) x _ hx (All-append (λ b. b ≢ 10) y _ hy (ground arith, hz))

scrape_metric :
    (o : MetricOptions) (n : ℕ) (rest : Bytes)
    → is_metric o ≡ true
    → scrape (print_statistics o n ++ rest) ≡ (o.name, n) ∷ scrape rest
unfolding print_statistics is_metric is_text
scrape_metric o n rest h =
    let name : Lacks 10 o.name = contains_byte→Lacks o.name 10 (ground arith) in
    let spaces : Lacks b' ' o.name = contains_byte→Lacks o.name b' ' (ground arith) in
    let hashes : Lacks b'#' o.name = contains_byte→Lacks o.name b'#' (ground arith) in
    let description : Lacks 10 o.description =
      contains_byte→Lacks o.description 10 (ground arith) in
    let metric_type : Lacks 10 o.metric_type =
      contains_byte→Lacks o.metric_type 10 (ground arith) in
    let help = codes " HELP " ++ (o.name ++ (codes " " ++ o.description)) in
    let kind = codes " TYPE " ++ (o.name ++ (codes " " ++ o.metric_type)) in
    let sample = line (o.name ++ b' ' ∷ itoa n) in
    ap scrape (append_assoc (line (b'#' ∷ help)) (line (b'#' ∷ kind) ++ sample) rest)
    ∙ scrape_comment help ((line (b'#' ∷ kind) ++ sample) ++ rest)
        (text-Lacks (codes " HELP ") o.name o.description (ground arith) name description)
    ∙ ap scrape (append_assoc (line (b'#' ∷ kind)) sample rest)
    ∙ scrape_comment kind (sample ++ rest)
        (text-Lacks (codes " TYPE ") o.name o.metric_type (ground arith) name metric_type)
    ∙ scrape_sample o.name n rest (record { no_line = name; no_space = spaces; no_hash = hashes })

scrape_metrics :
    (ms : List (MetricOptions × ℕ)) (rest : Bytes)
    → All (λ m. is_metric m.0 ≡ true) ms
    → scrape (print_metrics ms ++ rest) ≡ map (λ m. (m.0.name, m.1)) ms ++ scrape rest
unfolding print_metrics
scrape_metrics [] rest h = refl
scrape_metrics ((o, n) ∷ ms) rest (h, hs) =
    ap scrape (append_assoc (print_statistics o n) (print_metrics ms) rest)
    ∙ scrape_metric o n (print_metrics ms ++ rest) h
    ∙ ap (λ t. (o.name, n) ∷ t) (scrape_metrics ms rest hs)

metrics-are : (stats : LogStatistics) → All (λ m. is_metric m.0 ≡ true) (metrics stats)
unfolding metrics new_log_statistics is_metric is_text contains_byte
metrics-are stats = ground arith

-- The host name and the port of a target can stand in a label, and its counter is not negative as an
-- `int`.
pub record IsLabelled (t : NamedTarget) : Type 0 where
  pub host : IsName t.hostname
  pub port : IsName t.port
  pub small : t.queues.unfinished_jobs < 2 ^ 63

label-IsName : (t : NamedTarget) → IsName t.hostname → IsName t.port → IsName (queue_label t)
unfolding queue_label queue_metric
label-IsName t h p = record {
  no_line = lacks 10 (ground arith) h.no_line (ground arith) p.no_line (ground arith);
  no_space = lacks b' ' (ground arith) h.no_space (ground arith) p.no_space (ground arith);
  no_hash = lacks b'#' (ground arith) h.no_hash (ground arith) p.no_hash (ground arith);
}
  where
    lacks :
        (c : ℕ)
        → Lacks c (codes "verm_replication_queue_length{target=\"")
        → Lacks c t.hostname
        → Lacks c (codes ":")
        → Lacks c t.port
        → Lacks c (codes "\"}")
        → Lacks c (queue_label t)
    lacks c a b d e f =
        All-append (λ b. b ≢ c) (codes "verm_replication_queue_length{target=\"") _ a
          (All-append (λ b. b ≢ c) t.hostname _ b
            (All-append (λ b. b ≢ c) (codes ":") _ d (All-append (λ b. b ≢ c) t.port _ e f)))

counted :
    (t : NamedTarget) → IsLabelled t → decimal (queue_length t) ≡ itoa t.queues.unfinished_jobs
unfolding queue_length wrap64 decimal
counted t h =
    let small : wrap64 t.queues.unfinished_jobs 0 ≡ pos t.queues.unfinished_jobs =
      ground (arith, h.small) in
    ap decimal small

sample_of : NamedTarget → Bytes × ℕ
sample_of t = (queue_label t, t.queues.unfinished_jobs)

scrape_queues :
    (targets : List NamedTarget)
    → All IsLabelled targets
    → scrape (print_queues targets) ≡ map sample_of targets
unfolding print_queues sample_of
scrape_queues [] h = scrape-nil
scrape_queues (t ∷ targets) (h, hs) =
    ap (λ d. scrape (line (queue_label t ++ b' ' ∷ d) ++ print_queues targets)) (counted t h)
    ∙ scrape_sample (queue_label t) t.queues.unfinished_jobs (print_queues targets)
        (label-IsName t h.host h.port)
    ∙ ap (λ s. sample_of t ∷ s) (scrape_queues targets hs)

scrape_string :
    (targets : List NamedTarget)
    → All IsLabelled targets
    → scrape (statistics_string targets) ≡ map sample_of targets
unfolding statistics_string queue_metric
scrape_string [] h = scrape-nil
scrape_string (t ∷ targets) h =
    scrape_comment
      (codes
        " HELP verm_replication_queue_length Number of files in the queue to be replicated to each configured replica.")
      (line (codes "# TYPE verm_replication_queue_length gauge") ++ print_queues (t ∷ targets))
      (ground arith)
    ∙ scrape_comment (codes " TYPE verm_replication_queue_length gauge")
        (print_queues (t ∷ targets)) (ground arith)
    ∙ scrape_queues (t ∷ targets) h

-- All the counters under the names that a plugin knows them by.
abbrev pub counters : LogStatistics → List (Bytes × ℕ)
counters stats =
    (codes "verm_get_requests_total", stats.get_requests)
    ∷ (codes "verm_get_requests_found_on_replica_total", stats.get_requests_found_on_replica)
    ∷ (codes "verm_get_requests_not_found_total", stats.get_requests_not_found)
    ∷ (codes "verm_post_requests_total", stats.post_requests)
    ∷ (codes "verm_post_requests_new_file_stored_total", stats.post_requests_new_file_stored)
    ∷ (codes "verm_post_requests_failed_total", stats.post_requests_failed)
    ∷ (codes "verm_put_requests_total", stats.put_requests)
    ∷ (codes "verm_put_requests_new_file_stored_total", stats.put_requests_new_file_stored)
    ∷ (codes "verm_put_requests_missing_file_checks_total", stats.put_requests_missing_file_checks)
    ∷ (codes "verm_put_requests_failed_total", stats.put_requests_failed)
    ∷ (codes "verm_replication_push_attempts_total", stats.replication_push_attempts)
    ∷ (codes "verm_replication_push_attempts_failed_total", stats.replication_push_attempts_failed)
    ∷ (codes "verm_connections_current", stats.connections_current)
    ∷ []

metrics-counters :
    (stats : LogStatistics) → map (λ m. (m.0.name, m.1)) (metrics stats) ≡ counters stats
unfolding metrics new_log_statistics
metrics-counters stats = refl

-- A plugin that leaves the lines with a hash sign out reads all counters from the page of statistics,
-- under their names and in their order, and behind them the length of the queue of each target. The
-- names and ports of the targets have no line break, space or hash sign, and the counters of their jobs
-- are below 2^63.
pub scrape-serve_statistics :
    (stats : LogStatistics) (targets : List NamedTarget)
    → All IsLabelled targets
    → scrape (serve_statistics stats targets)
      ≡ counters stats ++ map (λ t. (queue_label t, t.queues.unfinished_jobs)) targets
unfolding serve_statistics sample_of
scrape-serve_statistics stats targets h =
    scrape_metrics (metrics stats) (statistics_string targets) (metrics-are stats)
    ∙ ap₂ (λ x y. x ++ y) (metrics-counters stats) (scrape_string targets h)
